-- ===== src/Main.antt =====
-- main.cpp: the command line, the options of the mount, and what main does around fuse_main.
pub mod Arguments
pub mod Session
use wwdedup.Cache.Threads.{Threads, start_cache, stop_cache}
use wwdedup.Effects.{Exec, Outcome, aborts, ok, pure, ◌>>=◌, ◌>>◌}
use wwdedup.Prelude.{
  Bool, List, Option, [], false, if◌then◌else◌, none, some, suc, zero, ℕ, ℤ, ◌==◌, ◌^◌, ◌∷◌,
}
use wwdedup.Types.{Bytes, FilePath, Options}

-- argv[i][0] == '-'
abbrev pub is_option : FilePath → Bool
is_option [] = false
is_option (c ∷ cs) = c == b'-'

-- The arguments from argv[1] on, after those that the first loop passes over.
unfoldable pub skip_options : List FilePath → ℕ
skip_options [] = 0
skip_options (a ∷ as') = let n = skip_options as' in if is_option a then suc n else 0

-- argv[i], which is null behind the last argument
abbrev pub get_elem? : ℕ → List FilePath → Option FilePath
get_elem? i [] = none
get_elem? zero (a ∷ as') = some a
get_elem? (suc i) (a ∷ as') = get_elem? i as'

-- The second loop, which copies each argument from i + 1 on to its left, and argc--.
unfoldable pub shift_left : ℕ → List FilePath → List FilePath
shift_left i [] = []
shift_left zero (a ∷ []) = []
shift_left zero (a ∷ b ∷ bs) = b ∷ shift_left zero (b ∷ bs)
shift_left (suc i) (a ∷ as') = a ∷ shift_left i as'

abbrev with_url : List FilePath → ℕ → Option FilePath → Outcome (FilePath × List FilePath)
with_url args i none = aborts
with_url args i (some url) = ok (url, shift_left i args)

-- The database and the arguments left for fuse_main, of those from argv[1] on. Without a database
-- the string is made from a null pointer.
unfoldable pub take_db_url : List FilePath → Outcome (FilePath × List FilePath)
unfolding skip_options shift_left
take_db_url args = with_url args (skip_options args) (get_elem? (skip_options args) args)

-- The options that main hands to FUSE: blocks of 64 KB.
abbrev pub mount_options : FilePath → Options
mount_options url = record { block_size_bits = 16; block_size = 2 ^ 16; db_url = url }

abbrev outcome : {S A : Type 0} → Outcome A → Exec S A
outcome r s = (r, s)

-- main, in thread `t`, over the arguments from argv[1] on. `opened`, `wrote`, `buffer` and `file` are
-- as in open_storage; `fuse_main` is the library's, with the table of operations and the signal
-- that ends it. The handler for sql::Exception never runs: start throws a system_error or a
-- runtime_error, and fuse_main, a C function, nothing.
unfoldable pub main :
    ℕ
    → List FilePath
    → Bool
    → Bool
    → Bytes
    → Bytes
    → (List FilePath → Options → Exec Threads ℤ)
    → Exec Threads ℤ
unfolding take_db_url start_cache stop_cache
main t args opened wrote buffer file fuse_main = do
  taken ← outcome (take_db_url args)
  start_cache t 16 opened wrote buffer file
  fuse_stat ← fuse_main (taken.1) (mount_options (taken.0))
  stop_cache t
  pure fuse_stat
