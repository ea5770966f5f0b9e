-- ===== src/Examples/Setup.antt =====
-- A small mount to run the code on: blocks of two bytes, a hash that is the identity, keys
-- counted from 1, and LIKE by a literal prefix.
use wwdedup.Prelude.{
  ℕ, ◌+◌, Bool, true, false, ◌&&◌, none, List, [], ◌∷◌, ◌==◌, leb, if◌then◌else◌, pos,
}
use wwdedup.Types.{FilePath, FileInfo}
use wwdedup.State.{Env, World}

abbrev pub max_key : List ℕ → ℕ
max_key [] = 0
max_key (k ∷ ks) = let m = max_key ks in if leb k m then m else k

-- A pattern that ends in `%`, matched by its prefix.
abbrev prefix_like : FilePath → FilePath → Bool
prefix_like [] [] = true
prefix_like [] (b ∷ bs) = false
prefix_like (b ∷ []) [] = b == b'%'
prefix_like (b ∷ c ∷ cs) [] = false
prefix_like (b ∷ bs) (c ∷ cs) =
    let rest = prefix_like bs cs in if b == b'%' then true else (b == c) && rest

abbrev parent : FilePath → FilePath
parent p = b'/' ∷ []

abbrev pub small_env : Env
small_env = record {
  block_size_bits = 1;
  db_block_size = 2;
  murmur = λ bs. bs;
  new_rowid = λ ks. max_key ks + 1;
  like = prefix_like;
  branch_path = parent;
  leaf = λ p. p;
  stale_mode = 0;
}

abbrev pub blank_file : FileInfo
blank_file = record {
  refcount = 0;
  name = [];
  depth = pos 0;
  st = record { ino = 0; size = 0; mode = 0; uid = 0; gid = 0; mtime = pos 0; ctime = pos 0 };
  blocks = [];
}

abbrev pub blank_world : World
blank_world = record {
  tables = record { files = []; file_blocks = []; block_hashes = [] };
  saved = none;
  last_insert_id = 0;
  faults = [];
  blocks = [];
  next_serial = 0;
  disk = λ n. [];
  disk_blocks = 1;
  file = blank_file;
  now = 100;
  write_triggered = false;
}
