-- ===== src/Examples/Start.antt =====
-- Instances of the theorems on main and on the constructor of DataBase.
use wwdedup.Cache.Storage.{open_storage, signature}
use wwdedup.Cache.Threads.{CacheSlot, Threads, cache_of}
use wwdedup.Database.Opening.{
  Process, attempt, init_database, init_once, open_database, prepare_statements,
}
use wwdedup.Database.Opening.Opened.{Opens, Throws, open_database-lacking, open_database-root}
use wwdedup.Effects.{Exec, ok, pure, throws, ◌>>=◌}
use wwdedup.Examples.OneFile.{one_world}
use wwdedup.Examples.Setup.{small_env}
use wwdedup.Main.Session.{main-closes, main-refused, run_main, running}
use wwdedup.Prelude.{List, [], arith, eqb, false, none, pos, refl, some, true, ℤ, ◌^◌, ◌∷◌, ◌≡◌}
use wwdedup.Sql.{get_by_path_row, has_path}
use wwdedup.Types.{Bytes, FilePath, Options}

abbrev flag : FilePath
flag = b'-' ∷ b'f' ∷ []

abbrev database : FilePath
database = b'd' ∷ []

abbrev mount_point : FilePath
mount_point = b'm' ∷ []

abbrev nothing : Threads
nothing = record { caches = []; filesystems = []; storage = none; databases = []; next_db = 0 }

-- A mount that ends at once.
abbrev quits : List FilePath → Options → Exec Threads ℤ
quits args opts = pure (pos 0)

abbrev own_cache : CacheSlot
own_cache = record {
  thread = 1;
  object = record { db = none; terminated = some false; writer = true; block_size_bits = 16 };
}

abbrev new_storage : Bytes
new_storage = signature (2 ^ 16) []

main-closes_example :
    let ended = run_main 1 database (flag ∷ []) (mount_point ∷ []) true [] [] quits nothing true in
    (ended.0 ≡ ok (pos 0)) × (ended.1.storage ≡ none) × (cache_of 1 ended.1 ≡ none)
unfolding open_storage
main-closes_example =
    main-closes 1 database (flag ∷ []) (mount_point ∷ []) true [] [] quits nothing new_storage
      (pos 0) (running 1 new_storage nothing) own_cache refl refl refl refl refl refl

-- A file that is no storage file.
main-refused_example :
    run_main 1 database (flag ∷ []) (mount_point ∷ []) true [] (1 ∷ []) quits nothing true
    ≡ (throws, record nothing { storage = some (1 ∷ []) })
unfolding open_storage
main-refused_example =
    main-refused 1 database (flag ∷ []) (mount_point ∷ []) true [] (1 ∷ []) quits nothing true refl
      refl refl refl

abbrev fresh_process : Process
fresh_process = record {
  init_done = false;
  schema = record { has_files = false; has_file_blocks = false; has_block_hashes = false };
  world = one_world;
}

open_database-root_example : Opens small_env one_world fresh_process
unfolding get_by_path_row has_path eqb
open_database-root_example =
    open_database-root small_env fresh_process refl (λ e. absurd (ground (arith, e))) refl

-- init cannot make the first table, and its exception is caught.
abbrev unlucky : Process
unlucky = record fresh_process {
  world = record one_world { faults = false ∷ false ∷ false ∷ true ∷ [] };
}

open_database-lacking_example : Throws (open_database small_env) (open_database small_env unlucky).1
unfolding open_database init_once init_database prepare_statements attempt ◌>>=◌
open_database-lacking_example =
    open_database-lacking small_env (open_database small_env unlucky).1 refl refl
