-- ===== src/Main/Session.antt =====
-- main.cpp: what main leaves behind.
use wwdedup.Cache.Storage.{open_storage}
use wwdedup.Cache.Threads.{
  CacheSlot, Threads, add_cache, cache_of, of_thread, start_cache, start_opened, stop_cache,
}
use wwdedup.Effects.{Exec, Outcome, ok, throws, ◌>>=◌}
use wwdedup.Main.{is_option, main, mount_options}
use wwdedup.Main.Arguments.{AllOptions, take_db_url-append}
use wwdedup.Prelude.{
  Bool, List, false, find_first-select-not, if◌then◌else◌, none, refl, some, true, ℕ, ℤ, ◌++◌, ◌^◌,
  ◌∷◌, ◌≡◌,
}
use wwdedup.Types.{Bytes, FilePath, Options}

-- The state in which fuse_main is called.
abbrev pub running : ℕ → Bytes → Threads → Threads
running t bytes s =
    add_cache t (record { db = none; terminated = some false; writer = true; block_size_bits = 16 })
      (record s { storage = some bytes })

module _ (t : ℕ) (db : FilePath) (opts rest : List FilePath) (wrote : Bool) (buffer file : Bytes)
    (fuse_main : List FilePath → Options → Exec Threads ℤ) (s : Threads) where
  -- main on these arguments
  abbrev pub run_main : Bool → Outcome ℤ × Threads
  run_main opened = main t (opts ++ db ∷ rest) opened wrote buffer file fuse_main s

  -- Where there is a database argument, the thread has no BlocksCache, and the storage file is
  -- opened, fuse_main is called with the other arguments and the options of the mount, on the
  -- storage file and with the thread's new BlocksCache; where it returns and that object is still
  -- there, main returns its result, with the storage file closed and the object deleted.
  pub main-closes :
      (bytes : Bytes) (stat : ℤ) (v : Threads) (own : CacheSlot)
      → AllOptions opts
      → is_option db ≡ false
      → cache_of t s ≡ none
      → open_storage (2 ^ 16) true wrote buffer file ≡ ok bytes
      → fuse_main (opts ++ rest) (mount_options db) (running t bytes s) ≡ (ok stat, v)
      → cache_of t v ≡ some own
      → ((run_main true).0 ≡ ok stat)
        × ((run_main true).1.storage ≡ none)
        × (cache_of t (run_main true).1 ≡ none)
  unfolding main start_cache start_opened stop_cache ◌>>=◌
  main-closes bytes stat v own h e absent opens runs there =
      rw ((take_db_url-append db opts rest h e).0) (
        rw absent (
          rw opens (rw runs (rw there (refl, refl, find_first-select-not (of_thread t) v.caches)))))

  -- Where the storage file is refused, main ends by the exception of BlocksCache::start, whatever
  -- fuse_main would do, and leaves the file open if it was opened.
  pub main-refused :
      (opened : Bool)
      → AllOptions opts
      → is_option db ≡ false
      → cache_of t s ≡ none
      → open_storage (2 ^ 16) opened wrote buffer file ≡ throws
      → run_main opened ≡ (throws, record s { storage = if opened then some file else none })
  unfolding main start_cache start_opened ◌>>=◌
  main-refused opened h e absent refused =
      rw ((take_db_url-append db opts rest h e).0) (rw absent (rw refused refl))
