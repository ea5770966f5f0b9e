-- ===== src/Cache/Threads.antt =====
-- blockscache.cpp and dedupfs.cpp: the objects of each thread, and the descriptor of the storage file
-- that all of them share.
use wwdedup.Cache.Storage.{open_storage}
use wwdedup.Effects.{◌>>=◌, ◌>>◌, Exec, Outcome, gets, modify, ok, pure, throw}
use wwdedup.Prelude.{
  is_some, Bool, List, Option, false, find_first, if◌then◌else◌, none, not, select, some, suc, true,
  update_where, ℕ, ◌==◌, ◌^◌, ◌∷◌,
}
use wwdedup.Types.{Bytes}

-- A BlocksCache. `terminated` is none where the constructor leaves it uninitialised; `writer` says
-- whether `thr` was started.
pub record CacheObject : Type 0 where
  pub db : Option ℕ
  pub terminated : Option Bool
  pub writer : Bool
  pub block_size_bits : ℕ

pub record CacheSlot : Type 0 where
  pub thread : ℕ
  pub object : CacheObject

-- The DedupFS of a thread, by the DataBase that it made.
pub record FsSlot : Type 0 where
  pub thread : ℕ
  pub db : ℕ

-- The two thread_specific_ptr `_instance`, the file behind `_storage` while it is open, and the
-- DataBase objects that were made and not deleted.
pub record Threads : Type 0 where
  pub caches : List CacheSlot
  pub filesystems : List FsSlot
  pub storage : Option Bytes
  pub databases : List ℕ
  pub next_db : ℕ

abbrev pub of_thread : ℕ → CacheSlot → Bool
of_thread t s = s.thread == t

abbrev pub fs_of_thread : ℕ → FsSlot → Bool
fs_of_thread t s = s.thread == t

-- _instance.get() in blockscache.cpp
abbrev pub cache_of : ℕ → Threads → Option CacheSlot
cache_of t s = find_first (of_thread t) s.caches

-- _instance.get() in dedupfs.cpp
abbrev pub fs_of : ℕ → Threads → Option FsSlot
fs_of t s = find_first (fs_of_thread t) s.filesystems

abbrev pub add_cache : ℕ → CacheObject → Threads → Threads
add_cache t o s = record s { caches = record { thread = t; object = o } ∷ s.caches }

-- BlocksCache::start, once the storage file was opened, or not. A constructor that throws after the
-- opening leaves the file open.
unfoldable pub start_opened : ℕ → ℕ → Bool → Bytes → Outcome Bytes → Exec Threads (Unit {0})
start_opened t bits opened file (ok bytes) = modify (λ s.
    add_cache t
      (record { db = none; terminated = some false; writer = true; block_size_bits = bits })
      (record s { storage = some bytes }))
start_opened t bits opened file r = do
  modify (λ s. record s { storage = if opened then some file else none })
  throw

-- BlocksCache::start
unfoldable pub start_cache : ℕ → ℕ → Bool → Bool → Bytes → Bytes → Exec Threads (Unit {0})
unfolding start_opened open_storage
start_cache t bits opened wrote buffer file = do
  own ← gets (cache_of t)
  if is_some own
      then pure tt
      else start_opened t bits opened file (open_storage (2 ^ bits) opened wrote buffer file)

abbrev pub set_db : ℕ → CacheSlot → CacheSlot
set_db db c = record c {
  object = record c.object { db = if is_some c.object.db then c.object.db else some db };
}

-- BlocksCache::getThreadInstance
unfoldable pub get_thread_instance : ℕ → ℕ → ℕ → Exec Threads (Unit {0})
get_thread_instance t db bits = do
  own ← gets (cache_of t)
  if is_some own
      then pure tt
      else modify (
          add_cache t
            (record { db = some db; terminated = none; writer = false; block_size_bits = bits }))
  modify (λ s. record s { caches = update_where (of_thread t) (set_db db) s.caches })

-- BlocksCache::~BlocksCache: it waits for the end of its writer thread, if it has one, and closes
-- `_storage`.
unfoldable pub destroy_cache : Exec Threads (Unit {0})
destroy_cache = modify (λ s. record s { storage = none })

-- BlocksCache::stop, and what the end of a thread does to its `_instance`.
unfoldable pub stop_cache : ℕ → Exec Threads (Unit {0})
unfolding destroy_cache
stop_cache t = do
  own ← gets (cache_of t)
  if is_some own
      then (do
        modify (λ s. record s { caches = select (λ c. not (of_thread t c)) s.caches })
        destroy_cache)
      else pure tt

-- DedupFS::DedupFS
unfoldable pub make_filesystem : ℕ → ℕ → Exec Threads (Unit {0})
unfolding get_thread_instance
make_filesystem t bits = do
  db ← gets (λ s. s.next_db)
  modify (λ s. record s { databases = db ∷ s.databases; next_db = suc db })
  get_thread_instance t db bits
  modify (λ s. record s { filesystems = record { thread = t; db = db } ∷ s.filesystems })

-- DedupFS::Instance
unfoldable pub instance_of : ℕ → ℕ → Exec Threads (Unit {0})
unfolding make_filesystem
instance_of t bits = do
  own ← gets (fs_of t)
  if is_some own then pure tt else make_filesystem t bits

abbrev without_db : Option FsSlot → List ℕ → List ℕ
without_db none dbs = dbs
without_db (some f) dbs = select (λ d. not (d == f.db)) dbs

-- DedupFS::~DedupFS, at the end of a thread
unfoldable pub drop_filesystem : ℕ → Exec Threads (Unit {0})
drop_filesystem t = modify (λ s. record s {
  filesystems = select (λ f. not (fs_of_thread t f)) s.filesystems;
  databases = without_db (fs_of t s) s.databases;
})

-- A thread ends: boost deletes what its two thread_specific_ptr hold.
unfoldable pub end_thread : ℕ → Exec Threads (Unit {0})
unfolding drop_filesystem stop_cache
end_thread t = do drop_filesystem t; stop_cache t
