-- ===== src/Cache/Lifetimes.antt =====
-- blockscache.cpp and dedupfs.cpp: which objects the threads have, and what the end of one does to the
-- others.
use wwdedup.Cache.Threads.{
  CacheSlot, FsSlot, Threads, cache_of, drop_filesystem, end_thread, fs_of, fs_of_thread,
  get_thread_instance, instance_of, make_filesystem, of_thread, set_db, stop_cache,
}
use wwdedup.Effects.{ok, ◌>>=◌}
use wwdedup.Prelude.{
  ==_refl, List, Option, [], arith, false, find_first, find_first-select-not, none, not, refl,
  select, some, update_where, ℕ, ◌==◌, ◌∷◌, ◌≡◌,
}

module _ {A : Type 0} (thread : A → ℕ) (t u : ℕ) where
  others_selected :
      (xs : List A)
      → (u == t) ≡ false
      → find_first (λ a. thread a == u) (select (λ a. not (thread a == t)) xs)
        ≡ find_first (λ a. thread a == u) xs
  others_selected [] ne = refl
  others_selected (a ∷ xs) ne = ground (arith, ne, others_selected xs ne)

  others_updated :
      (f : A → A) (xs : List A)
      → ((a : A) → thread (f a) ≡ thread a)
      → (u == t) ≡ false
      → find_first (λ a. thread a == u) (update_where (λ a. thread a == t) f xs)
        ≡ find_first (λ a. thread a == u) xs
  others_updated f [] k ne = refl
  others_updated f (a ∷ xs) k ne = ground (arith, k a, ne, others_updated f xs k ne)

abbrev pub db_of : Option CacheSlot → Option ℕ
db_of none = none
db_of (some c) = c.object.db

-- After DedupFS::Instance of a thread that had neither a DedupFS nor a BlocksCache, the thread has
-- both, on one DataBase that was made for it; a second call changes nothing; and no other thread's
-- objects nor the storage file are touched.
pub instance_of-thread :
    (t u bits : ℕ) (s : Threads)
    → fs_of t s ≡ none
    → cache_of t s ≡ none
    → (u == t) ≡ false
    → let after = (instance_of t bits s).1 in
      (db_of (cache_of t after) ≡ some s.next_db)
      × (fs_of t after ≡ some (record { thread = t; db = s.next_db }))
      × (instance_of t bits after ≡ (ok tt, after))
      × (cache_of u after ≡ cache_of u s)
      × (fs_of u after ≡ fs_of u s)
      × (after.storage ≡ s.storage)
unfolding instance_of make_filesystem get_thread_instance ◌>>=◌
instance_of-thread t u bits s f c ne =
    rw (f, c, ==_refl t)
      (
        rw (==_refl t) refl,
        refl,
        refl,
        rw (swapped ne) (
            others_updated (λ (x : CacheSlot). x.thread) t u (set_db s.next_db) s.caches (λ a. refl)
              ne),
        ground (arith, ne),
        refl,
      )
  where
    swapped : (u == t) ≡ false → (t == u) ≡ false
    swapped e = ground (arith, e)

-- When a thread that had a BlocksCache ends, the others keep their objects, and the storage file
-- is closed for all of them, whether or not one of them has the writer thread.
pub end_thread-closes :
    (t u : ℕ) (s : Threads) (own : CacheSlot)
    → cache_of t s ≡ some own
    → (u == t) ≡ false
    → let after = (end_thread t s).1 in
      (after.storage ≡ none)
      × (cache_of t after ≡ none)
      × (fs_of t after ≡ none)
      × (cache_of u after ≡ cache_of u s)
      × (fs_of u after ≡ fs_of u s)
unfolding end_thread stop_cache drop_filesystem ◌>>=◌
end_thread-closes t u s own e ne = rw e (
  refl,
  find_first-select-not (of_thread t) s.caches,
  find_first-select-not (fs_of_thread t) s.filesystems,
  others_selected (λ (x : CacheSlot). x.thread) t u s.caches ne,
  others_selected (λ (x : FsSlot). x.thread) t u s.filesystems ne,
)
