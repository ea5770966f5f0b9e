-- ===== src/Cache/Loop/Stopping.antt =====
-- blockscache.cpp: what the writer thread still writes when the cache is stopped.
use wwdedup.Cache.Contents.{IsCache, on_disk, stored}
use wwdedup.Cache.Contents.Durable.{run_round-clean, run_round-on_disk}
use wwdedup.Cache.Contents.Flushed.{IsBacked, is_dirty}
use wwdedup.Cache.Contents.Rounds.{erased_world, run_round-quiet, saved_world}
use wwdedup.Cache.Loop.{
  Place, Writer, finished, join_writer, sleeping, stop_writer, testing, waiting, working,
  writer_step,
}
use wwdedup.Cache.Writer.{run_round}
use wwdedup.Database.Pointers.{has_num}
use wwdedup.Effects.{ok, ◌>>=◌}
use wwdedup.Prelude.{
  Bool, Bool-cases, [], false, find_first, inl, inr, length, ltb, none, refl, some, true, ℕ, ◌≡◌,
  ◌⊎◌,
}
use wwdedup.State.{World}
use wwdedup.Types.{Bytes, StorageBlock}

-- The thread will still go through its loops before it tests `terminated`.
abbrev pub RoundAhead : Place → Type 0
RoundAhead p = (p ≡ waiting) ⊎ (p ≡ working)

-- It will not.
abbrev pub RoundOver : Place → Type 0
RoundOver p = (p ≡ testing) ⊎ (p ≡ sleeping)

abbrev Returned : Bool → World → Type 0
Returned repeat w = (again : Bool) × (run_round repeat w ≡ (ok again, (run_round repeat w).1))

pub round_returns :
    (repeat : Bool) (w : World) → w.faults ≡ [] → IsCache w.next_serial w.blocks → Returned repeat w
round_returns repeat w q k =
    rw (run_round-quiet repeat w q k.serials)
      (elim (Bool-cases (ltb 500 (length (saved_world repeat w).blocks))) [
        | inl big ↦ rw big (ltb 500 (length (erased_world repeat w).blocks), refl)
        | inr small ↦ rw small (false, refl)
      ])

-- The thread as it ends.
abbrev ended : Writer → Bool → Writer
ended t again = record t { place = finished; repeat = again; terminated = true }

stop_ahead :
    (t : Writer) (w : World) (again : Bool)
    → RoundAhead t.place
    → run_round t.repeat w ≡ (ok again, (run_round t.repeat w).1)
    → stop_writer t w ≡ (ok (ended t again), (run_round t.repeat w).1)
unfolding stop_writer join_writer writer_step ◌>>=◌
stop_ahead t w again (inl e) r = rw e (rw r refl)
stop_ahead t w again (inr e) r = rw e (rw r refl)

stop_over :
    (t : Writer) (w : World) → RoundOver t.place → stop_writer t w ≡ (ok (ended t t.repeat), w)
unfolding stop_writer join_writer writer_step ◌>>=◌
stop_over t w (inl e) = rw e refl
stop_over t w (inr e) = rw e refl

-- Where the thread waits or is in its loops when the cache is stopped, no call fails, the cache
-- has each number once and objects do not share a serial, and each cached object is dirty only
-- with data, and clean with data only where the storage file has these data: the thread ends, no
-- block is dirty, and what _populateStorageBlock would have found for any storage block is in the
-- storage file.
pub stop_writer-on_disk :
    (t : Writer) (w : World)
    → RoundAhead t.place
    → w.faults ≡ []
    → IsCache w.next_serial w.blocks
    → ((n : ℕ) → IsBacked w (find_first (has_num n) w.blocks))
    → let after = (stop_writer t w).1 in
      ((again : Bool) × ((stop_writer t w).0 ≡ ok (ended t again)))
      × (find_first is_dirty after.blocks ≡ none)
      × ((n : ℕ) (c : Bytes)
          → stored n w ≡ some c
          → on_disk after.disk after.disk_blocks n ≡ some c)
stop_writer-on_disk t w place q k backed =
    let (again, r) = round_returns t.repeat w q k in
    rw (stop_ahead t w again place r) (
      (again, refl),
      run_round-clean t.repeat w q k,
      λ n c e. (run_round-on_disk t.repeat w n c q k (backed n) e).0,
    )

-- Where the thread has left its loops and not yet begun to wait when the cache is stopped, it ends
-- without another round: a block that is dirty stays so, and the storage file does not change.
pub stop_writer-skips :
    (t : Writer) (w : World) (n : ℕ) (b : StorageBlock)
    → RoundOver t.place
    → find_first (has_num n) w.blocks ≡ some b
    → b.dirty ≡ true
    → let after = (stop_writer t w).1 in
      ((stop_writer t w).0 ≡ ok (ended t t.repeat))
      × ((c : StorageBlock) × (find_first (has_num n) after.blocks ≡ some c) × (c.dirty ≡ true))
      × ((m : ℕ) → on_disk after.disk after.disk_blocks m ≡ on_disk w.disk w.disk_blocks m)
stop_writer-skips t w n b place found dirty =
    rw (stop_over t w place) (refl, (b, found, dirty), λ m. refl)
