-- ===== src/Cache/Contents/Durable.antt =====
-- The writer thread: what is in the storage file after a round.
use wwdedup.Cache.Contents.{IsCache, on_disk, stored}
use wwdedup.Cache.Contents.Flushed.{IsBacked, Kept, clean_after, disk-Kept, is_dirty}
use wwdedup.Cache.Contents.Rounds.{doomed, run_round-quiet, saved_world, woken}
use wwdedup.Cache.Writer.{erase_each, run_round}
use wwdedup.Database.Pointers.{has_num}
use wwdedup.Prelude.{
  Bool, Bool-cases, List, Option, [], find_first, find_first-select-none, inl, inr, length, ltb,
  none, refl, some, ℕ, ◌∷◌, ◌≡◌,
}
use wwdedup.State.{World}
use wwdedup.Types.{Bytes, StorageBlock}

Kept-disk :
    (n : ℕ) (c : Bytes) (w : World) (o : Option Bytes)
    → Kept n c w o
    → on_disk w.disk w.disk_blocks n ≡ some c
Kept-disk n c w none k = k
Kept-disk n c w (some d) k = k.0

none_dirty_erased :
    (ds bs : List StorageBlock)
    → find_first is_dirty bs ≡ none
    → find_first is_dirty (erase_each ds bs) ≡ none
unfolding erase_each
none_dirty_erased [] bs e = e
none_dirty_erased (d ∷ ds) bs e = none_dirty_erased ds _ (find_first-select-none is_dirty _ bs e)

abbrev Durable : ℕ → Bytes → World → Type 0
Durable n c w = (on_disk w.disk w.disk_blocks n ≡ some c) × (find_first is_dirty w.blocks ≡ none)

-- A round leaves no dirty block.
pub run_round-clean :
    (repeat : Bool) (w : World)
    → w.faults ≡ []
    → IsCache w.next_serial w.blocks
    → find_first is_dirty (run_round repeat w).1.blocks ≡ none
run_round-clean repeat w q k =
    let saved = saved_world repeat w in
    let clean = clean_after (woken repeat w) k.serials in
    rw (run_round-quiet repeat w q k.serials) (elim (Bool-cases (ltb 500 (length saved.blocks))) [
      | inl big ↦ rw big (none_dirty_erased (doomed repeat w) saved.blocks clean)
      | inr small ↦ rw small clean
    ])

-- Where no call fails, the cache has each number once and objects do not share a serial, and a
-- cached object of the number is dirty only with data, and clean with data only where the storage
-- file has these data: a round of the writer thread leaves no dirty block, and what
-- _populateStorageBlock would have found for the storage block is then in the storage file.
pub run_round-on_disk :
    (repeat : Bool) (w : World) (n : ℕ) (c : Bytes)
    → w.faults ≡ []
    → IsCache w.next_serial w.blocks
    → IsBacked w (find_first (has_num n) w.blocks)
    → stored n w ≡ some c
    → Durable n c (run_round repeat w).1
unfolding stored
run_round-on_disk repeat w n c q k backed e =
    let saved = saved_world repeat w in
    let there =
      Kept-disk n c saved _
        (disk-Kept n c (woken repeat w) (find_first (has_num n) w.blocks) refl k.nums backed e) in
    (
      rw (run_round-quiet repeat w q k.serials) (elim (Bool-cases (ltb 500 (length saved.blocks))) [
        | inl big ↦ rw big there
        | inr small ↦ rw small there
      ]),
      run_round-clean repeat w q k,
    )
