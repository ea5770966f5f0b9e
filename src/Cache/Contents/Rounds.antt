-- ===== src/Cache/Contents/Rounds.antt =====
-- The writer thread against the content of the storage blocks.
use wwdedup.Cache.Contents.{IsCache, serial_of, stored}
use wwdedup.Cache.Contents.Flushed.{
  IsBacked, Kept, Kept-erased, Kept-held, clean_after, contents, contents-flushed, disk-Kept,
  save_each_clean, to_delete-clean,
}
use wwdedup.Cache.Eviction.{find_first-erase_each}
use wwdedup.Cache.Flush.{flushed, oldest, save_all-flushed}
use wwdedup.Cache.Writer.{erase_each, evict, run_round, to_delete}
use wwdedup.Database.Pointers.{has_num, has_serial}
use wwdedup.Effects.{ok, ◌>>=◌}
use wwdedup.Prelude.{
  is_some, Bool, Bool-cases, Distinct, List, [], false, find_first, if◌then◌else◌, inl, inr, length,
  ltb, refl, some, subst, sym, ℕ, ◌&&◌, ◌≡◌,
}
use wwdedup.State.{World}
use wwdedup.Types.{Bytes, StorageBlock}

module _ (repeat : Bool) (w : World) where
  -- The world that the round starts its loops in.
  abbrev pub woken : World
  woken = record w { write_triggered = repeat && w.write_triggered }

  abbrev pub saved_world : World
  saved_world = flushed w.blocks woken

  abbrev pub doomed : List StorageBlock
  doomed = to_delete (oldest w.blocks w.now) 0 saved_world.blocks

  abbrev pub erased_world : World
  erased_world = record saved_world { blocks = erase_each doomed saved_world.blocks }

  pub run_round-quiet :
      w.faults ≡ []
      → Distinct has_serial serial_of w.blocks
      → run_round repeat w ≡ (
          if ltb 500 (length saved_world.blocks)
          then (ok (ltb 500 (length erased_world.blocks)), erased_world)
          else (ok false, saved_world))
  unfolding run_round evict ◌>>=◌
  run_round-quiet q d =
      let clean =
        to_delete-clean (oldest w.blocks w.now) 0 saved_world.blocks (clean_after woken d) in
      rw (save_all-flushed w.blocks w.now woken q)
        (elim (Bool-cases (ltb 500 (length saved_world.blocks))) [
          | inl big ↦ rw (big, save_each_clean doomed saved_world clean) refl
          | inr small ↦ rw small refl
        ])

  -- Where no call fails, the cache has each number once and objects do not share a serial, and a
  -- cached object of the number is dirty only with data, and clean with data only where the
  -- storage file has these data: a round of the writer thread, with what it evicts, keeps the
  -- content of the storage block, as _populateStorageBlock would find it.
  pub run_round-stored :
      (n : ℕ) (c : Bytes)
      → w.faults ≡ []
      → IsCache w.next_serial w.blocks
      → IsBacked w (find_first (has_num n) w.blocks)
      → stored n w ≡ some c
      → stored n (run_round repeat w).1 ≡ some c
  unfolding stored
  run_round-stored n c q k backed e =
      let kept : Kept n c saved_world (contents (find_first (has_num n) saved_world.blocks)) =
        subst (Kept n c saved_world) (sym (contents-flushed (has_num n) (λ a. refl) w.blocks woken))
          (disk-Kept n c woken (find_first (has_num n) w.blocks) refl k.nums backed e) in
      rw (run_round-quiet q k.serials) (elim (Bool-cases (ltb 500 (length saved_world.blocks))) [
        | inl big ↦
            rw (big, find_first-erase_each n doomed saved_world.blocks)
              (Kept-held n c saved_world _
                (Kept-erased n c saved_world (is_some (find_first (has_num n) doomed)) _ kept))
        | inr small ↦ rw small (Kept-held n c saved_world _ kept)
      ])
