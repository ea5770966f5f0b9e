-- ===== src/Cache/Writer.antt =====
-- blockscache.cpp: one round of the thread that writes storage blocks out and evicts them.
use wwdedup.Prelude.{
  ℕ, ◌+◌, min, Bool, false, not, ◌&&◌, List, [], ◌∷◌, ltb, length, select, if◌then◌else◌,
}
use wwdedup.Effects.{pure, gets, modify, ◌>>=◌, ◌>>◌}
use wwdedup.Types.{StorageBlock}
use wwdedup.State.{M}
use wwdedup.Database.Pointers.{has_num, set_block}
use wwdedup.Cache.Storage.{write_out}

abbrev pub clean : StorageBlock → StorageBlock
clean b = record b { dirty = false }

-- if (block->dirty) { pwrite(…); block->dirty = false; }
unfoldable pub save_block : StorageBlock → M (Unit {0})
unfolding write_out set_block
save_block b = if b.dirty then (do write_out b; modify (set_block b.serial clean)) else pure tt

-- The first loop: every dirty block is written; the oldest access time.
unfoldable pub save_all : List StorageBlock → ℕ → M ℕ
unfolding save_block
save_all [] mintime = pure mintime
save_all (b ∷ bs) mintime = do save_block b; save_all bs (min mintime b.atime)

-- The second loop: at most 64 blocks that were not used within ten seconds of the oldest.
unfoldable pub to_delete : ℕ → ℕ → List StorageBlock → List StorageBlock
to_delete mintime taken [] = []
to_delete mintime taken (b ∷ bs) =
    if ltb 63 taken
    then []
    else if ltb b.atime (mintime + 10)
    then b ∷ to_delete mintime (taken + 1) bs
    else to_delete mintime taken bs

unfoldable pub save_each : List StorageBlock → M (Unit {0})
unfolding save_block
save_each [] = pure tt
save_each (b ∷ bs) = do save_block b; save_each bs

-- _blocks->erase of each
unfoldable pub erase_each : List StorageBlock → List StorageBlock → List StorageBlock
erase_each [] bs = bs
erase_each (d ∷ ds) bs = erase_each ds (select (λ b. not (has_num d.storage_block_num b)) bs)

abbrev max_cached : ℕ
max_cached = 500

-- The eviction of a cache that has grown too large: whether to repeat at once.
unfoldable pub evict : ℕ → M Bool
unfolding to_delete save_each erase_each
evict mintime = do
  blocks ← gets (λ w. w.blocks)
  if ltb max_cached (length blocks)
      then (do
        save_each (to_delete mintime 0 blocks)
        modify (λ w. record w { blocks = erase_each (to_delete mintime 0 blocks) w.blocks })
        left ← gets (λ w. w.blocks)
        pure (ltb max_cached (length left)))
      else pure false

-- One round of the loop of BlocksCache::run, after its wait, which `repeat` leaves out. The
-- result is the next `repeat`.
unfoldable pub run_round : Bool → M Bool
unfolding save_all evict
run_round repeat = do
  modify (λ w. record w { write_triggered = repeat && w.write_triggered })
  now ← gets (λ w. w.now)
  blocks ← gets (λ w. w.blocks)
  mintime ← save_all blocks now
  evict mintime
