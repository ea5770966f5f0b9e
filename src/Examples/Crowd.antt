-- ===== src/Examples/Crowd.antt =====
-- A cache that is too large: blocks that were used one second after the other.
use wwdedup.Cache.Contents.{is_new, num_of_block, serial_of}
use wwdedup.Cache.Contents.Evicted.{WasOld, run_round-evicts}
use wwdedup.Cache.Writer.{run_round}
use wwdedup.Database.Pointers.{has_num, has_serial}
use wwdedup.Examples.OneFile.{one_world}
use wwdedup.Prelude.{
  Distinct, List, [], arith, false, find_first, length, none, refl, some, suc, true, zero, ℕ, ◌+◌,
  ◌∷◌, ◌≡◌, ◌≤◌,
}
use wwdedup.State.{World}
use wwdedup.Types.{StorageBlock, storage_block}

abbrev block_of : ℕ → StorageBlock
block_of k = record (storage_block k k k) { content = 3 ∷ 4 ∷ []; dirty = true }

crowd : ℕ → List StorageBlock
crowd zero = []
crowd (suc k) = block_of k ∷ crowd k

unknown : (k n : ℕ) → k ≤ n → find_first (has_num n) (crowd k) ≡ none
unfolding crowd
unknown zero n h = refl
unknown (suc k) n h = ground (arith, h, unknown k n (omega (arith, h)))

unknown_serial : (k n : ℕ) → k ≤ n → find_first (has_serial n) (crowd k) ≡ none
unfolding crowd
unknown_serial zero n h = refl
unknown_serial (suc k) n h = ground (arith, h, unknown_serial k n (omega (arith, h)))

crowd_nums : (k : ℕ) → Distinct has_num num_of_block (crowd k)
unfolding crowd
crowd_nums zero = tt
crowd_nums (suc k) = (unknown k k (omega arith), crowd_nums k)

crowd_serials : (k : ℕ) → Distinct has_serial serial_of (crowd k)
unfolding crowd
crowd_serials zero = tt
crowd_serials (suc k) = (unknown_serial k k (omega arith), crowd_serials k)

crowd_below : (k n : ℕ) → k ≤ n → find_first (is_new n) (crowd k) ≡ none
unfolding crowd
crowd_below zero n h = refl
crowd_below (suc k) n h = ground (arith, h, crowd_below k n (omega (arith, h)))

abbrev crowded : World
crowded = record one_world { blocks = crowd 510; next_serial = 510; now = 600 }

run_round-evicts_example :
    (length crowded.blocks ≤ length (run_round false crowded).1.blocks + 64)
    × ((n : ℕ) (b : StorageBlock)
        → find_first (has_num n) crowded.blocks ≡ some b
        → find_first (has_num n) (run_round false crowded).1.blocks ≡ none
        → WasOld crowded.blocks b)
run_round-evicts_example =
    run_round-evicts false crowded
      (record {
        nums = crowd_nums 510;
        serials = crowd_serials 510;
        below = crowd_below 510 510 (omega arith);
      })
      refl
