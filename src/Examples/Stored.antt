-- ===== src/Examples/Stored.antt =====
-- Instances of the theorems on the content of storage blocks.
use wwdedup.Cache.Access.{write_block}
use wwdedup.Cache.Contents.{IsCache, IsStored, id_of, stored}
use wwdedup.Cache.Contents.Loaded.{read_chunk-content_at}
use wwdedup.Cache.Contents.Places.{content_at}
use wwdedup.Cache.Contents.Repeats.{repeat_rounds, repeat_rounds_end}
use wwdedup.Cache.Contents.Rounds.{run_round-stored}
use wwdedup.Cache.Contents.Wrapper.{write_block_wrapper-read_chunk}
use wwdedup.Cache.Contents.Written.{write_block-IsStored}
use wwdedup.Cache.Storage.{is_nil, overlay}
use wwdedup.Cache.Transfer.{read_chunk, write_block_wrapper}
use wwdedup.Cache.Writer.{run_round}
use wwdedup.Database.Consistency.{InStep}
use wwdedup.Database.Effect.{IsQuiet}
use wwdedup.Database.Pointers.{find_in, lock_in, lock_weak}
use wwdedup.Effects.{ok, ◌>>◌}
use wwdedup.Examples.OneFile.{
  cached, fresh, hash, hash_row, info, one_file, one_file-IsConsistent, one_world, other_hash,
  place_row,
}
use wwdedup.Examples.Setup.{small_env}
use wwdedup.Prelude.{
  Bool-cases, List, [], arith, eqb, eqb_iff, false, inl, inr, pos, refl, some, subst, true, ℕ, ◌==◌,
  ◌∷◌, ◌≡◌,
}
use wwdedup.Sql.{at_offset, get_file_block, has_hash}
use wwdedup.State.{World}
use wwdedup.Types.{Bytes, StorageBlock}

-- The file's block holds the content that has the hash.
abbrev pub stored_block : StorageBlock
stored_block = record cached { content = hash; dirty = true }

abbrev pub stored_world : World
stored_world = record one_world { blocks = stored_block ∷ [] }

stored_world-IsQuiet : IsQuiet stored_world
stored_world-IsQuiet = record { no_faults = refl; no_saved = refl }

pub stored_block-IsCache : IsCache 1 (stored_block ∷ [])
stored_block-IsCache = record { nums = (refl, tt); serials = (refl, tt); below = refl }

one_hash : (k : Bytes) (id : ℕ) → id_of k (hash_row ∷ []) ≡ some id → (hash ≡ k) × (1 ≡ id)
unfolding has_hash
one_hash k id e = elim (Bool-cases (eqb hash k)) [
  | inl same ↦ ((eqb_iff hash k).0 same, ground (arith, e, same))
  | inr other ↦ absurd (ground (arith, e, other))
]

stored_content : (id : ℕ) → 1 ≡ id → stored id stored_world ≡ some hash
unfolding stored is_nil
stored_content id e = subst (λ i. stored i stored_world ≡ some hash) e refl

stored_world-IsStored : IsStored small_env stored_world
stored_world-IsStored = record {
  holds = λ k id e. let (same, num) = one_hash k id e in (hash, stored_content id num, same);
  cache = stored_block-IsCache;
}

stored_world-InStep : InStep 2 0 one_file (lock_weak 0 stored_world)
unfolding at_offset has_hash lock_in eqb
stored_world-InStep = (place_row, hash_row, refl, refl, refl, refl)

write_block-IsStored_example :
    ((write_block small_env 0 other_hash stored_world).0 ≡ ok tt)
    × IsStored small_env (write_block small_env 0 other_hash stored_world).1
unfolding lock_in find_in is_nil
write_block-IsStored_example =
    write_block-IsStored small_env 0 other_hash stored_world info stored_world-IsQuiet fresh
      one_file-IsConsistent stored_world-InStep refl refl refl stored_world-IsStored

abbrev open_world : World
open_world = record stored_world {
  file = record stored_world.file { blocks = record info { locked = false } ∷ [] };
}

read_chunk-content_at_example : (read_chunk small_env 0 0 1 open_world).0 ≡ ok hash
unfolding lock_in find_in content_at get_file_block at_offset has_hash eqb stored is_nil
read_chunk-content_at_example =
    read_chunk-content_at small_env 0 0 1 open_world (record info { locked = false })
      (record { id = 1; hash = hash; use_count = pos 1 }) hash refl refl refl refl refl refl refl
      refl stored_block-IsCache refl

run_round-stored_example : stored 1 (run_round false stored_world).1 ≡ some hash
unfolding stored is_nil
run_round-stored_example =
    run_round-stored false stored_world 1 hash refl stored_block-IsCache
      ((λ d. refl), (λ c. absurd (ground (arith, c)))) refl

repeat_rounds_end_example : (repeat_rounds 2 false stored_world).0 ≡ ok tt
repeat_rounds_end_example =
    repeat_rounds_end 2 false stored_world
      (record { quiet = refl; serials = (refl, tt); past = refl }) (omega arith)

some_keys : (ks : List ℕ) → (small_env.new_rowid ks == 0) ≡ false
some_keys ks = ground arith

open_ids : (k : Bytes) (id : ℕ) → id_of k (hash_row ∷ []) ≡ some id → (id == 0) ≡ false
open_ids k id e = ground (arith, (one_hash k id e).1)

open_world-IsStored : IsStored small_env open_world
unfolding stored
open_world-IsStored = record { holds = stored_world-IsStored.holds; cache = stored_block-IsCache }

-- One byte is written behind the one that the block has.
write_block_wrapper-read_chunk_example :
    ((write_block_wrapper small_env (9 ∷ []) 0 1 >> read_chunk small_env 0 0 2) open_world).0
    ≡ ok (7 ∷ 9 ∷ [])
unfolding lock_in find_in stored is_nil overlay
write_block_wrapper-read_chunk_example =
    write_block_wrapper-read_chunk small_env 0 1 (9 ∷ []) hash open_world
      (record info { locked = false }) 0 2 some_keys open_ids (λ c' e. e) refl (omega arith) refl
      (record { no_faults = refl; no_saved = refl }) refl refl refl refl refl open_world-IsStored
      refl
