-- ===== src/Examples/Shared.antt =====
-- Two files that have one content, of which one is written.
-- The block of another file has the hash too.
use wwdedup.Cache.Access.{write_block}
use wwdedup.Cache.Contents.{IsStored, id_of, stored}
use wwdedup.Cache.Contents.Frame.{write_block-content_at}
use wwdedup.Cache.Contents.Persisted.{AllBacked, uncached}
use wwdedup.Cache.Contents.Places.{content_at}
use wwdedup.Cache.Contents.Survives.{write_block-survives}
use wwdedup.Cache.Contents.Truncate.{is_cut, truncate-content_at}
use wwdedup.Cache.Releasing.{CanRelease}
use wwdedup.Cache.Storage.{is_nil}
use wwdedup.Cache.Transfer.{truncate}
use wwdedup.Cache.Writer.{run_round}
use wwdedup.Database.Consistency.{InStep}
use wwdedup.Database.Pointers.{find_in, lock_in, lock_weak}
use wwdedup.Effects.{ok}
use wwdedup.Examples.OneFile.{fresh, hash, hash_row, info, one_file, other_hash, place_row}
use wwdedup.Examples.Setup.{small_env}
use wwdedup.Examples.Stored.{stored_block, stored_world}
use wwdedup.Prelude.{
  Bool-cases, [], arith, eqb, eqb_iff, false, if◌then◌else◌, inl, inr, none, pos, refl, some, subst,
  true, ℕ, ◌&&◌, ◌==◌, ◌∷◌, ◌≡◌,
}
use wwdedup.Sql.{at_offset, has_hash}
use wwdedup.Sql.Counts.{IsConsistent, refs}
use wwdedup.State.{HashRow, Tables, World}
use wwdedup.Types.{Bytes, StorageBlock}

abbrev shared_row : HashRow
shared_row = record hash_row { use_count = pos 2 }

abbrev two_files : Tables
two_files = record one_file {
  file_blocks = place_row ∷ record { file_id = 3; offset = 0; hash = hash } ∷ [];
  block_hashes = shared_row ∷ [];
}

abbrev shared_block : StorageBlock
shared_block = record stored_block { use_count = pos 2 }

abbrev shared_world : World
shared_world = record stored_world { tables = two_files; blocks = shared_block ∷ [] }

two_files-IsConsistent : IsConsistent two_files
unfolding at_offset has_hash refs
two_files-IsConsistent = record {
  ids = (refl, tt);
  hashes = (refl, tt);
  places = (refl, (refl, tt));
  balanced = λ h. ground arith;
}

shared_hash : (k : Bytes) (id : ℕ) → id_of k (shared_row ∷ []) ≡ some id → (hash ≡ k) × (1 ≡ id)
unfolding has_hash
shared_hash k id e = elim (Bool-cases (eqb hash k)) [
  | inl same ↦ ((eqb_iff hash k).0 same, ground (arith, e, same))
  | inr other ↦ absurd (ground (arith, e, other))
]

shared_content : (id : ℕ) → 1 ≡ id → stored id shared_world ≡ some hash
unfolding stored is_nil
shared_content id e = subst (λ i. stored i shared_world ≡ some hash) e refl

shared_world-IsStored : IsStored small_env shared_world
shared_world-IsStored = record {
  holds = λ k id e. let (same, num) = shared_hash k id e in (hash, shared_content id num, same);
  cache = record { nums = (refl, tt); serials = (refl, tt); below = refl };
}

shared_world-InStep : InStep 2 0 two_files (lock_weak 0 shared_world)
unfolding at_offset has_hash lock_in eqb
shared_world-InStep = (place_row, shared_row, refl, refl, refl, refl)

-- The other file keeps the old content.
write_block-content_at_example :
    content_at 3 0 (write_block small_env 0 other_hash shared_world).1 ≡ content_at 3 0 shared_world
unfolding lock_in find_in is_nil
write_block-content_at_example =
    write_block-content_at small_env 0 other_hash shared_world info
      (record { no_faults = refl; no_saved = refl }) two_files-IsConsistent shared_world-InStep refl
      refl refl shared_world-IsStored 3 0 fresh (λ c' e. e)

shared_release : CanRelease small_env 0 shared_world
unfolding at_offset has_hash eqb find_in
shared_release = record {
  row = place_row;
  old = shared_row;
  there = refl;
  counted = refl;
  known = refl;
}

first_only :
    (m : ℕ) → is_cut small_env 0 shared_world m ≡ true → CanRelease small_env m shared_world
first_only m cut =
    subst (λ n. CanRelease small_env n shared_world) (ground (arith, cut)) shared_release

-- The file is cut to nothing.
abbrev cut_short : World
cut_short = (truncate small_env (pos 0) shared_world).1

truncate-content_at_example :
    ((truncate small_env (pos 0) shared_world).0 ≡ ok (pos 0))
    × (cut_short.file.st.size ≡ 0)
    × IsConsistent cut_short.tables
    × ((i m : ℕ)
        → content_at i m cut_short ≡ (
            if (i == 2) && is_cut small_env 0 shared_world m
            then none
            else content_at i m shared_world))
truncate-content_at_example =
    truncate-content_at small_env 0 shared_world (record { no_faults = refl; no_saved = refl })
      two_files-IsConsistent (omega arith) first_only

shared_world-AllBacked : AllBacked shared_world
unfolding is_nil
shared_world-AllBacked id = elim (Bool-cases (1 == id)) [
  | inl this ↦ rw this ((λ d. refl), λ d. absurd (ground (arith, d)))
  | inr other ↦ rw other tt
]

write_block-survives_example :
    content_at 2 0
      (uncached (run_round false (write_block small_env 0 other_hash shared_world).1).1)
    ≡ some other_hash
unfolding lock_in find_in is_nil
write_block-survives_example =
    write_block-survives small_env 0 other_hash shared_world info
      (record { no_faults = refl; no_saved = refl }) refl refl shared_world-AllBacked
      shared_world-IsStored false 2 0 fresh two_files-IsConsistent shared_world-InStep refl
      (λ c' e. e)
