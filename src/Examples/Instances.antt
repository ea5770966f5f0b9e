-- ===== src/Examples/Instances.antt =====
-- Instances of the theorems on DataBase.
use wwdedup.Database.Atomic.{IsUndone, release_failure, replace_failure}
use wwdedup.Database.Blocks.{release_storage_block, replace_storage_block}
use wwdedup.Database.Consistency.{InStep, replace-IsConsistent}
use wwdedup.Database.Directory.{create-get_by_path}
use wwdedup.Database.Files.{create, new_row}
use wwdedup.Database.Pointers.{find_in, find_info, lock_in, lock_weak}
use wwdedup.Database.Release.{release-IsConsistent, release_hole}
use wwdedup.Database.Reload.{replace-reload}
use wwdedup.Database.Rewrite.{rewrite_loses_use}
use wwdedup.Database.Unique.{IsUnique}
use wwdedup.Effects.{aborts, ok, ◌>>=◌}
use wwdedup.Examples.OneFile.{
  cached, fresh, hash, hash_row, info, one_file, one_file-IsConsistent, one_world, other_hash,
  place_row, quiet, root_row,
}
use wwdedup.Examples.Setup.{small_env}
use wwdedup.Prelude.{
  [], arith, eqb, false, find_first, if◌then◌else◌, inr, is_some, pos, refl, some, true, ℕ, ◌+ℤ◌,
  ◌-ℤ◌, ◌∷◌, ◌≡◌, ◌≢◌,
}
use wwdedup.Sql.{
  FileBlock, at_offset, get_by_path_row, get_file_block, has_hash, has_path, select_block_hash,
}
use wwdedup.Sql.Counts.{IsConsistent, refs, uses}
use wwdedup.State.{FileBlockRow, World}
use wwdedup.Types.{BlockInfo, FilePath}
use wwdedup.Types.Modes.{is_dir}

in_step : InStep 2 0 one_file (lock_weak 0 one_world)
unfolding at_offset has_hash lock_in eqb
in_step = (place_row, hash_row, refl, refl, refl, refl)

differs :
    (r : FileBlockRow)
    → find_first (at_offset 2 0) one_file.file_blocks ≡ some r
    → r.hash ≢ other_hash
unfolding at_offset
differs r e = ground arith

replace-IsConsistent_example :
    ((replace_storage_block small_env 0 other_hash one_world).0
      ≡ ok (is_some (select_block_hash other_hash one_file)))
    × IsConsistent (replace_storage_block small_env 0 other_hash one_world).1.tables
replace-IsConsistent_example =
    replace-IsConsistent small_env 0 other_hash one_world quiet fresh one_file-IsConsistent in_step
      differs

replace-reload_example :
    let after = (replace_storage_block small_env 0 other_hash one_world).1 in
    (row : FileBlock) × (b : BlockInfo) × (get_file_block 2 0 after.tables ≡ some row)
    × (row.hash ≡ other_hash)
    × (find_info 0 after ≡ some b)
    × (b.storage_block_num ≡ row.id)
    × (b.hash ≡ some other_hash)
unfolding find_in lock_in
replace-reload_example =
    replace-reload small_env 0 other_hash one_world info quiet one_file-IsConsistent in_step refl
      refl

rewrite_loses_use_example :
    let after = (replace_storage_block small_env 0 hash one_world).1.tables in
    (uses hash after.block_hashes ≡ pos 0)
    × (refs hash after.file_blocks ≡ refs hash one_file.file_blocks)
    × ¬ IsConsistent after
unfolding at_offset has_hash lock_in eqb ◌-ℤ◌
rewrite_loses_use_example =
    rewrite_loses_use small_env 0 one_world cached place_row hash_row quiet one_file-IsConsistent
      refl refl refl refl refl

release-IsConsistent_example :
    ((num : ℕ) × ((release_storage_block small_env 0 one_world).0 ≡ ok num))
    × IsConsistent (release_storage_block small_env 0 one_world).1.tables
unfolding at_offset has_hash eqb find_in
release-IsConsistent_example =
    release-IsConsistent small_env 0 hash one_world place_row hash_row quiet one_file-IsConsistent
      refl refl refl refl

-- The file has no second block.
release_hole_example : (release_storage_block small_env 1 one_world).0 ≡ aborts
unfolding get_file_block at_offset find_in
release_hole_example = release_hole small_env 1 one_world quiet (inr refl)

-- The begin succeeds, and the first statement fails.
abbrev failing : World
failing = record one_world { faults = false ∷ true ∷ [] }

replace_failure_example :
    IsUndone small_env one_file (replace_storage_block small_env 0 other_hash failing).1
unfolding replace_storage_block ◌>>=◌
replace_failure_example = replace_failure small_env 0 failing other_hash refl refl

release_failure_example : IsUndone small_env one_file (release_storage_block small_env 0 failing).1
unfolding release_storage_block ◌>>=◌ find_in
release_failure_example = release_failure small_env 0 failing refl refl

abbrev new_path : FilePath
new_path = b'/' ∷ b'b' ∷ []

create-get_by_path_example :
    ((create small_env new_path 33188 one_world).0 ≡ ok (pos 0))
    × ((q : FilePath)
        → get_by_path_row q (create small_env new_path 33188 one_world).1.tables ≡ (
            if eqb new_path q
            then some (new_row 3 new_path (pos 1) 33188 100)
            else get_by_path_row q one_file))
unfolding get_by_path_row has_path is_dir eqb ◌+ℤ◌
create-get_by_path_example =
    create-get_by_path small_env new_path 33188 one_world root_row refl (ground arith) refl
      (ground arith) refl refl

pub one_file-IsUnique : IsUnique one_file
unfolding has_path eqb
one_file-IsUnique = record { ids = (refl, (refl, tt)); paths = (refl, (refl, tt)) }
