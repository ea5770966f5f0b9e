-- ===== src/Examples/Runs.antt =====
-- Instances of the theorems on BlocksCache and on the calls.
use wwdedup.Cache.Access.{get_locked_file_block, unlock_info, write_block}
use wwdedup.Cache.Cut.{blocks_up_to_lem}
use wwdedup.Cache.Failure.{write_failure}
use wwdedup.Cache.Flush.{save_all-populate}
use wwdedup.Cache.Holes.{write_block-read_chunk}
use wwdedup.Cache.PastEnd.{FitsBuffer, read_buf-past_end}
use wwdedup.Cache.Pieces.{Piece, Splits, write_buf-write_pieces, write_pieces}
use wwdedup.Cache.Storage.{populate}
use wwdedup.Cache.Transfer.{
  blocks_up_to, copy_narrowed, grow_file, read_buf, read_chunk, read_negative, write_block_wrapper,
  write_buf,
}
use wwdedup.Cache.Writer.{save_all}
use wwdedup.Database.Files.{dir_empty, readdir, root}
use wwdedup.Database.Listing.{dir_empty-readdir}
use wwdedup.Database.Pointers.{find_in, has_serial, lock_in}
use wwdedup.Effects.{hangs, ok, pure, ◌>>=◌, ◌>>◌}
use wwdedup.Examples.OneFile.{cached, hash, hash_row, one_file, one_world}
use wwdedup.Examples.Setup.{blank_file, small_env}
use wwdedup.Prelude.{
  List, [], arith, as_int_neg, eqb, false, find_first, length, pos, refl, some, true, ℕ, ◌*◌, ◌<◌,
  ◌==◌, ◌^◌, ◌↔◌, ◌∷◌, ◌≡◌, ◌≤◌,
}
use wwdedup.Sql.{at_offset, get_file_block, has_hash, select_block_hash}
use wwdedup.State.{World}
use wwdedup.Types.{BlockInfo, FileInfo, StorageBlock, block_info, storage_block}

-- The insertion of the hash fails.
abbrev broken : World
broken = record one_world {
  file = record one_world.file { blocks = [] };
  faults = false ∷ false ∷ true ∷ [];
}

write_failure_example :
    (get_locked_file_block small_env 0 (write_block_wrapper small_env (5 ∷ 6 ∷ []) 0 0 broken).1).0
    ≡ hangs
unfolding write_block_wrapper get_locked_file_block ◌>>=◌ find_in get_file_block at_offset lock_in
    has_hash eqb
write_failure_example = write_failure small_env 0 (5 ∷ 6 ∷ []) 0 broken refl

abbrev dirty_block : StorageBlock
dirty_block = record cached { dirty = true }

abbrev dirty_world : World
dirty_world = record one_world { blocks = dirty_block ∷ [] }

save_all-populate_example :
    ((t : ℕ) × ((save_all (dirty_block ∷ []) 100 dirty_world).0 ≡ ok t))
    × (find_first (has_serial 0) (save_all (dirty_block ∷ []) 100 dirty_world).1.blocks
        ≡ some (record dirty_block { dirty = false }))
    × ((populate small_env
          (storage_block 7 100 1)
          (save_all (dirty_block ∷ []) 100 dirty_world).1).0
        ≡ ok (record (storage_block 7 100 1) { content = 3 ∷ 4 ∷ [] }))
save_all-populate_example =
    save_all-populate dirty_world dirty_block small_env 0 7 100 refl (refl, tt) refl refl
      (ground arith)

abbrev root_info : FileInfo
root_info = record blank_file {
  refcount = 1;
  name = root;
  st = record { ino = 1; size = 0; mode = 16877; uid = 0; gid = 0; mtime = pos 5; ctime = pos 5 };
}

dir_empty-readdir_example :
    (files : List FileInfo) × ((readdir small_env root_info one_world).0 ≡ ok files)
    × ((dir_empty small_env root_info one_world).0 ≡ ok (length files == 0))
    × ((readdir small_env root_info one_world).1.tables ≡ one_file)
    × ((dir_empty small_env root_info one_world).1.tables ≡ one_file)
dir_empty-readdir_example = dir_empty-readdir small_env root_info b'/' one_world refl refl

-- Three bytes from position 1 on, over blocks of two bytes.
write_buf-write_pieces_example :
    (ps : List Piece) × (((w : World)
        → write_buf small_env (5 ∷ 6 ∷ 7 ∷ []) 3 1 w
          ≡ (grow_file 4 >> (write_pieces small_env ps >> pure 3)) w)
      × Splits 2 1 ps (5 ∷ 6 ∷ 7 ∷ []))
write_buf-write_pieces_example = write_buf-write_pieces small_env (5 ∷ 6 ∷ 7 ∷ []) 1

-- From five bytes to three, block 2 goes.
blocks_up_to_lem_example :
    ((blocks_up_to 2 0 3 ≤ 2) × (2 < blocks_up_to 2 1 5)) ↔ ((3 ≤ 2 * 2) × (2 * 2 < 5))
blocks_up_to_lem_example = blocks_up_to_lem 2 3 5 2 (omega arith) (omega arith)

-- The file is empty, and the distance 2 ^ 32 is 0 as an int.
abbrev empty_world : World
empty_world = record one_world {
  file = record one_world.file { st = record one_world.file.st { size = 0 }; blocks = [] };
}

read_buf-past_end_example : (2 ^ 31 < 2 ^ 32) × FitsBuffer 2 (as_int_neg (2 ^ 32)) []
unfolding read_buf read_negative copy_narrowed as_int_neg ◌>>=◌ find_in lock_in
read_buf-past_end_example = read_buf-past_end small_env 2 (2 ^ 32) empty_world [] (omega arith) refl

-- A hole behind the block of the file.
abbrev hole : BlockInfo
hole = record (block_info 1) { locked = true; loaded = true }

abbrev hole_world : World
hole_world = record one_world { file = record one_world.file { blocks = hole ∷ [] } }

write_block-read_chunk_example :
    (read_chunk small_env 1 0 2 (unlock_info 1 (write_block small_env 1 hash hole_world).1).1).0
    ≡ ok (0 ∷ 0 ∷ [])
unfolding lock_in find_in select_block_hash has_hash eqb
write_block-read_chunk_example =
    write_block-read_chunk small_env 1 0 2 hash hole_world hole hash_row
      (record { no_faults = refl; no_saved = refl }) refl refl refl refl
