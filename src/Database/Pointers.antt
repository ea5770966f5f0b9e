-- ===== src/Database/Pointers.antt =====
-- How the code reaches the objects that it shares: the block_info of a file by its number, and a
-- storage_block by a weak_ptr or by its number in the set `_blocks`.
use wwdedup.Prelude.{ℕ, Bool, Option, none, some, List, ◌==◌, find_first, update_where, not, select}
use wwdedup.Types.{StorageBlock, BlockInfo}
use wwdedup.State.{World}

abbrev pub has_file_num : ℕ → BlockInfo → Bool
has_file_num n b = b.file_block_num == n

abbrev pub has_serial : ℕ → StorageBlock → Bool
has_serial s b = b.serial == s

abbrev pub has_num : ℕ → StorageBlock → Bool
has_num n b = b.storage_block_num == n

unfoldable pub find_in : ℕ → List BlockInfo → Option BlockInfo
find_in n infos = find_first (has_file_num n) infos

-- The block_info of file block n, if the file_info has one.
abbrev pub find_info : ℕ → World → Option BlockInfo
find_info n w = find_in n w.file.blocks

-- Writes through a pointer to the block_info of file block n.
unfoldable pub set_info : ℕ → (BlockInfo → BlockInfo) → World → World
set_info n f w = record w {
  file = record w.file { blocks = update_where (has_file_num n) f w.file.blocks };
}

-- finfo->blocks.extract
unfoldable pub remove_info : ℕ → World → World
remove_info n w = record w {
  file = record w.file { blocks = select (λ b. not (has_file_num n b)) w.file.blocks };
}

abbrev pub lock_serial : Option ℕ → List StorageBlock → Option StorageBlock
lock_serial none bs = none
lock_serial (some s) bs = find_first (has_serial s) bs

abbrev pub lock_info : Option BlockInfo → List StorageBlock → Option StorageBlock
lock_info none bs = none
lock_info (some b) bs = lock_serial b.storage_block bs

unfoldable pub lock_in : ℕ → List BlockInfo → List StorageBlock → Option StorageBlock
unfolding find_in
lock_in n infos bs = lock_info (find_in n infos) bs

-- fblock->storageBlock.lock(): an object lives as long as `_blocks` holds it.
abbrev pub lock_weak : ℕ → World → Option StorageBlock
lock_weak n w = lock_in n w.file.blocks w.blocks

-- Writes through a pointer to the object with this serial.
unfoldable pub set_block : ℕ → (StorageBlock → StorageBlock) → World → World
set_block s f w = record w { blocks = update_where (has_serial s) f w.blocks }
