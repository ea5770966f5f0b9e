-- ===== src/Database/Blocks.antt =====
-- database.cpp: loadFileBlock, replaceStorageBlock and releaseStorageBlock, on the file_info
-- `file` of the state. A block_info is named by its number in the file.
use wwdedup.Prelude.{
  ℕ, ◌*◌, Bool, true, false, Option, none, some, ltb, if◌then◌else◌, ℤ, pos, ◌-ℤ◌, eqb_ℤ,
}
use wwdedup.Effects.{pure, throw, abort, gets, modify, try_catch, ◌>>=◌, ◌>>◌}
use wwdedup.Types.{Bytes, StorageBlock, BlockInfo, block_info}
use wwdedup.State.{Env, HashRow, M}
use wwdedup.Sql.{
  FileBlock, get_file_block, delete_file_block, decrease_use_count, select_block_hash,
  increase_use_count, set_use_count, update_block_hash, replace_file_block, query, execute_update,
  execute_insert_hash, transaction_begin, transaction_commit, transaction_rollback,
}
use wwdedup.Database.Pointers.{find_info, set_info, remove_info, lock_weak, set_block}

-- Both branches without a row: the block reads as a hole.
abbrev pub cleared : BlockInfo → BlockInfo × ℤ
cleared b = (record b { empty = true; storage_block_num = 0 }, pos 0)

abbrev pub filled : BlockInfo → Option FileBlock → BlockInfo × ℤ
filled b none = cleared b
filled b (some r) =
    (record b { empty = false; storage_block_num = r.id; hash = some r.hash }, r.use_count)

-- DataBase::loadFileBlock: the block_info as it is left, and use_count.
unfoldable pub load_file_block : Env → BlockInfo → M (BlockInfo × ℤ)
unfolding query
load_file_block env block = do
  file ← gets (λ w. w.file)
  if ltb file.st.size (block.file_block_num * env.db_block_size)
      then pure (cleared block)
      else do row ← query (get_file_block file.st.ino block.file_block_num); pure (filled block row)

-- if (sblock) sblock->use_count--
abbrev pub dropped : StorageBlock → StorageBlock
dropped b = record b { use_count = b.use_count -ℤ pos 1 }

unfoldable pub drop_use : Option StorageBlock → M (Option StorageBlock)
unfolding set_block
drop_use none = pure none
drop_use (some b) = do modify (set_block b.serial dropped); pure (some (dropped b))

-- sblock && sblock->use_count == 1
abbrev pub sole_use : Option StorageBlock → Bool
sole_use none = false
sole_use (some b) = eqb_ℤ b.use_count (pos 1)

abbrev pub num_of : Option StorageBlock → ℕ
num_of none = 0
num_of (some b) = b.storage_block_num

-- The hash is in the table: the file block moves over to that storage block.
unfoldable pub use_present : ℕ → Bytes → Option StorageBlock → HashRow → M (Option StorageBlock)
unfolding drop_use execute_update set_info
use_present n h sblock row = do
  modify (set_info n (λ b. record b { storage_block_num = row.id; storage_block = none }))
  execute_update (increase_use_count h)
  drop_use sblock

-- It is not, and nobody else uses the old storage block: its hash changes in place.
unfoldable pub use_in_place : Bytes → Option StorageBlock → M (Option StorageBlock)
unfolding execute_update
use_in_place h sblock = do execute_update (update_block_hash h (num_of sblock)); pure sblock

-- It is not, and a storage block has to be allocated.
unfoldable pub use_allocated : Env → ℕ → Bytes → Option StorageBlock → M (Option StorageBlock)
unfolding drop_use execute_insert_hash set_info
use_allocated env n h sblock = do
  execute_insert_hash env h
  id ← gets (λ w. w.last_insert_id)
  modify (set_info n (λ b. record b { storage_block_num = id; storage_block = none }))
  drop_use sblock

-- Whether the hash was present, and the old storage block as it is left.
unfoldable pub choose_block :
    Env → ℕ → Bytes → Option StorageBlock → Option HashRow → M (Bool × Option StorageBlock)
unfolding use_present use_in_place use_allocated
choose_block env n h sblock (some row) = do left ← use_present n h sblock row; pure (true, left)
choose_block env n h sblock none = do
  left ← if sole_use sblock then use_in_place h sblock else use_allocated env n h sblock
  pure (false, left)

-- The last statement of the transaction.
unfoldable pub store_use : Option StorageBlock → M (Unit {0})
unfolding execute_update
store_use none = pure tt
store_use (some b) = execute_update (set_use_count b.use_count b.storage_block_num)

-- The try block of replaceStorageBlock.
unfoldable pub replace_body : Env → ℕ → Bytes → Option StorageBlock → M Bool
unfolding set_info query choose_block store_use execute_update transaction_commit
replace_body env n h sblock = do
  modify (set_info n (λ b. record b { hash = some h }))
  row ← query (select_block_hash h)
  chosen ← choose_block env n h sblock row
  ino ← gets (λ w. w.file.st.ino)
  execute_update (replace_file_block ino n h)
  store_use (chosen.1)
  transaction_commit
  pure (chosen.0)

-- DataBase::replaceStorageBlock: whether the hash was present already.
unfoldable pub replace_storage_block : Env → ℕ → Bytes → M Bool
unfolding transaction_begin replace_body transaction_rollback
replace_storage_block env n h = do
  transaction_begin
  sblock ← gets (lock_weak n)
  try_catch (replace_body env n h sblock) (do transaction_rollback; throw)

-- The copy that releaseStorageBlock makes of an extracted block_info, or loads.
unfoldable pub released_info : Env → ℕ → Option BlockInfo → M BlockInfo
unfolding load_file_block
released_info env n none = do loaded ← load_file_block env (block_info n); pure (loaded.0)
released_info env n (some b) = pure (record (block_info n) {
  empty = b.empty;
  hash = b.hash;
  storage_block_num = b.storage_block_num;
})

-- *hash, through a pointer that is null where no hash was ever set
unfoldable pub deref : Option Bytes → M Bytes
deref none = abort
deref (some h) = pure h

-- The try block of releaseStorageBlock.
unfoldable pub release_body : Env → ℕ → M ℕ
unfolding remove_info released_info deref execute_update transaction_commit
release_body env n = do
  cached ← gets (find_info n)
  modify (remove_info n)
  block ← released_info env n cached
  ino ← gets (λ w. w.file.st.ino)
  execute_update (delete_file_block ino n)
  h ← deref block.hash
  execute_update (decrease_use_count h)
  transaction_commit
  pure block.storage_block_num

-- DataBase::releaseStorageBlock: the number of the storage block that the file block had.
unfoldable pub release_storage_block : Env → ℕ → M ℕ
unfolding transaction_begin release_body transaction_rollback
release_storage_block env n = do
  transaction_begin
  try_catch (release_body env n) (do transaction_rollback; throw)
