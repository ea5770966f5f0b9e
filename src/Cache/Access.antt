-- ===== src/Cache/Access.antt =====
-- blockscache.cpp: _getLockedFileBlock, _getStorageBlock and _writeBlock.
use wwdedup.Prelude.{
  ℕ, suc, true, false, Option, none, some, List, [], ◌∷◌, ltb, find_first, update_where,
  if◌then◌else◌, ℤ, pos, ◌+ℤ◌,
}
use wwdedup.Effects.{pure, hang, gets, modify, ◌>>=◌, ◌>>◌}
use wwdedup.Types.{Bytes, StorageBlock, BlockInfo, storage_block, access, block_info}
use wwdedup.State.{Env, World, M}
use wwdedup.Database.Pointers.{has_num, find_info, set_info, lock_weak, set_block}
use wwdedup.Database.Blocks.{load_file_block, replace_storage_block}

-- finfo->blocks.ensure on a number that the set does not have
unfoldable pub add_info : BlockInfo → World → World
add_info b w = record w { file = record w.file { blocks = b ∷ w.file.blocks } }

-- The ordered insertion of `_blocks`.
unfoldable pub insert_block : StorageBlock → List StorageBlock → List StorageBlock
insert_block b [] = b ∷ []
insert_block b (c ∷ cs) =
    if ltb b.storage_block_num c.storage_block_num then b ∷ c ∷ cs else c ∷ insert_block b cs

unfoldable pub add_block : StorageBlock → World → World
unfolding insert_block
add_block b w = record w { blocks = insert_block b w.blocks; next_serial = suc w.next_serial }

-- The functor of finfo->blocks.ensure: locks the block_info, loading a new one. The result is
-- the use_count that was loaded, or 0.
unfoldable pub ensure_info : Env → ℕ → Option BlockInfo → M ℤ
unfolding add_info set_info load_file_block
ensure_info env n none = do
  modify (add_info (record (block_info n) { locked = true }))
  loaded ← load_file_block env (record (block_info n) { locked = true })
  modify (set_info n (λ _. record (loaded.0) { loaded = true }))
  pure (loaded.1)
ensure_info env n (some b) =
    if b.locked
    then hang
    else do modify (set_info n (λ i. record i { locked = true })); pure (pos 0)

-- _blocks->ensure in _getLockedFileBlock: a new object gets the loaded count and the hash.
unfoldable pub place_block : ℕ → BlockInfo → ℤ → Option StorageBlock → M (Unit {0})
unfolding set_info add_block
place_block n info use_count (some item) =
    modify (set_info n (λ i. record i { storage_block = some item.serial }))
place_block n info use_count none = do
  now ← gets (λ w. w.now)
  serial ← gets (λ w. w.next_serial)
  modify (
      add_block (record (storage_block serial now info.storage_block_num) {
        use_count = use_count;
        hash = info.hash;
        loaded = true;
      }))
  modify (set_info n (λ i. record i { storage_block = some serial }))

-- What follows the locking: nothing for a hole or a live weak_ptr.
unfoldable pub attach_block : ℕ → ℤ → Option BlockInfo → Option StorageBlock → M (Unit {0})
unfolding place_block
attach_block n use_count none held = pure tt
attach_block n use_count (some info) (some b) = pure tt
attach_block n use_count (some info) none = if info.empty then pure tt else do
  found ← gets (λ w. find_first (has_num info.storage_block_num) w.blocks)
  place_block n info use_count found

-- BlocksCache::_getLockedFileBlock: leaves the block_info of file block n in the set and locked.
unfoldable pub get_locked_file_block : Env → ℕ → M (Unit {0})
unfolding ensure_info attach_block
get_locked_file_block env n = do
  found ← gets (find_info n)
  use_count ← ensure_info env n found
  info ← gets (find_info n)
  held ← gets (lock_weak n)
  attach_block n use_count info held

-- fblock->lock.unlock()
unfoldable pub unlock_info : ℕ → M (Unit {0})
unfolding set_info
unlock_info n = modify (set_info n (λ i. record i { locked = false }))

-- The object, with its access time renewed.
unfoldable pub touch : Option StorageBlock → M (Option StorageBlock)
unfolding set_block
touch none = pure none
touch (some b) = do
  now ← gets (λ w. w.now)
  modify (set_block b.serial (access now))
  pure (some (access now b))

-- BlocksCache::_getStorageBlock: none stands for the fresh storage_block of number 0.
unfoldable pub get_storage_block : Env → ℕ → M (Option StorageBlock)
unfolding get_locked_file_block unlock_info touch
get_storage_block env n = do
  get_locked_file_block env n
  res ← gets (lock_weak n)
  unlock_info n
  touch res

abbrev pub info_num : Option BlockInfo → ℕ
info_num none = 0
info_num (some b) = b.storage_block_num

-- The functor of _blocks->ensure in _writeBlock.
abbrev pub rewritten : Bytes → Bytes → StorageBlock → StorageBlock
rewritten bytes h b = record b {
  content = bytes;
  hash = some h;
  use_count = pos 1;
  dirty = true;
  loaded = true;
}

unfoldable pub fill_block : ℕ → ℕ → Bytes → Bytes → Option StorageBlock → M (Unit {0})
unfolding set_info set_block add_block
fill_block n num bytes h (some item) = do
  modify (set_block item.serial (rewritten bytes h))
  modify (set_info n (λ i. record i { storage_block = some item.serial }))
fill_block n num bytes h none = do
  now ← gets (λ w. w.now)
  serial ← gets (λ w. w.next_serial)
  modify (add_block (rewritten bytes h (storage_block serial now num)))
  modify (set_info n (λ i. record i { storage_block = some serial }))

-- item->use_count++
abbrev pub used_again : StorageBlock → StorageBlock
used_again b = record b { use_count = b.use_count +ℤ pos 1 }

-- BlocksCache::_writeBlock
unfoldable pub write_block : Env → ℕ → Bytes → M (Unit {0})
unfolding replace_storage_block fill_block
write_block env n bytes = do
  present ← replace_storage_block env n (env.murmur bytes)
  num ← gets (λ w. info_num (find_info n w))
  found ← gets (λ w. find_first (has_num num) w.blocks)
  if present
      then modify (λ w. record w { blocks = update_where (has_num num) used_again w.blocks })
      else fill_block n num bytes (env.murmur bytes) found
