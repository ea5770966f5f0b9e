-- ===== src/Cache/Transfer.antt =====
-- blockscache.cpp: _writeBlockWrapper, writeBuf, readBuf, truncate and sync.
use wwdedup.Cache.Access.{get_locked_file_block, get_storage_block, touch, unlock_info, write_block}
use wwdedup.Cache.Storage.{block_size, overlay, populate, zeros}
use wwdedup.Database.Blocks.{dropped, release_storage_block}
use wwdedup.Database.Files.{ftruncate}
use wwdedup.Database.Pointers.{has_num, lock_weak}
use wwdedup.Effects.{◌>>=◌, ◌>>◌, abort, gets, hang, ignore, modify, pure}
use wwdedup.Prelude.{
  Option, [], as_int_neg, drop, if◌then◌else◌, leb, length, ltb, min, neg, negsuc, none, not, pos,
  some, suc, take, true, update_where, zero, ℕ, ℤ, ◌&&◌, ◌*◌, ◌++◌, ◌+◌, ◌-◌, ◌/◌, ◌==◌, ◌∷◌,
}
use wwdedup.State.{Env, M}
use wwdedup.Types.{Bytes, StorageBlock}
use wwdedup.Types.Modes.{einval}

-- The old data of a block that a chunk of this length is written into.
unfoldable pub old_bytes : Env → ℕ → Option StorageBlock → M Bytes
unfolding populate
old_bytes env len none = pure []
old_bytes env len (some b) =
    if not (b.storage_block_num == 0) && ltb len (block_size env)
    then (do p ← populate env b; pure p.content)
    else pure []

-- if (data.empty()) data.resize(block_size)
abbrev pub or_zeros : ℕ → Bytes → Bytes
or_zeros n [] = zeros n
or_zeros n (b ∷ bs) = b ∷ bs

-- memcpy of the chunk into the data of the block, which are one block long, and _writeBlock
unfoldable pub write_over : Env → ℕ → ℕ → Bytes → Bytes → M (Unit {0})
unfolding overlay write_block
write_over env n start chunk bytes =
    if leb (start + length chunk) (block_size env)
    then write_block env n (overlay start chunk bytes)
    else abort

-- BlocksCache::_writeBlockWrapper
unfoldable pub write_block_wrapper : Env → Bytes → ℕ → ℕ → M (Unit {0})
unfolding get_locked_file_block touch old_bytes write_over unlock_info
write_block_wrapper env chunk n start = do
  get_locked_file_block env n
  held ← gets (lock_weak n)
  first ← touch held
  bytes ← old_bytes env (length chunk) first
  write_over env n start chunk (or_zeros (block_size env) bytes)
  unlock_info n

-- The loop of writeBuf. `hang` stands for a loop that goes on when the fuel is spent.
unfoldable pub write_rest : Env → ℕ → Bytes → ℕ → ℕ → ℕ → M ℕ
write_rest env zero buf size cur fact = hang
write_rest env (suc fuel) buf size cur fact =
    if ltb fact size
    then (do
      let chunk = min (block_size env) (size - fact)
      write_block_wrapper env (take chunk (drop fact buf)) (suc cur) 0
      write_rest env fuel buf size (suc cur) (fact + chunk))
    else pure fact

-- if (size + offset > finfo->st.st_size) db->ftruncate(finfo, size + offset)
unfoldable pub grow_file : ℕ → M (Unit {0})
unfolding ftruncate
grow_file end = do
  file ← gets (λ w. w.file)
  if ltb file.st.size end then ignore (ftruncate (pos end)) else pure tt

-- BlocksCache::writeBuf
unfoldable pub write_buf : Env → Bytes → ℕ → ℕ → M ℕ
unfolding grow_file write_rest
write_buf env buf size offset = do
  grow_file (size + offset)
  let start_block = offset / block_size env
  let start_offset = offset - start_block * block_size env
  let chunk = min size (block_size env - start_offset)
  write_block_wrapper env (take chunk buf) start_block start_offset
  write_rest env (suc size) buf size start_block chunk

-- The bytes that one round of readBuf copies.
unfoldable pub block_bytes : Env → ℕ → ℕ → Option StorageBlock → M Bytes
unfolding populate
block_bytes env start len none = pure (zeros len)
block_bytes env start len (some b) =
    if b.storage_block_num == 0
    then pure (zeros len)
    else do p ← populate env b; pure (take len (drop start p.content))

unfoldable pub read_chunk : Env → ℕ → ℕ → ℕ → M Bytes
unfolding get_storage_block block_bytes
read_chunk env n start len = do b ← get_storage_block env n; block_bytes env start len b

-- The loop of readBuf: the bytes behind those that `done` holds, `fact` of them.
unfoldable pub read_rest : Env → ℕ → ℕ → ℕ → ℕ → Bytes → M Bytes
read_rest env zero size cur fact done = hang
read_rest env (suc fuel) size cur fact done =
    if ltb fact size
    then (do
      let chunk = min (block_size env) (size - fact)
      bytes ← read_chunk env (suc cur) 0 chunk
      read_rest env fuel size (suc cur) (fact + chunk) (done ++ bytes))
    else pure done

-- readBuf, once the size is settled
unfoldable pub read_sized : Env → ℕ → ℕ → M Bytes
unfolding read_chunk read_rest
read_sized env size offset = do
  let start_block = offset / block_size env
  let start_offset = offset - start_block * block_size env
  let chunk = min size (block_size env - start_offset)
  bytes ← read_chunk env start_block start_offset chunk
  read_rest env (suc size) size start_block chunk bytes

-- The copy or the zeros of the first block, where the buffer has room for `size` bytes: memcpy of
-- more bytes than the block or the buffer has, and memset of more than the buffer has, are
-- undefined.
unfoldable pub copy_first : Env → ℕ → ℕ → ℕ → Option StorageBlock → M Bytes
unfolding populate
copy_first env size start chunk none = if leb chunk size then pure (zeros chunk) else abort
copy_first env size start chunk (some b) =
    if b.storage_block_num == 0 then (if leb chunk size then pure (zeros chunk) else abort) else (do
      p ← populate env b
      if leb chunk size && leb (start + chunk) (length p.content)
          then pure (take chunk (drop start p.content))
          else abort)

-- A chunk that is negative is a huge length of memcpy or memset.
unfoldable pub copy_narrowed : Env → ℕ → ℕ → ℤ → Option StorageBlock → M Bytes
unfolding copy_first populate
copy_narrowed env size start (pos chunk) b = copy_first env size start chunk b
copy_narrowed env size start (negsuc k) none = abort
copy_narrowed env size start (negsuc k) (some b) =
    if b.storage_block_num == 0 then abort else (do p ← populate env b; abort)

-- readBuf with a size of `- behind`: the chunk is this number as an int, and the loop does not run.
unfoldable pub read_negative : Env → ℕ → ℕ → ℕ → M Bytes
unfolding get_storage_block copy_narrowed as_int_neg
read_negative env size behind offset = do
  let start_block = offset / block_size env
  let start_offset = offset - start_block * block_size env
  b ← get_storage_block env start_block
  copy_narrowed env size start_offset (as_int_neg behind) b

-- BlocksCache::readBuf: the bytes put into the buffer, whose number is the result.
unfoldable pub read_buf : Env → ℕ → ℕ → M Bytes
unfolding read_sized read_negative
read_buf env size offset = do
  file ← gets (λ w. w.file)
  if ltb file.st.size (size + offset)
      then (if ltb file.st.size offset
          then read_negative env size (offset - file.st.size) offset
          else read_sized env (file.st.size - offset) offset)
      else read_sized env size offset

-- _blocks->find(key, use_count--)
unfoldable pub drop_cached : ℕ → M (Unit {0})
drop_cached num =
    if num == 0
    then pure tt
    else modify (λ w. record w { blocks = update_where (has_num num) dropped w.blocks })

-- The loop of truncate, over the rounds that are left.
unfoldable pub release_blocks : Env → ℕ → ℕ → M (Unit {0})
unfolding release_storage_block drop_cached
release_blocks env zero cur = pure tt
release_blocks env (suc rounds) cur = do
  num ← release_storage_block env cur
  drop_cached num
  release_blocks env rounds (suc cur)

-- (size - 1 >> bits) + 1, or the value given for size 0
abbrev pub blocks_up_to : ℕ → ℕ → ℕ → ℕ
blocks_up_to bs none_of size = if size == 0 then none_of else (size - 1) / bs + 1

-- BlocksCache::truncate
unfoldable pub truncate : Env → ℤ → M ℤ
unfolding ftruncate release_blocks
truncate env (negsuc _) = pure (neg einval)
truncate env (pos new_size) = do
  file ← gets (λ w. w.file)
  if leb file.st.size new_size then ftruncate (pos new_size) else do
    let start_block = blocks_up_to (block_size env) 0 new_size
    let end_block = blocks_up_to (block_size env) 1 file.st.size
    release_blocks env (end_block - start_block) start_block
    ftruncate (pos new_size)

-- BlocksCache::sync
unfoldable pub sync : M (Unit {0})
sync = modify (λ w. record w { write_triggered = true })
