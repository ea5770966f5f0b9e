-- ===== src/Cache/Storage.antt =====
-- blockscache.cpp: the storage file. Its first block holds the signature and the block size; the
-- storage block of number n is its block n.
use wwdedup.Prelude.{
  ℕ, ◌+◌, ◌/◌, ◌%◌, ◌^◌, Bool, true, false, not, ◌||◌, [], ◌∷◌, ◌++◌, ◌==◌, ltb, length, take, drop,
  replicate, eqb, if◌then◌else◌,
}
use wwdedup.Effects.{Outcome, ok, throws, pure, throw, gets, modify, ◌>>=◌, ◌>>◌}
use wwdedup.Types.{Bytes, StorageBlock}
use wwdedup.State.{Env, World, M, faulty}
use wwdedup.Database.Pointers.{set_block}

-- block_size(1 << _block_size_bits)
abbrev pub block_size : Env → ℕ
block_size env = 2 ^ env.block_size_bits

-- vector::resize of an empty vector
abbrev pub zeros : ℕ → Bytes
zeros n = replicate n 0

-- memcpy(bytes.data() + start, chunk, length chunk)
unfoldable pub overlay : ℕ → Bytes → Bytes → Bytes
overlay start chunk bytes = take start bytes ++ (chunk ++ drop (start + length chunk) bytes)

-- "WWDEDUP1"
abbrev pub magic : Bytes
magic = 87 ∷ 87 ∷ 68 ∷ 69 ∷ 68 ∷ 85 ∷ 80 ∷ 49 ∷ []

-- An int32_t in the machine's byte order, little endian.
unfoldable pub le32 : ℕ → Bytes
le32 n = (n % 256) ∷ (n / 256 % 256) ∷ (n / 65536 % 256) ∷ (n / 16777216 % 256) ∷ []

-- The signature block: the rest of the buffer is not initialised.
unfoldable pub signature : ℕ → Bytes → Bytes
unfolding overlay le32
signature size buffer = overlay 8 (le32 size) (overlay 0 magic buffer)

-- The checks of a signature that was read.
unfoldable pub check_signature : ℕ → Bytes → Bytes → Outcome Bytes
unfolding eqb le32
check_signature size file sig =
    if not (length sig == size)
    then throws
    else if not (eqb (take 8 sig) magic)
    then throws
    else if not (eqb (take 4 (drop 8 sig)) (le32 size))
    then throws
    else ok file

-- BlocksCache::BlocksCache(db_url, bits): what the storage file holds after it, or an exception.
-- `opened` and `wrote` say whether open and write succeed; `buffer` is the char array's content.
unfoldable pub open_storage : ℕ → Bool → Bool → Bytes → Bytes → Outcome Bytes
unfolding signature check_signature
open_storage size opened wrote buffer file =
    if not opened
    then throws
    else if length file == 0
    then (if wrote then ok (signature size buffer) else throws)
    else check_signature size file (take size file)

abbrev pub disk_write : ℕ → Bytes → World → World
disk_write n bytes w = record w {
  disk = λ m. if m == n then bytes else w.disk m;
  disk_blocks = if ltb n w.disk_blocks then w.disk_blocks else n + 1;
}

-- pwrite of a block, whose result no caller looks at.
unfoldable pub write_out : StorageBlock → M (Unit {0})
unfolding faulty
write_out b = do
  failed ← faulty
  if failed then pure tt else modify (disk_write b.storage_block_num b.content)

unfoldable pub is_nil : Bytes → Bool
is_nil [] = true
is_nil (x ∷ xs) = false

-- BlocksCache::_populateStorageBlock: the object as it is left. A read that fails leaves the
-- resized, zeroed data behind.
unfoldable pub populate : Env → StorageBlock → M StorageBlock
unfolding is_nil set_block faulty
populate env b = if not (is_nil b.content) || b.storage_block_num == 0 then pure b else do
  modify (set_block b.serial (λ o. record o { content = zeros (block_size env) }))
  failed ← faulty
  stored ← gets (λ w. ltb b.storage_block_num w.disk_blocks)
  bytes ← gets (λ w. w.disk b.storage_block_num)
  if failed || not stored then throw else do
    modify (set_block b.serial (λ o. record o { content = bytes }))
    pure (record b { content = bytes })
