-- ===== src/Cache/Contents/Reads.antt =====
-- readBuf's pieces against the content of the storage blocks.
use wwdedup.Cache.Access.{get_storage_block, touch, unlock_info}
use wwdedup.Cache.Contents.{IsCache, held, on_disk, stored}
use wwdedup.Cache.Contents.Locks.{Locks, lock_lem, locked_either}
use wwdedup.Cache.Storage.{is_nil}
use wwdedup.Cache.Transfer.{block_bytes, read_chunk}
use wwdedup.Database.Pointers.{find_info, lock_serial, lock_weak, set_block, set_info}
use wwdedup.Database.Reload.{SameNum}
use wwdedup.Effects.{ok, ◌>>=◌}
use wwdedup.Prelude.{
  Bool-cases, [], arith, drop, false, inl, inr, ltb, refl, some, subst, sym, take, true, ℕ, ◌==◌,
  ◌∙◌, ◌≡◌,
}
use wwdedup.State.{Env, World}
use wwdedup.Types.{BlockInfo, Bytes, StorageBlock, access}

pub on_disk_cases :
    (disk : ℕ → Bytes) (reach id : ℕ) (c : Bytes)
    → on_disk disk reach id ≡ some c
    → (ltb id reach ≡ true) × (disk id ≡ c)
on_disk_cases disk reach id c e = elim (Bool-cases (ltb id reach)) [
  | inl inside ↦ (inside, ground (arith, e, inside))
  | inr out ↦ ground (arith, e, out)
]

abbrev NoFaults : World → World
NoFaults w = record w { faults = [] }

read_quiet :
    (env : Env) (start len : ℕ) (b : StorageBlock) (w : World) (c : Bytes)
    → (b.storage_block_num == 0) ≡ false
    → held w.disk w.disk_blocks b.storage_block_num (some b) ≡ some c
    → (block_bytes env start len (some b) (NoFaults w)).0 ≡ ok (take len (drop start c))
unfolding block_bytes ◌>>=◌
read_quiet env start len b w c z e = elim (Bool-cases (is_nil b.content)) [
  | inl empty ↦
      let (inside, same) =
        on_disk_cases w.disk w.disk_blocks b.storage_block_num c (sym (rw empty refl) ∙ e) in
      rw (z, empty, inside, same) refl
  | inr full ↦ let same : b.content ≡ c = ground (arith, e, full) in rw (z, full, same) refl
]

read_held :
    (env : Env) (start len : ℕ) (b : StorageBlock) (w : World) (c : Bytes)
    → w.faults ≡ []
    → (b.storage_block_num == 0) ≡ false
    → held w.disk w.disk_blocks b.storage_block_num (some b) ≡ some c
    → (block_bytes env start len (some b) w).0 ≡ ok (take len (drop start c))
read_held env start len b w c q z e =
    subst (λ v. (block_bytes env start len (some b) v).0 ≡ ok (take len (drop start c)))
      (ground (arith, q)) (read_quiet env start len b w c z e)

read_locked :
    (env : Env) (n num start len : ℕ) (w v : World) (b : StorageBlock) (c : Bytes)
    → w.faults ≡ []
    → (num == 0) ≡ false
    → stored num w ≡ some c
    → Locks env n num w b v
    → (read_chunk env n start len w).0 ≡ ok (take len (drop start c))
unfolding read_chunk get_storage_block unlock_info set_info touch set_block ◌>>=◌
read_locked env n num start len w v b c q z s k =
    rw (k.result, k.live)
      (read_held env start len (access v.now b)
        (set_block b.serial (access v.now) (set_info n (λ i. record i { locked = false }) v)) c
        (k.faults ∙ q) (ground (arith, k.number, z))
        (rw (k.disk, k.reach, k.number) (k.content ∙ s)))

-- Where the block_info of a file block is there, not locked, not empty and names a storage block
-- other than 0, a live weak_ptr of it is to an object of that number, the cache has each number
-- once, no call fails, and the cache or the storage file holds a content of the storage block:
-- what readBuf copies of this file block is that content from the start of the piece on.
pub read_chunk-stored :
    (env : Env) (n start len : ℕ) (w : World) (fb : BlockInfo) (c : Bytes)
    → w.faults ≡ []
    → find_info n w ≡ some fb
    → fb.locked ≡ false
    → fb.empty ≡ false
    → (fb.storage_block_num == 0) ≡ false
    → SameNum (lock_weak n w) fb
    → IsCache w.next_serial w.blocks
    → stored fb.storage_block_num w ≡ some c
    → (read_chunk env n start len w).0 ≡ ok (take len (drop start c))
read_chunk-stored env n start len w fb c q e l m z s k h =
    let (b, v, locks) =
      locked_either env n w fb (lock_serial fb.storage_block w.blocks) e l m refl
        (subst (λ o. SameNum o fb) (lock_lem n w fb e) s) k in
    read_locked env n fb.storage_block_num start len w v b c q z h locks
