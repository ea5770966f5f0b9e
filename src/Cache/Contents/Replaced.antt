-- ===== src/Cache/Contents/Replaced.antt =====
-- What replaceStorageBlock leaves of the cache, and which storage block each hash then has.
use wwdedup.Cache.Contents.{id_of}
use wwdedup.Cache.Contents.Rows.{id_of-rename, other_id, id_of-insert, id_of-increase, id_of-set}
use wwdedup.Database.Blocks.{dropped, replace_storage_block}
use wwdedup.Database.Effect.{IsQuiet, moved, quieted, quieted-eq}
use wwdedup.Database.Pointers.{has_serial, lock_weak}
use wwdedup.Database.Reload.{SameNum, num_after}
use wwdedup.Effects.{◌>>=◌}
use wwdedup.Prelude.{
  sym, arith, Bool-cases, List, Option, eqb, eqb_ℤ, false, find_first, if◌then◌else◌, inl, inr,
  none, pos, some, subst, update_where, ℕ, ◌-ℤ◌, ◌==◌, ◌∙◌, ◌≡◌,
}
use wwdedup.Sql.{
  insert_block_hash, update_block_hash, has_hash, replace_file_block, select_block_hash,
}
use wwdedup.Sql.Counts.{IsConsistent, has_id}
use wwdedup.State.{Env, HashRow, Tables, World}
use wwdedup.Types.{BlockInfo, Bytes, StorageBlock}

-- The cached objects: the old storage block loses a use, unless its hash was changed in place.
abbrev pub left_blocks :
    Option StorageBlock → Option HashRow → List StorageBlock → List StorageBlock
left_blocks none row bs = bs
left_blocks (some b) (some row) bs = update_where (has_serial b.serial) dropped bs
left_blocks (some b) none bs =
    if eqb_ℤ b.use_count (pos 1) then bs else update_where (has_serial b.serial) dropped bs

pub record LeavesCache (bs : List StorageBlock) (before after : World) : Type 0 where
  pub blocks : after.blocks ≡ bs
  pub serial : after.next_serial ≡ before.next_serial
  pub disk : after.disk ≡ before.disk
  pub reach : after.disk_blocks ≡ before.disk_blocks
  pub faults : after.faults ≡ before.faults

abbrev Leaves : Env → ℕ → Bytes → Option StorageBlock → Option HashRow → World → Type 0
Leaves env n h sb row w =
    LeavesCache (left_blocks sb row w.blocks) w (replace_storage_block env n h w).1

module _ (env : Env) (n : ℕ) (h : Bytes) (w : World) where
  cache_left :
      (sb : Option StorageBlock) (row : Option HashRow)
      → lock_weak n w ≡ sb
      → select_block_hash h w.tables ≡ row
      → Leaves env n h sb row (quieted w)
  unfolding replace_storage_block ◌>>=◌
  cache_left none none e f = record {
    blocks = rw (e, f);
    serial = rw (e, f);
    disk = rw (e, f);
    reach = rw (e, f);
    faults = rw (e, f);
  }
  cache_left none (some row) e f = record {
    blocks = rw (e, f);
    serial = rw (e, f);
    disk = rw (e, f);
    reach = rw (e, f);
    faults = rw (e, f);
  }
  cache_left (some b) (some row) e f = record {
    blocks = rw (e, f);
    serial = rw (e, f);
    disk = rw (e, f);
    reach = rw (e, f);
    faults = rw (e, f);
  }
  cache_left (some b) none e f = elim (Bool-cases (eqb_ℤ b.use_count (pos 1))) [
    | inl one ↦ record {
      blocks = rw (e, f, one);
      serial = rw (e, f, one);
      disk = rw (e, f, one);
      reach = rw (e, f, one);
      faults = rw (e, f, one);
    }
    | inr many ↦ record {
      blocks = rw (e, f, many);
      serial = rw (e, f, many);
      disk = rw (e, f, many);
      reach = rw (e, f, many);
      faults = rw (e, f, many);
    }
  ]

  pub replace-Leaves :
      (sb : Option StorageBlock) (row : Option HashRow)
      → IsQuiet w
      → lock_weak n w ≡ sb
      → select_block_hash h w.tables ≡ row
      → Leaves env n h sb row w
  replace-Leaves sb row q e f =
      subst (Leaves env n h sb row) (quieted-eq w q) (cache_left sb row e f)

pub left-same :
    (sb : Option StorageBlock) (row : Option HashRow) (bs : List StorageBlock)
    (P : List StorageBlock → Type 0)
    → P bs
    → ((s : ℕ) → P (update_where (has_serial s) dropped bs))
    → P (left_blocks sb row bs)
left-same none row bs P same changed = same
left-same (some b) (some row) bs P same changed = changed b.serial
left-same (some b) none bs P same changed = elim (Bool-cases (eqb_ℤ b.use_count (pos 1))) [
  | inl one ↦ rw one same
  | inr many ↦ rw many (changed b.serial)
]

-- The hash was there: every hash keeps its storage block.
pub id_of-present :
    (k h : Bytes) (i n id : ℕ) (sb : Option StorageBlock) (row : HashRow) (t : Tables)
    → id_of k (moved i n h id sb (some row) t).block_hashes ≡ id_of k t.block_hashes
unfolding replace_file_block
id_of-present k h i n id none row t = id_of-increase k h t
id_of-present k h i n id (some b) row t =
    id_of-set k (b.use_count -ℤ pos 1) b.storage_block_num _ ∙ id_of-increase k h t

abbrev Apart : Bytes → ℕ → ℕ → Tables → Type 0
Apart k id num t = (id_of k t.block_hashes ≡ some id) × ((id == num) ≡ false)

Apart-new :
    (k h : Bytes) (id num : ℕ) (t : Tables)
    → find_first (has_id id) t.block_hashes ≡ none
    → find_first (has_hash h) t.block_hashes ≡ none
    → eqb h k ≡ false
    → id_of k (insert_block_hash h id t).block_hashes ≡ some num
    → Apart k num id t
Apart-new k h id num t new f ne e =
    let kept : id_of k t.block_hashes ≡ some num = ground (arith, id_of-insert k h id t f, e, ne) in
    (kept, other_id k id num t.block_hashes new kept)

-- It was not: the other hashes have the storage block that they had, which is not the written one.
pub id_of-other :
    (k h : Bytes) (i n id num : ℕ) (sb : Option StorageBlock) (fb : BlockInfo) (t : Tables)
    → IsConsistent t
    → find_first (has_id id) t.block_hashes ≡ none
    → find_first (has_hash h) t.block_hashes ≡ none
    → SameNum sb fb
    → eqb h k ≡ false
    → id_of k (moved i n h id sb none t).block_hashes ≡ some num
    → Apart k num (num_after id sb none fb) t
unfolding replace_file_block update_block_hash
id_of-other k h i n id num none fb t c new f s ne = Apart-new k h id num t new f ne
id_of-other k h i n id num (some b) fb t c new f s ne =
    elim (Bool-cases (eqb_ℤ b.use_count (pos 1))) [
      | inl one ↦
          rw (one, sym s)
            (λ e.
              id_of-rename k h b.storage_block_num num t.block_hashes c.ids c.hashes ne
                (sym (id_of-set k b.use_count b.storage_block_num _) ∙ e))
      | inr many ↦ rw many (λ e.
          Apart-new k h id num t new f ne
            (sym (id_of-set k (b.use_count -ℤ pos 1) b.storage_block_num _) ∙ e))
    ]
