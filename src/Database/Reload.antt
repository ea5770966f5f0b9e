-- ===== src/Database/Reload.antt =====
-- replaceStorageBlock against the query of loadFileBlock.
use wwdedup.Database.Blocks.{replace_storage_block}
use wwdedup.Database.Consistency.{InStep}
use wwdedup.Database.Effect.{IsQuiet, moved, new_key, quieted, quieted-eq, replace_result}
use wwdedup.Database.Pointers.{find_in, find_info, has_file_num, lock_weak}
use wwdedup.Effects.{◌>>=◌}
use wwdedup.Prelude.{
  Bool, Bool-cases, List, Option, [], ap, arith, eqb, eqb_refl, eqb_ℤ, find_first,
  find_first-append, find_first-select-not, find_first-update_where, find_first_holds,
  if◌then◌else◌, inl, inr, none, not, pos, refl, select, some, subst, sym, update_where, ℕ, ◌==◌,
  ◌∙◌, ◌∷◌, ◌≡◌,
}
use wwdedup.Sql.{
  FileBlock, add_use, at_offset, get_file_block, has_hash, increase_use_count, insert_block_hash,
  replace_file_block, select_block_hash, set_use_count, update_block_hash,
}
use wwdedup.Sql.Counts.{IsConsistent, has_hash-eqb, hash-found}
use wwdedup.Sql.Keeps.{renamed_found}
use wwdedup.Sql.Moves.{with_hash}
use wwdedup.State.{Env, HashRow, Tables, World}
use wwdedup.Types.{BlockInfo, Bytes, StorageBlock}

find_first-append_place :
    (i n : ℕ) (h : Bytes) (t : Tables)
    → find_first (at_offset i n) (replace_file_block i n h t).file_blocks
      ≡ some (record { file_id = i; offset = n; hash = h })
unfolding replace_file_block at_offset
find_first-append_place i n h t = ground (
  arith,
  find_first-append (at_offset i n) (select (λ r. not (at_offset i n r)) t.file_blocks)
      (record { file_id = i; offset = n; hash = h } ∷ []),
  find_first-select-not (at_offset i n) t.file_blocks,
)

-- The row that holds the new hash, as its key alone matters here.
abbrev pub HasId : Bytes → ℕ → List HashRow → Type 0
HasId h id rs = (row : HashRow) × (find_first (has_hash h) rs ≡ some row) × (row.id ≡ id)

HasId-update_where :
    (h : Bytes) (id : ℕ) (q : HashRow → Bool) (f : HashRow → HashRow) (rs : List HashRow)
    → ((a : HashRow) → (f a).hash ≡ a.hash)
    → ((a : HashRow) → (f a).id ≡ a.id)
    → HasId h id rs
    → HasId h id (update_where q f rs)
HasId-update_where h id q f rs kh kid (row, found, same) = (
  if q row then f row else row,
  rw
      (find_first-update_where (has_hash h) q f rs
        (λ a. has_hash-eqb h (f a) ∙ (ap (λ (x : Bytes). eqb x h) (kh a) ∙ sym (has_hash-eqb h a))))
      (rw found refl),
  ground (arith, kid row, same),
)

-- The key that the block_info gets.
abbrev pub num_after : ℕ → Option StorageBlock → Option HashRow → BlockInfo → ℕ
num_after id none (some row) fb = row.id
num_after id none none fb = id
num_after id (some b) (some row) fb = row.id
num_after id (some b) none fb = if eqb_ℤ b.use_count (pos 1) then fb.storage_block_num else id

abbrev pub SameNum : Option StorageBlock → BlockInfo → Type 0
SameNum none fb = Unit {0}
SameNum (some b) fb = b.storage_block_num ≡ fb.storage_block_num

HasId-new :
    (h : Bytes) (id : ℕ) (t : Tables)
    → find_first (has_hash h) t.block_hashes ≡ none
    → HasId h id (insert_block_hash h id t).block_hashes
unfolding insert_block_hash
HasId-new h id t f = (
  record { id = id; hash = h; use_count = pos 1 },
  ground (
    arith,
    f,
    find_first-append (has_hash h) t.block_hashes
        (record { id = id; hash = h; use_count = pos 1 } ∷ []),
    has_hash-eqb h (record { id = id; hash = h; use_count = pos 1 }),
    eqb_refl h,
  ),
  refl,
)

pub HasId-moved :
    (i n : ℕ) (h : Bytes) (id : ℕ) (t : Tables) (sb : Option StorageBlock) (row : Option HashRow)
    (fb : BlockInfo)
    → IsConsistent t
    → InStep i n t sb
    → SameNum sb fb
    → find_first (has_hash h) t.block_hashes ≡ row
    → HasId h (num_after id sb row fb) (moved i n h id sb row t).block_hashes
unfolding replace_file_block increase_use_count set_use_count update_block_hash
HasId-moved i n h id t none (some row) fb c s m f =
    HasId-update_where h row.id _ (add_use (pos 1)) t.block_hashes (λ a. refl) (λ a. refl)
      (row, f, refl)
HasId-moved i n h id t none none fb c s m f = HasId-new h id t f
HasId-moved i n h id t (some b) (some row) fb c s m f =
    HasId-update_where h row.id _ _ _ (λ a. refl) (λ a. refl)
      (HasId-update_where h row.id _ (add_use (pos 1)) t.block_hashes (λ a. refl) (λ a. refl)
        (row, f, refl))
HasId-moved i n h id t (some b) none fb c (r, old, e, g, num, count) m f =
    elim (Bool-cases (eqb_ℤ b.use_count (pos 1))) [
      | inl one ↦ rw one (
          HasId-update_where h fb.storage_block_num _ _ _ (λ a. refl) (λ a. refl)
            (with_hash h old, rw num (renamed_found h t old r.hash c f g), sym num ∙ m))
      | inr many ↦
          rw many (HasId-update_where h id _ _ _ (λ a. refl) (λ a. refl) (HasId-new h id t f))
    ]

-- The block_info of the written file block.
abbrev pub info_after : ℕ → Bytes → Option StorageBlock → Option HashRow → BlockInfo → BlockInfo
info_after id h none row fb = record fb {
  hash = some h;
  storage_block_num = num_after id none row fb;
  storage_block = none;
}
info_after id h (some b) (some row) fb = record fb {
  hash = some h;
  storage_block_num = row.id;
  storage_block = none;
}
info_after id h (some b) none fb =
    if eqb_ℤ b.use_count (pos 1)
    then record fb { hash = some h }
    else record fb { hash = some h; storage_block_num = id; storage_block = none }

pub find_in-update_where :
    (n : ℕ) (f : BlockInfo → BlockInfo) (bs : List BlockInfo) (fb : BlockInfo)
    → ((a : BlockInfo) → (f a).file_block_num ≡ a.file_block_num)
    → find_in n bs ≡ some fb
    → find_in n (update_where (has_file_num n) f bs) ≡ some (f fb)
unfolding find_in
find_in-update_where n f bs fb k e =
    rw
      (find_first-update_where (has_file_num n) (has_file_num n) f bs
        (λ a. ap (λ (x : ℕ). x == n) (k a)))
      (ground (arith, e, find_first_holds (has_file_num n) bs fb e))

-- Every way to replace leaves the row of the place with the new hash.
pub find_first-moved :
    (i n : ℕ) (h : Bytes) (id : ℕ) (t : Tables) (sb : Option StorageBlock) (row : Option HashRow)
    → find_first (at_offset i n) (moved i n h id sb row t).file_blocks
      ≡ some (record { file_id = i; offset = n; hash = h })
unfolding set_use_count
find_first-moved i n h id t none none = find_first-append_place i n h _
find_first-moved i n h id t none (some row) = find_first-append_place i n h _
find_first-moved i n h id t (some b) (some row) = find_first-append_place i n h _
find_first-moved i n h id t (some b) none = elim (Bool-cases (eqb_ℤ b.use_count (pos 1))) [
  | inl one ↦ rw one (find_first-append_place i n h _)
  | inr many ↦ rw many (find_first-append_place i n h _)
]

abbrev pub InfoAfter :
    Env → ℕ → Bytes → Option StorageBlock → Option HashRow → BlockInfo → World → Type 0
InfoAfter env n h sb row fb w =
    find_info n (replace_storage_block env n h w).1
    ≡ some (info_after (new_key env w.tables) h sb row fb)

module _ (env : Env) (n : ℕ) (h : Bytes) (w : World) (fb : BlockInfo) where
  pub info_replaced :
      (sb : Option StorageBlock) (row : Option HashRow)
      → lock_weak n w ≡ sb
      → select_block_hash h w.tables ≡ row
      → find_info n w ≡ some fb
      → InfoAfter env n h sb row fb (quieted w)
  unfolding replace_storage_block ◌>>=◌
  info_replaced none none e f k =
      rw (e, f)
        (find_in-update_where n _ _ _ (λ a. refl) (find_in-update_where n _ _ fb (λ a. refl) k))
  info_replaced none (some row) e f k =
      rw (e, f)
        (find_in-update_where n _ _ _ (λ a. refl) (find_in-update_where n _ _ fb (λ a. refl) k))
  info_replaced (some b) (some row) e f k =
      rw (e, f)
        (find_in-update_where n _ _ _ (λ a. refl) (find_in-update_where n _ _ fb (λ a. refl) k))
  info_replaced (some b) none e f k = elim (Bool-cases (eqb_ℤ b.use_count (pos 1))) [
    | inl one ↦ rw (e, f, one) (find_in-update_where n _ _ fb (λ a. refl) k)
    | inr many ↦
        rw (e, f, many)
          (find_in-update_where n _ _ _ (λ a. refl) (find_in-update_where n _ _ fb (λ a. refl) k))
  ]

  pub num-info_after :
      (id : ℕ) (sb : Option StorageBlock) (row : Option HashRow)
      → ((info_after id h sb row fb).storage_block_num ≡ num_after id sb row fb)
        × ((info_after id h sb row fb).hash ≡ some h)
  num-info_after id none none = (refl, refl)
  num-info_after id none (some row) = (refl, refl)
  num-info_after id (some b) (some row) = (refl, refl)
  num-info_after id (some b) none = ground arith

  -- Where no call fails, no transaction is open, the tables are consistent, the old storage block
  -- as the cache has it agrees with them, and the file has a block_info with the same number,
  -- after replaceStorageBlock the query of loadFileBlock finds a row with the new hash and with
  -- the storage block that the block_info now names, whose hash is the new one too.
  pub replace-reload :
      IsQuiet w
      → IsConsistent w.tables
      → InStep w.file.st.ino n w.tables (lock_weak n w)
      → find_info n w ≡ some fb
      → SameNum (lock_weak n w) fb
      → let after = (replace_storage_block env n h w).1 in
        (row : FileBlock) × (info : BlockInfo) × (get_file_block w.file.st.ino n after.tables
          ≡ some row)
        × (row.hash ≡ h)
        × (find_info n after ≡ some info)
        × (info.storage_block_num ≡ row.id)
        × (info.hash ≡ some h)
  unfolding select_block_hash get_file_block
  replace-reload q c s k m =
      let sb = lock_weak n w in
      let found = select_block_hash h w.tables in
      let id = new_key env w.tables in
      let out = replace_result env n h w sb found q refl refl in
      let (row, e, same) = HasId-moved w.file.st.ino n h id w.tables sb found fb c s m refl in
      let info : InfoAfter env n h sb found fb w =
        subst (InfoAfter env n h sb found fb) (quieted-eq w q)
          (info_replaced sb found refl refl k) in
      (
        record { id = row.id; hash = row.hash; use_count = row.use_count },
        info_after id h sb found fb,
        rw (out.1) (rw (find_first-moved w.file.st.ino n h id w.tables sb found) (rw e refl)),
        hash-found h _ row e,
        info,
        (num-info_after id sb found).0 ∙ sym same,
        (num-info_after id sb found).1,
      )
