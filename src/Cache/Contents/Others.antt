-- ===== src/Cache/Contents/Others.antt =====
-- _writeBlock against the other file blocks.
use wwdedup.Cache.Contents.{id_of}
use wwdedup.Cache.Contents.Places.{refs-found}
use wwdedup.Cache.Contents.Replaced.{id_of-present}
use wwdedup.Cache.Contents.Rows.{id_of-insert, id_of-set}
use wwdedup.Database.Consistency.{InStep}
use wwdedup.Database.Effect.{moved}
use wwdedup.Prelude.{
  Bool, Bool-cases, List, Option, [], arith, eqb, eqb_iff, eqb_refl, eqb_ℤ, eqb_ℤ_iff, false,
  find_first, find_first-append, inl, inr, none, not, pos, refl, select, some, sym, ℕ, ◌-ℤ◌, ◌∙◌,
  ◌∷◌, ◌≡◌,
}
use wwdedup.Sql.{
  at_offset, has_hash, increase_use_count, insert_block_hash, replace_file_block, set_use_count,
  update_block_hash,
}
use wwdedup.Sql.Counts.{IsConsistent, one_if, refs-select}
use wwdedup.Sql.Moves.{find_first-renamed}
use wwdedup.State.{FileBlockRow, HashRow, Tables}
use wwdedup.Types.{Bytes, StorageBlock}

pub find_first-kept :
    (p q : FileBlockRow → Bool) (rs : List FileBlockRow) (r : FileBlockRow)
    → find_first p rs ≡ some r
    → q r ≡ false
    → find_first p (select (λ b. not (q b)) rs) ≡ some r
find_first-kept p q [] r e h = cc
find_first-kept p q (x ∷ rs) r e h = ground (arith, e, h, find_first-kept p q rs r)

pub find_first-none_kept :
    (p q : FileBlockRow → Bool) (rs : List FileBlockRow)
    → find_first p rs ≡ none
    → find_first p (select q rs) ≡ none
find_first-none_kept p q [] e = cc
find_first-none_kept p q (x ∷ rs) e = ground (arith, e, find_first-none_kept p q rs)

module _ (i n : ℕ) (h : Bytes) (p : FileBlockRow → Bool) (t : Tables)
    (e : find_first p t.file_blocks ≡ none)
    (other : p (record { file_id = i; offset = n; hash = h }) ≡ false) where
  none_added : find_first p (replace_file_block i n h t).file_blocks ≡ none
  unfolding replace_file_block
  none_added = ground (
    arith,
    other,
    find_first-append p (select (λ b. not (at_offset i n b)) t.file_blocks)
        (record { file_id = i; offset = n; hash = h } ∷ []),
    find_first-none_kept p (λ b. not (at_offset i n b)) t.file_blocks e,
  )

  -- A place that has no row, and is not the written one, gets none.
  pub place_missing :
      (new : ℕ) (sb : Option StorageBlock) (row : Option HashRow)
      → find_first p (moved i n h new sb row t).file_blocks ≡ none
  unfolding replace_file_block insert_block_hash increase_use_count set_use_count update_block_hash
  place_missing new none none = none_added
  place_missing new none (some row) = none_added
  place_missing new (some b) (some row) = none_added
  place_missing new (some b) none = elim (Bool-cases (eqb_ℤ b.use_count (pos 1))) [
    | inl one ↦ rw one none_added
    | inr many ↦ rw many none_added
  ]

-- The row of another place.
pub record IsOther (i n : ℕ) (p : FileBlockRow → Bool) (t : Tables) (r : FileBlockRow) (id : ℕ)
    : Type 0 where
  pub there : find_first p t.file_blocks ≡ some r
  pub apart : at_offset i n r ≡ false
  pub named : id_of r.hash t.block_hashes ≡ some id

module _ (i n : ℕ) (p : FileBlockRow → Bool) (t : Tables) (r : FileBlockRow) (id : ℕ)
    (o : IsOther i n p t r id) where
  place_kept : (h : Bytes) → find_first p (replace_file_block i n h t).file_blocks ≡ some r
  unfolding replace_file_block
  place_kept h =
      find_first-append p (select (λ b. not (at_offset i n b)) t.file_blocks)
        (record { file_id = i; offset = n; hash = h } ∷ [])
      ∙ rw (find_first-kept p (at_offset i n) t.file_blocks r o.there o.apart) refl

  -- Two places that have one hash count twice.
  counted_twice :
      (own : FileBlockRow) (old : HashRow)
      → IsConsistent t
      → find_first (at_offset i n) t.file_blocks ≡ some own
      → find_first (has_hash own.hash) t.block_hashes ≡ some old
      → old.use_count ≡ pos 1
      → eqb own.hash r.hash ≡ false
  unfolding one_if
  counted_twice own old c e g one = elim (Bool-cases (eqb own.hash r.hash)) [
    | inr other ↦ other
    | inl same ↦ absurd (
        ground (
          arith,
          same,
          one,
          g,
          c.balanced own.hash,
          eqb_refl own.hash,
          eqb_iff own.hash r.hash,
          refs-select own.hash i n t.file_blocks own c.places e,
          refs-found own.hash p (select (λ b. not (at_offset i n b)) t.file_blocks) r
              (find_first-kept p (at_offset i n) t.file_blocks r o.there o.apart),
        ))
  ]

  pub place_moved :
      (h : Bytes) (new : ℕ) (sb : Option StorageBlock) (row : Option HashRow)
      → find_first p (moved i n h new sb row t).file_blocks ≡ some r
  unfolding replace_file_block insert_block_hash increase_use_count set_use_count update_block_hash
  place_moved h new none none = place_kept h
  place_moved h new none (some row) = place_kept h
  place_moved h new (some b) (some row) = place_kept h
  place_moved h new (some b) none = elim (Bool-cases (eqb_ℤ b.use_count (pos 1))) [
    | inl one ↦ rw one (place_kept h)
    | inr many ↦ rw many (place_kept h)
  ]

  -- A new hash is not the one of another place.
  pub not_this : (h : Bytes) → find_first (has_hash h) t.block_hashes ≡ none → eqb h r.hash ≡ false
  not_this h f = elim (Bool-cases (eqb h r.hash)) [
    | inr other ↦ other
    | inl same ↦ absurd (ground (arith, o.named, f, (eqb_iff h r.hash).0 same))
  ]

  id_inserted :
      (h : Bytes) (new : ℕ)
      → find_first (has_hash h) t.block_hashes ≡ none
      → id_of r.hash (insert_block_hash h new t).block_hashes ≡ some id
  id_inserted h new f = ground (arith, id_of-insert r.hash h new t f, not_this h f, o.named)

  id_renamed :
      (h : Bytes) (own : FileBlockRow) (old : HashRow)
      → IsConsistent t
      → find_first (has_hash h) t.block_hashes ≡ none
      → find_first (at_offset i n) t.file_blocks ≡ some own
      → find_first (has_hash own.hash) t.block_hashes ≡ some old
      → old.use_count ≡ pos 1
      → id_of r.hash (update_block_hash h old.id t).block_hashes ≡ some id
  unfolding update_block_hash
  id_renamed h own old c f e g one = ground (
    arith,
    find_first-renamed h own.hash r.hash t.block_hashes old c.ids c.hashes f g,
    not_this h f,
    counted_twice own old c e g one,
    o.named,
  )

  pub id_moved :
      (h : Bytes) (new : ℕ) (sb : Option StorageBlock)
      → IsConsistent t
      → InStep i n t sb
      → find_first (has_hash h) t.block_hashes ≡ none
      → id_of r.hash (moved i n h new sb none t).block_hashes ≡ some id
  unfolding replace_file_block
  id_moved h new none c s f = id_inserted h new f
  id_moved h new (some b) c (own, old, e, g, num, count) f =
      elim (Bool-cases (eqb_ℤ b.use_count (pos 1))) [
        | inl one ↦
            rw (one, num)
              (id_of-set r.hash b.use_count old.id _
                ∙ id_renamed h own old c f e g (sym count ∙ (eqb_ℤ_iff _ _).0 one))
        | inr many ↦
            rw many
              (id_of-set r.hash (b.use_count -ℤ pos 1) b.storage_block_num _ ∙ id_inserted h new f)
      ]

  pub id_present :
      (h : Bytes) (new : ℕ) (sb : Option StorageBlock) (row : HashRow)
      → id_of r.hash (moved i n h new sb (some row) t).block_hashes ≡ some id
  id_present h new sb row = id_of-present r.hash h i n new sb row t ∙ o.named
