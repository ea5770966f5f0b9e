-- ===== src/Sql/Inserts.antt =====
-- An allocation in replaceStorageBlock, and the change of releaseStorageBlock, against the use counts.
use wwdedup.Prelude.{
  ℕ, ◌≡◌, refl, sym, ◌∙◌, none, some, [], ◌∷◌, arith, find_first, eqb, eqb_iff, if◌then◌else◌, pos,
  ◌+ℤ◌, ◌-ℤ◌, Distinct, Distinct-update_where, Distinct-select, Distinct-append, find_first-append,
}
use wwdedup.Types.{Bytes}
use wwdedup.State.{FileBlockRow, HashRow, Tables}
use wwdedup.Sql.{
  at_offset, has_hash, set_use_count, insert_block_hash, replace_file_block, delete_file_block,
  decrease_use_count,
}
use wwdedup.Sql.Counts.{
  has_id, place, at_place, uses, IsConsistent, one_if, refs-select, has_hash-eqb, uses-decrease,
  uses-set, one_less,
}
use wwdedup.Sql.Moves.{
  places-replace, refs-replace_new, refs-replace_old, ids-set, hashes-set, has_hash_sym,
}

new_found :
    (h k : Bytes) (id : ℕ) (t : Tables)
    → find_first (has_hash h) t.block_hashes ≡ none
    → uses k (insert_block_hash h id t).block_hashes
      ≡ (if eqb h k then pos 1 else uses k t.block_hashes)
unfolding insert_block_hash
new_found h k id t f = ground (
  arith,
  find_first-append (has_hash k) t.block_hashes
      (record { id = id; hash = h; use_count = pos 1 } ∷ []),
  has_hash-eqb k (record { id = id; hash = h; use_count = pos 1 }),
  eqb_iff h k,
  f,
)

pub ids-insert :
    (h : Bytes) (id : ℕ) (t : Tables)
    → find_first (has_id id) t.block_hashes ≡ none
    → Distinct has_id (λ r. r.id) t.block_hashes
    → Distinct has_id (λ r. r.id) (insert_block_hash h id t).block_hashes
unfolding insert_block_hash
ids-insert h id t fresh d =
    Distinct-append has_id (λ (r : HashRow). r.id) t.block_hashes _ (λ a. ground arith) fresh d

hashes-insert :
    (h : Bytes) (id : ℕ) (t : Tables)
    → find_first (has_hash h) t.block_hashes ≡ none
    → Distinct has_hash (λ r. r.hash) t.block_hashes
    → Distinct has_hash (λ r. r.hash) (insert_block_hash h id t).block_hashes
unfolding insert_block_hash
hashes-insert h id t f d =
    Distinct-append has_hash (λ (r : HashRow). r.hash) t.block_hashes _ (λ a. has_hash_sym a _) f d

-- The place had no row, and the hash gets a row of its own.
pub IsConsistent-allocated_new :
    (i o : ℕ) (h : Bytes) (id : ℕ) (t : Tables)
    → IsConsistent t
    → find_first (at_offset i o) t.file_blocks ≡ none
    → find_first (has_hash h) t.block_hashes ≡ none
    → find_first (has_id id) t.block_hashes ≡ none
    → IsConsistent (replace_file_block i o h (insert_block_hash h id t))
unfolding insert_block_hash replace_file_block one_if
IsConsistent-allocated_new i o h id t c e f fresh = record {
  ids = ids-insert h id t fresh c.ids;
  hashes = hashes-insert h id t f c.hashes;
  places = places-replace i o h t c.places;
  balanced = λ k.
      ground
        (arith, new_found h k id t f, refs-replace_new i o h k t e, c.balanced k, f, eqb_iff h k);
}

old_kept :
    (h : Bytes) (id : ℕ) (t : Tables) (old : HashRow) (k : Bytes)
    → find_first (has_hash k) t.block_hashes ≡ some old
    → find_first (has_hash k) (insert_block_hash h id t).block_hashes ≡ some old
unfolding insert_block_hash
old_kept h id t old k g = ground (
  arith,
  g,
  find_first-append (has_hash k) t.block_hashes
      (record { id = id; hash = h; use_count = pos 1 } ∷ []),
)

-- The place had the hash of a row that others use too.
pub IsConsistent-allocated_old :
    (i o : ℕ) (h : Bytes) (id : ℕ) (t : Tables) (old : HashRow) (r : FileBlockRow)
    → IsConsistent t
    → find_first (at_offset i o) t.file_blocks ≡ some r
    → find_first (has_hash r.hash) t.block_hashes ≡ some old
    → find_first (has_hash h) t.block_hashes ≡ none
    → find_first (has_id id) t.block_hashes ≡ none
    → IsConsistent (
        set_use_count
          (old.use_count -ℤ pos 1)
          old.id
          (replace_file_block i o h (insert_block_hash h id t)))
unfolding insert_block_hash replace_file_block set_use_count one_if ◌+ℤ◌ ◌-ℤ◌
IsConsistent-allocated_old i o h id t old r c e g f fresh = record {
  ids = ids-set _ old.id (insert_block_hash h id t) (ids-insert h id t fresh c.ids);
  hashes = hashes-set _ old.id (insert_block_hash h id t) (hashes-insert h id t f c.hashes);
  places = places-replace i o h t c.places;
  balanced = λ k. ground (
    arith,
    g,
    uses-set r.hash k (insert_block_hash h id t).block_hashes old (old.use_count -ℤ pos 1)
        (old_kept h id t old r.hash g) (ids-insert h id t fresh c.ids),
    new_found h k id t f,
    refs-replace_old i o h k t r c.places e,
    c.balanced k,
    f,
    eqb_iff h k,
    eqb_iff r.hash k,
    eqb_iff r.hash h,
  );
}

-- A file block is taken away, and its hash has one use less.
pub IsConsistent-released :
    (i o : ℕ) (t : Tables) (old : HashRow) (r : FileBlockRow)
    → IsConsistent t
    → find_first (at_offset i o) t.file_blocks ≡ some r
    → find_first (has_hash r.hash) t.block_hashes ≡ some old
    → IsConsistent (decrease_use_count r.hash (delete_file_block i o t))
unfolding decrease_use_count delete_file_block one_if ◌-ℤ◌
IsConsistent-released i o t old r c e g = record {
  ids =
      Distinct-update_where has_id _ (has_hash r.hash) one_less t.block_hashes (λ a. refl)
        (λ k a. refl) c.ids;
  hashes =
      Distinct-update_where has_hash _ (has_hash r.hash) one_less t.block_hashes (λ a. refl)
        (λ k a. has_hash-eqb k (one_less a) ∙ sym (has_hash-eqb k a)) c.hashes;
  places = Distinct-select at_place place _ t.file_blocks c.places;
  balanced = λ k. ground (
    arith,
    uses-decrease r.hash k t.block_hashes old g,
    refs-select k i o t.file_blocks r c.places e,
    c.balanced k,
    eqb_iff r.hash k,
  );
}
