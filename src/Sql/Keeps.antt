-- ===== src/Sql/Keeps.antt =====
-- The composed changes of replaceStorageBlock and releaseStorageBlock against the use counts.
use wwdedup.Prelude.{
  ℕ, ◌≡◌, ◌≢◌, refl, sym, ◌∙◌, none, some, arith, find_first, update_where, eqb_iff, pos, ◌+ℤ◌,
  ◌-ℤ◌, Distinct, Distinct-update_where, find_first-update_where,
}
use wwdedup.Types.{Bytes}
use wwdedup.State.{FileBlockRow, HashRow, Tables}
use wwdedup.Sql.{
  at_offset, has_hash, add_use, increase_use_count, set_use_count, update_block_hash,
  replace_file_block,
}
use wwdedup.Sql.Counts.{
  has_id, IsConsistent, one_if, has_hash-eqb, hash-found, uses-increase, uses-set,
}
use wwdedup.Sql.Moves.{
  with_hash, find_first-renamed, places-replace, refs-replace_new, refs-replace_old, ids-increase,
  hashes-increase, ids-set, hashes-set, hashes-renamed,
}

-- The place had no row and the hash is present: one more use.
pub IsConsistent-present_new :
    (i o : ℕ) (h : Bytes) (t : Tables) (row : HashRow)
    → IsConsistent t
    → find_first (at_offset i o) t.file_blocks ≡ none
    → find_first (has_hash h) t.block_hashes ≡ some row
    → IsConsistent (replace_file_block i o h (increase_use_count h t))
unfolding increase_use_count replace_file_block one_if ◌+ℤ◌
IsConsistent-present_new i o h t row c e f = record {
  ids = ids-increase h t c.ids;
  hashes = hashes-increase h t c.hashes;
  places = places-replace i o h t c.places;
  balanced = λ k.
      ground
        (arith, uses-increase h k t.block_hashes row f, refs-replace_new i o h k t e, c.balanced k);
}

-- The row of another hash is not touched.
old_stays :
    (h : Bytes) (t : Tables) (old : HashRow) (k : Bytes)
    → find_first (has_hash k) t.block_hashes ≡ some old
    → k ≢ h
    → find_first (has_hash k) (update_where (has_hash h) (add_use (pos 1)) t.block_hashes)
      ≡ some old
old_stays h t old k g ne =
    rw
      (find_first-update_where (has_hash k) (has_hash h) (add_use (pos 1)) t.block_hashes
        (λ a. has_hash-eqb k (add_use (pos 1) a) ∙ sym (has_hash-eqb k a)))
      (ground (arith, g, has_hash-eqb h old, hash-found k t.block_hashes old g, eqb_iff old.hash h))

-- The place had the hash of another row: one use less for that row.
pub IsConsistent-present_old :
    (i o : ℕ) (h : Bytes) (t : Tables) (row old : HashRow) (r : FileBlockRow)
    → IsConsistent t
    → find_first (at_offset i o) t.file_blocks ≡ some r
    → find_first (has_hash r.hash) t.block_hashes ≡ some old
    → find_first (has_hash h) t.block_hashes ≡ some row
    → r.hash ≢ h
    → IsConsistent (
        set_use_count
          (old.use_count -ℤ pos 1)
          old.id
          (replace_file_block i o h (increase_use_count h t)))
unfolding increase_use_count replace_file_block set_use_count one_if ◌+ℤ◌ ◌-ℤ◌
IsConsistent-present_old i o h t row old r c e g f ne = record {
  ids = ids-set _ old.id (increase_use_count h t) (ids-increase h t c.ids);
  hashes = hashes-set _ old.id (increase_use_count h t) (hashes-increase h t c.hashes);
  places = places-replace i o h t c.places;
  balanced = λ k. ground (
    arith,
    uses-set r.hash k (update_where (has_hash h) (add_use (pos 1)) t.block_hashes) old
        (old.use_count -ℤ pos 1) (old_stays h t old r.hash g ne) (ids-increase h t c.ids),
    uses-increase h k t.block_hashes row f,
    refs-replace_old i o h k t r c.places e,
    c.balanced k,
    g,
    eqb_iff h k,
    eqb_iff r.hash k,
    eqb_iff r.hash h,
  );
}

pub ids-renamed :
    (h : Bytes) (id : ℕ) (t : Tables)
    → Distinct has_id (λ r. r.id) t.block_hashes
    → Distinct has_id (λ r. r.id) (update_block_hash h id t).block_hashes
unfolding update_block_hash
ids-renamed h id t d =
    Distinct-update_where has_id _ (has_id id) (with_hash h) t.block_hashes (λ a. refl)
      (λ k a. refl) d

pub renamed_found :
    (h : Bytes) (t : Tables) (old : HashRow) (k : Bytes)
    → IsConsistent t
    → find_first (has_hash h) t.block_hashes ≡ none
    → find_first (has_hash k) t.block_hashes ≡ some old
    → find_first (has_hash h) (update_where (has_id old.id) (with_hash h) t.block_hashes)
      ≡ some (with_hash h old)
renamed_found h t old k c f g =
    ground (arith, find_first-renamed h k h t.block_hashes old c.ids c.hashes f g, eqb_iff h h)

-- Nobody else has the old hash: its row takes the new one.
pub IsConsistent-in_place :
    (i o : ℕ) (h : Bytes) (t : Tables) (old : HashRow) (r : FileBlockRow)
    → IsConsistent t
    → find_first (at_offset i o) t.file_blocks ≡ some r
    → find_first (has_hash r.hash) t.block_hashes ≡ some old
    → find_first (has_hash h) t.block_hashes ≡ none
    → old.use_count ≡ pos 1
    → IsConsistent (
        set_use_count old.use_count old.id
          (replace_file_block i o h (update_block_hash h old.id t)))
unfolding update_block_hash replace_file_block set_use_count one_if
IsConsistent-in_place i o h t old r c e g f one = record {
  ids = ids-set old.use_count old.id (update_block_hash h old.id t) (ids-renamed h old.id t c.ids);
  hashes =
      hashes-set old.use_count old.id (update_block_hash h old.id t)
        (hashes-renamed h r.hash t.block_hashes old c.ids c.hashes f g);
  places = places-replace i o h t c.places;
  balanced = λ k. ground (
    arith,
    one,
    g,
    uses-set h k (update_where (has_id old.id) (with_hash h) t.block_hashes) (with_hash h old)
        old.use_count (renamed_found h t old r.hash c f g) (ids-renamed h old.id t c.ids),
    find_first-renamed h r.hash k t.block_hashes old c.ids c.hashes f g,
    refs-replace_old i o h k t r c.places e,
    c.balanced k,
    c.balanced r.hash,
    f,
    eqb_iff h k,
    eqb_iff r.hash k,
    eqb_iff r.hash h,
  );
}
