-- ===== src/Sql/Moves.antt =====
-- The three ways in which replaceStorageBlock moves a file block to another hash, and the release
-- of a file block, as changes of the tables.
use wwdedup.Prelude.{
  ℕ, ◌+◌, ◌≡◌, refl, sym, ◌∙◌, inl, inr, Bool-cases, not, Option, none, some, List, [], ◌∷◌, arith,
  ==_refl, select, find_first, update_where, eqb, eqb_iff, if◌then◌else◌, ℤ, pos, Distinct,
  Distinct-update_where, Distinct-select, Distinct-append, select-none, update_where-none,
  find_first-select-not, find_first-key,
}
use wwdedup.Types.{Bytes}
use wwdedup.State.{FileBlockRow, HashRow, Tables}
use wwdedup.Sql.{
  at_offset, has_hash, add_use, increase_use_count, set_use_count, replace_file_block,
}
use wwdedup.Sql.Counts.{
  has_id, place, at_place, refs, one_if, refs-append, refs-select, has_hash-eqb, eqb_sym,
}

abbrev pub with_hash : Bytes → HashRow → HashRow
with_hash h r = record r { hash = h }

abbrev pub found_renamed : Bytes → Bytes → Bytes → HashRow → Option HashRow → Option HashRow
found_renamed h old k row o =
    if eqb h k then some (with_hash h row) else if eqb old k then none else o

-- stUpdateBlockHash on the row of the hash `old`, to a hash that no row has.
pub find_first-renamed :
    (h old k : Bytes) (rs : List HashRow) (row : HashRow)
    → Distinct has_id (λ r. r.id) rs
    → Distinct has_hash (λ r. r.hash) rs
    → find_first (has_hash h) rs ≡ none
    → find_first (has_hash old) rs ≡ some row
    → find_first (has_hash k) (update_where (has_id row.id) (with_hash h) rs)
      ≡ found_renamed h old k row (find_first (has_hash k) rs)
unfolding has_hash
find_first-renamed h old k [] row di dh n e = cc
find_first-renamed h old k (x ∷ xs) row di dh n e = elim (Bool-cases (eqb x.hash old)) [
  | inl hit ↦ ground (
    arith,
    hit,
    update_where-none (has_id x.id) (with_hash h) xs di.0,
    dh.0,
    eqb_iff x.hash old,
    eqb_iff x.hash k,
    eqb_iff old k,
    eqb_iff h k,
  )
  | inr miss ↦ ground (
    arith,
    miss,
    find_first-renamed h old k xs row di.1 dh.1 (ground arith) (ground arith),
    find_first-key has_id (λ (r : HashRow). r.id) (has_hash old) xs row (λ b. ground arith)
        (==_refl row.id) di.1 (ground arith),
    di.0,
    eqb_iff x.hash old,
    eqb_iff x.hash k,
    eqb_iff x.hash h,
    eqb_iff old k,
    eqb_iff h k,
  )
]

-- That change keeps the hashes distinct.
pub hashes-renamed :
    (h old : Bytes) (rs : List HashRow) (row : HashRow)
    → Distinct has_id (λ r. r.id) rs
    → Distinct has_hash (λ r. r.hash) rs
    → find_first (has_hash h) rs ≡ none
    → find_first (has_hash old) rs ≡ some row
    → Distinct has_hash (λ r. r.hash) (update_where (has_id row.id) (with_hash h) rs)
unfolding has_hash
hashes-renamed h old [] row di dh n e = tt
hashes-renamed h old (x ∷ xs) row di dh n e = elim (Bool-cases (eqb x.hash old)) [
  | inl hit ↦
      ground (arith, hit, update_where-none (has_id x.id) (with_hash h) xs di.0, dh.1, n, di.0)
  | inr miss ↦ ground (
    arith,
    miss,
    find_first-renamed h old x.hash xs row di.1 dh.1 (ground arith) (ground arith),
    hashes-renamed h old xs row di.1 dh.1 (ground arith) (ground arith),
    find_first-key has_id (λ (r : HashRow). r.id) (has_hash old) xs row (λ b. ground arith)
        (==_refl row.id) di.1 (ground arith),
    di.0,
    dh.0,
    eqb_iff x.hash old,
    eqb_iff x.hash h,
    eqb_iff old x.hash,
    eqb_iff h x.hash,
  )
]

at_place_sym : (a b : FileBlockRow) → at_place (place a) b ≡ at_place (place b) a
unfolding at_offset
at_place_sym a b = ground arith

pub has_hash_sym : (a b : HashRow) → has_hash a.hash b ≡ has_hash b.hash a
has_hash_sym a b = has_hash-eqb a.hash b ∙ (eqb_sym b.hash a.hash ∙ sym (has_hash-eqb b.hash a))

-- stReplaceFileBlock keeps the places distinct.
pub places-replace :
    (i o : ℕ) (h : Bytes) (t : Tables)
    → Distinct at_place place t.file_blocks
    → Distinct at_place place (replace_file_block i o h t).file_blocks
unfolding replace_file_block
places-replace i o h t d =
    Distinct-append at_place place _ _ (λ a. at_place_sym a _)
      (find_first-select-not (at_offset i o) t.file_blocks)
      (Distinct-select at_place place _ t.file_blocks d)

-- The references after stReplaceFileBlock, where the place had no row.
pub refs-replace_new :
    (i o : ℕ) (h k : Bytes) (t : Tables)
    → find_first (at_offset i o) t.file_blocks ≡ none
    → refs k (replace_file_block i o h t).file_blocks ≡ refs k t.file_blocks + one_if (eqb h k)
unfolding replace_file_block
refs-replace_new i o h k t e =
    rw (select-none (at_offset i o) t.file_blocks e) (refs-append k t.file_blocks _)

-- And where it had one.
pub refs-replace_old :
    (i o : ℕ) (h k : Bytes) (t : Tables) (r : FileBlockRow)
    → Distinct at_place place t.file_blocks
    → find_first (at_offset i o) t.file_blocks ≡ some r
    → refs k (replace_file_block i o h t).file_blocks + one_if (eqb r.hash k)
      ≡ refs k t.file_blocks + one_if (eqb h k)
unfolding replace_file_block
refs-replace_old i o h k t r d e = omega (
  arith,
  refs-append k (select (λ b. not (at_offset i o b)) t.file_blocks)
      (record { file_id = i; offset = o; hash = h }),
  refs-select k i o t.file_blocks r d e,
)

-- stIncreaseUseCount and stSetUseCount keep the keys.
pub ids-increase :
    (h : Bytes) (t : Tables)
    → Distinct has_id (λ r. r.id) t.block_hashes
    → Distinct has_id (λ r. r.id) (increase_use_count h t).block_hashes
unfolding increase_use_count
ids-increase h t d =
    Distinct-update_where has_id _ (has_hash h) (add_use (pos 1)) t.block_hashes (λ a. refl)
      (λ k a. refl) d

pub hashes-increase :
    (h : Bytes) (t : Tables)
    → Distinct has_hash (λ r. r.hash) t.block_hashes
    → Distinct has_hash (λ r. r.hash) (increase_use_count h t).block_hashes
unfolding increase_use_count has_hash
hashes-increase h t d =
    Distinct-update_where has_hash _ (has_hash h) (add_use (pos 1)) t.block_hashes (λ a. refl)
      (λ k a. refl) d

pub ids-set :
    (n : ℤ) (id : ℕ) (t : Tables)
    → Distinct has_id (λ r. r.id) t.block_hashes
    → Distinct has_id (λ r. r.id) (set_use_count n id t).block_hashes
unfolding set_use_count
ids-set n id t d =
    Distinct-update_where has_id _ (has_id id) (λ r. record r { use_count = n }) t.block_hashes
      (λ a. refl) (λ k a. refl) d

pub hashes-set :
    (n : ℤ) (id : ℕ) (t : Tables)
    → Distinct has_hash (λ r. r.hash) t.block_hashes
    → Distinct has_hash (λ r. r.hash) (set_use_count n id t).block_hashes
unfolding set_use_count has_hash
hashes-set n id t d =
    Distinct-update_where has_hash _ (has_id id) (λ r. record r { use_count = n }) t.block_hashes
      (λ a. refl) (λ k a. refl) d
