-- ===== src/Cache/Contents/Rows.antt =====
-- The storage block of each hash after the statements of replaceStorageBlock.
use wwdedup.Cache.Contents.{id_of}
use wwdedup.Prelude.{
  Bool, Bool-cases, Distinct, List, [], arith, eqb, eqb_iff, false, find_first, find_first-append,
  if◌then◌else◌, inl, inr, none, pos, refl, some, update_where, update_where-none, ℕ, ℤ, ◌==◌, ◌∷◌,
  ◌≡◌,
}
use wwdedup.Sql.{add_use, has_hash, increase_use_count, insert_block_hash, set_use_count}
use wwdedup.Sql.Counts.{has_id}
use wwdedup.Sql.Moves.{with_hash}
use wwdedup.State.{HashRow, Tables}
use wwdedup.Types.{Bytes}

pub id_of-update_where :
    (k : Bytes) (q : HashRow → Bool) (f : HashRow → HashRow) (rs : List HashRow)
    → ((r : HashRow) → (f r).hash ≡ r.hash)
    → ((r : HashRow) → (f r).id ≡ r.id)
    → id_of k (update_where q f rs) ≡ id_of k rs
unfolding has_hash
id_of-update_where k q f [] hh hi = refl
id_of-update_where k q f (r ∷ rs) hh hi =
    ground (arith, hh r, hi r, id_of-update_where k q f rs hh hi)

pub id_of-increase :
    (k h : Bytes) (t : Tables)
    → id_of k (increase_use_count h t).block_hashes ≡ id_of k t.block_hashes
unfolding increase_use_count
id_of-increase k h t =
    id_of-update_where k (has_hash h) (add_use (pos 1)) t.block_hashes (λ r. refl) (λ r. refl)

pub id_of-set :
    (k : Bytes) (c : ℤ) (id : ℕ) (t : Tables)
    → id_of k (set_use_count c id t).block_hashes ≡ id_of k t.block_hashes
unfolding set_use_count
id_of-set k c id t =
    id_of-update_where k _ (λ r. record r { use_count = c }) t.block_hashes (λ r. refl) (λ r. refl)

pub id_of-insert :
    (k h : Bytes) (id : ℕ) (t : Tables)
    → find_first (has_hash h) t.block_hashes ≡ none
    → id_of k (insert_block_hash h id t).block_hashes
      ≡ (if eqb h k then some id else id_of k t.block_hashes)
unfolding insert_block_hash has_hash
id_of-insert k h id t e = ground (
  arith,
  find_first-append (has_hash k) t.block_hashes
      (record { id = id; hash = h; use_count = pos 1 } ∷ []),
  eqb_iff h k,
  e,
)

pub other_id :
    (k : Bytes) (id i : ℕ) (rs : List HashRow)
    → find_first (has_id id) rs ≡ none
    → id_of k rs ≡ some i
    → (i == id) ≡ false
unfolding has_hash
other_id k id i [] n e = cc
other_id k id i (r ∷ rs) n e = ground (arith, e, n, other_id k id i rs)

-- After the hash of storage block `id` was changed, another hash has another storage block, and had
-- it before.
pub id_of-rename :
    (k h : Bytes) (id i : ℕ) (rs : List HashRow)
    → Distinct has_id (λ r. r.id) rs
    → Distinct has_hash (λ r. r.hash) rs
    → eqb h k ≡ false
    → id_of k (update_where (has_id id) (with_hash h) rs) ≡ some i
    → (id_of k rs ≡ some i) × ((i == id) ≡ false)
unfolding has_hash
id_of-rename k h id i [] di dh ne e = cc
id_of-rename k h id i (r ∷ rs) di dh ne e = elim (Bool-cases (r.id == id)) [
  | inl hit ↦
      let none_left : find_first (has_id id) rs ≡ none = ground (arith, di.0, hit) in
      let tail : id_of k rs ≡ some i =
        ground (arith, e, hit, ne, update_where-none (has_id id) (with_hash h) rs none_left) in
      let other : eqb r.hash k ≡ false = ground (arith, dh.0, tail, eqb_iff r.hash k) in
      (ground (arith, other, tail), other_id k id i rs none_left tail)
  | inr miss ↦ ground (arith, miss, e, id_of-rename k h id i rs di.1 dh.1 ne)
]
