-- ===== src/Sql/Counts.antt =====
-- The use counts of block_hashes against the rows of file_blocks that they count.
use wwdedup.Prelude.{
  ℕ, suc, ◌+◌, ◌≡◌, refl, sym, ◌∙◌, inl, inr, Option-cases, Bool, true, false, not, Option, none,
  some, List, [], ◌∷◌, ◌++◌, arith, ◌==◌, ==_refl, select, find_first, update_where, eqb, eqb_sound,
  eqb_refl, eqb_iff, if◌then◌else◌, ℤ, pos, ◌+ℤ◌, ◌-ℤ◌, Distinct, select-none,
  find_first-update_where, find_first-key, find_first_holds,
}
use wwdedup.Types.{Bytes}
use wwdedup.State.{FileBlockRow, HashRow, Tables}
use wwdedup.Sql.{at_offset, has_hash, add_use}

abbrev pub has_id : ℕ → HashRow → Bool
has_id id r = r.id == id

abbrev pub place : FileBlockRow → ℕ × ℕ
place r = (r.file_id, r.offset)

abbrev pub at_place : ℕ × ℕ → FileBlockRow → Bool
at_place (i, o) = at_offset i o

-- The rows of file_blocks with a hash.
unfoldable pub refs : Bytes → List FileBlockRow → ℕ
refs h [] = 0
refs h (r ∷ rs) = if eqb r.hash h then suc (refs h rs) else refs h rs

abbrev pub use_of : Option HashRow → ℤ
use_of none = pos 0
use_of (some r) = r.use_count

-- The use count of a hash: 0 where it has no row.
abbrev pub uses : Bytes → List HashRow → ℤ
uses h rs = use_of (find_first (has_hash h) rs)

-- Keys occur once, and each use count is the number of file blocks that have the hash.
pub record IsConsistent (t : Tables) : Type 0 where
  pub ids : Distinct has_id (λ r. r.id) t.block_hashes
  pub hashes : Distinct has_hash (λ r. r.hash) t.block_hashes
  pub places : Distinct at_place place t.file_blocks
  pub balanced : (h : Bytes) → uses h t.block_hashes ≡ pos (refs h t.file_blocks)

unfoldable pub one_if : Bool → ℕ
one_if true = 1
one_if false = 0

pub refs-append :
    (h : Bytes) (rs : List FileBlockRow) (r : FileBlockRow)
    → refs h (rs ++ r ∷ []) ≡ refs h rs + one_if (eqb r.hash h)
unfolding refs one_if
refs-append h [] r = ground arith
refs-append h (x ∷ rs) r = ground (arith, refs-append h rs r)

-- Without the row of one place its hash has one reference less.
pub refs-select :
    (h : Bytes) (i o : ℕ) (rs : List FileBlockRow) (r : FileBlockRow)
    → Distinct at_place place rs
    → find_first (at_offset i o) rs ≡ some r
    → refs h (select (λ b. not (at_offset i o b)) rs) + one_if (eqb r.hash h) ≡ refs h rs
unfolding refs one_if at_offset
refs-select h i o [] r d e = cc
refs-select h i o (x ∷ rs) r d e =
    ground (arith, select-none (at_offset i o) rs, refs-select h i o rs r d.1)

pub has_hash_self : (r : HashRow) → has_hash r.hash r ≡ true
unfolding has_hash
has_hash_self r = eqb_refl r.hash

pub has_hash-eqb : (h : Bytes) (r : HashRow) → has_hash h r ≡ eqb r.hash h
unfolding has_hash
has_hash-eqb h r = refl

pub eqb_sym : (a b : Bytes) → eqb a b ≡ eqb b a
eqb_sym a b = ground (arith, eqb_iff a b, eqb_iff b a)

pub hash-found :
    (h : Bytes) (rs : List HashRow) (r : HashRow) → find_first (has_hash h) rs ≡ some r → r.hash ≡ h
unfolding has_hash
hash-found h rs r e = eqb_sound r.hash h (find_first_holds (has_hash h) rs r e)

abbrev pub one_less : HashRow → HashRow
one_less r = record r { use_count = r.use_count -ℤ pos 1 }

module _ (h k : Bytes) (rs : List HashRow) (row : HashRow) where
  -- stIncreaseUseCount
  pub uses-increase :
      find_first (has_hash h) rs ≡ some row
      → uses k (update_where (has_hash h) (add_use (pos 1)) rs)
        ≡ (if eqb h k then uses k rs +ℤ pos 1 else uses k rs)
  uses-increase e =
      rw
        (find_first-update_where (has_hash k) (has_hash h) (add_use (pos 1)) rs
          (λ a. has_hash-eqb k (add_use (pos 1) a) ∙ sym (has_hash-eqb k a)))
        (elim (Option-cases (find_first (has_hash k) rs)) [
          | inl n ↦ ground (arith, eqb_iff h k)
          | inr (a, f) ↦ ground (arith, f, has_hash-eqb h a, hash-found k rs a f, eqb_sym h k)
        ])

  -- stDecreaseUseCount
  pub uses-decrease :
      find_first (has_hash h) rs ≡ some row
      → uses k (update_where (has_hash h) one_less rs)
        ≡ (if eqb h k then uses k rs -ℤ pos 1 else uses k rs)
  uses-decrease e =
      rw
        (find_first-update_where (has_hash k) (has_hash h) one_less rs
          (λ a. has_hash-eqb k (one_less a) ∙ sym (has_hash-eqb k a)))
        (elim (Option-cases (find_first (has_hash k) rs)) [
          | inl n ↦ ground (arith, eqb_iff h k)
          | inr (a, f) ↦ ground (arith, f, has_hash-eqb h a, hash-found k rs a f, eqb_sym h k)
        ])

  -- stSetUseCount on the row of the hash h
  pub uses-set :
      (n : ℤ)
      → find_first (has_hash h) rs ≡ some row
      → Distinct has_id (λ r. r.id) rs
      → uses k (update_where (has_id row.id) (λ r. record r { use_count = n }) rs)
        ≡ (if eqb h k then n else uses k rs)
  uses-set n e d =
      rw
        (find_first-update_where (has_hash k) (has_id row.id) (λ r. record r { use_count = n }) rs
          (λ a. has_hash-eqb k (record a { use_count = n }) ∙ sym (has_hash-eqb k a)))
        (elim (Option-cases (find_first (has_hash k) rs)) [
          | inl none' ↦ ground (arith, eqb_iff h k)
          | inr (a, f) ↦ ground (
            arith,
            f,
            eqb_iff h k,
            hash-found k rs a f,
            hash-found h rs row e,
            find_first-key has_id (λ (r : HashRow). r.id) (has_hash k) rs a (λ b. ground arith)
                (==_refl a.id) d f,
            find_first-key has_id (λ (r : HashRow). r.id) (has_hash h) rs row (λ b. ground arith)
                (==_refl row.id) d e,
          )
        ])
