-- ===== src/Cache/Eviction.antt =====
-- blockscache.cpp: which blocks the writer thread evicts.
use wwdedup.Cache.Writer.{erase_each, to_delete}
use wwdedup.Database.Pointers.{has_num}
use wwdedup.Prelude.{
  Bool-cases, List, [], arith, find_first, if◌then◌else◌, inl, inr, is_some, length, ltb, none, not,
  refl, select, ℕ, ◌+◌, ◌==◌, ◌∙◌, ◌∷◌, ◌≡◌, ◌≤◌,
}
use wwdedup.Types.{StorageBlock}

pub evicted_bounds :
    (mintime taken : ℕ) (bs : List StorageBlock)
    → taken ≤ 64
    → (taken + length (to_delete mintime taken bs) ≤ 64)
      × (find_first (λ b. not (ltb b.atime (mintime + 10))) (to_delete mintime taken bs) ≡ none)
unfolding to_delete
evicted_bounds mintime taken [] h = (omega arith, refl)
evicted_bounds mintime taken (b ∷ bs) h = elim (Bool-cases (ltb 63 taken)) [
  | inl full ↦ rw full (omega arith, refl)
  | inr more ↦ elim (Bool-cases (ltb b.atime (mintime + 10))) [
    | inl old ↦
        let rest = evicted_bounds mintime (taken + 1) bs (ground arith) in
        rw (more, old) (ground (arith, rest.0), ground (arith, old, rest.1))
    | inr young ↦ rw (more, young) (evicted_bounds mintime taken bs h)
  ]
]

erase_one :
    (n m : ℕ) (bs : List StorageBlock)
    → find_first (has_num n) (select (λ b. not (has_num m b)) bs)
      ≡ (if n == m then none else find_first (has_num n) bs)
erase_one n m [] = ground arith
erase_one n m (b ∷ bs) = ground (arith, erase_one n m bs)

pub find_first-erase_each :
    (n : ℕ) (ds bs : List StorageBlock)
    → find_first (has_num n) (erase_each ds bs)
      ≡ (if is_some (find_first (has_num n) ds) then none else find_first (has_num n) bs)
unfolding erase_each
find_first-erase_each n [] bs = refl
find_first-erase_each n (d ∷ ds) bs =
    find_first-erase_each n ds (select (λ b. not (has_num d.storage_block_num b)) bs)
    ∙ ground (arith, erase_one n d.storage_block_num bs)
