-- ===== src/Cache/Cut.antt =====
-- blockscache.cpp: which blocks truncate releases.
use native.Mathlib.Nat.{le-div_iff_mul-le}
use wwdedup.Cache.Transfer.{blocks_up_to}
use wwdedup.Prelude.{arith, suc, zero, ℕ, ◌*◌, ◌-◌, ◌/◌, ◌<◌, ◌↔◌, ◌≤◌}

blocks_cover :
    (bs none_of size n : ℕ)
    → 0 < bs
    → 0 < size
    → (n < blocks_up_to bs none_of size) ↔ (n * bs < size)
blocks_cover bs none_of size n h k =
    let e : (n ≤ (size - 1) / bs) ↔ (n * bs ≤ size - 1) = le-div_iff_mul-le h in
    (λ i. ground (arith, e.0), λ i. ground (arith, e.1))

-- Cutting a file from a size to a smaller one, with blocks of at least one byte, the numbers from
-- the start to the end of the loop of truncate are those of the blocks that start at or behind the
-- new end and before the old one.
pub blocks_up_to_lem :
    (bs new old n : ℕ)
    → 0 < bs
    → new < old
    → ((blocks_up_to bs 0 new ≤ n) × (n < blocks_up_to bs 1 old))
      ↔ ((new ≤ n * bs) × (n * bs < old))
blocks_up_to_lem bs zero old n h k =
    let e = blocks_cover bs 1 old n h k in
    (λ i. (omega arith, e.0 (i.1)), λ i. (omega arith, e.1 (i.1)))
blocks_up_to_lem bs (suc new) old n h k =
    let e = blocks_cover bs 1 old n h (omega arith) in
    let f = blocks_cover bs 0 (suc new) n h (omega arith) in
    (λ i. (ground (arith, f.0, f.1), e.0 (i.1)), λ i. (ground (arith, f.0, f.1), e.1 (i.1)))
