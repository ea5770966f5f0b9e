-- ===== src/Types/Order.antt =====
-- The order that the set of cached blocks is kept in, and the references of a file_info.
use wwdedup.Prelude.{Option, arith, negsuc, none, pos, refl, some, ◌↔◌, ◌≡◌}
use wwdedup.Types.{StorageBlock, compare_blocks}

-- a stands before b
abbrev pub Before : Option StorageBlock → Option StorageBlock → Type 0
Before a b = compare_blocks a b ≡ negsuc 0

-- The order of cached blocks is a total order on block numbers with null first: swapping the
-- arguments flips the sign, it is transitive, and two blocks compare equal just where their
-- numbers agree.
pub compare_blocks_order :
    (a b c : Option StorageBlock)
    → ((compare_blocks a b ≡ negsuc 0) ↔ (compare_blocks b a ≡ pos 1))
      × (Before a b → Before b c → Before a c)
      × ((x y : StorageBlock)
          → (compare_blocks (some x) (some y) ≡ pos 0)
            ↔ (x.storage_block_num ≡ y.storage_block_num))
unfolding compare_blocks
compare_blocks_order a b c = (flip a b, trans a b c, λ x y. same x y)
  where
    flip :
        (a b : Option StorageBlock) → (compare_blocks a b ≡ negsuc 0) ↔ (compare_blocks b a ≡ pos 1)
    flip none none = (λ e. cc, λ e. cc)
    flip none (some b) = (λ e. refl, λ e. refl)
    flip (some a) none = (λ e. cc, λ e. cc)
    flip (some a) (some b) = (λ e. ground arith, λ e. ground arith)

    trans : (a b c : Option StorageBlock) → Before a b → Before b c → Before a c
    trans none none c e f = cc
    trans none (some b) none e f = cc
    trans none (some b) (some c) e f = refl
    trans (some a) none c e f = cc
    trans (some a) (some b) none e f = cc
    trans (some a) (some b) (some c) e f = ground arith

    same :
        (x y : StorageBlock)
        → (compare_blocks (some x) (some y) ≡ pos 0) ↔ (x.storage_block_num ≡ y.storage_block_num)
    same x y = (λ e. ground arith, λ e. ground arith)
