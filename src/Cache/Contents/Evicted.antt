-- ===== src/Cache/Contents/Evicted.antt =====
-- What a round of the writer thread evicts.
-- The flush changes no access time.
use wwdedup.Cache.Contents.{IsCache, num_of_block}
use wwdedup.Cache.Contents.Flushed.{after}
use wwdedup.Cache.Contents.Rounds.{doomed, run_round-quiet, saved_world, woken}
use wwdedup.Cache.Contents.Shrinks.{oldest-upper, same_shape}
use wwdedup.Cache.Eviction.{evicted_bounds, find_first-erase_each}
use wwdedup.Cache.Flush.{after_block, flushed, oldest}
use wwdedup.Cache.Writer.{clean, erase_each, run_round, to_delete}
use wwdedup.Database.Pointers.{has_num, has_serial, set_block}
use wwdedup.Prelude.{
  Bool, Bool-cases, Distinct, Distinct-select, Distinct-update_where, List, Option, [], ap, arith,
  change_found, find_first, find_first-update_where, inl, inr, length, ltb, min, none, not, refl,
  select, select-none, some, ℕ, ◌+◌, ◌<◌, ◌==◌, ◌∙◌, ◌∷◌, ◌≡◌, ◌≤◌,
}
use wwdedup.State.{World}
use wwdedup.Types.{StorageBlock}

abbrev time_of : Option StorageBlock → Option ℕ
time_of none = none
time_of (some b) = some b.atime

module _ (n : ℕ) where
  time_after :
      (b : StorageBlock) (w : World)
      → time_of (find_first (has_num n) (after_block b w).blocks)
        ≡ time_of (find_first (has_num n) w.blocks)
  unfolding set_block
  time_after b w = elim (Bool-cases b.dirty) [
    | inl d ↦ rw d (
        ap time_of
          (find_first-update_where (has_num n) (has_serial b.serial) clean w.blocks (λ a. refl))
        ∙ cleaned (find_first (has_num n) w.blocks))
    | inr e ↦ rw e refl
  ]
    where
      cleaned :
          (o : Option StorageBlock)
          → time_of (change_found (has_serial b.serial) clean o) ≡ time_of o
      cleaned none = refl
      cleaned (some a) = ground arith

  time-flushed :
      (bs : List StorageBlock) (w : World)
      → time_of (find_first (has_num n) (flushed bs w).blocks)
        ≡ time_of (find_first (has_num n) w.blocks)
  time-flushed [] w = refl
  time-flushed (b ∷ bs) w = time-flushed bs (after_block b w) ∙ time_after b w

nums-flushed :
    (bs : List StorageBlock) (w : World)
    → Distinct has_num num_of_block w.blocks
    → Distinct has_num num_of_block (flushed bs w).blocks
unfolding set_block
nums-flushed [] w d = d
nums-flushed (b ∷ bs) w d = nums-flushed bs (after_block b w) (kept b w d)
  where
    kept :
        (a : StorageBlock) (v : World)
        → Distinct has_num num_of_block v.blocks
        → Distinct has_num num_of_block (after_block a v).blocks
    kept a v e = elim (Bool-cases a.dirty) [
      | inl dirty ↦ rw dirty (
          Distinct-update_where has_num num_of_block (has_serial a.serial) clean v.blocks
            (λ b. refl) (λ k b. refl) e)
      | inr other ↦ rw other e
    ]

-- The time that the loop takes for the oldest is not after that of any block.
oldest-lower :
    (m t : ℕ) (bs : List StorageBlock) (c : StorageBlock)
    → find_first (has_num m) bs ≡ some c
    → oldest bs t ≤ c.atime
oldest-lower m t [] c e = cc
oldest-lower m t (b ∷ bs) c e = elim (Bool-cases (b.storage_block_num == m)) [
  | inl hit ↦
      let same : b ≡ c = ground (arith, e, hit) in
      omega (arith, oldest-upper bs (min t b.atime), ap (λ (x : StorageBlock). x.atime) same)
  | inr miss ↦ oldest-lower m (min t b.atime) bs c (ground (arith, e, miss))
]

-- A chosen block is one of the cache.
to_delete-found :
    (mintime taken n : ℕ) (bs : List StorageBlock) (d : StorageBlock)
    → Distinct has_num num_of_block bs
    → find_first (has_num n) (to_delete mintime taken bs) ≡ some d
    → find_first (has_num n) bs ≡ some d
unfolding to_delete
to_delete-found mintime taken n [] d k e = cc
to_delete-found mintime taken n (b ∷ bs) d k e = elim (Bool-cases (ltb 63 taken)) [
  | inl full ↦ absurd (ground (arith, e, full))
  | inr more ↦ elim (Bool-cases (ltb b.atime (mintime + 10))) [
    | inl old ↦ ground (arith, more, old, e, to_delete-found mintime (taken + 1) n bs d k.1)
    | inr young ↦
        let rest = to_delete-found mintime taken n bs d k.1 (ground (arith, more, young, e)) in
        ground (arith, rest, k.0)
  ]
]

erase-one :
    (m : ℕ) (bs : List StorageBlock)
    → Distinct has_num num_of_block bs
    → length bs ≤ length (select (λ b. not (has_num m b)) bs) + 1
erase-one m [] d = omega arith
erase-one m (b ∷ bs) d = elim (Bool-cases (b.storage_block_num == m)) [
  | inl hit ↦
      let left : find_first (has_num m) bs ≡ none = ground (arith, d.0, hit) in
      ground (arith, hit, select-none (has_num m) bs left)
  | inr miss ↦ ground (arith, miss, erase-one m bs d.1)
]

erase_each-few :
    (ds bs : List StorageBlock)
    → Distinct has_num num_of_block bs
    → length bs ≤ length (erase_each ds bs) + length ds
unfolding erase_each
erase_each-few [] bs d = omega arith
erase_each-few (a ∷ ds) bs d = omega (
  arith,
  erase-one a.storage_block_num bs d,
  erase_each-few ds (select (λ b. not (has_num a.storage_block_num b)) bs)
      (Distinct-select has_num num_of_block _ bs d),
)

-- Of the chosen blocks, none is young.
none_young :
    (limit : ℕ) (ds : List StorageBlock) (n : ℕ) (d : StorageBlock)
    → find_first (λ b. not (ltb b.atime limit)) ds ≡ none
    → find_first (has_num n) ds ≡ some d
    → d.atime < limit
none_young limit [] n d e f = cc
none_young limit (b ∷ ds) n d e f = ground (arith, e, f, none_young limit ds n d)

-- What is true of a block of the cache that a round leaves out.
abbrev pub WasOld : List StorageBlock → StorageBlock → Type 0
WasOld bs b =
    (500 < length bs)
    × ((m : ℕ) (c : StorageBlock) → find_first (has_num m) bs ≡ some c → b.atime < c.atime + 10)

module _ (repeat : Bool) (w : World) (k : IsCache w.next_serial w.blocks) where
  abbrev left : List StorageBlock
  left = (saved_world repeat w).blocks

  abbrev kept_blocks : List StorageBlock
  kept_blocks = erase_each (doomed repeat w) left

  same_length : length left ≡ length w.blocks
  same_length = (same_shape w.blocks (woken repeat w) w.now).0

  left-Distinct : Distinct has_num num_of_block left
  left-Distinct = nums-flushed w.blocks (woken repeat w) k.nums

  few : length w.blocks ≤ length kept_blocks + 64
  few = omega (
    arith,
    same_length,
    erase_each-few (doomed repeat w) left left-Distinct,
    (evicted_bounds (oldest w.blocks w.now) 0 left (omega arith)).0,
  )

  old_enough :
      (n : ℕ) (b d : StorageBlock)
      → find_first (has_num n) w.blocks ≡ some b
      → find_first (has_num n) (doomed repeat w) ≡ some d
      → b.atime < oldest w.blocks w.now + 10
  old_enough n b d e f =
      let there = to_delete-found (oldest w.blocks w.now) 0 n left d left-Distinct f in
      let chosen =
        none_young (oldest w.blocks w.now + 10) (doomed repeat w) n d
          (evicted_bounds (oldest w.blocks w.now) 0 left (omega arith)).1 f in
      ground (arith, time-flushed n w.blocks (woken repeat w), e, there, chosen)

  gone_old :
      (n : ℕ) (b : StorageBlock)
      → 500 < length w.blocks
      → find_first (has_num n) w.blocks ≡ some b
      → find_first (has_num n) kept_blocks ≡ none
      → WasOld w.blocks b
  gone_old n b big e gone = (big, λ m c f. omega (arith, oldest-lower m w.now w.blocks c f, early))
    where
      by_found :
          (o : Option StorageBlock)
          → find_first (has_num n) (doomed repeat w) ≡ o
          → b.atime < oldest w.blocks w.now + 10
      by_found (some d) f = old_enough n b d e f
      by_found none f = absurd (
          ground (
            arith,
            f,
            gone,
            e,
            find_first-erase_each n (doomed repeat w) left,
            time-flushed n w.blocks (woken repeat w),
          ))

      early : b.atime < oldest w.blocks w.now + 10
      early = by_found (find_first (has_num n) (doomed repeat w)) refl

  abbrev Evicts : List StorageBlock → Type 0
  Evicts after =
      (length w.blocks ≤ length after + 64)
      × ((n : ℕ) (b : StorageBlock)
          → find_first (has_num n) w.blocks ≡ some b
          → find_first (has_num n) after ≡ none
          → WasOld w.blocks b)

  keeps_all : Evicts left
  keeps_all = (
    omega (arith, same_length),
    λ n b e gone. absurd (ground (arith, e, gone, time-flushed n w.blocks (woken repeat w))),
  )

  -- Where no call fails, the cache has each number once and objects do not share a serial: a round
  -- of the writer thread leaves out at most 64 of the cached blocks, and a block that it leaves
  -- out was one of more than 500 and was used less than ten seconds after each cached block.
  pub run_round-evicts :
      w.faults ≡ []
      → (length w.blocks ≤ length (run_round repeat w).1.blocks + 64)
        × ((n : ℕ) (b : StorageBlock)
            → find_first (has_num n) w.blocks ≡ some b
            → find_first (has_num n) (run_round repeat w).1.blocks ≡ none
            → WasOld w.blocks b)
  run_round-evicts q =
      rw (run_round-quiet repeat w q k.serials) (elim (Bool-cases (ltb 500 (length left))) [
        | inl big ↦
            rw big (few, λ n b e gone. gone_old n b (ground (arith, big, same_length)) e gone)
        | inr small ↦ rw small keeps_all
      ])
