-- ===== src/Cache/Contents/Flushed.antt =====
-- What the loop of the writer thread over all cached blocks leaves.
use wwdedup.Cache.Contents.{held, num_of_block, on_disk, serial_of}
use wwdedup.Cache.Contents.Reads.{on_disk_cases}
use wwdedup.Cache.Flush.{
  Reaches, after_block, disk-after, disk-flushed, disk-flushed_other, flushed, found-clean,
  found-flushed,
}
use wwdedup.Cache.Storage.{is_nil}
use wwdedup.Cache.Writer.{clean, save_block, save_each, to_delete}
use wwdedup.Database.Pointers.{has_num, has_serial, set_block}
use wwdedup.Effects.{ok, ◌>>=◌}
use wwdedup.Prelude.{
  ==_refl, Bool, Bool-cases, Distinct, Distinct-update_where, List, Option, [], ap, arith,
  change_found, false, find_first, find_first-key, find_first-update_where, find_first_holds,
  if◌then◌else◌, inl, inr, none, refl, some, subst, true, ℕ, ◌+◌, ◌==◌, ◌∙◌, ◌∷◌, ◌≡◌,
}
use wwdedup.State.{World}
use wwdedup.Types.{Bytes, StorageBlock}

abbrev pub contents : Option StorageBlock → Option Bytes
contents none = none
contents (some b) = some b.content

module _ (p : StorageBlock → Bool) (same : (a : StorageBlock) → p (clean a) ≡ p a) where
  pub found_after :
      (b : StorageBlock) (w : World)
      → contents (find_first p (after_block b w).blocks) ≡ contents (find_first p w.blocks)
  unfolding set_block
  found_after b w = elim (Bool-cases b.dirty) [
    | inl d ↦ rw d (
        ap contents (find_first-update_where p (has_serial b.serial) clean w.blocks same)
        ∙ cleaned (find_first p w.blocks))
    | inr e ↦ rw e refl
  ]
    where
      cleaned :
          (o : Option StorageBlock)
          → contents (change_found (has_serial b.serial) clean o) ≡ contents o
      cleaned none = refl
      cleaned (some a) = ground arith

  pub contents-flushed :
      (bs : List StorageBlock) (w : World)
      → contents (find_first p (flushed bs w).blocks) ≡ contents (find_first p w.blocks)
  contents-flushed [] w = refl
  contents-flushed (b ∷ bs) w = contents-flushed bs (after_block b w) ∙ found_after b w

-- A block that is clean is not written.
pub disk-flushed_clean :
    (n : ℕ) (bs : List StorageBlock) (b : StorageBlock) (w : World)
    → find_first (has_num n) bs ≡ some b
    → Distinct has_num num_of_block bs
    → b.dirty ≡ false
    → ((flushed bs w).disk n ≡ w.disk n) × (Reaches n w → Reaches n (flushed bs w))
disk-flushed_clean n [] b w e k d = cc
disk-flushed_clean n (a ∷ bs) b w e k d = elim (Bool-cases (a.storage_block_num == n)) [
  | inl here ↦
      let same : a ≡ b = ground (arith, e, here) in
      let left : find_first (has_num n) bs ≡ none = ground (arith, k.0, here) in
      let rest = disk-flushed_other n bs (after_block a w) left in
      let step = disk-after n a w in
      (rest.0 ∙ (step.0 ∙ ground (arith, same, d)), λ h. rest.1 (step.1 h))
  | inr there ↦
      let rest = disk-flushed_clean n bs b (after_block a w) (ground (arith, e, there)) k.1 d in
      let step = disk-after n a w in
      (rest.0 ∙ (step.0 ∙ ground (arith, there)), λ h. rest.1 (step.1 h))
]

-- What the storage file has of a cached object that is clean; a dirty one has data.
abbrev pub IsBacked : World → Option StorageBlock → Type 0
IsBacked w none = Unit {0}
IsBacked w (some b) =
    (b.dirty ≡ true → is_nil b.content ≡ false)
    × (b.dirty ≡ false
        → is_nil b.content ≡ false
        → on_disk w.disk w.disk_blocks b.storage_block_num ≡ some b.content)

abbrev pub Kept : ℕ → Bytes → World → Option (Bytes) → Type 0
Kept n c w none = on_disk w.disk w.disk_blocks n ≡ some c
Kept n c w (some d) = (on_disk w.disk w.disk_blocks n ≡ some c) × (is_nil d ≡ false → d ≡ c)

pub on_disk_at :
    (n : ℕ) (c : Bytes) (w : World)
    → w.disk n ≡ c
    → Reaches n w
    → on_disk w.disk w.disk_blocks n ≡ some c
on_disk_at n c w e r = rw (r, e) refl

pub still_on_disk :
    (n : ℕ) (c : Bytes) (w v : World)
    → on_disk w.disk w.disk_blocks n ≡ some c
    → (v.disk n ≡ w.disk n) × (Reaches n w → Reaches n v)
    → on_disk v.disk v.disk_blocks n ≡ some c
still_on_disk n c w v e (same, reach) =
    let (inside, there) = on_disk_cases w.disk w.disk_blocks n c e in
    on_disk_at n c v (same ∙ there) (reach inside)

module _ (n : ℕ) (c : Bytes) (w : World) where
  abbrev pub after : World
  after = flushed w.blocks w

  pub disk-Kept :
      (o : Option StorageBlock)
      → find_first (has_num n) w.blocks ≡ o
      → Distinct has_num num_of_block w.blocks
      → IsBacked w o
      → held w.disk w.disk_blocks n o ≡ some c
      → Kept n c after (contents o)
  disk-Kept none e d k h = still_on_disk n c w after h (disk-flushed_other n w.blocks w e)
  disk-Kept (some b) e d k h = elim (Bool-cases b.dirty) [
    | inl dirty ↦
        let full = k.0 dirty in
        let same : b.content ≡ c = ground (arith, h, full) in
        let (there, reach) = disk-flushed n w.blocks b w e d dirty in
        (on_disk_at n c after (there ∙ same) reach, λ _. same)
    | inr clean ↦
        let moved = disk-flushed_clean n w.blocks b w e d clean in
        elim (Bool-cases (is_nil b.content)) [
          | inl empty ↦
              let there : on_disk w.disk w.disk_blocks n ≡ some c = ground (arith, h, empty) in
              (still_on_disk n c w after there moved, λ full. absurd (ground (arith, empty, full)))
          | inr full ↦
              let same : b.content ≡ c = ground (arith, h, full) in
              let there : on_disk w.disk w.disk_blocks n ≡ some c =
                subst (λ x. on_disk w.disk w.disk_blocks x ≡ some c)
                  (ground (arith, find_first_holds (has_num n) w.blocks b e))
                  (k.1 clean full ∙ ap some same) in
              (still_on_disk n c w after there moved, λ _. same)
        ]
  ]

pub Kept-held :
    (n : ℕ) (c : Bytes) (w : World) (o : Option StorageBlock)
    → Kept n c w (contents o)
    → held w.disk w.disk_blocks n o ≡ some c
Kept-held n c w none k = k
Kept-held n c w (some b) (there, same) = ground (arith, there, same)

pub Kept-erased :
    (n : ℕ) (c : Bytes) (w : World) (b : Bool) (o : Option StorageBlock)
    → Kept n c w (contents o)
    → Kept n c w (contents (if b then none else o))
Kept-erased n c w true none k = k
Kept-erased n c w true (some a) k = k.0
Kept-erased n c w false o k = k

pub serials-flushed :
    (bs : List StorageBlock) (w : World)
    → Distinct has_serial serial_of w.blocks
    → Distinct has_serial serial_of (flushed bs w).blocks
unfolding set_block
serials-flushed [] w d = d
serials-flushed (b ∷ bs) w d = serials-flushed bs (after_block b w) (kept b w d)
  where
    kept :
        (a : StorageBlock) (v : World)
        → Distinct has_serial serial_of v.blocks
        → Distinct has_serial serial_of (after_block a v).blocks
    kept a v e = elim (Bool-cases a.dirty) [
      | inl dirty ↦ rw dirty (
          Distinct-update_where has_serial serial_of (has_serial a.serial) clean v.blocks
            (λ b. refl) (λ k b. refl) e)
      | inr other ↦ rw other e
    ]

abbrev pub is_dirty : StorageBlock → Bool
is_dirty b = b.dirty

-- The blocks that the writer looked at are clean.
pub clean_after :
    (w : World)
    → Distinct has_serial serial_of w.blocks
    → find_first is_dirty (flushed w.blocks w).blocks ≡ none
clean_after w d = by_found (find_first is_dirty (flushed w.blocks w).blocks) refl
  where
    by_source :
        (c : StorageBlock) (o : Option StorageBlock)
        → find_first (has_serial c.serial) w.blocks ≡ o
        → find_first (has_serial c.serial) (flushed w.blocks w).blocks ≡ some c
        → c.dirty ≡ true
        → ⊥
    by_source c none e f t =
        ground (arith, contents-flushed (has_serial c.serial) (λ a. refl) w.blocks w, e, f)
    by_source c (some b) e f t = elim (Bool-cases b.dirty) [
      | inl dirty ↦ ground (arith, found-flushed c.serial w.blocks b b w e dirty e, f, t)
      | inr idle ↦ ground (arith, found-clean c.serial w.blocks b w idle e, f, t, idle)
    ]

    by_found :
        (o : Option StorageBlock) → find_first is_dirty (flushed w.blocks w).blocks ≡ o → o ≡ none
    by_found none e = refl
    by_found (some c) e = absurd (
        by_source c (find_first (has_serial c.serial) w.blocks) refl
          (find_first-key has_serial serial_of is_dirty (flushed w.blocks w).blocks c
            (λ a. ground arith) (==_refl c.serial) (serials-flushed w.blocks w d) e)
          (find_first_holds is_dirty (flushed w.blocks w).blocks c e))

pub save_each_clean :
    (bs : List StorageBlock) (w : World)
    → find_first is_dirty bs ≡ none
    → save_each bs w ≡ (ok tt, w)
unfolding save_each save_block ◌>>=◌
save_each_clean [] w e = refl
save_each_clean (b ∷ bs) w e =
    let clean : b.dirty ≡ false = ground (arith, e) in
    rw clean (save_each_clean bs w (ground (arith, e)))

pub to_delete-clean :
    (mintime taken : ℕ) (bs : List StorageBlock)
    → find_first is_dirty bs ≡ none
    → find_first is_dirty (to_delete mintime taken bs) ≡ none
unfolding to_delete
to_delete-clean mintime taken [] e = refl
to_delete-clean mintime taken (b ∷ bs) e =
    ground (arith, e, to_delete-clean mintime (taken + 1) bs, to_delete-clean mintime taken bs)
