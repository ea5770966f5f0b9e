-- ===== src/Cache/Flush.antt =====
-- blockscache.cpp: what the writer thread leaves behind where no call fails.
use wwdedup.Cache.Storage.{disk_write, populate}
use wwdedup.Cache.Writer.{clean, save_all, save_block}
use wwdedup.Database.Pointers.{has_num, has_serial, set_block}
use wwdedup.Effects.{ok, ◌>>=◌}
use wwdedup.Prelude.{
  ==_refl, Bool, Bool-cases, Distinct, List, [], ap, arith, false, find_first, find_first-key,
  find_first-update_where, find_first_holds, if◌then◌else◌, inl, inr, ltb, min, none, refl, some,
  subst, true, ℕ, ◌&&◌, ◌==◌, ◌∙◌, ◌∷◌, ◌≡◌, ◌≢◌,
}
use wwdedup.State.{Env, World}
use wwdedup.Types.{Bytes, StorageBlock, storage_block}

abbrev pub NoFaults : World → World
NoFaults w = record w { faults = [] }

-- The world after the block was written, and after it was looked at.
abbrev written : StorageBlock → World → World
written b w = set_block b.serial clean (disk_write b.storage_block_num b.content w)

abbrev pub after_block : StorageBlock → World → World
after_block b w = if b.dirty then written b w else w

abbrev pub flushed : List StorageBlock → World → World
flushed [] w = w
flushed (b ∷ bs) w = flushed bs (after_block b w)

abbrev pub oldest : List StorageBlock → ℕ → ℕ
oldest [] t = t
oldest (b ∷ bs) t = oldest bs (min t b.atime)

save_block-quiet :
    (b : StorageBlock) (w : World) → save_block b (NoFaults w) ≡ (ok tt, after_block b (NoFaults w))
unfolding save_block ◌>>=◌
save_block-quiet b w = elim (Bool-cases b.dirty) [ inl d ↦ rw d refl | inr c ↦ rw c refl ]

save_block-after :
    (b : StorageBlock) (w : World) → w.faults ≡ [] → save_block b w ≡ (ok tt, after_block b w)
save_block-after b w e =
    subst (λ v. save_block b v ≡ (ok tt, after_block b v)) (ground (arith, e))
      (save_block-quiet b w)

pub faults-after : (b : StorageBlock) (w : World) → w.faults ≡ [] → (after_block b w).faults ≡ []
unfolding set_block
faults-after b w e = elim (Bool-cases b.dirty) [ inl d ↦ rw d e | inr c ↦ rw c e ]

pub save_all-flushed :
    (bs : List StorageBlock) (t : ℕ) (w : World)
    → w.faults ≡ []
    → save_all bs t w ≡ (ok (oldest bs t), flushed bs w)
unfolding save_all ◌>>=◌
save_all-flushed [] t w e = refl
save_all-flushed (b ∷ bs) t w e =
    rw (save_block-after b w e)
      (save_all-flushed bs (min t b.atime) (after_block b w) (faults-after b w e))

-- A block that a write cleans.
abbrev clean_if : Bool → StorageBlock → StorageBlock
clean_if d b = if d then clean b else b

found-after :
    (s : ℕ) (b c : StorageBlock) (w : World)
    → find_first (has_serial s) w.blocks ≡ some c
    → find_first (has_serial s) (after_block b w).blocks
      ≡ some (clean_if (b.dirty && (b.serial == s)) c)
unfolding set_block
found-after s b c w f = elim (Bool-cases b.dirty) [
  | inl d ↦ rw d (
      find_first-update_where (has_serial s) (has_serial b.serial) clean w.blocks (λ a. refl)
      ∙ ground (arith, f, find_first_holds (has_serial s) w.blocks c f))
  | inr e ↦ rw e f
]

clean_twice : (d : Bool) (c : StorageBlock) → c.dirty ≡ false → clean_if d c ≡ c
clean_twice d c e = ground (arith, e)

-- A clean block stays as it is.
pub found-clean :
    (s : ℕ) (bs : List StorageBlock) (c : StorageBlock) (w : World)
    → c.dirty ≡ false
    → find_first (has_serial s) w.blocks ≡ some c
    → find_first (has_serial s) (flushed bs w).blocks ≡ some c
found-clean s [] c w e f = f
found-clean s (b ∷ bs) c w e f =
    found-clean s bs c (after_block b w) e
      (found-after s b c w f ∙ ap some (clean_twice (b.dirty && (b.serial == s)) c e))

pub found-flushed :
    (s : ℕ) (bs : List StorageBlock) (b c : StorageBlock) (w : World)
    → find_first (has_serial s) bs ≡ some b
    → b.dirty ≡ true
    → find_first (has_serial s) w.blocks ≡ some c
    → find_first (has_serial s) (flushed bs w).blocks ≡ some (clean c)
found-flushed s [] b c w e d f = cc
found-flushed s (a ∷ bs) b c w e d f = elim (Bool-cases (a.serial == s)) [
  | inl here ↦
      found-clean s bs (clean c) (after_block a w) refl
        (found-after s a c w f ∙ ground (arith, e, d, here))
  | inr there ↦
      found-flushed s bs b c (after_block a w) (ground (arith, e, there)) d
        (found-after s a c w f ∙ ground (arith, there))
]

-- Whether the storage file reaches behind block n.
abbrev pub Reaches : ℕ → World → Type 0
Reaches n w = ltb n w.disk_blocks ≡ true

pub disk-after :
    (n : ℕ) (b : StorageBlock) (w : World)
    → ((after_block b w).disk n
        ≡ (if b.dirty && (n == b.storage_block_num) then b.content else w.disk n))
      × (Reaches n w → Reaches n (after_block b w))
unfolding set_block
disk-after n b w = elim (Bool-cases b.dirty) [
  | inl d ↦ rw d (refl, λ h. ground arith)
  | inr e ↦ rw e (refl, λ h. h)
]

Reaches-after :
    (b : StorageBlock) (w : World) → b.dirty ≡ true → Reaches b.storage_block_num (after_block b w)
unfolding set_block
Reaches-after b w d = rw d (ground arith)

pub disk-flushed_other :
    (n : ℕ) (bs : List StorageBlock) (w : World)
    → find_first (has_num n) bs ≡ none
    → ((flushed bs w).disk n ≡ w.disk n) × (Reaches n w → Reaches n (flushed bs w))
disk-flushed_other n [] w e = (refl, λ h. h)
disk-flushed_other n (b ∷ bs) w e =
    let rest = disk-flushed_other n bs (after_block b w) (ground (arith, e)) in
    let step = disk-after n b w in (rest.0 ∙ (step.0 ∙ ground (arith, e)), λ h. rest.1 (step.1 h))

pub disk-flushed :
    (n : ℕ) (bs : List StorageBlock) (b : StorageBlock) (w : World)
    → find_first (has_num n) bs ≡ some b
    → Distinct has_num (λ c. c.storage_block_num) bs
    → b.dirty ≡ true
    → ((flushed bs w).disk n ≡ b.content) × Reaches n (flushed bs w)
disk-flushed n [] b w e k d = cc
disk-flushed n (a ∷ bs) b w e k d = elim (Bool-cases (a.storage_block_num == n)) [
  | inl here ↦
      let same : a ≡ b = ground (arith, e, here) in
      let none_left : find_first (has_num n) bs ≡ none = ground (arith, k.0, here) in
      let rest = disk-flushed_other n bs (after_block a w) none_left in
      (
        rest.0 ∙ ((disk-after n a w).0 ∙ ground (arith, same, here, d)),
        rest.1
            (ground (arith, Reaches-after a w (ap (λ (x : StorageBlock). x.dirty) same ∙ d), here)),
      )
  | inr there ↦ disk-flushed n bs b (after_block a w) (ground (arith, e, there)) (k.1) d
]

pub faults-flushed :
    (bs : List StorageBlock) (w : World) → w.faults ≡ [] → (flushed bs w).faults ≡ []
faults-flushed [] w e = e
faults-flushed (b ∷ bs) w e = faults-flushed bs (after_block b w) (faults-after b w e)

populate-quiet :
    (env : Env) (b : StorageBlock) (w : World)
    → b.content ≡ []
    → (b.storage_block_num == 0) ≡ false
    → Reaches b.storage_block_num w
    → (populate env b (NoFaults w)).0 ≡ ok (record b { content = w.disk b.storage_block_num })
unfolding populate ◌>>=◌
populate-quiet env b w e z r = rw (e, z, r) refl

module _ (w : World) (b : StorageBlock) where
  -- Where no call fails and no two cached blocks have one number, the writer loop over the cached
  -- blocks succeeds, a dirty block of a number other than 0 is left clean and otherwise as it was,
  -- and _populateStorageBlock reads its content back from the storage file into a new object of
  -- the same number.
  pub save_all-populate :
      (env : Env) (s serial now : ℕ)
      → w.faults ≡ []
      → Distinct has_num (λ (c : StorageBlock). c.storage_block_num) w.blocks
      → find_first (has_serial s) w.blocks ≡ some b
      → b.dirty ≡ true
      → b.storage_block_num ≢ 0
      → ((t : ℕ) × ((save_all w.blocks w.now w).0 ≡ ok t))
        × (find_first (has_serial s) (save_all w.blocks w.now w).1.blocks
            ≡ some (record b { dirty = false }))
        × ((populate env
              (storage_block serial now b.storage_block_num)
              (save_all w.blocks w.now w).1).0
            ≡ ok (record (storage_block serial now b.storage_block_num) { content = b.content }))
  save_all-populate env s serial now e k f d z =
      let out = save_all-flushed w.blocks w.now w e in
      let v = flushed w.blocks w in
      let fresh = storage_block serial now b.storage_block_num in
      let stored =
        disk-flushed b.storage_block_num w.blocks b w
          (find_first-key has_num (λ c. c.storage_block_num) (has_serial s) w.blocks b
            (λ c. ground arith) (==_refl b.storage_block_num) k f)
          k d in
      rw out (
        (oldest w.blocks w.now, refl),
        found-flushed s w.blocks b b w f d f,
        subst
              (λ u.
                (populate env fresh u).0
                ≡ ok (record fresh { content = v.disk b.storage_block_num }))
              (ground (arith, faults-flushed w.blocks w e))
              (populate-quiet env fresh v refl (ground arith) (stored.1))
            ∙ ap (λ (x : Bytes). ok (record fresh { content = x })) (stored.0),
      )
