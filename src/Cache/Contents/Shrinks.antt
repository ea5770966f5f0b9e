-- ===== src/Cache/Contents/Shrinks.antt =====
-- What a round of the writer thread evicts, counted.
use wwdedup.Cache.Contents.{serial_of}
use wwdedup.Cache.Contents.Flushed.{contents-flushed}
use wwdedup.Cache.Contents.Rounds.{erased_world, run_round-quiet, saved_world, woken}
use wwdedup.Cache.Flush.{after_block, flushed, oldest}
use wwdedup.Cache.Writer.{clean, erase_each, run_round, to_delete}
use wwdedup.Database.Pointers.{has_num, has_serial, set_block}
use wwdedup.Effects.{ok}
use wwdedup.Prelude.{
  ==_refl, Bool, Bool-cases, Distinct, List, Option, [], ap, arith, find_first, find_first-ne_none,
  find_first_holds, inl, inr, leb, length, ltb, min, none, not, refl, select, some, true,
  update_where, ℕ, ◌+◌, ◌<◌, ◌∙◌, ◌∷◌, ◌≡◌, ◌≤◌,
}
use wwdedup.State.{World}
use wwdedup.Types.{StorageBlock}

-- What the flush leaves of the list: as many blocks, and the same access times.
pub length-update_where :
    (q : StorageBlock → Bool) (f : StorageBlock → StorageBlock) (bs : List StorageBlock)
    → length (update_where q f bs) ≡ length bs
length-update_where q f [] = refl
length-update_where q f (b ∷ bs) = ground (arith, length-update_where q f bs)

pub oldest-update_where :
    (q : StorageBlock → Bool) (f : StorageBlock → StorageBlock) (bs : List StorageBlock) (t : ℕ)
    → ((b : StorageBlock) → (f b).atime ≡ b.atime)
    → oldest (update_where q f bs) t ≡ oldest bs t
oldest-update_where q f [] t k = refl
oldest-update_where q f (b ∷ bs) t k = elim (Bool-cases (q b)) [
  | inl hit ↦ rw (hit, k b) (oldest-update_where q f bs (min t b.atime) k)
  | inr miss ↦ rw miss (oldest-update_where q f bs (min t b.atime) k)
]

abbrev pub SameShape : ℕ → List StorageBlock → List StorageBlock → Type 0
SameShape t left bs = (length left ≡ length bs) × (oldest left t ≡ oldest bs t)

pub shape_after :
    (b : StorageBlock) (w : World) (t : ℕ) → SameShape t (after_block b w).blocks w.blocks
unfolding set_block
shape_after b w t = elim (Bool-cases b.dirty) [
  | inl dirty ↦ rw dirty (
    length-update_where (has_serial b.serial) clean w.blocks,
    oldest-update_where (has_serial b.serial) clean w.blocks t (λ a. refl),
  )
  | inr other ↦ rw other (refl, refl)
]

pub same_shape :
    (bs : List StorageBlock) (w : World) (t : ℕ) → SameShape t (flushed bs w).blocks w.blocks
same_shape [] w t = (refl, refl)
same_shape (b ∷ bs) w t =
    let rest = same_shape bs (after_block b w) t in
    let step = shape_after b w t in (rest.0 ∙ step.0, rest.1 ∙ step.1)

pub select-shorter :
    (p : StorageBlock → Bool) (bs : List StorageBlock) → length (select p bs) ≤ length bs
select-shorter p [] = omega arith
select-shorter p (b ∷ bs) = ground (arith, select-shorter p bs)

pub erase_each-shorter : (ds bs : List StorageBlock) → length (erase_each ds bs) ≤ length bs
unfolding erase_each
erase_each-shorter [] bs = omega arith
erase_each-shorter (d ∷ ds) bs = omega (
  arith,
  erase_each-shorter ds (select (λ b. not (has_num d.storage_block_num b)) bs),
  select-shorter (λ b. not (has_num d.storage_block_num b)) bs,
)

pub select_drops :
    (p : StorageBlock → Bool) (b : StorageBlock) (bs : List StorageBlock)
    → find_first p bs ≡ some b
    → length (select (λ a. not (p a)) bs) < length bs
select_drops p b [] e = cc
select_drops p b (a ∷ bs) e =
    ground (arith, e, select_drops p b bs, select-shorter (λ a. not (p a)) bs)

-- The first block that is old enough is chosen.
pub to_delete_first :
    (mintime : ℕ) (b : StorageBlock) (bs : List StorageBlock)
    → find_first (λ a. ltb a.atime (mintime + 10)) bs ≡ some b
    → (rest : List StorageBlock) × (to_delete mintime 0 bs ≡ b ∷ rest)
unfolding to_delete
to_delete_first mintime b [] e = cc
to_delete_first mintime b (a ∷ bs) e = elim (Bool-cases (ltb a.atime (mintime + 10))) [
  | inl old ↦ (to_delete mintime 1 bs, ground (arith, e, old))
  | inr young ↦ rw young (to_delete_first mintime b bs (ground (arith, e, young)))
]

pub oldest-low :
    (k : ℕ) (bs : List StorageBlock) (t : ℕ)
    → find_first (λ a. ltb a.atime k) bs ≡ none
    → min t k ≤ oldest bs t
oldest-low k [] t e = omega arith
oldest-low k (b ∷ bs) t e =
    let rest = oldest-low k bs (min t b.atime) (ground (arith, e)) in
    let late : k ≤ b.atime = ground (arith, e) in omega (arith, rest, late)

pub oldest-upper : (bs : List StorageBlock) (t : ℕ) → oldest bs t ≤ t
oldest-upper [] t = omega arith
oldest-upper (b ∷ bs) t = omega (arith, oldest-upper bs (min t b.atime))

-- Where some block was used at time t or before, one was used less than ten seconds after the oldest.
pub oldest_found :
    (bs : List StorageBlock) (t : ℕ) (a : StorageBlock)
    → find_first (λ c. leb c.atime t) bs ≡ some a
    → (b : StorageBlock) × (find_first (λ c. ltb c.atime (oldest bs t + 10)) bs ≡ some b)
oldest_found bs t a e = by_found (find_first (λ c. ltb c.atime (oldest bs t + 10)) bs) refl
  where
    by_found :
        (o : Option StorageBlock)
        → find_first (λ c. ltb c.atime (oldest bs t + 10)) bs ≡ o
        → (b : StorageBlock) × (o ≡ some b)
    by_found (some b) f = (b, refl)
    by_found none f =
        let low = oldest-low (oldest bs t + 10) bs t f in
        let early : leb a.atime t ≡ true = find_first_holds (λ c. leb c.atime t) bs a e in
        absurd (
          find_first-ne_none (λ c. ltb c.atime (oldest bs t + 10)) (λ c. leb c.atime t) bs a e
            (ground (arith, low, oldest-upper bs t, early)) f)

pub chosen-shorter :
    (t : ℕ) (a : StorageBlock) (bs : List StorageBlock)
    → find_first (λ c. leb c.atime t) bs ≡ some a
    → length (erase_each (to_delete (oldest bs t) 0 bs) bs) < length bs
unfolding erase_each
chosen-shorter t a bs e =
    let (b, first) = oldest_found bs t a e in
    let (rest, chosen) = to_delete_first (oldest bs t) b bs first in
    omega (
      arith,
      ap (λ ds. length (erase_each ds bs)) chosen,
      erase_each-shorter rest (select (λ c. not (has_num b.storage_block_num c)) bs),
      drops b first (find_first (has_num b.storage_block_num) bs) refl,
    )
  where
    drops :
        (b : StorageBlock)
        → find_first (λ c. ltb c.atime (oldest bs t + 10)) bs ≡ some b
        → (o : Option StorageBlock) → find_first (has_num b.storage_block_num) bs ≡ o
        → length (select (λ c. not (has_num b.storage_block_num c)) bs) < length bs
    drops b first (some d) f = select_drops (has_num b.storage_block_num) d bs f
    drops b first none f = absurd (
        find_first-ne_none (has_num b.storage_block_num) (λ c. ltb c.atime (oldest bs t + 10)) bs b
          first (==_refl b.storage_block_num) f)

pub run_round-shorter :
    (repeat : Bool) (w : World) (a : StorageBlock)
    → w.faults ≡ []
    → Distinct has_serial serial_of w.blocks
    → find_first (λ c. leb c.atime w.now) w.blocks ≡ some a
    → (run_round repeat w).0 ≡ ok true
    → length (run_round repeat w).1.blocks < length w.blocks
run_round-shorter repeat w a q d e =
    rw (run_round-quiet repeat w q d)
      (elim (Bool-cases (ltb 500 (length (saved_world repeat w).blocks))) [
        | inl big ↦ rw big (λ r. shorter)
        | inr small ↦ rw small (λ r. absurd (ground (arith, r)))
      ])
  where
    left : List StorageBlock
    left = (saved_world repeat w).blocks

    shape : SameShape w.now left w.blocks
    shape = same_shape w.blocks (woken repeat w) w.now

    early :
        (o : Option StorageBlock)
        → find_first (λ c. leb c.atime w.now) left ≡ o
        → length (erase_each (to_delete (oldest left w.now) 0 left) left) < length left
    early (some b) f = chosen-shorter w.now b left f
    early none f = absurd (
        ground (
          arith,
          contents-flushed (λ c. leb c.atime w.now) (λ b. refl) w.blocks (woken repeat w),
          e,
          f,
        ))

    shorter : length (erased_world repeat w).blocks < length w.blocks
    shorter = omega (
      arith,
      shape.0,
      ap (λ t. length (erase_each (to_delete t 0 left) left)) (shape.1),
      early (find_first (λ c. leb c.atime w.now) left) refl,
    )
