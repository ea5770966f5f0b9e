-- ===== src/Cache/Contents/Repeats.antt =====
-- The loop of BlocksCache::run: what `repeat` promises.
use wwdedup.Cache.Contents.{serial_of}
use wwdedup.Cache.Contents.Flushed.{contents, contents-flushed, serials-flushed}
use wwdedup.Cache.Contents.Rounds.{doomed, erased_world, run_round-quiet, saved_world, woken}
use wwdedup.Cache.Contents.Shrinks.{run_round-shorter, same_shape}
use wwdedup.Cache.Flush.{after_block, faults-flushed, flushed}
use wwdedup.Cache.Writer.{erase_each, run_round}
use wwdedup.Database.Pointers.{has_serial, set_block}
use wwdedup.Effects.{hang, ok, pure, ◌>>=◌}
use wwdedup.Prelude.{
  Bool, Bool-cases, Distinct, Distinct-select, List, Option, [], ap, arith, false, find_first,
  find_first-select-none, if◌then◌else◌, inl, inr, leb, length, ltb, none, not, refl, some, suc,
  true, zero, ℕ, ◌<◌, ◌∙◌, ◌∷◌, ◌≡◌, ◌⊎◌,
}
use wwdedup.State.{M, World}
use wwdedup.Types.{StorageBlock}

-- The loop of BlocksCache::run as long as a round asks to be repeated at once. `hang` stands for a loop that
-- goes on when the fuel is spent.
unfoldable pub repeat_rounds : ℕ → Bool → M (Unit {0})
unfolding run_round
repeat_rounds zero repeat = hang
repeat_rounds (suc fuel) repeat = do
  again ← run_round repeat
  if again then repeat_rounds fuel true else pure tt

abbrev is_later : ℕ → StorageBlock → Bool
is_later now b = not (leb b.atime now)

-- No call fails, objects do not share a serial, and none was used after the present time.
pub record IsPresent (w : World) : Type 0 where
  pub quiet : w.faults ≡ []
  pub serials : Distinct has_serial serial_of w.blocks
  pub past : find_first (is_later w.now) w.blocks ≡ none

now-flushed : (bs : List StorageBlock) (w : World) → (flushed bs w).now ≡ w.now
unfolding set_block
now-flushed [] w = refl
now-flushed (b ∷ bs) w = now-flushed bs (after_block b w) ∙ same b w
  where
    same : (a : StorageBlock) (v : World) → (after_block a v).now ≡ v.now
    same a v = elim (Bool-cases a.dirty) [ inl dirty ↦ rw dirty refl | inr other ↦ rw other refl ]

pub kept_erased :
    (p : StorageBlock → Bool) (ds bs : List StorageBlock)
    → Distinct has_serial serial_of bs
    → find_first p bs ≡ none
    → Distinct has_serial serial_of (erase_each ds bs) × (find_first p (erase_each ds bs) ≡ none)
unfolding erase_each
kept_erased p [] bs d e = (d, e)
kept_erased p (a ∷ ds) bs d e =
    kept_erased p ds _ (Distinct-select has_serial serial_of _ bs d)
      (find_first-select-none p _ bs e)

none_of : (o : Option StorageBlock) → contents o ≡ none → o ≡ none
none_of none e = refl
none_of (some b) e = cc

no_block :
    (now : ℕ) (bs : List StorageBlock)
    → find_first (λ c. leb c.atime now) bs ≡ none
    → find_first (is_later now) bs ≡ none
    → length bs ≡ 0
no_block now [] e f = refl
no_block now (b ∷ bs) e f = absurd (ground (arith, e, f))

module _ (repeat : Bool) (w : World) where
  saved-IsPresent : IsPresent w → IsPresent (saved_world repeat w)
  saved-IsPresent k = record {
    quiet = faults-flushed w.blocks (woken repeat w) k.quiet;
    serials = serials-flushed w.blocks (woken repeat w) k.serials;
    past = rw (now-flushed w.blocks (woken repeat w)) (
        none_of _ (
          contents-flushed (is_later w.now) (λ a. refl) w.blocks (woken repeat w)
          ∙ ap contents k.past));
  }

  erased-IsPresent : IsPresent w → IsPresent (erased_world repeat w)
  erased-IsPresent k =
      let s = saved-IsPresent k in
      let kept =
        kept_erased (is_later (saved_world repeat w).now) (doomed repeat w)
          (saved_world repeat w).blocks s.serials s.past in
      record { quiet = s.quiet; serials = kept.0; past = kept.1 }

  run_round-IsPresent : IsPresent w → IsPresent (run_round repeat w).1
  run_round-IsPresent k =
      rw (run_round-quiet repeat w k.quiet k.serials)
        (elim (Bool-cases (ltb 500 (length (saved_world repeat w).blocks))) [
          | inl big ↦ rw big (erased-IsPresent k)
          | inr small ↦ rw small (saved-IsPresent k)
        ])

  again_big :
      IsPresent w
      → (run_round repeat w).0 ≡ ok true
      → ltb 500 (length (saved_world repeat w).blocks) ≡ true
  again_big k =
      rw (run_round-quiet repeat w k.quiet k.serials)
        (elim (Bool-cases (ltb 500 (length (saved_world repeat w).blocks))) [
          | inl big ↦ rw big (λ r. refl)
          | inr small ↦ rw small (λ r. absurd (ground (arith, r)))
        ])

  again_shorter :
      IsPresent w
      → (run_round repeat w).0 ≡ ok true
      → length (run_round repeat w).1.blocks < length w.blocks
  again_shorter k r = by_first (find_first (λ c. leb c.atime w.now) w.blocks) refl
    where
      by_first :
          (o : Option StorageBlock)
          → find_first (λ c. leb c.atime w.now) w.blocks ≡ o
          → length (run_round repeat w).1.blocks < length w.blocks
      by_first (some a) e = run_round-shorter repeat w a k.quiet k.serials e r
      by_first none e = absurd (
          ground (
            arith,
            again_big k r,
            (same_shape w.blocks (woken repeat w) w.now).0,
            no_block w.now w.blocks e k.past,
          ))

  again_or_not :
      IsPresent w → ((run_round repeat w).0 ≡ ok true) ⊎ ((run_round repeat w).0 ≡ ok false)
  again_or_not k =
      rw (run_round-quiet repeat w k.quiet k.serials)
        (elim (Bool-cases (ltb 500 (length (saved_world repeat w).blocks))) [
          | inl big ↦ rw big (by_left (ltb 500 (length (erased_world repeat w).blocks)))
          | inr small ↦ rw small (inr refl)
        ])
    where
      by_left : (b : Bool) → (ok b ≡ ok true) ⊎ (ok b ≡ ok false)
      by_left true = inl refl
      by_left false = inr refl

-- Where no call fails, objects do not share a serial, and no cached block was used after the
-- present time, the rounds that the writer thread repeats at once because the cache is too large
-- come to an end, after at most as many rounds as there are cached blocks and one.
pub repeat_rounds_end :
    (fuel : ℕ) (repeat : Bool) (w : World)
    → IsPresent w
    → length w.blocks < fuel
    → (repeat_rounds fuel repeat w).0 ≡ ok tt
unfolding repeat_rounds ◌>>=◌
repeat_rounds_end zero repeat w k h = absurd (omega (arith, h))
repeat_rounds_end (suc fuel) repeat w k h = elim (again_or_not repeat w k) [
  | inl again ↦ rw again (
      repeat_rounds_end fuel true (run_round repeat w).1 (run_round-IsPresent repeat w k)
        (omega (arith, again_shorter repeat w k again, h)))
  | inr done ↦ rw done refl
]
