-- ===== src/Prelude/Rows.antt =====
-- Rows of a table: what a lookup finds after rows were changed, selected or appended, and keys
-- that occur once.
use mathlib.Core.Path.{◌≡◌, refl}
use mathlib.Core.Bool.{Bool, true, not}
use mathlib.Core.Option.{Option, none, some}
use mathlib.Core.List.{List, [], ◌∷◌, ◌++◌}
use native.Mathlib.Omega.{arith}
use wwdedup.Prelude.Tests.{if◌then◌else◌}
use wwdedup.Prelude.Lists.{select, find_first, update_where}

abbrev pub or_else {ℓ} : {A : Type ℓ} → Option A → Option A → Option A
or_else none o = o
or_else (some a) o = some a

abbrev pub change_found {ℓ} : {A : Type ℓ} → (A → Bool) → (A → A) → Option A → Option A
change_found q f none = none
change_found q f (some a) = some (if q a then f a else a)

module _ {A : Type 0} (p : A → Bool) where
  pub find_first-append :
      (xs ys : List A) → find_first p (xs ++ ys) ≡ or_else (find_first p xs) (find_first p ys)
  find_first-append [] ys = refl
  find_first-append (x ∷ xs) ys = ground (arith, find_first-append xs ys)

  -- A change that the test does not see.
  pub find_first-update_where :
      (q : A → Bool) (f : A → A) (xs : List A)
      → ((a : A) → p (f a) ≡ p a)
      → find_first p (update_where q f xs) ≡ change_found q f (find_first p xs)
  find_first-update_where q f [] h = refl
  find_first-update_where q f (x ∷ xs) h = ground (arith, h x, find_first-update_where q f xs h)

  pub find_first-select-none :
      (q : A → Bool) (xs : List A) → find_first p xs ≡ none → find_first p (select q xs) ≡ none
  find_first-select-none q [] h = refl
  find_first-select-none q (x ∷ xs) h = ground (arith, find_first-select-none q xs)

  pub select-none : (xs : List A) → find_first p xs ≡ none → select (λ a. not (p a)) xs ≡ xs
  select-none [] h = refl
  select-none (x ∷ xs) h = ground (arith, select-none xs)

  pub find_first-select-not : (xs : List A) → find_first p (select (λ a. not (p a)) xs) ≡ none
  find_first-select-not [] = refl
  find_first-select-not (x ∷ xs) = ground (arith, find_first-select-not xs)

  -- A selection of at least what the test looks for.
  pub find_first-select_wide :
      (q : A → Bool) (xs : List A)
      → ((a : A) → p a ≡ true → q a ≡ true)
      → find_first p (select q xs) ≡ find_first p xs
  find_first-select_wide q [] h = refl
  find_first-select_wide q (x ∷ xs) h = ground (arith, h x, find_first-select_wide q xs h)

  pub update_where-none :
      (f : A → A) (xs : List A) → find_first p xs ≡ none → update_where p f xs ≡ xs
  update_where-none f [] h = refl
  update_where-none f (x ∷ xs) h = ground (arith, update_where-none f xs)

  -- What another test finds is found by this one where it holds, or something before it.
  pub find_first-ne_none :
      (q : A → Bool) (xs : List A) (a : A)
      → find_first q xs ≡ some a
      → p a ≡ true
      → find_first p xs ≡ none
      → ⊥
  find_first-ne_none q [] a e h n = cc
  find_first-ne_none q (x ∷ xs) a e h n = ground (arith, find_first-ne_none q xs a)

  pub find_first_holds : (xs : List A) (a : A) → find_first p xs ≡ some a → p a ≡ true
  find_first_holds [] a h = ground arith
  find_first_holds (x ∷ xs) a h = ground (arith, find_first_holds xs a)

-- Each key of the rows occurs once. `p k` tests for the key k.
module _ {K A : Type 0} (p : K → A → Bool) (key : A → K) where
  abbrev pub Distinct : List A → Type 0
  Distinct [] = Unit
  Distinct (x ∷ xs) = (find_first (p (key x)) xs ≡ none) × Distinct xs

  pub Distinct-update_where :
      (q : A → Bool) (f : A → A) (xs : List A)
      → ((a : A) → key (f a) ≡ key a)
      → ((k : K) (a : A) → p k (f a) ≡ p k a)
      → Distinct xs
      → Distinct (update_where q f xs)
  Distinct-update_where q f [] hk hp d = tt
  Distinct-update_where q f (x ∷ xs) hk hp d = (
    ground (arith, hk x, find_first-update_where (p (key x)) q f xs (hp (key x)), d.0),
    Distinct-update_where q f xs hk hp d.1,
  )

  pub Distinct-select : (q : A → Bool) (xs : List A) → Distinct xs → Distinct (select q xs)
  Distinct-select q [] d = tt
  Distinct-select q (x ∷ xs) d =
      ground (arith, find_first-select-none (p (key x)) q xs d.0, Distinct-select q xs d.1)

  pub Distinct-append :
      (xs : List A) (y : A)
      → ((a : A) → p (key a) y ≡ p (key y) a)
      → find_first (p (key y)) xs ≡ none
      → Distinct xs
      → Distinct (xs ++ y ∷ [])
  Distinct-append [] y s h d = (refl, tt)
  Distinct-append (x ∷ xs) y s h d = (
    ground (arith, s x, find_first-append (p (key x)) xs (y ∷ []), d.0),
    Distinct-append xs y s (ground arith) d.1,
  )

  -- A row that some test finds is the one that its key finds.
  pub find_first-key :
      (q : A → Bool) (xs : List A) (a : A)
      → ((b : A) → p (key b) a ≡ p (key a) b)
      → p (key a) a ≡ true
      → Distinct xs
      → find_first q xs ≡ some a
      → find_first (p (key a)) xs ≡ some a
  find_first-key q [] a s r d e = cc
  find_first-key q (x ∷ xs) a s r d e =
      ground (arith, s x, find_first-key q xs a s r d.1, find_first-ne_none (p (key x)) q xs a)
