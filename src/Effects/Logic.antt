-- ===== src/Effects/Logic.antt =====
-- Rules for what holds when C++ code ends: by its value, or by an exception.
use wwdedup.Effects.{
  Exec, Outcome, abort, aborts, continue, gets, hang, hangs, ignore, modify, ok, pure, recover,
  throw, throws, try_catch, ◌>>=◌,
}
use wwdedup.Prelude.{Bool, false, if◌then◌else◌, true, ◌≡◌}

-- Q holds of a value and the state with it, E of the state at an exception.
abbrev pub Ends : {S A : Type 0} → (A → S → Type 0) → (S → Type 0) → Outcome A × S → Type 0
Ends Q E (ok a, s) = Q a s
Ends Q E (throws, s) = E s
Ends Q E (aborts, s) = Unit
Ends Q E (hangs, s) = Unit

pub Ends-map :
    {S A : Type 0} {Q R : A → S → Type 0} {E F : S → Type 0} (r : Outcome A × S)
    → ((a : A) (s : S) → Q a s → R a s)
    → ((s : S) → E s → F s)
    → Ends Q E r
    → Ends R F r
Ends-map (ok a, s) f g h = f a s h
Ends-map (throws, s) f g h = g s h
Ends-map (aborts, s) f g h = tt
Ends-map (hangs, s) f g h = tt

-- `m` keeps P, whether it returns or throws.
pub record Guards {S A : Type 0} (P : S → Type 0) (m : Exec S A) : Type 0 where
  pub at : (s : S) → P s → Ends (λ _. P) P (m s)

module _ {S A : Type 0} {P : S → Type 0} where
  pub Guards-pure : (a : A) → Guards P (pure a)
  Guards-pure a = record { at = λ s h. h }

  pub Guards-throw : Guards P (throw {S = S} {A = A})
  Guards-throw = record { at = λ s h. h }

  pub Guards-abort : Guards P (abort {S = S} {A = A})
  Guards-abort = record { at = λ s h. tt }

  pub Guards-hang : Guards P (hang {S = S} {A = A})
  Guards-hang = record { at = λ s h. tt }

  pub Guards-gets : (f : S → A) → Guards P (gets f)
  Guards-gets f = record { at = λ s h. h }

  pub Guards-if :
      (b : Bool) (m n : Exec S A) → Guards P m → Guards P n → Guards P (if b then m else n)
  Guards-if true m n gm gn = gm
  Guards-if false m n gm gn = gn

module _ {S : Type 0} {P : S → Type 0} where
  pub Guards-modify : (f : S → S) → ((s : S) → P s → P (f s)) → Guards P (modify f)
  Guards-modify f k = record { at = k }

module _ {S A B : Type 0} {P : S → Type 0} where
  pub Ends-continue :
      (r : Outcome A × S) (f : A → Exec S B)
      → Ends (λ _. P) P r
      → ((a : A) → Guards P (f a))
      → Ends (λ _. P) P (continue r.0 f r.1)
  Ends-continue (ok a, s) f h g = (g a).at s h
  Ends-continue (throws, s) f h g = h
  Ends-continue (aborts, s) f h g = tt
  Ends-continue (hangs, s) f h g = tt

  pub Guards-bind :
      (m : Exec S A) (f : A → Exec S B)
      → Guards P m
      → ((a : A) → Guards P (f a))
      → Guards P (m >>= f)
  unfolding ◌>>=◌
  Guards-bind m f gm gf = record { at = λ s h. Ends-continue (m s) f (gm.at s h) gf }

pub Guards-ignore :
    {S A : Type 0} {P : S → Type 0} (m : Exec S A) → Guards P m → Guards P (ignore m)
Guards-ignore m gm = record {
  at = λ s h. Ends-continue (m s) (λ _. pure tt) (gm.at s h) (λ _. Guards-pure tt);
}

module _ {S A : Type 0} {P : S → Type 0} where
  Ends-try :
      (r : Outcome A × S) (handler : Exec S A)
      → Ends (λ _. P) P r
      → Guards P handler
      → Ends (λ _. P) P (recover r.0 handler r.1)
  Ends-try (ok a, s) handler h g = h
  Ends-try (throws, s) handler h g = g.at s h
  Ends-try (aborts, s) handler h g = tt
  Ends-try (hangs, s) handler h g = tt

  pub Guards-try :
      (m handler : Exec S A) → Guards P m → Guards P handler → Guards P (try_catch m handler)
  Guards-try m handler gm gh = record { at = λ s h. Ends-try (m s) handler (gm.at s h) gh }

pub ruleset guard_rules =
    (Guards-pure, Guards-throw, Guards-abort, Guards-hang, Guards-gets, Guards-if, Guards-bind)

module _ {S A B : Type 0} (Q : A → S → Type 0) (R : B → S → Type 0) (E : S → Type 0) where
  Ends-next :
      (r : Outcome A × S) (f : A → Exec S B)
      → Ends Q E r
      → ((a : A) (s : S) → Q a s → Ends R E (f a s))
      → Ends R E (continue r.0 f r.1)
  Ends-next (ok a, s) f h k = k a s h
  Ends-next (throws, s) f h k = h
  Ends-next (aborts, s) f h k = tt
  Ends-next (hangs, s) f h k = tt

  pub Ends-bind :
      (m : Exec S A) (f : A → Exec S B) (s : S)
      → Ends Q E (m s)
      → ((a : A) (s : S) → Q a s → Ends R E (f a s))
      → Ends R E ((m >>= f) s)
  unfolding ◌>>=◌
  Ends-bind m f s h k = Ends-next (m s) f h k

module _ {S A : Type 0} (Q : A → S → Type 0) (E : S → Type 0) where
  pub Ends-if :
      (b : Bool) (m n : Exec S A) (s : S)
      → Ends Q E (m s)
      → Ends Q E (n s)
      → Ends Q E ((if b then m else n) s)
  Ends-if true m n s h k = h
  Ends-if false m n s h k = k

-- Where `m` throws, P still holds.
pub record Fails {S A : Type 0} (P : S → Type 0) (m : Exec S A) : Type 0 where
  pub at : (s : S) → P s → Ends (λ _ _. Unit {0}) P (m s)

module _ {S A B : Type 0} {P : S → Type 0} where
  Fails-continue :
      (r : Outcome A × S) (f : A → Exec S B)
      → Ends (λ _. P) P r
      → ((a : A) → Fails P (f a))
      → Ends (λ _ _. Unit {0}) P (continue r.0 f r.1)
  Fails-continue (ok a, s) f h g = (g a).at s h
  Fails-continue (throws, s) f h g = h
  Fails-continue (aborts, s) f h g = tt
  Fails-continue (hangs, s) f h g = tt

  pub Fails-bind :
      (m : Exec S A) (f : A → Exec S B) → Guards P m → ((a : A) → Fails P (f a)) → Fails P (m >>= f)
  unfolding ◌>>=◌
  Fails-bind m f gm gf = record { at = λ s h. Fails-continue (m s) f (gm.at s h) gf }

module _ {S A : Type 0} {P : S → Type 0} where
  pub Fails-throw : Fails P (throw {S = S} {A = A})
  Fails-throw = record { at = λ s h. h }

  pub Fails-if : (b : Bool) (m n : Exec S A) → Fails P m → Fails P n → Fails P (if b then m else n)
  Fails-if true m n fm fn = fm
  Fails-if false m n fm fn = fn

-- `m` throws in no state.
pub record NoThrow {S A : Type 0} (m : Exec S A) : Type 0 where
  pub at : (s : S) → Ends (λ _ _. Unit {0}) (λ _. ⊥) (m s)

module _ {S A : Type 0} where
  pub NoThrow-pure : (a : A) → NoThrow (pure {S = S} a)
  NoThrow-pure a = record { at = λ s. tt }

  pub NoThrow-gets : (f : S → A) → NoThrow (gets f)
  NoThrow-gets f = record { at = λ s. tt }

  pub NoThrow-if :
      (b : Bool) (m n : Exec S A) → NoThrow m → NoThrow n → NoThrow (if b then m else n)
  NoThrow-if true m n gm gn = gm
  NoThrow-if false m n gm gn = gn

pub NoThrow-modify : {S : Type 0} (f : S → S) → NoThrow (modify f)
NoThrow-modify f = record { at = λ s. tt }

module _ {S A B : Type 0} where
  NoThrow-continue :
      (r : Outcome A × S) (f : A → Exec S B)
      → Ends (λ _ _. Unit {0}) (λ _. ⊥) r
      → ((a : A) → NoThrow (f a))
      → Ends (λ _ _. Unit {0}) (λ _. ⊥) (continue r.0 f r.1)
  NoThrow-continue (ok a, s) f h g = (g a).at s
  NoThrow-continue (throws, s) f h g = h
  NoThrow-continue (aborts, s) f h g = tt
  NoThrow-continue (hangs, s) f h g = tt

  pub NoThrow-bind :
      (m : Exec S A) (f : A → Exec S B) → NoThrow m → ((a : A) → NoThrow (f a)) → NoThrow (m >>= f)
  unfolding ◌>>=◌
  NoThrow-bind m f gm gf = record { at = λ s. NoThrow-continue (m s) f (gm.at s) gf }

pub ruleset no_throw_rules = (NoThrow-pure, NoThrow-gets, NoThrow-if, NoThrow-modify, NoThrow-bind)

Ends-weaken :
    {S A : Type 0} (P : S → Type 0) (r : Outcome A × S)
    → Ends (λ _ _. Unit {0}) (λ _. ⊥) r
    → Ends (λ _ _. Unit {0}) P r
Ends-weaken P (ok a, s) h = tt
Ends-weaken P (throws, s) h = absurd h
Ends-weaken P (aborts, s) h = tt
Ends-weaken P (hangs, s) h = tt

pub NoThrow-Fails : {S A : Type 0} {P : S → Type 0} (m : Exec S A) → NoThrow m → Fails P m
NoThrow-Fails {P} m n = record { at = λ s h. Ends-weaken P (m s) (n.at s) }

module _ {S A : Type 0} where
  Ends-recover :
      (P E : S → Type 0) (r : Outcome A × S) (handler : Exec S A)
      → Ends (λ _ _. Unit {0}) P r
      → ((s : S) → P s → Ends (λ _ _. Unit {0}) E (handler s))
      → Ends (λ _ _. Unit {0}) E (recover r.0 handler r.1)
  Ends-recover P E (ok a, s) handler h k = tt
  Ends-recover P E (throws, s) handler h k = k s h
  Ends-recover P E (aborts, s) handler h k = tt
  Ends-recover P E (hangs, s) handler h k = tt

  -- A try block that leaves P behind where it throws, and a handler that turns P into E.
  pub Fails-try :
      (P E : S → Type 0) (m handler : Exec S A) (s : S)
      → Fails P m
      → P s
      → ((v : S) → P v → Ends (λ _ _. Unit {0}) E (handler v))
      → Ends (λ _ _. Unit {0}) E (try_catch m handler s)
  Fails-try P E m handler s f h k = Ends-recover P E (m s) handler (f.at s h) k

  pub Ends-throws :
      (E : S → Type 0) (r : Outcome A × S) → Ends (λ _ _. Unit {0}) E r → r.0 ≡ throws → E r.1
  Ends-throws E (ok a, s) h e = cc
  Ends-throws E (throws, s) h e = h
  Ends-throws E (aborts, s) h e = cc
  Ends-throws E (hangs, s) h e = cc
