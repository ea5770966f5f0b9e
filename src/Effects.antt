-- ===== src/Effects.antt =====
-- The monad of C++ code: a result, an exception, undefined behaviour, or a wait without end, over a
-- mutable state. What was written before an exception stays written.
pub mod Logic

pub data Outcome (A : Type 0) : Type 0 where
  ok : A → Outcome A
  throws : Outcome A
  aborts : Outcome A
  hangs : Outcome A

abbrev pub Exec : Type 0 → Type 0 → Type 0
Exec S A = S → Outcome A × S

module _ {S A : Type 0} where
  abbrev pub pure : A → Exec S A
  pure a s = (ok a, s)

  -- throw
  abbrev pub throw : Exec S A
  throw s = (throws, s)

  -- undefined behaviour
  abbrev pub abort : Exec S A
  abort s = (aborts, s)

  -- a wait for something that never comes
  abbrev pub hang : Exec S A
  hang s = (hangs, s)

  abbrev pub gets : (S → A) → Exec S A
  gets f s = (ok (f s), s)

  abbrev pub recover : Outcome A → Exec S A → S → Outcome A × S
  recover (ok a) handler s = (ok a, s)
  recover throws handler s = handler s
  recover aborts handler s = (aborts, s)
  recover hangs handler s = (hangs, s)

  -- try { m } catch (exception &e) { handler }
  abbrev pub try_catch : Exec S A → Exec S A → Exec S A
  try_catch m handler s = let (r, s') = m s in recover r handler s'

module _ {S A B : Type 0} where
  abbrev pub continue : Outcome A → (A → Exec S B) → S → Outcome B × S
  continue (ok a) f s = f a s
  continue throws f s = (throws, s)
  continue aborts f s = (aborts, s)
  continue hangs f s = (hangs, s)

-- A call whose result is not used.
abbrev pub ignore : {S A : Type 0} → Exec S A → Exec S (Unit {0})
ignore m s = let (r, s') = m s in continue r (λ _. pure tt) s'

abbrev pub modify : {S : Type 0} → (S → S) → Exec S (Unit {0})
modify f s = (ok tt, f s)

infixl 5 ◌>>=◌ ◌>>◌
unfoldable pub ◌>>=◌ : {S A B : Type 0} → Exec S A → (A → Exec S B) → Exec S B
◌>>=◌ m f s = let (r, s') = m s in continue r f s'

abbrev pub ◌>>◌ : {S B : Type 0} → Exec S (Unit {0}) → Exec S B → Exec S B
m >> k = m >>= λ _. k
