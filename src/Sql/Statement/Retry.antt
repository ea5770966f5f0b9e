-- ===== src/Sql/Statement/Retry.antt =====
-- executeUpdate where the database is locked.
use wwdedup.Effects.{◌>>=◌}
use wwdedup.Prelude.{arith, false, refl, suc, true, zero, ℕ, ◌<◌, ◌≡◌}
use wwdedup.Sql.Sqlite.{Sqlite}
use wwdedup.Sql.Statement.{Statement, execute_retrying, is_busy, step_statement, step_until}

module _ (q : Sqlite) where
  -- The handle after so many steps.
  abbrev pub stepped : ℕ → q.Handle → q.Handle
  stepped zero h = h
  stepped (suc n) h = stepped n (q.step h).1

  -- So many steps tell of a locked or busy database.
  abbrev pub AllBusy : ℕ → q.Handle → Type 0
  AllBusy zero h = Unit {0}
  AllBusy (suc n) h = (is_busy (q.step h).0 ≡ true) × AllBusy n (q.step h).1

  step_until-busy :
      (n fuel : ℕ) (s : Statement q)
      → AllBusy n s.handle
      → is_busy (q.step (stepped n s.handle)).0 ≡ false
      → n < fuel
      → step_until q fuel true s ≡ step_until q 1 false (record s { handle = stepped n s.handle })
  unfolding step_until step_statement ◌>>=◌
  step_until-busy n zero s h e lt = absurd (omega (arith, lt))
  step_until-busy zero (suc fuel) s h e lt = rw e refl
  step_until-busy (suc n) (suc fuel) s h e lt = rw (h.0) (
      step_until-busy n fuel (record s { handle = (q.step s.handle).1 }) (h.1) e
        (omega (arith, lt)))

  -- Where the database is locked or busy for a number of steps and then no more, executeUpdate
  -- with retry, given more than that number of steps, ends, and does what it does without retry in
  -- one step after those.
  pub execute_retrying-busy :
      (n fuel : ℕ) (s : Statement q)
      → AllBusy n s.handle
      → is_busy (q.step (stepped n s.handle)).0 ≡ false
      → n < fuel
      → execute_retrying q fuel true s
        ≡ execute_retrying q 1 false (record s { handle = stepped n s.handle })
  unfolding execute_retrying ◌>>=◌
  execute_retrying-busy n fuel s h e lt = rw (step_until-busy n fuel s h e lt) refl
