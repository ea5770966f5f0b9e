-- ===== src/Sql/Statement/Runs.antt =====
-- The bindings behind an executed statement, and those of an update that is tried again.
use wwdedup.Effects.{◌>>=◌}
use wwdedup.Effects.Logic.{Ends, Ends-bind, Ends-if, Ends-map}
use wwdedup.Prelude.{
  Bool, Bool-cases, inl, inr, refl, suc, true, zero, ℕ, ◌&&◌, ◌==◌, ◌||◌, ◌∙◌, ◌≡◌,
}
use wwdedup.Sql.Sqlite.{IsDocumented, Sqlite}
use wwdedup.Sql.Statement.{
  Statement, execute_retrying, is_busy, reset_statement, sqlite_done, sqlite_row, step_statement,
  step_until,
}
use wwdedup.Sql.Statement.Bindings.{IsReady, IsStale, free-IsReady, used-IsStale}

module _ (q : Sqlite) (d : IsDocumented q) where
  -- v is in use and has the bindings of s.
  record IsUsed (s v : Statement q) : Type 0 where
    used : d.in_use v.handle ≡ true
    kept : (j : ℕ) → d.bound v.handle j ≡ d.bound s.handle j

  stepped-IsUsed :
      (s v : Statement q)
      → ((j : ℕ) → d.bound v.handle j ≡ d.bound s.handle j)
      → IsUsed s (record v { handle = (q.step v.handle).1 })
  stepped-IsUsed s v k = record {
    used = d.step_uses v.handle;
    kept = λ j. d.step_keeps v.handle j ∙ k j;
  }

  step_until-IsUsed :
      (fuel : ℕ) (retry : Bool) (s v : Statement q)
      → ((j : ℕ) → d.bound v.handle j ≡ d.bound s.handle j)
      → Ends (λ _. IsUsed s) (λ _. ⊥) (step_until q fuel retry v)
  unfolding step_until step_statement ◌>>=◌
  step_until-IsUsed zero retry s v k = tt
  step_until-IsUsed (suc fuel) retry s v k =
      elim (Bool-cases (retry && is_busy (q.step v.handle).0)) [
        | inl again ↦ rw again (
            step_until-IsUsed fuel retry s (record v { handle = (q.step v.handle).1 })
              (stepped-IsUsed s v k).kept)
        | inr once ↦ rw once (stepped-IsUsed s v k)
      ]

  IsUsed-IsStale : (s v : Statement q) → IsUsed s v → IsStale q d s v
  IsUsed-IsStale s v h = used-IsStale q d s v h.used h.kept

  -- After executeUpdate the statement has the bindings that it had before: where it returned, what
  -- is bound next takes effect, and where it threw, nothing that is bound does.
  pub execute_retrying-Ends :
      (fuel : ℕ) (retry : Bool) (s : Statement q)
      → Ends (λ _. IsReady q d s) (IsStale q d s) (execute_retrying q fuel retry s)
  unfolding execute_retrying reset_statement
  execute_retrying-Ends fuel retry s =
      Ends-bind (λ _. IsUsed s) (λ _. IsReady q d s) (IsStale q d s) (step_until q fuel retry) _ s
        (Ends-map (step_until q fuel retry s) (λ res v h. h) (λ v h. absurd h)
          (step_until-IsUsed fuel retry s s (λ j. refl)))
        λ res v h.
          Ends-if (λ _. IsReady q d s) (IsStale q d s) ((res == sqlite_done) || (res == sqlite_row))
            _ _ v
            (free-IsReady q d s _ (d.reset_frees v.handle)
              (λ j. d.reset_keeps v.handle j ∙ h.kept j))
            (IsUsed-IsStale s v h)
