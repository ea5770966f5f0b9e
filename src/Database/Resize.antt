-- ===== src/Database/Resize.antt =====
-- database.cpp: stUpdateFileSize, which DataBase::ftruncate uses again and again.
use wwdedup.Effects.{Exec, Outcome, aborts, hangs, ok, throws, ◌>>=◌, ◌>>◌}
use wwdedup.Effects.Logic.{Ends}
use wwdedup.Prelude.{ℕ, arith, false, true, ℤ, ◌∙◌, ◌≡◌}
use wwdedup.Sql.Sqlite.{IsDocumented, Sqlite, integer}
use wwdedup.Sql.Statement.{Statement, bind_int64, execute_retrying}
use wwdedup.Sql.Statement.Bindings.{IsReady, IsStale, bind_value, by_int64}
use wwdedup.Sql.Statement.Runs.{execute_retrying-Ends}

module _ (q : Sqlite) where
  -- stUpdateFileSize->bindInt64(1, newSize), and the same of 2 and st_ino
  unfoldable pub bind_size : ℤ → ℤ → Exec (Statement q) (Unit {0})
  bind_size size ino = do bind_int64 q 1 size; bind_int64 q 2 ino

  -- The update of a file's size in DataBase::ftruncate.
  unfoldable pub set_size : ℤ → ℤ → Exec (Statement q) (Unit {0})
  unfolding bind_size
  set_size size ino = do bind_size size ino; execute_retrying q 1 false

-- The update would be run for this size and file.
abbrev pub RunsFor : (q : Sqlite) (d : IsDocumented q) → ℤ → ℤ → Statement q → Type 0
RunsFor q d size ino v = (d.bound v.handle 1 ≡ integer size) × (d.bound v.handle 2 ≡ integer ino)

module _ (q : Sqlite) (d : IsDocumented q) (one : d.parameter 1 ≡ true)
    (two : d.parameter 2 ≡ true) where
  bind_size-RunsFor :
      (size ino : ℤ) (s : Statement q)
      → d.in_use s.handle ≡ false
      → RunsFor q d size ino (bind_size q size ino s).1
  unfolding bind_size bind_int64 ◌>>=◌
  bind_size-RunsFor size ino s unused =
      let first = d.binds_int64 1 size one in
      let second = d.binds_int64 2 ino two in
      let ready = first.still s.handle unused in
      (second.ready _ ready 1 ∙ first.ready s.handle unused 1, second.ready _ ready 2)

  bind_int64-refused :
      (i : ℕ) (x : ℤ) (s v : Statement q)
      → d.parameter i ≡ true
      → IsStale q d s v
      → bind_int64 q i x v ≡ (ok tt, v)
  unfolding bind_value
  bind_int64-refused i x s v p k = k.refused (by_int64 i x) p

  bind_size-refused :
      (size ino : ℤ) (s v : Statement q) → IsStale q d s v → bind_size q size ino v ≡ (ok tt, v)
  unfolding bind_size ◌>>=◌
  bind_size-refused size ino s v k =
      rw (bind_int64-refused 1 size s v one k) (bind_int64-refused 2 ino s v two k)

  by_result :
      (size ino size' ino' : ℤ) (s : Statement q) (r : Outcome (Unit {0}) × Statement q)
      → RunsFor q d size ino s
      → Ends (λ _. IsReady q d s) (IsStale q d s) r
      → let again = (bind_size q size' ino' r.1).1 in
        (r.0 ≡ ok tt → RunsFor q d size' ino' again) × (r.0 ≡ throws → RunsFor q d size ino again)
  by_result size ino size' ino' s (ok x, v) k h =
      ((λ e. bind_size-RunsFor size' ino' v h.free), (λ e. absurd (ground (arith, e))))
  by_result size ino size' ino' s (throws, v) k h = (
    (λ e. absurd (ground (arith, e))),
    (λ e. rw (bind_size-refused size' ino' s v h) (h.kept 1 ∙ k.0, h.kept 2 ∙ k.1)),
  )
  by_result size ino size' ino' s (aborts, v) k h = ((λ e. cc), (λ e. cc))
  by_result size ino size' ino' s (hangs, v) k h = ((λ e. cc), (λ e. cc))

  -- Two updates of a file's size with one statement that was reset, whose parameters are 1 and 2:
  -- where the first returns, the second is run for its own size and file; where the first throws,
  -- as for a database that another thread has locked, the second is run for the size and the file
  -- of the first.
  pub set_size-bind_size :
      (size ino size' ino' : ℤ) (s : Statement q)
      → d.in_use s.handle ≡ false
      → let (result, after) = set_size q size ino s in
        let again = (bind_size q size' ino' after).1 in
        (result ≡ ok tt → RunsFor q d size' ino' again)
        × (result ≡ throws → RunsFor q d size ino again)
  unfolding set_size bind_size bind_int64 ◌>>=◌
  set_size-bind_size size ino size' ino' s unused =
      let bound = (bind_size q size ino s).1 in
      by_result size ino size' ino' bound (execute_retrying q 1 false bound)
        (bind_size-RunsFor size ino s unused) (execute_retrying-Ends q d 1 false bound)
