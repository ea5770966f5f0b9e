-- ===== src/Sql/Sqlite.antt =====
-- What easySQLite/SqlPreparedStmt.cpp uses of the C interface of SQLite.
use wwdedup.Prelude.{Bool, Option, false, if◌then◌else◌, true, ℕ, ℤ, ◌==◌, ◌≡◌}
use wwdedup.Types.{Bytes}

-- The functions on a connection and one statement of it. A column of text or of bytes is none where
-- SQLite gives a null pointer; the result codes of the bindings are not looked at by the program.
pub record Sqlite : Type 1 where
  pub Handle : Type 0
  pub Double : Type 0
  pub prepare_v2 : Bytes → Handle → ℕ × Handle
  pub step : Handle → ℕ × Handle
  pub reset : Handle → Handle
  pub finalize : Handle → Handle
  pub column_count : Handle → ℕ
  pub column_type : ℤ → Handle → ℕ
  pub column_int : ℤ → Handle → ℤ
  pub column_int64 : ℤ → Handle → ℤ
  pub column_double : ℤ → Handle → Double
  pub column_text : ℤ → Handle → Option Bytes
  pub column_blob : ℤ → Handle → Option Bytes
  pub column_bytes : ℤ → Handle → ℕ
  pub bind_int : ℕ → ℤ → Handle → Handle
  pub bind_int64 : ℕ → ℤ → Handle → Handle
  pub bind_double : ℕ → Double → Handle → Handle
  pub bind_text : ℕ → Bytes → Handle → Handle
  pub bind_blob : ℕ → Bytes → Handle → Handle
  pub bind_null : ℕ → Handle → Handle

-- What a parameter of a statement can be bound to.
pub data Value (Double : Type 0) : Type 0 where
  null : Value Double
  integer : ℤ → Value Double
  real : Double → Value Double
  text : Bytes → Value Double
  blob : Bytes → Value Double

abbrev pub rebound : {A : Type 0} → ℕ → A → (ℕ → A) → ℕ → A
rebound i v f j = if j == i then v else f j

-- What SQLite documents of a binding of parameter `i` that is made by `bind`: it takes effect where
-- the statement was reset since its last step, and is refused as a misuse where it was not.
pub record Binds {H V : Type 0} (bound : H → ℕ → V) (in_use : H → Bool) (bind : H → H) (i : ℕ)
    (v : V) : Type 0 where
  pub ready : (s : H) → in_use s ≡ false → (j : ℕ) → bound (bind s) j ≡ rebound i v (bound s) j
  pub still : (s : H) → in_use s ≡ false → in_use (bind s) ≡ false
  pub misused : (s : H) → in_use s ≡ true → bind s ≡ s

-- The documented behaviour of bindings, steps and resets, as long as there is memory: `bound` is
-- what a parameter is bound to, `in_use` whether the statement was stepped since it was reset, and
-- `parameter` whether the statement has a parameter of this number.
pub record IsDocumented (q : Sqlite) : Type 0 where
  pub bound : q.Handle → ℕ → Value q.Double
  pub in_use : q.Handle → Bool
  pub parameter : ℕ → Bool
  pub step_uses : (s : q.Handle) → in_use (q.step s).1 ≡ true
  pub step_keeps : (s : q.Handle) (j : ℕ) → bound (q.step s).1 j ≡ bound s j
  pub reset_frees : (s : q.Handle) → in_use (q.reset s) ≡ false
  pub reset_keeps : (s : q.Handle) (j : ℕ) → bound (q.reset s) j ≡ bound s j
  pub binds_int :
      (i : ℕ) (v : ℤ) → parameter i ≡ true → Binds bound in_use (q.bind_int i v) i (integer v)
  pub binds_int64 :
      (i : ℕ) (v : ℤ) → parameter i ≡ true → Binds bound in_use (q.bind_int64 i v) i (integer v)
  pub binds_double :
      (i : ℕ) (v : q.Double)
      → parameter i ≡ true
      → Binds bound in_use (q.bind_double i v) i (real v)
  pub binds_text :
      (i : ℕ) (v : Bytes) → parameter i ≡ true → Binds bound in_use (q.bind_text i v) i (text v)
  pub binds_blob :
      (i : ℕ) (v : Bytes) → parameter i ≡ true → Binds bound in_use (q.bind_blob i v) i (blob v)
  pub binds_null : (i : ℕ) → parameter i ≡ true → Binds bound in_use (q.bind_null i) i null
