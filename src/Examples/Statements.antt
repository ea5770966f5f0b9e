-- ===== src/Examples/Statements.antt =====
-- A small SQLite, and the theorems on prepared statements at it.
use wwdedup.Database.Resize.{RunsFor, bind_size, set_size, set_size-bind_size}
use wwdedup.Effects.{ok, throws}
use wwdedup.Effects.Logic.{Ends}
use wwdedup.Prelude.{
  Bool, List, [], arith, false, if◌then◌else◌, leb, neg, none, pos, refl, true, ℕ, ◌∷◌, ◌≡◌,
}
use wwdedup.Sql.Sqlite.{
  Binds, IsDocumented, Sqlite, Value, blob, integer, null, real, rebound, text,
}
use wwdedup.Sql.Statement.{Statement, execute_retrying, is_busy}
use wwdedup.Sql.Statement.Bindings.{IsReady, IsStale}
use wwdedup.Sql.Statement.Retry.{execute_retrying-busy, stepped}
use wwdedup.Sql.Statement.Runs.{execute_retrying-Ends}

-- A statement with the codes that its coming steps give.
record Scripted : Type 0 where
  values : ℕ → Value ℕ
  stepped_since : Bool
  codes : List ℕ

abbrev first_code : List ℕ → ℕ × List ℕ
first_code [] = (101, [])
first_code (c ∷ cs) = (c, cs)

abbrev put : ℕ → Value ℕ → Scripted → Scripted
put i v s = if s.stepped_since then s else record s { values = rebound i v s.values }

abbrev take_step : Scripted → ℕ × Scripted
take_step s =
    let (res, codes) = first_code s.codes in (res, record s { stepped_since = true; codes = codes })

abbrev scripted : Sqlite
scripted = record {
  Handle = Scripted;
  Double = ℕ;
  prepare_v2 = λ sql s. take_step s;
  step = take_step;
  reset = λ s. record s { stepped_since = false };
  finalize = λ s. s;
  column_count = λ s. 0;
  column_type = λ i s. 5;
  column_int = λ i s. pos 0;
  column_int64 = λ i s. pos 0;
  column_double = λ i s. 0;
  column_text = λ i s. none;
  column_blob = λ i s. none;
  column_bytes = λ i s. 0;
  bind_int = λ i v. put i (integer v);
  bind_int64 = λ i v. put i (integer v);
  bind_double = λ i v. put i (real v);
  bind_text = λ i v. put i (text v);
  bind_blob = λ i v. put i (blob v);
  bind_null = λ i. put i null;
}

put-Binds :
    (i : ℕ) (v : Value ℕ)
    → Binds (λ (s : Scripted). s.values) (λ (s : Scripted). s.stepped_since) (put i v) i v
put-Binds i v = record {
  ready = λ s e j. rw e refl;
  still = λ s e. rw e refl;
  misused = λ s e. rw e refl;
}

scripted-IsDocumented : IsDocumented scripted
scripted-IsDocumented = record {
  bound = λ s. s.values;
  in_use = λ s. s.stepped_since;
  parameter = λ i. leb 1 i;
  step_uses = λ s. refl;
  step_keeps = λ s j. refl;
  reset_frees = λ s. refl;
  reset_keeps = λ s j. refl;
  binds_int = λ i v p. put-Binds i (integer v);
  binds_int64 = λ i v p. put-Binds i (integer v);
  binds_double = λ i v p. put-Binds i (real v);
  binds_text = λ i v p. put-Binds i (text v);
  binds_blob = λ i v p. put-Binds i (blob v);
  binds_null = λ i p. put-Binds i null;
}

-- Locked, busy, done.
abbrev locked_statement : Statement scripted
locked_statement = record {
  handle = record { values = λ i. null; stepped_since = false; codes = 6 ∷ 5 ∷ 101 ∷ [] };
  column_count = neg 1;
}

execute_retrying-busy_example :
    execute_retrying scripted 3 true locked_statement
    ≡ execute_retrying scripted 1 false
        (record locked_statement { handle = stepped scripted 2 locked_statement.handle })
unfolding is_busy
execute_retrying-busy_example =
    execute_retrying-busy scripted 2 3 locked_statement (refl, (refl, tt)) refl (omega arith)

execute_retrying-Ends_example :
    Ends
      (λ _. IsReady scripted scripted-IsDocumented locked_statement)
      (IsStale scripted scripted-IsDocumented locked_statement)
      (execute_retrying scripted 3 true locked_statement)
execute_retrying-Ends_example =
    execute_retrying-Ends scripted scripted-IsDocumented 3 true locked_statement

-- The file 2 is given 10 bytes while the database is busy, and then the file 3 is given 20.
abbrev busy_statement : Statement scripted
busy_statement = record locked_statement {
  handle = record locked_statement.handle { codes = 5 ∷ 101 ∷ [] };
}

set_size-bind_size_example :
    let (result, after) = set_size scripted (pos 10) (pos 2) busy_statement in
    let again = (bind_size scripted (pos 20) (pos 3) after).1 in
    (result ≡ ok tt → RunsFor scripted scripted-IsDocumented (pos 20) (pos 3) again)
    × (result ≡ throws → RunsFor scripted scripted-IsDocumented (pos 10) (pos 2) again)
unfolding scripted-IsDocumented
set_size-bind_size_example =
    set_size-bind_size scripted scripted-IsDocumented refl refl (pos 10) (pos 2) (pos 20) (pos 3)
      busy_statement refl
