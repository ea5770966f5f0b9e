-- ===== src/Sql/Statement.antt =====
-- easySQLite/SqlPreparedStmt.cpp: a prepared statement, over the C interface of SQLite.
pub mod Retry
pub mod Bindings
pub mod Runs
use wwdedup.Effects.{
  Exec, Outcome, abort, gets, hang, hangs, modify, ok, pure, throw, throws, ◌>>=◌, ◌>>◌,
}
use wwdedup.Prelude.{
  Bool, Option, [], false, if◌then◌else◌, leb, length, neg, negsuc, none, pos, some, suc, take,
  true, zero, ℕ, ℤ, ◌%◌, ◌&&◌, ◌==◌, ◌||◌,
}
use wwdedup.Sql.Sqlite.{Sqlite}
use wwdedup.Types.{Bytes}

abbrev pub sqlite_ok : ℕ
sqlite_ok = 0

abbrev pub sqlite_busy : ℕ
sqlite_busy = 5

abbrev pub sqlite_locked : ℕ
sqlite_locked = 6

abbrev pub sqlite_null : ℕ
sqlite_null = 5

abbrev pub sqlite_row : ℕ
sqlite_row = 100

abbrev pub sqlite_done : ℕ
sqlite_done = 101

-- (res & 0xFF) == SQLITE_LOCKED || (res & 0xFF) == SQLITE_BUSY
unfoldable pub is_busy : ℕ → Bool
is_busy res = (res % 256 == sqlite_locked) || (res % 256 == sqlite_busy)

module _ (q : Sqlite) where
  -- A PreparedStmt: `handle` is _db and _stmt, which SQLite keeps together.
  pub record Statement : Type 0 where
    pub handle : q.Handle
    pub column_count : ℤ

  abbrev on_handle : (q.Handle → q.Handle) → Exec Statement (Unit {0})
  on_handle f = modify (λ s. record s { handle = f s.handle })

  -- PreparedStmt::PreparedStmt, for a loop that ends within so many calls of sqlite3_prepare_v2
  unfoldable pub prepare_statement : ℕ → Bytes → q.Handle → Outcome Statement
  prepare_statement zero sql db = hangs
  prepare_statement (suc fuel) sql db =
      let (err, stmt) = q.prepare_v2 sql db in
      let rest = prepare_statement fuel sql stmt in
      if (err == sqlite_locked) || (err == sqlite_busy)
      then rest
      else if err == sqlite_ok
      then ok (record { handle = stmt; column_count = neg 2 })
      else throws

  -- PreparedStmt::~PreparedStmt
  unfoldable pub finalize_statement : Exec Statement (Unit {0})
  finalize_statement = on_handle q.finalize

  -- PreparedStmt::reset
  unfoldable pub reset_statement : Exec Statement (Unit {0})
  reset_statement = modify (λ s. record s { handle = q.reset s.handle; column_count = neg 1 })

  -- int res = sqlite3_step(_stmt)
  unfoldable pub step_statement : Exec Statement ℕ
  step_statement s = let (res, handle) = q.step s.handle in (ok res, record s { handle = handle })

  -- PreparedStmt::next
  unfoldable pub next_row : Exec Statement Bool
  unfolding step_statement
  next_row = do
    res ← step_statement
    if res == sqlite_row
        then (do modify (λ s. record s { column_count = pos (q.column_count s.handle) }); pure true)
        else if res == sqlite_done
        then (do modify (λ s. record s { column_count = pos 0 }); pure false)
        else throw

  -- The loop of executeUpdate, where it ends within so many calls of sqlite3_step.
  unfoldable pub step_until : ℕ → Bool → Exec Statement ℕ
  unfolding is_busy step_statement
  step_until zero retry = hang
  step_until (suc fuel) retry = do
    res ← step_statement
    if retry && is_busy res then step_until fuel retry else pure res

  -- PreparedStmt::executeUpdate. The exception for a locked database and the other one are `throws`.
  unfoldable pub execute_retrying : ℕ → Bool → Exec Statement (Unit {0})
  unfolding step_until reset_statement
  execute_retrying fuel retry = do
    res ← step_until fuel retry
    if (res == sqlite_done) || (res == sqlite_row) then reset_statement else throw

  abbrev reaches : ℤ → ℤ → Bool
  reaches (negsuc i) (pos n) = false
  reaches (pos i) (pos n) = leb n i
  reaches index (negsuc n) = true

  -- PreparedStmt::checkColumn
  unfoldable pub check_column : ℤ → Exec Statement (Unit {0})
  check_column index = do
    count ← gets (λ s. s.column_count)
    if reaches index count then throw else pure tt

  -- PreparedStmt::getInt
  unfoldable pub get_int : ℤ → Exec Statement ℤ
  get_int index = gets (λ s. q.column_int index s.handle)

  -- PreparedStmt::getInt64
  unfoldable pub get_int64 : ℤ → Exec Statement ℤ
  get_int64 index = gets (λ s. q.column_int64 index s.handle)

  -- PreparedStmt::getDouble
  unfoldable pub get_double : ℤ → Exec Statement q.Double
  get_double index = gets (λ s. q.column_double index s.handle)

  -- A string made of a pointer to bytes that end with a zero.
  abbrev from_text : Option Bytes → Exec Statement Bytes
  from_text none = abort
  from_text (some bytes) = pure bytes

  -- PreparedStmt::getString
  unfoldable pub get_string : ℤ → Exec Statement Bytes
  get_string index = do bytes ← gets (λ s. q.column_text index s.handle); from_text bytes

  -- A string made of a pointer and a length.
  abbrev from_blob : ℕ → Option Bytes → Exec Statement Bytes
  from_blob len none = if len == 0 then pure [] else abort
  from_blob len (some bytes) = pure (take len bytes)

  -- PreparedStmt::getBlob
  unfoldable pub get_blob : ℤ → Exec Statement Bytes
  get_blob index = do
    ptr ← gets (λ s. q.column_blob index s.handle)
    len ← gets (λ s. q.column_bytes index s.handle)
    from_blob len ptr

  -- PreparedStmt::isNull
  unfoldable pub is_null : ℤ → Exec Statement Bool
  is_null index = gets (λ s. q.column_type index s.handle == sqlite_null)

  -- PreparedStmt::bindInt
  unfoldable pub bind_int : ℕ → ℤ → Exec Statement (Unit {0})
  bind_int index v = on_handle (q.bind_int index v)

  -- PreparedStmt::bindInt64
  unfoldable pub bind_int64 : ℕ → ℤ → Exec Statement (Unit {0})
  bind_int64 index v = on_handle (q.bind_int64 index v)

  -- PreparedStmt::bindDouble
  unfoldable pub bind_double : ℕ → q.Double → Exec Statement (Unit {0})
  bind_double index v = on_handle (q.bind_double index v)

  -- PreparedStmt::bindString
  unfoldable pub bind_string : ℕ → Bytes → Exec Statement (Unit {0})
  bind_string index v = on_handle (q.bind_text index v)

  -- PreparedStmt::bindBlob
  unfoldable pub bind_blob : ℕ → Bytes → Exec Statement (Unit {0})
  bind_blob index v = on_handle (q.bind_blob index v)

  -- PreparedStmt::bindNull
  unfoldable pub bind_null : ℕ → Exec Statement (Unit {0})
  bind_null index = on_handle (q.bind_null index)
