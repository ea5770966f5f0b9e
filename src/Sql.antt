-- ===== src/Sql.antt =====
-- The SQL statements of DataBase::prepareStatements and their execution by sql::PreparedStmt.
-- Each statement's text is a function on the tables.
pub mod Counts
pub mod Moves
pub mod Keeps
pub mod Inserts
pub mod Sqlite
pub mod Statement
use wwdedup.Prelude.{
  ℕ, Bool, not, ◌&&◌, ◌||◌, is_some, Option, none, some, [], ◌∷◌, ◌++◌, map, ◌==◌, select,
  find_first, update_where, eqb, if◌then◌else◌, ℤ, pos, ◌+ℤ◌, ◌-ℤ◌,
}
use wwdedup.Effects.{pure, throw, gets, modify, ◌>>=◌, ◌>>◌}
use wwdedup.Types.{Bytes, FilePath}
use wwdedup.State.{Env, FileRow, FileBlockRow, HashRow, Tables, World, M, faulty}

-- The test `file_id = ? AND offset = ?`, which the constraint offset_uniq makes a key.
unfoldable pub at_offset : ℕ → ℕ → FileBlockRow → Bool
at_offset file_id offset r = (r.file_id == file_id) && (r.offset == offset)

-- The test `hash = ?`.
unfoldable pub has_hash : Bytes → HashRow → Bool
has_hash h r = eqb r.hash h

-- The test `path = ?`.
unfoldable pub has_path : FilePath → FileRow → Bool
has_path p r = eqb r.path p

-- stGetByPath
unfoldable pub get_by_path_row : FilePath → Tables → Option FileRow
get_by_path_row p t = find_first (has_path p) t.files

-- What a row of stGetFileBlock gives: h._ID, h.hash and h.use_count, where NULL columns of the
-- left join read as 0, the empty blob and 0.
pub record FileBlock : Type 0 where
  pub id : ℕ
  pub hash : Bytes
  pub use_count : ℤ

abbrev joined : Option HashRow → FileBlock
joined none = record { id = 0; hash = []; use_count = pos 0 }
joined (some h) = record { id = h.id; hash = h.hash; use_count = h.use_count }

abbrev pub join_hash : Tables → Option FileBlockRow → Option FileBlock
join_hash t none = none
join_hash t (some b) = some (joined (find_first (has_hash b.hash) t.block_hashes))

-- stGetFileBlock
unfoldable pub get_file_block : ℕ → ℕ → Tables → Option FileBlock
get_file_block file_id offset t = join_hash t (find_first (at_offset file_id offset) t.file_blocks)

-- stDeleteFileBlock
unfoldable pub delete_file_block : ℕ → ℕ → Tables → Tables
delete_file_block file_id offset t = record t {
  file_blocks = select (λ r. not (at_offset file_id offset r)) t.file_blocks;
}

abbrev pub add_use : ℤ → HashRow → HashRow
add_use n r = record r { use_count = r.use_count +ℤ n }

-- stDecreaseUseCount
unfoldable pub decrease_use_count : Bytes → Tables → Tables
decrease_use_count h t = record t {
  block_hashes =
      update_where (has_hash h) (λ r. record r { use_count = r.use_count -ℤ pos 1 }) t.block_hashes;
}

-- stSelectBlockHash
unfoldable pub select_block_hash : Bytes → Tables → Option HashRow
select_block_hash h t = find_first (has_hash h) t.block_hashes

-- stIncreaseUseCount
unfoldable pub increase_use_count : Bytes → Tables → Tables
increase_use_count h t = record t {
  block_hashes = update_where (has_hash h) (add_use (pos 1)) t.block_hashes;
}

-- stSetUseCount
unfoldable pub set_use_count : ℤ → ℕ → Tables → Tables
set_use_count n id t = record t {
  block_hashes =
      update_where (λ (r : HashRow). r.id == id) (λ r. record r { use_count = n }) t.block_hashes;
}

-- stUpdateBlockHash
unfoldable pub update_block_hash : Bytes → ℕ → Tables → Tables
update_block_hash h id t = record t {
  block_hashes =
      update_where (λ (r : HashRow). r.id == id) (λ r. record r { hash = h }) t.block_hashes;
}

-- stInsertBlockHash, with the key that SQLite chose
unfoldable pub insert_block_hash : Bytes → ℕ → Tables → Tables
insert_block_hash h id t = record t {
  block_hashes = t.block_hashes ++ record { id = id; hash = h; use_count = pos 1 } ∷ [];
}

-- stReplaceFileBlock
unfoldable pub replace_file_block : ℕ → ℕ → Bytes → Tables → Tables
replace_file_block file_id offset h t = record t {
  file_blocks =
      select (λ r. not (at_offset file_id offset r)) t.file_blocks
      ++ record { file_id = file_id; offset = offset; hash = h } ∷ [];
}

-- stUpdateFileSize
unfoldable pub update_file_size : ℕ → ℕ → Tables → Tables
update_file_size size id t = record t {
  files = update_where (λ (r : FileRow). r.id == id) (λ r. record r { size = size }) t.files;
}

-- PreparedStmt::next on a SELECT: the step fails, or answers from the tables.
unfoldable pub query : {A : Type 0} → (Tables → A) → M A
unfolding faulty
query f = do failed ← faulty; if failed then throw else gets (λ w. f w.tables)

-- PreparedStmt::executeUpdate, and next on a statement that changes the tables.
unfoldable pub execute_update : (Tables → Tables) → M (Unit {0})
unfolding faulty
execute_update f = do
  failed ← faulty
  if failed then throw else modify (λ w. record w { tables = f w.tables })

-- executeUpdate of stInsertBlockHash, and the key that lastInsertId then returns
unfoldable pub execute_insert_hash : Env → Bytes → M (Unit {0})
unfolding execute_update
execute_insert_hash env h = do
  id ← gets (λ w. env.new_rowid (map (λ (r : HashRow). r.id) w.tables.block_hashes))
  execute_update (insert_block_hash h id)
  modify (λ w. record w { last_insert_id = id })

-- Database::transactionBegin. sqlite3_exec fails on a BEGIN within a transaction, and
-- RecordSet::query then throws.
unfoldable pub transaction_begin : M (Unit {0})
unfolding faulty
transaction_begin = do
  failed ← faulty
  saved ← gets (λ w. w.saved)
  if failed || is_some saved then throw else modify (λ w. record w { saved = some w.tables })

-- Database::transactionCommit, which throws without a transaction.
unfoldable pub transaction_commit : M (Unit {0})
unfolding faulty
transaction_commit = do
  failed ← faulty
  saved ← gets (λ w. w.saved)
  if failed || not (is_some saved) then throw else modify (λ w. record w { saved = none })

abbrev pub restore : Option Tables → M (Unit {0})
restore none = throw
restore (some t) = modify (λ w. record w { tables = t; saved = none })

-- Database::transactionRollback, the same.
unfoldable pub transaction_rollback : M (Unit {0})
unfolding faulty
transaction_rollback = do
  failed ← faulty
  saved ← gets (λ w. w.saved)
  if failed then throw else restore saved
