-- ===== src/Database/Files.antt =====
-- database.cpp: the operations on the table `files`. An operation on a file_info works on the
-- `file` of the state.
use wwdedup.Prelude.{
  as_int, ℕ, Bool, true, false, ◌&&◌, Option, none, some, List, [], ◌∷◌, ◌++◌, map, ◌==◌, length,
  select, update_where, eqb, if◌then◌else◌, ℤ, pos, negsuc, neg, eqb_ℤ, ◌+ℤ◌,
}
use wwdedup.Effects.{pure, throw, abort, gets, modify, ◌>>=◌, ◌>>◌}
use wwdedup.Types.{FilePath, Stat, FileInfo}
use wwdedup.Types.Modes.{is_dir, enoent, eexist, enotdir, einval}
use wwdedup.State.{Env, FileRow, M, faulty}
use wwdedup.Sql.{has_path, get_by_path_row, update_file_size, query, execute_update}

abbrev no_stat : ℕ → Stat
no_stat mode = record {
  ino = 0;
  size = 0;
  mode = mode;
  uid = 0;
  gid = 0;
  mtime = pos 0;
  ctime = pos 0;
}

abbrev stat_of : FileRow → Stat
stat_of r = record {
  ino = r.id;
  size = r.size;
  mode = r.mode;
  uid = r.uid;
  gid = r.gid;
  mtime = r.mtime;
  ctime = r.ctime;
}

-- The file_info of getByPath: without a row st_ino and st_size are 0, and st_mode is not set.
unfoldable pub info_of : Env → FilePath → Option FileRow → FileInfo
info_of env p none = record {
  refcount = 1;
  name = [];
  depth = pos 0;
  st = no_stat env.stale_mode;
  blocks = [];
}
info_of env p (some r) = record {
  refcount = 1;
  name = p;
  depth = r.depth;
  st = stat_of r;
  blocks = [];
}

-- DataBase::getByPath
unfoldable pub get_by_path : Env → FilePath → M FileInfo
unfolding query
get_by_path env p = query (λ t. info_of env p (get_by_path_row p t))

-- The row of an INSERT INTO files.
abbrev pub new_row : ℕ → FilePath → ℤ → ℕ → ℕ → FileRow
new_row id p depth mode now = record {
  id = id;
  path = p;
  depth = depth;
  size = 0;
  mode = mode;
  uid = 0;
  gid = 0;
  mtime = as_int now;
  ctime = as_int now;
}

-- The constraint path_uniq: another row has the path.
unfoldable pub path_taken : ℕ → FilePath → List FileRow → Bool
unfolding eqb
path_taken id p [] = false
path_taken id p (r ∷ rs) =
    if eqb r.path p then (if r.id == id then path_taken id p rs else true) else path_taken id p rs

-- INSERT INTO files: refused where a row has the path already.
unfoldable pub insert_file : Env → FilePath → ℤ → ℕ → M (Unit {0})
unfolding faulty
insert_file env p depth mode = do
  failed ← faulty
  clash ← gets (λ w. get_by_path_row p w.tables)
  if failed then throw else (elim clash [
    | some _ ↦ throw
    | none ↦ modify λ w. record w {
      tables = record w.tables {
        files =
            w.tables.files
            ++ new_row (env.new_rowid (map (λ (r : FileRow). r.id) w.tables.files)) p depth mode
                w.now
              ∷ [];
      };
    }
  ])

-- The path of the root directory, "/".
abbrev pub root : FilePath
root = b'/' ∷ []

-- Where a new file goes: the depth that its parent gives it, or the error.
unfoldable pub parent_depth : Env → FilePath → M (Option ℤ × ℤ)
unfolding get_by_path
parent_depth env p = if eqb p root then pure (some (pos 0), pos 0) else do
  dir ← get_by_path env (env.branch_path p)
  if dir.st.ino == 0
      then pure (none, neg enoent)
      else if is_dir dir.st.mode
      then pure (some (dir.depth +ℤ pos 1), pos 0)
      else pure (none, neg enotdir)

abbrev pub create_at : Env → FilePath → ℕ → Option ℤ × ℤ → M ℤ
create_at env p mode (none, e) = pure e
create_at env p mode (some depth, _) = do
  fi ← get_by_path env p
  if fi.st.ino == 0 then (do insert_file env p depth mode; pure (pos 0)) else pure (neg eexist)

-- DataBase::create
unfoldable pub create : Env → FilePath → ℕ → M ℤ
unfolding parent_depth get_by_path insert_file
create env p mode = do place ← parent_depth env p; create_at env p mode place

-- DataBase::remove
unfoldable pub remove : FilePath → M ℤ
unfolding execute_update has_path
remove p = do
  execute_update
      λ t. record t { files = select (λ r. if has_path p r then false else true) t.files }
  pure (pos 0)

-- DataBase::ftruncate
unfoldable pub ftruncate : ℤ → M ℤ
unfolding execute_update update_file_size
ftruncate (negsuc _) = pure (neg einval)
ftruncate (pos new_size) = do
  fi ← gets (λ w. w.file)
  if fi.st.size == new_size then pure (pos 0) else do
    execute_update (update_file_size new_size fi.st.ino)
    modify (λ w. record w { file = record w.file { st = record w.file.st { size = new_size } } })
    pure (pos 0)

-- DataBase::utime, with ubuf->modtime
unfoldable pub utime : FilePath → ℕ → M ℤ
unfolding execute_update has_path
utime p modtime = do
  execute_update λ t. record t {
    files = update_where (has_path p) (λ r. record r { mtime = as_int modtime }) t.files;
  }
  pure (pos 0)

-- *name.string().rbegin(), which an empty name does not have
abbrev pub last_byte : FilePath → Option ℕ
last_byte [] = none
last_byte (b ∷ []) = some b
last_byte (b ∷ c ∷ bs) = last_byte (c ∷ bs)

abbrev pub pattern_after : FilePath → Option ℕ → M FilePath
pattern_after name none = abort
pattern_after name (some b) =
    pure (if b == b'/' then name ++ b'%' ∷ [] else name ++ b'/' ∷ b'%' ∷ [])

-- The pattern for the paths below a directory.
unfoldable pub below_pattern : FilePath → M FilePath
below_pattern name = pattern_after name (last_byte name)

-- The test `path LIKE ? AND depth = ?`.
unfoldable pub is_child : Env → FilePath → ℤ → FileRow → Bool
is_child env pat depth r = env.like pat r.path && eqb_ℤ r.depth depth

-- DataBase::dirEmpty
unfoldable pub dir_empty : Env → FileInfo → M Bool
unfolding below_pattern query is_child
dir_empty env dir = do
  pat ← below_pattern dir.name
  cnt ← query (λ t. length (select (is_child env pat (dir.depth +ℤ pos 1)) t.files))
  pure (cnt == 0)

-- `while (stmt->next())`: a step for each row, and one that finds no more.
unfoldable pub step_rows : List FileRow → M (Unit {0})
unfolding query
step_rows [] = query (λ _. tt)
step_rows (r ∷ rs) = do query (λ _. tt); step_rows rs

-- DataBase::readdir
unfoldable pub readdir : Env → FileInfo → M (List FileInfo)
unfolding below_pattern step_rows is_child info_of
readdir env dir = do
  pat ← below_pattern dir.name
  rows ← gets (λ w. select (is_child env pat (dir.depth +ℤ pos 1)) w.tables.files)
  step_rows rows
  pure (
      map (λ (r : FileRow). record (info_of env r.path (some r)) { depth = dir.depth +ℤ pos 1 })
        rows)
