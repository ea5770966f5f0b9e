-- ===== src/Database/Rename.antt =====
-- database.cpp: DataBase::rename.
use wwdedup.Prelude.{
  ℕ, Bool, true, false, ◌&&◌, List, [], ◌∷◌, ◌++◌, ◌==◌, length, drop, select, update_where,
  if◌then◌else◌, ℤ, pos, neg, ◌+ℤ◌, ◌-ℤ◌,
}
use wwdedup.Effects.{pure, throw, gets, modify, ◌>>=◌, ◌>>◌}
use wwdedup.Types.{FilePath, FileInfo}
use wwdedup.Types.Modes.{is_dir, enoent, ebusy, enotdir, eisdir, einval, enotempty}
use wwdedup.State.{Env, FileRow, M, faulty}
use wwdedup.Sql.{query}
use wwdedup.Database.Files.{get_by_path, path_taken, remove, dir_empty}

-- UPDATE files SET path = ?, … WHERE _ID = ?: refused where another row has the path.
unfoldable pub update_path : ℕ → FilePath → (FileRow → FileRow) → M (Unit {0})
unfolding faulty path_taken
update_path id p f = do
  failed ← faulty
  clash ← gets (λ w. path_taken id p w.tables.files)
  if failed
      then throw
      else if clash
      then throw
      else modify λ w. record w {
        tables = record w.tables {
          files =
              update_where (λ (r : FileRow). r.id == id) (λ r. record (f r) { path = p })
                w.tables.files;
        };
      }

-- The paths below a directory that moves. The rows of the SELECT are those at its start: each
-- round changes only the row that it has read.
unfoldable pub move_below : FilePath → FilePath → ℤ → List FileRow → M (Unit {0})
unfolding query update_path
move_below old new diff [] = query (λ _. tt)
move_below old new diff (r ∷ rs) = do
  query (λ _. tt)
  update_path r.id (new ++ drop (length old) r.path) (λ s. record s { depth = s.depth +ℤ diff })
  move_below old new diff rs

-- newPath.string().find(oldPath.string()) == 0
unfoldable pub starts_with : FilePath → FilePath → Bool
starts_with [] p = true
starts_with (a ∷ as') [] = false
starts_with (a ∷ as') (b ∷ bs) = (a == b) && starts_with as' bs

-- What stands in the way of a destination that exists: 0 for nothing.
unfoldable pub check_target : Env → FilePath → FilePath → FileInfo → FileInfo → M ℤ
unfolding dir_empty is_dir starts_with
check_target env old new old_file new_file =
    if is_dir old_file.st.mode
    then (do
      empty ← if is_dir new_file.st.mode then dir_empty env new_file else pure true
      if is_dir new_file.st.mode && (if empty then false else true)
          then pure (neg enotempty)
          else if is_dir new_file.st.mode
          then (if starts_with old new then pure (neg einval) else pure (pos 0))
          else pure (neg enotdir))
    else if is_dir new_file.st.mode
    then pure (neg eisdir)
    else pure (pos 0)

abbrev pub is_zero : ℤ → Bool
is_zero (pos n) = n == 0
is_zero _ = false

-- Clears the destination: 0, or the error.
unfoldable pub clear_target : Env → FilePath → FilePath → FileInfo → FileInfo → M ℤ
unfolding check_target remove
clear_target env old new old_file new_file = if new_file.st.ino == 0 then pure (pos 0) else do
  code ← check_target env old new old_file new_file
  if is_zero code
      then (do removed ← remove new; if is_zero removed then pure (pos 0) else pure (neg ebusy))
      else pure code

-- The updates of the moved file and of what lies below it.
unfoldable pub move_file : Env → FilePath → FilePath → FileInfo → FileInfo → M ℤ
unfolding move_below update_path is_dir
move_file env old new old_file dest = do
  rows ←
      gets (λ w. select (λ (r : FileRow). env.like (old ++ b'/' ∷ b'%' ∷ []) r.path) w.tables.files)
  if is_dir old_file.st.mode
      then move_below old new (dest.depth +ℤ pos 1 -ℤ old_file.depth) rows
      else pure tt
  update_path old_file.st.ino new (λ s. record s { depth = dest.depth +ℤ pos 1 })
  pure (pos 0)

-- DataBase::rename
unfoldable pub rename : Env → FilePath → FilePath → M ℤ
unfolding get_by_path is_dir clear_target move_file
rename env old new = do
  old_file ← get_by_path env old
  if old_file.st.ino == 0 then pure (neg enoent) else do
    dest ← get_by_path env (env.branch_path new)
    if dest.st.ino == 0
        then pure (neg enoent)
        else if is_dir dest.st.mode
        then (do
          new_file ← get_by_path env new
          code ← clear_target env old new old_file new_file
          if is_zero code then move_file env old new old_file dest else pure code)
        else pure (neg enotdir)
