-- ===== src/Fs/Calls.antt =====
-- dedupfs.cpp: the methods of DedupFS, one constructor of `Call` and one clause for each.
use wwdedup.Prelude.{
  ℕ, Bool, List, [], ◌∷◌, ◌++◌, map, ◌==◌, length, if◌then◌else◌, ℤ, pos, negsuc, neg, eqb_ℤ,
}
use wwdedup.Effects.{Exec, pure, gets, ◌>>=◌, ◌>>◌}
use wwdedup.Types.{Bytes, FilePath, Stat, FileInfo}
use wwdedup.Types.Modes.{
  is_dir, is_reg, or_dir, enoent, eio, enotdir, eisdir, einval, enosys, enotempty,
}
use wwdedup.State.{Env}
use wwdedup.Database.Files.{get_by_path, create, remove, utime, dir_empty, readdir}
use wwdedup.Database.Rename.{rename}
use wwdedup.Cache.Transfer.{write_buf, read_buf, truncate, sync}
use wwdedup.Fs.Mount.{Mount, run, run_on, run_handle, detach, release_handle}

pub data Call : Type 0 where
  getattr : FilePath → Call
  readlink : FilePath → Call
  mknod : FilePath → ℕ → Call
  mkdir : FilePath → ℕ → Call
  unlink : FilePath → Call
  rmdir : FilePath → Call
  symlink : FilePath → FilePath → Call
  move : FilePath → FilePath → Call
  link : FilePath → FilePath → Call
  chmod : FilePath → ℕ → Call
  chown : FilePath → ℕ → ℕ → Call
  trunc : FilePath → ℤ → Call
  set_time : FilePath → ℕ → Call
  open_file : FilePath → Call
  create_file : FilePath → ℕ → Call
  read : ℕ → ℕ → ℕ → Call
  write : ℕ → Bytes → ℕ → Call
  statfs : FilePath → Call
  flush : ℕ → Call
  release : ℕ → Call
  fsync : ℕ → Call
  setxattr : FilePath → Call
  getxattr : FilePath → Call
  listxattr : FilePath → Call
  removexattr : FilePath → Call
  opendir : FilePath → Call
  list : ℕ → (List FilePath → Bool) → Call
  releasedir : ℕ → Call
  fsyncdir : ℕ → Call
  ftrunc : ℕ → ℤ → Call

-- What a call gives back: its result, and what it wrote through its pointers.
pub data Reply : Type 0 where
  code : ℤ → Reply
  attr : Stat → Reply
  opened : ℕ → Reply
  bytes : Bytes → Reply
  names : List FilePath → Reply

-- DedupFS::Getattr
unfoldable pub get_attributes : Env → FilePath → Exec Mount Reply
unfolding run get_by_path
get_attributes env p = do
  fi ← run (get_by_path env p)
  if fi.st.ino == 0 then pure (code (neg enoent)) else pure (attr fi.st)

-- DedupFS::Unlink
unfoldable pub unlink_file : Env → FilePath → Exec Mount Reply
unfolding run run_on get_by_path is_dir truncate remove
unlink_file env p = do
  fi ← run (get_by_path env p)
  if fi.st.ino == 0
      then pure (code (neg enoent))
      else if is_dir fi.st.mode
      then pure (code (neg eisdir))
      else (do
        res ← run_on fi (truncate env (pos 0))
        if eqb_ℤ res (pos 0) then (do r ← run (remove p); pure (code r)) else pure (code res))

-- DedupFS::Rmdir
unfoldable pub remove_dir : Env → FilePath → Exec Mount Reply
unfolding run get_by_path is_dir dir_empty remove
remove_dir env p = do
  fi ← run (get_by_path env p)
  if is_dir fi.st.mode
      then (do
        empty ← run (dir_empty env fi)
        if empty then (do r ← run (remove p); pure (code r)) else pure (code (neg enotempty)))
      else pure (code (neg enotdir))

-- DedupFS::Truncate
unfoldable pub truncate_path : Env → FilePath → ℤ → Exec Mount Reply
unfolding run run_on get_by_path is_reg truncate
truncate_path env p size = do
  fi ← run (get_by_path env p)
  if fi.st.ino == 0
      then pure (code (neg enoent))
      else if is_reg fi.st.mode
      then (do r ← run_on fi (truncate env size); pure (code r))
      else pure (code (neg einval))

-- DedupFS::Open
unfoldable pub open_path : Env → FilePath → Exec Mount Reply
unfolding run get_by_path is_reg detach
open_path env p = do
  fi ← run (get_by_path env p)
  if fi.st.ino == 0
      then pure (code (neg enoent))
      else if is_reg fi.st.mode
      then (do fh ← detach fi; pure (opened fh))
      else pure (code (neg eio))

abbrev is_failure : ℤ → Bool
is_failure (pos n) = Bool.false
is_failure (negsuc n) = Bool.true

-- DedupFS::Create
unfoldable pub create_path : Env → FilePath → ℕ → Exec Mount Reply
unfolding run create get_by_path detach
create_path env p mode = do
  res ← run (create env p mode)
  if is_failure res
      then pure (code res)
      else do fi ← run (get_by_path env p); fh ← detach fi; pure (opened fh)

-- DedupFS::Opendir
unfoldable pub open_dir : Env → FilePath → Exec Mount Reply
unfolding run get_by_path is_dir detach
open_dir env p = do
  fi ← run (get_by_path env p)
  if fi.st.ino == 0
      then pure (code (neg enoent))
      else if is_dir fi.st.mode
      then (do fh ← detach fi; pure (opened fh))
      else pure (code (neg enotdir))

-- The names handed to the filler, which `full` stops after the one that it refuses.
unfoldable pub hand_over : (List FilePath → Bool) → List FilePath → List FilePath → List FilePath
hand_over full given [] = given
hand_over full given (p ∷ ps) =
    let rest = hand_over full (given ++ p ∷ []) ps in
    if full (given ++ p ∷ []) then given ++ p ∷ [] else rest

-- DedupFS::Readdir
unfoldable pub read_dir : Env → ℕ → (List FilePath → Bool) → Exec Mount Reply
unfolding run_handle readdir hand_over
read_dir env fh full = do
  files ← run_handle fh (gets (λ w. w.file) >>= readdir env)
  pure (
      names (
        hand_over full ((b'.' ∷ []) ∷ (b'.' ∷ b'.' ∷ []) ∷ [])
          (map (λ (f : FileInfo). env.leaf f.name) files)))

unsupported : Exec Mount Reply
unsupported = pure (code (neg enosys))

-- The methods that work on a fuse_file_info.
unfoldable pub file_call : Env → Call → Exec Mount Reply
unfolding unsupported read_dir open_dir run run_handle release_handle write_buf read_buf truncate
    sync
file_call env (read fh size offset) = do
  bs ← run_handle fh (read_buf env size offset)
  pure (bytes bs)
file_call env (write fh buf offset) = do
  n ← run_handle fh (write_buf env buf (length buf) offset)
  pure (code (pos n))
file_call env (flush fh) = do run sync; pure (code (pos 0))
file_call env (release fh) = do release_handle fh; run sync; pure (code (pos 0))
file_call env (fsync fh) = do run sync; pure (code (pos 0))
file_call env (opendir p) = open_dir env p
file_call env (list fh full) = read_dir env fh full
file_call env (releasedir fh) = do release_handle fh; pure (code (pos 0))
file_call env (fsyncdir fh) = pure (code (pos 0))
file_call env (ftrunc fh size) = do r ← run_handle fh (truncate env size); pure (code r)
-- Statfs and the four on extended attributes
file_call env _ = unsupported

-- The method that answers each call.
unfoldable pub dispatch : Env → Call → Exec Mount Reply
unfolding unsupported get_attributes unlink_file remove_dir truncate_path open_path create_path
    file_call run create rename utime or_dir
dispatch env (getattr p) = get_attributes env p
dispatch env (readlink p) = unsupported
dispatch env (mknod p mode) = unsupported
dispatch env (mkdir p mode) = do r ← run (create env p (or_dir mode)); pure (code r)
dispatch env (unlink p) = unlink_file env p
dispatch env (rmdir p) = remove_dir env p
dispatch env (symlink p q) = unsupported
dispatch env (move p q) = do r ← run (rename env p q); pure (code r)
dispatch env (link p q) = unsupported
dispatch env (chmod p mode) = unsupported
dispatch env (chown p uid gid) = unsupported
dispatch env (trunc p size) = truncate_path env p size
dispatch env (set_time p t) = do r ← run (utime p t); pure (code r)
dispatch env (open_file p) = open_path env p
dispatch env (create_file p mode) = create_path env p mode
dispatch env c = file_call env c
