-- ===== src/Fs/Wrap.antt =====
-- wrap.cpp: the C functions that FUSE calls, and main.cpp: which of them it is given.
-- return -EIO;
use wwdedup.Effects.{◌>>◌, Exec, abort, pure, try_catch}
use wwdedup.Fs.Calls.{
  Call, Reply, chmod, chown, code, create_file, dispatch, flush, fsync, fsyncdir, ftrunc, getattr,
  getxattr, link, list, listxattr, mkdir, mknod, move, open_file, opendir, read, readlink, release,
  releasedir, removexattr, rmdir, set_time, setxattr, statfs, symlink, trunc, unlink, write,
}
use wwdedup.Fs.Service.{Service, instance_for, on_mount}
use wwdedup.Prelude.{Bool, Option, false, neg, none, some, true, ℕ}
use wwdedup.State.{Env}
use wwdedup.Types.Modes.{eio}

abbrev pub failed : Exec Service Reply
failed = pure (code (neg eio))

-- wrap_read to wrap_ftruncate, but for wrap_init, on a thread `t`
unfoldable pub wrapped_file : Env → ℕ → Call → Exec Service Reply
unfolding instance_for dispatch
wrapped_file env t (read fh size offset) =
    try_catch (do instance_for env t; on_mount (dispatch env (read fh size offset))) failed
wrapped_file env t (write fh buf offset) =
    try_catch (do instance_for env t; on_mount (dispatch env (write fh buf offset))) failed
wrapped_file env t (statfs p) =
    try_catch (do instance_for env t; on_mount (dispatch env (statfs p))) failed
wrapped_file env t (flush fh) =
    try_catch (do instance_for env t; on_mount (dispatch env (flush fh))) failed
wrapped_file env t (release fh) =
    try_catch (do instance_for env t; on_mount (dispatch env (release fh))) failed
wrapped_file env t (fsync fh) =
    try_catch (do instance_for env t; on_mount (dispatch env (fsync fh))) failed
wrapped_file env t (setxattr p) =
    try_catch (do instance_for env t; on_mount (dispatch env (setxattr p))) failed
wrapped_file env t (getxattr p) =
    try_catch (do instance_for env t; on_mount (dispatch env (getxattr p))) failed
wrapped_file env t (listxattr p) =
    try_catch (do instance_for env t; on_mount (dispatch env (listxattr p))) failed
wrapped_file env t (removexattr p) =
    try_catch (do instance_for env t; on_mount (dispatch env (removexattr p))) failed
wrapped_file env t (opendir p) =
    try_catch (do instance_for env t; on_mount (dispatch env (opendir p))) failed
wrapped_file env t (list fh full) =
    try_catch (do instance_for env t; on_mount (dispatch env (list fh full))) failed
wrapped_file env t (releasedir fh) =
    try_catch (do instance_for env t; on_mount (dispatch env (releasedir fh))) failed
wrapped_file env t (fsyncdir fh) =
    try_catch (do instance_for env t; on_mount (dispatch env (fsyncdir fh))) failed
wrapped_file env t (ftrunc fh size) =
    try_catch (do instance_for env t; on_mount (dispatch env (ftrunc fh size))) failed
-- The calls that `wrapped` answers itself do not come here.
wrapped_file env t _ = abort

-- wrap_getattr to wrap_create, on a thread `t`
unfoldable pub wrapped : Env → ℕ → Call → Exec Service Reply
unfolding instance_for dispatch wrapped_file
wrapped env t (getattr p) =
    try_catch (do instance_for env t; on_mount (dispatch env (getattr p))) failed
wrapped env t (readlink p) =
    try_catch (do instance_for env t; on_mount (dispatch env (readlink p))) failed
wrapped env t (mknod p mode) =
    try_catch (do instance_for env t; on_mount (dispatch env (mknod p mode))) failed
wrapped env t (mkdir p mode) =
    try_catch (do instance_for env t; on_mount (dispatch env (mkdir p mode))) failed
wrapped env t (unlink p) =
    try_catch (do instance_for env t; on_mount (dispatch env (unlink p))) failed
wrapped env t (rmdir p) =
    try_catch (do instance_for env t; on_mount (dispatch env (rmdir p))) failed
wrapped env t (symlink p q) =
    try_catch (do instance_for env t; on_mount (dispatch env (symlink p q))) failed
wrapped env t (move p q) =
    try_catch (do instance_for env t; on_mount (dispatch env (move p q))) failed
wrapped env t (link p q) =
    try_catch (do instance_for env t; on_mount (dispatch env (link p q))) failed
wrapped env t (chmod p mode) =
    try_catch (do instance_for env t; on_mount (dispatch env (chmod p mode))) failed
wrapped env t (chown p uid gid) =
    try_catch (do instance_for env t; on_mount (dispatch env (chown p uid gid))) failed
wrapped env t (trunc p size) =
    try_catch (do instance_for env t; on_mount (dispatch env (trunc p size))) failed
wrapped env t (set_time p now) =
    try_catch (do instance_for env t; on_mount (dispatch env (set_time p now))) failed
wrapped env t (open_file p) =
    try_catch (do instance_for env t; on_mount (dispatch env (open_file p))) failed
wrapped env t (create_file p mode) =
    try_catch (do instance_for env t; on_mount (dispatch env (create_file p mode))) failed
wrapped env t c = wrapped_file env t c

-- DedupFS::Init, which gives the private data of the mount back; wrap_init, null where it fails
unfoldable pub wrap_init : {A : Type 0} → Env → ℕ → A → Exec Service (Option A)
unfolding instance_for
wrap_init env t private_data =
    try_catch (do instance_for env t; pure (some private_data)) (pure none)

-- Whether main enters the function into the table that it hands to fuse_main.
unfoldable pub registered : Call → Bool
registered (setxattr p) = false
registered (getxattr p) = false
registered (listxattr p) = false
registered (removexattr p) = false
registered _ = true
