-- ===== src/Fs/Errors.antt =====
-- wrap.cpp: what FUSE gets on a thread whose DedupFS cannot be made.
use wwdedup.Database.Opening.Opened.{is_complete, open_database-lacking}
use wwdedup.Effects.{◌>>◌, Exec, ok, throws, try_catch, ◌>>=◌}
use wwdedup.Fs.Calls.{
  Call, Reply, chmod, chown, code, create_file, dispatch, flush, fsync, fsyncdir, ftrunc, getattr,
  getxattr, link, list, listxattr, mkdir, mknod, move, open_file, opendir, read, readlink, release,
  releasedir, removexattr, rmdir, set_time, setxattr, statfs, symlink, trunc, unlink, write,
}
use wwdedup.Fs.Service.{Service, has_instance, instance_for, on_mount, process_of}
use wwdedup.Fs.Wrap.{failed, wrapped, wrapped_file}
use wwdedup.Prelude.{Bool, List, false, neg, refl, true, ℕ, ◌≡◌}
use wwdedup.State.{Env}
use wwdedup.Types.Modes.{eio}

abbrev pub with_faults : List Bool → Service → Service
with_faults rest v = record v {
  mount = record v.mount { world = record v.mount.world { faults = rest } };
}

-- The call answers -EIO, and takes some calls of SQLite that may fail.
abbrev pub Refused : Exec Service Reply → Service → Type 0
Refused m v = (rest : List Bool) × (m v ≡ (ok (code (neg eio)), with_faults rest v))

module _ (env : Env) (t : ℕ) (v : Service) (none_yet : has_instance t v.instances ≡ false)
    (done : v.init_done ≡ true) (lacking : is_complete v.schema ≡ false) where
  instance_throws : (rest : List Bool) × (instance_for env t v ≡ (throws, with_faults rest v))
  unfolding instance_for ◌>>=◌
  instance_throws =
      let (rest, e) = open_database-lacking env (process_of v) done lacking in
      (rest, rw none_yet (rw e refl))

  caught : (m : Exec Service Reply) → Refused (try_catch (do instance_for env t; m) failed) v
  unfolding ◌>>=◌
  caught m = let (rest, e) = instance_throws in (rest, rw e refl)

  -- Where init has run in the process and left a table out, each call on a thread that has no
  -- DedupFS yet answers -EIO, and the mount, its handles and the threads that have a DedupFS stay
  -- as they are, but for the calls of SQLite that it takes.
  pub wrapped-Refused : (c : Call) → Refused (wrapped env t c) v
  unfolding wrapped wrapped_file
  wrapped-Refused (getattr p) = caught (on_mount (dispatch env (getattr p)))
  wrapped-Refused (readlink p) = caught (on_mount (dispatch env (readlink p)))
  wrapped-Refused (mknod p mode) = caught (on_mount (dispatch env (mknod p mode)))
  wrapped-Refused (mkdir p mode) = caught (on_mount (dispatch env (mkdir p mode)))
  wrapped-Refused (unlink p) = caught (on_mount (dispatch env (unlink p)))
  wrapped-Refused (rmdir p) = caught (on_mount (dispatch env (rmdir p)))
  wrapped-Refused (symlink p q) = caught (on_mount (dispatch env (symlink p q)))
  wrapped-Refused (move p q) = caught (on_mount (dispatch env (move p q)))
  wrapped-Refused (link p q) = caught (on_mount (dispatch env (link p q)))
  wrapped-Refused (chmod p mode) = caught (on_mount (dispatch env (chmod p mode)))
  wrapped-Refused (chown p uid gid) = caught (on_mount (dispatch env (chown p uid gid)))
  wrapped-Refused (trunc p size) = caught (on_mount (dispatch env (trunc p size)))
  wrapped-Refused (set_time p now) = caught (on_mount (dispatch env (set_time p now)))
  wrapped-Refused (open_file p) = caught (on_mount (dispatch env (open_file p)))
  wrapped-Refused (create_file p mode) = caught (on_mount (dispatch env (create_file p mode)))
  wrapped-Refused (read fh size offset) = caught (on_mount (dispatch env (read fh size offset)))
  wrapped-Refused (write fh buf offset) = caught (on_mount (dispatch env (write fh buf offset)))
  wrapped-Refused (statfs p) = caught (on_mount (dispatch env (statfs p)))
  wrapped-Refused (flush fh) = caught (on_mount (dispatch env (flush fh)))
  wrapped-Refused (release fh) = caught (on_mount (dispatch env (release fh)))
  wrapped-Refused (fsync fh) = caught (on_mount (dispatch env (fsync fh)))
  wrapped-Refused (setxattr p) = caught (on_mount (dispatch env (setxattr p)))
  wrapped-Refused (getxattr p) = caught (on_mount (dispatch env (getxattr p)))
  wrapped-Refused (listxattr p) = caught (on_mount (dispatch env (listxattr p)))
  wrapped-Refused (removexattr p) = caught (on_mount (dispatch env (removexattr p)))
  wrapped-Refused (opendir p) = caught (on_mount (dispatch env (opendir p)))
  wrapped-Refused (list fh full) = caught (on_mount (dispatch env (list fh full)))
  wrapped-Refused (releasedir fh) = caught (on_mount (dispatch env (releasedir fh)))
  wrapped-Refused (fsyncdir fh) = caught (on_mount (dispatch env (fsyncdir fh)))
  wrapped-Refused (ftrunc fh size) = caught (on_mount (dispatch env (ftrunc fh size)))
