-- ===== src/System/Running.antt =====
-- The states of a mount with its writer thread, move by move.
pub mod Watched
pub mod Synced
use wwdedup.Cache.Loop.{Place, Writer, finished, starting, waiting, writer_step}
use wwdedup.Effects.{ok}
use wwdedup.Fs.Calls.{Call, Reply}
use wwdedup.Fs.Service.{Service}
use wwdedup.Fs.Wrap.{wrapped}
use wwdedup.Prelude.{Bool, List, false, true, ℕ, ◌≡◌, ◌⊎◌}
use wwdedup.State.{Env, World}

pub record Running : Type 0 where
  pub service : Service
  pub thread : Writer

abbrev pub triggered : Running → Bool
triggered s = s.service.mount.world.write_triggered

-- The places where the thread does not hold writerMutex, so that a sync gets past its lock.
abbrev pub has_mutex : Place → Bool
has_mutex starting = false
has_mutex waiting = false
has_mutex finished = false
has_mutex p = true

abbrev in_service : World → Service → Service
in_service w v = record v { mount = record v.mount { world = w } }

-- One step. A thread of FUSE makes calls only until fuse_main returns, before which the cache is not
-- stopped; a call that sets writeTriggered does so under writerMutex.
pub data Step (env : Env) : Running → Running → Type 0 where
  calls :
      (t : ℕ) (c : Call) (r : Reply) (s : Running) (m : Service)
      → wrapped env t c s.service ≡ (ok r, m)
      → s.thread.terminated ≡ false
      → (has_mutex s.thread.place ≡ false)
        ⊎ (m.mount.world.write_triggered ≡ s.service.mount.world.write_triggered)
      → Step env s (record s { service = m })
  moves :
      (s : Running) (t : Writer) (w : World)
      → writer_step s.thread s.service.mount.world ≡ (ok t, w)
      → Step env s (record { service = in_service w s.service; thread = t })
  stops : (s : Running) → Step env s (record s { thread = record s.thread { terminated = true } })
  passes :
      (now : ℕ) (faults : List Bool) (s : Running)
      → Step env s (record s {
        service =
            in_service (record s.service.mount.world { now = now; faults = faults }) s.service;
      })

pub data Reach (env : Env) (s : Running) : Running → Type 0 where
  here : Reach env s s
  next : {t u : Running} → Reach env s t → Step env t u → Reach env s u
