-- ===== src/Fs/Service.antt =====
-- dedupfs.cpp: DedupFS::Instance, which every function of wrap.cpp calls first.
-- The mount, what the constructor of a DataBase has left in the process, and the threads that have
-- their DedupFS.
use wwdedup.Database.Opening.{Process, Schema, open_database}
use wwdedup.Effects.{◌>>=◌, ◌>>◌, Exec, gets, modify, pure}
use wwdedup.Fs.Mount.{Mount}
use wwdedup.Prelude.{Bool, List, [], false, if◌then◌else◌, true, ℕ, ◌==◌, ◌∷◌}
use wwdedup.State.{Env}

pub record Service : Type 0 where
  pub mount : Mount
  pub init_done : Bool
  pub schema : Schema
  pub instances : List ℕ

-- _instance.get() of a thread
unfoldable pub has_instance : ℕ → List ℕ → Bool
has_instance t [] = false
has_instance t (u ∷ us) = if u == t then true else has_instance t us

abbrev pub process_of : Service → Process
process_of v = record { init_done = v.init_done; schema = v.schema; world = v.mount.world }

abbrev pub with_process : Service → Process → Service
with_process v p = record v {
  mount = record v.mount { world = p.world };
  init_done = p.init_done;
  schema = p.schema;
}

abbrev pub in_process : Exec Process (Unit {0}) → Exec Service (Unit {0})
in_process m v = let (r, p) = m (process_of v) in (r, with_process v p)

-- A method of the DedupFS.
abbrev pub on_mount : {A : Type 0} → Exec Mount A → Exec Service A
on_mount m v = let (r, s) = m v.mount in (r, record v { mount = s })

-- DedupFS::Instance: a thread that has no DedupFS makes a DataBase; the BlocksCache of the thread,
-- which is made then too, is in Cache.Threads.
unfoldable pub instance_for : Env → ℕ → Exec Service (Unit {0})
unfolding has_instance open_database
instance_for env t = do
  own ← gets (λ v. has_instance t v.instances)
  if own then pure tt else (do
    in_process (open_database env)
    modify (λ v. record v { instances = t ∷ v.instances }))
