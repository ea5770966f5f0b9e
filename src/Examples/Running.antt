-- ===== src/Examples/Running.antt =====
-- Instances of the theorems on the writer thread.
use wwdedup.Cache.Contents.{on_disk, stored}
use wwdedup.Cache.Contents.Flushed.{IsBacked, is_dirty}
use wwdedup.Cache.Loop.{
  Writer, finished, sleeping, started, stop_writer, testing, waiting, writer_step,
}
use wwdedup.Cache.Loop.Stopping.{stop_writer-on_disk, stop_writer-skips}
use wwdedup.Cache.Storage.{is_nil}
use wwdedup.Database.Pointers.{has_num}
use wwdedup.Effects.{ok, ◌>>=◌}
use wwdedup.Examples.Setup.{small_env}
use wwdedup.Examples.Stored.{stored_block, stored_block-IsCache, stored_world}
use wwdedup.Fs.Calls.{code, fsync}
use wwdedup.Fs.Errors.{Refused, wrapped-Refused}
use wwdedup.Fs.Service.{Service, has_instance}
use wwdedup.Fs.Wrap.{wrapped}
use wwdedup.Prelude.{
  Bool, Bool-cases, [], arith, false, find_first, inl, inr, none, pos, refl, some, true, ℕ, ◌∷◌,
  ◌≡◌, ◌≤◌,
}
use wwdedup.System.Running.{Reach, Running, calls, here, moves, next}
use wwdedup.System.Running.Synced.{Reach-synced, Saves}
use wwdedup.Types.{Bytes, StorageBlock}

abbrev in_wait : Writer
in_wait = record { place = waiting; repeat = false; terminated = false }

stored_world-IsBacked : (n : ℕ) → IsBacked stored_world (find_first (has_num n) (stored_block ∷ []))
unfolding is_nil
stored_world-IsBacked n = elim (Bool-cases (has_num n stored_block)) [
  | inl same ↦ rw same ((λ d. refl), (λ c. absurd (ground (arith, c))))
  | inr other ↦ rw other tt
]

stop_writer-on_disk_example :
    let after = (stop_writer in_wait stored_world).1 in
    ((again : Bool) × ((stop_writer in_wait stored_world).0
        ≡ ok (record in_wait { place = finished; repeat = again; terminated = true })))
    × (find_first is_dirty after.blocks ≡ none)
    × ((n : ℕ) (c : Bytes)
        → stored n stored_world ≡ some c
        → on_disk after.disk after.disk_blocks n ≡ some c)
unfolding is_nil
stop_writer-on_disk_example =
    stop_writer-on_disk in_wait stored_world (inl refl) refl stored_block-IsCache
      stored_world-IsBacked

abbrev asleep : Writer
asleep = record { place = sleeping; repeat = false; terminated = false }

stop_writer-skips_example :
    let after = (stop_writer asleep stored_world).1 in
    ((stop_writer asleep stored_world).0
      ≡ ok (record asleep { place = finished; repeat = false; terminated = true }))
    × ((c : StorageBlock) × (find_first (has_num 1) after.blocks ≡ some c) × (c.dirty ≡ true))
    × ((m : ℕ) → on_disk after.disk after.disk_blocks m ≡ on_disk (λ _. []) 1 m)
stop_writer-skips_example =
    stop_writer-skips asleep stored_world 1 stored_block (inr refl) refl refl

-- A mount whose tables are there, and the DedupFS of thread 1.
abbrev idle : Service
idle = record {
  mount = record { world = stored_world; handles = []; next_fh = 0 };
  init_done = true;
  schema = record { has_files = true; has_file_blocks = true; has_block_hashes = true };
  instances = 1 ∷ [];
}

-- The call sync is made before the thread has locked writerMutex.
abbrev synced_service : Service
synced_service = (wrapped small_env 1 (fsync 0) idle).1

abbrev begun : Running
begun = record { service = idle; thread = started }

abbrev synced_start : Running
synced_start = record { service = synced_service; thread = started }

-- Then the thread makes its first test.
abbrev about_to_wait : Running
about_to_wait = record { service = synced_service; thread = in_wait }

run : Reach small_env begun about_to_wait
unfolding wrapped writer_step has_instance ◌>>=◌
run =
    next
      (next (next here (calls 1 (fsync 0) (code (pos 0)) begun synced_service refl refl (inl refl)))
        (moves synced_start (record started { place = testing }) synced_service.mount.world refl))
      (moves (record synced_start { thread = record started { place = testing } }) in_wait
        synced_service.mount.world refl)

Reach-synced_example : (steps : ℕ) × (steps ≤ 4) × Saves in_wait synced_service.mount.world steps
unfolding wrapped has_instance ◌>>=◌
Reach-synced_example =
    Reach-synced small_env idle about_to_wait run refl refl refl stored_block-IsCache

-- A process in which init has left a table out.
abbrev lacking : Service
lacking = record idle {
  schema = record { has_files = true; has_file_blocks = false; has_block_hashes = true };
}

wrapped-Refused_example : Refused (wrapped small_env 2 (fsync 0)) lacking
unfolding has_instance
wrapped-Refused_example = wrapped-Refused small_env 2 lacking refl refl refl (fsync 0)
