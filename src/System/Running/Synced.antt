-- ===== src/System/Running/Synced.antt =====
-- A sync and the round of the writer thread that follows it.
-- The thread goes through its loops and then sleeps, with no dirty block and no sync left.
use wwdedup.Cache.Contents.{IsCache}
use wwdedup.Cache.Contents.Durable.{run_round-clean}
use wwdedup.Cache.Contents.Flushed.{is_dirty}
use wwdedup.Cache.Loop.{
  Place, Writer, finished, move_times, sleeping, started, starting, testing, waiting, working,
  writer_step,
}
use wwdedup.Cache.Loop.Stopping.{round_returns}
use wwdedup.Cache.Writer.{run_round}
use wwdedup.Effects.{Outcome, aborts, hangs, ok, throws, ◌>>=◌}
use wwdedup.Effects.Logic.{Ends}
use wwdedup.Fs.Service.{Service}
use wwdedup.Prelude.{subst, Bool, [], arith, false, find_first, none, refl, true, ℕ, ◌≡◌, ◌≤◌}
use wwdedup.State.{Env, World}
use wwdedup.System.Running.{Reach, Running, triggered}
use wwdedup.System.Running.Watched.{Reach-IsWatched, Triggers, WatchedAt, run_round-Triggers}

abbrev pub Saves : Writer → World → ℕ → Type 0
Saves t w k =
    let r = move_times k t w in
    ((again : Bool) × (r.0 ≡ ok (record t { place = sleeping; repeat = again })))
    × (r.1.write_triggered ≡ false)
    × (find_first is_dirty r.1.blocks ≡ none)

module _ (w : World) (q : w.faults ≡ []) (k : IsCache w.next_serial w.blocks) where
  abbrev at : Place → Writer
  at p = record { place = p; repeat = false; terminated = false }

  round_resets : (run_round false w).1.write_triggered ≡ false
  round_resets = by_end (run_round false w) (run_round-Triggers false w) (round_returns false w q k)
    where
      by_end :
          (r : Outcome Bool × World)
          → Ends (λ _. Triggers false) (Triggers false) r
          → ((again : Bool) × (r ≡ (ok again, r.1)))
          → r.1.write_triggered ≡ false
      by_end (ok a, v) h e = h
      by_end (throws, v) h e = h
      by_end (aborts, v) h (again, e) = cc
      by_end (hangs, v) h (again, e) = cc

  round_from :
      (p : Place) (steps : ℕ)
      → ((again : Bool)
          → run_round false w ≡ (ok again, (run_round false w).1)
          → move_times steps (at p) w
            ≡ (ok (record (at p) { place = sleeping; repeat = again }), (run_round false w).1))
      → Saves (at p) w steps
  round_from p steps run =
      let (again, r) = round_returns false w q k in
      rw (run again r) ((again, refl), round_resets, run_round-clean false w q k)

  saves : (p : Place) → WatchedAt p (at p) true → (steps : ℕ) × (steps ≤ 4) × Saves (at p) w steps
  unfolding move_times writer_step ◌>>=◌
  saves starting h = (4, omega arith, round_from starting 4 (λ again r. rw r refl))
  saves testing h = (3, omega arith, round_from testing 3 (λ again r. rw r refl))
  saves waiting h = (2, omega arith, round_from waiting 2 (λ again r. rw r refl))
  saves working h = (1, omega arith, round_from working 1 (λ again r. rw r refl))
  saves sleeping h = cc
  saves finished h = cc

not_repeated :
    (p : Place) (t : Writer)
    → t.terminated ≡ false
    → WatchedAt p t true
    → (t.repeat ≡ false)
      × WatchedAt p (record { place = p; repeat = false; terminated = false }) true
not_repeated starting t on h = (h, refl)
not_repeated testing t on h = (ground (arith, h), refl)
not_repeated waiting t on h = (h, refl)
not_repeated working t on h = (ground (arith, h), refl)
not_repeated sleeping t on h = cc
not_repeated finished t on h = absurd (ground (arith, on, h))

synced :
    (t : Writer) (w : World)
    → w.faults ≡ []
    → IsCache w.next_serial w.blocks
    → t.terminated ≡ false
    → WatchedAt t.place t true
    → (steps : ℕ) × (steps ≤ 4) × Saves t w steps
synced t w q k on h =
    let (once, there) = not_repeated t.place t on h in
    subst (λ x. (steps : ℕ) × (steps ≤ 4) × Saves x w steps) (ground (arith, on, once))
      (saves w q k t.place there)

-- Whatever calls, moves of the writer thread, stops and failures lead on from a mount whose thread
-- has just been started, also calls made before it has locked writerMutex: where writeTriggered is
-- set and the cache is not stopped, no call fails from now on, the cache has each number once and
-- objects do not share a serial, at most four moves of the thread bring it through a round of its
-- loops into its sleep, with writeTriggered cleared and no block dirty.
pub Reach-synced :
    (env : Env) (m : Service) (u : Running)
    → Reach env (record { service = m; thread = started }) u
    → triggered u ≡ true
    → u.thread.terminated ≡ false
    → u.service.mount.world.faults ≡ []
    → IsCache u.service.mount.world.next_serial u.service.mount.world.blocks
    → (steps : ℕ) × (steps ≤ 4) × Saves u.thread u.service.mount.world steps
Reach-synced env m u r set on q k =
    synced u.thread u.service.mount.world q k on
      (subst (λ b. WatchedAt u.thread.place u.thread b) set (Reach-IsWatched env m u r))
