-- ===== src/System/Running/Watched.antt =====
-- The writer thread against writeTriggered: where it is set.
use wwdedup.Cache.Loop.{
  Place, Writer, finished, move_from, sleeping, started, starting, testing, waiting, working,
  writer_step,
}
use wwdedup.Cache.Storage.{write_out}
use wwdedup.Cache.Writer.{evict, run_round, save_all, save_block, save_each, to_delete}
use wwdedup.Database.Pointers.{set_block}
use wwdedup.Effects.{Outcome, aborts, continue, hangs, ok, pure, throws, try_catch, ◌>>=◌}
use wwdedup.Effects.Logic.{
  Guards-bind, Ends, Guards, Guards-gets, Guards-if, Guards-modify, Guards-pure,
}
use wwdedup.Fs.Service.{Service}
use wwdedup.Prelude.{
  Bool, Bool-cases, List, [], arith, false, if◌then◌else◌, inl, inr, min, refl, subst, true, ℕ,
  ◌&&◌, ◌∷◌, ◌≡◌, ◌⊎◌,
}
use wwdedup.State.{Env, World, faulty, faulty-cases}
use wwdedup.System.Running.{
  Reach, Running, Step, calls, has_mutex, here, moves, next, passes, stops, triggered,
}
use wwdedup.Types.{StorageBlock}

-- A round sets write_triggered once, and leaves it.
abbrev pub Triggers : Bool → World → Type 0
Triggers b w = w.write_triggered ≡ b

module _ {b : Bool} where
  Guards-faulty : Guards (Triggers b) faulty
  Guards-faulty = record { at = λ w h. let (f, rest, e) = faulty-cases w in rw e h }

  Guards-save_block : (c : StorageBlock) → Guards (Triggers b) (save_block c)
  unfolding save_block write_out set_block
  Guards-save_block c =
      Guards-if _ _ _
        (Guards-bind _ _
          (Guards-bind _ _ Guards-faulty
            (λ f. Guards-if _ _ _ (Guards-pure tt) (Guards-modify _ (λ w h. h))))
          (λ _. Guards-modify _ (λ w h. h)))
        (Guards-pure tt)

  Guards-save_all : (bs : List StorageBlock) (t : ℕ) → Guards (Triggers b) (save_all bs t)
  unfolding save_all
  Guards-save_all [] t = Guards-pure t
  Guards-save_all (c ∷ bs) t =
      Guards-bind _ _ (Guards-save_block c) (λ _. Guards-save_all bs (min t c.atime))

  Guards-save_each : (bs : List StorageBlock) → Guards (Triggers b) (save_each bs)
  unfolding save_each
  Guards-save_each [] = Guards-pure tt
  Guards-save_each (c ∷ bs) = Guards-bind _ _ (Guards-save_block c) (λ _. Guards-save_each bs)

  Guards-evict : (t : ℕ) → Guards (Triggers b) (evict t)
  unfolding evict
  Guards-evict t = Guards-bind _ _ (Guards-gets _) λ bs.
      Guards-if _ _ _
        (Guards-bind _ _ (Guards-save_each (to_delete t 0 bs)) λ _.
          Guards-bind _ _ (Guards-modify _ (λ w h. h))
            λ _. Guards-bind _ _ (Guards-gets _) (λ left. Guards-pure _))
        (Guards-pure false)

pub run_round-Triggers :
    (repeat : Bool) (w : World)
    → let P = Triggers (repeat && w.write_triggered) in Ends (λ _. P) P (run_round repeat w)
unfolding run_round ◌>>=◌
run_round-Triggers repeat w =
    (Guards-bind _ _ (Guards-gets (λ (v : World). v.now)) λ now.
        Guards-bind _ _ (Guards-gets (λ (v : World). v.blocks))
          λ bs. Guards-bind _ _ (Guards-save_all bs now) (λ t. Guards-evict t)).at
      (record w { write_triggered = repeat && w.write_triggered }) refl

-- What holds at each place of the thread; `b` is writeTriggered.
abbrev pub WatchedAt : Place → Writer → Bool → Type 0
WatchedAt starting t b = t.repeat ≡ false
WatchedAt testing t b = (t.repeat && b) ≡ false
WatchedAt waiting t b = t.repeat ≡ false
WatchedAt working t b = (t.repeat && b) ≡ false
WatchedAt sleeping t b = b ≡ false
WatchedAt finished t b = t.terminated ≡ true

-- writeTriggered is set only before the thread has locked writerMutex, at the first test after
-- that, in the wait and behind it before the loops, where no round is being repeated, or where the
-- thread has ended because the cache was stopped.
abbrev pub IsWatched : Running → Type 0
IsWatched s = WatchedAt s.thread.place s.thread (triggered s)

abbrev Watches : Writer → World → Type 0
Watches t w = WatchedAt t.place t w.write_triggered

tested :
    (t : Writer) (w : World)
    → (t.repeat && w.write_triggered) ≡ false
    → Watches
        (record t {
          place = if t.terminated then finished else if t.repeat then working else waiting;
        })
        w
tested t w e = elim (Bool-cases t.terminated) [
  | inl over ↦ rw over refl
  | inr on ↦ rw on (elim (Bool-cases t.repeat) [
    | inl again ↦ rw again (ground (arith, again, e))
    | inr once ↦ rw once refl
  ])
]

worked :
    (t : Writer) (r : Outcome Bool × World)
    → Ends (λ _. Triggers false) (Triggers false) r
    → Ends Watches
        (λ _. Unit {0})
        (try_catch
          (λ _. continue r.0 (λ again. pure (record t { place = sleeping; repeat = again })) r.1)
          (pure (record t { place = testing; repeat = false }))
          r.1)
worked t (ok again, w) h = h
worked t (throws, w) h = refl
worked t (aborts, w) h = tt
worked t (hangs, w) h = tt

step_watched :
    (t : Writer) (w : World) (p : Place)
    → t.place ≡ p
    → WatchedAt p t w.write_triggered
    → Ends Watches (λ _. Unit {0}) (move_from t p w)
unfolding ◌>>=◌
step_watched t w starting e h = rw h refl
step_watched t w testing e h = tested t w h
step_watched t w waiting e h = rw h refl
step_watched t w working e h = worked t (run_round t.repeat w) (
    subst (λ b. Ends (λ _. Triggers b) (Triggers b) (run_round t.repeat w)) h
      (run_round-Triggers t.repeat w))
step_watched t w sleeping e h = ground (arith, h)
step_watched t w finished e h = rw e h

moved : (t u : Writer) (w v : World) → writer_step t w ≡ (ok u, v) → Watches t w → Watches u v
unfolding writer_step
moved t u w v e h = subst (λ x. Ends Watches (λ _. Unit {0}) x) e (step_watched t w t.place refl h)

untouched :
    (t : Writer) (w v : World)
    → t.terminated ≡ false
    → (has_mutex t.place ≡ false) ⊎ (v.write_triggered ≡ w.write_triggered)
    → Watches t w
    → Watches t v
untouched t w v on (inl free) h = by_place t.place free h
  where
    by_place :
        (p : Place)
        → has_mutex p ≡ false
        → WatchedAt p t w.write_triggered
        → WatchedAt p t v.write_triggered
    by_place starting e k = k
    by_place waiting e k = k
    by_place finished e k = k
    by_place testing e k = cc
    by_place working e k = cc
    by_place sleeping e k = cc
untouched t w v on (inr same) h = rw same h

stopped :
    (p : Place) (t : Writer) (b : Bool)
    → WatchedAt p t b
    → WatchedAt p (record t { terminated = true }) b
stopped starting t b h = h
stopped testing t b h = h
stopped waiting t b h = h
stopped working t b h = h
stopped sleeping t b h = h
stopped finished t b h = refl

Step-IsWatched : {env : Env} {s u : Running} → Step env s u → IsWatched s → IsWatched u
Step-IsWatched (calls i c r s m e on free) h =
    untouched s.thread s.service.mount.world m.mount.world on free h
Step-IsWatched (moves s t w e) h = moved s.thread t s.service.mount.world w e h
Step-IsWatched (stops s) h = stopped s.thread.place s.thread (triggered s) h
Step-IsWatched (passes now faults s) h = h

pub Reach-IsWatched :
    (env : Env) (m : Service) (u : Running)
    → Reach env (record { service = m; thread = started }) u
    → IsWatched u
Reach-IsWatched env m u here = refl
Reach-IsWatched env m u (next r st) = Step-IsWatched st (Reach-IsWatched env m _ r)
