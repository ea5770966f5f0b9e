-- ===== src/Cache/Loop.antt =====
-- blockscache.cpp: BlocksCache::run as the places of its thread, and the destructor that waits for
-- its end.
pub mod Stopping
use wwdedup.Cache.Writer.{run_round}
use wwdedup.Effects.{hang, pure, try_catch, ◌>>=◌}
use wwdedup.Prelude.{Bool, false, if◌then◌else◌, suc, true, zero, ℕ}
use wwdedup.State.{M}

-- Where the thread is: before it has locked writerMutex, at the test `while (!terminated)`, in
-- wait_for, in the loops over the cached blocks, in the millisecond of sleep_for, or at its end. It
-- holds writerMutex but at the first place, in wait_for and at its end.
pub data Place : Type 0 where
  starting : Place
  testing : Place
  waiting : Place
  working : Place
  sleeping : Place
  finished : Place

-- The thread: its place and its local `repeat`, and the member `terminated`.
pub record Writer : Type 0 where
  pub place : Place
  pub repeat : Bool
  pub terminated : Bool

-- The thread as the constructor starts it.
abbrev pub started : Writer
started = record { place = starting; repeat = false; terminated = false }

abbrev pub move_from : Writer → Place → M Writer
move_from t starting = pure (record t { place = testing })
move_from t testing =
    pure (record t {
      place = if t.terminated then finished else if t.repeat then working else waiting;
    })
move_from t waiting = pure (record t { place = working })
move_from t working =
    try_catch (do again ← run_round t.repeat; pure (record t { place = sleeping; repeat = again }))
      (pure (record t { place = testing; repeat = false }))
move_from t sleeping = pure (record t { place = testing })
move_from t finished = pure t

-- The next move of the thread. The wait ends by itself after five seconds, or by a sync, also one
-- that came before it.
unfoldable pub writer_step : Writer → M Writer
unfolding run_round
writer_step t = move_from t t.place

abbrev pub is_finished : Place → Bool
is_finished finished = true
is_finished place = false

-- thr.join(), for a thread that ends within so many moves
unfoldable pub join_writer : ℕ → Writer → M Writer
unfolding writer_step
join_writer zero t = if is_finished t.place then pure t else hang
join_writer (suc moves) t =
    if is_finished t.place then pure t else do next ← writer_step t; join_writer moves next

-- BlocksCache::~BlocksCache of the object with the thread: terminated = true, and the join.
unfoldable pub stop_writer : Writer → M Writer
unfolding join_writer
stop_writer t = join_writer 4 (record t { terminated = true })

-- So many moves of the thread.
unfoldable pub move_times : ℕ → Writer → M Writer
unfolding writer_step
move_times zero t = pure t
move_times (suc n) t = do next ← writer_step t; move_times n next
