-- ===== src/Logger/Async/Moments.antt =====
-- The logger over interleavings that `Shutdown` is part of.
use network_lirbary.Common.{Bool, List, [], ◌∷◌, ◌++◌}
use network_lirbary.Logger.Async.{AsyncLogger, try_enqueue, enqueue_locked, take_back}
use network_lirbary.Logger.Async.Events.{settle, taken, Event, step, accepts}

-- A step, the first of `Shutdown`, or a call that read `running_` earlier and has the lock now.
pub data Moment (Entry : Type 0) : Type 0 where
  happens : Event Entry → Moment Entry
  stops : Moment Entry
  enters : Entry → Moment Entry
  enters_until : Bool → Entry → Moment Entry

module _ {Entry : Type 0} where
  unfoldable pub pass : AsyncLogger Entry → Moment Entry → AsyncLogger Entry
  pass l (happens v) = step l v
  pass l stops = take_back l
  pass l (enters e) = settle l (try_enqueue l e)
  pass l (enters_until timed_out e) = settle l (enqueue_locked l e timed_out)

  unfoldable pub pushed_by : AsyncLogger Entry → Moment Entry → List Entry
  pushed_by l (happens v) = accepts l v
  pushed_by l stops = []
  pushed_by l (enters e) = taken e (try_enqueue l e)
  pushed_by l (enters_until timed_out e) = taken e (enqueue_locked l e timed_out)

  unfoldable pub pass_all : AsyncLogger Entry → List (Moment Entry) → AsyncLogger Entry
  pass_all l [] = l
  pass_all l (m ∷ ms) = pass_all (pass l m) ms

  -- The entries for which a call returns true, in order.
  unfoldable pub pushed_in : AsyncLogger Entry → List (Moment Entry) → List Entry
  pushed_in l [] = []
  pushed_in l (m ∷ ms) = pushed_by l m ++ pushed_in (pass l m) ms
