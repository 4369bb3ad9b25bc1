-- ===== src/Logger/Async/Events.antt =====
-- The logger over interleavings of its producers' calls and its worker's steps.
use network_lirbary.Common.{ℕ, ◌+◌, Bool, true, false, List, [], ◌∷◌, ◌++◌}
use network_lirbary.Logger.Async.{
  AsyncLogger, Outcome, returns, waits, enqueue, enqueue_with_timeout, resume, collect, work,
}

-- A producer's call, a waiting call that is notified, or a step of the worker.
pub data Event (Entry : Type 0) : Type 0 where
  asks : Entry → Event Entry
  asks_until : Bool → Entry → Event Entry
  resumes : Entry → Event Entry
  collects works : Event Entry

abbrev pub settle : {Entry : Type 0} → AsyncLogger Entry → Outcome Entry → AsyncLogger Entry
settle l (returns b l') = l'
settle l waits = l

module _ {Entry : Type 0} where
  unfoldable pub step : AsyncLogger Entry → Event Entry → AsyncLogger Entry
  step l (asks e) = settle l (enqueue l e)
  step l (asks_until timed_out e) = settle l (enqueue_with_timeout l e timed_out)
  step l (resumes e) = settle l (resume l e)
  step l collects = collect l
  step l works = work l

  unfoldable pub run : AsyncLogger Entry → List (Event Entry) → AsyncLogger Entry
  run l [] = l
  run l (v ∷ vs) = run (step l v) vs

  abbrev pub taken : Entry → Outcome Entry → List Entry
  taken e (returns true l) = e ∷ []
  taken e (returns false l) = []
  taken e waits = []

  -- The entry that a step accepts, if it does.
  unfoldable pub accepts : AsyncLogger Entry → Event Entry → List Entry
  accepts l (asks e) = taken e (enqueue l e)
  accepts l (asks_until timed_out e) = taken e (enqueue_with_timeout l e timed_out)
  accepts l (resumes e) = taken e (resume l e)
  accepts l collects = []
  accepts l works = []

  -- The entries for which a call has returned true, in order.
  unfoldable pub accepted : AsyncLogger Entry → List (Event Entry) → List Entry
  accepted l [] = []
  accepted l (v ∷ vs) = accepts l v ++ accepted (step l v) vs

  abbrev pub one_if_returned : Outcome Entry → ℕ
  one_if_returned (returns b l) = 1
  one_if_returned waits = 0

  unfoldable pub answers : AsyncLogger Entry → Event Entry → ℕ
  answers l (asks e) = one_if_returned (enqueue l e)
  answers l (asks_until timed_out e) = one_if_returned (enqueue_with_timeout l e timed_out)
  answers l (resumes e) = one_if_returned (resume l e)
  answers l collects = 0
  answers l works = 0

  -- How many calls have returned, true or false.
  unfoldable pub answered : AsyncLogger Entry → List (Event Entry) → ℕ
  answered l [] = 0
  answered l (v ∷ vs) = answers l v + answered (step l v) vs
