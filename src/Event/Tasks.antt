-- ===== src/Event/Tasks.antt =====
-- The task queue of `EventLoop` in lib_network/src/event/event_loop.cc, shared by all threads:
-- `RunInLoop`, `QueueInLoop`, `WakeUp`, `HandleRead` and `Stop`, as atomic steps. The lock makes
-- a push and the swap atomic; a push and its wake-up, and the read of the eventfd and the swap,
-- are separate steps between which other threads may take theirs.
pub mod Order
mod Tests
use network_lirbary.Common.{
  ℕ, zero, suc, ◌+◌, ◌-◌, ◌^◌, Bool, true, false, ◌==◌, ltb, if◌then◌else◌, List, [], ◌∷◌, ◌++◌,
  Option, none, some,
}

-- Where the loop's thread is: before `Poll` returns, in `HandleRead` behind the read of the
-- eventfd, or in its loop over the tasks taken.
pub data Phase : Type 0 where
  polling drained running_tasks : Phase

pub record Queue (Task : Type 0) : Type 0 where
  pub phase : Phase
  pub running : Bool
  -- The counter of the eventfd.
  pub wakeups : ℕ
  -- The threads that have pushed a task, or called `Stop`, and not yet woken the loop.
  pub owed : ℕ
  pub pending_tasks : List Task
  pub tasks : List Task
  -- The queued tasks run so far, in order, and those run at once.
  pub done : List Task
  pub at_once : List Task

-- `eventfd` takes a write unless its counter would reach 2^64 - 1; the code ignores the failure.
unfoldable pub eventfd_write : ℕ → ℕ
eventfd_write n = if ltb (n + 1) (2 ^ 64 - 1) then n + 1 else n

-- The steps of the threads.
pub data Step (Task : Type 0) : Type 0 where
  -- `RunInLoop`: on the loop's thread the task runs at once, else it is queued.
  run_in_loop : Bool → Task → Step Task
  wakes stops polls swaps runs : Step Task

module _ {Task : Type 0} where
  -- The queue once `Run` has set `running_`.
  unfoldable pub new : Queue Task
  new = record {
    phase = polling;
    running = true;
    wakeups = 0;
    owed = 0;
    pending_tasks = [];
    tasks = [];
    done = [];
    at_once = [];
  }

  -- The push of `QueueInLoop`.
  unfoldable pub push : Task → Queue Task → Queue Task
  push t q = record q { pending_tasks = q.pending_tasks ++ t ∷ []; owed = suc q.owed }

  -- `WakeUp`, by a thread that owes it.
  unfoldable pub wake_up : ℕ → Queue Task → Option (Queue Task)
  wake_up zero q = none
  wake_up (suc n) q = some (record q { owed = n; wakeups = eventfd_write q.wakeups })

  -- `Stop`, up to its `WakeUp`.
  unfoldable pub stop : Queue Task → Queue Task
  stop q = record q { running = false; owed = suc q.owed }

  -- `Poll` returns, since the eventfd is readable, and `HandleRead` reads it.
  unfoldable pub poll_in : Phase → Queue Task → Option (Queue Task)
  poll_in polling q =
      if ltb 0 q.wakeups then some (record q { phase = drained; wakeups = 0 }) else none
  poll_in drained q = none
  poll_in running_tasks q = none

  -- `tasks.swap(pending_tasks_)`.
  unfoldable pub swap_in : Phase → Queue Task → Option (Queue Task)
  swap_in polling q = none
  swap_in drained q =
      some (record q { phase = running_tasks; tasks = q.pending_tasks; pending_tasks = [] })
  swap_in running_tasks q = none

  -- The next task of `HandleRead`'s loop, or its end; then `while (running_)`.
  unfoldable pub run_in : Phase → List Task → Queue Task → Option (Queue Task)
  run_in polling ts q = none
  run_in drained ts q = none
  run_in running_tasks [] q = some (record q { phase = polling })
  run_in running_tasks (t ∷ ts) q = some (record q { tasks = ts; done = q.done ++ t ∷ [] })

  -- A step, if it is possible.
  unfoldable pub step : Queue Task → Step Task → Option (Queue Task)
  step q (run_in_loop true t) = some (record q { at_once = q.at_once ++ t ∷ [] })
  step q (run_in_loop false t) = some (push t q)
  step q wakes = wake_up q.owed q
  step q stops = some (stop q)
  step q polls = if q.running then poll_in q.phase q else none
  step q swaps = swap_in q.phase q
  step q runs = run_in q.phase q.tasks q

  unfoldable pub run : Queue Task → List (Step Task) → Option (Queue Task)
  run q [] = some q
  run q (s ∷ ss) = elim (step q s) [ none ↦ none | some q' ↦ run q' ss ]
