-- ===== src/Event/Tasks/Tests.antt =====
-- A task queued while the loop runs another one.
use network_lirbary.Common.{ℕ, ◌≡◌, refl, true, false, List, [], ◌∷◌, some}
use network_lirbary.Event.Tasks.{
  Queue, polling, Step, run_in_loop, wakes, polls, swaps, runs, new, push, wake_up, eventfd_write,
  poll_in, swap_in, run_in, step, run,
}
use network_lirbary.Event.Tasks.Order.{all_tasks, IsAwake, run-IsAwake}

-- Task 2 is pushed after the swap that takes task 1, and its wake-up comes last.
abbrev steps : List (Step ℕ)
steps =
    run_in_loop false 1
    ∷ wakes
    ∷ polls
    ∷ swaps
    ∷ run_in_loop false 2
    ∷ runs
    ∷ run_in_loop true 3
    ∷ runs
    ∷ wakes
    ∷ []

abbrev reached : Queue ℕ
reached = record {
  phase = polling;
  running = true;
  wakeups = 1;
  owed = 0;
  pending_tasks = 2 ∷ [];
  tasks = [];
  done = 1 ∷ [];
  at_once = 3 ∷ [];
}

steps-reached : run new steps ≡ some reached
unfolding run step new push wake_up eventfd_write poll_in swap_in run_in
steps-reached = refl

run-IsAwake_example : (all_tasks reached ≡ 1 ∷ 2 ∷ []) × IsAwake reached
run-IsAwake_example = run-IsAwake steps reached steps-reached
