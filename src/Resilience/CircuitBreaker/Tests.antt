-- ===== src/Resilience/CircuitBreaker/Tests.antt =====
-- An open breaker with a timeout of three seconds, which one request has seen.
use network_lirbary.Common.{◌≡◌, refl, true, false, List, [], ◌∷◌, All, arith}
use network_lirbary.Resilience.CircuitBreaker.{
  CircuitBreaker, open_state, half_open, close_breaker, on_failure,
}
use network_lirbary.Resilience.CircuitBreaker.Threads.{
  Shared, Step, asks, decides, succeeds, passes, fails, step, answer, run, answers, run-refuses,
}

abbrev opened : CircuitBreaker
opened = record {
  failure_threshold = 2;
  reset_timeout = 3;
  state = open_state;
  failure_count = 2;
  success_count = 0;
  last_failure_time = 1000;
}

abbrev shared : Shared
shared = record { breaker = opened; requests = 1; successes = 0 }

abbrev early : List Step
early = asks ∷ decides 2000 ∷ succeeds ∷ fails 5000 ∷ decides 3000000000 ∷ []

run-refuses_example :
    ((run shared early).breaker.state ≡ open_state) × All (λ a. a ≡ false) (answers shared early)
run-refuses_example = run-refuses shared early refl refl (
  tt,
  (
    (omega arith, omega arith),
    (tt, ((omega arith, omega arith), ((omega arith, omega arith), tt))),
  ),
)

-- A success sees the probe, a failure opens the breaker again, and then the success closes it.
abbrev probed : Shared
probed = record { breaker = record opened { state = half_open }; requests = 0; successes = 0 }

late_success : answers probed (succeeds ∷ fails 4000000000 ∷ passes ∷ asks ∷ []) ≡ true ∷ []
unfolding answers answer step on_failure close_breaker
late_success = refl
