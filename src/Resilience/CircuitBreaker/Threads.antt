-- ===== src/Resilience/CircuitBreaker/Threads.antt =====
-- The circuit breaker under the interleaved steps of many threads. `AllowRequest` and `OnSuccess`
-- read the state first, and only then take the mutex for what they do next; `OnFailure` holds it
-- throughout.
use network_lirbary.Common.{
  ℕ, zero, suc, ◌+◌, ◌*◌, ◌^◌, ◌≤◌, ◌≡◌, Bool, true, false, List, [], ◌∷◌, ◌++◌, All, All-append,
  arith,
}
use network_lirbary.Resilience.CircuitBreaker.{
  State, open_state, half_open, CircuitBreaker, allow_in, close_breaker, on_failure,
}

-- The breaker, and how many calls have read the state and wait for the mutex.
pub record Shared : Type 0 where
  pub breaker : CircuitBreaker
  pub requests : ℕ
  pub successes : ℕ

-- A request reads the state; a request that has seen an open breaker takes the mutex and reads the
-- clock; a success reads the state; a success that has seen a half-open breaker takes the mutex;
-- a failure.
pub data Step : Type 0 where
  asks : Step
  decides : ℕ → Step
  succeeds passes : Step
  fails : ℕ → Step

abbrev asked : State → Shared → Shared
asked open_state s = record s { requests = suc s.requests }
asked _ s = s

-- Of a breaker that is not open, the answer is there at once.
abbrev answered_at_once : State → List Bool
answered_at_once open_state = []
answered_at_once _ = true ∷ []

abbrev decided : ℕ → Shared → ℕ → Shared
decided zero s now = s
decided (suc n) s now = record s { breaker = (allow_in open_state s.breaker now).1; requests = n }

abbrev decision : ℕ → Shared → ℕ → List Bool
decision zero s now = []
decision (suc n) s now = (allow_in open_state s.breaker now).0 ∷ []

abbrev succeeded : State → Shared → Shared
succeeded half_open s = record s { successes = suc s.successes }
succeeded _ s = s

abbrev passed : ℕ → Shared → Shared
passed zero s = s
passed (suc n) s = record s { breaker = close_breaker s.breaker; successes = n }

unfoldable pub step : Shared → Step → Shared
step s asks = asked s.breaker.state s
step s (decides now) = decided s.requests s now
step s succeeds = succeeded s.breaker.state s
step s passes = passed s.successes s
step s (fails now) = record s { breaker = on_failure s.breaker now }

-- What a step answers to a request.
unfoldable pub answer : Shared → Step → List Bool
answer s asks = answered_at_once s.breaker.state
answer s (decides now) = decision s.requests s now
answer s _ = []

pub run : Shared → List Step → Shared
run s [] = s
run s (m ∷ ms) = run (step s m) ms

unfoldable pub answers : Shared → List Step → List Bool
answers s [] = []
answers s (m ∷ ms) = answer s m ++ answers (step s m) ms

-- The times that the steps read lie between `lo` and `hi`.
abbrev pub Within : ℕ → ℕ → Step → Type 0
Within lo hi (decides now) = (lo ≤ now) × (now ≤ hi)
Within lo hi (fails now) = (lo ≤ now) × (now ≤ hi)
Within lo hi _ = Unit {0}

record IsShut (s : Shared) (lo hi : ℕ) : Type 0 where
  is_open : s.breaker.state ≡ open_state
  no_success : s.successes ≡ 0
  since : lo ≤ s.breaker.last_failure_time
  till : s.breaker.last_failure_time ≤ hi
  timeout : hi ≤ lo + s.breaker.reset_timeout * 10 ^ 9

step-IsShut :
    (s : Shared) (m : Step) (lo hi : ℕ)
    → IsShut s lo hi
    → Within lo hi m
    → IsShut (step s m) lo hi × All (λ a. a ≡ false) (answer s m)
unfolding step answer allow_in on_failure
step-IsShut s asks lo hi v w = ground arith
step-IsShut s (decides now) lo hi v w = ground arith
step-IsShut s succeeds lo hi v w = ground arith
step-IsShut s passes lo hi v w = ground arith
step-IsShut s (fails now) lo hi v w = ground arith

run-IsShut :
    (s : Shared) (ms : List Step) (lo hi : ℕ)
    → IsShut s lo hi
    → All (Within lo hi) ms
    → ((run s ms).breaker.state ≡ open_state) × All (λ a. a ≡ false) (answers s ms)
unfolding run answers
run-IsShut s [] lo hi v w = (v.is_open, tt)
run-IsShut s (m ∷ ms) lo hi v w =
    let (shut, refused) = step-IsShut s m lo hi v w.0 in
    let (still, rest) = run-IsShut (step s m) ms lo hi shut w.1 in
    (still, All-append (λ a. a ≡ false) (answer s m) (answers (step s m) ms) refused rest)

-- An open breaker, at a time when no success has seen it half-open without having taken the mutex
-- yet, and the steps of any threads in any order, whose times are at most the reset timeout after
-- its last failure: every request is refused, and the breaker stays open, whatever successes and
-- further failures are reported, and however many requests wait for the mutex.
pub run-refuses :
    (s : Shared) (ms : List Step)
    → s.breaker.state ≡ open_state
    → s.successes ≡ 0
    → All
        (Within s.breaker.last_failure_time
          (s.breaker.last_failure_time + s.breaker.reset_timeout * 10 ^ 9))
        ms
    → ((run s ms).breaker.state ≡ open_state) × All (λ a. a ≡ false) (answers s ms)
run-refuses s ms h k w =
    run-IsShut s ms s.breaker.last_failure_time
      (s.breaker.last_failure_time + s.breaker.reset_timeout * 10 ^ 9)
      (record {
        is_open = h;
        no_success = k;
        since = omega arith;
        till = omega arith;
        timeout = omega arith;
      })
      w
