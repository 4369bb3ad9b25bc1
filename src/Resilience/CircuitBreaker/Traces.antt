-- ===== src/Resilience/CircuitBreaker/Traces.antt =====
-- The circuit breaker over sequences of whole calls, one after the other, with their times.
use network_lirbary.Common.{
  ℕ, suc, ◌+◌, ◌*◌, ◌^◌, ◌≤◌, ◌<◌, ◌≡◌, refl, Bool, true, false, List, [], ◌∷◌, All, arith,
}
use native.Mathlib.Nat.{add-zero}
use network_lirbary.Resilience.CircuitBreaker.{
  closed, open_state, CircuitBreaker, new, allow_request, on_success, on_failure,
}

pub data Call : Type 0 where
  allows : ℕ → Call
  succeeds : Call
  fails : ℕ → Call

pub step : CircuitBreaker → Call → CircuitBreaker
step b (allows now) = (allow_request b now).1
step b succeeds = on_success b
step b (fails now) = on_failure b now

pub run : CircuitBreaker → List Call → CircuitBreaker
run b [] = b
run b (c ∷ cs) = run (step b c) cs

-- The answers of the requests in a trace.
pub answers : CircuitBreaker → List Call → List Bool
answers b [] = []
answers b (allows now ∷ cs) = (allow_request b now).0 ∷ answers (allow_request b now).1 cs
answers b (succeeds ∷ cs) = answers (on_success b) cs
answers b (fails now ∷ cs) = answers (on_failure b now) cs

-- A closed breaker has counted fewer failures than its threshold.
pub record Inv (b : CircuitBreaker) : Type 0 where
  pub positive : 0 < b.failure_threshold
  pub is_int : b.failure_threshold < 2 ^ 31
  pub below : b.state ≡ closed → b.failure_count < b.failure_threshold

pub new-Inv :
    (threshold timeout : ℕ) → 0 < threshold → threshold < 2 ^ 31 → Inv (new threshold timeout)
unfolding new
new-Inv threshold timeout h k = record { positive = h; is_int = k; below = λ _. h }

step-Inv : (b : CircuitBreaker) (c : Call) → Inv b → Inv (step b c)
unfolding step allow_request on_success on_failure
step-Inv b (allows now) v = ground arith
step-Inv b succeeds v = ground arith
step-Inv b (fails now) v = ground arith

pub run-Inv : (b : CircuitBreaker) (cs : List Call) → Inv b → Inv (run b cs)
unfolding run
run-Inv b [] v = v
run-Inv b (c ∷ cs) v = run-Inv (step b c) cs (step-Inv b c v)

-- Every time in the trace lies between `lo` and `hi`.
abbrev pub Within : ℕ → ℕ → Call → Type 0
Within lo hi (allows now) = (lo ≤ now) × (now ≤ hi)
Within lo hi succeeds = Unit {0}
Within lo hi (fails now) = (lo ≤ now) × (now ≤ hi)

record IsOpen (b : CircuitBreaker) (lo hi : ℕ) : Type 0 where
  is_open : b.state ≡ open_state
  since : lo ≤ b.last_failure_time
  till : b.last_failure_time ≤ hi
  timeout : hi ≤ lo + b.reset_timeout * 10 ^ 9

step-IsOpen :
    (b : CircuitBreaker) (c : Call) (lo hi : ℕ)
    → IsOpen b lo hi
    → Within lo hi c
    → IsOpen (step b c) lo hi
unfolding step allow_request on_success on_failure
step-IsOpen b (allows now) lo hi v w = ground arith
step-IsOpen b succeeds lo hi v w = ground arith
step-IsOpen b (fails now) lo hi v w = ground arith

refused :
    (b : CircuitBreaker) (now lo hi : ℕ)
    → IsOpen b lo hi
    → (lo ≤ now) × (now ≤ hi)
    → (allow_request b now).0 ≡ false
unfolding allow_request
refused b now lo hi v w = ground arith

answers-IsOpen :
    (b : CircuitBreaker) (cs : List Call) (lo hi : ℕ)
    → IsOpen b lo hi
    → All (Within lo hi) cs
    → ((run b cs).state ≡ open_state) × All (λ a. a ≡ false) (answers b cs)
unfolding run answers step
answers-IsOpen b [] lo hi v w = (v.is_open, tt)
answers-IsOpen b (allows now ∷ cs) lo hi v w =
    let rest =
      answers-IsOpen (step b (allows now)) cs lo hi (step-IsOpen b (allows now) lo hi v w.0) w.1 in
    (rest.0, (refused b now lo hi v w.0, rest.1))
answers-IsOpen b (succeeds ∷ cs) lo hi v w =
    answers-IsOpen (step b succeeds) cs lo hi (step-IsOpen b succeeds lo hi v w.0) w.1
answers-IsOpen b (fails now ∷ cs) lo hi v w =
    answers-IsOpen (step b (fails now)) cs lo hi (step-IsOpen b (fails now) lo hi v w.0) w.1

-- While no more than the reset timeout has passed since an open breaker's last failure, it refuses
-- every request and stays open, whatever successes and further failures are reported meanwhile.
pub answers_open :
    (b : CircuitBreaker) (cs : List Call)
    → b.state ≡ open_state
    → All (Within b.last_failure_time (b.last_failure_time + b.reset_timeout * 10 ^ 9)) cs
    → ((run b cs).state ≡ open_state) × All (λ a. a ≡ false) (answers b cs)
answers_open b cs h w =
    answers-IsOpen b cs b.last_failure_time (b.last_failure_time + b.reset_timeout * 10 ^ 9)
      (record { is_open = h; since = omega arith; till = omega arith; timeout = omega arith }) w

abbrev pub failures : List Call → ℕ
failures [] = 0
failures (fails now ∷ cs) = suc (failures cs)
failures (_ ∷ cs) = failures cs

-- A closed breaker that has counted `n` failures.
record Counted (b : CircuitBreaker) (n threshold : ℕ) : Type 0 where
  is_closed : b.state ≡ closed
  count : b.failure_count ≡ n
  limit : b.failure_threshold ≡ threshold

on_failure-Counted :
    (b : CircuitBreaker) (now n threshold : ℕ)
    → threshold < 2 ^ 31
    → suc n < threshold
    → Counted b n threshold
    → Counted (on_failure b now) (suc n) threshold
unfolding on_failure
on_failure-Counted b now n threshold k h v = ground arith

on_success-Counted :
    (b : CircuitBreaker) (n threshold : ℕ)
    → Counted b n threshold
    → Counted (on_success b) n threshold
unfolding on_success
on_success-Counted b n threshold v = ground arith

request-Counted :
    (b : CircuitBreaker) (now n threshold : ℕ)
    → Counted b n threshold
    → Counted (allow_request b now).1 n threshold × ((allow_request b now).0 ≡ true)
unfolding allow_request
request-Counted b now n threshold v = ground arith

counting :
    (b : CircuitBreaker) (cs : List Call) (n threshold : ℕ)
    → threshold < 2 ^ 31
    → n + failures cs < threshold
    → Counted b n threshold
    → Counted (run b cs) (n + failures cs) threshold × All (λ a. a ≡ true) (answers b cs)
unfolding run answers step
counting b [] n threshold k h v = (rw (add-zero) v, tt)
counting b (allows now ∷ cs) n threshold k h v =
    let request = request-Counted b now n threshold v in
    let rest = counting (allow_request b now).1 cs n threshold k h request.0 in
    (rest.0, (request.1, rest.1))
counting b (succeeds ∷ cs) n threshold k h v =
    counting (on_success b) cs n threshold k h (on_success-Counted b n threshold v)
counting b (fails now ∷ cs) n threshold k h v =
    let shift : n + suc (failures cs) ≡ suc n + failures cs = omega arith in
    rw shift (
      counting (on_failure b now) cs (suc n) threshold k (omega arith)
        (on_failure-Counted b now n threshold k (omega arith) v))

tripped :
    (b : CircuitBreaker) (now n threshold : ℕ)
    → threshold < 2 ^ 31
    → suc n ≡ threshold
    → Counted b n threshold
    → (on_failure b now).state ≡ open_state
unfolding on_failure
tripped b now n threshold k h v = ground arith

-- A new breaker with a threshold below 2^31 answers every request with true while fewer failures
-- than the threshold have been reported, and opens at the failure that reaches the threshold;
-- successes reported in between do not put this off.
pub opens_at_threshold :
    (threshold timeout : ℕ) (cs : List Call) (now : ℕ)
    → threshold < 2 ^ 31
    → suc (failures cs) ≡ threshold
    → let b = run (new threshold timeout) cs in
      (b.state ≡ closed)
      × All (λ a. a ≡ true) (answers (new threshold timeout) cs)
      × ((on_failure b now).state ≡ open_state)
unfolding new
opens_at_threshold threshold timeout cs now k h =
    let c =
      counting (new threshold timeout) cs 0 threshold k (omega arith)
        (record { is_closed = refl; count = refl; limit = refl }) in
    (c.0.is_closed, c.1, tripped _ now (0 + failures cs) threshold k (omega arith) c.0)

-- Once more than the reset timeout has passed since the last failure, an open breaker lets a
-- request through and is half-open; then a success closes it with a failure count of zero, and a
-- failure opens it again at once, whatever its threshold.
pub probe_outcomes :
    (b : CircuitBreaker) (now later : ℕ)
    → b.state ≡ open_state
    → b.last_failure_time + b.reset_timeout * 10 ^ 9 < now
    → let (allowed, p) = allow_request b now in
      (allowed ≡ true)
      × ((on_success p).state ≡ closed)
      × ((on_success p).failure_count ≡ 0)
      × ((on_failure p later).state ≡ open_state)
      × ((on_failure p later).last_failure_time ≡ later)
unfolding allow_request on_success on_failure
probe_outcomes b now later h k = ground arith
