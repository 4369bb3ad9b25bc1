-- ===== src/Resilience/CircuitBreaker.antt =====
-- `CircuitBreaker` of lib_network/src/resilience/circuit_breaker.cc. Time is the steady clock in
-- nanoseconds, an argument of each call that reads it; the failure count is an `int` kept as its
-- bit pattern, and compared as a signed number. Traces has the calls of one thread, one after the
-- other; Threads has the steps of many.
pub mod Traces
pub mod Threads
mod Tests
use network_lirbary.Common.{ℕ, ◌+◌, ◌-◌, ◌*◌, ◌%◌, ◌^◌, Bool, true, false, ltb, leb, if◌then◌else◌}

pub data State : Type 0 where
  closed open_state half_open : State

pub record CircuitBreaker : Type 0 where
  pub failure_threshold : ℕ
  pub reset_timeout : ℕ
  pub state : State
  pub failure_count : ℕ
  pub success_count : ℕ
  pub last_failure_time : ℕ

-- `a >= b` on the bit patterns of two `int`s.
abbrev pub geq_int : ℕ → ℕ → Bool
geq_int a b = leb ((b + 2 ^ 31) % 2 ^ 32) ((a + 2 ^ 31) % 2 ^ 32)

pub new : ℕ → ℕ → CircuitBreaker
new failure_threshold reset_timeout_sec = record {
  failure_threshold = failure_threshold;
  reset_timeout = reset_timeout_sec;
  state = closed;
  failure_count = 0;
  success_count = 0;
  last_failure_time = 0;
}

pub allow_in : State → CircuitBreaker → ℕ → Bool × CircuitBreaker
allow_in closed b now = (true, b)
allow_in open_state b now =
    if ltb (b.reset_timeout * 10 ^ 9) (now - b.last_failure_time)
    then (true, record b { state = half_open })
    else (false, b)
allow_in half_open b now = (true, b)

pub allow_request : CircuitBreaker → ℕ → Bool × CircuitBreaker
unfolding allow_in
allow_request b now = allow_in b.state b now

-- What `OnSuccess` does under the mutex, which it takes after it has seen a half-open breaker.
unfoldable pub close_breaker : CircuitBreaker → CircuitBreaker
close_breaker b = record b { state = closed; failure_count = 0 }

pub on_success_in : State → CircuitBreaker → CircuitBreaker
unfolding close_breaker
on_success_in half_open b = close_breaker b
on_success_in _ b = b

pub on_success : CircuitBreaker → CircuitBreaker
unfolding on_success_in
on_success b = on_success_in b.state b

abbrev after_failure : State → CircuitBreaker → CircuitBreaker
after_failure half_open b = record b { state = open_state }
after_failure _ b =
    if geq_int b.failure_count b.failure_threshold then record b { state = open_state } else b

pub on_failure : CircuitBreaker → ℕ → CircuitBreaker
on_failure b now =
    after_failure b.state
      (record b { failure_count = (b.failure_count + 1) % 2 ^ 32; last_failure_time = now })
