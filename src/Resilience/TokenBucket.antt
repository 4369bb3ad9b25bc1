-- ===== src/Resilience/TokenBucket.antt =====
-- `TokenBucket` of lib_network/src/resilience/token_bucket.cc. The C++ type `double` is the
-- parameter `Double`: its operations, with the laws of comparison and rounding that hold for
-- numbers other than NaN. Time is the steady clock in nanoseconds; each call holds the mutex.
pub mod Bounds
mod Tests
use network_lirbary.Common.{ℕ, ◌-◌, ◌/◌, ◌≡◌, ◌⊎◌, Bool, true, false, not, if◌then◌else◌}

pub record Double : Type 1 where
  pub Number : Type 0
  pub zero_number : Number
  pub million : Number
  pub of_count : ℕ → Number
  pub add : Number → Number → Number
  pub sub : Number → Number → Number
  pub mul : Number → Number → Number
  pub div : Number → Number → Number
  pub less : Number → Number → Bool
  -- `a >= b` is `!(a < b)`, and differences and sums round monotonically.
  pub sub_nonneg : (a b : Number) → less a b ≡ false → less (sub a b) zero_number ≡ false
  pub sub_below :
      (c a b : Number) → less b zero_number ≡ false → less c a ≡ false → less c (sub a b) ≡ false
  pub add_nonneg :
      (a b : Number)
      → less a zero_number ≡ false
      → less zero_number b ≡ true
      → less (add a b) zero_number ≡ false
  pub less_irrefl : (a : Number) → less a a ≡ false
  pub less_asym : (a b : Number) → less a b ≡ true → less b a ≡ false

module _ (d : Double) where
  open d use {Number, zero_number, million, of_count, add, sub, mul, div, less}

  pub record TokenBucket : Type 0 where
    pub rate : Number
    pub capacity : Number
    pub tokens : Number
    pub last_refill : ℕ

  pub new : Number → Number → ℕ → TokenBucket
  new rate_per_sec capacity now = record {
    rate = rate_per_sec;
    capacity = capacity;
    tokens = capacity;
    last_refill = now;
  }

  -- `std::min(a, b)`.
  abbrev pub min_number : Number → Number → Number
  min_number a b = if less b a then b else a

  abbrev pub new_tokens : TokenBucket → ℕ → Number
  new_tokens b now = div (mul (of_count ((now - b.last_refill) / 1000)) b.rate) million

  pub refill : TokenBucket → ℕ → TokenBucket
  refill b now =
      if less zero_number (new_tokens b now)
      then record b {
        tokens = min_number b.capacity (add b.tokens (new_tokens b now));
        last_refill = now;
      }
      else b

  -- The test and the subtraction, after the refill.
  pub spend : TokenBucket → Number → Bool × TokenBucket
  spend r amount =
      if less r.tokens amount then (false, r) else (true, record r { tokens = sub r.tokens amount })

  pub consume : TokenBucket → Number → ℕ → Bool × TokenBucket
  unfolding refill spend
  consume b amount now = spend (refill b now) amount
