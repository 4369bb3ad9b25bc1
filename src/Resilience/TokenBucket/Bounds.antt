-- ===== src/Resilience/TokenBucket/Bounds.antt =====
-- The token bucket never holds a negative number of tokens or more than its capacity.
use network_lirbary.Common.{ℕ, ◌≡◌, false, inl, inr, Bool-cases, List, [], ◌∷◌, All}
use network_lirbary.Resilience.TokenBucket.{
  Double, TokenBucket, new, min_number, new_tokens, refill, spend, consume,
}

module _ (d : Double) where
  open d use {
    Number, zero_number, add, sub, less, sub_nonneg, sub_below, add_nonneg, less_irrefl, less_asym,
  }

  pub record Inv (b : TokenBucket d) : Type 0 where
    pub floor : less b.tokens zero_number ≡ false
    pub ceiling : less b.capacity b.tokens ≡ false
    pub room : less b.capacity zero_number ≡ false

  pub new-Inv :
      (rate capacity : Number) (now : ℕ)
      → less capacity zero_number ≡ false
      → Inv (new d rate capacity now)
  unfolding new
  new-Inv rate capacity now h = record { floor = h; ceiling = less_irrefl capacity; room = h }

  refill-Inv : (b : TokenBucket d) (now : ℕ) → Inv b → Inv (refill d b now)
  unfolding refill
  refill-Inv b now v = elim (Bool-cases (less zero_number (new_tokens d b now))) [
    | inr none_new ↦ rw none_new v
    | inl some_new ↦
        rw some_new (filled (add b.tokens (new_tokens d b now)) (add_nonneg _ _ v.floor some_new))
  ]
    where
      filled :
          (t : Number)
          → less t zero_number ≡ false
          → Inv (record b { tokens = min_number d b.capacity t; last_refill = now })
      filled t h = elim (Bool-cases (less t b.capacity)) [
        | inl below ↦
            rw below (record { floor = h; ceiling = less_asym t b.capacity below; room = v.room })
        | inr above ↦
            rw above (record { floor = v.room; ceiling = less_irrefl b.capacity; room = v.room })
      ]

  spend-Inv :
      (r : TokenBucket d) (amount : Number)
      → less amount zero_number ≡ false
      → Inv r
      → Inv (spend d r amount).1
  unfolding spend
  spend-Inv r amount h v = elim (Bool-cases (less r.tokens amount)) [
    | inl short ↦ rw short v
    | inr enough ↦ rw enough (record {
      floor = sub_nonneg r.tokens amount enough;
      ceiling = sub_below r.capacity r.tokens amount h v.ceiling;
      room = v.room;
    })
  ]

  consume-Inv :
      (b : TokenBucket d) (amount : Number) (now : ℕ)
      → less amount zero_number ≡ false
      → Inv b
      → Inv (consume d b amount now).1
  unfolding consume
  consume-Inv b amount now h v = spend-Inv (refill d b now) amount h (refill-Inv b now v)

  -- What is asked for, and when.
  pub run : TokenBucket d → List (Number × ℕ) → TokenBucket d
  run b [] = b
  run b ((amount, now) ∷ cs) = run (consume d b amount now).1 cs

  abbrev pub NonNegative : Number × ℕ → Type 0
  NonNegative c = less c.0 zero_number ≡ false

  run-Inv :
      (b : TokenBucket d) (cs : List (Number × ℕ)) → All NonNegative cs → Inv b → Inv (run b cs)
  unfolding run
  run-Inv b [] h v = v
  run-Inv b ((amount, now) ∷ cs) h v =
      run-Inv (consume d b amount now).1 cs h.1 (consume-Inv b amount now h.0 v)

-- From its construction with a capacity that is not negative, through any sequence of `Consume`
-- calls for amounts that are not negative, at any times, a bucket's tokens are never negative and
-- never above its capacity.
pub run-new-Inv :
    (d : Double) (rate capacity : d.Number) (start : ℕ) (cs : List (d.Number × ℕ))
    → d.less capacity d.zero_number ≡ false
    → All (NonNegative d) cs
    → Inv d (run d (new d rate capacity start) cs)
run-new-Inv d rate capacity start cs h k =
    run-Inv d (new d rate capacity start) cs k (new-Inv d rate capacity start h)
