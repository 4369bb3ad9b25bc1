-- ===== src/Resilience/DdosProtection/Limits.antt =====
-- The limits over sequences of calls for many addresses.
use network_lirbary.Common.{
  ℕ, suc, ◌+◌, ◌^◌, ◌≤◌, ◌<◌, ◌≡◌, refl, Bool, true, false, ◌&&◌, ltb, List, [], ◌∷◌, All, Bytes,
  arith, ◌∙◌, ap, ap₂,
}
use network_lirbary.Common.Dict.{bytes_eq, bytes_eq_iff, lookup, lookup-insert}
use network_lirbary.Resilience.DdosProtection.{
  Config, Entry, DdosProtection, new, or_zero, or_epoch, refreshed, allow_connection, allow_request,
}

pub data Call : Type 0 where
  connects : Bytes → Call
  requests : Bytes → ℕ → Call

pub step : DdosProtection → Call → Bool × DdosProtection
step d (connects ip) = allow_connection d ip
step d (requests ip now) = allow_request d ip now

pub run : DdosProtection → List Call → DdosProtection
run d [] = d
run d (c ∷ cs) = run (step d c).1 cs

abbrev pub connections : DdosProtection → Bytes → ℕ
connections d ip = or_zero (lookup ip d.conn_counts)

abbrev one_if : Bool → ℕ
one_if true = 1
one_if false = 0

abbrev pub granted : Call → Bytes → Bool → ℕ
granted (connects j) ip a = one_if (bytes_eq j ip && a)
granted (requests j now) ip a = 0

-- The connections of `ip` that a trace lets through.
pub grants : DdosProtection → Bytes → List Call → ℕ
grants d ip [] = 0
grants d ip (c ∷ cs) = granted c ip (step d c).0 + grants (step d c).1 ip cs

connections-step :
    (d : DdosProtection) (ip : Bytes) (c : Call)
    → connections (step d c).1 ip ≡ connections d ip + granted c ip (step d c).0
unfolding step allow_connection allow_request
connections-step d ip (connects j) =
    let count = connections d j in
    ground (
      arith,
      bytes_eq_iff j ip,
      lookup-insert j ip count d.conn_counts,
      lookup-insert j ip (suc count) d.conn_counts,
    )
connections-step d ip (requests j now) = ground arith

config-step : (d : DdosProtection) (c : Call) → (step d c).1.config ≡ d.config
unfolding step allow_connection allow_request
config-step d (connects j) = ground arith
config-step d (requests j now) = ground arith

connections-step-le :
    (d : DdosProtection) (ip : Bytes) (c : Call)
    → connections d ip ≤ d.config.max_conn_per_ip
    → connections (step d c).1 ip ≤ d.config.max_conn_per_ip
unfolding step allow_connection allow_request
connections-step-le d ip (connects j) h =
    let count = connections d j in
    ground (
      arith,
      bytes_eq_iff j ip,
      lookup-insert j ip count d.conn_counts,
      lookup-insert j ip (suc count) d.conn_counts,
    )
connections-step-le d ip (requests j now) h = ground arith

connections-run :
    (d : DdosProtection) (ip : Bytes) (cs : List Call)
    → connections (run d cs) ip ≡ connections d ip + grants d ip cs
unfolding run grants
connections-run d ip [] = omega arith
connections-run d ip (c ∷ cs) =
    omega (arith, connections-run (step d c).1 ip cs, connections-step d ip c)

config-run : (d : DdosProtection) (cs : List Call) → (run d cs).config ≡ d.config
unfolding run
config-run d [] = refl
config-run d (c ∷ cs) = config-run (step d c).1 cs ∙ config-step d c

allow_connection_lem :
    (d : DdosProtection) (ip : Bytes)
    → (allow_connection d ip).0 ≡ ltb (connections d ip) d.config.max_conn_per_ip
unfolding allow_connection
allow_connection_lem d ip = ground arith

connections-new : (c : Config) (ip : Bytes) → connections (new c) ip ≡ 0
unfolding new lookup
connections-new c ip = refl

config-new : (c : Config) → (new c).config ≡ c
unfolding new
config-new c = refl

add-left_zero : {a b : ℕ} → a ≡ 0 → a + b ≡ b
add-left_zero h = omega arith

-- After any calls on a new protector, for whatever addresses, a connection is let through exactly
-- if fewer than the limit have been let through for its address since the start: no call gives a
-- connection back, so an address that has used up its limit is refused for good.
pub allow_connection_exact :
    (c : Config) (cs : List Call) (ip : Bytes)
    → (allow_connection (run (new c) cs) ip).0 ≡ ltb (grants (new c) ip cs) c.max_conn_per_ip
allow_connection_exact c cs ip =
    allow_connection_lem (run (new c) cs) ip
    ∙ ap₂ ltb (connections-run (new c) ip cs ∙ add-left_zero (connections-new c ip))
        (ap (λ (k : Config). k.max_conn_per_ip) (config-run (new c) cs ∙ config-new c))

abbrev pub window_of : DdosProtection → Bytes → Entry
window_of d ip = or_epoch (lookup ip d.req_counts)

abbrev pub served : Call → Bytes → Bool → ℕ
served (connects j) ip a = 0
served (requests j now) ip a = one_if (bytes_eq j ip && a)

-- The requests of `ip` that a trace lets through.
pub serves : DdosProtection → Bytes → List Call → ℕ
serves d ip [] = 0
serves d ip (c ∷ cs) = served c ip (step d c).0 + serves (step d c).1 ip cs

-- Every request comes less than a second after `start`.
abbrev pub Before : ℕ → Call → Type 0
Before start (connects j) = Unit {0}
Before start (requests j now) = now < start + 10 ^ 9

record Window (d : DdosProtection) (ip : Bytes) (start limit : ℕ) : Type 0 where
  begun : (window_of d ip).second ≡ start
  cap : d.config.rate_limit_per_ip ≡ limit
  within : (window_of d ip).first ≤ limit

step-Window :
    (d : DdosProtection) (ip : Bytes) (c : Call) (start limit : ℕ)
    → Window d ip start limit
    → Before start c
    → Window (step d c).1 ip start limit
      × ((window_of (step d c).1 ip).first ≡ (window_of d ip).first + served c ip (step d c).0)
unfolding step allow_connection allow_request
step-Window d ip (connects j) start limit v h = ground arith
step-Window d ip (requests j now) start limit v h =
    let e = refreshed (window_of d j) now in
    ground (
      arith,
      bytes_eq_iff j ip,
      lookup-insert j ip e d.req_counts,
      lookup-insert j ip (record e { first = suc e.first }) d.req_counts,
    )

run-Window :
    (d : DdosProtection) (ip : Bytes) (cs : List Call) (start limit : ℕ)
    → Window d ip start limit
    → All (Before start) cs
    → (window_of d ip).first + serves d ip cs ≤ limit
unfolding serves
run-Window d ip [] start limit v h = omega (arith, v.within)
run-Window d ip (c ∷ cs) start limit v h =
    let s = step-Window d ip c start limit v h.0 in
    omega (arith, s.1, run-Window (step d c).1 ip cs start limit s.0 h.1)

-- While every request comes less than a second after the beginning of an address's window, the
-- requests already counted in it and those let through later stay together within the rate limit,
-- whatever calls other addresses make.
pub serves_bounded :
    (d : DdosProtection) (ip : Bytes) (cs : List Call)
    → (window_of d ip).first ≤ d.config.rate_limit_per_ip
    → All (Before (window_of d ip).second) cs
    → (window_of d ip).first + serves d ip cs ≤ d.config.rate_limit_per_ip
serves_bounded d ip cs h w =
    run-Window d ip cs (window_of d ip).second d.config.rate_limit_per_ip
      (record { begun = refl; cap = refl; within = h }) w
