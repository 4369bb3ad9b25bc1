-- ===== src/Resilience/DdosProtection.antt =====
-- `DdosProtection` of lib_network/src/security/ddos_protection.cc: how many connections and how
-- many requests per second each address may make. Addresses are byte strings, times are the steady
-- clock in nanoseconds, the limits are non-negative; each call holds the mutex.
pub mod Limits
mod Tests
use network_lirbary.Common.{
  ℕ, suc, ◌-◌, ◌*◌, ◌/◌, ◌^◌, Bool, true, false, leb, if◌then◌else◌, List, [], Option, none, some,
  Bytes,
}
use network_lirbary.Common.Dict.{lookup, insert}

pub record Config : Type 0 where
  pub max_conn_per_ip : ℕ
  pub rate_limit_per_ip : ℕ

-- The requests counted in the window, and when the window began.
pub record Entry : Type 0 where
  pub first : ℕ
  pub second : ℕ

pub record DdosProtection : Type 0 where
  pub config : Config
  pub conn_counts : List (Bytes × ℕ)
  pub req_counts : List (Bytes × Entry)

unfoldable pub new : Config → DdosProtection
new c = record { config = c; conn_counts = []; req_counts = [] }

abbrev pub or_zero : Option ℕ → ℕ
or_zero none = 0
or_zero (some n) = n

-- `map[key]` of a missing key makes a zero entry.
abbrev pub or_epoch : Option Entry → Entry
or_epoch none = record { first = 0; second = 0 }
or_epoch (some e) = e

unfoldable pub allow_connection : DdosProtection → Bytes → Bool × DdosProtection
allow_connection d ip =
    let count = or_zero (lookup ip d.conn_counts) in
    if leb d.config.max_conn_per_ip count
    then (false, record d { conn_counts = insert ip count d.conn_counts })
    else (true, record d { conn_counts = insert ip (suc count) d.conn_counts })

-- The window is reset if a second has passed.
abbrev pub refreshed : Entry → ℕ → Entry
refreshed e now =
    if leb 1 ((now - e.second) / 10 ^ 9) then record { first = 0; second = now } else e

pub allow_request : DdosProtection → Bytes → ℕ → Bool × DdosProtection
allow_request d ip now =
    let entry = refreshed (or_epoch (lookup ip d.req_counts)) now in
    if leb d.config.rate_limit_per_ip entry.first
    then (false, record d { req_counts = insert ip entry d.req_counts })
    else (
      true,
      record d { req_counts = insert ip (record entry { first = suc entry.first }) d.req_counts },
    )
