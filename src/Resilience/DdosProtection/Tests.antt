-- ===== src/Resilience/DdosProtection/Tests.antt =====
-- Two addresses under a limit of one connection and two requests.
use network_lirbary.Common.{◌+◌, ◌≤◌, List, [], ◌∷◌, arith}
use network_lirbary.Common.Dict.{lookup, bytes_eq}
use network_lirbary.Resilience.DdosProtection.{Config, DdosProtection}
use network_lirbary.Resilience.DdosProtection.Limits.{
  Call, connects, requests, serves, window_of, serves_bounded,
}

abbrev config : Config
config = record { max_conn_per_ip = 1; rate_limit_per_ip = 2 }

abbrev calls : List Call
calls = connects (b'a' ∷ []) ∷ connects (b'b' ∷ []) ∷ connects (b'a' ∷ []) ∷ []

-- The window of `a` began at 5 with one request.
abbrev busy : DdosProtection
busy = record {
  config = config;
  conn_counts = [];
  req_counts = (b'a' ∷ [], record { first = 1; second = 5 }) ∷ [];
}

abbrev more : List Call
more = requests (b'a' ∷ []) 6 ∷ requests (b'b' ∷ []) 7 ∷ requests (b'a' ∷ []) 8 ∷ []

serves_bounded_example : (window_of busy (b'a' ∷ [])).first + serves busy (b'a' ∷ []) more ≤ 2
unfolding lookup bytes_eq
serves_bounded_example =
    serves_bounded busy (b'a' ∷ []) more (omega arith)
      (omega arith, (omega arith, (omega arith, tt)))
