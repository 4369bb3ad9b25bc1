-- ===== src/Event/Reactor/Accounts.antt =====
-- The connections that a reactor serves over its life.
use network_lirbary.Common.{
  ℕ, suc, ◌+◌, ◌≡◌, ◌≢◌, min, refl, subst, ◌∙◌, Bool, true, false, leb, leb→le, if-holds, inl, inr,
  Bool-cases, List, [], ◌∷◌, ◌++◌, Option, none, Bytes, arith, ◌==◌,
}
use network_lirbary.Common.Dict.{bytes_eq, bytes_eq_iff, lookup, lookup-insert}
use network_lirbary.Event.FdMap.{find, find-put}
use network_lirbary.Resilience.DdosProtection.{Config, new, or_zero, allow_connection}
use network_lirbary.Event.Reactor.{
  Effect, refuse, serve, Reactor, new_reactor, accepted, disconnected,
}

-- A client is accepted, or a connection is closed: `HandleClose` sets the descriptor to -1 before
-- it calls the disconnect callback.
pub data Happening : Type 0 where
  arrives : ℕ → Bytes → Happening
  closes : Happening

abbrev one_if : Bool → ℕ
one_if true = 1
one_if false = 0

-- The connections of `ip` that are served.
abbrev pub served : Bytes → List Effect → ℕ
served ip [] = 0
served ip (serve fd j ∷ es) = one_if (bytes_eq j ip) + served ip es
served ip (refuse fd j ∷ es) = served ip es

-- The arrivals from `ip`.
abbrev pub arrivals : Bytes → List Happening → ℕ
arrivals ip [] = 0
arrivals ip (arrives fd j ∷ hs) = one_if (bytes_eq j ip) + arrivals ip hs
arrivals ip (closes ∷ hs) = arrivals ip hs

served-append :
    (ip : Bytes) (xs ys : List Effect) → served ip (xs ++ ys) ≡ served ip xs + served ip ys
served-append ip [] ys = omega arith
served-append ip (serve fd j ∷ xs) ys = omega (arith, served-append ip xs ys)
served-append ip (refuse fd j ∷ xs) ys = served-append ip xs ys

arrivals-cons :
    (ip : Bytes) (h : Happening) (hs : List Happening)
    → arrivals ip (h ∷ hs) ≡ arrivals ip (h ∷ []) + arrivals ip hs
arrivals-cons ip (arrives fd j) hs = omega arith
arrivals-cons ip closes hs = omega arith

module _ {World : Type 0} where
  unfoldable pub happen : Reactor World → Happening → Reactor World
  happen r (arrives fd ip) = accepted r fd ip
  happen r closes = disconnected r none

  abbrev pub happen_all : Reactor World → List Happening → Reactor World
  happen_all r [] = r
  happen_all r (h ∷ hs) = happen_all (happen r h) hs

  abbrev count_of : Bytes → Reactor World → ℕ
  count_of ip r = or_zero (lookup ip r.ddos_protection.conn_counts)

  -- The count of `ip` is that of its served connections, within the limit.
  record Counted (limit : ℕ) (ip : Bytes) (before : ℕ) (r : Reactor World) : Type 0 where
    limit_is : r.ddos_protection.config.max_conn_per_ip ≡ limit
    counts : count_of ip r ≡ served ip r.effects
    exact : served ip r.effects ≡ min before limit

  accepted-Counted :
      (limit : ℕ) (ip : Bytes) (n fd : ℕ) (j : Bytes) (r : Reactor World)
      → Counted limit ip n r
      → Counted limit ip (n + one_if (bytes_eq j ip)) (accepted r fd j)
  unfolding accepted allow_connection
  accepted-Counted limit ip n fd j r c =
      elim (Bool-cases (leb r.ddos_protection.config.max_conn_per_ip (count_of j r))) [
        | inl e ↦ rw e (record {
          limit_is = c.limit_is;
          counts = ground (
            arith,
            bytes_eq_iff j ip,
            served-append ip r.effects (refuse fd j ∷ []),
            lookup-insert j ip (count_of j r) r.ddos_protection.conn_counts,
            c.counts,
          );
          exact = ground (
            arith,
            bytes_eq_iff j ip,
            served-append ip r.effects (refuse fd j ∷ []),
            leb→le _ _ e,
            c.limit_is,
            c.counts,
            c.exact,
          );
        })
        | inr e ↦ rw e (record {
          limit_is = c.limit_is;
          counts = ground (
            arith,
            bytes_eq_iff j ip,
            served-append ip r.effects (serve fd j ∷ []),
            lookup-insert j ip (suc (count_of j r)) r.ddos_protection.conn_counts,
            c.counts,
          );
          exact = ground (
            arith,
            bytes_eq_iff j ip,
            served-append ip r.effects (serve fd j ∷ []),
            e,
            c.limit_is,
            c.counts,
            c.exact,
          );
        })
      ]

  happen-Counted :
      (limit : ℕ) (ip : Bytes) (n : ℕ) (r : Reactor World) (h : Happening)
      → Counted limit ip n r
      → Counted limit ip (n + arrivals ip (h ∷ [])) (happen r h)
  unfolding happen disconnected
  happen-Counted limit ip n r (arrives fd j) c =
      rw (same_sum (one_if (bytes_eq j ip))) (accepted-Counted limit ip n fd j r c)
    where
      same_sum : (k : ℕ) → k + 0 ≡ k
      same_sum k = omega arith
  happen-Counted limit ip n r closes c = record {
    limit_is = c.limit_is;
    counts = c.counts;
    exact = c.exact ∙ omega arith;
  }

  happen_all-Counted :
      (limit : ℕ) (ip : Bytes) (r : Reactor World) (hs : List Happening) (n : ℕ)
      → Counted limit ip n r
      → Counted limit ip (arrivals ip hs + n) (happen_all r hs)
  happen_all-Counted limit ip r [] n c = subst (λ m. Counted limit ip m r) (omega arith) c
  happen_all-Counted limit ip r (h ∷ hs) n c =
      let sum : arrivals ip (h ∷ hs) + n ≡ arrivals ip hs + (n + arrivals ip (h ∷ [])) =
        omega (arith, arrivals-cons ip h hs) in
      rw sum (
        happen_all-Counted limit ip (happen r h) hs (n + arrivals ip (h ∷ []))
          (happen-Counted limit ip n r h c))

  -- Over the life of a reactor, with arrivals from many addresses and closed connections in any
  -- order, an address is served as often as it arrives, up to `max_conn_per_ip` times in all:
  -- what is closed is never given back.
  pub happen_all-served :
      (config : Config) (w : World) (ip : Bytes) (hs : List Happening)
      → served ip (happen_all (new_reactor config w) hs).effects
        ≡ min (arrivals ip hs) config.max_conn_per_ip
  unfolding new_reactor new lookup
  happen_all-served config w ip hs =
      (happen_all-Counted config.max_conn_per_ip ip (new_reactor config w) hs 0
        (record { limit_is = refl; counts = refl; exact = omega arith })).exact
      ∙ omega arith

  happen-keeps :
      (r : Reactor World) (h : Happening) (fd : ℕ)
      → find fd r.connections ≢ none
      → find fd (happen r h).connections ≢ none
  unfolding happen disconnected accepted
  happen-keeps r (arrives k ip) fd held =
      if-holds {A = Reactor World} (λ s. find fd s.connections ≢ none)
        (allow_connection r.ddos_protection ip).0 _ _
        (rw (find-put k fd r.next_connection r.connections)
          (if-holds {A = Option ℕ} (λ o. o ≢ none) (k == fd) _ _ (λ e. cc) held))
        held
  happen-keeps r closes fd held = held

  -- A reactor never lets a connection go: what `connections_` holds under a descriptor stays,
  -- whatever arrives and whatever is closed.
  pub happen_all-keeps :
      (r : Reactor World) (hs : List Happening) (fd : ℕ)
      → find fd r.connections ≢ none
      → find fd (happen_all r hs).connections ≢ none
  happen_all-keeps r [] fd held = held
  happen_all-keeps r (h ∷ hs) fd held =
      happen_all-keeps (happen r h) hs fd (happen-keeps r h fd held)
