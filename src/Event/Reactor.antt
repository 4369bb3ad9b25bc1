-- ===== src/Event/Reactor.antt =====
-- `Reactor` of lib_network/src/event/reactor.cc: the accept callback, the callback of a client's
-- descriptor, and the disconnect callback. TLS and the creation of sockets are left out.
pub mod Clients
pub mod Accounts
mod Tests
use network_lirbary.Common.{
  ℕ, zero, suc, ◌-◌, Bool, true, false, ◌||◌, if◌then◌else◌, List, [], ◌∷◌, ◌++◌, Option, none,
  some, length, Bytes, sub64,
}
use network_lirbary.Event.FdMap.{put, erase}
use network_lirbary.Event.Poller.{Flags}
use network_lirbary.Resilience.DdosProtection.{Config, DdosProtection, new, allow_connection}
use network_lirbary.Connection.Sockets.{Io}
use network_lirbary.Connection.{Connection, handle_read, handle_write, handle_close, is_connected}

-- What the accept callback does with a socket: it closes it, or it hands a connection to the
-- protocol handler and adds the descriptor to the loop.
pub data Effect : Type 0 where
  refuse : ℕ → Bytes → Effect
  serve : ℕ → Bytes → Effect

pub record Reactor (World : Type 0) : Type 0 where
  pub ddos_protection : DdosProtection
  -- The number of the connection that stands under a descriptor.
  pub connections : List (ℕ × ℕ)
  pub next_connection : ℕ
  -- The gauge "active_connections".
  pub active_connections : ℕ
  pub effects : List Effect
  pub world : World

pub new_reactor : {World : Type 0} → Config → World → Reactor World
new_reactor config w = record {
  ddos_protection = new config;
  connections = [];
  next_connection = 0;
  active_connections = 0;
  effects = [];
  world = w;
}

-- `SetDdosConfig`: the counts begin anew.
pub set_ddos_config : {World : Type 0} → Config → Reactor World → Reactor World
set_ddos_config config r = record r { ddos_protection = new config }

module _ {World : Type 0} where
  -- An accepted socket and the address of its peer.
  pub accepted : Reactor World → ℕ → Bytes → Reactor World
  accepted r fd ip =
      let (allowed, ddos) = allow_connection r.ddos_protection ip in
      let connections = put fd r.next_connection r.connections in
      if allowed
      then record r {
        ddos_protection = ddos;
        connections = connections;
        next_connection = suc r.next_connection;
        active_connections = length connections;
        effects = r.effects ++ serve fd ip ∷ [];
      }
      else record r { ddos_protection = ddos; effects = r.effects ++ refuse fd ip ∷ [] }

  -- `while (true)` around `accept4`, on fuel.
  pub accept_loop :
      (World → Option (ℕ × Bytes) × World) → ℕ → Reactor World → Option (Reactor World)
  accept_loop accept zero r = none
  accept_loop accept (suc fuel) r =
      let (got, w) = accept r.world in
      elim got [
        | none ↦ some (record r { world = w })
        | some (fd, ip) ↦ accept_loop accept fuel (accepted (record r { world = w }) fd ip)
      ]

  -- The disconnect callback, with what `c->Fd()` answers: `none` is -1, a key that the map never
  -- holds.
  pub disconnected : Reactor World → Option ℕ → Reactor World
  disconnected r none = record r { active_connections = sub64 (length r.connections) 1 }
  disconnected r (some fd) = record r {
    active_connections = sub64 (length r.connections) 1;
    connections = erase fd r.connections;
  }

-- The callback of a client's descriptor, for the events that the loop hands to it. The connection
-- has no message callback of its own; `on_message` is the protocol handler's `OnMessage`.
module _ (io : Io) (on_message : Connection io.World → Connection io.World) where
  open io use {World}

  pub messages : Connection World → Connection World
  messages c = if is_connected c.state then on_message c else c

  pub client_readable : ℕ → Bool → Connection World → Option (Connection World)
  client_readable fuel false c = some c
  client_readable fuel true c = elim (handle_read io (λ c'. c') fuel c) [
    | none ↦ none
    | some c' ↦ some (messages c')
  ]

  pub client_writable : ℕ → Bool → Connection World → Option (Connection World)
  client_writable fuel false c = some c
  client_writable fuel true c = handle_write io (λ c'. c') fuel c

  pub client_closed : Bool → Connection World → Connection World
  client_closed false c = c
  client_closed true c = handle_close c

  pub client_callback : ℕ → Flags → Connection World → Option (Connection World)
  client_callback fuel f c = elim (client_readable fuel f.readable c) [
    | none ↦ none
    | some c1 ↦ elim (client_writable fuel f.writable c1) [
      | none ↦ none
      | some c2 ↦ some (client_closed (f.hangup || f.error) c2)
    ]
  ]
