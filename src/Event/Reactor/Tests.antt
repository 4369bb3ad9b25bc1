-- ===== src/Event/Reactor/Tests.antt =====
-- A reactor with a limit of one connection for an address, and a client that sends "hi".
use network_lirbary.Common.{ℕ, ◌≡◌, refl, false, List, [], ◌∷◌, some, arith}
use network_lirbary.Common.Dict.{bytes_eq}
use network_lirbary.Connection.{Connection, State, handle_close}
use network_lirbary.Connection.Arrivals.{filled}
use network_lirbary.Connection.Samples.{Wire, wire, ending_wire, quiet, room, client}
use network_lirbary.Event.Reactor.{new_reactor, client_callback}
use network_lirbary.Event.Reactor.Accounts.{
  Happening, arrives, closes, happen_all, served, happen_all-served,
}
use network_lirbary.Event.Reactor.Clients.{
  only_readable, client_callback-delivers, client_callback-loses,
}
use network_lirbary.Resilience.DdosProtection.{Config}

abbrev config : Config
config = record { max_conn_per_ip = 1; rate_limit_per_ip = 5 }

abbrev life : List Happening
life = arrives 4 (1 ∷ []) ∷ closes ∷ arrives 5 (1 ∷ []) ∷ arrives 6 (2 ∷ []) ∷ []

happen_all-served_example :
    served (1 ∷ []) (happen_all {World = ℕ} (new_reactor config 0) life).effects ≡ 1
unfolding bytes_eq
happen_all-served_example = happen_all-served {World = ℕ} config 0 (1 ∷ []) life

-- The handler shuts the connection.
abbrev handler : Connection Wire → Connection Wire
handler c = record c { state = State.disconnecting }

abbrev emptied : Wire
emptied = record { accepted = b'x' ∷ []; delivered = b'h' ∷ b'i' ∷ []; unread = false }

client_callback-delivers_example :
    client_callback wire handler 2 only_readable (client room)
    ≡ some (handler (filled wire (client room) ((b'h' ∷ b'i' ∷ []) ∷ []) emptied))
client_callback-delivers_example =
    client_callback-delivers wire handler 2 (client room) ((b'h' ∷ b'i' ∷ []) ∷ []) quiet emptied
      refl (emptied, refl, refl) (omega arith)

client_callback-loses_example :
    client_callback ending_wire handler 2 only_readable (client room)
    ≡ some (handle_close (filled ending_wire (client room) ((b'h' ∷ b'i' ∷ []) ∷ []) emptied))
client_callback-loses_example =
    client_callback-loses ending_wire handler 2 (client room) ((b'h' ∷ b'i' ∷ []) ∷ []) quiet
      emptied refl (emptied, refl, refl) (omega arith)
