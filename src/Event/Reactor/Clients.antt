-- ===== src/Event/Reactor/Clients.antt =====
-- What reaches the protocol handler of what the peer sends.
use network_lirbary.Common.{ℕ, ◌<◌, ◌≡◌, true, false, List, some, length, Bytes}
use network_lirbary.Event.Poller.{Flags}
use network_lirbary.Connection.Sockets.{Io}
use network_lirbary.Connection.{Connection, connected, handle_close}
use network_lirbary.Connection.Arrivals.{
  Ending, waits, finished, ended, Arrive, filled, handle_read-arrivals,
}
use network_lirbary.Event.Reactor.{
  messages, client_readable, client_writable, client_closed, client_callback,
}

-- EPOLLIN alone.
abbrev pub only_readable : Flags
only_readable = record {
  readable = true;
  writable = false;
  error = false;
  hangup = false;
  edge_triggered = false;
}

module _ (io : Io) (on_message : Connection io.World → Connection io.World) where
  open io use {World, allow_read}

  after_read_of :
      (end : Ending) (fuel : ℕ) (c : Connection World) (bss : List Bytes) (w w' : World)
      → allow_read c.world ≡ (true, w)
      → Arrive io bss end c.ssl w w'
      → length bss < fuel
      → client_callback io on_message fuel only_readable (record c { state = connected })
        ≡ some (messages io on_message (ended end (filled io c bss w')))
  unfolding client_callback client_readable client_writable client_closed
  after_read_of end fuel c bss w w' allowed a room =
      rw (
        handle_read-arrivals io end fuel c bss w w' allowed a room,
        client_readable,
        client_callback,
      )

  -- An open connection is readable, and its reads give some pieces and then must wait, with the
  -- rate limiter's leave: the handler's `OnMessage` is called once, on the connection with all
  -- the pieces in its input buffer, in order. `fuel` exceeds the number of pieces.
  pub client_callback-delivers :
      (fuel : ℕ) (c : Connection World) (bss : List Bytes) (w w' : World)
      → allow_read c.world ≡ (true, w)
      → Arrive io bss waits c.ssl w w'
      → length bss < fuel
      → client_callback io on_message fuel only_readable (record c { state = connected })
        ≡ some (on_message (filled io c bss w'))
  unfolding messages
  client_callback-delivers fuel c bss w w' allowed a room =
      after_read_of waits fuel c bss w w' allowed a room

  -- The same with the end of the stream behind the pieces: the connection is closed, and
  -- `OnMessage` is not called, so that what the pieces hold never reaches the handler.
  pub client_callback-loses :
      (fuel : ℕ) (c : Connection World) (bss : List Bytes) (w w' : World)
      → allow_read c.world ≡ (true, w)
      → Arrive io bss finished c.ssl w w'
      → length bss < fuel
      → client_callback io on_message fuel only_readable (record c { state = connected })
        ≡ some (handle_close (filled io c bss w'))
  unfolding messages handle_close
  client_callback-loses fuel c bss w w' allowed a room =
      after_read_of finished fuel c bss w w' allowed a room
