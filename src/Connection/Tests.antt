-- ===== src/Connection/Tests.antt =====
-- A connection over a socket that takes one byte at a time and reads "hi" once.
use network_lirbary.Common.{
  ◌+◌, ◌≡◌, ◌≢◌, refl, true, false, List, [], ◌∷◌, none, some, replicate, arith,
}
use network_lirbary.Memory.Buffer.{
  append, ensure_writable_bytes, has_written, readable_bytes, writable_bytes, retrieve,
  retrieve_all, peek,
}
use network_lirbary.Connection.{
  State, Connection, destroy, handle_write, send, modify_fd, remove_fd, close_fd,
  disconnect_callback, handle_read, handle_read_in, read_open, read_loop, after_read,
  handle_write_in, handle_close, force_close, send_in_loop, after_direct_write, notify_output,
}
use network_lirbary.Connection.Stream.Steps.{stream, Carries}
use network_lirbary.Connection.Stream.{Sent, handle_write-Carries, send-Carries}
use network_lirbary.Connection.Closing.{
  step, callback, ask, ask_all, Event, readable, writable, closed, Reaction, sends, force_closes,
  run, run-closes_once,
}
use network_lirbary.Connection.Closing.Counting.{closes, open_fd}
use network_lirbary.Connection.Samples.{Wire, wire, room, client, queued}

queued-Carries : Carries wire (client queued) (b'x' ∷ b'o' ∷ b'k' ∷ [])
unfolding stream
queued-Carries = record {
  valid = record { ordered = omega arith; inside = omega arith; small = omega arith };
  holds = refl;
}

connected-open : State.connected ≢ State.handshaking
connected-open e = cc

handle_write-Carries_example :
    Sent wire (handle_write wire (λ c. c) 3 (client queued)) (b'x' ∷ b'o' ∷ b'k' ∷ [])
handle_write-Carries_example =
    handle_write-Carries wire (λ c. c) 3 (client queued) (b'x' ∷ b'o' ∷ b'k' ∷ []) connected-open
      queued-Carries (omega arith)

send-Carries_example :
    Carries wire (send wire true (client queued) (b'!' ∷ [])) (b'x' ∷ b'o' ∷ b'k' ∷ b'!' ∷ [])
send-Carries_example =
    send-Carries wire (client queued) (b'x' ∷ b'o' ∷ b'k' ∷ []) (b'!' ∷ []) queued-Carries
      (omega arith)

-- The callback answers "no" and closes.
abbrev rejects : Connection Wire → Reaction Wire
rejects c = record {
  rest = room;
  world = c.world;
  requests = sends true (b'n' ∷ b'o' ∷ []) ∷ force_closes ∷ [];
}

abbrev events : List Event
events = readable ∷ writable ∷ closed ∷ []

-- The connection after these events: "h" and "i" read, the "n" of "no" written, then closed.
abbrev left : Connection Wire
left = record {
  fd = none;
  state = State.disconnected;
  ssl = false;
  input = room;
  output = record { store = b'n' ∷ b'o' ∷ replicate 6 0; reader_index = 1; writer_index = 2 };
  has_connect_callback = true;
  has_disconnect_callback = true;
  effects = modify_fd (some 7) true ∷ remove_fd (some 7) ∷ close_fd 7 ∷ disconnect_callback ∷ [];
  world = record { accepted = b'x' ∷ b'n' ∷ []; delivered = b'h' ∷ b'i' ∷ []; unread = false };
}

run_test : run wire rejects 4 (client room) events ≡ some left
unfolding run step callback ask ask_all handle_read handle_read_in read_open read_loop after_read
    handle_write handle_write_in handle_close force_close send send_in_loop after_direct_write
    notify_output append ensure_writable_bytes has_written readable_bytes writable_bytes retrieve
    retrieve_all peek
run_test = refl

run-closes_once_example :
    (closes left.effects + open_fd left.fd ≡ 1) × (closes (destroy left).effects ≡ 1)
unfolding closes
run-closes_once_example =
    run-closes_once wire rejects 4 7 (client room) left events refl refl run_test
