-- ===== src/Connection/Samples.antt =====
-- A wire on which "hi" waits to be read, which takes one byte at a time, and a client on it.
use network_lirbary.Common.{
  ◌≡◌, refl, Bool, true, false, [], ◌∷◌, ◌++◌, some, replicate, Bytes, arith,
}
use network_lirbary.Memory.Buffer.{Buffer}
use network_lirbary.Connection.Sockets.{
  ReadResult, got, end_of_file, WriteResult, wrote, HandshakeResult, immediate, Writes, Reads,
  max_header_size, Io,
}
use network_lirbary.Connection.{State, Connection}

pub record Wire : Type 0 where
  pub accepted : Bytes
  pub delivered : Bytes
  pub unread : Bool

abbrev pub read_wire : Bool → Wire → ReadResult × Wire
read_wire true w = (
  got (b'h' ∷ b'i' ∷ []),
  record w { delivered = w.delivered ++ b'h' ∷ b'i' ∷ []; unread = false },
)
read_wire false w = (ReadResult.retry, w)

abbrev pub write_wire : Bytes → Wire → WriteResult × Wire
write_wire [] w = (WriteResult.retry, w)
write_wire (b ∷ bs) w = (wrote 1, record w { accepted = w.accepted ++ b ∷ [] })

pub write_wire-Writes :
    (bytes : Bytes) (w : Wire) → Writes (λ v. v.accepted) bytes w (write_wire bytes w)
write_wire-Writes [] w = refl
write_wire-Writes (b ∷ bs) w = (omega arith, omega arith, refl)

pub write_wire-delivered :
    (bytes : Bytes) (w : Wire) → (write_wire bytes w).1.delivered ≡ w.delivered
write_wire-delivered [] w = refl
write_wire-delivered (b ∷ bs) w = refl

pub read_wire-Reads :
    (unread : Bool) (w : Wire) → Reads (λ v. v.delivered) max_header_size w (read_wire unread w)
read_wire-Reads true w = (omega arith, refl)
read_wire-Reads false w = refl

pub read_wire-accepted : (unread : Bool) (w : Wire) → (read_wire unread w).1.accepted ≡ w.accepted
read_wire-accepted true w = refl
read_wire-accepted false w = refl

abbrev pub wire : Io
wire = record {
  World = Wire;
  accepted = λ w. w.accepted;
  delivered = λ w. w.delivered;
  read = λ ssl w. read_wire w.unread w;
  write = λ ssl bytes w. write_wire bytes w;
  do_handshake = λ w. (HandshakeResult.finished, w);
  socket_ok = λ w. (true, w);
  connect = λ w. (immediate, w);
  allow_read = λ w. (true, w);
  write_law = λ ssl bytes w. write_wire-Writes bytes w;
  read_law = λ ssl w. read_wire-Reads w.unread w;
  write-delivered = λ ssl bytes w. write_wire-delivered bytes w;
  read-accepted = λ ssl w. read_wire-accepted w.unread w;
  do_handshake-accepted = λ w. refl;
  socket_ok-accepted = λ w. refl;
  connect-accepted = λ w. refl;
  allow_read-accepted = λ w. refl;
  allow_read-delivered = λ w. refl;
}

abbrev pub room : Buffer
room = record { store = replicate 8 0; reader_index = 0; writer_index = 0 }

abbrev pub queued : Buffer
queued = record { store = 0 ∷ b'o' ∷ b'k' ∷ 0 ∷ []; reader_index = 1; writer_index = 3 }

abbrev pub quiet : Wire
quiet = record { accepted = b'x' ∷ []; delivered = []; unread = true }

abbrev pub client : Buffer → Connection Wire
client output = record {
  fd = some 7;
  state = State.connected;
  ssl = false;
  input = room;
  output = output;
  has_connect_callback = true;
  has_disconnect_callback = true;
  effects = [];
  world = quiet;
}

-- The peer ends the stream behind what it has sent.
abbrev pub read_ending : Bool → Wire → ReadResult × Wire
read_ending true w = (
  got (b'h' ∷ b'i' ∷ []),
  record w { delivered = w.delivered ++ b'h' ∷ b'i' ∷ []; unread = false },
)
read_ending false w = (end_of_file, w)

pub read_ending-Reads :
    (unread : Bool) (w : Wire) → Reads (λ v. v.delivered) max_header_size w (read_ending unread w)
read_ending-Reads true w = (omega arith, refl)
read_ending-Reads false w = refl

pub read_ending-accepted :
    (unread : Bool) (w : Wire) → (read_ending unread w).1.accepted ≡ w.accepted
read_ending-accepted true w = refl
read_ending-accepted false w = refl

abbrev pub ending_wire : Io
ending_wire = record wire {
  read = λ ssl w. read_ending w.unread w;
  read_law = λ ssl w. read_ending-Reads w.unread w;
  read-accepted = λ ssl w. read_ending-accepted w.unread w;
}
