-- ===== src/Connection/Sockets.antt =====
-- The operating system and OpenSSL, as a connection uses them. `accepted` is what the peer's side
-- of the socket has taken so far, `delivered` what has been read from it; the laws are those of
-- write(2), read(2), SSL_write and SSL_read. `retry` is EAGAIN, EWOULDBLOCK or SSL_ERROR_WANT_*.
use network_lirbary.Common.{ℕ, ◌≤◌, ◌<◌, ◌≡◌, Bool, ◌++◌, length, take, Bytes}

pub data ReadResult : Type 0 where
  got : Bytes → ReadResult
  end_of_file retry fatal : ReadResult

pub data WriteResult : Type 0 where
  wrote : ℕ → WriteResult
  retry fatal : WriteResult

pub data HandshakeResult : Type 0 where
  finished retry fatal : HandshakeResult

pub data ConnectResult : Type 0 where
  immediate in_progress refused : ConnectResult

-- What a call that writes `bytes` may do to the stream.
abbrev pub Writes :
    {World : Type 0} → (World → Bytes) → Bytes → World → WriteResult × World → Type 0
Writes accepted bytes w (wrote n, w') =
    (0 < n) × (n ≤ length bytes) × (accepted w' ≡ accepted w ++ take n bytes)
Writes accepted bytes w (WriteResult.retry, w') = accepted w' ≡ accepted w
Writes accepted bytes w (WriteResult.fatal, w') = accepted w' ≡ accepted w

abbrev pub Reads : {World : Type 0} → (World → Bytes) → ℕ → World → ReadResult × World → Type 0
Reads delivered limit w (got bytes, w') =
    (length bytes ≤ limit) × (delivered w' ≡ delivered w ++ bytes)
Reads delivered limit w (end_of_file, w') = delivered w' ≡ delivered w
Reads delivered limit w (ReadResult.retry, w') = delivered w' ≡ delivered w
Reads delivered limit w (ReadResult.fatal, w') = delivered w' ≡ delivered w

-- 64 KB, the size of the buffer that is read into.
abbrev pub max_header_size : ℕ
max_header_size = 65536

pub record Io : Type 1 where
  pub World : Type 0
  pub accepted : World → Bytes
  pub delivered : World → Bytes
  -- The first argument says whether the connection uses TLS.
  pub read : Bool → World → ReadResult × World
  pub write : Bool → Bytes → World → WriteResult × World
  pub do_handshake : World → HandshakeResult × World
  -- `getsockopt(SO_ERROR)` reports no error.
  pub socket_ok : World → Bool × World
  pub connect : World → ConnectResult × World
  -- The token bucket of the connection, or true.
  pub allow_read : World → Bool × World
  pub write_law :
      (ssl : Bool) (bytes : Bytes) (w : World) → Writes accepted bytes w (write ssl bytes w)
  pub read_law : (ssl : Bool) (w : World) → Reads delivered max_header_size w (read ssl w)
  pub write-delivered :
      (ssl : Bool) (bytes : Bytes) (w : World) → delivered (write ssl bytes w).1 ≡ delivered w
  pub read-accepted : (ssl : Bool) (w : World) → accepted (read ssl w).1 ≡ accepted w
  pub do_handshake-accepted : (w : World) → accepted (do_handshake w).1 ≡ accepted w
  pub socket_ok-accepted : (w : World) → accepted (socket_ok w).1 ≡ accepted w
  pub connect-accepted : (w : World) → accepted (connect w).1 ≡ accepted w
  pub allow_read-accepted : (w : World) → accepted (allow_read w).1 ≡ accepted w
  pub allow_read-delivered : (w : World) → delivered (allow_read w).1 ≡ delivered w
