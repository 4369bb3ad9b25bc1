-- ===== src/Protocol/Grpc.antt =====
-- `GrpcCodec` of lib_network/src/protocols/grpc/grpc_codec.cc: messages behind a compression flag
-- and a four-byte length.
pub mod RoundTrip
pub mod Handler
pub mod Client
mod Tests
use network_lirbary.Common.{
  ℕ, ◌+◌, ◌≡◌, refl, arith, length-append, ◌==◌, Bool, not, if◌then◌else◌, ltb, ◌∷◌, ◌++◌, Option,
  none, some, length, take, drop, get_or, Bytes, to_be32, of_be32, add64,
}
use network_lirbary.Memory.Buffer.{Buffer, readable_bytes, peek, retrieve}

abbrev pub header_size : ℕ
header_size = 5

pub encode : Bytes → Bool → Bytes
encode payload compressed = (if compressed then 1 else 0) ∷ (to_be32 (length payload) ++ payload)

-- The length behind the compression flag.
pub peek_size : Buffer → ℕ
peek_size b = of_be32 (drop 1 (peek b header_size))

-- `Decode`: the payload and the flag on `true`, and the buffer.
pub decode : Buffer → Option (Bytes × Bool) × Buffer
decode b =
    let compressed = not (get_or (peek b header_size) 0 0 == 0) in
    let size = peek_size b in
    if ltb (readable_bytes b) header_size
    then (none, b)
    else if ltb (readable_bytes b) (add64 header_size size)
    then (none, b)
    else (
      some (take size (drop (b.reader_index + header_size) b.store), compressed),
      retrieve b (add64 header_size size),
    )

pub length-encode :
    (payload : Bytes) (compressed : Bool) → length (encode payload compressed) ≡ 5 + length payload
unfolding encode
length-encode payload compressed = omega (arith, length-append (to_be32 (length payload)) payload)
