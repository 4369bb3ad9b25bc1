-- ===== src/Protocol/WebSocket/Tests.antt =====
-- "Hi" in one frame, and a payload of 65536 zeros.
use network_lirbary.Common.{
  ℕ, ◌≡◌, ◌≢◌, refl, false, [], ◌∷◌, ◌++◌, none, some, length, length-replicate, replicate, take,
  Bytes, arith,
}
use network_lirbary.Protocol.WebSocket.Parser.{State, FrameParser, parse}
use network_lirbary.Protocol.WebSocket.Encoder.{write_frame}
use network_lirbary.Protocol.WebSocket.RoundTrip.{parse-write_frame}
use network_lirbary.Protocol.WebSocket.RoundTrip.Headers.{text_frame}
use network_lirbary.Protocol.WebSocket.RoundTrip.Large.{parse-write_frame_large}
use network_lirbary.Protocol.WebSocket.RoundTrip.Fragments.{parse_fragmented}

abbrev waiting : FrameParser
waiting = record {
  state = State.header;
  current_frame = record { fin = false; opcode = 0; masked = false; payload = [] };
  payload_length = 0;
  mask_key = [];
  bytes_needed = 2;
}

abbrev hi : Bytes
hi = b'H' ∷ b'i' ∷ []

parse-write_frame_example :
    ((parse waiting (write_frame hi ++ 0 ∷ [])).0 ≡ some (text_frame hi, length (write_frame hi)))
    × ((parse waiting (write_frame hi ++ 0 ∷ [])).1.state ≡ State.header)
parse-write_frame_example = parse-write_frame waiting hi (0 ∷ []) refl (omega arith) (omega arith)

zeros : Bytes
zeros = replicate 65536 0

length-zeros : length zeros ≡ 65536
unfolding zeros
length-zeros = length-replicate {A = ℕ} 65536 0

parse-write_frame_large_example :
    let q = (parse waiting (write_frame zeros ++ [])).1 in
    ((parse waiting (write_frame zeros ++ [])).0 ≡ none)
    × (parse q (write_frame zeros ++ ([] ++ 1 ∷ [])) ≡ (none, q))
parse-write_frame_large_example =
    parse-write_frame_large waiting zeros [] (1 ∷ []) refl (omega (arith, length-zeros))
      (omega (arith, length-zeros)) (omega arith)

parse_fragmented_example :
    let whole = write_frame hi in
    let (r, q) = parse waiting (129 ∷ length hi ∷ b'H' ∷ []) in
    (r ≡ none)
    × ((parse q whole).0 ≡ some (text_frame (take (length hi) whole), length hi))
    × (take (length hi) whole ≢ hi)
parse_fragmented_example =
    parse_fragmented waiting hi (b'H' ∷ []) (b'i' ∷ []) refl (omega arith) refl (omega arith)
      (λ e. absurd (omega arith))
