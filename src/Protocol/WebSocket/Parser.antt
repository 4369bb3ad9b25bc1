-- ===== src/Protocol/WebSocket/Parser.antt =====
-- `FrameParser` of lib_network/src/protocols/websocket/frame_parser.cc. A byte is a number below
-- 256; `uint64_t` and `size_t` lengths wrap. `wait` is `return false`, with the parser as it is
-- then.
use network_lirbary.Common.{
  ℕ, suc, ◌+◌, ◌*◌, ◌/◌, ◌%◌, ◌^◌, bit_xor, Bool, ◌==◌, ltb, if◌then◌else◌, [], ◌∷◌, Option, none,
  some, length, take, drop, get_or, Bytes, sub64, of_be16,
}

pub data State : Type 0 where
  header payload_length mask_key payload : State

-- An opcode is its four-bit code: 1 is text, 2 binary, 8 close.
pub record Frame : Type 0 where
  pub fin : Bool
  pub opcode : ℕ
  pub masked : Bool
  pub payload : Bytes

pub record FrameParser : Type 0 where
  pub state : State
  pub current_frame : Frame
  pub payload_length : ℕ
  pub mask_key : Bytes
  pub bytes_needed : ℕ

-- The members that the constructor leaves uninitialised are given as arguments.
unfoldable pub new : Frame → Bytes → FrameParser
new frame key = record {
  state = header;
  current_frame = frame;
  payload_length = 0;
  mask_key = key;
  bytes_needed = 2;
}

-- A step of `Parse`: on to the next at an offset, or `return false`.
pub data Progress : Type 0 where
  go : FrameParser → ℕ → Progress
  wait : FrameParser → Progress

abbrev pub top_bit : ℕ → Bool
top_bit byte = byte / 128 % 2 == 1

-- After the length is known: the mask key or the payload is next.
abbrev pub length_known : FrameParser → ℕ → FrameParser
length_known p n = record p {
  payload_length = n;
  state = if p.current_frame.masked then mask_key else payload;
  bytes_needed = if p.current_frame.masked then 4 else n;
}

-- 1. Fixed header.
unfoldable pub fixed_header : FrameParser → Bytes → Progress
fixed_header p bytes =
    let byte1 = get_or bytes 0 0 in
    let byte2 = get_or bytes 1 0 in
    let frame : Frame = record p.current_frame {
      fin = top_bit byte1;
      opcode = byte1 % 16;
      masked = top_bit byte2;
    } in
    let q : FrameParser = record p { current_frame = frame } in
    let len_code = byte2 % 128 in
    if ltb (length bytes) 2
    then wait p
    else if len_code == 126
    then go (record q { state = payload_length; bytes_needed = 2 }) 2
    else if len_code == 127
    then go (record q { state = payload_length; bytes_needed = 8 }) 2
    else go (length_known q len_code) 2

-- `be64toh_safe`: `result = (result << 8) | byte`, eight times.
abbrev pub be64 : ℕ → ℕ → Bytes → ℕ
be64 ℕ.zero result bytes = result
be64 (suc n) result [] = be64 n (result * 256 % 2 ^ 64) []
be64 (suc n) result (b ∷ bs) = be64 n ((result * 256 + b) % 2 ^ 64) bs

-- A 64-bit length with its top bit set, or above 1 GB, is refused.
unfoldable pub accept_length : FrameParser → ℕ → ℕ → Progress
accept_length p l offset =
    if l / 2 ^ 63 % 2 == 1
    then wait p
    else if ltb (1024 * 1024 * 1024) l
    then wait p
    else go (length_known p l) offset

-- 2. Extended payload length.
unfoldable pub extended_length : FrameParser → Bytes → ℕ → Progress
extended_length p bytes offset =
    let l16 = of_be16 (drop offset bytes) in
    if ltb (sub64 (length bytes) offset) p.bytes_needed
    then wait p
    else if p.bytes_needed == 2
    then go (length_known p l16) (offset + p.bytes_needed)
    else accept_length p (be64 8 0 (drop offset bytes)) (offset + p.bytes_needed)

-- 3. Mask key.
unfoldable pub read_mask_key : FrameParser → Bytes → ℕ → Progress
read_mask_key p bytes offset =
    if ltb (sub64 (length bytes) offset) 4
    then wait p
    else go
        (record p {
          mask_key = take 4 (drop offset bytes);
          state = payload;
          bytes_needed = p.payload_length;
        })
        (offset + 4)

-- `payload[i] ^= mask_key[i % 4]`.
abbrev pub unmask : Bytes → ℕ → Bytes → Bytes
unmask key i [] = []
unmask key i (b ∷ bs) = bit_xor b (get_or key (i % 4) 0) ∷ unmask key (i + 1) bs

-- What `Parse` returns: the frame and the bytes consumed on `true`.
abbrev pub Parsed : Type 0
Parsed = Option (Frame × ℕ) × FrameParser

-- 4. Payload.
unfoldable pub read_payload : FrameParser → Bytes → ℕ → Parsed
read_payload p bytes offset =
    let raw = take p.payload_length (drop offset bytes) in
    let frame : Frame = record p.current_frame {
      payload = if p.current_frame.masked then unmask p.mask_key 0 raw else raw;
    } in
    if ltb (sub64 (length bytes) offset) p.payload_length then (none, p) else (
      some (frame, offset + p.payload_length),
      record p { state = header; current_frame = frame },
    )

-- The four steps, each guarded by the state that it is for.
abbrev pub in_header : State → FrameParser → Bytes → Progress
in_header header p bytes = fixed_header p bytes
in_header _ p bytes = go p 0

abbrev pub in_payload_length : State → FrameParser → Bytes → ℕ → Progress
in_payload_length payload_length p bytes offset = extended_length p bytes offset
in_payload_length _ p bytes offset = go p offset

abbrev pub in_mask_key : State → FrameParser → Bytes → ℕ → Progress
in_mask_key mask_key p bytes offset = read_mask_key p bytes offset
in_mask_key _ p bytes offset = go p offset

abbrev pub in_payload : State → FrameParser → Bytes → ℕ → Parsed
in_payload payload p bytes offset = read_payload p bytes offset
in_payload _ p bytes offset = (none, p)

unfoldable pub step2 : Progress → Bytes → Progress
step2 (wait p) bytes = wait p
step2 (go p offset) bytes = in_payload_length p.state p bytes offset

unfoldable pub step3 : Progress → Bytes → Progress
step3 (wait p) bytes = wait p
step3 (go p offset) bytes = in_mask_key p.state p bytes offset

unfoldable pub step4 : Progress → Bytes → Parsed
step4 (wait p) bytes = (none, p)
step4 (go p offset) bytes = in_payload p.state p bytes offset

-- `Parse`.
unfoldable pub parse : FrameParser → Bytes → Parsed
unfolding step2 step3 step4
parse p bytes = step4 (step3 (step2 (in_header p.state p bytes) bytes) bytes) bytes
