-- ===== src/Protocol/Grpc/RoundTrip.antt =====
-- The decoder on what the encoder writes.
use network_lirbary.Common.{
  ◌+◌, ◌^◌, ◌<◌, ◌≡◌, refl, ap, ap₂, ◌∙◌, Bool, true, false, ◌==◌, not, le→ltb, ◌++◌, some, length,
  take, drop, get_or, Bytes, add64, of_be32, of_be32-to_be32, take-append_exact, drop-append_exact,
  length-append, arith,
}
use network_lirbary.Memory.Buffer.{Buffer, readable_bytes, peek, retrieve}
use network_lirbary.Memory.Buffer.Contents.{
  IsValid, contents, Queued, readable_bytes-eq, peek_lem, peek_at_lem, retrieve-Queued,
}
use network_lirbary.Protocol.Grpc.{encode, peek_size, decode}

module _ (b : Buffer) (payload : Bytes) (compressed : Bool) (more : Bytes) (v : IsValid b)
    (e : contents b ≡ encode payload compressed ++ more) (h : length payload < 2 ^ 32) where
  size-contents : length (contents b) ≡ 5 + (length payload + length more)
  unfolding encode
  size-contents = ap length e ∙ omega (arith, length-append payload more)

  readable : readable_bytes b ≡ 5 + (length payload + length more)
  readable = readable_bytes-eq b v ∙ size-contents

  header : peek b 5 ≡ take 5 (encode payload compressed ++ more)
  header = peek_lem b 5 v (omega (arith, size-contents)) ∙ ap (take 5) e

  flag :
      (bit : Bool)
      → bit ≡ compressed
      → not (get_or (take 5 (encode payload bit ++ more)) 0 0 == 0) ≡ bit
  unfolding encode
  flag true s = refl
  flag false s = refl

  peek_size-eq : peek_size b ≡ length payload
  unfolding peek_size encode
  peek_size-eq = ap (λ bs. of_be32 (drop 1 bs)) header ∙ of_be32-to_be32 (length payload) h

  payload-eq : take (length payload) (drop (b.reader_index + 5) b.store) ≡ payload
  unfolding encode
  payload-eq =
      peek_at_lem b 5 (length payload) v (omega (arith, size-contents))
      ∙ ap (λ bs. take (length payload) (drop 5 bs)) e
      ∙ take-append_exact (length payload) payload more refl

  rest : Queued (retrieve b (5 + length payload)) more
  unfolding encode
  rest =
      let q = retrieve-Queued b (5 + length payload) v in
      record {
        valid = q.valid;
        holds =
            q.holds
            ∙ ap (drop (5 + length payload)) e
            ∙ drop-append_exact (5 + length payload) (encode payload compressed) more (omega arith);
      }

-- From a valid buffer that begins with an encoded message of fewer than 2^32 bytes, compressed or
-- not, `Decode` returns exactly this payload and this flag, and leaves exactly what follows.
pub decode-encode :
    (b : Buffer) (payload : Bytes) (compressed : Bool) (more : Bytes)
    → IsValid b
    → contents b ≡ encode payload compressed ++ more
    → length payload < 2 ^ 32
    → ((decode b).0 ≡ some (payload, compressed)) × Queued (decode b).1 more
unfolding decode
decode-encode b payload compressed more v e h =
    let exact : add64 5 (length payload) ≡ 5 + length payload = omega arith in
    let whole = 5 + (length payload + length more) in
    rw
      (
        peek_size-eq b payload compressed more v e h,
        exact,
        readable b payload compressed more v e h,
        le→ltb whole 5 (omega arith),
        le→ltb whole (5 + length payload) (omega arith),
      )
      (
        ap₂ (λ p c. some (p, c)) (payload-eq b payload compressed more v e h)
            (ap (λ bs. not (get_or bs 0 0 == 0)) (header b payload compressed more v e h)
              ∙ flag b payload compressed more v e h compressed refl),
        rest b payload compressed more v e h,
      )
