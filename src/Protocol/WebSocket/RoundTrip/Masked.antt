-- ===== src/Protocol/WebSocket/RoundTrip/Masked.antt =====
-- Masked frames, as RFC 6455 has clients send them.
use network_lirbary.Common.Xor.{xor-xor}
use network_lirbary.Common.{
  ℕ, suc, ◌+◌, ◌/◌, ◌%◌, ◌^◌, ◌<◌, ◌≤◌, ◌≡◌, refl, ap, ap₂, ◌∙◌, bit_xor, true, false, ◌==◌, ltb,
  le→ltb, if◌then◌else◌, Bool-cases, inl, inr, ltb→lt, [], ◌∷◌, ◌++◌, All, some, length, drop,
  get_or, Bytes, sub64, take-append_exact, length-append, arith,
}
use network_lirbary.Protocol.WebSocket.Parser.{
  State, Frame, FrameParser, go, fixed_header, in_header, in_mask_key, read_mask_key, read_payload,
  step2, step3, step4, length_known, unmask, parse, Parsed,
}
use network_lirbary.Protocol.WebSocket.RoundTrip.Headers.{length16}

-- A masking key has four bytes.
pub record Key : Type 0 where
  pub k0 : ℕ
  pub k1 : ℕ
  pub k2 : ℕ
  pub k3 : ℕ

abbrev pub IsByte : ℕ → Type 0
IsByte x = x < 256

abbrev pub IsKey : Key → Type 0
IsKey k = IsByte k.k0 × IsByte k.k1 × IsByte k.k2 × IsByte k.k3

abbrev pub bytes_of : Key → Bytes
bytes_of k = k.k0 ∷ k.k1 ∷ k.k2 ∷ k.k3 ∷ []

-- The first byte is masked with the first byte of the key, and the key goes around.
abbrev pub mask_with : ℕ → ℕ → ℕ → ℕ → Bytes → Bytes
mask_with a b c d [] = []
mask_with a b c d (x ∷ xs) = bit_xor x a ∷ mask_with b c d a xs

abbrev pub mask : Key → Bytes → Bytes
mask k m = mask_with k.k0 k.k1 k.k2 k.k3 m

-- A final masked text frame with a payload of fewer than 65536 bytes.
abbrev pub masked_header : ℕ → Bytes
masked_header n =
    if ltb n 126 then 129 ∷ (128 + n) ∷ [] else 129 ∷ 254 ∷ (n / 2 ^ 8 % 256) ∷ (n % 256) ∷ []

unfoldable pub masked_frame : Key → Bytes → Bytes
masked_frame k m = masked_header (length m) ++ (bytes_of k ++ mask k m)

abbrev pub masked_text : Bytes → Frame
masked_text m = record { fin = true; opcode = 1; masked = true; payload = m }

length-mask_with : (a b c d : ℕ) (m : Bytes) → length (mask_with a b c d m) ≡ length m
length-mask_with a b c d [] = refl
length-mask_with a b c d (x ∷ m) = ap suc (length-mask_with b c d a m)

module _ (k : Key) (ok : IsKey k) where
  abbrev at : ℕ → ℕ
  at i = get_or (bytes_of k) (i % 4) 0

  -- Unmasking, from each place of the key.
  mutual
    from0 :
        (i : ℕ) (m : Bytes)
        → i % 4 ≡ 0
        → All IsByte m
        → unmask (bytes_of k) i (mask_with k.k0 k.k1 k.k2 k.k3 m) ≡ m
    from0 i [] e p = refl
    from0 i (x ∷ m) e p =
        ap₂ ◌∷◌
          (ap (λ j. bit_xor (bit_xor x k.k0) (get_or (bytes_of k) j 0)) e ∙ xor-xor x k.k0 p.0 ok.0)
          (from1 (i + 1) m (omega arith) p.1)

    from1 :
        (i : ℕ) (m : Bytes)
        → i % 4 ≡ 1
        → All IsByte m
        → unmask (bytes_of k) i (mask_with k.k1 k.k2 k.k3 k.k0 m) ≡ m
    from1 i [] e p = refl
    from1 i (x ∷ m) e p =
        ap₂ ◌∷◌
          (ap (λ j. bit_xor (bit_xor x k.k1) (get_or (bytes_of k) j 0)) e ∙ xor-xor x k.k1 p.0 ok.1)
          (from2 (i + 1) m (omega arith) p.1)

    from2 :
        (i : ℕ) (m : Bytes)
        → i % 4 ≡ 2
        → All IsByte m
        → unmask (bytes_of k) i (mask_with k.k2 k.k3 k.k0 k.k1 m) ≡ m
    from2 i [] e p = refl
    from2 i (x ∷ m) e p =
        ap₂ ◌∷◌
          (ap (λ j. bit_xor (bit_xor x k.k2) (get_or (bytes_of k) j 0)) e ∙ xor-xor x k.k2 p.0 ok.2)
          (from3 (i + 1) m (omega arith) p.1)

    from3 :
        (i : ℕ) (m : Bytes)
        → i % 4 ≡ 3
        → All IsByte m
        → unmask (bytes_of k) i (mask_with k.k3 k.k0 k.k1 k.k2 m) ≡ m
    from3 i [] e p = refl
    from3 i (x ∷ m) e p =
        ap₂ ◌∷◌
          (ap (λ j. bit_xor (bit_xor x k.k3) (get_or (bytes_of k) j 0)) e ∙ xor-xor x k.k3 p.0 ok.3)
          (from0 (i + 1) m (omega arith) p.1)

  unmask-mask : (m : Bytes) → All IsByte m → unmask (bytes_of k) 0 (mask k m) ≡ m
  unmask-mask m p = from0 0 m refl p

abbrev with_mask : FrameParser → FrameParser
with_mask p = record p {
  current_frame = record p.current_frame { fin = true; opcode = 1; masked = true };
}

short_masked :
    (p : FrameParser) (n : ℕ) (more : Bytes)
    → n < 126
    → fixed_header p (129 ∷ (128 + n) ∷ more) ≡ go (length_known (with_mask p) n) 2
unfolding fixed_header
short_masked p n more h =
    let code : (128 + n) % 128 ≡ n = omega arith in
    let top : ((128 + n) / 128 % 2 == 1) ≡ true = ground arith in
    let long : ltb (suc (suc (length more))) 2 ≡ false = le→ltb _ _ (omega arith) in
    let not_126 : (n == 126) ≡ false = ground arith in
    let not_127 : (n == 127) ≡ false = ground arith in rw (top, code, long, not_126, not_127)

extended_masked :
    (p : FrameParser) (more : Bytes)
    → fixed_header p (129 ∷ 254 ∷ more)
      ≡ go (record (with_mask p) { state = State.payload_length; bytes_needed = 2 }) 2
unfolding fixed_header
extended_masked p more = rw (le→ltb (suc (suc (length more))) 2 (omega arith))

-- The parser after a whole masked frame.
abbrev finished : FrameParser → Bytes → Bytes → FrameParser
finished q key m = record q {
  state = State.header;
  mask_key = key;
  bytes_needed = q.payload_length;
  current_frame = record q.current_frame { payload = m };
}

-- The key and the payload behind it, at an offset.
masked_read :
    (q : FrameParser) (bytes : Bytes) (offset : ℕ) (key : Key) (body rest : Bytes)
    → drop offset bytes ≡ bytes_of key ++ (body ++ rest)
    → drop (offset + 4) bytes ≡ body ++ rest
    → length bytes ≡ offset + (4 + (length body + length rest))
    → length bytes < 2 ^ 63
    → q.state ≡ State.mask_key
    → q.payload_length ≡ length body
    → q.current_frame.masked ≡ true
    → step4 (step3 (go q offset) bytes) bytes ≡ (
      some (
        record q.current_frame { payload = unmask (bytes_of key) 0 body },
        offset + 4 + length body,
      ),
      finished q (bytes_of key) (unmask (bytes_of key) 0 body),
    )
unfolding step3 step4 read_mask_key read_payload
masked_read q bytes offset key body rest d d4 n small ready len m =
    ap (λ st. step4 (in_mask_key st q bytes offset) bytes) ready
    ∙ ap (λ g. step4 g bytes) key_read
    ∙ payload_there
  where
    q1 : FrameParser
    q1 = record q {
      mask_key = bytes_of key;
      state = State.payload;
      bytes_needed = q.payload_length;
    }

    key_read : read_mask_key q bytes offset ≡ go q1 (offset + 4)
    key_read =
        let left : sub64 (length bytes) offset ≡ 4 + (length body + length rest) = omega arith in
        let enough : ltb (4 + (length body + length rest)) 4 ≡ false = le→ltb _ _ (omega arith) in
        rw (left, enough, d) refl

    payload_there : read_payload q1 bytes (offset + 4) ≡ (
      some (
        record q.current_frame { payload = unmask (bytes_of key) 0 body },
        offset + 4 + length body,
      ),
      finished q (bytes_of key) (unmask (bytes_of key) 0 body),
    )
    payload_there =
        let left : sub64 (length bytes) (offset + 4) ≡ length body + length rest = omega arith in
        let enough : ltb (length body + length rest) (length body) ≡ false =
          le→ltb _ _ (omega arith) in
        rw (len, d4, m, left, enough, take-append_exact (length body) body rest refl) refl

short_masked_frame :
    (p : FrameParser) (k : Key) (body rest : Bytes)
    → p.state ≡ State.header
    → length body + length rest < 2 ^ 62
    → length body < 126
    → parse p (129 ∷ (128 + length body) ∷ (bytes_of k ++ (body ++ rest))) ≡ (
      some (masked_text (unmask (bytes_of k) 0 body), 6 + length body),
      finished (length_known (with_mask p) (length body)) (bytes_of k) (unmask (bytes_of k) 0 body),
    )
unfolding parse
short_masked_frame p k body rest ready small h =
    ap (λ st. step4 (step3 (step2 (in_header st p bytes) bytes) bytes) bytes) ready
    ∙ ap (λ g. step4 (step3 (step2 g bytes) bytes) bytes) (short_masked p (length body) _ h)
    ∙ masked_read (length_known (with_mask p) (length body)) bytes 2 k body rest refl refl
        (omega (arith, length-append body rest)) (omega (arith, length-append body rest)) refl refl
        refl
  where
    bytes : Bytes
    bytes = 129 ∷ (128 + length body) ∷ (bytes_of k ++ (body ++ rest))

extended_masked_frame :
    (p : FrameParser) (k : Key) (body rest : Bytes)
    → p.state ≡ State.header
    → length body + length rest < 2 ^ 61
    → length body < 65536
    → parse p (
        129
        ∷ 254
        ∷ (length body / 2 ^ 8 % 256)
        ∷ (length body % 256)
        ∷ (bytes_of k ++ (body ++ rest)))
      ≡ (
        some (masked_text (unmask (bytes_of k) 0 body), 8 + length body),
        finished
            (length_known
              (record (with_mask p) { state = State.payload_length; bytes_needed = 2 })
              (length body))
            (bytes_of k)
            (unmask (bytes_of k) 0 body),
      )
unfolding parse
extended_masked_frame p k body rest ready small h =
    ap (λ st. step4 (step3 (step2 (in_header st p bytes) bytes) bytes) bytes) ready
    ∙ ap (λ g. step4 (step3 (step2 g bytes) bytes) bytes) (extended_masked p _)
    ∙ ap (λ g. step4 (step3 g bytes) bytes)
        (length16 q 129 254 (length body) (bytes_of k ++ (body ++ rest)) h
          (omega (arith, length-append body rest)) refl)
    ∙ masked_read (length_known q (length body)) bytes 4 k body rest refl refl
        (omega (arith, length-append body rest)) (omega (arith, length-append body rest)) refl refl
        refl
  where
    bytes : Bytes
    bytes =
        129
        ∷ 254
        ∷ (length body / 2 ^ 8 % 256)
        ∷ (length body % 256)
        ∷ (bytes_of k ++ (body ++ rest))

    q : FrameParser
    q = record (with_mask p) { state = State.payload_length; bytes_needed = 2 }

-- What a masked frame of a payload comes to, whatever follows it.
pub parse-masked_frame :
    (p : FrameParser) (k : Key) (m rest : Bytes)
    → p.state ≡ State.header
    → IsKey k
    → All IsByte m
    → length m < 65536
    → length rest < 2 ^ 60
    → ((parse p (masked_frame k m ++ rest)).0 ≡ some (masked_text m, length (masked_frame k m)))
      × ((parse p (masked_frame k m ++ rest)).1.state ≡ State.header)
unfolding masked_frame
parse-masked_frame p k m rest ready ok are_bytes h small =
    let same : length (mask k m) ≡ length m = length-mask_with k.k0 k.k1 k.k2 k.k3 m in
    let back : unmask (bytes_of k) 0 (mask k m) ≡ m = unmask-mask k ok m are_bytes in
    elim (Bool-cases (ltb (length m) 126)) [
      | inl short ↦
          let e =
            short_masked_frame p k (mask k m) rest ready (omega arith)
              (omega (arith, ltb→lt _ _ short)) in
          rw (short, ← same)
            (
              ap (λ (r : Parsed). r.0) e ∙ ap₂ (λ b n. some (masked_text b, n)) back (omega arith),
              ap (λ (r : Parsed). r.1.state) e,
            )
      | inr long ↦
          let e = extended_masked_frame p k (mask k m) rest ready (omega arith) (omega arith) in
          rw (long, ← same)
            (
              ap (λ (r : Parsed). r.0) e ∙ ap₂ (λ b n. some (masked_text b, n)) back (omega arith),
              ap (λ (r : Parsed). r.1.state) e,
            )
    ]

pub length-masked_frame : (k : Key) (m : Bytes) → 2 ≤ length (masked_frame k m)
unfolding masked_frame
length-masked_frame k m = ground arith
