-- ===== src/Protocol/Framing.antt =====
-- Messages with a length prefix: four bytes of length in network order, then the message. What the
-- TCP and RPC handlers, and their clients, find in a buffer that begins with such a frame.
use network_lirbary.Common.{
  ℕ, ◌+◌, ◌^◌, ◌≤◌, ◌<◌, ◌≡◌, refl, ap, ◌∙◌, ◌⊎◌, Bool, false, All, zero, suc, some, List, [], ◌∷◌,
  ◌++◌, length, take, drop, Bytes, arith, to_be32, of_be32, of_be32-to_be32, take-append_exact,
  drop-append_exact, length-append, append_assoc,
}
use network_lirbary.Protocol.Host.{
  App, Handling, Turn, again, stop, run_turns, run_turns-again, run_turns-stop,
}
use network_lirbary.Memory.Buffer.{Buffer, readable_bytes, peek, retrieve}
use network_lirbary.Memory.Buffer.Contents.{
  IsValid, contents, Queued, readable_bytes-eq, peek_lem, peek_at_lem, retrieve-Queued,
}

-- `htonl(size)` and the payload, as every sender of the repository builds it.
unfoldable pub frame : Bytes → Bytes
frame m = to_be32 (length m) ++ m

-- The length prefix at the front of the buffer.
pub peek_length : Buffer → ℕ
peek_length b = of_be32 (peek b 4)

-- `n` bytes read from `Peek() + 4`.
pub peek_behind_prefix : Buffer → ℕ → Bytes
peek_behind_prefix b n = take n (drop (b.reader_index + 4) b.store)

pub peek_length-eq :
    (b : Buffer)
    → IsValid b
    → 4 ≤ length (contents b)
    → peek_length b ≡ of_be32 (take 4 (contents b))
unfolding peek_length
peek_length-eq b v k = ap of_be32 (peek_lem b 4 v k)

-- The buffer is valid, and begins with the frame of `m`; `more` follows.
module _ (b : Buffer) (m more : Bytes) (v : IsValid b) (e : contents b ≡ frame m ++ more) where
  pub readable-frame : readable_bytes b ≡ 4 + (length m + length more)
  unfolding frame
  readable-frame = readable_bytes-eq b v ∙ ap length e ∙ omega (arith, length-append m more)

  pub peek_length-frame : length m < 2 ^ 32 → peek_length b ≡ length m
  unfolding frame peek_length
  peek_length-frame h =
      ap of_be32 (peek_lem b 4 v (omega (arith, ap length e)) ∙ ap (take 4) e)
      ∙ of_be32-to_be32 (length m) h

  pub after_prefix : Queued (retrieve b 4) (m ++ more)
  unfolding frame
  after_prefix =
      let q = retrieve-Queued b 4 v in record { valid = q.valid; holds = q.holds ∙ ap (drop 4) e }

  pub peek_message : peek (retrieve b 4) (length m) ≡ m
  peek_message =
      peek_lem (retrieve b 4) (length m) after_prefix.valid
        (omega (arith, ap length after_prefix.holds, length-append m more))
      ∙ ap (take (length m)) after_prefix.holds
      ∙ take-append_exact (length m) m more refl

  pub after_message : Queued (retrieve (retrieve b 4) (length m)) more
  after_message =
      let q = retrieve-Queued (retrieve b 4) (length m) after_prefix.valid in
      record {
        valid = q.valid;
        holds =
            q.holds
            ∙ ap (drop (length m)) after_prefix.holds
            ∙ drop-append_exact (length m) m more refl;
      }

  pub after_frame : Queued (retrieve b (4 + length m)) more
  unfolding frame
  after_frame =
      let q = retrieve-Queued b (4 + length m) v in
      record {
        valid = q.valid;
        holds =
            q.holds
            ∙ ap (drop (4 + length m)) e
            ∙ drop-append_exact (4 + length m) (frame m) more (omega arith);
      }

  pub peek_behind_prefix-frame : peek_behind_prefix b (length m) ≡ m
  unfolding frame peek_behind_prefix
  peek_behind_prefix-frame =
      peek_at_lem b 4 (length m) v (omega (arith, ap length e, length-append m more))
      ∙ ap (λ bs. take (length m) (drop 4 bs)) e
      ∙ take-append_exact (length m) m more refl

-- What is left at the end: fewer than four bytes, or an acceptable length and fewer bytes than
-- that.
abbrev pub IsPartial : ℕ → Bytes → Type 0
IsPartial limit rest =
    (length rest < 4)
    ⊎ ((of_be32 (take 4 rest) ≤ limit) × (length rest < 4 + of_be32 (take 4 rest)))

abbrev pub frames : List Bytes → Bytes
frames [] = []
frames (m ∷ ms) = frame m ++ frames ms

module _ {World : Type 0} (process : App World → Bytes → App World × Bool) where
  -- The messages in order, and no exception on the way.
  abbrev pub process_all : App World → List Bytes → App World
  process_all a [] = a
  process_all a (m ∷ ms) = process_all (process a m).0 ms

  abbrev pub IsQuiet : App World → List Bytes → Type 0
  IsQuiet a [] = Unit {0}
  IsQuiet a (m ∷ ms) = ((process a m).1 ≡ false) × IsQuiet (process a m).0 ms

-- A loop over length-prefixed messages, from what one round does with a frame and with a rest.
module _ {World : Type 0} (turn : Handling World → Turn (Handling World))
    (process : App World → Bytes → App World × Bool) (limit : ℕ)
    (on_frame : (s : Handling World) (m more : Bytes)
      → IsValid s.input
      → contents s.input ≡ frame m ++ more
      → length m ≤ limit
      → (process s.app m).1 ≡ false
      → (b : Buffer) × (turn s ≡ again (record { input = b; app = (process s.app m).0 }))
        × Queued b more)
    (on_rest : (s : Handling World)
      → IsValid s.input
      → IsPartial limit (contents s.input)
      → turn s ≡ stop s) where
  pub drain :
      (s : Handling World) (ms : List Bytes) (rest : Bytes) (fuel : ℕ)
      → IsValid s.input
      → contents s.input ≡ frames ms ++ rest
      → All (λ m. length m ≤ limit) ms
      → IsPartial limit rest
      → IsQuiet process s.app ms
      → length ms < fuel
      → (b : Buffer) × (run_turns turn fuel s
          ≡ some (stop (record { input = b; app = process_all process s.app ms })))
        × Queued b rest
  drain s ms rest zero v e fit p q h = absurd (omega arith)
  drain s [] rest (suc fuel) v e fit p q h = (
    s.input,
    run_turns-stop turn fuel s s (on_rest s v (rw e p)),
    record { valid = v; holds = e },
  )
  drain s (m ∷ ms) rest (suc fuel) v e fit p q h =
      let (b, went, queued) =
        on_frame s m (frames ms ++ rest) v (e ∙ append_assoc (frame m) (frames ms) rest) fit.0
          q.0 in
      let (b', done, left) =
        drain (record { input = b; app = (process s.app m).0 }) ms rest fuel queued.valid
          queued.holds fit.1 p q.1 (omega arith) in
      (b', run_turns-again turn fuel s _ went ∙ done, left)
