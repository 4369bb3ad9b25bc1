-- ===== src/Connection/Stream/Steps.antt =====
-- The outgoing stream, what the socket has accepted and behind it what the output buffer holds, and
-- that single steps keep it.
use network_lirbary.Common.{
  ℕ, ◌&&◌, not, ◌==◌, ◌<◌, ◌≡◌, refl, ◌∙◌, ap, ap₂, inl, inr, Bool, true, Bool-cases, [], ◌∷◌, ◌++◌,
  length, take, drop, Bytes, take_all, take-append-drop, append_assoc, length-drop, arith,
}
use network_lirbary.Memory.Buffer.{Buffer, readable_bytes, peek, retrieve}
use network_lirbary.Memory.Buffer.Contents.{
  IsValid, contents, retrieve-Queued, readable_bytes-eq, peek_lem,
}
use network_lirbary.Connection.Sockets.{Io, WriteResult, wrote, Writes}
use network_lirbary.Connection.{
  Connection, handle_close, handle_error, report_failure, write_done, after_write, Flush, go_on,
  break, leave, is_disconnected,
}

pub and_left : (a b : Bool) → a && b ≡ true → a ≡ true
and_left a b e = ground arith

pub length_zero : (bs : Bytes) → length bs ≡ 0 → bs ≡ []
length_zero [] h = refl
length_zero (b ∷ bs) h = absurd (omega arith)

module _ (io : Io) where
  open io use {World, accepted, write, write_law, socket_ok, socket_ok-accepted}

  unfoldable pub stream : Connection World → Bytes
  stream c = accepted c.world ++ contents c.output

  -- The output buffer is valid, and the stream is `bytes`.
  pub record Carries (c : Connection World) (bytes : Bytes) : Type 0 where
    pub valid : IsValid c.output
    pub holds : stream c ≡ bytes

  handle_close-Carries :
      (c : Connection World) (bytes : Bytes) → Carries c bytes → Carries (handle_close c) bytes
  unfolding handle_close stream
  handle_close-Carries c bytes v = elim (Bool-cases (is_disconnected c.state)) [
    | inl e ↦ rw e v
    | inr e ↦ rw e (record { valid = v.valid; holds = v.holds })
  ]

  pub handle_error-Carries :
      (c : Connection World) (bytes : Bytes) → Carries c bytes → Carries (handle_error c) bytes
  unfolding handle_error report_failure stream
  handle_error-Carries c bytes v = elim (Bool-cases (is_disconnected c.state)) [
    | inl e ↦ rw e v
    | inr e ↦ rw e (
        handle_close-Carries (report_failure c) bytes (record { valid = v.valid; holds = v.holds }))
  ]

  -- The socket takes the first `n` bytes of the output buffer, and they are retrieved from it.
  pub taken :
      (c : Connection World) (w : World) (bytes sent : Bytes) (n : ℕ)
      → Carries c bytes
      → sent ≡ contents c.output
      → accepted w ≡ accepted c.world ++ take n sent
      → Carries (record c { output = retrieve c.output n; world = w }) bytes
  unfolding stream
  taken c w bytes sent n v e a =
      let q = retrieve-Queued c.output n v.valid in
      record {
        valid = q.valid;
        holds =
            ap₂ ◌++◌ (a ∙ ap (λ s. accepted c.world ++ take n s) e) q.holds
            ∙ append_assoc (accepted c.world) (take n (contents c.output))
                (drop n (contents c.output))
            ∙ ap (◌++◌ (accepted c.world)) (take-append-drop n (contents c.output))
            ∙ v.holds;
      }

  pub peek_all : (b : Buffer) → IsValid b → peek b (readable_bytes b) ≡ contents b
  peek_all b v =
      peek_lem b (readable_bytes b) v (omega (arith, readable_bytes-eq b v))
      ∙ take_all _ (contents b) (omega (arith, readable_bytes-eq b v))

  -- What one step of the loop leaves, on each of its ways out; on the way round the buffer is
  -- shorter.
  abbrev pub StepCarries : Connection World → Bytes → Flush World → Type 0
  StepCarries c bytes (go_on c') =
      Carries c' bytes
      × (length (contents c'.output) < length (contents c.output))
      × (c'.state ≡ c.state)
  StepCarries c bytes (break c') = Carries c' bytes
  StepCarries c bytes (leave c') = Carries c' bytes

  pub after_write-Carries :
      (c : Connection World) (bytes : Bytes) (r : WriteResult × World)
      → Carries c bytes
      → 0 < length (contents c.output)
      → Writes accepted (peek c.output (readable_bytes c.output)) c.world r
      → StepCarries c bytes (after_write io c r)
  unfolding after_write stream
  after_write-Carries c bytes (wrote n, w) v some_left law =
      let t = taken c w bytes _ n v (peek_all c.output v.valid) law.2 in
      (
        t,
        omega (
          arith,
          ap length (retrieve-Queued c.output n v.valid).holds,
          length-drop n (contents c.output),
          law.0,
        ),
        refl,
      )
  after_write-Carries c bytes (WriteResult.retry, w) v some_left law = record {
    valid = v.valid;
    holds = ap (λ a. a ++ contents c.output) law ∙ v.holds;
  }
  after_write-Carries c bytes (WriteResult.fatal, w) v some_left law =
      handle_error-Carries (record c { world = w }) bytes
        (record { valid = v.valid; holds = ap (λ a. a ++ contents c.output) law ∙ v.holds })

  pub write_done-Carries :
      (c : Connection World) (bytes : Bytes) → Carries c bytes → Carries (write_done io c) bytes
  unfolding write_done stream
  write_done-Carries c bytes v =
      elim (Bool-cases ((readable_bytes c.output == 0) && not (is_disconnected c.state))) [
        | inl e ↦ rw e (record { valid = v.valid; holds = v.holds })
        | inr e ↦ rw e v
      ]
