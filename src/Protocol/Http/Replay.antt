-- ===== src/Protocol/Http/Replay.antt =====
-- What `HttpHandler::OnMessage` does once a request is complete: the context stays as it is,
-- since nothing calls `HttpContext::Reset`.
use network_lirbary.Common.{
  ℕ, zero, suc, ◌≡◌, refl, ap, false, [], ◌∷◌, Option, none, some, Bytes, Option-cases, inl, inr,
}
use network_lirbary.Common.Dict.{lookup}
use network_lirbary.Memory.Buffer.{Buffer, append}
use network_lirbary.Protocol.Host.{Host}
use network_lirbary.Protocol.Http.{
  HttpContext, State, expect_request_line, expect_headers, expect_body, done, Source, Parsed,
  incomplete, complete, throws, parse_request, parse_in, headers_loop, headers_end, parse_body,
  body_of_size, header_line, request_line, buffer_source, value_or_empty,
}
use network_lirbary.Protocol.Http.Text.{content_length, to_size}
use network_lirbary.Protocol.Http.Handler.{Serving, on_message, after_parse, answer}

abbrev Finished : {B : Type 0} → Parsed B → Type 0
Finished (incomplete c b) = Unit {0}
Finished (complete c b) = c.state ≡ done
Finished (throws c b) = Unit {0}

abbrev FinishedIf : {B : Type 0} → Option (Parsed B) → Type 0
FinishedIf none = Unit {0}
FinishedIf (some p) = Finished p

module _ {B : Type 0} (source : Source B) where
  open source use {next_line, next_bytes}

  parse_body-Finished : (c : HttpContext) (b : B) → Finished (parse_body source c b)
  unfolding parse_body body_of_size
  parse_body-Finished c b =
      elim (Option-cases (to_size (value_or_empty (lookup content_length c.headers)))) [
        | inl e ↦ rw e tt
        | inr (len, e) ↦ elim (Option-cases (next_bytes len b)) [
          | inl n ↦ rw (e, n, body_of_size) tt
          | inr ((bytes, b'), n) ↦ rw (e, n, body_of_size) refl
        ]
      ]

  headers_end-Finished :
      (c : HttpContext) (b : B) (size : Option Bytes) → Finished (headers_end source c b size)
  unfolding headers_end
  headers_end-Finished c b none = refl
  headers_end-Finished c b (some v) = parse_body-Finished (record c { state = expect_body }) b

  headers_loop-Finished :
      (fuel : ℕ) (c : HttpContext) (b : B) → FinishedIf (headers_loop source fuel c b)
  unfolding headers_loop
  headers_loop-Finished zero c b = tt
  headers_loop-Finished (suc fuel) c b = elim (Option-cases (next_line b)) [
    | inl e ↦ rw (e, headers_loop) tt
    | inr (([], b'), e) ↦
        rw (e, headers_loop) (headers_end-Finished c b' (lookup content_length c.headers))
    | inr ((x ∷ line, b'), e) ↦ elim (Option-cases (header_line c (x ∷ line))) [
      | inl bad ↦ rw (e, bad, headers_loop) tt
      | inr (c', good) ↦ rw (e, good, headers_loop) (headers_loop-Finished fuel c' b')
    ]
  ]

  parse_in-Finished :
      (s : State) (fuel : ℕ) (c : HttpContext) (b : B)
      → c.state ≡ s
      → FinishedIf (parse_in source s fuel c b)
  unfolding parse_in
  parse_in-Finished expect_request_line fuel c b e = elim (Option-cases (next_line b)) [
    | inl n ↦ rw (n, parse_in) tt
    | inr ((line, b'), n) ↦ rw (n, parse_in) (headers_loop-Finished fuel (request_line c line) b')
  ]
  parse_in-Finished expect_headers fuel c b e = headers_loop-Finished fuel c b
  parse_in-Finished expect_body fuel c b e = parse_body-Finished c b
  parse_in-Finished done fuel c b e = e

  -- A request is complete only in the state `done`.
  complete-done :
      (fuel : ℕ) (c c' : HttpContext) (b b' : B)
      → parse_request source fuel c b ≡ some (complete c' b')
      → c'.state ≡ done
  unfolding parse_request
  complete-done fuel c c' b b' e = rw (← ap FinishedIf e) (parse_in-Finished c.state fuel c b refl)

  done-complete :
      (fuel : ℕ) (c : HttpContext) (b : B)
      → c.state ≡ done
      → parse_request source fuel c b ≡ some (complete c b)
  unfolding parse_request parse_in
  done-complete fuel c b e = ap (λ s. parse_in source s fuel c b) e

-- After a request that is complete, whatever arrives: `OnMessage` answers that request again,
-- takes nothing from the buffer and keeps the context.
pub on_message-replays :
    (h : Host) (fuel more : ℕ) (s : Serving h.World) (c : HttpContext) (b : Buffer) (ys : Bytes)
    → parse_request buffer_source fuel s.context s.input ≡ some (complete c b)
    → (on_message h fuel s
        ≡ some (record { input = b; context = c; app = answer h s.app c }, false))
      × (on_message h more (record { input = append b ys; context = c; app = answer h s.app c })
          ≡ some (
            record { input = append b ys; context = c; app = answer h (answer h s.app c) c },
            false,
          ))
unfolding on_message after_parse
on_message-replays h fuel more s c b ys e = (
  rw (e, on_message),
  rw (
    done-complete buffer_source more c (append b ys)
        (complete-done buffer_source fuel s.context c s.input b e),
    on_message,
  ),
)
