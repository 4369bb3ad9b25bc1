-- ===== src/Protocol/Http2/Session/Preface.antt =====
-- A session from its first bytes: the client's connection preface, and the frames behind it.
use network_lirbary.Common.{
  ℕ, ◌<◌, ◌≤◌, ◌≡◌, ◌≢◌, refl, sym, ap, ◌∙◌, true, false, Bool-cases, inl, inr, leb, le→leb, List,
  [], ◌∷◌, ◌++◌, All, some, length, take, drop, Bytes, arith,
}
use network_lirbary.Common.Dict.{bytes_eq, bytes_eq_refl, bytes_eq_iff}
use network_lirbary.Memory.Buffer.{Buffer, readable_bytes, peek, retrieve}
use network_lirbary.Memory.Buffer.Contents.{
  IsValid, contents, Queued, readable_bytes-eq, peek_lem, retrieve-Queued,
}
use network_lirbary.Protocol.Host.{force_close}
use network_lirbary.Protocol.Http2.{State, Frame}
use network_lirbary.Protocol.Http2.Session.{Session, client_preface, frames_loop, on_data}
use network_lirbary.Protocol.Http2.Session.Delivery.{wire, IsFrame, told_all, frames_loop-delivers}

accepts_preface :
    (fresh : Buffer) (fuel : ℕ) (s : Session)
    → s.preface_received ≡ false
    → leb 24 (readable_bytes s.input) ≡ true
    → peek s.input 24 ≡ client_preface
    → on_data fresh fuel s
      ≡ frames_loop fresh fuel (record s { input = retrieve s.input 24; preface_received = true })
unfolding on_data
accepts_preface fresh fuel s new enough e = rw (new, enough, e, bytes_eq_refl client_preface) refl

refuses_preface :
    (fresh : Buffer) (fuel : ℕ) (s : Session)
    → s.preface_received ≡ false
    → leb 24 (readable_bytes s.input) ≡ true
    → bytes_eq (peek s.input 24) client_preface ≡ false
    → on_data fresh fuel s ≡ some (record s { calls = s.calls ++ force_close ∷ [] })
unfolding on_data
refuses_preface fresh fuel s new enough e = rw (new, enough, e) refl

-- From a new session with a callback, on a valid input buffer that holds the client's preface,
-- whole frames and then fewer than nine bytes: `OnData` ends within one round more than there are
-- frames, the callback is told exactly the payloads of the DATA frames of streams, in order, and
-- exactly the rest is left in the buffer.
pub on_data-delivers :
    (fresh : Buffer) (s : Session) (fs : List Frame) (rest : Bytes) (fuel : ℕ)
    → s.preface_received ≡ false
    → s.parser.state ≡ State.reading_header
    → s.has_on_stream_data ≡ true
    → IsValid s.input
    → contents s.input ≡ client_preface ++ (wire fs ++ rest)
    → All IsFrame fs
    → length rest < 9
    → length fs < fuel
    → (s' : Session) × (on_data fresh fuel s ≡ some s')
      × (s'.stream_data_calls ≡ s.stream_data_calls ++ told_all fs)
      × Queued s'.input rest
on_data-delivers fresh s fs rest fuel new r c v e ok short enough =
    let there : 24 ≤ length (contents s.input) = omega (arith, ap length e) in
    let preface : peek s.input 24 ≡ client_preface = peek_lem s.input 24 v there ∙ ap (take 24) e in
    let q = retrieve-Queued s.input 24 v in
    let next =
      frames_loop-delivers fresh (record s { input = retrieve s.input 24; preface_received = true })
        fs rest fuel r c q.valid (q.holds ∙ ap (drop 24) e) ok short enough in
    (
      next.0,
      accepts_preface fresh fuel s new
            (le→leb 24 (readable_bytes s.input) (omega (arith, readable_bytes-eq s.input v, there)))
            preface
          ∙ next.1,
      next.2,
      next.3,
    )

-- Where the first 24 bytes are not the client's preface, `OnData` closes the connection: it reads
-- no frame, tells the callback nothing and takes nothing from the buffer.
pub on_data-refuses :
    (fresh : Buffer) (s : Session) (fuel : ℕ)
    → s.preface_received ≡ false
    → IsValid s.input
    → 24 ≤ length (contents s.input)
    → take 24 (contents s.input) ≢ client_preface
    → on_data fresh fuel s ≡ some (record s { calls = s.calls ++ force_close ∷ [] })
on_data-refuses fresh s fuel new v there differs =
    refuses_preface fresh fuel s new
      (le→leb 24 (readable_bytes s.input) (omega (arith, readable_bytes-eq s.input v, there)))
      (elim (Bool-cases (bytes_eq (peek s.input 24) client_preface)) [
        | inr other ↦ other
        | inl same ↦ absurd (
            differs (
              sym (peek_lem s.input 24 v there)
              ∙ (bytes_eq_iff (peek s.input 24) client_preface).0 same))
      ])
