-- ===== src/Server/Tls.antt =====
-- Which TLS context the connections of a listener get.
use network_lirbary.Common.Process.{Process}
use network_lirbary.Common.Run.{Run, done, thrown, ◌>>>◌}
use network_lirbary.Common.{
  ℕ, ◌≡◌, refl, sym, subst, if◌then◌else◌, Bool, true, false, Bool-cases, inl, inr, List, [], ◌∷◌,
  ◌++◌, Option, none, some,
}
use network_lirbary.Config.Settings.{ProtocolConfig, SslConfig}
use network_lirbary.Event.Listening.{System, register_server, init_loop}
use network_lirbary.Security.TlsContext as TlsContext
use network_lirbary.Security.TlsContext.{OpenSsl, TlsContext}
use network_lirbary.Server.Services.{some-injective}
use network_lirbary.Server.{
  spawned, assign_thread, initialised, Protocol, create, Service, Listener, Reactor, Server, is_udp,
  stream_service, Booting, registered, serve_stream, with_tls, created, boot_protocol, boot_enabled,
  boot_protocols, boot_services, init_server, init_with, started, start, accept_tls,
}

-- Where a statement ends well, the reactor has no TLS context.
abbrev Plain : {World : Type 0} → Run (Booting World) → Type 0
Plain (done b) = b.reactor.tls_context ≡ none
Plain (thrown b) = Unit

false-true : ◌≡◌ {A = Bool} false true → ⊥
false-true e = cc

module _ (system : System) (openssl : OpenSsl system.World) where
  open system use {World, spawn}

  registered-Plain :
      (service : Service) (b : Booting World) (r : Option ℕ × Process World)
      → b.reactor.tls_context ≡ none
      → Plain (registered system openssl service b r)
  registered-Plain service b (none, p) e = tt
  registered-Plain service b (some fd, p) e = e

  created-Plain :
      (stream : Protocol → Service) (b : Booting World) (o : Option Protocol)
      → Plain (created system openssl stream none b o)
  unfolding serve_stream
  created-Plain stream b none = tt
  created-Plain stream b (some p) =
      registered-Plain (stream p) (record b { reactor = record b.reactor { tls_context = none } })
        (register_server system (stream p).port b.process) refl

  -- A protocol without TLS leaves the reactor without it.
  boot_enabled-Plain :
      (s : Server) (pc : ProtocolConfig) (b : Booting World)
      → pc.enabled ≡ true
      → is_udp pc.type ≡ false
      → pc.ssl.enabled ≡ false
      → Plain (boot_enabled system openssl s pc b)
  unfolding boot_enabled with_tls boot_protocol
  boot_enabled-Plain s pc b on stream off =
      rw (on, boot_enabled)
        (rw (off, with_tls) (rw (stream) (created-Plain (stream_service s pc) b (create pc.type))))

  then-Plain :
      (r : Run (Booting World)) (f : Booting World → Run (Booting World))
      → ((b : Booting World) → Plain (f b))
      → Plain (r >>> f)
  then-Plain (done b) f k = k b
  then-Plain (thrown b) f k = tt

  last-Plain :
      (s : Server) (r : Run (Booting World))
      → Plain r
      → Plain (r >>> boot_protocols system openssl s [])
  unfolding boot_protocols
  last-Plain s (done b) h = h
  last-Plain s (thrown b) h = tt

  boot_protocols-Plain :
      (s : Server) (pcs : List ProtocolConfig) (pc : ProtocolConfig) (b : Booting World)
      → pc.enabled ≡ true
      → is_udp pc.type ≡ false
      → pc.ssl.enabled ≡ false
      → Plain (boot_protocols system openssl s (pcs ++ pc ∷ []) b)
  unfolding boot_protocols
  boot_protocols-Plain s [] pc b on stream off =
      last-Plain s (boot_enabled system openssl s pc b) (boot_enabled-Plain s pc b on stream off)
  boot_protocols-Plain s (x ∷ pcs) pc b on stream off =
      then-Plain (boot_enabled system openssl s x b)
        (boot_protocols system openssl s (pcs ++ pc ∷ []))
        (λ b'. boot_protocols-Plain s pcs pc b' on stream off)

  boot_services-Plain :
      (s : Server) (pcs : List ProtocolConfig) (pc : ProtocolConfig) (tls : Option TlsContext)
      (b : Booting World)
      → pc.enabled ≡ true
      → is_udp pc.type ≡ false
      → pc.ssl.enabled ≡ false
      → Plain (boot_services system openssl s (pcs ++ pc ∷ []) tls b)
  unfolding boot_services
  boot_services-Plain s [] pc tls b = boot_protocols-Plain s [] pc b
  boot_services-Plain s (x ∷ pcs) pc tls b = boot_protocols-Plain s (x ∷ pcs) pc b

  initialised-Plain :
      (b : Booting World) (next : Option TlsContext → Booting World → Run (Booting World))
      (o : TlsContext.Outcome World)
      → ((tls : Option TlsContext) (b' : Booting World) → Plain (next tls b'))
      → Plain (initialised system openssl b next o)
  initialised-Plain b next o k = elim (Bool-cases o.success) [
    | inl e ↦ rw (e, initialised) (k _ _)
    | inr e ↦ rw (e, initialised) tt
  ]

  with_tls-Plain :
      (ssl : SslConfig) (next : Option TlsContext → Booting World → Run (Booting World))
      (b : Booting World)
      → ((tls : Option TlsContext) (b' : Booting World) → Plain (next tls b'))
      → Plain (with_tls system openssl ssl next b)
  unfolding with_tls
  with_tls-Plain ssl next b k = elim (Bool-cases ssl.enabled) [
    | inl e ↦ rw (e, with_tls) (initialised-Plain b next _ k)
    | inr e ↦ rw (e, with_tls) (k none b)
  ]

  -- Where the start succeeds, no listener's connections get TLS.
  abbrev ServesPlain : Bool × Server × Process World → Type 0
  ServesPlain (ok, s, p) =
      ok ≡ true → (r : Reactor) (l : Listener) → s.reactor ≡ some r → accept_tls r l ≡ none

  spawned-ServesPlain :
      (s : Server) (b : Booting World)
      → b.reactor.tls_context ≡ none
      → (a : Bool × World)
      → ServesPlain (spawned system openssl (record s { reactor = some b.reactor }) b.process a)
  unfolding accept_tls assign_thread
  spawned-ServesPlain s b h (true, w) ok r l e =
      subst (λ x. x.tls_context ≡ none) (some-injective e) h
  spawned-ServesPlain s b h (false, w) ok r l e = cc

  started-ServesPlain :
      (s : Server) (p : Process World) (r : Run (Booting World))
      → Plain r
      → ServesPlain (started system openssl s (some r, p))
  started-ServesPlain s p (done b) h =
      spawned-ServesPlain (record s { running = true }) b h (spawn b.process.world)
  started-ServesPlain s p (thrown b) h = λ ok r l e. absurd (false-true ok)

  init_with-ServesPlain :
      (s : Server) (m : Option ℕ × Process World)
      → ((tls : Option TlsContext) (b : Booting World)
          → Plain (boot_services system openssl s s.config.protocol_list tls b))
      → ServesPlain (started system openssl s (init_with system openssl s m))
  init_with-ServesPlain s (none, p) k = λ ok r l e. absurd (false-true ok)
  init_with-ServesPlain s (some fd, p) k =
      started-ServesPlain s p _
        (with_tls-Plain s.config.ssl (boot_services system openssl s s.config.protocol_list) _ k)

  start-Plain :
      (s : Server) (p : Process World) (pcs : List ProtocolConfig) (pc : ProtocolConfig)
      → s.running ≡ false
      → s.config.protocol_list ≡ pcs ++ pc ∷ []
      → pc.enabled ≡ true
      → is_udp pc.type ≡ false
      → pc.ssl.enabled ≡ false
      → ServesPlain (start system openssl s p)
  unfolding start init_server
  start-Plain s p pcs pc stopped e on stream off =
      subst
        (λ b. ServesPlain (
          if b
          then (true, s, p)
          else started system openssl s (init_with system openssl s (init_loop system p))))
        (sym stopped)
        (init_with-ServesPlain s (init_loop system p) (λ tls b.
          subst (λ l. Plain (boot_services system openssl s l tls b)) (sym e)
            (boot_services-Plain s pcs pc tls b on stream off)))

  -- A stopped server whose configuration lists at least one protocol, the last of them enabled,
  -- on streams and without TLS: once `Start` has succeeded, what any listener of its reactor
  -- accepts is given no TLS session, also where TLS is enabled for that listener's protocol.
  pub start-ServesPlain :
      (s : Server) (p : Process World) (pcs : List ProtocolConfig) (pc : ProtocolConfig)
      (r : Reactor) (l : Listener)
      → s.running ≡ false
      → s.config.protocol_list ≡ pcs ++ pc ∷ []
      → pc.enabled ≡ true
      → is_udp pc.type ≡ false
      → pc.ssl.enabled ≡ false
      → (start system openssl s p).0 ≡ true
      → (start system openssl s p).1.reactor ≡ some r
      → accept_tls r l ≡ none
  start-ServesPlain s p pcs pc r l stopped e on stream off ok made =
      start-Plain s p pcs pc stopped e on stream off ok r l made
