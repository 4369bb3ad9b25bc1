-- ===== src/Server/Services.antt =====
-- The services that a start sets up.
use network_lirbary.Common.Process.{Process}
use network_lirbary.Common.Run.{Run, done, thrown, ◌>>>◌}
use network_lirbary.Common.{
  ℕ, ◌≡◌, refl, sym, ap, ◌∙◌, subst, Bool, true, false, if◌then◌else◌, Bool-cases, inl, inr, List,
  [], ◌∷◌, ◌++◌, map, append_assoc, append-nil, All, Option, none, some,
}
use network_lirbary.Config.Settings.{ProtocolConfig, SslConfig}
use network_lirbary.Event.Listening.Willing.{
  Gives, IsWilling, register_server-Gives, register_udp_server-Gives, init_loop-Gives,
}
use network_lirbary.Event.Listening.Binds.{
  HasBound, register_server-HasBound, register_udp_server-HasBound, init_loop-binds,
}
use network_lirbary.Event.Listening.{
  System, to_port, register_server, register_udp_server, init_loop,
}
use network_lirbary.Security.TlsContext.Contexts.{init-binds}
use network_lirbary.Security.TlsContext as TlsContext
use network_lirbary.Security.TlsContext.{OpenSsl, TlsContext, server, init}
use network_lirbary.Server.{
  assign_thread, spawned, dispatched, Protocol, create, Service, Listener, Reactor, Server, is_udp,
  stream_service, udp_service, legacy_service, Booting, registered, serve_stream, serve_udp,
  with_tls, boot_protocol, boot_enabled, boot_protocols, boot_legacy, boot_services, init_server,
  start, init_with, started,
}

-- The services of a configuration: one for each enabled protocol of the list, in its order, or
-- the one of the legacy form where the list is empty. There are none if a protocol is unknown.
abbrev consed : Option Service → Option (List Service) → Option (List Service)
consed none rest = none
consed (some s) none = none
consed (some s) (some rest) = some (s ∷ rest)

abbrev served_by : (Protocol → Service) → Option Protocol → Option Service
served_by service none = none
served_by service (some p) = some (service p)

abbrev pub service_of : Server → ProtocolConfig → Option Service
service_of s pc =
    if is_udp pc.type
    then some (udp_service s pc)
    else served_by (stream_service s pc) (create pc.type)

abbrev pub listed_services : Server → List ProtocolConfig → Option (List Service)
listed_services s [] = some []
listed_services s (pc ∷ pcs) =
    let rest = listed_services s pcs in if pc.enabled then consed (service_of s pc) rest else rest

abbrev legacy : Server → Option Service
legacy s =
    if is_udp s.config.mode
    then some (legacy_service s none)
    else served_by (λ p. legacy_service s (some p)) (create s.config.mode)

abbrev services_from : Server → List ProtocolConfig → Option (List Service)
services_from s [] = consed (legacy s) (some [])
services_from s (pc ∷ pcs) = listed_services s (pc ∷ pcs)

abbrev pub services : Server → Option (List Service)
services s = services_from s s.config.protocol_list

abbrev pub listening_services : Reactor → List Service
listening_services r = map (λ l. l.service) r.listeners

-- The descriptors that listen, each with the port that its service is for.
abbrev pub socket_of : Listener → ℕ × ℕ
socket_of l = (l.fd, to_port l.service.port)

abbrev pub sockets : Reactor → List (ℕ × ℕ)
sockets r = map socket_of r.listeners

-- Since `before`, the kernel was asked to bind exactly the descriptors that listen, to their ports.
abbrev Bound : List (ℕ × ℕ) → {World : Type 0} → Booting World → Type 0
Bound before b = b.process.binds ≡ before ++ sockets b.reactor

-- A statement ends well and leaves these services, bound to their ports.
abbrev Serves : List (ℕ × ℕ) → List Service → {World : Type 0} → Run (Booting World) → Type 0
Serves before ss (done b) = (listening_services b.reactor ≡ ss) × Bound before b
Serves before ss (thrown b) = ⊥

-- Whether TLS can be set up where it is enabled.
abbrev pub Loads : {World : Type 0} → OpenSsl World → SslConfig → Type 0
Loads {World} openssl ssl =
    ssl.enabled ≡ true
    → (p : Process World)
    → (init openssl TlsContext.new server ssl.cert_file ssl.key_file p).success ≡ true

map-concat :
    (ls : List Listener) (l : Listener)
    → map (λ l. l.service) (ls ++ l ∷ []) ≡ map (λ l. l.service) ls ++ l.service ∷ []
map-concat [] l = refl
map-concat (x ∷ ls) l = ap (◌∷◌ x.service) (map-concat ls l)

sockets-concat :
    (ls : List Listener) (l : Listener)
    → map socket_of (ls ++ l ∷ []) ≡ map socket_of ls ++ socket_of l ∷ []
sockets-concat [] l = refl
sockets-concat (x ∷ ls) l = ap (◌∷◌ (socket_of x)) (sockets-concat ls l)

listed-on :
    (s : Server) (pc : ProtocolConfig) (pcs : List ProtocolConfig)
    → pc.enabled ≡ true
    → listed_services s (pc ∷ pcs) ≡ consed (service_of s pc) (listed_services s pcs)
listed-on s pc pcs on = rw on

listed-off :
    (s : Server) (pc : ProtocolConfig) (pcs : List ProtocolConfig)
    → pc.enabled ≡ false
    → listed_services s (pc ∷ pcs) ≡ listed_services s pcs
listed-off s pc pcs off = rw off

pub some-injective {ℓ} : {A : Type ℓ} {x y : A} → some x ≡ some y → x ≡ y
some-injective e = cc

consed-some :
    (o : Option Service) (r : Option (List Service)) (ss : List Service)
    → consed o r ≡ some ss
    → (x : Service) × (xs : List Service) × (o ≡ some x) × (r ≡ some xs) × (x ∷ xs ≡ ss)
consed-some none r ss e = cc
consed-some (some x) none ss e = cc
consed-some (some x) (some xs) ss e = (x, xs, refl, refl, some-injective e)

module _ (system : System) (openssl : OpenSsl system.World) (willing : IsWilling system)
    (before : List (ℕ × ℕ)) where
  open system use {World, spawn}

  registered-Serves :
      (service : Service) (b : Booting World) (r : Option ℕ × Process World)
      → Gives r
      → HasBound b.process.binds service.port r
      → Bound before b
      → Serves before
          (listening_services b.reactor ++ service ∷ [])
          (registered system openssl service b r)
  registered-Serves service b (none, p) g h e = elim g [ ]
  registered-Serves service b (some fd, p) g h e =
      let l : Listener = record { fd = fd; service = service } in
      (
        map-concat b.reactor.listeners l,
        h
            ∙ ap (λ bs. bs ++ (fd, to_port service.port) ∷ []) e
            ∙ append_assoc before (sockets b.reactor) ((fd, to_port service.port) ∷ [])
            ∙ ap (◌++◌ before) (sym (sockets-concat b.reactor.listeners l)),
      )

  serve_stream-Serves :
      (service : Service) (tls : Option TlsContext) (b : Booting World)
      → Bound before b
      → Serves before
          (listening_services b.reactor ++ service ∷ [])
          (serve_stream system openssl service tls b)
  unfolding serve_stream
  serve_stream-Serves service tls b e =
      registered-Serves service (record b { reactor = record b.reactor { tls_context = tls } })
        (register_server system service.port b.process)
        (register_server-Gives system willing service.port b.process)
        (register_server-HasBound system service.port b.process) e

  serve_udp-Serves :
      (service : Service) (b : Booting World)
      → Bound before b
      → Serves before
          (listening_services b.reactor ++ service ∷ [])
          (serve_udp system openssl service b)
  unfolding serve_udp
  serve_udp-Serves service b e =
      registered-Serves service b (register_udp_server system service.port b.process)
        (register_udp_server-Gives system willing service.port b.process)
        (register_udp_server-HasBound system service.port b.process) e

  with_tls-Serves :
      (ss : List Service) (ssl : SslConfig)
      (next : Option TlsContext → Booting World → Run (Booting World)) (b : Booting World)
      → Loads openssl ssl
      → ((tls : Option TlsContext) (p : Process World)
          → p.binds ≡ b.process.binds
          → Serves before ss (next tls (record b { process = p })))
      → Serves before ss (with_tls system openssl ssl next b)
  unfolding with_tls
  with_tls-Serves ss ssl next b loads k = elim (Bool-cases ssl.enabled) [
    | inl e ↦
        rw (e, with_tls)
          (rw (loads e b.process)
            (k _ _ (init-binds openssl TlsContext.new server ssl.cert_file ssl.key_file b.process)))
    | inr e ↦ rw (e, with_tls) (k none b.process refl)
  ]

  dispatched-Serves :
      (udp : Service) (stream : Protocol → Service) (tls : Option TlsContext) (b : Booting World)
      (is : Bool) (o : Option Protocol) (service : Service)
      → (if is then some udp else served_by stream o) ≡ some service
      → Bound before b
      → Serves before
          (listening_services b.reactor ++ service ∷ [])
          (dispatched system openssl udp stream tls b is o)
  dispatched-Serves udp stream tls b true o service e h =
      subst
        (λ x.
          Serves before (listening_services b.reactor ++ x ∷ []) (serve_udp system openssl udp b))
        (some-injective e) (serve_udp-Serves udp b h)
  dispatched-Serves udp stream tls b false none service e h = cc
  dispatched-Serves udp stream tls b false (some p) service e h =
      subst
        (λ x.
          Serves before (listening_services b.reactor ++ x ∷ [])
            (serve_stream system openssl (stream p) tls b))
        (some-injective e) (serve_stream-Serves (stream p) tls b h)

  then-Serves :
      (first second : List Service) (r : Run (Booting World))
      (f : Booting World → Run (Booting World))
      → Serves before first r
      → ((b : Booting World)
          → listening_services b.reactor ≡ first
          → Bound before b
          → Serves before second (f b))
      → Serves before second (r >>> f)
  then-Serves first second (done b) f s k = k b s.0 s.1
  then-Serves first second (thrown b) f s k = elim s [ ]

  boot_enabled-Serves :
      (s : Server) (pc : ProtocolConfig) (service : Service) (b : Booting World)
      → pc.enabled ≡ true
      → service_of s pc ≡ some service
      → Loads openssl pc.ssl
      → Bound before b
      → Serves before
          (listening_services b.reactor ++ service ∷ [])
          (boot_enabled system openssl s pc b)
  unfolding boot_enabled boot_protocol
  boot_enabled-Serves s pc service b on e loads h =
      rw (on, boot_enabled)
        (with_tls-Serves _ pc.ssl (boot_protocol system openssl s pc) b loads (λ tls p same.
          dispatched-Serves (udp_service s pc) (stream_service s pc) tls (record b { process = p })
            (is_udp pc.type) (create pc.type) service e (same ∙ h)))

  boot_enabled-off :
      (s : Server) (pc : ProtocolConfig) (b : Booting World)
      → pc.enabled ≡ false
      → boot_enabled system openssl s pc b ≡ done b
  unfolding boot_enabled
  boot_enabled-off s pc b off = rw (off, boot_enabled)

  boot_protocols-Serves :
      (s : Server) (pcs : List ProtocolConfig) (ss : List Service) (b : Booting World)
      → listed_services s pcs ≡ some ss
      → All (λ pc. Loads openssl pc.ssl) pcs
      → Bound before b
      → Serves before (listening_services b.reactor ++ ss) (boot_protocols system openssl s pcs b)
  unfolding boot_protocols
  boot_protocols-Serves s [] ss b e loads h =
      rw (← some-injective e) (sym (append-nil (listening_services b.reactor)), h)
  boot_protocols-Serves s (pc ∷ pcs) ss b e loads h = elim (Bool-cases pc.enabled) [
    | inl on ↦
        let (x, xs, ex, exs, ess) =
          consed-some (service_of s pc) (listed_services s pcs) ss
            (sym (listed-on s pc pcs on) ∙ e) in
        then-Serves (listening_services b.reactor ++ x ∷ []) (listening_services b.reactor ++ ss)
          (boot_enabled system openssl s pc b) (boot_protocols system openssl s pcs)
          (boot_enabled-Serves s pc x b on ex loads.0 h)
          (λ b' eq h'.
            subst (λ l. Serves before l (boot_protocols system openssl s pcs b'))
              (ap (λ l. l ++ xs) eq
                ∙ append_assoc (listening_services b.reactor) (x ∷ []) xs
                ∙ ap (◌++◌ (listening_services b.reactor)) ess)
              (boot_protocols-Serves s pcs xs b' exs loads.1 h'))
    | inr off ↦
        subst
          (λ r.
            Serves before (listening_services b.reactor ++ ss)
              (r >>> boot_protocols system openssl s pcs))
          (sym (boot_enabled-off s pc b off))
          (boot_protocols-Serves s pcs ss b (sym (listed-off s pc pcs off) ∙ e) loads.1 h)
  ]

  boot_services-Serves :
      (s : Server) (pcs : List ProtocolConfig) (ss : List Service) (tls : Option TlsContext)
      (b : Booting World)
      → services_from s pcs ≡ some ss
      → All (λ pc. Loads openssl pc.ssl) pcs
      → Bound before b
      → Serves before
          (listening_services b.reactor ++ ss)
          (boot_services system openssl s pcs tls b)
  unfolding boot_services boot_legacy
  boot_services-Serves s [] ss tls b e loads h =
      let (x, xs, ex, exs, ess) = consed-some (legacy s) (some []) ss e in
      subst
        (λ l.
          Serves before (listening_services b.reactor ++ l) (boot_legacy system openssl s tls b))
        (ap (◌∷◌ x) (some-injective exs) ∙ ess)
        (dispatched-Serves (legacy_service s none) (λ p. legacy_service s (some p)) tls b
          (is_udp s.config.mode) (create s.config.mode) x ex h)
  boot_services-Serves s (pc ∷ pcs) ss tls b e loads h =
      boot_protocols-Serves s (pc ∷ pcs) ss b e loads h

  -- The start was successful, and the reactor listens for these services. Since `before`, the
  -- kernel was asked to bind exactly the descriptors that listen, each to the port of its service.
  abbrev pub IsServing : List Service → Bool × Server × Process World → Type 0
  IsServing ss t =
      (t.0 ≡ true)
      × (t.1.running ≡ true)
      × (t.1.runner_thread ≡ true)
      × ((r : Reactor) × (t.1.reactor ≡ some r)
          × (listening_services r ≡ ss)
          × (t.2.binds ≡ before ++ sockets r))

  spawned-IsServing :
      (s : Server) (b : Booting World) (ss : List Service) (a : Bool × World)
      → a.0 ≡ true
      → listening_services b.reactor ≡ ss
      → Bound before b
      → IsServing ss (
          spawned system openssl
            (record s { reactor = some b.reactor; running = true })
            b.process
            a)
  unfolding assign_thread
  spawned-IsServing s b ss (true, w) y h e = (refl, refl, refl, (b.reactor, refl, h, e))
  spawned-IsServing s b ss (false, w) y h e = cc

  started-IsServing :
      (s : Server) (p : Process World) (ss : List Service) (r : Run (Booting World))
      → Serves before ss r
      → IsServing ss (started system openssl s (some r, p))
  started-IsServing s p ss (done b) h =
      spawned-IsServing s b ss (spawn b.process.world) (willing.spawns b.process.world) h.0 h.1
  started-IsServing s p ss (thrown b) h = elim h [ ]

  init_with-IsServing :
      (s : Server) (ss : List Service) (m : Option ℕ × Process World)
      → Gives m
      → m.1.binds ≡ before
      → services s ≡ some ss
      → Loads openssl s.config.ssl
      → All (λ pc. Loads openssl pc.ssl) s.config.protocol_list
      → IsServing ss (started system openssl s (init_with system openssl s m))
  init_with-IsServing s ss (none, p) g k e l ls = elim g [ ]
  init_with-IsServing s ss (some fd, p) g k e l ls = started-IsServing s p ss _ (
      with_tls-Serves ss s.config.ssl (boot_services system openssl s s.config.protocol_list) _ l
        (λ tls q same.
          boot_services-Serves s s.config.protocol_list ss tls _ e ls
            (same ∙ k ∙ sym (append-nil before))))

module _ (system : System) (openssl : OpenSsl system.World) (willing : IsWilling system) where
  open system use {World}

  pub start-IsServing :
      (s : Server) (p : Process World) (ss : List Service)
      → s.running ≡ false
      → services s ≡ some ss
      → Loads openssl s.config.ssl
      → All (λ pc. Loads openssl pc.ssl) s.config.protocol_list
      → IsServing system openssl willing p.binds ss (start system openssl s p)
  unfolding start init_server
  start-IsServing s p ss off e l ls =
      subst
        (λ b. IsServing system openssl willing p.binds ss (
          if b
          then (true, s, p)
          else started system openssl s (init_with system openssl s (init_loop system p))))
        (sym off)
        (init_with-IsServing system openssl willing p.binds s ss (init_loop system p)
          (init_loop-Gives system willing p) (init_loop-binds system p) e l ls)
