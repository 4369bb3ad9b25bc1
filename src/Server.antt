-- ===== src/Server.antt =====
-- `Server` of lib_network/src/server.cc, with `ProtocolFactory::Create` of
-- lib_network/src/protocols/protocol_factory.cc: the set-up of the listening sockets from a
-- configuration, and starting and stopping. What is logged, and the messages of exceptions, are
-- left out. The application's handlers are there or not.
pub mod Services
pub mod Tls
pub mod Runs
mod Tests
use network_lirbary.Common.Dict.{bytes_eq}
use network_lirbary.Common.Process.{Process}
use network_lirbary.Common.Run.{Run, done, thrown, ◌>>>◌, left_behind}
use network_lirbary.Common.Text.{codes, ℤ, pos, negsuc}
use network_lirbary.Common.{
  ℕ, Bool, true, false, ◌||◌, if◌then◌else◌, List, [], ◌∷◌, ◌++◌, Option, none, some, Bytes,
}
use network_lirbary.Config.Settings.{ServerConfig, ProtocolConfig, SslConfig, RateLimiterConfig}
use network_lirbary.Event.Listening.{System, register_server, register_udp_server, init_loop}
use network_lirbary.Resilience.DdosProtection.{Config}
use network_lirbary.Security.TlsContext as TlsContext
use network_lirbary.Security.TlsContext.{OpenSsl, TlsContext, server, init, reload_certificates}

pub data Protocol : Type 0 where
  tcp http grpc websocket rpc quic : Protocol

-- `ProtocolFactory::Create`; `none` is an exception.
unfoldable pub create : Bytes → Option Protocol
unfolding bytes_eq
create mode =
    if bytes_eq mode (codes "tcp")
    then some tcp
    else if bytes_eq mode (codes "http")
    then some http
    else if bytes_eq mode (codes "grpc")
    then some grpc
    else if bytes_eq mode (codes "websocket")
    then some websocket
    else if bytes_eq mode (codes "rpc")
    then some rpc
    else if bytes_eq mode (codes "quic")
    then some quic
    else none

-- What answers on a port: a protocol handler, or with `none` the UDP handler, which of the
-- application's handlers it was given, and the rate and capacity of its limiter.
pub record Service : Type 0 where
  pub port : ℤ
  pub protocol : Option Protocol
  pub stream : Bool
  pub raw : Bool
  pub limiter : Option (ℤ × ℤ)

pub record Listener : Type 0 where
  pub fd : ℕ
  pub service : Service

-- What the server has set up in its reactor.
pub record Reactor : Type 0 where
  pub ddos : Config
  pub tls_context : Option TlsContext
  pub listeners : List Listener

pub record Server : Type 0 where
  pub config : ServerConfig
  pub stream_handler : Bool
  pub raw_handler : Bool
  pub reactor : Option Reactor
  pub running : Bool
  -- Whether the runner thread is to be joined.
  pub runner_thread : Bool
  -- Whether a thread object that was to be joined has ended the program by `std::terminate`.
  pub terminated : Bool

unfoldable pub new : ServerConfig → Server
new config = record {
  config = config;
  stream_handler = false;
  raw_handler = false;
  reactor = none;
  running = false;
  runner_thread = false;
  terminated = false;
}

pub register_stream_handler : Server → Server
register_stream_handler s = record s { stream_handler = true }

pub register_raw_handler : Server → Server
register_raw_handler s = record s { raw_handler = true }

-- A limit on a count; a negative one is passed at once, as zero is.
abbrev pub to_limit : ℤ → ℕ
to_limit (pos n) = n
to_limit (negsuc n) = 0

-- The limits, with the defaults of `DdosProtection::Config`.
abbrev pub ddos_config : ℕ → RateLimiterConfig → Config
ddos_config connections r = record {
  max_conn_per_ip = connections;
  rate_limit_per_ip = if r.per_ip_enabled then to_limit r.per_ip_requests_per_second else 50;
}

abbrev pub limiter_of : RateLimiterConfig → Option (ℤ × ℤ)
limiter_of r = if r.enabled then some (r.requests_per_second, r.burst_size) else none

-- The application's handlers for a protocol: raw mode is given the raw handler alone.
abbrev pub is_raw : ProtocolConfig → Bool
is_raw pc = bytes_eq pc.mode (codes "raw")

abbrev pub is_udp : Bytes → Bool
is_udp name = bytes_eq name (codes "udp")

abbrev pub stream_service : Server → ProtocolConfig → Protocol → Service
stream_service s pc protocol = record {
  port = pc.port;
  protocol = some protocol;
  stream = if is_raw pc then false else s.stream_handler;
  raw = if is_raw pc then s.raw_handler else false;
  limiter = limiter_of s.config.resilience.rate_limiter;
}

abbrev pub udp_service : Server → ProtocolConfig → Service
udp_service s pc = record {
  port = pc.port;
  protocol = none;
  stream = if is_raw pc then false else s.stream_handler;
  raw = if is_raw pc then s.raw_handler else false;
  limiter = none;
}

-- The legacy form has one protocol, and never a raw handler.
abbrev pub legacy_service : Server → Option Protocol → Service
legacy_service s protocol = record {
  port = s.config.network.port;
  protocol = protocol;
  stream = s.stream_handler;
  raw = false;
  limiter = elim protocol [ none ↦ none | some p ↦ limiter_of s.config.resilience.rate_limiter ];
}

-- The reactor and the process while the server is set up.
pub record Booting (World : Type 0) : Type 0 where
  pub reactor : Reactor
  pub process : Process World

abbrev pub listening : Service → {World : Type 0} → Booting World → ℕ → Booting World
listening service b fd = record b {
  reactor = record b.reactor {
    listeners = b.reactor.listeners ++ record { fd = fd; service = service } ∷ [];
  };
}

-- The context that an accepted connection's TLS session is made from, whichever listener
-- accepted it: the accept callback reads the reactor's own.
pub accept_tls : Reactor → Listener → Option TlsContext
accept_tls r l = r.tls_context

-- `runner_thread_ = std::thread(...)`: over a thread that is to be joined, this ends the program.
pub assign_thread : Server → Server
assign_thread s = record s { terminated = s.terminated || s.runner_thread; runner_thread = true }

module _ (system : System) (openssl : OpenSsl system.World) where
  open system use {World, spawn}

  -- A registration, whose failure is thrown.
  abbrev pub registered : Service → Booting World → Option ℕ × Process World → Run (Booting World)
  registered service b (none, p) = thrown (record b { process = p })
  registered service b (some fd, p) = done (listening service (record b { process = p }) fd)

  -- `reactor_->RegisterServer`, which first stores the TLS context.
  pub serve_stream : Service → Option TlsContext → Booting World → Run (Booting World)
  serve_stream service tls b =
      let b1 = record b { reactor = record b.reactor { tls_context = tls } } in
      registered service b1 (register_server system service.port b1.process)

  pub serve_udp : Service → Booting World → Run (Booting World)
  serve_udp service b = registered service b (register_udp_server system service.port b.process)

  abbrev pub initialised :
      Booting World
      → (Option TlsContext → Booting World → Run (Booting World))
      → TlsContext.Outcome World
      → Run (Booting World)
  initialised b next o = elim o.success [
    | true ↦ next (some o.tls) (record b { process = o.process })
    | false ↦ thrown (record b { process = o.process })
  ]

  -- The TLS context of a configuration where it is enabled, handed on.
  pub with_tls :
      SslConfig
      → (Option TlsContext → Booting World → Run (Booting World))
      → Booting World
      → Run (Booting World)
  with_tls ssl next b = elim ssl.enabled [
    | true ↦
        initialised b next (init openssl TlsContext.new server ssl.cert_file ssl.key_file b.process)
    | false ↦ next none b
  ]

  -- A handler of the factory; an unknown protocol is thrown.
  abbrev pub created :
      (Protocol → Service)
      → Option TlsContext
      → Booting World
      → Option Protocol
      → Run (Booting World)
  created service tls b none = thrown b
  created service tls b (some protocol) = serve_stream (service protocol) tls b

  -- UDP has a handler of its own.
  abbrev pub dispatched :
      Service
      → (Protocol → Service)
      → Option TlsContext
      → Booting World
      → Bool
      → Option Protocol
      → Run (Booting World)
  dispatched udp stream tls b true p = serve_udp udp b
  dispatched udp stream tls b false p = created stream tls b p

  -- One protocol of the list.
  pub boot_protocol :
      Server → ProtocolConfig → Option TlsContext → Booting World → Run (Booting World)
  boot_protocol s pc tls b =
      dispatched (udp_service s pc) (stream_service s pc) tls b (is_udp pc.type) (create pc.type)

  pub boot_enabled : Server → ProtocolConfig → Booting World → Run (Booting World)
  boot_enabled s pc b = elim pc.enabled [
    | true ↦ with_tls pc.ssl (boot_protocol s pc) b
    | false ↦ done b
  ]

  pub boot_protocols : Server → List ProtocolConfig → Booting World → Run (Booting World)
  boot_protocols s [] b = done b
  boot_protocols s (pc ∷ pcs) b = boot_enabled s pc b >>> boot_protocols s pcs

  pub boot_legacy : Server → Option TlsContext → Booting World → Run (Booting World)
  boot_legacy s tls b =
      dispatched (legacy_service s none) (λ p. legacy_service s (some p)) tls b
        (is_udp s.config.mode) (create s.config.mode)

  pub boot_services :
      Server → List ProtocolConfig → Option TlsContext → Booting World → Run (Booting World)
  boot_services s [] tls b = boot_legacy s tls b
  boot_services s (pc ∷ pcs) tls b = boot_protocols s (pc ∷ pcs) b

  -- What `Init` leaves: the reactor that it has made, if any, and whether it has thrown.
  abbrev pub init_with :
      Server → Option ℕ × Process World → Option (Run (Booting World)) × Process World
  init_with s (none, p) = (none, p)
  init_with s (some fd, p) = (
    some (
        with_tls s.config.ssl (boot_services s s.config.protocol_list) (record {
          reactor = record {
            ddos = ddos_config 1000 s.config.resilience.rate_limiter;
            tls_context = none;
            listeners = [];
          };
          process = p;
        })),
    p,
  )

  pub init_server : Server → Process World → Option (Run (Booting World)) × Process World
  init_server s p = init_with s (init_loop system p)

  abbrev pub Started : Type 0
  Started = Bool × Server × Process World

  -- The runner thread is constructed and assigned. Where the constructor throws, `running_` has
  -- been set before, and `Start` answers false.
  abbrev pub spawned : Server → Process World → Bool × World → Started
  spawned s p (true, w) = (true, assign_thread s, record p { world = w })
  spawned s p (false, w) = (false, s, record p { world = w })

  abbrev pub started : Server → Option (Run (Booting World)) × Process World → Started
  started s (none, p) = (false, s, p)
  started s (some (thrown b), p) = (false, record s { reactor = some b.reactor }, b.process)
  started s (some (done b), p) =
      spawned (record s { reactor = some b.reactor; running = true }) b.process
        (spawn b.process.world)

  pub start : Server → Process World → Started
  start s p = if s.running then (true, s, p) else started s (init_server s p)

  -- `ReloadConfig`. Whether the certificates could be loaded is not looked at.
  abbrev pub reloaded :
      Reactor → Process World → Option TlsContext → SslConfig → Reactor × Process World
  reloaded r p none ssl = (r, p)
  reloaded r p (some t) ssl =
      let o = reload_certificates openssl t ssl.cert_file ssl.key_file p in
      if ssl.enabled then (record r { tls_context = some o.tls }, o.process) else (r, p)

  abbrev pub reload_reactor :
      ServerConfig → Option Reactor → Process World → Option Reactor × Process World
  reload_reactor c none p = (none, p)
  reload_reactor c (some r) p =
      let r1 = record r { ddos = ddos_config 100 c.resilience.rate_limiter } in
      let (r2, p2) = reloaded r1 p r1.tls_context c.ssl in (some r2, p2)

  pub reload_config : Server → ServerConfig → Process World → Server × Process World
  reload_config s c p = let (r, p') = reload_reactor c s.reactor p in (record s { reactor = r }, p')

-- The loop ends, and the runner is joined.
pub stop : Server → Server
stop s = if s.running then record s { running = false; runner_thread = false } else s

-- What `Wait` leaves once it returns.
pub wait : Server → Server
wait s = record s { runner_thread = false }

-- `~Server`, and the destructor of the thread object.
pub destroy : Server → Server
unfolding stop
destroy s = let s1 = stop s in record s1 { terminated = s1.terminated || s1.runner_thread }
