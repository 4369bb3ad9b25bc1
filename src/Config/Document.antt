-- ===== src/Config/Document.antt =====
-- Documents of the settings that `ConfigParser::Parse` of lib_network/src/config/config_parser.cc
-- knows.
pub mod Writers
pub mod Network
pub mod Protocols
pub mod Platform
use network_lirbary.Common.{
  ◌≡◌, refl, ap, ◌∙◌, Bool, true, false, if◌then◌else◌, List, [], ◌∷◌, ◌++◌, map, append_assoc,
  append-nil, Option, none, some, Bytes, All,
}
use network_lirbary.Common.Dict.{bytes_eq, lookup}
use network_lirbary.Common.Text.{codes}
use network_lirbary.Config.Parser.{
  protocol_items, protocols_form, protocols_block, server_block, parse,
}
use network_lirbary.Config.Settings.{
  ProtocolConfig, ServerConfig, default_server, default_protocols,
}
use network_lirbary.Config.Yaml.{Yaml, get_safe, when}
use Network.{write_network, known_network, network_block-write}
use Protocols.{
  write_protocol_item, known_protocol_item, protocol_item-write, legacy_fields,
  write_legacy_protocols, known_legacy_protocols, legacy_protocols-write,
}
use Platform.{
  write_ssl, known_ssl, ssl_block-write, write_performance, known_performance,
  performance_block-write, write_resilience, known_resilience, resilience_block-write,
  write_observability, known_observability, observability_block-write,
}
use Writers.{Writer, FitsInt, FitsLong}

-- The integers are in the range of their types.
pub record IsWritable (c : ServerConfig) : Type 0 where
  pub port : FitsInt c.network.port
  pub so_rcvbuf : FitsInt c.network.socket.so_rcvbuf
  pub so_sndbuf : FitsInt c.network.socket.so_sndbuf
  pub protocol_ports : All (λ pc. FitsInt pc.port) c.protocol_list
  pub message_size : FitsInt c.protocols.grpc.max_receive_message_size_mb
  pub concurrent_streams : FitsInt c.protocols.grpc.streaming.max_concurrent_streams
  pub window_size : FitsInt c.protocols.grpc.streaming.initial_window_size
  pub http_port : FitsInt c.protocols.http.port
  pub websocket_port : FitsInt c.protocols.websocket.port
  pub tcp_port : FitsInt c.protocols.tcp.port
  pub udp_port : FitsInt c.protocols.udp.port
  pub connections : FitsLong c.performance.max_connections
  pub pool_size : FitsInt c.performance.memory.connection_pool_size
  pub threshold : FitsInt c.resilience.circuit_breaker.failure_threshold_percentage
  pub requests : FitsInt c.resilience.rate_limiter.requests_per_second
  pub metrics_port : FitsInt c.observability.metrics.port

-- What a document holds of a configuration, with its protocols in the list form or in the legacy
-- form. The other settings have their defaults.
abbrev pub known_server : Bool → ServerConfig → ServerConfig
known_server listed c = record default_server {
  mode = c.mode;
  name = c.name;
  version = c.version;
  environment = c.environment;
  network = known_network c.network;
  protocols = if listed then default_protocols else known_legacy_protocols c.protocols;
  protocol_list = if listed then map known_protocol_item c.protocol_list else [];
  ssl = known_ssl c.ssl;
  performance = known_performance c.performance;
  resilience = known_resilience c.resilience;
  observability = known_observability c.observability;
}

module _ {y : Yaml} (w : Writer y) where
  open y use {Node}
  open w use {
    of_fields, of_list, of_string, get_fields, string_back, fields_map, list_sequence, items_list,
  }

  abbrev pub write_protocols : Bool → ServerConfig → Node
  write_protocols true c = of_list (map (write_protocol_item w) c.protocol_list)
  write_protocols false c = write_legacy_protocols w c.protocols

  abbrev pub write_server : Bool → ServerConfig → Node
  write_server listed c = of_fields (
      (codes "mode", of_string c.mode)
      ∷ (codes "name", of_string c.name)
      ∷ (codes "version", of_string c.version)
      ∷ (codes "environment", of_string c.environment)
      ∷ (codes "network", write_network w c.network)
      ∷ (codes "protocols", write_protocols listed c)
      ∷ (codes "ssl", write_ssl w c.ssl)
      ∷ (codes "performance", write_performance w c.performance)
      ∷ (codes "resilience", write_resilience w c.resilience)
      ∷ (codes "observability", write_observability w c.observability)
      ∷ [])

  protocol_items-write :
      (pcs done : List ProtocolConfig)
      → All (λ pc. FitsInt pc.port) pcs
      → protocol_items y (map (write_protocol_item w) pcs) done
        ≡ some (done ++ map known_protocol_item pcs)
  unfolding protocol_items
  protocol_items-write [] done p = rw append-nil
  protocol_items-write (pc ∷ pcs) done p = rw (protocol_item-write w pc p.0) (
      protocol_items-write pcs (done ++ known_protocol_item pc ∷ []) p.1
      ∙ ap some (append_assoc done (known_protocol_item pc ∷ []) (map known_protocol_item pcs)))

  -- The configuration after the protocols.
  abbrev with_protocols : Bool → ServerConfig → ServerConfig
  with_protocols listed c = record default_server {
    protocols = if listed then default_protocols else known_legacy_protocols c.protocols;
    protocol_list = if listed then map known_protocol_item c.protocol_list else [];
  }

  protocols_block-write :
      (listed : Bool) (c : ServerConfig)
      → IsWritable c
      → protocols_block y (write_protocols listed c) default_server ≡ some (with_protocols listed c)
  unfolding protocols_block protocols_form
  protocols_block-write true c v =
      ap (λ b. protocols_form y b (write_protocols true c) default_server)
        (list_sequence (map (write_protocol_item w) c.protocol_list))
      ∙ rw (
        items_list (map (write_protocol_item w) c.protocol_list),
        protocol_items-write c.protocol_list [] v.protocol_ports,
      )
  protocols_block-write false c v =
      ap (λ b. protocols_form y b (write_protocols false c) default_server)
        (fields_map (legacy_fields w c.protocols))
      ∙ rw (
          legacy_protocols-write w c.protocols v.message_size v.concurrent_streams v.window_size
            v.http_port v.websocket_port v.tcp_port v.udp_port)

  server_block-write :
      (listed : Bool) (c : ServerConfig)
      → IsWritable c
      → server_block y (write_server listed c) default_server ≡ some (known_server listed c)
  unfolding server_block lookup bytes_eq get_safe when
  server_block-write listed c v = simp (
    get_fields,
    string_back,
    network_block-write w c.network v.port v.so_rcvbuf v.so_sndbuf,
    protocols_block-write listed c v,
    ssl_block-write w c.ssl,
    performance_block-write w c.performance v.connections v.pool_size,
    resilience_block-write w c.resilience v.threshold v.requests,
    observability_block-write w c.observability v.metrics_port,
  )

  -- The file holds a document that writes down, for a configuration whose integers are in the range
  -- of their types, the settings that the parser knows, with the protocols in the list form or in
  -- the legacy form: `Parse` answers with a configuration that has all of these settings, and the
  -- defaults elsewhere. The YAML library reads a scalar, a sequence and a map as they were written.
  pub parse-write :
      (listed : Bool) (c : ServerConfig) (filepath : Bytes)
      → IsWritable c
      → y.load_file filepath ≡ some (of_fields ((codes "server", write_server listed c) ∷ []))
      → parse y filepath ≡ some (known_server listed c)
  unfolding parse when lookup bytes_eq
  parse-write listed c filepath v e = rw e (simp (get_fields, server_block-write listed c v))
