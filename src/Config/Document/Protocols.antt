-- ===== src/Config/Document/Protocols.antt =====
-- Documents of the settings that `ConfigParser::Parse` knows: protocols.
use network_lirbary.Common.{◌≡◌, List, [], ◌∷◌, map, some, Bytes}
use network_lirbary.Common.Dict.{bytes_eq, lookup}
use network_lirbary.Common.Text.{codes}
use network_lirbary.Config.Document.Writers.{Writer, FitsInt, strings_back}
use network_lirbary.Config.Parser.Protocols.{
  protocol_ssl_block, protocol_item, streaming_block, compression_block, grpc_block, http_block,
  websocket_block, tcp_udp_block, legacy_protocols,
}
use network_lirbary.Config.Settings.{
  CompressionConfig, default_compression, GrpcConfig, default_grpc, GrpcStreamingConfig,
  default_grpc_streaming, HttpConfig, default_http, ProtocolConfig, default_protocol,
  ProtocolsConfig, default_protocols, SslConfig, default_ssl, TcpUdpConfig, default_tcp_udp,
  WebsocketConfig, default_websocket,
}
use network_lirbary.Config.Yaml.{Yaml, get_safe, when, get_string_vector}

-- What a document holds of the settings; the others have their defaults.
abbrev pub known_protocol_ssl : SslConfig → SslConfig
known_protocol_ssl c = record default_ssl {
  enabled = c.enabled;
  cert_file = c.cert_file;
  key_file = c.key_file;
  ca_file = c.ca_file;
}

abbrev pub known_protocol_item : ProtocolConfig → ProtocolConfig
known_protocol_item c = record default_protocol {
  name = c.name;
  type = c.type;
  mode = c.mode;
  port = c.port;
  enabled = c.enabled;
  ssl = known_protocol_ssl c.ssl;
}

abbrev pub known_streaming : GrpcStreamingConfig → GrpcStreamingConfig
known_streaming c = record default_grpc_streaming {
  bidirectional = c.bidirectional;
  max_concurrent_streams = c.max_concurrent_streams;
  initial_window_size = c.initial_window_size;
}

abbrev pub known_compression : CompressionConfig → CompressionConfig
known_compression c = record default_compression {
  enabled = c.enabled;
  default_algorithm = c.default_algorithm;
  algorithms = c.algorithms;
}

abbrev pub known_grpc : GrpcConfig → GrpcConfig
known_grpc c = record default_grpc {
  enabled = c.enabled;
  max_receive_message_size_mb = c.max_receive_message_size_mb;
  streaming = known_streaming c.streaming;
  compression = known_compression c.compression;
}

abbrev pub known_http : HttpConfig → HttpConfig
known_http c = record default_http { enabled = c.enabled; port = c.port; version = c.version }

abbrev pub known_websocket : WebsocketConfig → WebsocketConfig
known_websocket c = record default_websocket { enabled = c.enabled; port = c.port }

abbrev pub known_tcp_udp : TcpUdpConfig → TcpUdpConfig
known_tcp_udp c = record default_tcp_udp { enabled = c.enabled; port = c.port }

abbrev pub known_legacy_protocols : ProtocolsConfig → ProtocolsConfig
known_legacy_protocols c = record default_protocols {
  grpc = known_grpc c.grpc;
  http = known_http c.http;
  websocket = known_websocket c.websocket;
  tcp = known_tcp_udp c.tcp;
  udp = known_tcp_udp c.udp;
}

module _ {y : Yaml} (w : Writer y) where
  open y use {Node}
  open w use {
    of_fields, of_string, of_bool, of_int, of_list, get_fields, string_back, bool_back, int_back,
  }

  abbrev pub write_protocol_ssl : SslConfig → Node
  write_protocol_ssl c = of_fields (
      (codes "enabled", of_bool c.enabled)
      ∷ (codes "cert_file", of_string c.cert_file)
      ∷ (codes "key_file", of_string c.key_file)
      ∷ (codes "ca_file", of_string c.ca_file)
      ∷ [])

  abbrev pub write_protocol_item : ProtocolConfig → Node
  write_protocol_item c = of_fields (
      (codes "name", of_string c.name)
      ∷ (codes "type", of_string c.type)
      ∷ (codes "mode", of_string c.mode)
      ∷ (codes "port", of_int c.port)
      ∷ (codes "enabled", of_bool c.enabled)
      ∷ (codes "ssl", write_protocol_ssl c.ssl)
      ∷ [])

  abbrev pub write_streaming : GrpcStreamingConfig → Node
  write_streaming c = of_fields (
      (codes "bidirectional", of_bool c.bidirectional)
      ∷ (codes "max_concurrent_streams", of_int c.max_concurrent_streams)
      ∷ (codes "initial_window_size", of_int c.initial_window_size)
      ∷ [])

  abbrev pub write_compression : CompressionConfig → Node
  write_compression c = of_fields (
      (codes "enabled", of_bool c.enabled)
      ∷ (codes "default_algorithm", of_string c.default_algorithm)
      ∷ (codes "algorithms", of_list (map of_string c.algorithms))
      ∷ [])

  abbrev pub write_grpc : GrpcConfig → Node
  write_grpc c = of_fields (
      (codes "enabled", of_bool c.enabled)
      ∷ (codes "max_receive_message_size_mb", of_int c.max_receive_message_size_mb)
      ∷ (codes "streaming", write_streaming c.streaming)
      ∷ (codes "compression", write_compression c.compression)
      ∷ [])

  abbrev pub write_http : HttpConfig → Node
  write_http c = of_fields (
      (codes "enabled", of_bool c.enabled)
      ∷ (codes "port", of_int c.port)
      ∷ (codes "version", of_string c.version)
      ∷ [])

  abbrev pub write_websocket : WebsocketConfig → Node
  write_websocket c =
      of_fields ((codes "enabled", of_bool c.enabled) ∷ (codes "port", of_int c.port) ∷ [])

  abbrev pub write_tcp_udp : TcpUdpConfig → Node
  write_tcp_udp c =
      of_fields ((codes "enabled", of_bool c.enabled) ∷ (codes "port", of_int c.port) ∷ [])

  abbrev pub legacy_fields : ProtocolsConfig → List (Bytes × Node)
  legacy_fields c =
      (codes "grpc", write_grpc c.grpc)
      ∷ (codes "http", write_http c.http)
      ∷ (codes "websocket", write_websocket c.websocket)
      ∷ (codes "tcp", write_tcp_udp c.tcp)
      ∷ (codes "udp", write_tcp_udp c.udp)
      ∷ []

  abbrev pub write_legacy_protocols : ProtocolsConfig → Node
  write_legacy_protocols c = of_fields (legacy_fields c)

  pub protocol_ssl_block-write :
      (c : SslConfig)
      → protocol_ssl_block y (write_protocol_ssl c) default_ssl ≡ some (known_protocol_ssl c)
  unfolding protocol_ssl_block lookup bytes_eq get_safe
  protocol_ssl_block-write c = simp (get_fields, string_back, bool_back)

  pub protocol_item-write :
      (c : ProtocolConfig)
      → FitsInt c.port
      → protocol_item y (write_protocol_item c) default_protocol ≡ some (known_protocol_item c)
  unfolding protocol_item lookup bytes_eq get_safe when
  protocol_item-write c p0 =
      simp (get_fields, string_back, bool_back, int_back c.port p0, protocol_ssl_block-write c.ssl)

  pub streaming_block-write :
      (c : GrpcStreamingConfig)
      → FitsInt c.max_concurrent_streams
      → FitsInt c.initial_window_size
      → streaming_block y (write_streaming c) default_grpc_streaming ≡ some (known_streaming c)
  unfolding streaming_block lookup bytes_eq get_safe
  streaming_block-write c p0 p1 = simp (
    get_fields,
    bool_back,
    int_back c.max_concurrent_streams p0,
    int_back c.initial_window_size p1,
  )

  pub compression_block-write :
      (c : CompressionConfig)
      → compression_block y (write_compression c) default_compression ≡ some (known_compression c)
  unfolding compression_block lookup bytes_eq get_safe get_string_vector
  compression_block-write c = simp (get_fields, string_back, bool_back, strings_back w)

  pub grpc_block-write :
      (c : GrpcConfig)
      → FitsInt c.max_receive_message_size_mb
      → FitsInt c.streaming.max_concurrent_streams
      → FitsInt c.streaming.initial_window_size
      → grpc_block y (write_grpc c) default_grpc ≡ some (known_grpc c)
  unfolding grpc_block lookup bytes_eq get_safe when
  grpc_block-write c p0 p1 p2 = simp (
    get_fields,
    bool_back,
    int_back c.max_receive_message_size_mb p0,
    streaming_block-write c.streaming p1 p2,
    compression_block-write c.compression,
  )

  pub http_block-write :
      (c : HttpConfig)
      → FitsInt c.port
      → http_block y (write_http c) default_http ≡ some (known_http c)
  unfolding http_block lookup bytes_eq get_safe
  http_block-write c p0 = simp (get_fields, string_back, bool_back, int_back c.port p0)

  pub websocket_block-write :
      (c : WebsocketConfig)
      → FitsInt c.port
      → websocket_block y (write_websocket c) default_websocket ≡ some (known_websocket c)
  unfolding websocket_block lookup bytes_eq get_safe
  websocket_block-write c p0 = simp (get_fields, bool_back, int_back c.port p0)

  pub tcp_udp_block-write :
      (c : TcpUdpConfig)
      → FitsInt c.port
      → tcp_udp_block y (write_tcp_udp c) default_tcp_udp ≡ some (known_tcp_udp c)
  unfolding tcp_udp_block lookup bytes_eq get_safe
  tcp_udp_block-write c p0 = simp (get_fields, bool_back, int_back c.port p0)

  pub legacy_protocols-write :
      (c : ProtocolsConfig)
      → FitsInt c.grpc.max_receive_message_size_mb
      → FitsInt c.grpc.streaming.max_concurrent_streams
      → FitsInt c.grpc.streaming.initial_window_size
      → FitsInt c.http.port
      → FitsInt c.websocket.port
      → FitsInt c.tcp.port
      → FitsInt c.udp.port
      → legacy_protocols y (write_legacy_protocols c) default_protocols
        ≡ some (known_legacy_protocols c)
  unfolding legacy_protocols lookup bytes_eq when
  legacy_protocols-write c p0 p1 p2 p3 p4 p5 p6 = simp (
    get_fields,
    grpc_block-write c.grpc p0 p1 p2,
    http_block-write c.http p3,
    websocket_block-write c.websocket p4,
    tcp_udp_block-write c.tcp p5,
    tcp_udp_block-write c.udp p6,
  )
