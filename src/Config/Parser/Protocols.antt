-- ===== src/Config/Parser/Protocols.antt =====
-- `ConfigParser::Parse` of lib_network/src/config/config_parser.cc: the protocols, in the list
-- form and the legacy form. Each function is the block under the key of its name.
use network_lirbary.Common.{true, false, [], some, Option}
use network_lirbary.Common.Text.{codes, pos}
use network_lirbary.Config.Settings.{
  CompressionConfig, GrpcConfig, GrpcStreamingConfig, HttpConfig, ProtocolConfig, ProtocolsConfig,
  SslConfig, TcpUdpConfig, WebsocketConfig,
}
use network_lirbary.Config.Yaml.{
  Yaml, ◌>>=◌, get_string_vector, get_string, get_bool, get_int, when,
}

module _ (y : Yaml) where
  open y use {Node}

  unfoldable pub protocol_ssl_block : Node → SslConfig → Option SslConfig
  protocol_ssl_block node c = do
    enabled ← get_bool y node (codes "enabled") false
    cert_file ← get_string y node (codes "cert_file") []
    key_file ← get_string y node (codes "key_file") []
    ca_file ← get_string y node (codes "ca_file") []
    some (record c {
      enabled = enabled;
      cert_file = cert_file;
      key_file = key_file;
      ca_file = ca_file;
    })

  unfoldable pub protocol_item : Node → ProtocolConfig → Option ProtocolConfig
  protocol_item node c = do
    name ← get_string y node (codes "name") (codes "default")
    type ← get_string y node (codes "type") (codes "tcp")
    mode ← get_string y node (codes "mode") (codes "proto")
    port ← get_int y node (codes "port") (pos 0)
    enabled ← get_bool y node (codes "enabled") true
    ssl ← when y node (codes "ssl") protocol_ssl_block c.ssl
    some (record c {
      name = name;
      type = type;
      mode = mode;
      port = port;
      enabled = enabled;
      ssl = ssl;
    })

  unfoldable pub streaming_block : Node → GrpcStreamingConfig → Option GrpcStreamingConfig
  streaming_block node c = do
    bidirectional ← get_bool y node (codes "bidirectional") true
    max_concurrent_streams ← get_int y node (codes "max_concurrent_streams") (pos 1000)
    initial_window_size ← get_int y node (codes "initial_window_size") (pos 65535)
    some (record c {
      bidirectional = bidirectional;
      max_concurrent_streams = max_concurrent_streams;
      initial_window_size = initial_window_size;
    })

  unfoldable pub compression_block : Node → CompressionConfig → Option CompressionConfig
  compression_block node c = do
    enabled ← get_bool y node (codes "enabled") true
    default_algorithm ← get_string y node (codes "default_algorithm") (codes "gzip")
    algorithms ← get_string_vector y node (codes "algorithms")
    some (record c {
      enabled = enabled;
      default_algorithm = default_algorithm;
      algorithms = algorithms;
    })

  unfoldable pub grpc_block : Node → GrpcConfig → Option GrpcConfig
  grpc_block node c = do
    enabled ← get_bool y node (codes "enabled") false
    max_receive_message_size_mb ← get_int y node (codes "max_receive_message_size_mb") (pos 100)
    streaming ← when y node (codes "streaming") streaming_block c.streaming
    compression ← when y node (codes "compression") compression_block c.compression
    some (record c {
      enabled = enabled;
      max_receive_message_size_mb = max_receive_message_size_mb;
      streaming = streaming;
      compression = compression;
    })

  unfoldable pub http_block : Node → HttpConfig → Option HttpConfig
  http_block node c = do
    enabled ← get_bool y node (codes "enabled") false
    port ← get_int y node (codes "port") (pos 0)
    version ← get_string y node (codes "version") (codes "1.1")
    some (record c { enabled = enabled; port = port; version = version })

  unfoldable pub websocket_block : Node → WebsocketConfig → Option WebsocketConfig
  websocket_block node c = do
    enabled ← get_bool y node (codes "enabled") false
    port ← get_int y node (codes "port") (pos 0)
    some (record c { enabled = enabled; port = port })

  unfoldable pub tcp_udp_block : Node → TcpUdpConfig → Option TcpUdpConfig
  tcp_udp_block node c = do
    enabled ← get_bool y node (codes "enabled") false
    port ← get_int y node (codes "port") (pos 0)
    some (record c { enabled = enabled; port = port })

  unfoldable pub legacy_protocols : Node → ProtocolsConfig → Option ProtocolsConfig
  legacy_protocols node c = do
    grpc ← when y node (codes "grpc") grpc_block c.grpc
    http ← when y node (codes "http") http_block c.http
    websocket ← when y node (codes "websocket") websocket_block c.websocket
    tcp ← when y node (codes "tcp") tcp_udp_block c.tcp
    udp ← when y node (codes "udp") tcp_udp_block c.udp
    some (record c { grpc = grpc; http = http; websocket = websocket; tcp = tcp; udp = udp })
