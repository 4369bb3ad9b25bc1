-- ===== src/Config/Settings/Protocols.antt =====
-- lib_network/include/network/config/config.h: the protocols of the legacy form.
use network_lirbary.Common.{Bool, true, false, List, [], Bytes}
use network_lirbary.Common.Text.{codes, ℤ, pos}

pub record GrpcStreamingConfig : Type 0 where
  pub bidirectional : Bool
  pub server_streaming : Bool
  pub client_streaming : Bool
  pub unary : Bool
  pub max_concurrent_streams : ℤ
  pub initial_window_size : ℤ
  pub max_frame_size : ℤ
  pub keepalive_time_ms : ℤ
  pub keepalive_timeout_ms : ℤ
  pub keepalive_permit_without_calls : Bool
  pub max_connection_idle_ms : ℤ

abbrev pub default_grpc_streaming : GrpcStreamingConfig
default_grpc_streaming = record {
  bidirectional = true;
  server_streaming = true;
  client_streaming = true;
  unary = true;
  max_concurrent_streams = pos 1000;
  initial_window_size = pos 65535;
  max_frame_size = pos 16384;
  keepalive_time_ms = pos 7200000;
  keepalive_timeout_ms = pos 20000;
  keepalive_permit_without_calls = true;
  max_connection_idle_ms = pos 300000;
}

pub record CompressionConfig : Type 0 where
  pub enabled : Bool
  pub algorithms : List Bytes
  pub default_algorithm : Bytes
  pub compression_level : ℤ

abbrev pub default_compression : CompressionConfig
default_compression = record {
  enabled = true;
  algorithms = [];
  default_algorithm = [];
  compression_level = pos 6;
}

pub record Http2Config : Type 0 where
  pub max_header_list_size : ℤ
  pub enable_push : Bool
  pub initial_connection_window_size : ℤ

abbrev pub default_http2 : Http2Config
default_http2 = record {
  max_header_list_size = pos 16384;
  enable_push = false;
  initial_connection_window_size = pos 1048576;
}

pub record GrpcConfig : Type 0 where
  pub enabled : Bool
  pub streaming : GrpcStreamingConfig
  pub max_receive_message_size_mb : ℤ
  pub max_send_message_size_mb : ℤ
  pub max_metadata_size_kb : ℤ
  pub compression : CompressionConfig
  pub http2 : Http2Config

abbrev pub default_grpc : GrpcConfig
default_grpc = record {
  enabled = false;
  streaming = default_grpc_streaming;
  max_receive_message_size_mb = pos 100;
  max_send_message_size_mb = pos 100;
  max_metadata_size_kb = pos 8;
  compression = default_compression;
  http2 = default_http2;
}

pub record HttpConfig : Type 0 where
  pub enabled : Bool
  pub port : ℤ
  pub version : Bytes

abbrev pub default_http : HttpConfig
default_http = record { enabled = false; port = pos 0; version = codes "1.1" }

pub record WebsocketConfig : Type 0 where
  pub enabled : Bool
  pub port : ℤ

abbrev pub default_websocket : WebsocketConfig
default_websocket = record { enabled = false; port = pos 0 }

pub record TcpUdpConfig : Type 0 where
  pub enabled : Bool
  pub port : ℤ

abbrev pub default_tcp_udp : TcpUdpConfig
default_tcp_udp = record { enabled = false; port = pos 0 }

pub record ProtocolsConfig : Type 0 where
  pub grpc : GrpcConfig
  pub http : HttpConfig
  pub websocket : WebsocketConfig
  pub tcp : TcpUdpConfig
  pub udp : TcpUdpConfig

abbrev pub default_protocols : ProtocolsConfig
default_protocols = record {
  grpc = default_grpc;
  http = default_http;
  websocket = default_websocket;
  tcp = default_tcp_udp;
  udp = default_tcp_udp;
}
