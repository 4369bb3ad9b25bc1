-- ===== src/Config/Settings.antt =====
-- The structures of lib_network/include/network/config/config.h with their default values. The
-- fields that are `double`, histogram_buckets and sampling_rate, are left out: nothing sets them.
mod Network
mod Protocols
mod Security
mod Performance
mod Resilience
mod Observability
pub use Network.{SocketConfig, default_socket, NetworkConfig, default_network}
pub use Protocols.{
  GrpcStreamingConfig, default_grpc_streaming, CompressionConfig, default_compression, Http2Config,
  default_http2, GrpcConfig, default_grpc, HttpConfig, default_http, WebsocketConfig,
  default_websocket, TcpUdpConfig, default_tcp_udp, ProtocolsConfig, default_protocols,
}
pub use Security.{SslConfig, default_ssl, ProtocolConfig, default_protocol}
pub use Performance.{
  MemoryConfig, default_memory, CpuConfig, default_cpu, PerformanceConfig, default_performance,
}
pub use Resilience.{
  CircuitBreakerConfig, default_circuit_breaker, RateLimiterConfig, default_rate_limiter,
  BulkheadConfig, default_bulkhead, HealthCheckConfig, default_health_check, Timeout,
  default_timeout, GracefulShutdown, default_graceful_shutdown, ResilienceConfig,
  default_resilience,
}
pub use Observability.{
  MetricsConfig, default_metrics, LoggingConfig, default_logging, TracingConfig, default_tracing,
  ProfilingConfig, default_profiling, ObservabilityConfig, default_observability,
}
use network_lirbary.Common.{Bytes, List, []}
use network_lirbary.Common.Text.{codes, ℤ, pos}

pub record ServerConfig : Type 0 where
  pub mode : Bytes
  pub name : Bytes
  pub version : Bytes
  pub environment : Bytes
  pub network : NetworkConfig
  pub protocols : ProtocolsConfig
  pub protocol_list : List ProtocolConfig
  pub ssl : SslConfig
  pub performance : PerformanceConfig
  pub resilience : ResilienceConfig
  pub observability : ObservabilityConfig

abbrev pub default_server : ServerConfig
default_server = record {
  mode = codes "tcp";
  name = [];
  version = [];
  environment = codes "production";
  network = default_network;
  protocols = default_protocols;
  protocol_list = [];
  ssl = default_ssl;
  performance = default_performance;
  resilience = default_resilience;
  observability = default_observability;
}

pub record Endpoint : Type 0 where
  pub host : Bytes
  pub port : ℤ

abbrev pub default_endpoint : Endpoint
default_endpoint = record { host = codes "127.0.0.1"; port = pos 80 }

pub record ClientConfig : Type 0 where
  pub mode : Bytes
  pub network : Endpoint
  pub ssl : SslConfig

abbrev pub default_client : ClientConfig
default_client = record { mode = codes "tcp"; network = default_endpoint; ssl = default_ssl }
