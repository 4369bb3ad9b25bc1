-- ===== src/Config/Parser/Platform.antt =====
-- `ConfigParser::Parse` of lib_network/src/config/config_parser.cc: TLS, performance, resilience
-- and observability. Each function is the block under the key of its name.
use network_lirbary.Common.{true, false, [], some, Option}
use network_lirbary.Common.Text.{codes, pos}
use network_lirbary.Config.Settings.{
  CircuitBreakerConfig, CpuConfig, LoggingConfig, MemoryConfig, MetricsConfig, ObservabilityConfig,
  PerformanceConfig, RateLimiterConfig, ResilienceConfig, SslConfig, TracingConfig,
}
use network_lirbary.Config.Yaml.{
  Yaml, ◌>>=◌, get_string_vector, get_string, get_bool, get_int, get_long, when,
}

module _ (y : Yaml) where
  open y use {Node}

  unfoldable pub ssl_block : Node → SslConfig → Option SslConfig
  ssl_block node c = do
    enabled ← get_bool y node (codes "enabled") false
    min_tls_version ← get_string y node (codes "min_tls_version") (codes "1.3")
    cert_file ← get_string y node (codes "cert_file") []
    key_file ← get_string y node (codes "key_file") []
    ca_file ← get_string y node (codes "ca_file") []
    cipher_suites ← get_string_vector y node (codes "cipher_suites")
    alpn_protocols ← get_string_vector y node (codes "alpn_protocols")
    some (record c {
      enabled = enabled;
      min_tls_version = min_tls_version;
      cert_file = cert_file;
      key_file = key_file;
      ca_file = ca_file;
      cipher_suites = cipher_suites;
      alpn_protocols = alpn_protocols;
    })

  unfoldable pub memory_block : Node → MemoryConfig → Option MemoryConfig
  memory_block node c = do
    allocator ← get_string y node (codes "allocator") (codes "system")
    connection_pool_size ← get_int y node (codes "connection_pool_size") (pos 10000)
    some (record c { allocator = allocator; connection_pool_size = connection_pool_size })

  unfoldable pub cpu_block : Node → CpuConfig → Option CpuConfig
  cpu_block node c = do
    enable_cpu_affinity ← get_bool y node (codes "enable_cpu_affinity") false
    some (record c { enable_cpu_affinity = enable_cpu_affinity })

  unfoldable pub performance_block : Node → PerformanceConfig → Option PerformanceConfig
  performance_block node c = do
    max_connections ← get_long y node (codes "max_connections") (pos 1000000)
    event_loop_type ← get_string y node (codes "event_loop_type") (codes "auto")
    io_threads ← get_string y node (codes "io_threads") (codes "auto")
    memory ← when y node (codes "memory") memory_block c.memory
    cpu ← when y node (codes "cpu") cpu_block c.cpu
    some (record c {
      max_connections = max_connections;
      event_loop_type = event_loop_type;
      io_threads = io_threads;
      memory = memory;
      cpu = cpu;
    })

  unfoldable pub circuit_breaker_block : Node → CircuitBreakerConfig → Option CircuitBreakerConfig
  circuit_breaker_block node c = do
    enabled ← get_bool y node (codes "enabled") true
    failure_threshold_percentage ← get_int y node (codes "failure_threshold_percentage") (pos 50)
    some (record c {
      enabled = enabled;
      failure_threshold_percentage = failure_threshold_percentage;
    })

  unfoldable pub rate_limiter_block : Node → RateLimiterConfig → Option RateLimiterConfig
  rate_limiter_block node c = do
    enabled ← get_bool y node (codes "enabled") true
    requests_per_second ← get_int y node (codes "requests_per_second") (pos 1000)
    some (record c { enabled = enabled; requests_per_second = requests_per_second })

  unfoldable pub resilience_block : Node → ResilienceConfig → Option ResilienceConfig
  resilience_block node c = do
    circuit_breaker ← when y node (codes "circuit_breaker") circuit_breaker_block c.circuit_breaker
    rate_limiter ← when y node (codes "rate_limiter") rate_limiter_block c.rate_limiter
    some (record c { circuit_breaker = circuit_breaker; rate_limiter = rate_limiter })

  unfoldable pub metrics_block : Node → MetricsConfig → Option MetricsConfig
  metrics_block node c = do
    enabled ← get_bool y node (codes "enabled") true
    port ← get_int y node (codes "port") (pos 9090)
    metrics_list ← get_string_vector y node (codes "metrics_list")
    some (record c { enabled = enabled; port = port; metrics_list = metrics_list })

  unfoldable pub tracing_block : Node → TracingConfig → Option TracingConfig
  tracing_block node c = do
    enabled ← get_bool y node (codes "enabled") false
    exporter ← get_string y node (codes "exporter") (codes "jaeger")
    some (record c { enabled = enabled; exporter = exporter })

  unfoldable pub logging_block : Node → LoggingConfig → Option LoggingConfig
  logging_block node c = do
    level ← get_string y node (codes "level") (codes "info")
    format ← get_string y node (codes "format") (codes "text")
    output ← get_string y node (codes "output") (codes "stdout")
    file_path ← get_string y node (codes "file_path") []
    compress ← get_bool y node (codes "compress") false
    some (record c {
      level = level;
      format = format;
      output = output;
      file_path = file_path;
      compress = compress;
    })

  unfoldable pub observability_block : Node → ObservabilityConfig → Option ObservabilityConfig
  observability_block node c = do
    metrics ← when y node (codes "metrics") metrics_block c.metrics
    tracing ← when y node (codes "tracing") tracing_block c.tracing
    logging ← when y node (codes "logging") logging_block c.logging
    some (record c { metrics = metrics; tracing = tracing; logging = logging })
