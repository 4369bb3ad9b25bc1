-- ===== src/Config/Document/Platform.antt =====
-- Documents of the settings that `ConfigParser::Parse` knows: TLS, performance, resilience and
-- observability.
use network_lirbary.Common.{◌≡◌, [], ◌∷◌, map, some}
use network_lirbary.Common.Dict.{bytes_eq, lookup}
use network_lirbary.Common.Text.{codes}
use network_lirbary.Config.Document.Writers.{Writer, FitsInt, FitsLong, strings_back}
use network_lirbary.Config.Parser.Platform.{
  ssl_block, memory_block, cpu_block, performance_block, circuit_breaker_block, rate_limiter_block,
  resilience_block, metrics_block, tracing_block, logging_block, observability_block,
}
use network_lirbary.Config.Settings.{
  CircuitBreakerConfig, default_circuit_breaker, CpuConfig, default_cpu, LoggingConfig,
  default_logging, MemoryConfig, default_memory, MetricsConfig, default_metrics,
  ObservabilityConfig, default_observability, PerformanceConfig, default_performance,
  RateLimiterConfig, default_rate_limiter, ResilienceConfig, default_resilience, SslConfig,
  default_ssl, TracingConfig, default_tracing,
}
use network_lirbary.Config.Yaml.{Yaml, get_safe, when, get_string_vector}

-- What a document holds of the settings; the others have their defaults.
abbrev pub known_ssl : SslConfig → SslConfig
known_ssl c = record default_ssl {
  enabled = c.enabled;
  min_tls_version = c.min_tls_version;
  cert_file = c.cert_file;
  key_file = c.key_file;
  ca_file = c.ca_file;
  cipher_suites = c.cipher_suites;
  alpn_protocols = c.alpn_protocols;
}

abbrev pub known_memory : MemoryConfig → MemoryConfig
known_memory c = record default_memory {
  allocator = c.allocator;
  connection_pool_size = c.connection_pool_size;
}

abbrev pub known_cpu : CpuConfig → CpuConfig
known_cpu c = record default_cpu { enable_cpu_affinity = c.enable_cpu_affinity }

abbrev pub known_performance : PerformanceConfig → PerformanceConfig
known_performance c = record default_performance {
  max_connections = c.max_connections;
  event_loop_type = c.event_loop_type;
  io_threads = c.io_threads;
  memory = known_memory c.memory;
  cpu = known_cpu c.cpu;
}

abbrev pub known_circuit_breaker : CircuitBreakerConfig → CircuitBreakerConfig
known_circuit_breaker c = record default_circuit_breaker {
  enabled = c.enabled;
  failure_threshold_percentage = c.failure_threshold_percentage;
}

abbrev pub known_rate_limiter : RateLimiterConfig → RateLimiterConfig
known_rate_limiter c = record default_rate_limiter {
  enabled = c.enabled;
  requests_per_second = c.requests_per_second;
}

abbrev pub known_resilience : ResilienceConfig → ResilienceConfig
known_resilience c = record default_resilience {
  circuit_breaker = known_circuit_breaker c.circuit_breaker;
  rate_limiter = known_rate_limiter c.rate_limiter;
}

abbrev pub known_metrics : MetricsConfig → MetricsConfig
known_metrics c = record default_metrics {
  enabled = c.enabled;
  port = c.port;
  metrics_list = c.metrics_list;
}

abbrev pub known_tracing : TracingConfig → TracingConfig
known_tracing c = record default_tracing { enabled = c.enabled; exporter = c.exporter }

abbrev pub known_logging : LoggingConfig → LoggingConfig
known_logging c = record default_logging {
  level = c.level;
  format = c.format;
  output = c.output;
  file_path = c.file_path;
  compress = c.compress;
}

abbrev pub known_observability : ObservabilityConfig → ObservabilityConfig
known_observability c = record default_observability {
  metrics = known_metrics c.metrics;
  tracing = known_tracing c.tracing;
  logging = known_logging c.logging;
}

module _ {y : Yaml} (w : Writer y) where
  open y use {Node}
  open w use {
    of_fields, of_string, of_bool, of_int, of_list, get_fields, string_back, bool_back, int_back,
    long_back,
  }

  abbrev pub write_ssl : SslConfig → Node
  write_ssl c = of_fields (
      (codes "enabled", of_bool c.enabled)
      ∷ (codes "min_tls_version", of_string c.min_tls_version)
      ∷ (codes "cert_file", of_string c.cert_file)
      ∷ (codes "key_file", of_string c.key_file)
      ∷ (codes "ca_file", of_string c.ca_file)
      ∷ (codes "cipher_suites", of_list (map of_string c.cipher_suites))
      ∷ (codes "alpn_protocols", of_list (map of_string c.alpn_protocols))
      ∷ [])

  abbrev pub write_memory : MemoryConfig → Node
  write_memory c = of_fields (
      (codes "allocator", of_string c.allocator)
      ∷ (codes "connection_pool_size", of_int c.connection_pool_size)
      ∷ [])

  abbrev pub write_cpu : CpuConfig → Node
  write_cpu c = of_fields ((codes "enable_cpu_affinity", of_bool c.enable_cpu_affinity) ∷ [])

  abbrev pub write_performance : PerformanceConfig → Node
  write_performance c = of_fields (
      (codes "max_connections", of_int c.max_connections)
      ∷ (codes "event_loop_type", of_string c.event_loop_type)
      ∷ (codes "io_threads", of_string c.io_threads)
      ∷ (codes "memory", write_memory c.memory)
      ∷ (codes "cpu", write_cpu c.cpu)
      ∷ [])

  abbrev pub write_circuit_breaker : CircuitBreakerConfig → Node
  write_circuit_breaker c = of_fields (
      (codes "enabled", of_bool c.enabled)
      ∷ (codes "failure_threshold_percentage", of_int c.failure_threshold_percentage)
      ∷ [])

  abbrev pub write_rate_limiter : RateLimiterConfig → Node
  write_rate_limiter c = of_fields (
      (codes "enabled", of_bool c.enabled)
      ∷ (codes "requests_per_second", of_int c.requests_per_second)
      ∷ [])

  abbrev pub write_resilience : ResilienceConfig → Node
  write_resilience c = of_fields (
      (codes "circuit_breaker", write_circuit_breaker c.circuit_breaker)
      ∷ (codes "rate_limiter", write_rate_limiter c.rate_limiter)
      ∷ [])

  abbrev pub write_metrics : MetricsConfig → Node
  write_metrics c = of_fields (
      (codes "enabled", of_bool c.enabled)
      ∷ (codes "port", of_int c.port)
      ∷ (codes "metrics_list", of_list (map of_string c.metrics_list))
      ∷ [])

  abbrev pub write_tracing : TracingConfig → Node
  write_tracing c =
      of_fields
        ((codes "enabled", of_bool c.enabled) ∷ (codes "exporter", of_string c.exporter) ∷ [])

  abbrev pub write_logging : LoggingConfig → Node
  write_logging c = of_fields (
      (codes "level", of_string c.level)
      ∷ (codes "format", of_string c.format)
      ∷ (codes "output", of_string c.output)
      ∷ (codes "file_path", of_string c.file_path)
      ∷ (codes "compress", of_bool c.compress)
      ∷ [])

  abbrev pub write_observability : ObservabilityConfig → Node
  write_observability c = of_fields (
      (codes "metrics", write_metrics c.metrics)
      ∷ (codes "tracing", write_tracing c.tracing)
      ∷ (codes "logging", write_logging c.logging)
      ∷ [])

  pub ssl_block-write : (c : SslConfig) → ssl_block y (write_ssl c) default_ssl ≡ some (known_ssl c)
  unfolding ssl_block lookup bytes_eq get_safe get_string_vector
  ssl_block-write c = simp (get_fields, string_back, bool_back, strings_back w)

  pub memory_block-write :
      (c : MemoryConfig)
      → FitsInt c.connection_pool_size
      → memory_block y (write_memory c) default_memory ≡ some (known_memory c)
  unfolding memory_block lookup bytes_eq get_safe
  memory_block-write c p0 = simp (get_fields, string_back, int_back c.connection_pool_size p0)

  pub cpu_block-write : (c : CpuConfig) → cpu_block y (write_cpu c) default_cpu ≡ some (known_cpu c)
  unfolding cpu_block lookup bytes_eq get_safe
  cpu_block-write c = simp (get_fields, bool_back)

  pub performance_block-write :
      (c : PerformanceConfig)
      → FitsLong c.max_connections
      → FitsInt c.memory.connection_pool_size
      → performance_block y (write_performance c) default_performance ≡ some (known_performance c)
  unfolding performance_block lookup bytes_eq get_safe when
  performance_block-write c p0 p1 = simp (
    get_fields,
    string_back,
    long_back c.max_connections p0,
    memory_block-write c.memory p1,
    cpu_block-write c.cpu,
  )

  pub circuit_breaker_block-write :
      (c : CircuitBreakerConfig)
      → FitsInt c.failure_threshold_percentage
      → circuit_breaker_block y (write_circuit_breaker c) default_circuit_breaker
        ≡ some (known_circuit_breaker c)
  unfolding circuit_breaker_block lookup bytes_eq get_safe
  circuit_breaker_block-write c p0 =
      simp (get_fields, bool_back, int_back c.failure_threshold_percentage p0)

  pub rate_limiter_block-write :
      (c : RateLimiterConfig)
      → FitsInt c.requests_per_second
      → rate_limiter_block y (write_rate_limiter c) default_rate_limiter
        ≡ some (known_rate_limiter c)
  unfolding rate_limiter_block lookup bytes_eq get_safe
  rate_limiter_block-write c p0 = simp (get_fields, bool_back, int_back c.requests_per_second p0)

  pub resilience_block-write :
      (c : ResilienceConfig)
      → FitsInt c.circuit_breaker.failure_threshold_percentage
      → FitsInt c.rate_limiter.requests_per_second
      → resilience_block y (write_resilience c) default_resilience ≡ some (known_resilience c)
  unfolding resilience_block lookup bytes_eq when
  resilience_block-write c p0 p1 = simp (
    get_fields,
    circuit_breaker_block-write c.circuit_breaker p0,
    rate_limiter_block-write c.rate_limiter p1,
  )

  pub metrics_block-write :
      (c : MetricsConfig)
      → FitsInt c.port
      → metrics_block y (write_metrics c) default_metrics ≡ some (known_metrics c)
  unfolding metrics_block lookup bytes_eq get_safe get_string_vector
  metrics_block-write c p0 = simp (get_fields, bool_back, int_back c.port p0, strings_back w)

  pub tracing_block-write :
      (c : TracingConfig)
      → tracing_block y (write_tracing c) default_tracing ≡ some (known_tracing c)
  unfolding tracing_block lookup bytes_eq get_safe
  tracing_block-write c = simp (get_fields, string_back, bool_back)

  pub logging_block-write :
      (c : LoggingConfig)
      → logging_block y (write_logging c) default_logging ≡ some (known_logging c)
  unfolding logging_block lookup bytes_eq get_safe
  logging_block-write c = simp (get_fields, string_back, bool_back)

  pub observability_block-write :
      (c : ObservabilityConfig)
      → FitsInt c.metrics.port
      → observability_block y (write_observability c) default_observability
        ≡ some (known_observability c)
  unfolding observability_block lookup bytes_eq when
  observability_block-write c p0 = simp (
    get_fields,
    metrics_block-write c.metrics p0,
    tracing_block-write c.tracing,
    logging_block-write c.logging,
  )
