-- ===== src/Config/Settings/Resilience.antt =====
-- lib_network/include/network/config/config.h: resilience.
use network_lirbary.Common.{Bool, true, Bytes}
use network_lirbary.Common.Text.{codes, ℤ, pos}

pub record CircuitBreakerConfig : Type 0 where
  pub enabled : Bool
  pub failure_threshold_percentage : ℤ
  pub success_threshold : ℤ
  pub timeout_ms : ℤ
  pub min_requests : ℤ
  pub rolling_window_ms : ℤ

abbrev pub default_circuit_breaker : CircuitBreakerConfig
default_circuit_breaker = record {
  enabled = true;
  failure_threshold_percentage = pos 50;
  success_threshold = pos 10;
  timeout_ms = pos 60000;
  min_requests = pos 20;
  rolling_window_ms = pos 10000;
}

pub record RateLimiterConfig : Type 0 where
  pub enabled : Bool
  pub algorithm : Bytes
  pub requests_per_second : ℤ
  pub burst_size : ℤ
  pub per_ip_enabled : Bool
  pub per_ip_requests_per_second : ℤ
  pub per_ip_burst_size : ℤ

abbrev pub default_rate_limiter : RateLimiterConfig
default_rate_limiter = record {
  enabled = true;
  algorithm = codes "token_bucket";
  requests_per_second = pos 10000;
  burst_size = pos 1000;
  per_ip_enabled = true;
  per_ip_requests_per_second = pos 100;
  per_ip_burst_size = pos 10;
}

pub record BulkheadConfig : Type 0 where
  pub enabled : Bool
  pub max_concurrent_requests : ℤ
  pub queue_size : ℤ
  pub queue_timeout_ms : ℤ

abbrev pub default_bulkhead : BulkheadConfig
default_bulkhead = record {
  enabled = true;
  max_concurrent_requests = pos 1000;
  queue_size = pos 100;
  queue_timeout_ms = pos 5000;
}

pub record HealthCheckConfig : Type 0 where
  pub enabled : Bool
  pub interval_ms : ℤ
  pub timeout_ms : ℤ
  pub unhealthy_threshold : ℤ
  pub healthy_threshold : ℤ

abbrev pub default_health_check : HealthCheckConfig
default_health_check = record {
  enabled = true;
  interval_ms = pos 10000;
  timeout_ms = pos 3000;
  unhealthy_threshold = pos 3;
  healthy_threshold = pos 2;
}

pub record Timeout : Type 0 where
  pub connection_timeout_ms : ℤ
  pub request_timeout_ms : ℤ
  pub idle_timeout_ms : ℤ

abbrev pub default_timeout : Timeout
default_timeout = record {
  connection_timeout_ms = pos 5000;
  request_timeout_ms = pos 30000;
  idle_timeout_ms = pos 300000;
}

pub record GracefulShutdown : Type 0 where
  pub enabled : Bool
  pub timeout_ms : ℤ
  pub drain_connections : Bool

abbrev pub default_graceful_shutdown : GracefulShutdown
default_graceful_shutdown = record {
  enabled = true;
  timeout_ms = pos 30000;
  drain_connections = true;
}

pub record ResilienceConfig : Type 0 where
  pub circuit_breaker : CircuitBreakerConfig
  pub rate_limiter : RateLimiterConfig
  pub bulkhead : BulkheadConfig
  pub health_check : HealthCheckConfig
  pub timeout : Timeout
  pub graceful_shutdown : GracefulShutdown

abbrev pub default_resilience : ResilienceConfig
default_resilience = record {
  circuit_breaker = default_circuit_breaker;
  rate_limiter = default_rate_limiter;
  bulkhead = default_bulkhead;
  health_check = default_health_check;
  timeout = default_timeout;
  graceful_shutdown = default_graceful_shutdown;
}
