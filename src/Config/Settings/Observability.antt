-- ===== src/Config/Settings/Observability.antt =====
-- lib_network/include/network/config/config.h: observability.
use network_lirbary.Common.{Bool, true, false, List, [], Bytes}
use network_lirbary.Common.Text.{codes, ℤ, pos}

pub record MetricsConfig : Type 0 where
  pub enabled : Bool
  pub port : ℤ
  pub format : Bytes
  pub path : Bytes
  pub collect_interval_ms : ℤ
  pub enable_histograms : Bool
  pub metrics_list : List Bytes

abbrev pub default_metrics : MetricsConfig
default_metrics = record {
  enabled = true;
  port = pos 9090;
  format = codes "prometheus";
  path = codes "/metrics";
  collect_interval_ms = pos 1000;
  enable_histograms = true;
  metrics_list = [];
}

pub record LoggingConfig : Type 0 where
  pub level : Bytes
  pub format : Bytes
  pub output : Bytes
  pub file_path : Bytes
  pub compress : Bool

abbrev pub default_logging : LoggingConfig
default_logging = record {
  level = codes "info";
  format = codes "text";
  output = codes "stdout";
  file_path = [];
  compress = false;
}

pub record TracingConfig : Type 0 where
  pub enabled : Bool
  pub exporter : Bytes
  pub endpoint : Bytes

abbrev pub default_tracing : TracingConfig
default_tracing = record { enabled = false; exporter = []; endpoint = [] }

pub record ProfilingConfig : Type 0 where
  pub enabled : Bool
  pub cpu_profile_enabled : Bool
  pub memory_profile_enabled : Bool

abbrev pub default_profiling : ProfilingConfig
default_profiling = record {
  enabled = false;
  cpu_profile_enabled = false;
  memory_profile_enabled = false;
}

pub record ObservabilityConfig : Type 0 where
  pub metrics : MetricsConfig
  pub logging : LoggingConfig
  pub tracing : TracingConfig
  pub profiling : ProfilingConfig

abbrev pub default_observability : ObservabilityConfig
default_observability = record {
  metrics = default_metrics;
  logging = default_logging;
  tracing = default_tracing;
  profiling = default_profiling;
}
