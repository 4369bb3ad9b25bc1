-- ===== src/Config/Settings/Performance.antt =====
-- lib_network/include/network/config/config.h: performance.
use network_lirbary.Common.{Bool, true, false, List, [], Bytes}
use network_lirbary.Common.Text.{codes, ℤ, pos}

pub record MemoryConfig : Type 0 where
  pub allocator : Bytes
  pub enable_memory_pools : Bool
  pub connection_pool_size : ℤ
  pub buffer_pool_size : ℤ
  pub enable_huge_pages : Bool
  pub huge_page_size_mb : ℤ
  pub max_memory_per_connection_kb : ℤ
  pub max_total_memory_gb : ℤ

abbrev pub default_memory : MemoryConfig
default_memory = record {
  allocator = codes "system";
  enable_memory_pools = true;
  connection_pool_size = pos 10000;
  buffer_pool_size = pos 10000;
  enable_huge_pages = false;
  huge_page_size_mb = pos 2;
  max_memory_per_connection_kb = pos 512;
  max_total_memory_gb = pos 100;
}

pub record CpuConfig : Type 0 where
  pub enable_cpu_affinity : Bool
  pub isolated_cores : List ℤ
  pub enable_simd : Bool

abbrev pub default_cpu : CpuConfig
default_cpu = record { enable_cpu_affinity = false; isolated_cores = []; enable_simd = true }

pub record PerformanceConfig : Type 0 where
  pub max_connections : ℤ
  pub max_connections_per_ip : ℤ
  pub connection_timeout_ms : ℤ
  pub request_timeout_ms : ℤ
  pub io_threads : Bytes
  pub worker_threads : Bytes
  pub thread_affinity : Bool
  pub enable_numa : Bool
  pub numa_policy : Bytes
  pub event_loop_type : Bytes
  pub enable_zero_copy : Bool
  pub use_sendfile : Bool
  pub use_splice : Bool
  pub use_io_uring : Bool
  pub io_uring_entries : ℤ
  pub io_uring_flags : List Bytes
  pub memory : MemoryConfig
  pub cpu : CpuConfig

abbrev pub default_performance : PerformanceConfig
default_performance = record {
  max_connections = pos 1000000;
  max_connections_per_ip = pos 1000;
  connection_timeout_ms = pos 5000;
  request_timeout_ms = pos 30000;
  io_threads = codes "auto";
  worker_threads = codes "auto";
  thread_affinity = false;
  enable_numa = false;
  numa_policy = codes "local";
  event_loop_type = codes "auto";
  enable_zero_copy = true;
  use_sendfile = true;
  use_splice = true;
  use_io_uring = false;
  io_uring_entries = pos 2048;
  io_uring_flags = [];
  memory = default_memory;
  cpu = default_cpu;
}
