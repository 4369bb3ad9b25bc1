-- ===== src/Config/Settings/Network.antt =====
-- lib_network/include/network/config/config.h: the listening socket.
use network_lirbary.Common.{Bool, true, Bytes}
use network_lirbary.Common.Text.{codes, ℤ, pos}

pub record SocketConfig : Type 0 where
  pub so_reuseaddr : Bool
  pub so_reuseport : Bool
  pub tcp_nodelay : Bool
  pub tcp_keepalive : Bool
  pub tcp_keepalive_idle_sec : ℤ
  pub tcp_keepalive_interval_sec : ℤ
  pub tcp_keepalive_count : ℤ
  pub so_rcvbuf : ℤ
  pub so_sndbuf : ℤ
  pub backlog : ℤ

abbrev pub default_socket : SocketConfig
default_socket = record {
  so_reuseaddr = true;
  so_reuseport = true;
  tcp_nodelay = true;
  tcp_keepalive = true;
  tcp_keepalive_idle_sec = pos 60;
  tcp_keepalive_interval_sec = pos 10;
  tcp_keepalive_count = pos 3;
  so_rcvbuf = pos 2097152;
  so_sndbuf = pos 2097152;
  backlog = pos 4096;
}

pub record NetworkConfig : Type 0 where
  pub host : Bytes
  pub port : ℤ
  pub protocol : Bytes
  pub ip_version : Bytes
  pub socket : SocketConfig

abbrev pub default_network : NetworkConfig
default_network = record {
  host = codes "0.0.0.0";
  port = pos 0;
  protocol = codes "tcp";
  ip_version = codes "dual";
  socket = default_socket;
}
