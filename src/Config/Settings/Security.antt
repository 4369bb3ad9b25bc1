-- ===== src/Config/Settings/Security.antt =====
-- lib_network/include/network/config/config.h: TLS, and the protocols of the list form.
use network_lirbary.Common.{Bool, true, false, List, [], Bytes}
use network_lirbary.Common.Text.{codes, ℤ, pos}

pub record SslConfig : Type 0 where
  pub enabled : Bool
  pub min_tls_version : Bytes
  pub max_tls_version : Bytes
  pub cert_file : Bytes
  pub key_file : Bytes
  pub ca_file : Bytes
  pub verify_client : Bool
  pub client_cert_required : Bool
  pub cipher_suites : List Bytes
  pub session_tickets : Bool
  pub session_ticket_keys_file : Bytes
  pub session_cache_size : ℤ
  pub session_timeout_sec : ℤ
  pub alpn_protocols : List Bytes

abbrev pub default_ssl : SslConfig
default_ssl = record {
  enabled = false;
  min_tls_version = codes "1.3";
  max_tls_version = codes "1.3";
  cert_file = [];
  key_file = [];
  ca_file = [];
  verify_client = false;
  client_cert_required = false;
  cipher_suites = [];
  session_tickets = true;
  session_ticket_keys_file = [];
  session_cache_size = pos 20000;
  session_timeout_sec = pos 86400;
  alpn_protocols = [];
}

pub record ProtocolConfig : Type 0 where
  pub name : Bytes
  pub type : Bytes
  pub mode : Bytes
  pub port : ℤ
  pub enabled : Bool
  pub ssl : SslConfig

abbrev pub default_protocol : ProtocolConfig
default_protocol = record {
  name = [];
  type = [];
  mode = codes "proto";
  port = pos 0;
  enabled = true;
  ssl = default_ssl;
}
