-- ===== src/Security.antt =====
-- TLS: lib_network/src/security/tls_context.cc.
pub mod TlsContext
