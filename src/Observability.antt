-- ===== src/Observability.antt =====
-- Observability: lib_network/src/observability.
pub mod Tracer
