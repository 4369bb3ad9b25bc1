-- ===== src/Resilience.antt =====
-- Protection against overload and failing peers: lib_network/src/resilience and
-- lib_network/src/security/ddos_protection.cc.
pub mod CircuitBreaker
pub mod DdosProtection
pub mod TokenBucket
