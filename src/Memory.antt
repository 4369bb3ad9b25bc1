-- ===== src/Memory.antt =====
-- The memory components, lib_network/src/memory and lib_network/include/network/core/memory.
pub mod Buffer
pub mod Pool
