-- ===== src/Logger.antt =====
-- The logging library, lib_logger.
pub mod Config
pub mod Async
pub mod Manager
