-- ===== src/Config.antt =====
-- Configuration: lib_network/include/network/config/config.h and lib_network/src/config.
pub mod Settings
pub mod Yaml
pub mod Parser
pub mod ClientParser
pub mod LoggerString
pub mod HotReload
pub mod Document
mod Tests
