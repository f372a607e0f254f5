-- ===== src/Config.antt =====
-- The packages config and config/auth: registry credentials and proxy settings of the Docker CLI's
-- configuration file.
pub mod Registry
pub mod Credentials
pub mod Base64
pub mod Resolve
pub mod Cache
pub mod Images
pub mod Proxy
pub mod Load
mod Tests
