-- ===== src/Config.antt =====
-- internal/config.
pub mod Types
pub mod Defaults
pub mod Checks
pub mod Rules
pub mod Options
pub mod Credentials
pub mod Validate
pub mod TagKeys
