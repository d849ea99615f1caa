-- ===== src/Config.antt =====
-- config/interface.go and config/provider: where an application reads its settings from.
pub mod Wrap
pub mod Interface
pub mod Text
pub mod Env
pub mod Json
