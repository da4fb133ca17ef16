-- ===== src/Config.antt =====
-- The settings of the traced runner: config/config_loader.go and the types of config/config_type.go.
-- The children hold the tables, and what the settings guarantee.
pub mod Types
pub mod Tables
pub mod Loader
