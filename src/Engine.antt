-- ===== src/Engine.antt =====
-- crates/latiq-engine: what every engine shares.
pub mod Sql
