-- ===== src/Common.antt =====
-- crates/latiq-common: the vocabulary that the planes share.
pub mod Tier
pub mod Timeout
pub mod PondName
pub mod Extensions
pub mod Identity
pub mod Error
pub mod Trace
