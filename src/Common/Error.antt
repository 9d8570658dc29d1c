-- ===== src/Common/Error.antt =====
-- crates/latiq-common/src/error.rs: the structured error that every surface returns.
mod Tests
pub mod Kinds
pub mod Guidance
pub mod Envelope
pub mod Status
pub mod Render
pub mod Laws
