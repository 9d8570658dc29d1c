-- ===== src/Auth.antt =====
-- crates/latiq-auth: who a request comes from.
pub mod Jwks
pub mod Verify
