-- ===== src/ControlPlane.antt =====
-- crates/latiq-control-plane: the registry, and the service that creates ponds on it.
pub mod Registry
pub mod Service
pub mod Envelope
