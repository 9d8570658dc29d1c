-- ===== src/AgentCore.antt =====
-- crates/latiq-agent-core: what a node does with a request before and around the engine's work.
pub mod Control
pub mod RegistryControl
pub mod InFlight
pub mod Placement
pub mod Deadline
pub mod Ops
pub mod Redact
pub mod Error
pub mod Envelope
