-- ===== src/PondNode.antt =====
-- crates/latiq-pond-node: the gRPC surface of a node.
pub mod Hop
