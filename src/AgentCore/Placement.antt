-- ===== src/AgentCore/Placement.antt =====
-- crates/latiq-agent-core/src/ops.rs: `placement` and `route`, which decide on which node a pond's work
-- runs; crates/latiq-agent-core/src/forward.rs: `Peer`. What is done over the forwarder is its
-- implementor's; here it is only there or not.
pub mod Laws
mod Tests
use latiq.Prelude.{
  String, Bool, true, false, not, Option, none, some, ◌==◌, string_eq, if◌then◌else◌, Result, ok,
  err,
}
use latiq.AgentCore.Control.{PondInfo}

-- What a node knows of itself.
pub record Node : Type 0 where
  pub self_node_id : Option String
  pub self_endpoint : Option String
  pub has_forwarder : Bool

-- `AgentOps::new`, and `with_forwarding` on it.
abbrev pub unclustered : Node
unclustered = record { self_node_id = none; self_endpoint = none; has_forwarder = false }

abbrev pub with_forwarding : (self_node_id self_endpoint : String) → Node → Node
with_forwarding id endpoint node = record node {
  self_node_id = some id;
  self_endpoint = some endpoint;
  has_forwarder = true;
}

pub record Peer : Type 0 where
  pub node_id : String
  pub endpoint : String

pub data Placement : Type 0 where
  local : Placement
  forward : Peer → Placement
  no_owner : Placement

-- `filter(|s| !s.is_empty())`.
unfoldable pub non_empty : Option String → Option String
non_empty none = none
non_empty (some s) = if s == "" then none else some s

-- The match on the owner's endpoint, for a pond of another node.
unfoldable pub dial : (owner_id my_address : String) → Option String → Placement
dial owner_id my_address none = no_owner
dial owner_id my_address (some owner) =
    if owner == my_address
    then no_owner
    else forward (record { node_id = owner_id; endpoint = owner })

-- The ownership question, on a node of a cluster.
unfoldable pub owned : (me my_address : String) → Option String → Option String → Placement
unfolding dial
owned me my_address none endpoint = no_owner
owned me my_address (some owner_id) endpoint =
    if owner_id == me then local else dial owner_id my_address endpoint

unfoldable pub clustered : Bool → Option String → Option String → Option (String × String)
clustered true (some me) (some my_address) = some (me, my_address)
clustered _ _ _ = none

unfoldable pub placement : Node → PondInfo → Placement
unfolding clustered non_empty owned
placement node info = elim (clustered node.has_forwarder node.self_node_id node.self_endpoint) [
  | none ↦ local
  | some (me, my_address) ↦
      owned me my_address (non_empty info.node_id) (non_empty info.node_endpoint)
]

-- The refusal of `AgentError::pond_unavailable`, with the pond's name.
pub data RouteError : Type 0 where
  pond_unavailable : String → RouteError

-- `None` is: serve it here.
unfoldable pub route : Node → PondInfo → Result RouteError (Option Peer)
unfolding placement
route node info = elim (placement node info) [
  | local ↦ ok none
  | forward peer ↦ ok (some peer)
  | no_owner ↦ err (pond_unavailable info.name)
]
