-- ===== src/ControlPlane/Registry/Nodes.antt =====
-- registry.rs: registration, heartbeats, the reaper and the lookup of a node.
pub mod Laws
use latiq.Prelude.{
  ℕ, ◌+◌, ◌*◌, ◌-◌, ◌/◌, ok, err, String, Bool, true, false, ◌&&◌, List, [], ◌∷◌, ◌++◌, Option,
  none, some, ltb, ◌==◌, string_eq, if◌then◌else◌, any, find,
}
use latiq.ControlPlane.Registry.{
  NodeState, active, down, NodeRecord, PondRecord, Registry, node_not_found, Op, count,
  update_where,
}

abbrev pub is_active : NodeState → Bool
is_active active = true
is_active down = false

abbrev pub has_node_id : String → NodeRecord → Bool
has_node_id id n = n.node_id == id

-- The SET clause of `register_node`'s ON CONFLICT.
unfoldable pub refreshed : String → String → ℕ → ℕ → NodeRecord → NodeRecord
refreshed mcp internal capacity now n = record n {
  mcp_endpoint = mcp;
  internal_endpoint = internal;
  capacity = capacity;
  last_heartbeat = now;
  state = active;
}

unfoldable pub register_node : String → String → String → ℕ → (now : ℕ) → Op (Unit {0})
unfolding refreshed
register_node node_id mcp internal capacity now r =
    if any (has_node_id node_id) r.nodes
    then (
      ok tt,
      record r {
        nodes = update_where (has_node_id node_id) (refreshed mcp internal capacity now) r.nodes;
      },
    )
    else (
      ok tt,
      record r {
        nodes =
            r.nodes
            ++ record {
              node_id = node_id;
              mcp_endpoint = mcp;
              internal_endpoint = internal;
              capacity = capacity;
              state = active;
              last_heartbeat = now;
            }
              ∷ [];
      },
    )

abbrev pub beat : ℕ → NodeRecord → NodeRecord
beat now n = record n { last_heartbeat = now; state = active }

unfoldable pub heartbeat : String → (now : ℕ) → Op (Unit {0})
heartbeat node_id now r =
    if any (has_node_id node_id) r.nodes
    then (ok tt, record r { nodes = update_where (has_node_id node_id) (beat now) r.nodes })
    else (err (node_not_found node_id), r)

abbrev pub second : ℕ
second = 1_000_000

-- `state='active' AND last_heartbeat < now() - to_seconds(ttl)`, with the subtraction moved over.
unfoldable pub is_stale : (ttl_secs now : ℕ) → NodeRecord → Bool
is_stale ttl_secs now n = is_active n.state && ltb (n.last_heartbeat + ttl_secs * second) now

abbrev pub take_down : NodeRecord → NodeRecord
take_down n = record n { state = down }

unfoldable pub reap_stale_nodes : (ttl_secs now : ℕ) → Op ℕ
unfolding is_stale
reap_stale_nodes ttl_secs now r = (
  ok (count (is_stale ttl_secs now) r.nodes),
  record r { nodes = update_where (is_stale ttl_secs now) take_down r.nodes },
)

-- A node as `list_nodes` reports it, and as `describe_node` picks it out.
pub record NodeRow : Type 0 where
  pub node_id : String
  pub mcp_endpoint : String
  pub internal_endpoint : String
  pub capacity : ℕ
  pub pond_count : ℕ
  pub state : NodeState
  pub last_heartbeat : ℕ
  pub heartbeat_age : ℕ

abbrev pub assigned_to : String → PondRecord → Bool
assigned_to id p = p.node_id == id

unfoldable pub node_row : ℕ → Registry → NodeRecord → NodeRow
node_row now r n = record {
  node_id = n.node_id;
  mcp_endpoint = n.mcp_endpoint;
  internal_endpoint = n.internal_endpoint;
  capacity = n.capacity;
  pond_count = count (assigned_to n.node_id) r.ponds;
  state = n.state;
  last_heartbeat = n.last_heartbeat;
  heartbeat_age = (now - n.last_heartbeat) / second;
}

unfoldable pub describe_node : String → (now : ℕ) → Op NodeRow
unfolding node_row
describe_node node_id now r = elim (find (has_node_id node_id) r.nodes) [
  | none ↦ (err (node_not_found node_id), r)
  | some n ↦ (ok (node_row now r n), r)
]
