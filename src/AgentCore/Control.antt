-- ===== src/AgentCore/Control.antt =====
-- crates/latiq-agent-core/src/control.rs and types.rs: what a node asks of the control plane, which is a
-- registry in the same process or behind gRPC.
use latiq.Prelude.{ℕ, String, Bool, List, Option, Result}
use latiq.Prelude.Text.{Text}
use latiq.ControlPlane.Registry.{ControlPlaneError}
use latiq.Storage.LocalFs.{StorageError}

pub record PondInfo : Type 0 where
  pub pond_id : String
  pub name : String
  pub owner : String
  pub created_at : ℕ
  pub policy_json : String
  pub node_id : Option String
  pub node_endpoint : Option String
  pub tier : String
  pub extensions : List Text
  pub description : String
  pub lineage : Bool

-- An `AgentError` is told by where it comes from; `engine` holds what `From<EngineError>` makes of
-- the engine's errors. `joined` is a blocking task that panicked.
pub data AgentError (E : Type 0) : Type 0 where
  from_control : ControlPlaneError → AgentError E
  pond_unavailable missing_confirm bad_pond_id : String → AgentError E
  storage : StorageError → AgentError E
  joined : AgentError E
  engine : E → AgentError E
  query_timeout : (effective_ms max_ms : ℕ) → AgentError E
  result_cap_exceeded : (rows cap : ℕ) → AgentError E
  from_peer : E → AgentError E

-- A method on a state: its answer, and the state after it.
abbrev pub Method : (S E A : Type 0) → Type 0
Method S E A = S → Result (AgentError E) A × S

-- `trait ControlPlane`, as far as a node's requests for ponds go.
pub record ControlPlane (S E : Type 0) : Type 0 where
  pub create_pond :
      (name : Option String) (owner policy_json tier : String) (extensions : List Text)
      (lineage : Bool)
      → Method S E PondInfo
  pub list_ponds : Method S E (List PondInfo)
  pub pond_info : (pond_ref : String) → Method S E PondInfo
  pub drop_pond : (pond_id : String) → Method S E (Unit {0})
