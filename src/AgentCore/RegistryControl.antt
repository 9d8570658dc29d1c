-- ===== src/AgentCore/RegistryControl.antt =====
-- crates/latiq-agent-core/src/registry_control.rs: the control plane that is a registry in the same
-- process. `cp_err` keeps the registry's error in an envelope, here in `from_control`.
pub mod Laws
use latiq.Prelude.{
  ℕ, String, Bool, List, [], ◌∷◌, map, Option, none, some, ◌==◌, string_eq, if◌then◌else◌, Result,
  ok, err,
}
use latiq.Prelude.Text.{Text}
use latiq.ControlPlane.Registry.{
  DatasetTableRow, Registry, ControlPlaneError, pond_not_found, Op, ◌>>=◌, return,
}
use latiq.ControlPlane.Registry.Ponds.{
  PondRow, NewPond, Draw, create_pond, drop_pond, Database, pond_info,
}
use latiq.ControlPlane.Registry.Search.{list_ponds}
use latiq.AgentCore.Placement.{non_empty}
use latiq.AgentCore.Control.{PondInfo, AgentError, from_control, Method, ControlPlane}

module _ {E : Type 0} where
  -- `map_err(cp_err)`.
  abbrev pub map_cp_err :
      {A : Type 0} → Result ControlPlaneError A × Registry → Result (AgentError E) A × Registry
  map_cp_err (ok a, r) = (ok a, r)
  map_cp_err (err e, r) = (err (from_control e), r)

  abbrev pub cp_err : {A : Type 0} → Op A → Method Registry E A
  cp_err m r = map_cp_err (m r)

unfoldable pub to_info :
    PondRow → (created_at : ℕ) (policy_json : String) (node_endpoint : Option String) → PondInfo
unfolding non_empty
to_info row created_at policy_json node_endpoint = record {
  pond_id = row.pond_id;
  name = row.name;
  owner = row.owner_identity;
  created_at = created_at;
  policy_json = policy_json;
  node_id = non_empty (some row.node_id);
  node_endpoint = node_endpoint;
  tier = row.tier;
  extensions = row.extensions;
  description = row.description;
  lineage = row.lineage;
}

-- `registry.pond_info` and `to_info`.
unfoldable pub info_of : String → Op PondInfo
unfolding to_info
info_of ref = do found ← pond_info ref; return (to_info found.0 found.1 found.2 found.3)

-- The loop over the rows of a list, each looked up on its own; rows that are gone are skipped.
unfoldable pub details : List PondRow → Op (List PondInfo)
unfolding info_of
details [] r = (ok [], r)
details (row ∷ rows) r =
    let rest = details rows r in
    elim (info_of row.pond_id r).0 [
      | ok info ↦ elim rest.0 [ ok infos ↦ (ok (info ∷ infos), rest.1) | err e ↦ (err e, rest.1) ]
      | err e ↦ skip e rest
    ]
  where
    skip :
        ControlPlaneError
        → Result ControlPlaneError (List PondInfo) × Registry
        → Result ControlPlaneError (List PondInfo) × Registry
    skip (pond_not_found ref) rest = rest
    skip e rest = (err e, r)

module _ (to_lowercase : Text → Text) where
  unfoldable pub created : Draw → NewPond → Op PondInfo
  unfolding info_of
  created draw new = do row ← create_pond to_lowercase draw new; info_of row.pond_id

  -- `RegistryControlPlane`, with what a creation draws and what the database answers to a deletion.
  unfoldable pub registry_control : {E : Type 0} → Draw → Database → ControlPlane Registry E
  unfolding created details
  registry_control draw db = record {
    create_pond = λ name owner policy_json tier extensions lineage. cp_err (
        created draw (record {
          name = name;
          owner_identity = owner;
          policy_json = policy_json;
          tier = tier;
          extensions = extensions;
          description = "";
          lineage = lineage;
        }));
    list_ponds = cp_err (list_ponds >>= details);
    pond_info = λ ref. cp_err (info_of ref);
    drop_pond = λ id. cp_err (drop_pond db id);
  }
