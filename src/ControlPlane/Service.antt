-- ===== src/ControlPlane/Service.antt =====
-- crates/latiq-control-plane/src/control_service.rs: `create_pond_assignment`, which places a pond,
-- makes it real on its node, and gives the placement back if it could not. The registry's lock is
-- not held in between: `Meanwhile` lists the calls of others that get in. What the node answers
-- is an argument, the materializer; the caller's identity and trace, which it is handed as well,
-- do not change what is done here.
pub mod Laws
pub mod Answers
pub mod Rollback
mod Tests
use latiq.Prelude.{
  ℕ, String, Bool, true, false, List, [], Option, none, some, ◌==◌, string_eq, if◌then◌else◌,
  Result, ok, err,
}
use latiq.Prelude.Text.{Text}
use latiq.ControlPlane.Registry.{
  Registry, ControlPlaneError, Cause, unlocated, node_said, allocation_not_materialized,
}
use latiq.ControlPlane.Registry.Ponds.{
  Draw, NewPond, PondRow, Database, carries_out, create_pond, drop_pond, get_pond_location,
}
use latiq.ControlPlane.Registry.Invariant.{Call, run}

-- `materialize(endpoint, pond_id)`.
abbrev pub Materializer : Type 0
Materializer = (endpoint pond_id : String) → Result Text (Unit {0})

-- What other calls do to the registry between the placement and its lookup, and while the node works; and
-- what the database answers if the row is then to be deleted.
pub record Meanwhile : Type 0 where
  pub placed : List Call
  pub materializing : List Call
  pub undo : Database

-- No other call gets in, and the database carries out what it is asked.
abbrev pub quiet : Meanwhile
quiet = record { placed = []; materializing = []; undo = carries_out }

pub record Request : Type 0 where
  pub name : String
  pub owner_identity : String
  pub policy_json : String
  pub tier : String
  pub extensions : List Text
  pub description : String
  pub lineage : Bool

pub record Response : Type 0 where
  pub pond_id : String
  pub assigned_node_endpoint : String

abbrev is_done : Result ControlPlaneError (Unit {0}) → Bool
is_done (ok u) = true
is_done (err e) = false

-- `Status` is the error that it is made from.
unfoldable pub compensate :
    Database
    → (pond_id name owner : String) → Cause
    → Registry
    → Result ControlPlaneError Response × Registry
compensate db pond_id name owner cause r = (
  err (allocation_not_materialized name owner cause (is_done (drop_pond db pond_id r).0)),
  (drop_pond db pond_id r).1,
)

-- The empty texts of proto3, read as "not given".
unfoldable pub new_pond : Request → NewPond
new_pond req = record {
  name = if req.name == "" then none else some req.name;
  owner_identity = req.owner_identity;
  policy_json = req.policy_json;
  tier = if req.tier == "" then "medium" else req.tier;
  extensions = req.extensions;
  description = req.description;
  lineage = req.lineage;
}

module _ (to_lowercase : Text → Text) (materializer : Option Materializer)
    (meanwhile : Meanwhile) where
  -- The call of the node, and what follows it.
  unfoldable pub materialized :
      PondRow → (endpoint : String) → Registry → Result ControlPlaneError Response × Registry
  materialized pond endpoint r = elim materializer [
    | none ↦ (ok (record { pond_id = pond.pond_id; assigned_node_endpoint = endpoint }), r)
    | some m ↦
        let r' = run to_lowercase meanwhile.materializing r in
        elim (m endpoint pond.pond_id) [
          | ok done ↦
              (ok (record { pond_id = pond.pond_id; assigned_node_endpoint = endpoint }), r')
          | err cause ↦
              compensate meanwhile.undo pond.pond_id pond.name endpoint (node_said cause) r'
        ]
  ]

  unfoldable pub located_pond : PondRow → Registry → Result ControlPlaneError Response × Registry
  unfolding materialized
  located_pond pond r = elim (get_pond_location pond.pond_id r).0 [
    | err e ↦ compensate meanwhile.undo pond.pond_id pond.name pond.node_id unlocated r
    | ok (id, endpoint) ↦ materialized pond endpoint r
  ]

  -- What becomes of the registry's answer to `create_pond`.
  unfoldable pub answered :
      Result ControlPlaneError PondRow × Registry → Result ControlPlaneError Response × Registry
  unfolding located_pond
  answered (err e, r) = (err e, r)
  answered (ok pond, r) = located_pond pond (run to_lowercase meanwhile.placed r)

  unfoldable pub create_pond_assignment :
      Draw → Request → Registry → Result ControlPlaneError Response × Registry
  unfolding answered
  create_pond_assignment draw req r = answered (create_pond to_lowercase draw (new_pond req) r)
