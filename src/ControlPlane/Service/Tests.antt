-- ===== src/ControlPlane/Service/Tests.antt =====
-- Allocations on the registry with one node and one pond.
use latiq.Prelude.{
  ℕ, String, Bool, true, false, ◌≡◌, ◌⊎◌, refl, List, [], ◌∷◌, map, Option, none, some, any, Result,
  ok, err,
}
use latiq.Prelude.Text.{Text, codes, ascii_lower}
use latiq.ControlPlane.Registry.{
  NodeRecord, active, PondRecord, Registry, Cause, ControlPlaneError, node_said,
  allocation_not_materialized,
}
use latiq.ControlPlane.Registry.Ponds.{
  Draw, carries_out, fails, refers, create_pond, get_pond_location,
}
use latiq.ControlPlane.Registry.Invariant.{beats, register, run}
use latiq.ControlPlane.Service.{
  Materializer, Meanwhile, quiet, Request, Response, create_pond_assignment, new_pond,
}
use latiq.ControlPlane.Service.Laws.{may_remain, create_pond_assignment-IsGone}
use latiq.ControlPlane.Service.Rollback.{create_pond_assignment-restores}
use latiq.ControlPlane.Service.Answers.{create_pond_assignment-ok}

abbrev lower : Text → Text
lower = map ascii_lower

abbrev lab : Registry
lab = record {
  nodes =
      record {
        node_id = "n1";
        mcp_endpoint = "m1";
        internal_endpoint = "i1";
        capacity = 4;
        state = active;
        last_heartbeat = 7;
      }
      ∷ [];
  ponds = [];
  datasets = [];
  dataset_tables = [];
  dataset_tags = [];
  catalogs = [];
  catalog_tags = [];
  policy = [];
}

abbrev draw : Draw
draw = record { pond_id = "u2"; roll = 5; now = 9 }

abbrev sales : Request
sales = record {
  name = "sales";
  owner_identity = "me";
  policy_json = "{}";
  tier = "";
  extensions = [];
  description = "";
  lineage = true;
}

abbrev broken : Option Materializer
broken = some (λ endpoint id. err (codes "disk full"))

abbrev healthy : Materializer
healthy endpoint id = ok tt

abbrev busy : Meanwhile
busy = record {
  placed = register "n2" "m2" "i2" 4 8 ∷ [];
  materializing = beats "n1" 11 ∷ [];
  undo = carries_out;
}

abbrev placed : Registry
placed = run lower busy.placed (create_pond lower draw (new_pond sales) lab).1

abbrev disk_full : ControlPlaneError
disk_full = allocation_not_materialized "sales" "i1" (node_said (codes "disk full")) false

abbrev unwell : Meanwhile
unwell = record busy { undo = fails }

create_pond_assignment-IsGone_example :
    any (refers "u2") (create_pond_assignment lower broken unwell draw sales lab).1.ponds ≡ false
    ⊎ (unwell.undo ≡ fails) × (may_remain disk_full ≡ true)
unfolding any create_pond_assignment create_pond latiq.Common.Tier.parse_for_create
    latiq.Prelude.Text.is_empty latiq.Prelude.Text.trim new_pond latiq.Common.Tier.parse
    latiq.Prelude.Text.text_beq ascii_lower latiq.Common.PondName.validate latiq.Prelude.Text.len
    latiq.Prelude.find latiq.Common.PondName.is_name_char latiq.Prelude.Text.is_ascii_alphanumeric
    latiq.Prelude.keep get_pond_location run latiq.ControlPlane.Registry.Nodes.register_node
    latiq.ControlPlane.Registry.Nodes.heartbeat latiq.ControlPlane.Registry.update_where
    latiq.ControlPlane.Registry.delete_where latiq.ControlPlane.Registry.find_map
    latiq.ControlPlane.Registry.Ponds.drop_pond latiq.Common.Tier.as_str
    latiq.ControlPlane.Service.compensate latiq.ControlPlane.Registry.Invariant.step
create_pond_assignment-IsGone_example =
    create_pond_assignment-IsGone lower broken unwell draw sales lab refl disk_full refl

create_pond_assignment-restores_example :
    (create_pond_assignment lower broken quiet draw sales lab).1.ponds ≡ []
unfolding any create_pond_assignment create_pond latiq.Common.Tier.parse_for_create
    latiq.Prelude.Text.is_empty latiq.Prelude.Text.trim new_pond latiq.Common.Tier.parse
    latiq.Prelude.Text.text_beq ascii_lower latiq.Common.PondName.validate latiq.Prelude.Text.len
    latiq.Prelude.find latiq.Common.PondName.is_name_char latiq.Prelude.Text.is_ascii_alphanumeric
    latiq.Prelude.keep get_pond_location run latiq.ControlPlane.Registry.Nodes.register_node
    latiq.ControlPlane.Registry.Nodes.heartbeat latiq.ControlPlane.Registry.update_where
    latiq.ControlPlane.Registry.delete_where latiq.ControlPlane.Registry.find_map
    latiq.ControlPlane.Registry.Ponds.drop_pond latiq.Common.Tier.as_str
    latiq.ControlPlane.Service.compensate latiq.ControlPlane.Registry.Invariant.step
create_pond_assignment-restores_example =
    create_pond_assignment-restores lower broken draw sales lab refl
      (allocation_not_materialized "sales" "i1" (node_said (codes "disk full")) true) refl

create_pond_assignment-ok_example :
    (id : String) × ((get_pond_location "u2" placed).0 ≡ ok (id, "i1"))
    × (◌≡◌ {A = String} "u2" "u2")
    × (healthy "i1" "u2" ≡ ok tt)
unfolding any create_pond_assignment create_pond latiq.Common.Tier.parse_for_create
    latiq.Prelude.Text.is_empty latiq.Prelude.Text.trim new_pond latiq.Common.Tier.parse
    latiq.Prelude.Text.text_beq ascii_lower latiq.Common.PondName.validate latiq.Prelude.Text.len
    latiq.Prelude.find latiq.Common.PondName.is_name_char latiq.Prelude.Text.is_ascii_alphanumeric
    latiq.Prelude.keep get_pond_location run latiq.ControlPlane.Registry.Nodes.register_node
    latiq.ControlPlane.Registry.Nodes.heartbeat latiq.ControlPlane.Registry.update_where
    latiq.ControlPlane.Registry.delete_where latiq.ControlPlane.Registry.find_map
    latiq.ControlPlane.Registry.Ponds.drop_pond latiq.Common.Tier.as_str
    latiq.ControlPlane.Service.compensate latiq.ControlPlane.Registry.Invariant.step
create_pond_assignment-ok_example =
    create_pond_assignment-ok lower (some healthy) busy draw sales lab
      (record { pond_id = "u2"; assigned_node_endpoint = "i1" }) healthy refl refl
