-- ===== src/ControlPlane/Registry/Tests.antt =====
-- The registry on small inputs: one node and one pond.
use mathlib.Core.List.{Memᴰ}
use latiq.Prelude.{
  ℕ, String, Bool, true, false, ◌≡◌, ◌≢◌, ◌≤◌, refl, inl, inr, ◌⊎◌, ◌+◌, eq_iff, List, [], ◌∷◌, map,
  Option, none, some, All, any, ok, err, find, arith,
}
use latiq.Prelude.Text.{Text, codes, ascii_lower}
use latiq.Common.Tier.{uncapped, small, parse_for_create}
use latiq.Common.PondName
use latiq.ControlPlane.Registry.{NodeRecord, active, PondRecord, Registry}
use latiq.ControlPlane.Registry.Nodes.{reap_stale_nodes}
use latiq.ControlPlane.Registry.Nodes.Laws.{IsFresh}
use latiq.ControlPlane.Registry.Ponds.{
  Draw, NewPond, PondRow, carries_out, create_pond, drop_pond, forget_pond, pond_info, has_id,
  named, is_served,
}
use latiq.ControlPlane.Registry.Ponds.Total.{create_pond-total}
use latiq.ControlPlane.Registry.Ponds.Laws.{IsRefused, IsCreated, create_pond_lem}
use latiq.ControlPlane.Registry.Invariant.{Inv, register, create, drop, reap, run, run-Inv}
use latiq.ControlPlane.Registry.Lifecycle.{
  drop_pond_takes_namesake, forget_pond-keeps_served, create_pond-IsFresh, pond_info-create_pond,
}

abbrev pub lower : Text → Text
lower = map ascii_lower

abbrev empty : Registry
empty = record {
  nodes = [];
  ponds = [];
  datasets = [];
  dataset_tables = [];
  dataset_tags = [];
  catalogs = [];
  catalog_tags = [];
  policy = [];
}

abbrev n1 : NodeRecord
n1 = record {
  node_id = "n1";
  mcp_endpoint = "m1";
  internal_endpoint = "i1";
  capacity = 4;
  state = active;
  last_heartbeat = 7;
}

abbrev crm : PondRecord
crm = record {
  pond_id = "u1";
  name = "crm";
  owner_identity = "me";
  node_id = "n1";
  policy_json = "{}";
  created_at = 3;
  tier = "small";
  extensions = codes "json,spatial";
  description = "";
  lineage = false;
}

abbrev pub lab : Registry
lab = record empty { nodes = n1 ∷ []; ponds = crm ∷ [] }

lab-Inv : Inv lab
unfolding any latiq.Common.Tier.as_str
lab-Inv = record {
  node_ids = (tt, tt);
  pond_ids = (tt, tt);
  names = (tt, tt);
  hosted = (refl, tt);
  tiers = ((small, refl), tt);
  labels = (tt, tt, tt, tt, tt);
}

abbrev pub draw : Draw
draw = record { pond_id = "u2"; roll = 5; now = 9 }

abbrev sales : NewPond
sales = record {
  name = some "sales";
  owner_identity = "me";
  policy_json = "{}";
  tier = "Small";
  extensions = codes "json" ∷ [];
  description = "";
  lineage = true;
}

-- A pond that is called by the other pond's id.
abbrev namesake : NewPond
namesake = record sales { name = some "u1" }

abbrev sales_row : PondRow
sales_row = record {
  pond_id = "u2";
  name = "sales";
  owner_identity = "me";
  node_id = "n1";
  tier = "small";
  extensions = codes "json" ∷ [];
  description = "";
  lineage = true;
}

run-Inv_example : Inv (
    run lower
      (register "n2" "m2" "i2" 4 8 ∷ create draw sales ∷ reap 30 99 ∷ drop carries_out "crm" ∷ [])
      lab)
run-Inv_example =
    run-Inv lower
      (register "n2" "m2" "i2" 4 8 ∷ create draw sales ∷ reap 30 99 ∷ drop carries_out "crm" ∷ [])
      lab lab-Inv

sales_created :
    create_pond lower draw sales lab ≡ (ok sales_row, (create_pond lower draw sales lab).1)
unfolding create_pond parse_for_create latiq.Prelude.Text.is_empty latiq.Prelude.Text.trim
    latiq.Common.Tier.parse latiq.Prelude.Text.text_beq ascii_lower PondName.validate
    latiq.Prelude.Text.len find PondName.is_name_char latiq.Prelude.Text.is_ascii_alphanumeric
    latiq.Prelude.keep any latiq.Common.Tier.as_str
sales_created = refl

create_pond_lem_example :
    IsRefused lab (create_pond lower draw sales lab)
    ⊎ IsCreated lower draw sales lab (create_pond lower draw sales lab)
create_pond_lem_example = create_pond_lem lower draw sales lab

create_pond-total_example :
    (row : PondRow) × (s : Registry) × (create_pond lower draw sales lab ≡ (ok row, s))
unfolding parse_for_create PondName.validate any latiq.Prelude.Text.is_empty latiq.Prelude.Text.trim
    latiq.Common.Tier.parse latiq.Prelude.Text.text_beq ascii_lower latiq.Prelude.Text.len find
    PondName.is_name_char latiq.Prelude.Text.is_ascii_alphanumeric
create_pond-total_example =
    create_pond-total lower draw sales small lab refl (λ e. cc) refl refl refl refl

forget_pond-keeps_served_example : Memᴰ crm (forget_pond "crm" lab).1.ponds
unfolding is_served find
forget_pond-keeps_served_example =
    forget_pond-keeps_served "crm" crm lab lab-Inv (Memᴰ.head refl) refl

create_pond-IsFresh_example :
    (n : NodeRecord) × Memᴰ n (reap_stale_nodes 30 9 lab).1.nodes
    × ("n1" ≡ n.node_id)
    × IsFresh 30 9 n
unfolding create_pond reap_stale_nodes parse_for_create latiq.Prelude.Text.is_empty
    latiq.Prelude.Text.trim latiq.Common.Tier.parse latiq.Prelude.Text.text_beq ascii_lower
    PondName.validate latiq.Prelude.Text.len find PondName.is_name_char
    latiq.Prelude.Text.is_ascii_alphanumeric latiq.Prelude.keep
    latiq.ControlPlane.Registry.update_where any latiq.Common.Tier.as_str
create_pond-IsFresh_example =
    create_pond-IsFresh lower draw sales 30 9 lab
      (create_pond lower draw sales (reap_stale_nodes 30 9 lab).1).1 sales_row refl

pond_info-create_pond_example :
    (endpoint : Option String) × ((pond_info "u2" (create_pond lower draw sales lab).1).0
      ≡ ok (sales_row, 9, "{}", endpoint))
unfolding any latiq.Prelude.Text.trim
pond_info-create_pond_example =
    pond_info-create_pond lower draw sales lab (create_pond lower draw sales lab).1 sales_row refl
      ((refl, (λ e. cc), omega arith), tt) sales_created

drop_pond_takes_namesake_example :
    (s : Registry) × (drop_pond carries_out "u1" (create_pond lower draw namesake lab).1
      ≡ (ok tt, s))
    × (any (has_id "u1") (create_pond lower draw namesake lab).1.ponds ≡ true)
    × (any (named "u1") (create_pond lower draw namesake lab).1.ponds ≡ true)
    × (◌≢◌ {A = String} "u2" "u1")
    × (any (has_id "u1") s.ponds ≡ false)
    × (any (named "u1") s.ponds ≡ false)
unfolding create_pond parse_for_create latiq.Prelude.Text.is_empty latiq.Prelude.Text.trim
    latiq.Common.Tier.parse latiq.Prelude.Text.text_beq ascii_lower PondName.validate
    latiq.Prelude.Text.len find PondName.is_name_char latiq.Prelude.Text.is_ascii_alphanumeric
    latiq.Prelude.keep any latiq.Common.Tier.as_str
drop_pond_takes_namesake_example =
    drop_pond_takes_namesake lower draw namesake crm (record sales_row { name = "u1" }) lab
      (create_pond lower draw namesake lab).1 (Memᴰ.head refl) refl refl
