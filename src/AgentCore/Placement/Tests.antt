-- ===== src/AgentCore/Placement/Tests.antt =====
-- Placements on small inputs.
use latiq.Prelude.{true, String, ◌≡◌, ◌≢◌, ◌↔◌, refl, some}
use latiq.Prelude.{[]}
use latiq.AgentCore.Control.{PondInfo}
use latiq.AgentCore.Placement.{Peer, placement, local}
use latiq.AgentCore.Placement.Laws.{
  member, placement-local_iff, placement-forward, placement-one_hop,
}

abbrev pub crm : PondInfo
crm = record {
  pond_id = "u1";
  name = "crm";
  owner = "me";
  created_at = 3;
  policy_json = "{}";
  node_id = some "n2";
  node_endpoint = some "i2";
  tier = "small";
  extensions = [];
  description = "";
  lineage = true;
}

abbrev owner : Peer
owner = record { node_id = "n2"; endpoint = "i2" }

placement-local_iff_example :
    (placement (member "n2" "i2") crm ≡ local)
    ↔ ((crm.node_id ≡ some "n2") × (◌≢◌ {A = String} "n2" ""))
placement-local_iff_example = placement-local_iff "n2" "i2" crm

placement-forward_example :
    (crm.node_id ≡ some "n2")
    × (crm.node_endpoint ≡ some "i2")
    × (◌≢◌ {A = String} "n2" "n1")
    × (◌≢◌ {A = String} "i2" "i1")
    × (◌≢◌ {A = String} "n2" "")
    × (◌≢◌ {A = String} "i2" "")
unfolding placement
placement-forward_example = placement-forward "n1" "i1" crm owner refl

placement-one_hop_example : placement (member "n2" "moved") crm ≡ local
unfolding placement
placement-one_hop_example = placement-one_hop "n1" "i1" "moved" crm owner refl
