-- ===== src/AgentCore/Ops/Tests.antt =====
-- A node alone, over a registry in its own process, with an engine that answers one row.
use latiq.Prelude.{
  ℕ, String, Bool, true, false, ◌≡◌, ◌≤◌, ◌⊎◌, refl, List, [], ◌∷◌, Option, none, some, length, ok,
  err, Result,
}
use latiq.Prelude.Text.{Text, codes}
use latiq.Common.Identity.{Identity}
use latiq.Common.Timeout.{default_timeouts, effective}
use latiq.ControlPlane.Registry.{Registry}
use latiq.ControlPlane.Registry.Ponds.{carries_out}
use latiq.ControlPlane.Registry.Tests.{lab, draw, lower}
use latiq.Storage.LocalFs.{made, parents_made, removed, PondLocation}
use latiq.Storage.LocalFs.Tests.{disk}
use latiq.AgentCore.Control.{PondInfo, ControlPlane, pond_unavailable, missing_confirm}
use latiq.AgentCore.RegistryControl.{registry_control}
use latiq.AgentCore.RegistryControl.Laws.{IsAtomic, registry_control-IsAtomic}
use latiq.AgentCore.Placement.{unclustered}
use latiq.AgentCore.InFlight as InFlight
use latiq.AgentCore.Deadline.{EngineError, QueryControls, cancelled}
use latiq.AgentCore.Ops.{Config, Env, Node, Engine, Forwarder, QueryResult, Answer, materialize}
use latiq.AgentCore.Ops.Drop.{drop_pond}
use latiq.AgentCore.Ops.Drop.Laws.{IsDropped, drop_pond-ok}
use latiq.AgentCore.Ops.Drop.Failure.{Asked, IsKept, drop_pond-err}
use latiq.AgentCore.Ops.Query.{op_name, raise, run_query, run_query_local, abandon_query_local}
use latiq.AgentCore.Ops.Query.Laws.{IsCounted, run_query_local-ok, run_query_local-IsCounted}
use latiq.AgentCore.Ops.Ponds.{describe_pond, materialize_pond}
use latiq.AgentCore.Ops.Trail.{IsForwarded, IsRecorded}
use latiq.AgentCore.Ops.Requests.{requests-access}

abbrev cfg : Config
cfg = record {
  inline_row_cap = 10;
  timeouts = default_timeouts;
  root = codes "/p";
  parse_uuid = some;
  to_lowercase = lower;
}

abbrev env : Env
env = record {
  data_dir = made;
  lineage_dir = made;
  rmdir = removed;
  op_id = "op1";
  token = 7;
  events = [];
  panicked = false;
}

abbrev one_row : QueryResult
one_row = record {
  columns = codes "a" ∷ [];
  rows = (codes "1" ∷ []) ∷ [];
  meta = record { rows = 1; timeout_ms = 0; served_by = "" };
}

abbrev eng : Engine (Unit {0}) (Unit {0}) (Unit {0})
eng = record {
  init_pond = λ loc e. (ok tt, e);
  query = λ write loc sql e. (ok one_row, e);
  plan_datasets = λ loc sql e. (none, e);
  describe_schema = λ loc e. (ok tt, e);
  forget_pond = λ loc e. e;
}

abbrev nobody : {A : Type 0} → Answer (Unit {0}) A
nobody = err (pond_unavailable "")

abbrev fwd : Forwarder (Unit {0}) (Unit {0})
fwd = record {
  query = λ write peer ref sql ms. nobody;
  describe = λ peer ref. nobody;
  materialize_pond = λ peer ref. nobody;
  drop_pond = λ peer ref confirm. nobody;
}

abbrev node : Node Registry (Unit {0})
node = record {
  self = unclustered;
  control = lab;
  engine = tt;
  disk = disk;
  inflight = InFlight.new;
  writers = "u1" ∷ [];
  access = [];
  lineage = [];
  raised = [];
  lowered = [];
}

abbrev me : Identity
me = record { agent_id = codes "a"; subject = []; issuer = []; verified = false }

abbrev cp : ControlPlane Registry (EngineError (Unit {0}))
cp = registry_control lower draw carries_out

abbrev controls : QueryControls
controls = record { timeout_ms = some 5; has_cancel = false }

registry_control-IsAtomic_example :
    IsAtomic (registry_control lower {E = Unit {0}} draw carries_out)
registry_control-IsAtomic_example = registry_control-IsAtomic lower draw carries_out

requests-access_example :
    (IsForwarded cp "crm"
        (λ p. fwd.query false p "crm" (codes "SELECT 1") controls.timeout_ms)
        node
        (run_query cfg env eng cp fwd "crm" (codes "SELECT 1") me false controls node)
      ⊎ IsRecorded me
          (op_name false)
          node
          (run_query cfg env eng cp fwd "crm" (codes "SELECT 1") me false controls node))
    × (IsForwarded cp "crm"
          (λ p. fwd.drop_pond p "crm" true)
          node
          (drop_pond eng cfg env cp fwd me "crm" true node)
        ⊎ IsRecorded me "drop_pond" node (drop_pond eng cfg env cp fwd me "crm" true node))
    × (IsForwarded cp "crm"
          (λ p. fwd.describe p "crm")
          node
          (describe_pond cfg env eng cp fwd me "crm" node)
        ⊎ IsRecorded me "describe_pond" node (describe_pond cfg env eng cp fwd me "crm" node))
    × (IsForwarded cp "crm"
          (λ p. fwd.materialize_pond p "crm")
          node
          (materialize_pond cfg env eng cp fwd me "crm" node)
        ⊎ IsRecorded me "materialize_pond" node (materialize_pond cfg env eng cp fwd me "crm" node))
requests-access_example =
    requests-access cfg env eng cp fwd me "crm" (codes "SELECT 1") false controls node

abbrev crm_info : PondInfo
crm_info = record {
  pond_id = "u1";
  name = "crm";
  owner = "me";
  created_at = 3;
  policy_json = "{}";
  node_id = some "n1";
  node_endpoint = some "i1";
  tier = "small";
  extensions = codes "json" ∷ codes "spatial" ∷ [];
  description = "";
  lineage = false;
}

drop_pond-ok_example :
    IsDropped eng cfg env cp me crm_info lab node
      (drop_pond eng cfg env cp fwd me "crm" true node).1
unfolding registry_control latiq.ControlPlane.Registry.Ponds.pond_info latiq.Prelude.find
    latiq.Common.Extensions.parse_csv latiq.Prelude.keep latiq.Prelude.Text.split
    latiq.Prelude.Text.is_empty latiq.Prelude.Text.trim latiq.AgentCore.Placement.route drop_pond
    latiq.AgentCore.Ops.parsed_id latiq.ControlPlane.Registry.Ponds.drop_pond latiq.Prelude.any
drop_pond-ok_example =
    drop_pond-ok eng cfg env cp fwd me "crm" crm_info node
      (drop_pond eng cfg env cp fwd me "crm" true node).1 refl refl refl refl

drop_pond-err_example :
    IsKept eng cfg env
      (Asked eng cfg env cp "crm" lab)
      node
      (drop_pond eng cfg env cp fwd me "crm" false node).1
unfolding drop_pond
drop_pond-err_example =
    drop_pond-err eng cfg env cp fwd me "crm" false (missing_confirm "crm") node
      (drop_pond eng cfg env cp fwd me "crm" false node).1 refl

answer : QueryResult
answer = record one_row { meta = record { rows = 1; timeout_ms = 5; served_by = "in-process" } }

run_query_local-ok_example :
    (answer.meta.served_by ≡ "in-process")
    × (answer.meta.timeout_ms ≡ effective default_timeouts (some 5))
    × (◌≡◌ {A = Bool} false true ⊎ length answer.rows ≤ 10)
unfolding run_query_local materialize latiq.Storage.LocalFs.ensure_pond latiq.Prelude.any answer
    latiq.AgentCore.Deadline.run latiq.AgentCore.Deadline.arm effective
run_query_local-ok_example =
    run_query_local-ok cfg env eng false (codes "SELECT 1") controls crm_info node answer refl

full : Env
full = record env { data_dir = parents_made (codes "disk full") }

run_query_local-IsCounted_example :
    IsCounted full
      (record crm_info { pond_id = "u2" })
      node
      (materialize {X = Unit {0}} cfg full
        (record crm_info { pond_id = "u2" })
        (raise "crm" node)).0
      (run_query_local cfg full eng true
        (codes "x")
        controls
        (record crm_info { pond_id = "u2" })
        node)
      (abandon_query_local cfg full eng true (codes "x") (record crm_info { pond_id = "u2" }) node)
run_query_local-IsCounted_example =
    run_query_local-IsCounted cfg full eng true (codes "x") controls
      (record crm_info { pond_id = "u2" }) node
