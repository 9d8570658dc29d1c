-- ===== src/AgentCore/Ops.antt =====
-- crates/latiq-agent-core/src/ops.rs: a node that serves requests, with what it keeps and what it calls.
-- The control plane, the engine and the forwarder are records of operations, as the traits are. What
-- the surroundings answer to one request (the disk, the ids drawn, what fires the deadline, whether a
-- blocking task panics) is its `Env`. The access trail and the lineage have the newest entry first, without
-- times and trace ids; a poisoned lock and the buffering of events are left out.
pub mod Drop
pub mod Query
pub mod Ponds
pub mod Trail
pub mod Requests
mod Tests
use latiq.Prelude.{
  ℕ, String, Bool, true, false, ◌&&◌, not, List, [], ◌∷◌, Option, none, some, ◌==◌, string_eq,
  if◌then◌else◌, any, Result, ok, err,
}
use latiq.Prelude.Text.{Text, codes}
use latiq.Common.Identity.{Identity}
use latiq.Common.Tier.{PondTier, ResourceLimits, default_tier, parse, limits}
use latiq.Common.Timeout.{QueryTimeouts}
use latiq.Storage.LocalFs.{
  Disk, Mkdir, Rmdir, StorageError, PondLocation, ensure_pond, pond_location,
}
use latiq.AgentCore.Control.{
  PondInfo, AgentError, pond_unavailable, bad_pond_id, storage, ControlPlane,
}
use latiq.AgentCore.Placement.{Peer, RouteError, route}
use latiq.AgentCore.Placement as Placed
use latiq.AgentCore.InFlight.{InFlight}
use latiq.AgentCore.Deadline.{EngineError, Event}
use latiq.AgentCore.Control as Core

-- What is kept of a statement's meta; the engine fills the rest.
pub record QueryMeta : Type 0 where
  pub rows : ℕ
  pub timeout_ms : ℕ
  pub served_by : String

-- JSON values are texts.
pub record QueryResult : Type 0 where
  pub columns : List Text
  pub rows : List (List Text)
  pub meta : QueryMeta

-- `crate::access::record`.
pub record AccessRecord : Type 0 where
  pub identity : Identity
  pub op : String
  pub pond : Option String
  pub summary : Option Text
  pub succeeded : Bool

pub record LineageEvent : Type 0 where
  pub pond_id : String
  pub op : String
  pub succeeded : Bool
  pub meta : Option QueryMeta

-- `trait QueryEngine`; `schema` is what describe answers.
pub record Engine (En X D : Type 0) : Type 0 where
  pub init_pond : PondLocation → En → Result (EngineError X) (Unit {0}) × En
  pub query :
      (write : Bool) → PondLocation → (sql : Text) → En → Result (EngineError X) QueryResult × En
  pub plan_datasets : PondLocation → (sql : Text) → En → Option QueryMeta × En
  pub describe_schema : PondLocation → En → Result (EngineError X) D × En
  pub forget_pond : PondLocation → En → En

abbrev pub Answer : (X A : Type 0) → Type 0
Answer X A = Result (AgentError (EngineError X)) A

-- `trait Forwarder`: what the owner answers.
pub record Forwarder (X D : Type 0) : Type 0 where
  pub query :
      (write : Bool)
      → Peer
      → (pond_ref : String) → (sql : Text) → (timeout_ms : Option ℕ) → Answer X QueryResult
  pub describe : Peer → (pond_ref : String) → Answer X (PondInfo × D)
  pub materialize_pond : Peer → (pond_ref : String) → Answer X (Unit {0})
  pub drop_pond : Peer → (pond_ref : String) → (confirm : Bool) → Answer X (Unit {0})

-- `AgentConfig`, the storage's root, and the parser of UUIDs.
pub record Config : Type 0 where
  pub inline_row_cap : ℕ
  pub timeouts : QueryTimeouts
  pub root : Text
  pub parse_uuid : String → Option String
  pub to_lowercase : Text → Text

pub record Env : Type 0 where
  pub data_dir : Mkdir
  pub lineage_dir : Mkdir
  pub rmdir : Rmdir
  pub op_id : String
  pub token : ℕ
  pub events : List Event
  pub panicked : Bool

-- `AgentOps`. `raised` and `lowered` are the moves of the gauge of running queries, by pond.
pub record Node (S En : Type 0) : Type 0 where
  pub self : Placed.Node
  pub control : S
  pub engine : En
  pub disk : Disk
  pub inflight : InFlight
  pub writers : List String
  pub access : List AccessRecord
  pub lineage : List LineageEvent
  pub raised : List String
  pub lowered : List String

abbrev pub is_ok {ℓ κ} : {E : Type ℓ} {A : Type κ} → Result E A → Bool
is_ok (ok a) = true
is_ok (err e) = false

unfoldable pub tier_limits : (to_lowercase : Text → Text) → String → Option ResourceLimits
tier_limits lower tier = elim (parse lower (codes tier)) [
  | some t ↦ limits t
  | none ↦ limits default_tier
]

-- `loc.catalog_name = …` and the fields below it.
unfoldable pub for_pond : (to_lowercase : Text → Text) → PondInfo → PondLocation → PondLocation
unfolding tier_limits
for_pond lower info loc = record loc {
  catalog_name = codes info.name;
  limits = tier_limits lower info.tier;
  extensions = info.extensions;
  lineage = info.lineage;
}

unfoldable pub parsed_id : {X : Type 0} → Config → PondInfo → Answer X String
parsed_id cfg info = elim (cfg.parse_uuid info.pond_id) [
  | some pid ↦ ok pid
  | none ↦ err (bad_pond_id info.pond_id)
]

-- A request: its answer, and the node after it.
abbrev pub Act : (S En X A : Type 0) → Type 0
Act S En X A = Node S En → Answer X A × Node S En

abbrev pub entry :
    Identity
    → (op : String) → (pond : Option String) → (summary : Option Text) → (succeeded : Bool)
    → AccessRecord
entry identity op pond summary succeeded = record {
  identity = identity;
  op = op;
  pond = pond;
  summary = summary;
  succeeded = succeeded;
}

module _ {S En : Type 0} where
  unfoldable pub audit :
      Identity
      → (op : String) → (pond : Option String) → (summary : Option Text) → (succeeded : Bool)
      → Node S En
      → Node S En
  audit identity op pond summary succeeded n = record n {
    access = entry identity op pond summary succeeded ∷ n.access;
  }

module _ {S En X : Type 0} where
  -- `audit_err`, for an error that is returned.
  unfoldable pub audit_err :
      {A : Type 0}
      → Identity
      → (op : String) → (pond : Option String) → AgentError (EngineError X)
      → Act S En X A
  unfolding audit
  audit_err identity op pond e n = (err e, audit identity op pond none false n)

  module _ (cp : ControlPlane S (EngineError X)) where
    unfoldable pub looked :
        Identity
        → (op pond_ref : String) → Answer X PondInfo
        → Node S En
        → Answer X PondInfo × Node S En
    unfolding audit_err
    looked identity op pond_ref (ok info) n = (ok info, n)
    looked identity op pond_ref (err e) n = audit_err identity op (some pond_ref) e n

    unfoldable pub pond_info_audited : Identity → (op pond_ref : String) → Act S En X PondInfo
    unfolding looked
    pond_info_audited identity op pond_ref n =
        let found = cp.pond_info pond_ref n.control in
        looked identity op pond_ref found.0 (record n { control = found.1 })

    -- The beginning that all requests on a pond share: the lookup, the route, and the answer of the
    -- owner where the pond is another node's.
    unfoldable pub routed :
        {A : Type 0}
        → Identity
        → (op : String) → (Peer → Answer X A)
        → (PondInfo → Act S En X A)
        → PondInfo
        → Result RouteError (Option Peer)
        → Act S En X A
    unfolding audit_err
    routed identity op forward here info (ok none) n = here info n
    routed identity op forward here info (ok (some peer)) n = (forward peer, n)
    routed identity op forward here info (err e) n =
        audit_err identity op (some info.pond_id) (pond_unavailable info.name) n

    unfoldable pub proceed :
        {A : Type 0}
        → Identity
        → (op : String) → (Peer → Answer X A)
        → (PondInfo → Act S En X A)
        → Answer X PondInfo × Node S En
        → Answer X A × Node S En
    unfolding routed
    proceed identity op forward here (ok info, n) =
        routed identity op forward here info (route n.self info) n
    proceed identity op forward here (err e, n) = (err e, n)

    unfoldable pub dispatch :
        {A : Type 0}
        → Identity
        → (op pond_ref : String) → (Peer → Answer X A)
        → (PondInfo → Act S En X A)
        → Act S En X A
    unfolding pond_info_audited proceed
    dispatch identity op pond_ref forward here n =
        proceed identity op forward here (pond_info_audited identity op pond_ref n)

  -- A local half, with its outcome on the access trail.
  unfoldable pub audited :
      {A : Type 0}
      → Identity
      → (op : String) → (summary : Option Text) → (PondInfo → Act S En X A)
      → PondInfo
      → Act S En X A
  unfolding audit
  audited identity op summary here info n =
      let out = here info n in
      (out.0, audit identity op (some info.pond_id) summary (is_ok out.0) out.1)

  -- `ensure_pond` for a pond of the registry, and the location that the engine is given.
  unfoldable pub ensured :
      (to_lowercase : Text → Text)
      → PondInfo
      → Result StorageError PondLocation × Disk
      → Act S En X PondLocation
  unfolding for_pond
  ensured lower info (ok loc, disk) n = (ok (for_pond lower info loc), record n { disk = disk })
  ensured lower info (err e, disk) n = (err (storage e), record n { disk = disk })

  -- `parse_id` and `ensure_pond`, in which every local half begins.
  unfoldable pub materialize : Config → Env → PondInfo → Act S En X PondLocation
  unfolding ensured parsed_id
  materialize cfg env info n = elim (parsed_id cfg info) [
    | ok pid ↦
        ensured cfg.to_lowercase info
          (ensure_pond cfg.root pid info.lineage env.data_dir env.lineage_dir n.disk) n
    | err e ↦ (err e, n)
  ]
