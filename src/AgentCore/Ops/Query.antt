-- ===== src/AgentCore/Ops/Query.antt =====
-- ops.rs: `run_query`, behind `read_query` and `write_query`, and the lineage that it emits. The
-- deadline is armed on the operation's token and lives through the engine's call.
pub mod Laws
use latiq.Prelude.{
  ℕ, String, Bool, true, false, ◌&&◌, not, List, [], ◌∷◌, Option, none, some, ◌==◌, string_eq, ltb,
  length, if◌then◌else◌, any, Result, ok, err,
}
use latiq.Prelude.Text.{Text}
use latiq.Common.Identity.{Identity}
use latiq.Storage.LocalFs.{pond_location, PondLocation, StorageError}
use latiq.AgentCore.Control.{
  PondInfo, AgentError, query_timeout, engine, joined, result_cap_exceeded, ControlPlane,
}
use latiq.AgentCore.Placement.{Peer}
use latiq.AgentCore.InFlight.{InFlight, register, complete, is_cancelled}
use latiq.AgentCore.Deadline.{EngineError, Deadline, QueryControls, arm, run, classify}
use latiq.AgentCore.Deadline as Deadlines
use latiq.AgentCore.Redact.{redact_sql}
use latiq.AgentCore.Ops.{
  QueryMeta, QueryResult, LineageEvent, Config, Env, Node, Engine, Forwarder, Answer, Act, audit,
  dispatch, materialize, is_ok,
}

abbrev pub in_process_node : String
in_process_node = "in-process"

abbrev pub or_in_process : Option String → String
or_in_process none = in_process_node
or_in_process (some endpoint) = endpoint

abbrev pub of_deadline : {X : Type 0} → Deadlines.AgentError X → AgentError (EngineError X)
of_deadline (Deadlines.query_timeout e m) = query_timeout e m
of_deadline (Deadlines.from_engine e) = engine e

abbrev pub op_name : Bool → String
op_name true = "write_query"
op_name false = "read_query"

-- `lineage_writer`: the pond's, made on first use where the pond has a location. The node's writers
-- with it among them.
unfoldable pub with_writer :
    (pond_id : String) → List String → Result StorageError PondLocation → Option (List String)
with_writer pond_id writers (ok loc) = some (pond_id ∷ writers)
with_writer pond_id writers (err e) = none

module _ {S En : Type 0} where
  unfoldable pub raise : String → Node S En → Node S En
  raise name n = record n { raised = name ∷ n.raised }

  unfoldable pub lower : String → Node S En → Node S En
  lower name n = record n { lowered = name ∷ n.lowered }

  -- `serving_name`.
  abbrev pub serving_name : Node S En → String
  serving_name n = or_in_process n.self.self_endpoint

  unfoldable pub lineage_writer : Config → PondInfo → Node S En → Option (List String)
  unfolding with_writer
  lineage_writer cfg info n =
      if any (λ w. w == info.pond_id) n.writers
      then some n.writers
      else elim (cfg.parse_uuid info.pond_id) [
        | none ↦ none
        | some pid ↦ with_writer info.pond_id n.writers (pond_location cfg.root pid n.disk)
      ]

  unfoldable pub written : LineageEvent → Option (List String) → Node S En → Node S En
  written event none n = n
  written event (some writers) n = record n { writers = writers; lineage = event ∷ n.lineage }

  unfoldable pub emit_lineage : Config → PondInfo → LineageEvent → Node S En → Node S En
  unfolding lineage_writer written
  emit_lineage cfg info event n =
      if info.lineage then written event (lineage_writer cfg info n) n else n

-- The engine's answer, judged: through the deadline, and against the cap on what a read returns.
module _ {X : Type 0} where
  unfoldable pub judge :
      (write : Bool)
      → (cap : ℕ) → (served_by : String) → Deadline
      → Result (EngineError X) QueryResult
      → Answer X QueryResult
  judge write cap served_by deadline (err e) = err (of_deadline (classify deadline e))
  judge write cap served_by deadline (ok qr) =
      if not write && ltb cap (length qr.rows)
      then err (result_cap_exceeded (length qr.rows) cap)
      else ok (record qr {
        meta = record qr.meta { served_by = served_by; timeout_ms = deadline.effective_ms };
      })

  -- What the plan says, of a write that failed.
  abbrev pub is_planned : Bool → Result (EngineError X) QueryResult → Bool
  is_planned write res = write && not (is_ok res)

  abbrev pub meta_of : Answer X QueryResult → Option QueryMeta → Option QueryMeta
  meta_of (ok qr) planned = some qr.meta
  meta_of (err e) planned = planned

module _ {En X D : Type 0} (eng : Engine En X D) where
  -- The blocking task: the query, and the plan of a write that failed.
  unfoldable pub blocking :
      (write : Bool)
      → PondLocation
      → (sql : Text) → En
      → (Result (EngineError X) QueryResult × Option QueryMeta) × En
  blocking write loc sql e =
      let out = eng.query write loc sql e in
      if is_planned write out.0
      then (let plan = eng.plan_datasets loc sql out.1 in ((out.0, plan.0), plan.1))
      else ((out.0, none), out.1)

module _ {X : Type 0} (cfg : Config) (env : Env) where
  -- A task that panicked has no plan either.
  unfoldable pub concluded :
      (write : Bool)
      → (served_by : String) → Deadline
      → Result (EngineError X) QueryResult × Option QueryMeta
      → Answer X QueryResult × Option QueryMeta
  unfolding judge
  concluded write served_by deadline (res, planned) =
      if env.panicked
      then (err joined, none)
      else (judge write cfg.inline_row_cap served_by deadline res, planned)

module _ {S En X D : Type 0} (cfg : Config) (env : Env) (eng : Engine En X D) where
  -- From the registration on.
  unfoldable pub execute :
      (write : Bool)
      → PondInfo
      → (sql : Text) → QueryControls
      → PondLocation
      → Node S En
      → (Answer X QueryResult × Option QueryMeta) × Node S En
  unfolding blocking concluded lower
  execute write info sql controls loc n =
      let entered = register env.op_id env.token (some info.pond_id) n.inflight in
      let deadline = run env.events (arm (is_cancelled entered env.token) cfg.timeouts controls) in
      let out = blocking eng write loc sql n.engine in
      (
        concluded cfg env write (serving_name n) deadline out.0,
        lower info.name (record n { engine = out.1; inflight = complete env.op_id entered }),
      )

  -- On what `parse_id` and `ensure_pond` answer.
  unfoldable pub on_ready :
      (write : Bool)
      → (sql : Text) → QueryControls
      → PondInfo
      → Answer X PondLocation × Node S En
      → (Answer X QueryResult × Option QueryMeta) × Node S En
  unfolding execute
  on_ready write sql controls info (ok loc, n) = execute write info sql controls loc n
  on_ready write sql controls info (err e, n) = ((err e, none), n)

  unfoldable pub run_query_local :
      (write : Bool)
      → (sql : Text) → QueryControls
      → PondInfo
      → Node S En
      → (Answer X QueryResult × Option QueryMeta) × Node S En
  unfolding raise on_ready
  run_query_local write sql controls info n =
      on_ready write sql controls info (materialize cfg env info (raise info.name n))

  -- The node where the handler's future is dropped at its await (a caller that hangs up): the deadline's
  -- guard fires the token, the engine's call goes on by itself, and what stands after the await is not run.
  unfoldable pub hung_up :
      (write : Bool) → (sql : Text) → PondInfo → Answer X PondLocation × Node S En → Node S En
  unfolding blocking
  hung_up write sql info (err e, n) = n
  hung_up write sql info (ok loc, n) =
      let entered = register env.op_id env.token (some info.pond_id) n.inflight in
      record n {
        engine = (blocking eng write loc sql n.engine).1;
        inflight = record entered { cancelled = env.token ∷ entered.cancelled };
      }

  unfoldable pub abandon_query_local :
      (write : Bool) → (sql : Text) → PondInfo → Node S En → Node S En
  unfolding hung_up raise
  abandon_query_local write sql info n =
      hung_up write sql info (materialize cfg env info (raise info.name n))

  -- The local half with its access record and its lineage, in that order.
  unfoldable pub recorded :
      (write : Bool) → (sql : Text) → QueryControls → Identity → PondInfo → Act S En X QueryResult
  unfolding run_query_local emit_lineage audit
  recorded write sql controls identity info n =
      let out = run_query_local write sql controls info n in
      let seen =
        audit identity (op_name write) (some info.pond_id) (some (redact_sql sql)) (is_ok out.0.0)
          out.1 in
      (
        out.0.0,
        emit_lineage cfg info
            (record {
              pond_id = info.pond_id;
              op = op_name write;
              succeeded = is_ok out.0.0;
              meta = meta_of out.0.0 out.0.1;
            })
            seen,
      )

  unfoldable pub run_query :
      ControlPlane S (EngineError X)
      → Forwarder X D
      → (pond_ref : String) → (sql : Text) → Identity
      → (write : Bool) → QueryControls
      → Act S En X QueryResult
  unfolding recorded dispatch
  run_query cp fwd pond_ref sql identity write controls =
      dispatch cp identity (op_name write) pond_ref
        (λ peer. fwd.query write peer pond_ref sql controls.timeout_ms)
        (recorded write sql controls identity)
