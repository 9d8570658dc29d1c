-- ===== src/AgentCore/Ops/Query/Laws.antt =====
-- What a query leaves on the node that runs it, and what its answer says.
use latiq.Prelude.{
  ℕ, String, Bool, true, false, not, ◌&&◌, ◌≡◌, ◌≤◌, refl, sym, ap, ◌∙◌, inl, inr, ◌⊎◌, List, [],
  ◌∷◌, Option, some, arith, eq_iff, string_eq, ltb, length, any, keep, Result, ok, err, Bool-cases,
  result_cases, ok_injective,
}
use mathlib.Core.Path.{subst}
use latiq.Prelude.Text.{Text}
use latiq.Common.Timeout.{effective}
use latiq.Storage.LocalFs.{Disk, PondLocation, StorageError, ensure_pond}
use latiq.AgentCore.Control.{PondInfo}
use latiq.AgentCore.InFlight.{
  InFlight, Entry, register, enter, insert, complete, remove, is_cancelled, has_op,
}
use latiq.AgentCore.Deadline.{
  EngineError, Deadline, Event, timer, caller_cancels, cancelled_elsewhere, drops, QueryControls,
  arm, run, step,
}
use latiq.AgentCore.Ops.{
  QueryMeta, QueryResult, Config, Env, Node, Engine, Answer, materialize, ensured, parsed_id,
}
use latiq.AgentCore.Ops.Query.{
  serving_name, raise, lower, judge, blocking, concluded, execute, on_ready, hung_up,
  run_query_local, abandon_query_local,
}

step-effective_ms : (x : Event) (d : Deadline) → (step x d).effective_ms ≡ d.effective_ms
unfolding step
step-effective_ms timer d = ground arith
step-effective_ms caller_cancels d = ground arith
step-effective_ms cancelled_elsewhere d = refl
step-effective_ms drops d = refl

run-effective_ms : (xs : List Event) (d : Deadline) → (run xs d).effective_ms ≡ d.effective_ms
unfolding run
run-effective_ms [] d = refl
run-effective_ms (x ∷ xs) d = run-effective_ms xs (step x d) ∙ step-effective_ms x d

any-keep_other :
    (op : String) (es : List Entry) → any (has_op op) (keep (λ e. not (has_op op e)) es) ≡ false
unfolding any keep
any-keep_other op [] = refl
any-keep_other op (e ∷ es) = ground (arith, any-keep_other op es)

complete-has_op : (op : String) (s : InFlight) → any (has_op op) (complete op s).map ≡ false
unfolding complete remove
complete-has_op op s = any-keep_other op s.map

abbrev answered : (served_by : String) → Deadline → QueryResult → QueryResult
answered served_by d r = record r {
  meta = record r.meta { served_by = served_by; timeout_ms = d.effective_ms };
}

within : (write : Bool) (most k : ℕ) → (not write && ltb most k) ≡ false → write ≡ true ⊎ k ≤ most
within true most k h = inl refl
within false most k h = inr (ground (arith, h))

module _ {X : Type 0} where
  -- What an answer's meta says, and how long the rows of a read can be.
  judge-ok :
      (write : Bool) (cap : ℕ) (served_by : String) (d : Deadline)
      (res : Result (EngineError X) QueryResult) (qr : QueryResult)
      → judge write cap served_by d res ≡ ok qr
      → (qr.meta.served_by ≡ served_by)
        × (qr.meta.timeout_ms ≡ d.effective_ms)
        × (write ≡ true ⊎ length qr.rows ≤ cap)
  unfolding judge
  judge-ok write cap served_by d (err e) qr h = absurd (cc h)
  judge-ok write cap served_by d (ok r) qr h =
      elim (Bool-cases (not write && ltb cap (length r.rows))) [
        | inl e ↦ absurd (cc (rw (e, judge) at h))
        | inr e ↦
            let same : answered served_by d r ≡ qr = ok_injective (rw (e, judge) at h) in
            subst
              (λ q.
                (q.meta.served_by ≡ served_by)
                × (q.meta.timeout_ms ≡ d.effective_ms)
                × (write ≡ true ⊎ length q.rows ≤ cap))
              same (refl, refl, within write cap (length r.rows) e)
      ]

concluded-ok :
    {X : Type 0} (cfg : Config) (env : Env) (write : Bool) (served_by : String) (d : Deadline)
    (x : Result (EngineError X) QueryResult × Option QueryMeta) (qr : QueryResult)
    → (concluded cfg env write served_by d x).0 ≡ ok qr
    → judge write cfg.inline_row_cap served_by d x.0 ≡ ok qr
unfolding concluded
concluded-ok cfg env write served_by d (res, planned) qr h = elim (Bool-cases env.panicked) [
  | inl e ↦ absurd (cc (rw (e, concluded) at h))
  | inr e ↦ rw (e, concluded) at h
]

module _ {S En : Type 0} (X : Type 0) where
  ensured_frame :
      (low : Text → Text) (info : PondInfo) (r : Result StorageError PondLocation × Disk)
      (n : Node S En)
      → (ensured {X = X} low info r n).1 ≡ record n { disk = r.1 }
  unfolding ensured
  ensured_frame low info (ok loc, disk) n = refl
  ensured_frame low info (err e, disk) n = refl

  -- Of the node, only the disk changes.
  materialize_frame :
      (cfg : Config) (env : Env) (info : PondInfo) (n : Node S En)
      → (disk : Disk) × (a : Answer X PondLocation) × (materialize {X = X} cfg env info n
          ≡ (a, record n { disk = disk }))
  unfolding materialize
  materialize_frame cfg env info n = elim (result_cases (parsed_id {X = X} cfg info)) [
    | inl (pid, q) ↦
        let r = ensure_pond cfg.root pid info.lineage env.data_dir env.lineage_dir n.disk in
        (
          r.1,
          (ensured {X = X} cfg.to_lowercase info r n).0,
          rw (q, materialize)
              (ap (λ m. ((ensured {X = X} cfg.to_lowercase info r n).0, m))
                (ensured_frame cfg.to_lowercase info r n)),
        )
    | inr (e, q) ↦ (n.disk, err e, rw (q, materialize) refl)
  ]

-- How a query on the node that serves the pond moves the gauge of running queries, and what it leaves in flight:
-- where its handler runs to its end (`out`), and where it is dropped while the engine works (`left`).
abbrev pub IsCounted :
    {S En X : Type 0}
    → Env
    → PondInfo
    → Node S En
    → Answer X PondLocation
    → (Answer X QueryResult × Option QueryMeta) × Node S En
    → Node S En
    → Type 0
IsCounted {X = X} env info n (ok loc) out left =
    (out.1.raised ≡ info.name ∷ n.raised)
    × (out.1.lowered ≡ info.name ∷ n.lowered)
    × (any (has_op env.op_id) out.1.inflight.map ≡ false)
    × (left.raised ≡ info.name ∷ n.raised)
    × (left.lowered ≡ n.lowered)
    × (any (has_op env.op_id) left.inflight.map ≡ true)
    × (is_cancelled left.inflight env.token ≡ true)
IsCounted {X = X} env info n (err e) out left =
    (out.0.0 ≡ err e)
    × (out.1.raised ≡ info.name ∷ n.raised)
    × (out.1.lowered ≡ n.lowered)
    × (left ≡ out.1)

module _ {S En X D : Type 0} (cfg : Config) (env : Env) (eng : Engine En X D) where
  on_ready-ok :
      (write : Bool) (sql : Text) (controls : QueryControls) (info : PondInfo) (n : Node S En)
      (a : Answer X PondLocation) (qr : QueryResult)
      → (on_ready cfg env eng write sql controls info (a, n)).0.0 ≡ ok qr
      → (qr.meta.served_by ≡ serving_name n)
        × (qr.meta.timeout_ms ≡ effective cfg.timeouts controls.timeout_ms)
        × (write ≡ true ⊎ length qr.rows ≤ cfg.inline_row_cap)
  unfolding on_ready execute arm
  on_ready-ok write sql controls info n (ok loc) qr h =
      let entered = register env.op_id env.token (some info.pond_id) n.inflight in
      let armed = arm (is_cancelled entered env.token) cfg.timeouts controls in
      let (by, within_ms, fits) =
        judge-ok write cfg.inline_row_cap (serving_name n) (run env.events armed)
          (blocking eng write loc sql n.engine).0.0 qr
          (concluded-ok cfg env write (serving_name n) (run env.events armed)
            (blocking eng write loc sql n.engine).0 qr h) in
      (by, within_ms ∙ run-effective_ms env.events armed, fits)
  on_ready-ok write sql controls info n (err e) qr h = absurd (cc h)

  -- The answer of a query that this node has run names this node and the timeout that its own policy makes of the
  -- one asked for, and a read has no more rows than the node hands out.
  pub run_query_local-ok :
      (write : Bool) (sql : Text) (controls : QueryControls) (info : PondInfo) (n : Node S En)
      (qr : QueryResult)
      → (run_query_local cfg env eng write sql controls info n).0.0 ≡ ok qr
      → (qr.meta.served_by ≡ serving_name n)
        × (qr.meta.timeout_ms ≡ effective cfg.timeouts controls.timeout_ms)
        × (write ≡ true ⊎ length qr.rows ≤ cfg.inline_row_cap)
  unfolding run_query_local raise
  run_query_local-ok write sql controls info n qr h =
      let (disk, a, e) = materialize_frame X cfg env info (raise info.name n) in
      on_ready-ok write sql controls info (record (raise info.name n) { disk = disk }) a qr
        (sym (ap (λ m. (on_ready cfg env eng write sql controls info m).0.0) e) ∙ h)

  on_ready-IsCounted :
      (write : Bool) (sql : Text) (controls : QueryControls) (info : PondInfo) (n : Node S En)
      (disk : Disk) (a : Answer X PondLocation)
      → IsCounted env info n a
          (on_ready cfg env eng write sql controls info
            (a, record (raise info.name n) { disk = disk }))
          (hung_up cfg env eng write sql info (a, record (raise info.name n) { disk = disk }))
  unfolding on_ready execute raise lower hung_up register enter insert any
  on_ready-IsCounted write sql controls info n disk (ok loc) = (
    refl,
    refl,
    complete-has_op env.op_id _,
    refl,
    refl,
    ground (arith, eq_iff env.op_id env.op_id),
    ground arith,
  )
  on_ready-IsCounted write sql controls info n disk (err e) = (refl, refl, refl, refl)

  -- A query whose pond could not be made ready raises the gauge of running queries for good. Every other one whose
  -- handler runs to its end lowers it again and leaves no operation in flight under its id; if the handler is
  -- dropped while the engine works, the token is fired, but the gauge stays raised and the operation stays in
  -- flight.
  pub run_query_local-IsCounted :
      (write : Bool) (sql : Text) (controls : QueryControls) (info : PondInfo) (n : Node S En)
      → IsCounted env info n
          (materialize {X = X} cfg env info (raise info.name n)).0
          (run_query_local cfg env eng write sql controls info n)
          (abandon_query_local cfg env eng write sql info n)
  unfolding run_query_local abandon_query_local
  run_query_local-IsCounted write sql controls info n =
      let (disk, a, e) = materialize_frame X cfg env info (raise info.name n) in
      subst
        (λ m.
          IsCounted env info n m.0 (on_ready cfg env eng write sql controls info m)
            (hung_up cfg env eng write sql info m))
        (sym e) (on_ready-IsCounted write sql controls info n disk a)
