-- ===== src/AgentCore/Ops/Requests.antt =====
-- Every request of this node is on its access trail once, or on the owner's.
use latiq.Prelude.{
  String, Bool, true, false, ◌≡◌, refl, ap, ◌∙◌, inl, inr, ◌⊎◌, List, ◌∷◌, Option, none, some,
  Result, ok, err, result_cases, Bool-cases, string_eq,
}
use latiq.Prelude.Text.{Text}
use latiq.Common.Identity.{Identity}
use latiq.Storage.LocalFs.{Disk, PondLocation, StorageError, pond_location}
use latiq.AgentCore.Control.{PondInfo, ControlPlane}
use latiq.AgentCore.Deadline.{EngineError, QueryControls}
use latiq.AgentCore.Ops.{
  Config, Env, Node, Engine, Forwarder, Answer, Act, entry, LineageEvent, audit, audit_err, audited,
  parsed_id, ensured, materialize, is_ok,
}
use latiq.AgentCore.Ops.Trail.{IsRecorded, IsForwarded, dispatch-access}
use latiq.AgentCore.Ops.Drop.{
  destroy, settled, drop_here, drop_local, drop_pond, forget_at, evict_lineage_writer,
}
use latiq.AgentCore.Ops.Query.{
  op_name, raise, execute, run_query_local, recorded, run_query, emit_lineage, lineage_writer,
  written, lower,
}
use latiq.AgentCore.Redact.{redact_sql}
use latiq.AgentCore.Ops.Ponds.{
  on_engine, materialize_here, describe_pond_local, described, materialize_pond, describe_pond,
}

module _ {S En : Type 0} (X : Type 0) where
  ensured-access :
      (low : Text → Text) (info : PondInfo) (r : Result StorageError PondLocation × Disk)
      (n : Node S En)
      → (ensured {X = X} low info r n).1.access ≡ n.access
  unfolding ensured
  ensured-access low info (ok loc, disk) n = refl
  ensured-access low info (err e, disk) n = refl

  materialize-access :
      (cfg : Config) (env : Env) (info : PondInfo) (n : Node S En)
      → (materialize {X = X} cfg env info n).1.access ≡ n.access
  unfolding materialize
  materialize-access cfg env info n = elim (result_cases (parsed_id {X = X} cfg info)) [
    | inl (pid, q) ↦ rw (q, materialize) (ensured-access cfg.to_lowercase info _ n)
    | inr (e, q) ↦ rw (q, materialize) refl
  ]

module _ {S En X : Type 0} where
  audited-IsRecorded :
      {A : Type 0} (identity : Identity) (op : String) (summary : Option Text)
      (here : PondInfo → Act S En X A) (info : PondInfo) (n : Node S En)
      → (here info n).1.access ≡ n.access
      → IsRecorded identity op n (audited identity op summary here info n)
  unfolding audited audit
  audited-IsRecorded identity op summary here info n h =
      let e = entry identity op (some info.pond_id) summary (is_ok (here info n).0) in
      (e, ap (λ t. e ∷ t) h, refl, refl, refl)

module _ {S En : Type 0} where
  written-access :
      (event : LineageEvent) (o : Option (List String)) (n : Node S En)
      → (written event o n).access ≡ n.access
  unfolding written
  written-access event none n = refl
  written-access event (some ws) n = refl

  emit_lineage-access :
      (cfg : Config) (info : PondInfo) (event : LineageEvent) (n : Node S En)
      → (emit_lineage cfg info event n).access ≡ n.access
  unfolding emit_lineage
  emit_lineage-access cfg info event n = elim (Bool-cases info.lineage) [
    | inl e ↦ rw e (written-access event (lineage_writer cfg info n) n)
    | inr e ↦ rw e refl
  ]

  forget_at-access :
      {X D : Type 0} (eng : Engine En X D) (res : Result StorageError PondLocation) (n : Node S En)
      → (forget_at eng res n).access ≡ n.access
  unfolding forget_at
  forget_at-access eng (ok loc) n = refl
  forget_at-access eng (err e) n = refl

module _ {S En X D : Type 0} (cfg : Config) (env : Env) (eng : Engine En X D) where
  on_engine-access :
      {A : Type 0} (call : PondLocation → En → Result (EngineError X) A × En) (info : PondInfo)
      (n : Node S En)
      → (on_engine cfg env eng call info n).1.access ≡ n.access
  unfolding on_engine
  on_engine-access call info n = elim (result_cases (materialize {X = X} cfg env info n).0) [
    | inl (loc, q) ↦ rw (q, on_engine) (materialize-access X cfg env info n)
    | inr (e, q) ↦ rw (q, on_engine) (materialize-access X cfg env info n)
  ]

  run_query_local-access :
      (write : Bool) (sql : Text) (controls : QueryControls) (info : PondInfo) (n : Node S En)
      → (run_query_local cfg env eng write sql controls info n).1.access ≡ n.access
  unfolding run_query_local execute lower raise
  run_query_local-access write sql controls info n =
      elim (result_cases (materialize {X = X} cfg env info (raise info.name n)).0) [
        | inl (loc, q) ↦
            rw (q, run_query_local) (materialize-access X cfg env info (raise info.name n))
        | inr (e, q) ↦
            rw (q, run_query_local) (materialize-access X cfg env info (raise info.name n))
      ]

  recorded-IsRecorded :
      (write : Bool) (sql : Text) (controls : QueryControls) (identity : Identity) (info : PondInfo)
      (n : Node S En)
      → IsRecorded identity
          (op_name write)
          n
          (recorded cfg env eng write sql controls identity info n)
  unfolding recorded audit
  recorded-IsRecorded write sql controls identity info n =
      let out = run_query_local cfg env eng write sql controls info n in
      let e =
        entry identity (op_name write) (some info.pond_id) (some (redact_sql sql))
          (is_ok out.0.0) in
      (
        e,
        emit_lineage-access cfg info _ _
            ∙ ap (λ t. e ∷ t) (run_query_local-access write sql controls info n),
        refl,
        refl,
        refl,
      )

  destroy-access :
      (pond_id pid : String) (n : Node S En) → (destroy eng cfg env pond_id pid n).access ≡ n.access
  unfolding destroy evict_lineage_writer
  destroy-access pond_id pid n = forget_at-access eng (pond_location cfg.root pid n.disk) n

  settled-IsRecorded :
      (identity : Identity) (info : PondInfo) (pid : String) (res : Answer X (Unit {0}))
      (n : Node S En)
      → IsRecorded identity "drop_pond" n (settled eng cfg env identity info pid res n)
  unfolding settled audit_err audit
  settled-IsRecorded identity info pid (ok tt) n =
      let e = entry identity "drop_pond" (some info.pond_id) none true in
      (e, ap (λ t. e ∷ t) (destroy-access info.pond_id pid n), refl, refl, refl)
  settled-IsRecorded identity info pid (err x) n =
      (entry identity "drop_pond" (some info.pond_id) none false, refl, refl, refl, refl)

  drop_local-IsRecorded :
      (cp : ControlPlane S (EngineError X)) (identity : Identity) (info : PondInfo) (n : Node S En)
      → IsRecorded identity "drop_pond" n (drop_local eng cfg env cp identity info n)
  unfolding drop_local drop_here audit_err audit
  drop_local-IsRecorded cp identity info n = elim (result_cases (parsed_id {X = X} cfg info)) [
    | inl (pid, q) ↦ rw (q, drop_local) (settled-IsRecorded identity info pid _ _)
    | inr (x, q) ↦
        rw (q, drop_local)
          (entry identity "drop_pond" (some info.pond_id) none false, refl, refl, refl, refl)
  ]

  -- Whatever the control plane, the engine, the owner and the disk answer, a request for a pond whose
  -- handler runs to its end leaves exactly one new record on this node's access trail, with the
  -- caller, the operation and whether it succeeded, unless its answer is that of the owner it was
  -- forwarded to, which leaves none: so for queries, drops that are confirmed, descriptions and
  -- materializations.
  pub requests-access :
      (cp : ControlPlane S (EngineError X)) (fwd : Forwarder X D) (identity : Identity)
      (ref : String) (sql : Text) (write : Bool) (controls : QueryControls) (n : Node S En)
      → (IsForwarded cp ref
            (λ p. fwd.query write p ref sql controls.timeout_ms)
            n
            (run_query cfg env eng cp fwd ref sql identity write controls n)
          ⊎ IsRecorded identity
              (op_name write)
              n
              (run_query cfg env eng cp fwd ref sql identity write controls n))
        × (IsForwarded cp ref
              (λ p. fwd.drop_pond p ref true)
              n
              (drop_pond eng cfg env cp fwd identity ref true n)
            ⊎ IsRecorded identity "drop_pond" n (drop_pond eng cfg env cp fwd identity ref true n))
        × (IsForwarded cp ref
              (λ p. fwd.describe p ref)
              n
              (describe_pond cfg env eng cp fwd identity ref n)
            ⊎ IsRecorded identity "describe_pond" n
                (describe_pond cfg env eng cp fwd identity ref n))
        × (IsForwarded cp ref
              (λ p. fwd.materialize_pond p ref)
              n
              (materialize_pond cfg env eng cp fwd identity ref n)
            ⊎ IsRecorded identity "materialize_pond" n
                (materialize_pond cfg env eng cp fwd identity ref n))
  unfolding run_query drop_pond describe_pond materialize_pond described describe_pond_local
      materialize_here
  requests-access cp fwd identity ref sql write controls n = (
    dispatch-access cp identity (op_name write) ref _ _ n
        (recorded-IsRecorded write sql controls identity),
    dispatch-access cp identity "drop_pond" ref _ _ n (drop_local-IsRecorded cp identity),
    dispatch-access cp identity "describe_pond" ref _ _ n (λ info m.
        audited-IsRecorded identity "describe_pond" none (described cfg env eng) info m
          (on_engine-access eng.describe_schema info m)),
    dispatch-access cp identity "materialize_pond" ref _ _ n (λ info m.
        audited-IsRecorded identity "materialize_pond" none (materialize_here cfg env eng) info m
          (on_engine-access eng.init_pond info m)),
  )
