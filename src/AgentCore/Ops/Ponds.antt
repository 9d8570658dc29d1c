-- ===== src/AgentCore/Ops/Ponds.antt =====
-- ops.rs: the requests that neither query nor drop: `materialize_pond`, `describe_pond`, `list_ponds` and
-- `allocate_pond`. An engine that panics in `init_pond` is not told apart from one that fails.
use latiq.Prelude.{String, Bool, List, Option, none, some, Result, ok, err}
use latiq.Prelude.Text.{Text}
use latiq.Common.Identity.{Identity}
use latiq.Storage.LocalFs.{PondLocation}
use latiq.AgentCore.Control.{PondInfo, engine, ControlPlane}
use latiq.AgentCore.Deadline.{EngineError}
use latiq.AgentCore.Ops.{
  Config, Env, Engine, Forwarder, Answer, Act, audit, audited, dispatch, materialize, is_ok,
}

abbrev pub of_engine : {X A : Type 0} → Result (EngineError X) A → Answer X A
of_engine (ok a) = ok a
of_engine (err e) = err (engine e)

-- A pond's id where there is one.
abbrev pub id_of : {X : Type 0} → Answer X PondInfo → Option String
id_of (ok info) = some info.pond_id
id_of (err e) = none

-- `DescribeResult`: the pond with its schema.
abbrev pub with_pond : {X D : Type 0} → PondInfo → Answer X D → Answer X (PondInfo × D)
with_pond info (ok d) = ok (info, d)
with_pond info (err e) = err e

module _ {S En X D : Type 0} (cfg : Config) (env : Env) (eng : Engine En X D) where
  -- A call of the engine on the location that `ensure_pond` answers.
  unfoldable pub on_engine :
      {A : Type 0} → (PondLocation → En → Result (EngineError X) A × En) → PondInfo → Act S En X A
  unfolding materialize
  on_engine call info n =
      let ready = materialize {X = X} cfg env info n in
      elim ready.0 [
        | ok loc ↦
            (let out = call loc ready.1.engine in
              (of_engine out.0, record ready.1 { engine = out.1 }))
        | err e ↦ (err e, ready.1)
      ]

  unfoldable pub materialize_here : PondInfo → Act S En X (Unit {0})
  unfolding on_engine
  materialize_here = on_engine eng.init_pond

  unfoldable pub describe_pond_local : PondInfo → Act S En X D
  unfolding on_engine
  describe_pond_local = on_engine eng.describe_schema

  unfoldable pub described : PondInfo → Act S En X (PondInfo × D)
  unfolding describe_pond_local
  described info n = let out = describe_pond_local info n in (with_pond info out.0, out.1)

  module _ (cp : ControlPlane S (EngineError X)) where
    unfoldable pub materialize_pond :
        Forwarder X D → Identity → (pond_ref : String) → Act S En X (Unit {0})
    unfolding materialize_here audited dispatch
    materialize_pond fwd identity pond_ref =
        dispatch cp identity "materialize_pond" pond_ref
          (λ peer. fwd.materialize_pond peer pond_ref)
          (audited identity "materialize_pond" none materialize_here)

    unfoldable pub describe_pond :
        Forwarder X D → Identity → (pond_ref : String) → Act S En X (PondInfo × D)
    unfolding described audited dispatch
    describe_pond fwd identity pond_ref =
        dispatch cp identity "describe_pond" pond_ref (λ peer. fwd.describe peer pond_ref)
          (audited identity "describe_pond" none described)

module _ {S En X : Type 0} (cp : ControlPlane S (EngineError X)) where
  unfoldable pub list_ponds : Identity → Act S En X (List PondInfo)
  unfolding audit
  list_ponds identity n =
      let out = cp.list_ponds n.control in
      (out.0, audit identity "list_ponds" none none (is_ok out.0) (record n { control = out.1 }))

  -- What the caller is told of the pond is its id and its name.
  unfoldable pub allocate_pond :
      Identity
      → (owner : String) → (name : Option String) → (policy_json tier : String)
      → (extensions : List Text) → (lineage : Bool) → Act S En X PondInfo
  unfolding audit
  allocate_pond identity owner name policy_json tier extensions lineage n =
      let out = cp.create_pond name owner policy_json tier extensions lineage n.control in
      (
        out.0,
        audit identity "allocate_pond" (id_of out.0) none (is_ok out.0)
            (record n { control = out.1 }),
      )
