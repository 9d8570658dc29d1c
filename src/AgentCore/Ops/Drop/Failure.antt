-- ===== src/AgentCore/Ops/Drop/Failure.antt =====
-- What a drop that fails leaves alone.
use latiq.Prelude.{
  String, Bool, true, false, ◌≡◌, refl, sym, ap, ◌∙◌, inl, inr, Option, none, some, string_eq,
  Result, ok, err, Option-cases, result_cases,
}
use mathlib.Core.Path.{subst}
use latiq.Common.Identity.{Identity}
use latiq.AgentCore.Control.{PondInfo, AgentError, ControlPlane}
use latiq.AgentCore.Placement.{route, Peer, RouteError}
use latiq.AgentCore.Deadline.{EngineError}
use latiq.AgentCore.Ops.{Config, Env, Node, Engine, Forwarder, audit, audit_err, parsed_id, routed}
use latiq.AgentCore.Ops.Trail.{looked_up, dispatch-found, dispatch-missing}
use latiq.AgentCore.Ops.Drop.{settled, drop_local, drop_pond}
use latiq.AgentCore.Ops.Drop.Laws.{begun, drop_here_cases}

module _ {S En X D : Type 0} (eng : Engine En X D) (cfg : Config) (env : Env) where
  -- How the control plane got from one state to another: it was asked nothing, or to look the pond up, or
  -- also to drop a pond, which it refused or could not say that it did.
  pub data Asked (cp : ControlPlane S (EngineError X)) (ref : String) (s : S) : S → Type 0 where
    nothing : Asked cp ref s s
    looked : Asked cp ref s (cp.pond_info ref s).1
    unanswered :
        (info : PondInfo) (e : AgentError (EngineError X))
        → (cp.pond_info ref s).0 ≡ ok info
        → (cp.drop_pond info.pond_id (cp.pond_info ref s).1).0 ≡ err e
        → Asked cp ref s (cp.drop_pond info.pond_id (cp.pond_info ref s).1).1

  -- What is left as it was, and the state that the control plane is left in.
  pub record IsKept (left : S → Type 0) (n n' : Node S En) : Type 0 where
    pub disk : n'.disk ≡ n.disk
    pub writers : n'.writers ≡ n.writers
    pub engine : n'.engine ≡ n.engine
    pub control : left n'.control

  module _ (cp : ControlPlane S (EngineError X)) where
    -- After the pond was found, in the state `s`: the same, or that of a drop that was not answered by success.
    pub data Left (info : PondInfo) (s : S) : S → Type 0 where
      same : Left info s s
      refused :
          (e : AgentError (EngineError X))
          → (cp.drop_pond info.pond_id s).0 ≡ err e
          → Left info s (cp.drop_pond info.pond_id s).1

    settled-IsKept :
        (identity : Identity) (info : PondInfo) (pid : String) (e : AgentError (EngineError X))
        (n : Node S En)
        → (cp.drop_pond info.pond_id n.control).0 ≡ err e
        → IsKept
            (Left info n.control)
            n
            (settled eng cfg env identity info pid (err e) (begun eng cfg env cp info n)).1
    unfolding settled audit_err audit
    settled-IsKept identity info pid e n q = record {
      disk = refl;
      writers = refl;
      engine = refl;
      control = refused e q;
    }

    drop_local-IsKept :
        (identity : Identity) (info : PondInfo) (e : AgentError (EngineError X)) (n n' : Node S En)
        → drop_local eng cfg env cp identity info n ≡ (err e, n')
        → IsKept (Left info n.control) n n'
    unfolding drop_local parsed_id audit_err audit
    drop_local-IsKept identity info e n n' done =
        elim (Option-cases (cfg.parse_uuid info.pond_id)) [
          | inl q ↦
              subst (IsKept (Left info n.control) n) (ap (λ x. x.1) (rw (q, drop_local) at done))
                (record { disk = refl; writers = refl; engine = refl; control = same })
          | inr (pid, q) ↦ elim (drop_here_cases eng cfg env cp identity info pid n) [
            | inl (p, f) ↦ absurd (cc (ap (λ x. x.0) (sym f ∙ rw (q, drop_local) at done)))
            | inr (x, p, f) ↦
                subst (IsKept (Left info n.control) n)
                  (ap (λ x. x.1) (sym f ∙ rw (q, drop_local) at done))
                  (settled-IsKept identity info pid x n p)
          ]
        ]

    asked_left :
        (ref : String) (info : PondInfo) (s t : S)
        → (cp.pond_info ref s).0 ≡ ok info
        → Left info (cp.pond_info ref s).1 t
        → Asked cp ref s t
    asked_left ref info s _ q same = looked
    asked_left ref info s _ q (refused e p) = unanswered info e q p

    looked_up-IsKept :
        (ref : String) (info : PondInfo) (n n' : Node S En)
        → (cp.pond_info ref n.control).0 ≡ ok info
        → IsKept (Left info (cp.pond_info ref n.control).1) (looked_up cp ref n) n'
        → IsKept (Asked cp ref n.control) n n'
    looked_up-IsKept ref info n n' q k = record {
      disk = k.disk;
      writers = k.writers;
      engine = k.engine;
      control = asked_left ref info n.control n'.control q k.control;
    }

    routed-IsKept :
        (fwd : Forwarder X D) (identity : Identity) (ref : String) (info : PondInfo)
        (way : Result RouteError (Option Peer)) (e : AgentError (EngineError X)) (n n' : Node S En)
        → routed cp identity "drop_pond"
            (λ p. fwd.drop_pond p ref true)
            (drop_local eng cfg env cp identity)
            info
            way
            n
          ≡ (err e, n')
        → IsKept (Left info n.control) n n'
    unfolding routed audit_err audit
    routed-IsKept fwd identity ref info (ok none) e n n' done =
        drop_local-IsKept identity info e n n' done
    routed-IsKept fwd identity ref info (ok (some peer)) e n n' done =
        subst (IsKept (Left info n.control) n) (ap (λ x. x.1) done)
          (record { disk = refl; writers = refl; engine = refl; control = same })
    routed-IsKept fwd identity ref info (err x) e n n' done =
        subst (IsKept (Left info n.control) n) (ap (λ x. x.1) done)
          (record { disk = refl; writers = refl; engine = refl; control = same })

    -- A drop that fails, for whatever reason, has deleted nothing here: the files, the lineage writers and the
    -- engine are as they were. Of the control plane, whatever it does, nothing was asked, or one lookup, or one
    -- drop of the pond that the lookup found, which was not answered by success.
    pub drop_pond-err :
        (fwd : Forwarder X D) (identity : Identity) (ref : String) (confirm : Bool)
        (e : AgentError (EngineError X)) (n n' : Node S En)
        → drop_pond eng cfg env cp fwd identity ref confirm n ≡ (err e, n')
        → IsKept (Asked cp ref n.control) n n'
    unfolding drop_pond audit_err audit
    drop_pond-err fwd identity ref false e n n' done =
        subst (IsKept (Asked cp ref n.control) n) (ap (λ x. x.1) done)
          (record { disk = refl; writers = refl; engine = refl; control = nothing })
    drop_pond-err fwd identity ref true e n n' done =
        elim (result_cases (cp.pond_info ref n.control).0) [
          | inl (info, q) ↦ looked_up-IsKept ref info n n' q (
              routed-IsKept fwd identity ref info (route n.self info) e (looked_up cp ref n) n'
                (sym (dispatch-found cp identity "drop_pond" ref _ _ info n q) ∙ done))
          | inr (x, q) ↦
              subst (IsKept (Asked cp ref n.control) n)
                (ap (λ x. x.1)
                  (sym (dispatch-missing cp identity "drop_pond" ref _ _ x n q) ∙ done))
                (record { disk = refl; writers = refl; engine = refl; control = looked })
        ]
