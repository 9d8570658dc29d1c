-- ===== src/AgentCore/Ops/Trail.antt =====
-- The access trail: what each request leaves on it.
use latiq.Prelude.{
  String, false, ◌≡◌, refl, sym, ap, ◌∙◌, inl, inr, ◌⊎◌, ◌∷◌, Option, none, some, Result, ok, err,
  result_cases,
}
use mathlib.Core.Path.{subst}
use latiq.Common.Identity.{Identity}
use latiq.AgentCore.Control.{PondInfo, AgentError, ControlPlane}
use latiq.AgentCore.Placement.{Peer, route, RouteError}
use latiq.AgentCore.Deadline.{EngineError}
use latiq.AgentCore.Ops.{
  Node, Answer, Act, AccessRecord, entry, audit, audit_err, looked, routed, proceed, dispatch,
  pond_info_audited, is_ok,
}

module _ {S En X : Type 0} where
  -- One new record, by this caller and of this operation, that says whether it succeeded.
  abbrev pub IsRecorded :
      {A : Type 0} → Identity → (op : String) → Node S En → Answer X A × Node S En → Type 0
  IsRecorded identity op n out =
      (a : AccessRecord) × (out.1.access ≡ a ∷ n.access)
      × (a.identity ≡ identity)
      × (a.op ≡ op)
      × (a.succeeded ≡ is_ok out.0)

  module _ (cp : ControlPlane S (EngineError X)) where
    -- The owner was asked, and nothing is recorded here.
    abbrev pub IsForwarded :
        {A : Type 0}
        → (pond_ref : String) → (Peer → Answer X A)
        → Node S En
        → Answer X A × Node S En
        → Type 0
    IsForwarded pond_ref forward n out =
        (info : PondInfo) × (peer : Peer) × ((cp.pond_info pond_ref n.control).0 ≡ ok info)
        × (route n.self info ≡ ok (some peer))
        × (out.0 ≡ forward peer)
        × (out.1.access ≡ n.access)

    routed-access :
        {A : Type 0} (identity : Identity) (op pond_ref : String) (forward : Peer → Answer X A)
        (here : PondInfo → Act S En X A) (info : PondInfo) (n n₀ : Node S En)
        (way : Result RouteError (Option Peer))
        → ((m : Node S En) → IsRecorded identity op m (here info m))
        → (cp.pond_info pond_ref n₀.control).0 ≡ ok info
        → route n₀.self info ≡ way
        → n.access ≡ n₀.access
        → IsForwarded pond_ref forward n₀ (routed cp identity op forward here info way n)
          ⊎ IsRecorded identity op n₀ (routed cp identity op forward here info way n)
    unfolding routed audit_err audit
    routed-access identity op pond_ref forward here info n n₀ (ok none) h found same before =
        let (a, e, who, what, how) = h n in inr (a, e ∙ ap (λ t. a ∷ t) before, who, what, how)
    routed-access identity op pond_ref forward here info n n₀ (ok (some peer)) h found same before =
        inl (info, peer, found, same, refl, before)
    routed-access identity op pond_ref forward here info n n₀ (err e) h found same before = inr (
      entry identity op (some info.pond_id) none false,
      ap (λ t. entry identity op (some info.pond_id) none false ∷ t) before,
      refl,
      refl,
      refl,
    )

    -- The node after the lookup.
    abbrev pub looked_up : (pond_ref : String) → Node S En → Node S En
    looked_up pond_ref n = record n { control = (cp.pond_info pond_ref n.control).1 }

    pub dispatch-found :
        {A : Type 0} (identity : Identity) (op pond_ref : String) (forward : Peer → Answer X A)
        (here : PondInfo → Act S En X A) (info : PondInfo) (n : Node S En)
        → (cp.pond_info pond_ref n.control).0 ≡ ok info
        → dispatch cp identity op pond_ref forward here n
          ≡ routed cp identity op forward here info (route n.self info) (looked_up pond_ref n)
    unfolding dispatch proceed pond_info_audited looked
    dispatch-found identity op pond_ref forward here info n q =
        ap
          (λ a.
            proceed cp identity op forward here
              (looked cp identity op pond_ref a (looked_up pond_ref n)))
          q

    pub dispatch-missing :
        {A : Type 0} (identity : Identity) (op pond_ref : String) (forward : Peer → Answer X A)
        (here : PondInfo → Act S En X A) (e : AgentError (EngineError X)) (n : Node S En)
        → (cp.pond_info pond_ref n.control).0 ≡ err e
        → dispatch cp identity op pond_ref forward here n
          ≡ audit_err identity op (some pond_ref) e (looked_up pond_ref n)
    unfolding dispatch proceed pond_info_audited looked audit_err
    dispatch-missing identity op pond_ref forward here e n q =
        ap
          (λ a.
            proceed cp identity op forward here
              (looked cp identity op pond_ref a (looked_up pond_ref n)))
          q

    -- A request that is dispatched is recorded here exactly once, or it is forwarded.
    pub dispatch-access :
        {A : Type 0} (identity : Identity) (op pond_ref : String) (forward : Peer → Answer X A)
        (here : PondInfo → Act S En X A) (n : Node S En)
        → ((info : PondInfo) (m : Node S En) → IsRecorded identity op m (here info m))
        → IsForwarded pond_ref forward n (dispatch cp identity op pond_ref forward here n)
          ⊎ IsRecorded identity op n (dispatch cp identity op pond_ref forward here n)
    unfolding audit_err audit
    dispatch-access identity op pond_ref forward here n h =
        elim (result_cases (cp.pond_info pond_ref n.control).0) [
          | inl (info, q) ↦
              subst (λ out. IsForwarded pond_ref forward n out ⊎ IsRecorded identity op n out)
                (sym (dispatch-found identity op pond_ref forward here info n q))
                (routed-access identity op pond_ref forward here info (looked_up pond_ref n) n
                  (route n.self info) (h info) q refl refl)
          | inr (e, q) ↦
              subst (λ out. IsForwarded pond_ref forward n out ⊎ IsRecorded identity op n out)
                (sym (dispatch-missing identity op pond_ref forward here e n q))
                (inr (entry identity op (some pond_ref) none false, refl, refl, refl, refl))
        ]
