-- ===== src/ControlPlane/Service/Answers.antt =====
-- What a successful allocation has been told by the node.
use latiq.Prelude.{
  some_injective, ok_injective, result_cases, String, ◌≡◌, refl, sym, ap, ◌∙◌, inl, inr, Option,
  some, Result, ok, Option-cases,
}
use mathlib.Core.Path.{subst}
use latiq.Prelude.Text.{Text}
use latiq.ControlPlane.Registry.{Registry, ControlPlaneError}
use latiq.ControlPlane.Registry.Ponds.{
  Draw, PondRow, create_pond, get_pond_location, new_row, name_or,
}
use latiq.ControlPlane.Registry.Ponds.Laws.{create_pond_lem}
use latiq.ControlPlane.Registry.Invariant.{run}
use latiq.ControlPlane.Service.{
  Materializer, Meanwhile, answered, Request, Response, compensate, new_pond, materialized,
  located_pond, create_pond_assignment,
}

-- The second of a pair that a result holds, by an equal one.
ap_ok :
    {res : Result ControlPlaneError (String × String)} {id e f : String}
    → res ≡ ok (id, e)
    → e ≡ f
    → res ≡ ok (id, f)
ap_ok h k = cc

module _ (to_lowercase : Text → Text) (materializer : Option Materializer)
    (meanwhile : Meanwhile) where
  -- The response names the pond and its node's endpoint, and that node answered that it has the pond.
  abbrev pub IsAnswered : (pond_id endpoint : String) → Response → Type 0
  IsAnswered id endpoint resp =
      (resp.pond_id ≡ id)
      × (resp.assigned_node_endpoint ≡ endpoint)
      × ((m : Materializer)
          → materializer ≡ some m
          → m resp.assigned_node_endpoint resp.pond_id ≡ ok tt)

  materialized-ok :
      (pond : PondRow) (endpoint : String) (r : Registry) (resp : Response)
      → (materialized to_lowercase materializer meanwhile pond endpoint r).0 ≡ ok resp
      → IsAnswered pond.pond_id endpoint resp
  unfolding materialized compensate
  materialized-ok pond endpoint r resp h = elim (Option-cases materializer) [
    | inl none_eq ↦
        subst (IsAnswered pond.pond_id endpoint) (ok_injective (rw (none_eq, materialized) at h))
          (refl, refl, λ m some_eq. absurd (cc (none_eq, some_eq)))
    | inr (m, some_eq) ↦ elim (result_cases (m endpoint pond.pond_id)) [
      | inl (u, fine) ↦
          subst (IsAnswered pond.pond_id endpoint)
            (ok_injective (rw (some_eq, materialized, fine) at h))
            (
              refl,
              refl,
              λ n other.
                  ap (λ f. f endpoint pond.pond_id) (some_injective (sym other ∙ some_eq)) ∙ fine,
            )
      | inr (cause, bad) ↦ absurd (cc (rw (some_eq, materialized, bad) at h))
    ]
  ]

  located_pond-ok :
      (pond : PondRow) (r : Registry) (resp : Response)
      → (located_pond to_lowercase materializer meanwhile pond r).0 ≡ ok resp
      → (id endpoint : String) × ((get_pond_location pond.pond_id r).0 ≡ ok (id, endpoint))
        × IsAnswered pond.pond_id endpoint resp
  unfolding located_pond compensate
  located_pond-ok pond r resp h = elim (result_cases (get_pond_location pond.pond_id r).0) [
    | inl ((id, endpoint), found) ↦
        (id, endpoint, found, materialized-ok pond endpoint r resp (rw (found, located_pond) at h))
    | inr (why, lost) ↦ absurd (cc (rw (lost, located_pond) at h))
  ]

  created_assignment-ok :
      (draw : Draw) (req : Request) (r : Registry) (resp : Response)
      → (create_pond_assignment to_lowercase materializer meanwhile draw req r).0 ≡ ok resp
      → (id endpoint : String) × ((get_pond_location draw.pond_id (
            run to_lowercase meanwhile.placed (create_pond to_lowercase draw (new_pond req) r).1)).0
          ≡ ok (id, endpoint))
        × IsAnswered draw.pond_id endpoint resp
  unfolding create_pond_assignment answered new_row
  created_assignment-ok draw req r resp h =
      elim (create_pond_lem to_lowercase draw (new_pond req) r) [
        | inl (why, refused) ↦ absurd (cc (rw refused at h))
        | inr c ↦ rw c.result_eq (
            located_pond-ok
              (new_row draw.pond_id (name_or draw.pond_id (new_pond req).name) (new_pond req) c.tier
                c.node)
              _ resp (rw c.result_eq at h))
      ]

  -- A successful allocation reports the new pond's id and the endpoint that the registry gives for it
  -- when it is looked up, and that node has answered the materializer that it made the pond.
  pub create_pond_assignment-ok :
      (draw : Draw) (req : Request) (r : Registry) (resp : Response) (m : Materializer)
      → materializer ≡ some m
      → (create_pond_assignment to_lowercase materializer meanwhile draw req r).0 ≡ ok resp
      → (id : String) × ((get_pond_location draw.pond_id (
            run to_lowercase meanwhile.placed (create_pond to_lowercase draw (new_pond req) r).1)).0
          ≡ ok (id, resp.assigned_node_endpoint))
        × (resp.pond_id ≡ draw.pond_id)
        × (m resp.assigned_node_endpoint resp.pond_id ≡ ok tt)
  create_pond_assignment-ok draw req r resp m given h =
      let (id, endpoint, found, (same_id, same_endpoint, answered_)) =
        created_assignment-ok draw req r resp h in
      (id, ap_ok found (sym same_endpoint), same_id, answered_ m given)
