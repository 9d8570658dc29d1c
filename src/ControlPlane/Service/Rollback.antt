-- ===== src/ControlPlane/Service/Rollback.antt =====
-- With no other call in between and a database that answers, a failed allocation is undone.
use latiq.Prelude.{
  result_cases, String, Bool, true, false, ◌≡◌, refl, ap, ◌∙◌, inl, inr, List, [], ◌∷◌, ◌++◌,
  Option, arith, eq_iff, any, Result, err, Bool-cases, Option-cases,
}
use latiq.Prelude.Text.{Text}
use latiq.ControlPlane.Registry.{Registry, PondRecord, ControlPlaneError, delete_where}
use latiq.ControlPlane.Registry.Tables.{any-snoc}
use latiq.ControlPlane.Registry.Ponds.{
  Draw, PondRow, carries_out, new_record, refers, drop_pond, get_pond_location, new_row, name_or,
}
use latiq.ControlPlane.Registry.Ponds.Laws.{create_pond_lem}
use latiq.ControlPlane.Registry.Invariant.{run}
use latiq.ControlPlane.Service.{
  Materializer, quiet, answered, Request, Response, compensate, new_pond, materialized,
  located_pond, create_pond_assignment,
}

-- Only the row that a test takes is deleted.
delete_where-snoc {ℓ} :
    {A : Type ℓ} (p : A → Bool) (xs : List A) (x : A)
    → any p xs ≡ false
    → p x ≡ true
    → delete_where p (xs ++ x ∷ []) ≡ xs
unfolding any delete_where
delete_where-snoc p [] x h e = rw e refl
delete_where-snoc p (y ∷ xs) x h e = elim (Bool-cases (p y)) [
  | inl taken ↦ absurd (cc (rw taken at h))
  | inr kept ↦ rw kept (ap (λ ys. y ∷ ys) (delete_where-snoc p xs x (rw kept at h) e))
]

module _ (to_lowercase : Text → Text) (materializer : Option Materializer) where
  -- With no other call in between, a failure drops the pond from the registry that it was placed in.
  abbrev IsDropped : String → Registry → Result ControlPlaneError Response × Registry → Type 0
  IsDropped id r result =
      (e : ControlPlaneError) → result.0 ≡ err e → result.1 ≡ (drop_pond carries_out id r).1

  materialized-IsDropped :
      (pond : PondRow) (endpoint : String) (r : Registry)
      → IsDropped pond.pond_id r (materialized to_lowercase materializer quiet pond endpoint r)
  unfolding materialized compensate run
  materialized-IsDropped pond endpoint r e h = elim (Option-cases materializer) [
    | inl none_eq ↦ absurd (cc (rw (none_eq, materialized) at h))
    | inr (m, some_eq) ↦ elim (result_cases (m endpoint pond.pond_id)) [
      | inl (u, fine) ↦ absurd (cc (rw (some_eq, materialized, fine) at h))
      | inr (cause, bad) ↦ rw (some_eq, materialized, bad) refl
    ]
  ]

  located_pond-IsDropped :
      (pond : PondRow) (r : Registry)
      → IsDropped pond.pond_id r (located_pond to_lowercase materializer quiet pond r)
  unfolding located_pond compensate
  located_pond-IsDropped pond r e h = elim (result_cases (get_pond_location pond.pond_id r).0) [
    | inl (place, found) ↦
        rw (found, located_pond)
          (materialized-IsDropped pond place.1 r e (rw (found, located_pond) at h))
    | inr (why, lost) ↦ rw (lost, located_pond) refl
  ]

  drop_pond-snoc :
      (id : String) (p : PondRecord) (r s : Registry)
      → any (refers id) r.ponds ≡ false
      → refers id p ≡ true
      → s.ponds ≡ r.ponds ++ p ∷ []
      → (drop_pond carries_out id s).1.ponds ≡ r.ponds
  unfolding drop_pond
  drop_pond-snoc id p r s free hit e =
      let found : any (refers id) s.ponds ≡ true = rw e (any-snoc (refers id) r.ponds p hit) in
      rw found (ap (delete_where (refers id)) e ∙ delete_where-snoc (refers id) r.ponds p free hit)

  -- If the drawn id is neither a pond's id nor a pond's name, no other call gets in between and the database
  -- carries out the deletion if there is one, then an allocation that fails leaves exactly the ponds that were there before.
  pub create_pond_assignment-restores :
      (draw : Draw) (req : Request) (r : Registry)
      → any (refers draw.pond_id) r.ponds ≡ false
      → (e : ControlPlaneError)
      → (create_pond_assignment to_lowercase materializer quiet draw req r).0 ≡ err e
      → (create_pond_assignment to_lowercase materializer quiet draw req r).1.ponds ≡ r.ponds
  unfolding create_pond_assignment answered run new_row new_record
  create_pond_assignment-restores draw req r free e h =
      elim (create_pond_lem to_lowercase draw (new_pond req) r) [
        | inl (why, refused) ↦ rw refused refl
        | inr c ↦
            let name = name_or draw.pond_id (new_pond req).name in
            let made = new_record draw.pond_id draw.now name (new_pond req) c.tier c.node in
            let row = new_row draw.pond_id name (new_pond req) c.tier c.node in
            let s : Registry = record r { ponds = r.ponds ++ made ∷ [] } in
            let dropped = located_pond-IsDropped row s e (rw c.result_eq at h) in
            rw c.result_eq (
              ap (λ x. x.ponds) dropped
              ∙ drop_pond-snoc draw.pond_id made r s free
                  (ground (arith, eq_iff draw.pond_id draw.pond_id)) refl)
      ]
