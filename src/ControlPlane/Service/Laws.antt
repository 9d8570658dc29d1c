-- ===== src/ControlPlane/Service/Laws.antt =====
-- What a failed allocation leaves behind, and what it says of that.
use latiq.Prelude.{
  ok_injective, err_injective, result_cases, String, Bool, true, false, not, ◌≡◌, refl, sym, ap,
  ◌∙◌, inl, inr, ◌⊎◌, Option, any, Result, ok, err, Bool-cases, Option-cases,
}
use mathlib.Core.Path.{subst}
use latiq.Prelude.Text.{Text}
use latiq.ControlPlane.Registry.{
  Registry, ControlPlaneError, Cause, unlocated, node_said, allocation_not_materialized,
}
use latiq.ControlPlane.Registry.Tables.{any-delete_where}
use latiq.ControlPlane.Registry.Ponds.{
  Draw, PondRow, Database, carries_out, fails, refers, drop_pond, get_pond_location, new_row,
}
use latiq.ControlPlane.Registry.Ponds.Laws.{create_pond_lem}
use latiq.ControlPlane.Registry.Invariant.{run}
use latiq.ControlPlane.Service.{
  Materializer, Meanwhile, answered, Request, Response, compensate, new_pond, materialized,
  located_pond, create_pond_assignment,
}

-- If the database carries it out, nothing answers to the reference after `drop_pond`.
drop_pond-gone :
    (ref : String) (r : Registry) → any (refers ref) (drop_pond carries_out ref r).1.ponds ≡ false
unfolding drop_pond
drop_pond-gone ref r = elim (Bool-cases (any (refers ref) r.ponds)) [
  | inl e ↦ rw e (any-delete_where (refers ref) r.ponds)
  | inr e ↦ rw e e
]

-- Whether an error tells its caller that a row may be left.
unfoldable pub may_remain : ControlPlaneError → Bool
may_remain (allocation_not_materialized name owner cause compensated) = not compensated
may_remain e = false

-- After a failed call no row has the id that it drew, unless the database failed and the error says that a row may
-- remain. It says nothing of a call that succeeded.
abbrev pub IsGone : String → Database → Result ControlPlaneError Response × Registry → Type 0
IsGone id db result =
    (e : ControlPlaneError)
    → result.0 ≡ err e
    → any (refers id) result.1.ponds ≡ false ⊎ (db ≡ fails) × (may_remain e ≡ true)

compensate-IsGone :
    (db : Database) (id name owner : String) (cause : Cause) (r : Registry)
    → IsGone id db (compensate db id name owner cause r)
unfolding compensate drop_pond may_remain
compensate-IsGone carries_out id name owner cause r e h = inl (drop_pond-gone id r)
compensate-IsGone fails id name owner cause r e h =
    inr (refl, sym (ap may_remain (err_injective h)))

module _ (to_lowercase : Text → Text) (materializer : Option Materializer)
    (meanwhile : Meanwhile) where
  materialized-IsGone :
      (pond : PondRow) (endpoint : String) (r : Registry)
      → IsGone pond.pond_id meanwhile.undo
          (materialized to_lowercase materializer meanwhile pond endpoint r)
  unfolding materialized compensate
  materialized-IsGone pond endpoint r e h = elim (Option-cases materializer) [
    | inl none_eq ↦ absurd (cc (rw (none_eq, materialized) at h))
    | inr (m, some_eq) ↦ elim (result_cases (m endpoint pond.pond_id)) [
      | inl (u, fine) ↦ absurd (cc (rw (some_eq, materialized, fine) at h))
      | inr (cause, bad) ↦
          rw (some_eq, materialized, bad)
            (compensate-IsGone meanwhile.undo pond.pond_id pond.name endpoint (node_said cause) _ e
              (rw (some_eq, materialized, bad) at h))
    ]
  ]

  located_pond-IsGone :
      (pond : PondRow) (r : Registry)
      → IsGone pond.pond_id meanwhile.undo (located_pond to_lowercase materializer meanwhile pond r)
  unfolding located_pond compensate
  located_pond-IsGone pond r e h = elim (result_cases (get_pond_location pond.pond_id r).0) [
    | inl (where_, found) ↦
        rw (found, located_pond)
          (materialized-IsGone pond where_.1 r e (rw (found, located_pond) at h))
    | inr (why, lost) ↦
        rw (lost, located_pond)
          (compensate-IsGone meanwhile.undo pond.pond_id pond.name pond.node_id unlocated r e
            (rw (lost, located_pond) at h))
  ]

  answered-IsGone :
      (id : String) (result : Result ControlPlaneError PondRow × Registry)
      → ((e : ControlPlaneError) → result.0 ≡ err e → any (refers id) result.1.ponds ≡ false)
      → ((row : PondRow) → result.0 ≡ ok row → row.pond_id ≡ id)
      → IsGone id meanwhile.undo (answered to_lowercase materializer meanwhile result)
  unfolding answered
  answered-IsGone id (err why, s) refused made e h = inl (refused why refl)
  answered-IsGone id (ok row, s) refused made e h =
      subst
        (λ i.
          let left =
            (located_pond to_lowercase materializer meanwhile row
              (run to_lowercase meanwhile.placed s)).1.ponds in
          any (refers i) left ≡ false ⊎ (meanwhile.undo ≡ fails) × (may_remain e ≡ true))
        (made row refl) (located_pond-IsGone row _ e h)

  -- If the drawn id is neither a pond's id nor a pond's name, then, whatever the other calls did in between, an
  -- allocation that fails leaves no row that answers to it, or the database has failed to delete the row and the
  -- error says that the placement could not be rolled back.
  pub create_pond_assignment-IsGone :
      (draw : Draw) (req : Request) (r : Registry)
      → any (refers draw.pond_id) r.ponds ≡ false
      → (e : ControlPlaneError)
      → (create_pond_assignment to_lowercase materializer meanwhile draw req r).0 ≡ err e
      → any
            (refers draw.pond_id)
            (create_pond_assignment to_lowercase materializer meanwhile draw req r).1.ponds
          ≡ false
        ⊎ (meanwhile.undo ≡ fails) × (may_remain e ≡ true)
  unfolding create_pond_assignment new_row
  create_pond_assignment-IsGone draw req r free =
      elim (create_pond_lem to_lowercase draw (new_pond req) r) [
        | inl (why, refused) ↦
            answered-IsGone draw.pond_id _ (λ e h. rw refused free) (λ row h. absurd (cc))
        | inr c ↦
            answered-IsGone draw.pond_id _ (λ e h. absurd (cc (c.result_eq)))
              (λ row h.
                ap (λ x. x.pond_id)
                  (ok_injective (
                    sym h
                    ∙ ap (λ (x : Result ControlPlaneError PondRow × Registry). x.0) c.result_eq)))
      ]
