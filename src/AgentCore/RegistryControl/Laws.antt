-- ===== src/AgentCore/RegistryControl/Laws.antt =====
-- The registry in the same process: what its requests leave.
use latiq.Prelude.{
  result_cases, String, Bool, true, false, List, [], ◌∷◌, ◌++◌, Option, eq_iff, ◌≡◌, refl, sym, ap,
  ◌∙◌, inl, inr, ◌⊎◌, arith, any, Result, ok, err, Bool-cases,
}
use latiq.Prelude.Text.{Text}
use latiq.ControlPlane.Registry.{
  Registry, ControlPlaneError, duckdb, pond_not_found, >>=-ok, >>=-err, delete_where,
}
use latiq.ControlPlane.Registry.Ponds.{
  Draw, NewPond, PondRow, Database, carries_out, fails, create_pond, drop_pond, pond_info, refers,
  new_row, new_record, name_or,
}
use latiq.ControlPlane.Registry.Ponds.Laws.{create_pond_lem}
use latiq.ControlPlane.Registry.Search.{list_ponds}
use latiq.ControlPlane.Registry.Tables.{find_of_not_any, find_of_any, any-snoc, any-delete_where}
use latiq.AgentCore.Control.{PondInfo, AgentError, from_control, ControlPlane}
use latiq.AgentCore.RegistryControl.{map_cp_err, info_of, details, created, registry_control}

info_of-reads : (ref : String) (r : Registry) → (info_of ref r).1 ≡ r
unfolding info_of pond_info
info_of-reads ref r = ground arith

info_of-missing :
    (ref : String) (r : Registry)
    → any (refers ref) r.ponds ≡ false
    → info_of ref r ≡ (err (pond_not_found ref), r)
unfolding info_of pond_info
info_of-missing ref r h = ground (arith, find_of_not_any (refers ref) r.ponds h)

map_cp_err-state :
    (E : Type 0) {A : Type 0} (x : Result ControlPlaneError A × Registry)
    → (map_cp_err {E = E} x).1 ≡ x.1
map_cp_err-state E (ok a, r) = refl
map_cp_err-state E (err e, r) = refl

-- A drop finds a row, and takes away what it refers to, or changes nothing.
drop_pond_cases :
    (db : Database) (id : String) (r : Registry)
    → (drop_pond db id r ≡ (ok tt, record r { ponds = delete_where (refers id) r.ponds }))
      ⊎ ((e : ControlPlaneError) × (drop_pond db id r ≡ (err e, r)))
unfolding drop_pond
drop_pond_cases fails id r = inr (duckdb, refl)
drop_pond_cases carries_out id r = elim (Bool-cases (any (refers id) r.ponds)) [
  | inl e ↦ inl (rw e refl)
  | inr e ↦ inr (pond_not_found id, rw e refl)
]

details-reads : (rows : List PondRow) (r : Registry) → (details rows r).1 ≡ r
unfolding details
details-reads [] r = refl
details-reads (row ∷ rows) r = ground (arith, details-reads rows r)

info_of_found :
    (ref : String) (r : Registry)
    → any (refers ref) r.ponds ≡ true
    → (info : PondInfo) × ((info_of ref r).0 ≡ ok info)
unfolding info_of pond_info
info_of_found ref r h = elim (result_cases (info_of ref r).0) [
  | inl found ↦ found
  | inr (e, missing) ↦
      let (p, found, same) = find_of_any (refers ref) r.ponds h in absurd (ground arith)
]

-- A creation that fails was refused; the row of one that was not is found again.
created_undone :
    (to_lowercase : Text → Text) (draw : Draw) (new : NewPond) (r r' : Registry)
    (e : ControlPlaneError)
    → created to_lowercase draw new r ≡ (err e, r')
    → r' ≡ r
unfolding created new_row new_record
created_undone low draw new r r' e h = elim (create_pond_lem low draw new r) [
  | inl (why, refused) ↦
      ap (λ x. x.1)
        (sym h ∙ >>=-err (create_pond low draw new) (λ row. info_of row.pond_id) why refused)
  | inr c ↦
      let name = name_or draw.pond_id new.name in
      let made = new_record draw.pond_id draw.now name new c.tier c.node in
      let s : Registry = record r { ponds = r.ponds ++ made ∷ [] } in
      let (info, found) = info_of_found draw.pond_id s (
        any-snoc (refers draw.pond_id) r.ponds made
          (ground (arith, eq_iff draw.pond_id draw.pond_id))) in
      let answer =
        sym h
        ∙ >>=-ok (create_pond low draw new) (λ row. info_of row.pond_id)
            (new_row draw.pond_id name new c.tier c.node) c.result_eq in
      absurd (cc (found, ap (λ x. x.0) answer))
]

-- Each request takes effect as a whole or not at all, and what was dropped is not found.
pub record IsAtomic {S E : Type 0} (c : ControlPlane S E) : Type 0 where
  pub reads : (ref : String) (s : S) → (c.pond_info ref s).1 ≡ s
  pub lists : (s : S) → (c.list_ponds s).1 ≡ s
  pub uncreated :
      (name : Option String) (owner policy_json tier : String) (extensions : List Text)
      (lineage : Bool) (s s' : S) (e : AgentError E)
      → c.create_pond name owner policy_json tier extensions lineage s ≡ (err e, s')
      → s' ≡ s
  pub undone : (id : String) (s s' : S) (e : AgentError E) → c.drop_pond id s ≡ (err e, s') → s' ≡ s
  pub gone :
      (id : String) (s s' : S)
      → c.drop_pond id s ≡ (ok tt, s')
      → (e : AgentError E) × ((c.pond_info id s').0 ≡ err e)

module _ {E : Type 0} (to_lowercase : Text → Text) (draw : Draw) (db : Database) where
  drop_undone :
      (id : String) (s s' : Registry) (e : AgentError E)
      → map_cp_err (drop_pond db id s) ≡ (err e, s')
      → s' ≡ s
  drop_undone id s s' e h = elim (drop_pond_cases db id s) [
    | inl q ↦ absurd (cc (sym (ap map_cp_err q) ∙ h))
    | inr (x, q) ↦ ap (λ x. x.1) (sym h ∙ ap map_cp_err q)
  ]

  drop_gone :
      (id : String) (s s' : Registry)
      → map_cp_err {E = E} (drop_pond db id s) ≡ (ok tt, s')
      → (map_cp_err {E = E} (info_of id s')).0 ≡ err (from_control (pond_not_found id))
  drop_gone id s s' h = elim (drop_pond_cases db id s) [
    | inl q ↦
        let left : record s { ponds = delete_where (refers id) s.ponds } ≡ s' =
          ap (λ x. x.1) (sym (ap (map_cp_err {E = E}) q) ∙ h) in
        ap (λ x. (map_cp_err {E = E} x).0)
          (info_of-missing id s'
            (ap (λ r. any (refers id) r.ponds) (sym left) ∙ any-delete_where (refers id) s.ponds))
    | inr (x, q) ↦ absurd (cc (ap (map_cp_err {E = E}) q, h))
  ]

  map_cp_err-err :
      {A : Type 0} (x : Result ControlPlaneError A × Registry) (e : AgentError E) (s : Registry)
      → map_cp_err x ≡ (err e, s)
      → (why : ControlPlaneError) × (x ≡ (err why, s))
  map_cp_err-err (ok a, r) e s h = absurd (cc h)
  map_cp_err-err (err why, r) e s h = (why, ap (λ r. (err why, r)) (ap (λ x. x.1) h))

  -- The registry in the same process: a lookup and a listing change nothing, a creation or a drop that
  -- fails changes nothing, and after a drop that succeeds a lookup of that id fails.
  pub registry_control-IsAtomic : IsAtomic (registry_control to_lowercase {E = E} draw db)
  unfolding registry_control list_ponds
  registry_control-IsAtomic = record {
    reads = λ ref s. map_cp_err-state E (info_of ref s) ∙ info_of-reads ref s;
    lists = λ s. map_cp_err-state E (details _ s) ∙ details-reads _ s;
    uncreated = λ name owner policy_json tier extensions lineage s s' e h.
        let (why, failed) = map_cp_err-err _ e s' h in
        created_undone to_lowercase draw _ s s' why failed;
    undone = drop_undone;
    gone = λ id s s' h. (from_control (pond_not_found id), drop_gone id s s' h);
  }
