-- ===== src/ControlPlane/Registry/Lifecycle.antt =====
-- What a pond's creation, lookup, drop and forgetting promise to one another.
use mathlib.Core.List.{Memᴰ}
use mathlib.Core.Path.{subst}
use text.Mathlib.TextPositions.{eq_refl}
use latiq.Prelude.{
  ℕ, String, true, false, ◌≡◌, ◌≢◌, refl, sym, ap, ◌∙◌, inl, inr, List, [], ◌∷◌, All, any-of-Memᴰ,
  Option, none, some, arith, eq_iff, ◌==◌, string_eq, any, find, ok, Bool-cases, Option-cases,
}
use latiq.Prelude.Text.{Text}
use latiq.Common.Tier.{PondTier}
use latiq.ControlPlane.Registry.{NodeRecord, PondRecord, Registry, delete_where}
use latiq.Common.Extensions.Laws.{IsName, parse_csv-join}
use latiq.ControlPlane.Registry.Nodes.Laws.{IsFresh, reap_stale_nodes-IsFresh}
use latiq.ControlPlane.Registry.Nodes.{reap_stale_nodes, has_node_id}
use latiq.ControlPlane.Registry.Ponds.{
  NewPond, Draw, PondRow, create_pond, drop_pond, Database, fails, carries_out, forget_pond,
  pond_info, endpoint_of, pond_row, new_record, new_row, has_id, named, refers, is_served, name_or,
}
use latiq.ControlPlane.Registry.Ponds.Laws.{create_pond-ok}
use latiq.ControlPlane.Registry.Invariant.{Inv, same_id, IsHosted}
use latiq.ControlPlane.Registry.Tables.{
  Memᴰ-append_left, find-snoc, any-snoc, any-delete_where, Memᴰ-delete_where, All-of-Memᴰ,
  Memᴰ-find, eq_of_same, find_of_any,
}

beq_comm : (s t : String) → (s == t) ≡ (t == s)
beq_comm s t = ground (arith, eq_iff s t, eq_iff t s)

-- After a drop nothing answers to the reference.
pub drop_pond-gone :
    (db : Database) (ref : String) (r s : Registry)
    → drop_pond db ref r ≡ (ok tt, s)
    → any (refers ref) s.ponds ≡ false
unfolding drop_pond
drop_pond-gone fails ref r s h = absurd (cc h)
drop_pond-gone carries_out ref r s h = elim (Bool-cases (any (refers ref) r.ponds)) [
  | inl e ↦
      let done : s.ponds ≡ delete_where (refers ref) r.ponds = ground arith in
      rw done (any-delete_where (refers ref) r.ponds)
  | inr e ↦ absurd (ground arith)
]

-- Dropping by a reference keeps every pond that has neither that id nor that name, whether it succeeds or
-- fails.
pub drop_pond-keeps_others :
    (db : Database) (ref : String) (p : PondRecord) (r : Registry)
    → Memᴰ p r.ponds
    → p.pond_id ≢ ref
    → p.name ≢ ref
    → Memᴰ p (drop_pond db ref r).1.ponds
unfolding drop_pond
drop_pond-keeps_others fails ref p r m a b = m
drop_pond-keeps_others carries_out ref p r m a b = elim (Bool-cases (any (refers ref) r.ponds)) [
  | inl e ↦ rw e (
      Memᴰ-delete_where (refers ref) r.ponds p m
        (ground (arith, eq_iff p.pond_id ref, eq_iff p.name ref)))
  | inr e ↦ rw e m
]

any-refers :
    (ref : String) (xs : List PondRecord)
    → any (refers ref) xs ≡ false
    → (any (has_id ref) xs ≡ false) × (any (named ref) xs ≡ false)
unfolding any
any-refers ref [] h = (refl, refl)
any-refers ref (x ∷ xs) h = ground (arith, any-refers ref xs)

-- A row makes each test that it passes find something.
pub drop_pond-Memᴰ :
    (p : PondRecord) (r : Registry)
    → Memᴰ p r.ponds
    → (s : Registry) × (drop_pond carries_out p.pond_id r ≡ (ok tt, s))
unfolding drop_pond
drop_pond-Memᴰ p r m =
    let found : any (refers p.pond_id) r.ponds ≡ true =
      any-of-Memᴰ (refers p.pond_id) r.ponds p m (ground (arith, eq_iff p.pond_id p.pond_id)) in
    (record r { ponds = delete_where (refers p.pond_id) r.ponds }, rw found refl)

-- A pond can be created under another pond's id as its name, and then dropping the other pond by
-- its id, if the database carries that out, deletes both rows.
pub drop_pond_takes_namesake :
    (to_lowercase : Text → Text) (draw : Draw) (new : NewPond) (p : PondRecord) (row : PondRow)
    (r r' : Registry)
    → Memᴰ p r.ponds
    → new.name ≡ some p.pond_id
    → create_pond to_lowercase draw new r ≡ (ok row, r')
    → (s : Registry) × (drop_pond carries_out p.pond_id r' ≡ (ok tt, s))
      × (any (has_id p.pond_id) r'.ponds ≡ true)
      × (any (named row.name) r'.ponds ≡ true)
      × (row.pond_id ≢ p.pond_id)
      × (any (has_id p.pond_id) s.ponds ≡ false)
      × (any (named row.name) s.ponds ≡ false)
unfolding new_record new_row
drop_pond_takes_namesake lower draw new p row r r' m e h =
    let (c, row_eq, nodes_eq, ponds_eq) = create_pond-ok lower draw new r r' row h in
    let called : row.name ≡ p.pond_id = ap (λ x. x.name) row_eq ∙ ap (name_or draw.pond_id) e in
    let id_eq : row.pond_id ≡ draw.pond_id = ap (λ x. x.pond_id) row_eq in
    let there : Memᴰ p r'.ponds = rw ponds_eq (Memᴰ-append_left p r.ponds _ m) in
    let found = any-of-Memᴰ (has_id p.pond_id) r'.ponds p there (eq_refl p.pond_id) in
    let added : any (named row.name) r'.ponds ≡ true = rw ponds_eq (
      any-snoc (named row.name) r.ponds _
        ((eq_iff _ row.name).1 (sym (ap (λ x. x.name) row_eq)))) in
    let (s, dropped) = drop_pond-Memᴰ p r' there in
    let gone = drop_pond-gone carries_out p.pond_id r' s dropped in
    let (no_id, no_name) = any-refers p.pond_id s.ponds gone in
    let other : row.pond_id ≢ p.pond_id = λ same. cc (
      c.free_id,
      any-of-Memᴰ (has_id draw.pond_id) r.ponds p m ((eq_iff _ _).1 (sym same ∙ id_eq)),
    ) in
    (
      s,
      dropped,
      found,
      added,
      other,
      no_id,
      subst (λ n. any (named n) s.ponds ≡ false) (sym called) no_name,
    )

-- `forget_pond` never removes the row of a pond that a live node serves: an active one that has an
-- endpoint. So where pond ids are unique, every row that it takes away is one that no node serves.
pub forget_pond-keeps_served :
    (ref : String) (p : PondRecord) (r : Registry)
    → Inv r
    → Memᴰ p r.ponds
    → is_served (find (has_node_id p.node_id) r.nodes) ≡ true
    → Memᴰ p (forget_pond ref r).1.ponds
unfolding forget_pond
forget_pond-keeps_served ref p r v m live = elim (Option-cases (find (refers ref) r.ponds)) [
  | inl e ↦ rw (e, forget_pond) m
  | inr (q, e) ↦ elim (Bool-cases (is_served (find (has_node_id q.node_id) r.nodes))) [
    | inl served ↦ rw (e, forget_pond, served) m
    | inr free ↦
        let (there, hit) = Memᴰ-find (refers ref) r.ponds q e in
        let apart : has_id q.pond_id p ≡ false = elim (Bool-cases (has_id q.pond_id p)) [
          | inl same ↦
              let eq : p ≡ q =
                eq_of_same same_id r.ponds p q v.pond_ids (λ x y. beq_comm x.pond_id y.pond_id) m
                  there same in
              absurd (cc (ap (λ x. is_served (find (has_node_id x.node_id) r.nodes)) eq))
          | inr other ↦ other
        ] in
        rw (e, forget_pond, free) (Memᴰ-delete_where (has_id q.pond_id) r.ponds p m apart)
  ]
]

-- Through the registry's own methods no pond loses its node: a lookup of a pond always reports its
-- node's endpoint, and no pond is ever forgotten as one of an unregistered node.
pub pond_info-has_endpoint :
    (ref : String) (r : Registry) (row : PondRow) (created : ℕ) (policy : String)
    (endpoint : Option String)
    → Inv r
    → (pond_info ref r).0 ≡ ok (row, created, policy, endpoint)
    → endpoint ≢ none
unfolding pond_info
pond_info-has_endpoint ref r row created policy endpoint v h none_eq =
    elim (Option-cases (find (refers ref) r.ponds)) [
      | inl e ↦ cc (rw (e, pond_info) at h)
      | inr (p, e) ↦
          let (there, hit) = Memᴰ-find (refers ref) r.ponds p e in
          let hosted = All-of-Memᴰ (IsHosted r.nodes) r.ponds p v.hosted there in
          let (n, found, same) = find_of_any (has_node_id p.node_id) r.nodes hosted in
          ground (arith)
    ]

-- After a run of the reaper, a pond is only ever placed on a registered node whose last heartbeat is at
-- most `ttl` seconds old.
pub create_pond-IsFresh :
    (to_lowercase : Text → Text) (draw : Draw) (new : NewPond) (ttl now : ℕ) (r s : Registry)
    (row : PondRow)
    → create_pond to_lowercase draw new (reap_stale_nodes ttl now r).1 ≡ (ok row, s)
    → (n : NodeRecord) × Memᴰ n (reap_stale_nodes ttl now r).1.nodes
      × (row.node_id ≡ n.node_id)
      × IsFresh ttl now n
unfolding new_row
create_pond-IsFresh lower draw new ttl now r s row h =
    let (c, row_eq, _, _) = create_pond-ok lower draw new _ s row h in
    (
      c.node,
      c.listed,
      ap (λ x. x.node_id) row_eq,
      reap_stale_nodes-IsFresh ttl now r c.node c.listed c.is_up,
    )

pond_row-new_record :
    (id name : String) (now : ℕ) (new : NewPond) (tier : PondTier) (node : NodeRecord)
    → All IsName new.extensions
    → pond_row (new_record id now name new tier node) ≡ new_row id name new tier node
unfolding pond_row new_record new_row
pond_row-new_record id name now new tier node h = rw (parse_csv-join new.extensions h)

-- A row that `create_pond` writes is found again under its new id, as it was returned, if no other pond bears
-- that id as its name and the extensions are names that the stored form can hold.
pub pond_info-create_pond :
    (to_lowercase : Text → Text) (draw : Draw) (new : NewPond) (r s : Registry) (row : PondRow)
    → any (refers draw.pond_id) r.ponds ≡ false
    → All IsName new.extensions
    → create_pond to_lowercase draw new r ≡ (ok row, s)
    → (endpoint : Option String) × ((pond_info row.pond_id s).0
        ≡ ok (row, draw.now, new.policy_json, endpoint))
unfolding pond_info new_record new_row
pond_info-create_pond lower draw new r s row free names h =
    let (c, row_eq, _, ponds_eq) = create_pond-ok lower draw new r s row h in
    let name = name_or draw.pond_id new.name in
    let made = new_record draw.pond_id draw.now name new c.tier c.node in
    let same_row : pond_row made ≡ row =
      pond_row-new_record draw.pond_id name draw.now new c.tier c.node names ∙ sym row_eq in
    let found : find (refers row.pond_id) s.ponds ≡ some made =
      ap (λ i. find (refers i) s.ponds) (ap (λ x. x.pond_id) row_eq)
      ∙ ap (find (refers draw.pond_id)) ponds_eq
      ∙ find-snoc (refers draw.pond_id) r.ponds made free
          (ground (arith, eq_iff draw.pond_id draw.pond_id)) in
    let endpoint = endpoint_of (find (has_node_id made.node_id) s.nodes) in
    (
      endpoint,
      rw (found, pond_info) (ap (λ x. ok (x, draw.now, new.policy_json, endpoint)) same_row),
    )
