-- ===== src/ControlPlane/Registry/Ponds/Laws.antt =====
-- What `create_pond` has checked when it writes a row, and the node that it picks.
use mathlib.Core.List.{Memᴰ}
use latiq.Prelude.{
  ok_injective, ℕ, zero, suc, ◌<◌, String, Bool, true, false, ◌≡◌, ◌≢◌, refl, sym, ap, ◌∙◌, ◌⊎◌,
  inl, inr, List, [], ◌∷◌, ◌++◌, Option, none, some, arith, any, keep, get_elem?, length, ok, err,
  Result, Bool-cases, Option-cases,
}
use latiq.Prelude.Text.{Text, codes}
use latiq.Common.Tier.{PondTier, uncapped, parse_for_create}
use latiq.Common.PondName
use latiq.ControlPlane.Registry.{
  Op, >>=-ok, >>=-err, NodeRecord, active, name_conflict, no_node_available, duckdb, invalid,
  bad_name, unknown_tier, operator_only_tier, Registry, ControlPlaneError,
}
use latiq.ControlPlane.Registry.Ponds.{
  NewPond, Draw, PondRow, create_pond, place, new_record, new_row, name_or, check_name,
  is_placeable, is_uncapped, pick_active, named, has_id,
}

module _ {ℓ} {A : Type ℓ} where
  Memᴰ-get_elem? : (xs : List A) (i : ℕ) (a : A) → get_elem? xs i ≡ some a → Memᴰ a xs
  Memᴰ-get_elem? [] i a h = cc
  Memᴰ-get_elem? (x ∷ xs) zero a h = Memᴰ.head (cc)
  Memᴰ-get_elem? (x ∷ xs) (suc i) a h = Memᴰ.tail (Memᴰ-get_elem? xs i a h)

  get_elem?-total : (xs : List A) (i : ℕ) → i < length xs → (a : A) × (get_elem? xs i ≡ some a)
  get_elem?-total [] i h = elim h [ ]
  get_elem?-total (x ∷ xs) zero h = (x, refl)
  get_elem?-total (x ∷ xs) (suc i) h = get_elem?-total xs i (omega arith)

  Memᴰ-keep_cons :
      (p : A → Bool) (x : A) (xs ys : List A) (a : A)
      → p x ≡ true
      → (Memᴰ a ys → Memᴰ a xs × (p a ≡ true))
      → Memᴰ a (x ∷ ys)
      → Memᴰ a (x ∷ xs) × (p a ≡ true)
  Memᴰ-keep_cons p x xs ys a e later (Memᴰ.head same) = (Memᴰ.head same, ap p same ∙ e)
  Memᴰ-keep_cons p x xs ys a e later (Memᴰ.tail m) =
      let (there, holds) = later m in (Memᴰ.tail there, holds)

  Memᴰ-keep : (p : A → Bool) (xs : List A) (a : A) → Memᴰ a (keep p xs) → Memᴰ a xs × (p a ≡ true)
  unfolding keep
  Memᴰ-keep p [] a m = elim m [ ]
  Memᴰ-keep p (x ∷ xs) a m = elim (Bool-cases (p x)) [
    | inl e ↦ Memᴰ-keep_cons p x xs (keep p xs) a e (Memᴰ-keep p xs a) (rw (e, keep) at m)
    | inr e ↦ let (later, holds) = Memᴰ-keep p xs a (rw (e, keep) at m) in (Memᴰ.tail later, holds)
  ]

  length-keep : (p : A → Bool) (xs : List A) → any p xs ≡ true → 0 < length (keep p xs)
  unfolding any keep
  length-keep p [] h = cc
  length-keep p (x ∷ xs) h = ground (arith, length-keep p xs)

active_of_is_active : (n : NodeRecord) → is_placeable n ≡ true → n.state ≡ active
active_of_is_active n h = ground arith

-- The node that is picked is registered and active.
pub pick_active-IsActive :
    (roll : ℕ) (nodes : List NodeRecord) (n : NodeRecord)
    → pick_active roll nodes ≡ some n
    → Memᴰ n nodes × (n.state ≡ active)
unfolding pick_active
pick_active-IsActive roll nodes n h =
    let (there, open_) =
      Memᴰ-keep is_placeable nodes n (Memᴰ-get_elem? (keep is_placeable nodes) _ n h) in
    (there, active_of_is_active n open_)

-- Whatever the random number, a node is picked when any is active.
pub pick_active-total :
    (roll : ℕ) (nodes : List NodeRecord)
    → any is_placeable nodes ≡ true
    → (n : NodeRecord) × (pick_active roll nodes ≡ some n)
unfolding pick_active
pick_active-total roll nodes h =
    get_elem?-total (keep is_placeable nodes) _ (omega (arith, length-keep is_placeable nodes h))

-- No name is asked for, or one that is allowed.
abbrev pub IsLegal : Option String → Type 0
IsLegal none = Unit {0}
IsLegal (some name) = PondName.validate (codes name) ≡ ok tt

-- What holds when `create_pond` writes a row, and all that it changes.
pub record IsCreated (to_lowercase : Text → Text) (draw : Draw) (new : NewPond) (r : Registry)
    (result : Result ControlPlaneError PondRow × Registry) : Type 0 where
  pub node : NodeRecord
  pub tier : PondTier
  pub listed : Memᴰ node r.nodes
  pub is_up : node.state ≡ active
  pub asked : parse_for_create to_lowercase (codes new.tier) ≡ ok tier
  pub capped : tier ≢ uncapped
  pub legal : IsLegal new.name
  pub free_name : any (named (name_or draw.pond_id new.name)) r.ponds ≡ false
  pub free_id : any (has_id draw.pond_id) r.ponds ≡ false
  pub result_eq : result ≡ (
    ok (new_row draw.pond_id (name_or draw.pond_id new.name) new tier node),
    record r {
      ponds =
          r.ponds
          ++ new_record draw.pond_id draw.now (name_or draw.pond_id new.name) new tier node ∷ [];
    },
  )

-- A refusal leaves the registry as it was.
abbrev pub IsRefused : Registry → Result ControlPlaneError PondRow × Registry → Type 0
IsRefused r result = (e : ControlPlaneError) × (result ≡ (err e, r))

place_lem :
    (id : String) (roll now : ℕ) (name : String) (new : NewPond) (tier : PondTier) (r : Registry)
    → IsRefused r (place id roll now name new tier r)
      ⊎ ((node : NodeRecord) × (pick_active roll r.nodes ≡ some node)
          × (any (named name) r.ponds ≡ false)
          × (any (has_id id) r.ponds ≡ false)
          × (place id roll now name new tier r ≡ (
            ok (new_row id name new tier node),
            record r { ponds = r.ponds ++ new_record id now name new tier node ∷ [] },
          )))
unfolding place
place_lem id roll now name new tier r = elim (Option-cases (pick_active roll r.nodes)) [
  | inl e ↦ inl (no_node_available, rw (e, place) refl)
  | inr (node, e) ↦ elim (Bool-cases (any (named name) r.ponds)) [
    | inl taken ↦ inl (name_conflict name, rw (e, place, taken) refl)
    | inr free ↦ elim (Bool-cases (any (has_id id) r.ponds)) [
      | inl clash ↦ inl (duckdb, ground arith)
      | inr fresh ↦ inr (node, e, free, fresh, ground arith)
    ]
  ]
]

check_name_cases :
    (name : Option String) (r : Registry)
    → ((e : ControlPlaneError) × (check_name name r ≡ (err e, r)))
      ⊎ ((check_name name r ≡ (ok tt, r)) × IsLegal name)
unfolding check_name
check_name_cases none r = inr (refl, tt)
check_name_cases (some name) r = go (PondName.validate (codes name)) refl
  where
    go :
        (v : Result PondName.NameError (Unit {0}))
        → PondName.validate (codes name) ≡ v
        → ((e : ControlPlaneError) × (check_name (some name) r ≡ (err e, r)))
          ⊎ ((check_name (some name) r ≡ (ok tt, r)) × IsLegal (some name))
    go (ok done) e = inr (rw (e, check_name) refl, e)
    go (err why) e = inl (invalid (bad_name why), rw (e, check_name) refl)

tier_cases : (v : Result Text PondTier) → ((t : Text) × (v ≡ err t)) ⊎ ((t : PondTier) × (v ≡ ok t))
tier_cases (ok t) = inr (t, refl)
tier_cases (err t) = inl (t, refl)

module _ (to_lowercase : Text → Text) (draw : Draw) (new : NewPond) (r : Registry) where
  abbrev given : Result Text PondTier
  given = parse_for_create to_lowercase (codes new.tier)

  abbrev placing : PondTier → Unit {0} → Op PondRow
  placing tier _ = place draw.pond_id draw.roll draw.now (name_or draw.pond_id new.name) new tier

  -- Past the checks of the tier and of the name.
  pub create_pond-place :
      (tier : PondTier)
      → given ≡ ok tier
      → is_uncapped tier ≡ false
      → check_name new.name r ≡ (ok tt, r)
      → create_pond to_lowercase draw new r
        ≡ place draw.pond_id draw.roll draw.now (name_or draw.pond_id new.name) new tier r
  unfolding create_pond
  create_pond-place tier e capped legal =
      rw (e, capped) (>>=-ok (check_name new.name) (placing tier) tt legal)

  ne_uncapped : (t : PondTier) → is_uncapped t ≡ false → t ≢ uncapped
  ne_uncapped t h e = cc (ap is_uncapped e)

  -- `create_pond` either leaves the registry as it was and returns an error, or has checked
  -- everything that `IsCreated` lists and appends one row.
  pub create_pond_lem :
      IsRefused r (create_pond to_lowercase draw new r)
      ⊎ IsCreated to_lowercase draw new r (create_pond to_lowercase draw new r)
  unfolding create_pond
  create_pond_lem = elim (tier_cases given) [
    | inl (t, e) ↦ inl (invalid (unknown_tier t), rw e refl)
    | inr (tier, e) ↦ elim (Bool-cases (is_uncapped tier)) [
      | inl over ↦ inl (invalid operator_only_tier, rw (e, over) refl)
      | inr capped ↦ elim (check_name_cases new.name r) [
        | inl (why, bad) ↦
            inl (why, rw (e, capped) (>>=-err (check_name new.name) (placing tier) why bad))
        | inr (fine, legal) ↦
            elim (place_lem draw.pond_id draw.roll draw.now (name_or draw.pond_id new.name) new tier
              r) [
                | inl (why, refused) ↦ inl (why, create_pond-place tier e capped fine ∙ refused)
                | inr (node, picked, free_name, free_id, done) ↦
                    let (listed, is_up) = pick_active-IsActive draw.roll r.nodes node picked in
                    inr (record {
                      node = node;
                      tier = tier;
                      listed = listed;
                      is_up = is_up;
                      asked = e;
                      capped = ne_uncapped tier capped;
                      legal = legal;
                      free_name = free_name;
                      free_id = free_id;
                      result_eq = create_pond-place tier e capped fine ∙ done;
                    })
              ]
      ]
    ]
  ]

-- The same, for a call that is known to succeed.
pub create_pond-ok :
    (to_lowercase : Text → Text) (draw : Draw) (new : NewPond) (r s : Registry) (row : PondRow)
    → create_pond to_lowercase draw new r ≡ (ok row, s)
    → (c : IsCreated to_lowercase draw new r (create_pond to_lowercase draw new r)) × (row
        ≡ new_row draw.pond_id (name_or draw.pond_id new.name) new c.tier c.node)
      × (s.nodes ≡ r.nodes)
      × (s.ponds
          ≡ r.ponds
            ++ new_record draw.pond_id draw.now (name_or draw.pond_id new.name) new c.tier c.node
              ∷ [])
create_pond-ok lower draw new r s row h = elim (create_pond_lem lower draw new r) [
  | inl (why, e) ↦ absurd (cc)
  | inr c ↦
      let both = sym h ∙ c.result_eq in
      (
        c,
        ok_injective (ap (λ (x : Result ControlPlaneError PondRow × Registry). x.0) both),
        ap (λ (x : Result ControlPlaneError PondRow × Registry). x.1.nodes) both,
        ap (λ (x : Result ControlPlaneError PondRow × Registry). x.1.ponds) both,
      )
]
