-- ===== src/ControlPlane/Registry/Ponds/Total.antt =====
-- When `create_pond` succeeds.
use latiq.Prelude.{
  ℕ, String, true, false, ◌≡◌, ◌≢◌, refl, ◌∙◌, [], ◌∷◌, ◌++◌, Option, none, some, arith, any, ok,
}
use latiq.Prelude.Text.{Text, codes}
use latiq.Common.Tier.{PondTier, uncapped, parse_for_create}
use latiq.ControlPlane.Registry.{NodeRecord, Registry}
use latiq.ControlPlane.Registry.Ponds.{
  NewPond, Draw, PondRow, create_pond, place, new_record, new_row, name_or, check_name,
  is_placeable, is_uncapped, pick_active, named, has_id,
}
use latiq.ControlPlane.Registry.Ponds.Laws.{IsLegal, create_pond-place, pick_active-total}

check_name-ok :
    (name : Option String) (r : Registry) → IsLegal name → check_name name r ≡ (ok tt, r)
unfolding check_name
check_name-ok none r legal = refl
check_name-ok (some n) r legal = rw legal refl

of_capped : (t : PondTier) → t ≢ uncapped → is_uncapped t ≡ false
of_capped uncapped h = absurd (h refl)
of_capped _ h = refl

placed :
    (id : String) (roll now : ℕ) (name : String) (new : NewPond) (tier : PondTier)
    (node : NodeRecord) (r : Registry)
    → pick_active roll r.nodes ≡ some node
    → any (named name) r.ponds ≡ false
    → any (has_id id) r.ponds ≡ false
    → place id roll now name new tier r ≡ (
      ok (new_row id name new tier node),
      record r { ponds = r.ponds ++ new_record id now name new tier node ∷ [] },
    )
unfolding place
placed id roll now name new tier node r picked free fresh = ground arith

-- `create_pond` succeeds whenever it should: with a capped tier, no name or a legal one that is free, a
-- fresh id and an active node.
pub create_pond-total :
    (to_lowercase : Text → Text) (draw : Draw) (new : NewPond) (tier : PondTier) (r : Registry)
    → parse_for_create to_lowercase (codes new.tier) ≡ ok tier
    → tier ≢ uncapped
    → IsLegal new.name
    → any (named (name_or draw.pond_id new.name)) r.ponds ≡ false
    → any (has_id draw.pond_id) r.ponds ≡ false
    → any is_placeable r.nodes ≡ true
    → (row : PondRow) × (s : Registry) × (create_pond to_lowercase draw new r ≡ (ok row, s))
create_pond-total lower draw new tier r e capped legal free fresh up =
    let (node, picked) = pick_active-total draw.roll r.nodes up in
    (
      _,
      _,
      create_pond-place lower draw new r tier e (of_capped tier capped)
            (check_name-ok new.name r legal)
          ∙ placed draw.pond_id draw.roll draw.now _ new tier node r picked free fresh,
    )
