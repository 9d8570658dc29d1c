-- ===== src/Storage/LocalFs/Tests.antt =====
-- Storage on a disk with one pond.
use latiq.Prelude.{Bool, ◌⊎◌, ◌≢◌, true, false, ◌≡◌, refl, [], ◌∷◌, any, ok, err}
use latiq.Prelude.Text.{Text, codes}
use latiq.Storage.LocalFs.{
  Disk, PondDir, made, nothing_made, parents_made, is_dir_of, location_for, create_pond,
  ensure_pond, already_exists,
}
use latiq.Storage.LocalFs.Laws.{IsReady, ensure_pond-ok}
use latiq.Storage.LocalFs.HalfMade.{has_data_dir, ensure_all, ensure_pond-half_made}

abbrev root : Text
root = codes "/p"

abbrev pub disk : Disk
disk = record { pond_id = "u1"; has_data = true; has_lineage = false } ∷ []

ensure_pond-ok_example :
    IsReady root "u1" true (location_for root "u1") (ensure_pond root "u1" true made made disk).1
unfolding ensure_pond any
ensure_pond-ok_example = ensure_pond-ok root "u1" true made made disk (location_for root "u1") refl

abbrev left : Disk
left =
    ensure_all root "u2" ((true, made, nothing_made (codes "disk full")) ∷ (true, made, made) ∷ [])
      (ensure_pond root "u2" true (parents_made (codes "disk full")) made disk).1

ensure_pond-half_made_example :
    (any (has_data_dir "u2") left ≡ false)
    × ((ensure_pond root "u2" true made made left).0 ≡ ok (location_for root "u2")
        ⊎ ◌≡◌ {A = Bool} true true × made ≢ made)
    × ((create_pond root "u2" true made made left).0 ≡ err (already_exists "u2"))
unfolding latiq.Storage.LocalFs.pond_exists any
ensure_pond-half_made_example =
    ensure_pond-half_made root "u2" (codes "disk full") true made
      ((true, made, nothing_made (codes "disk full")) ∷ (true, made, made) ∷ []) true made made disk
      refl
