-- ===== src/ControlPlane/Registry/Search/Tests.antt =====
-- Listings on small inputs, with patterns in which `%` stands for any characters and `_` for one.
use latiq.Prelude.{
  ℕ, String, Bool, true, false, ◌&&◌, ◌||◌, ◌≡◌, refl, List, [], ◌∷◌, map, Option, none, some, eqb,
  eqb_iff, ok, any, if◌then◌else◌,
}
use latiq.Prelude.Text.{Text, codes, ascii_lower}
use latiq.ControlPlane.Registry.{Registry}
use latiq.ControlPlane.Registry.Datasets.{DatasetRow}
use latiq.ControlPlane.Registry.Catalogs.{Params, CatalogRow, new_catalog}
use latiq.ControlPlane.Registry.Catalogs.Tests.{lake, empty}
use latiq.ControlPlane.Registry.Labels.{Labels}
use latiq.ControlPlane.Registry.Policy.{policy_set}
use latiq.ControlPlane.Registry.Search.{
  Others, search, dataset_texts, catalog_texts, list_datasets, list_catalogs,
}
use latiq.ControlPlane.Registry.Search.Laws.{after, list-search}

abbrev some_suffix : (Text → Bool) → Text → Bool
some_suffix f [] = f []
some_suffix f (c ∷ s) = f (c ∷ s) || some_suffix f s

abbrev after_one : ℕ → (Text → Bool) → Text → Bool
after_one p f [] = false
after_one p f (c ∷ s) = (eqb p b'_' || eqb p c) && f s

abbrev matches : Text → Text → Bool
matches [] [] = true
matches [] (c ∷ s) = false
matches (p ∷ ps) s = if eqb p b'%' then some_suffix (matches ps) s else after_one p (matches ps) s

abbrev like : Text → Text → Bool
like s pattern = matches pattern s

abbrev ilike : Text → Text → Bool
ilike s pattern = matches (map ascii_lower pattern) (map ascii_lower s)

abbrev no_params : Text → Option Params
no_params t = none

abbrev water : Registry
water = record empty {
  catalogs =
      new_catalog 3 [] (lake [])
      ∷ new_catalog 4 [] (record (lake []) { name = "sea_a" })
      ∷ new_catalog 5 [] (record (lake []) { name = "seaXa" })
      ∷ [];
  catalog_tags = ("lake", "Wet") ∷ ("sea_a", "salt") ∷ [];
}

water-Labels : Labels water
unfolding any
water-Labels = (tt, ((refl, (refl, tt)), ((refl, tt), (tt, tt))), tt, tt, (refl, (refl, tt)))

abbrev found : String → List String
unfolding search
found q = search like ilike (catalog_texts water) water.catalog_tags (codes q)

by_tag : found "#salt" ≡ "sea_a" ∷ []
unfolding found latiq.ControlPlane.Registry.Datasets.order_by latiq.Prelude.keep
    latiq.Prelude.Text.text_beq
by_tag = refl

by_part : found " WET" ≡ "lake" ∷ []
unfolding found latiq.ControlPlane.Registry.Datasets.order_by latiq.Prelude.keep ascii_lower
    latiq.Prelude.any
by_part = refl

-- An underscore stands for any character, also where a query means the one in a name.
by_underscore : found "sea_*" ≡ "seaXa" ∷ "sea_a" ∷ []
unfolding found latiq.ControlPlane.Registry.Datasets.order_by latiq.Prelude.keep
by_underscore = refl

-- Somebody sets a policy before the first row is read.
abbrev meddling : Others
meddling = (λ r. (policy_set "k" "v" r).1) ∷ []

list-search_example :
    let ds_names = search like ilike (dataset_texts water) water.dataset_tags (codes "*") in
    let cs_names = search like ilike (catalog_texts water) water.catalog_tags (codes "*") in
    ((ds : List DatasetRow) × (list_datasets like ilike meddling (codes "*") water
        ≡ (ok ds, after meddling ds_names water))
      × (map (λ d. d.name) ds ≡ ds_names))
    × ((cs : List CatalogRow) × (list_catalogs like ilike no_params meddling (codes "*") water
          ≡ (ok cs, after meddling cs_names water))
        × (map (λ c. c.name) cs ≡ cs_names))
unfolding policy_set
list-search_example =
    list-search like ilike no_params meddling (codes "*") water water-Labels (λ n r h. h, tt)
      (λ n r h. h, tt)
