-- ===== src/ControlPlane/Registry/Catalogs/Tests.antt =====
-- Catalogs on small inputs, with a way to write parameters that takes up to one of them.
use latiq.Prelude.{
  ℕ, String, Bool, true, false, ◌≡◌, refl, sym, ap, ◌∙◌, List, [], ◌∷◌, ◌++◌, Option, none, some,
  length, take, drop, ◌==◌, string_eq, Result, ok, err, ok_injective,
}
use latiq.Prelude.Text.{Text, codes}
use latiq.ControlPlane.Registry.{Registry, CatalogRecord}
use latiq.ControlPlane.Registry.Catalogs.{Params, CatalogRow}
use latiq.ControlPlane.Registry.Catalogs.Refines.{
  Change, add, remove, performs, promises, view, performs-promises,
}

abbrev one_param : Params → Result Text Text
one_param [] = ok []
one_param ((k, v) ∷ []) = ok (length k ∷ k ++ v)
one_param (kv ∷ kv' ∷ rest) = err (codes "too many")

abbrev read_one : Text → Option Params
read_one [] = some []
read_one (n ∷ s) = some ((take n s, drop n s) ∷ [])

take-length : (s t : Text) → take (length s) (s ++ t) ≡ s
take-length [] t = refl
take-length (c ∷ s) t = ap (λ x. c ∷ x) (take-length s t)

drop-length : (s t : Text) → drop (length s) (s ++ t) ≡ t
drop-length [] t = refl
drop-length (c ∷ s) t = drop-length s t

reads_back : (ps : Params) (t : Text) → one_param ps ≡ ok t → read_one t ≡ some ps
reads_back [] t e = ap read_one (sym (ok_injective e))
reads_back ((k, v) ∷ []) t e =
    ap read_one (sym (ok_injective e))
    ∙ ap (λ kv. some (kv ∷ [])) (cc (take-length k v, drop-length k v))
reads_back (kv ∷ kv' ∷ rest) t e = cc

abbrev pub empty : Registry
empty = record {
  nodes = [];
  ponds = [];
  datasets = [];
  dataset_tables = [];
  dataset_tags = [];
  catalogs = [];
  catalog_tags = [];
  policy = [];
}

abbrev pub lake : List String → CatalogRow
lake tags = record {
  name = "lake";
  type = "iceberg";
  params = (codes "endpoint", codes "http://x") ∷ [];
  description = "";
  tags = tags;
  created_by = "me";
  created_at = 0;
}

abbrev changes : List Change
changes = add 3 (lake ("b" ∷ "a" ∷ "b" ∷ [])) ∷ remove "sea" ∷ add 4 (lake ("c" ∷ [])) ∷ []

answers : (performs one_param changes empty).0 ≡ true ∷ false ∷ true ∷ []
unfolding performs latiq.ControlPlane.Registry.Catalogs.add_catalog
    latiq.ControlPlane.Registry.Catalogs.remove_catalog latiq.Prelude.Text.is_ascii_alphabetic
    latiq.Prelude.all latiq.Prelude.Text.is_ascii_alphanumeric latiq.Prelude.any
    latiq.ControlPlane.Registry.delete_where
answers = refl

performs-promises_example :
    ((performs one_param changes empty).0 ≡ (promises one_param changes (view read_one empty)).0)
    × (view read_one (performs one_param changes empty).1
        ≡ (promises one_param changes (view read_one empty)).1)
performs-promises_example = performs-promises one_param read_one reads_back changes empty
