-- ===== src/ControlPlane/Registry/Catalogs.antt =====
-- registry.rs: external catalogs. A catalog's parameters are stored as the JSON text that
-- `serde_json` writes; writing it, which can fail, and reading it back are arguments.
pub mod Laws
pub mod Refines
pub mod Tests
use latiq.Prelude.{
  ℕ, String, Bool, ◌||◌, not, List, [], ◌∷◌, ◌++◌, Option, none, some, ◌==◌, string_eq,
  if◌then◌else◌, any, find, Result, ok, err,
}
use latiq.Prelude.Text.{Text, codes}
use latiq.ControlPlane.Registry.{
  CatalogRecord, Registry, invalid, name_and_type_required, catalog_not_an_identifier,
  params_unwritable, duckdb, catalog_not_found, Op, ◌>>=◌, ◌>>◌, return, fail_if, lift_err,
  delete_where,
}
use latiq.ControlPlane.Registry.Datasets.{
  is_ident, in_txn, insert_tags, order_by, rows_of, same_text, of_dataset,
}

-- A `BTreeMap`, as its entries in the order of their keys.
abbrev pub Params : Type 0
Params = List (Text × Text)

pub record CatalogRow : Type 0 where
  pub name : String
  pub type : String
  pub params : Params
  pub description : String
  pub tags : List String
  pub created_by : String
  pub created_at : ℕ

abbrev pub named_catalog : String → CatalogRecord → Bool
named_catalog name c = c.name == name

-- The two DELETEs before a catalog is written anew.
unfoldable pub clear_catalog : String → Op (Unit {0})
clear_catalog name r = (
  ok tt,
  record r {
    catalog_tags = delete_where (of_dataset name) r.catalog_tags;
    catalogs = delete_where (named_catalog name) r.catalogs;
  },
)

abbrev pub new_catalog : (now : ℕ) (params_json : Text) → CatalogRow → CatalogRecord
new_catalog now params_json ca = record {
  name = ca.name;
  type = ca.type;
  params_json = params_json;
  description = ca.description;
  created_by = ca.created_by;
  created_at = now;
}

-- INSERT INTO catalogs, where `name` is the PRIMARY KEY.
unfoldable pub insert_catalog : (now : ℕ) (params_json : Text) → CatalogRow → Op (Unit {0})
insert_catalog now params_json ca r =
    if any (named_catalog ca.name) r.catalogs
    then (err duckdb, r)
    else (ok tt, record r { catalogs = r.catalogs ++ new_catalog now params_json ca ∷ [] })

-- The statements between BEGIN and COMMIT.
unfoldable pub write_catalog : (now : ℕ) (params_json : Text) → CatalogRow → Op (Unit {0})
unfolding clear_catalog insert_catalog insert_tags
write_catalog now params_json ca = do
  clear_catalog ca.name
  insert_catalog now params_json ca
  λ r. (ok tt, record r { catalog_tags = insert_tags ca.name ca.tags r.catalog_tags })

unfoldable pub remove_catalog : String → Op (Unit {0})
unfolding clear_catalog
remove_catalog name r =
    if any (named_catalog name) r.catalogs
    then clear_catalog name r
    else (err (catalog_not_found name), r)

module _ (to_string : Params → Result Text Text) where
  unfoldable pub add_catalog : (now : ℕ) → CatalogRow → Op String
  unfolding is_ident in_txn write_catalog
  add_catalog now ca = do
    fail_if (ca.name == "" || ca.type == "") (invalid name_and_type_required)
    fail_if (not (is_ident (codes ca.name))) (invalid catalog_not_an_identifier)
    params_json ← lift_err (to_string ca.params) (λ e. invalid (params_unwritable e))
    in_txn (write_catalog now params_json ca)
    return ca.name

module _ (from_str : Text → Option Params) where
  -- `unwrap_or_default`.
  unfoldable pub read_params : Text → Params
  read_params t = elim (from_str t) [ some ps ↦ ps | none ↦ [] ]

  unfoldable pub catalog_row : (name : String) (tags : List String) → CatalogRecord → CatalogRow
  unfolding order_by read_params
  catalog_row name tags c = record {
    name = name;
    type = c.type;
    params = read_params c.params_json;
    description = c.description;
    tags = order_by same_text tags;
    created_by = c.created_by;
    created_at = c.created_at;
  }

  unfoldable pub get_catalog : String → Op CatalogRow
  unfolding catalog_row rows_of
  get_catalog name r = elim (find (named_catalog name) r.catalogs) [
    | none ↦ (err (catalog_not_found name), r)
    | some c ↦ (ok (catalog_row name (rows_of name r.catalog_tags) c), r)
  ]
