-- ===== src/ControlPlane/Registry/Search.antt =====
-- registry.rs: `search`, and the listings of ponds, datasets and catalogs that stand on it. LIKE
-- and ILIKE are DuckDB's: arguments that take the text and the pattern. ORDER BY created_at leaves
-- rows of one time in an order of DuckDB's choice, here that of insertion.
pub mod Laws
mod Tests
use latiq.Prelude.{
  ℕ, String, Bool, true, false, ◌||◌, List, [], ◌∷◌, ◌++◌, map, keep, any, Option, none, some, eqb,
  leb, ◌==◌, string_eq, if◌then◌else◌, ok, Result,
}
use latiq.Prelude.Text.{Text, codes, text_eq, trim, is_empty, strip_prefix, contains}
use latiq.Common.Extensions.{parse_csv}
use latiq.ControlPlane.Registry.{PondRecord, Registry, Op, ◌>>=◌, ◌>>◌, return}
use latiq.ControlPlane.Registry.Ponds.{PondRow, pond_row}
use latiq.ControlPlane.Registry.Datasets.{DatasetRow, get_dataset, order_by, same_text}
use latiq.ControlPlane.Registry.Catalogs.{Params, CatalogRow, get_catalog}

abbrev pub tagged : (String → Bool) → String × String → Bool
tagged p row = p row.1

abbrev pub star_to_percent : ℕ → ℕ
star_to_percent c = if eqb c b'*' then b'%' else c

abbrev pub names : List (String × String) → List String
names rows = order_by same_text (map (λ row. row.0) rows)

module _ (like ilike : Text → Text → Bool) where
  -- WHERE name ILIKE ?1 OR description ILIKE ?1 OR name IN (SELECT … WHERE tag ILIKE ?1), of a row's
  -- name and description.
  unfoldable pub mentions : (pattern : Text) → List (String × String) → String × String → Bool
  mentions pattern tags (name, description) =
      ilike (codes name) pattern
      || ilike (codes description) pattern
      || any (λ (t : String × String). t.0 == name)
          (keep (tagged (λ t. ilike (codes t) pattern)) tags)

  abbrev pub name_like : (pattern : Text) → String × String → Bool
  name_like pattern row = like (codes row.0) pattern

  -- On the names and descriptions of a table, and the owners and tags of its tag table.
  unfoldable pub search : (rows tags : List (String × String)) (query : Text) → List String
  unfolding trim is_empty strip_prefix contains mentions
  search rows tags query =
      let q = trim query in
      if is_empty q then names rows else elim (strip_prefix q (b'#' ∷ [])) [
        | some tag ↦ names (keep (tagged (λ t. codes t == tag)) tags)
        | none ↦
            if contains q (b'*' ∷ [])
            then names (keep (name_like (map star_to_percent q)) rows)
            else names (keep (mentions (b'%' ∷ q ++ b'%' ∷ []) tags) rows)
      ]

-- What the calls of others make of the registry before each name is read: the names are read under one lock,
-- and each row under another.
abbrev pub Others : Type 0
Others = List (Registry → Registry)

abbrev pub cons : {A : Type 0} → Op A → Op (List A) → Op (List A)
cons first others = do a ← first; rest ← others; return (a ∷ rest)

-- `names.into_iter().map(get).collect()`: the rows, or the first error.
unfoldable pub get_all : {A : Type 0} → (String → Op A) → Others → List String → Op (List A)
get_all get gs [] r = return [] r
get_all get [] (n ∷ ns) r = cons (get n) (get_all get [] ns) r
get_all get (g ∷ gs) (n ∷ ns) r = cons (get n) (get_all get gs ns) (g r)

abbrev pub dataset_texts : Registry → List (String × String)
dataset_texts r = map (λ d. (d.name, d.description)) r.datasets

abbrev pub catalog_texts : Registry → List (String × String)
catalog_texts r = map (λ c. (c.name, c.description)) r.catalogs

module _ (like ilike : Text → Text → Bool) where
  unfoldable pub list_datasets : Others → (query : Text) → Op (List DatasetRow)
  unfolding search get_all
  list_datasets others query r =
      get_all get_dataset others (search like ilike (dataset_texts r) r.dataset_tags query) r

  unfoldable pub list_catalogs :
      (Text → Option Params) → Others → (query : Text) → Op (List CatalogRow)
  unfolding search get_all
  list_catalogs from_str others query r =
      get_all (get_catalog from_str) others
        (search like ilike (catalog_texts r) r.catalog_tags query) r

insert_by_time : PondRecord → List PondRecord → List PondRecord
insert_by_time p [] = p ∷ []
insert_by_time p (q ∷ qs) =
    if leb p.created_at q.created_at then p ∷ q ∷ qs else q ∷ insert_by_time p qs

-- ORDER BY created_at.
unfoldable pub by_creation : List PondRecord → List PondRecord
unfolding insert_by_time
by_creation [] = []
by_creation (p ∷ ps) = insert_by_time p (by_creation ps)

unfoldable pub list_ponds : Op (List PondRow)
unfolding by_creation pond_row
list_ponds r = (ok (map pond_row (by_creation r.ponds)), r)
