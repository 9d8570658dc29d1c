-- ===== src/ControlPlane/Registry/Datasets.antt =====
-- registry.rs: datasets, written in a transaction that a violated constraint rolls back. ORDER BY on
-- a text is DuckDB's binary collation, the order of the code points. `row.created_at` is not read
-- by `add_dataset`: the column's default is the time of the INSERT.
pub mod Laws
use latiq.Prelude.{
  ℕ, String, Bool, true, false, ◌&&◌, ◌||◌, not, List, [], ◌∷◌, ◌++◌, map, Option, none, some, eqb,
  ltb, ◌==◌, string_eq, if◌then◌else◌, any, all, find, keep, ok, err,
}
use latiq.Prelude.Text.{Text, codes, is_ascii_alphabetic, is_ascii_alphanumeric}
use latiq.ControlPlane.Registry.{
  DatasetRecord, DatasetTableRow, Registry, invalid, name_required, not_an_identifier, no_tables,
  duckdb, dataset_not_found, Op, ◌>>=◌, ◌>>◌, return, fail_if, delete_where,
}

pub record DatasetRow : Type 0 where
  pub name : String
  pub description : String
  pub tags : List String
  pub tables : List DatasetTableRow
  pub created_by : String
  pub created_at : ℕ

abbrev is_ident_start : ℕ → Bool
is_ident_start c = is_ascii_alphabetic c || eqb c b'_'

abbrev is_ident_char : ℕ → Bool
is_ident_char c = is_ascii_alphanumeric c || eqb c b'_'

unfoldable pub is_ident : Text → Bool
is_ident [] = false
is_ident (c ∷ s) = is_ident_start c && all is_ident_char s

abbrev pub is_nil {ℓ} : {A : Type ℓ} → List A → Bool
is_nil [] = true
is_nil (x ∷ xs) = false

-- BEGIN, then COMMIT, or ROLLBACK to where the transaction began.
unfoldable pub in_txn : Op (Unit {0}) → Op (Unit {0})
in_txn f r = elim (f r).0 [ ok u ↦ (ok u, (f r).1) | err e ↦ (err e, r) ]

abbrev pub of_dataset {ℓ} : {A : Type ℓ} → String → String × A → Bool
of_dataset name row = row.0 == name

abbrev pub named_dataset : String → DatasetRecord → Bool
named_dataset name d = d.name == name

-- The three DELETEs before a dataset is written anew.
unfoldable pub clear_dataset : String → Op (Unit {0})
clear_dataset name r = (
  ok tt,
  record r {
    datasets = delete_where (named_dataset name) r.datasets;
    dataset_tables = delete_where (of_dataset name) r.dataset_tables;
    dataset_tags = delete_where (of_dataset name) r.dataset_tags;
  },
)

abbrev pub new_dataset : (now : ℕ) → DatasetRow → DatasetRecord
new_dataset now d = record {
  name = d.name;
  description = d.description;
  created_by = d.created_by;
  created_at = now;
}

-- INSERT INTO datasets, where `name` is the PRIMARY KEY.
unfoldable pub insert_dataset : (now : ℕ) → DatasetRow → Op (Unit {0})
insert_dataset now d r =
    if any (named_dataset d.name) r.datasets
    then (err duckdb, r)
    else (ok tt, record r { datasets = r.datasets ++ new_dataset now d ∷ [] })

abbrev pub same_table : String → String → String × DatasetTableRow → Bool
same_table name table row = row.0 == name && row.1.table_name == table

-- INSERT INTO dataset_tables, where (`dataset`, `table_name`) is the PRIMARY KEY.
unfoldable pub insert_table : String → DatasetTableRow → Op (Unit {0})
insert_table name t r =
    if any (same_table name t.table_name) r.dataset_tables
    then (err duckdb, r)
    else (ok tt, record r { dataset_tables = r.dataset_tables ++ (name, t) ∷ [] })

unfoldable pub insert_tables : String → List DatasetTableRow → Op (Unit {0})
unfolding insert_table
insert_tables name [] = return tt
insert_tables name (t ∷ ts) = do insert_table name t; insert_tables name ts

abbrev pub same_tag : String → String → String × String → Bool
same_tag name tag row = row.0 == name && row.1 == tag

-- INSERT OR IGNORE INTO dataset_tags.
unfoldable pub insert_tag : String → String → List (String × String) → List (String × String)
insert_tag name tag rows = if any (same_tag name tag) rows then rows else rows ++ (name, tag) ∷ []

unfoldable pub insert_tags : String → List String → List (String × String) → List (String × String)
unfolding insert_tag
insert_tags name [] rows = rows
insert_tags name (t ∷ ts) rows = insert_tags name ts (insert_tag name t rows)

unfoldable pub label : DatasetRow → Op (Unit {0})
unfolding insert_tags
label d r = (ok tt, record r { dataset_tags = insert_tags d.name d.tags r.dataset_tags })

-- The statements between BEGIN and COMMIT.
unfoldable pub write_dataset : (now : ℕ) → DatasetRow → Op (Unit {0})
unfolding clear_dataset insert_dataset insert_tables label
write_dataset now d = do
  clear_dataset d.name
  insert_dataset now d
  insert_tables d.name d.tables
  label d

unfoldable pub add_dataset : (now : ℕ) → DatasetRow → Op String
unfolding is_ident in_txn write_dataset
add_dataset now d = do
  fail_if (d.name == "") (invalid name_required)
  fail_if (not (is_ident (codes d.name))) (invalid not_an_identifier)
  fail_if (is_nil d.tables) (invalid no_tables)
  in_txn (write_dataset now d)
  return d.name

unfoldable pub remove_dataset : String → Op (Unit {0})
unfolding clear_dataset
remove_dataset name r =
    if any (named_dataset name) r.datasets
    then clear_dataset name r
    else (err (dataset_not_found name), r)

unfoldable pub text_leb : Text → Text → Bool
text_leb [] t = true
text_leb (c ∷ s) [] = false
text_leb (c ∷ s) (d ∷ t) = ltb c d || (eqb c d && text_leb s t)

module _ {ℓ} {A : Type ℓ} (key : A → String) where
  unfoldable pub insert_by : A → List A → List A
  unfolding text_leb
  insert_by x [] = x ∷ []
  insert_by x (y ∷ ys) =
      if text_leb (codes (key x)) (codes (key y)) then x ∷ y ∷ ys else y ∷ insert_by x ys

  -- ORDER BY key.
  unfoldable pub order_by : List A → List A
  unfolding insert_by
  order_by [] = []
  order_by (x ∷ xs) = insert_by x (order_by xs)

-- SELECT … WHERE dataset=?.
unfoldable pub rows_of {ℓ} : {A : Type ℓ} → String → List (String × A) → List A
rows_of name [] = []
rows_of name ((owner, a) ∷ rows) =
    let rest = rows_of name rows in if owner == name then a ∷ rest else rest

abbrev pub same_text : String → String
same_text s = s

unfoldable pub dataset_row :
    (name : String) (tags : List String) (tables : List DatasetTableRow)
    → DatasetRecord
    → DatasetRow
unfolding order_by
dataset_row name tags tables d = record {
  name = name;
  description = d.description;
  tags = order_by same_text tags;
  tables = order_by (λ t. t.table_name) tables;
  created_by = d.created_by;
  created_at = d.created_at;
}

unfoldable pub get_dataset : String → Op DatasetRow
unfolding dataset_row rows_of
get_dataset name r = elim (find (named_dataset name) r.datasets) [
  | none ↦ (err (dataset_not_found name), r)
  | some d ↦
      (ok (dataset_row name (rows_of name r.dataset_tags) (rows_of name r.dataset_tables) d), r)
]
