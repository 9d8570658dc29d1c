-- ===== src/ControlPlane/Registry/Search/Laws.antt =====
-- Listings: a search selects names of rows that are there, so that reading them cannot fail.
use latiq.Prelude.{
  String, Bool, true, ◌≡◌, refl, sym, ap, ◌∙◌, inl, inr, List, [], ◌∷◌, map, keep, any, All, Option,
  arith, eq_iff, string_eq, ok, Bool-cases, Option-cases,
}
use latiq.Prelude.Text.{Text, codes, trim, is_empty, strip_prefix, contains}
use latiq.ControlPlane.Registry.{Registry, Op, ◌>>=◌, >>=-ok, return}
use latiq.ControlPlane.Registry.Tables.{All-map, find_of_any}
use latiq.ControlPlane.Registry.Keyed.{bears}
use latiq.ControlPlane.Registry.Labels.{Labels, Owned}
use latiq.ControlPlane.Registry.Datasets.{
  DatasetRow, text_leb, insert_by, order_by, same_text, named_dataset, get_dataset, dataset_row,
  rows_of,
}
use latiq.ControlPlane.Registry.Catalogs.{
  Params, CatalogRow, named_catalog, get_catalog, catalog_row,
}
use latiq.ControlPlane.Registry.Search.{
  Others, cons, search, names, get_all, dataset_texts, catalog_texts, list_datasets, list_catalogs,
}

module _ {ℓ κ} {A : Type ℓ} (P : A → Type κ) where
  All-keep : (p : A → Bool) (xs : List A) → All P xs → All P (keep p xs)
  unfolding keep
  All-keep p [] h = tt
  All-keep p (x ∷ xs) (h, hs) = elim (Bool-cases (p x)) [
    | inl e ↦ rw e (h, All-keep p xs hs)
    | inr e ↦ rw e (All-keep p xs hs)
  ]

  module _ (key : A → String) where
    All-insert_by : (x : A) (ys : List A) → P x → All P ys → All P (insert_by key x ys)
    unfolding insert_by
    All-insert_by x [] h hs = (h, hs)
    All-insert_by x (y ∷ ys) h (k, ks) =
        elim (Bool-cases (text_leb (codes (key x)) (codes (key y)))) [
          | inl e ↦ rw e (h, (k, ks))
          | inr e ↦ rw e (k, All-insert_by x ys h ks)
        ]

    All-order_by : (xs : List A) → All P xs → All P (order_by key xs)
    unfolding order_by
    All-order_by [] h = tt
    All-order_by (x ∷ xs) (h, hs) = All-insert_by x (order_by key xs) h (All-order_by xs hs)

All-of-map {ℓ κ μ} :
    {A : Type ℓ} {B : Type κ} (P : B → Type μ) (f : A → B) (xs : List A)
    → All (λ x. P (f x)) xs
    → All P (map f xs)
All-of-map P f [] h = tt
All-of-map P f (x ∷ xs) (h, hs) = (h, All-of-map P f xs hs)

any-map {ℓ κ} :
    {A : Type ℓ} {B : Type κ} (p : B → Bool) (f : A → B) (xs : List A)
    → any p (map f xs) ≡ any (λ x. p (f x)) xs
unfolding any
any-map p f [] = refl
any-map p f (x ∷ xs) = ground (arith, any-map p f xs)

module _ {ℓ} {A : Type ℓ} (key : A → String) where
  -- Every row has its own name.
  rows_named : (xs : List A) → All (λ x. any (bears key (key x)) xs ≡ true) xs
  unfolding any
  rows_named [] = tt
  rows_named (x ∷ xs) = (
    ground (arith, eq_iff (key x) (key x)),
    All-map _ _ xs (λ y h. ground (arith, h)) (rows_named xs),
  )

names-All :
    (rows picked : List (String × String))
    → All (λ p. any (bears (λ p. p.0) p.0) rows ≡ true) picked
    → All (λ n. any (bears (λ p. p.0) n) rows ≡ true) (names picked)
names-All rows picked h =
    All-order_by _ same_text (map (λ p. p.0) picked) (All-of-map _ (λ p. p.0) picked h)

module _ (like ilike : Text → Text → Bool) where
  -- Whatever the patterns match, a search answers names of rows, if every tag belongs to a row.
  search-All :
      (rows tags : List (String × String)) (query : Text)
      → Owned (λ p. p.0) rows tags
      → All (λ n. any (bears (λ p. p.0) n) rows ≡ true) (search like ilike rows tags query)
  unfolding search
  search-All rows tags query h =
      let named = rows_named (λ (p : String × String). p.0) rows in
      elim (Bool-cases (is_empty (trim query))) [
        | inl e ↦ rw e (names-All rows rows named)
        | inr e ↦ elim (Option-cases (strip_prefix (trim query) (b'#' ∷ []))) [
          | inr (tag, f) ↦ rw (e, f) (names-All rows _ (All-keep _ _ tags h))
          | inl f ↦ elim (Bool-cases (contains (trim query) (b'*' ∷ []))) [
            | inl g ↦ rw (e, f, g) (names-All rows _ (All-keep _ _ rows named))
            | inr g ↦ rw (e, f, g) (names-All rows _ (All-keep _ _ rows named))
          ]
        ]
      ]

-- The registry once the calls of others before each of the names have been made.
abbrev pub after : Others → List String → Registry → Registry
after gs [] r = r
after [] (n ∷ ns) r = r
after (g ∷ gs) (n ∷ ns) r = after gs ns (g r)

after_none : (ns : List String) (r : Registry) → after [] ns r ≡ r
after_none [] r = refl
after_none (n ∷ ns) r = refl

-- Reading names that can be read where they are read first and where nobody takes that away.
module _ {A : Type 0} (name : A → String) (get : String → Op A) (P : String → Registry → Type 0)
    (reads : (n : String) (r : Registry)
      → P n r
      → (a : A) × (get n r ≡ (ok a, r)) × (name a ≡ n)) where
  cons-ok :
      (n : String) (ns : List String) (rest : Op (List A)) (found : List A) (r r' : Registry)
      → P n r
      → rest r ≡ (ok found, r')
      → map name found ≡ ns
      → (all : List A) × (cons (get n) rest r ≡ (ok all, r')) × (map name all ≡ n ∷ ns)
  cons-ok n ns rest found r r' h e names =
      let (a, got, same) = reads n r h in
      (
        a ∷ found,
        >>=-ok (get n) (λ a. rest >>= λ found. return (a ∷ found)) a got
            ∙ >>=-ok rest (λ found. return (a ∷ found)) found e,
        cc (same, names),
      )

  get_all-ok :
      (gs : Others) (ns : List String) (r : Registry)
      → All (λ n. P n r) ns
      → All (λ g. (n : String) (r : Registry) → P n r → P n (g r)) gs
      → (found : List A) × (get_all get gs ns r ≡ (ok found, after gs ns r)) × (map name found ≡ ns)
  unfolding get_all
  get_all-ok gs [] r h k = ([], refl, refl)
  get_all-ok [] (n ∷ ns) r (h, hs) k =
      let (found, e, names) = get_all-ok [] ns r hs tt in
      cons-ok n ns (get_all get [] ns) found r r h (e ∙ ap (λ s. (ok found, s)) (after_none ns r))
        names
  get_all-ok (g ∷ gs) (n ∷ ns) r (h, hs) (k, ks) =
      let (found, e, names) = get_all-ok gs ns (g r) (All-map _ _ ns (λ m q. k m r q) hs) ks in
      cons-ok n ns (get_all get gs ns) found (g r) (after gs ns (g r)) (k n r h) e names

get_dataset_of_any :
    (n : String) (r : Registry)
    → any (named_dataset n) r.datasets ≡ true
    → (d : DatasetRow) × (get_dataset n r ≡ (ok d, r)) × (d.name ≡ n)
unfolding get_dataset dataset_row
get_dataset_of_any n r h =
    let (d, e, same) = find_of_any (named_dataset n) r.datasets h in
    (
      dataset_row n (rows_of n r.dataset_tags) (rows_of n r.dataset_tables) d,
      rw (e, get_dataset) refl,
      refl,
    )

get_catalog_of_any :
    (from_str : Text → Option Params) (n : String) (r : Registry)
    → any (named_catalog n) r.catalogs ≡ true
    → (c : CatalogRow) × (get_catalog from_str n r ≡ (ok c, r)) × (c.name ≡ n)
unfolding get_catalog catalog_row
get_catalog_of_any from_str n r h =
    let (c, e, same) = find_of_any (named_catalog n) r.catalogs h in
    (catalog_row from_str n (rows_of n r.catalog_tags) c, rw (e, get_catalog) refl, refl)

-- No call of others takes a name away.
abbrev pub HasDataset : String → Registry → Type 0
HasDataset n r = any (named_dataset n) r.datasets ≡ true

abbrev pub HasCatalog : String → Registry → Type 0
HasCatalog n r = any (named_catalog n) r.catalogs ≡ true

abbrev pub KeepsNames : (String → Registry → Type 0) → Others → Type 0
KeepsNames P = All (λ g. (n : String) (r : Registry) → P n r → P n (g r))

-- If every tag belongs to a row, and the calls of others between the locks of a listing remove no dataset and no
-- catalog, then a listing of datasets or of catalogs succeeds, whatever the query is and whatever the
-- patterns match, changes nothing itself, and answers a row for each of the names that the search selects in
-- the registry as it found it, in its order.
pub list-search :
    (like ilike : Text → Text → Bool) (from_str : Text → Option Params) (others : Others)
    (query : Text) (r : Registry)
    → Labels r
    → KeepsNames HasDataset others
    → KeepsNames HasCatalog others
    → let ds_names = search like ilike (dataset_texts r) r.dataset_tags query in
      let cs_names = search like ilike (catalog_texts r) r.catalog_tags query in
      ((ds : List DatasetRow) × (list_datasets like ilike others query r
          ≡ (ok ds, after others ds_names r))
        × (map (λ d. d.name) ds ≡ ds_names))
      × ((cs : List CatalogRow) × (list_catalogs like ilike from_str others query r
            ≡ (ok cs, after others cs_names r))
          × (map (λ c. c.name) cs ≡ cs_names))
unfolding list_datasets list_catalogs
list-search like ilike from_str others query r (d, c, p, o, w) k l = (
  get_all-ok (λ d. d.name) get_dataset HasDataset get_dataset_of_any others _ r
      (All-map _ _ _ (λ n h. sym (any-map _ _ r.datasets) ∙ h)
        (search-All like ilike (dataset_texts r) r.dataset_tags query
          (All-map _ _ r.dataset_tags (λ t h. any-map _ _ r.datasets ∙ h) o)))
      k,
  get_all-ok (λ c. c.name) (get_catalog from_str) HasCatalog (get_catalog_of_any from_str) others _
      r
      (All-map _ _ _ (λ n h. sym (any-map _ _ r.catalogs) ∙ h)
        (search-All like ilike (catalog_texts r) r.catalog_tags query
          (All-map _ _ r.catalog_tags (λ t h. any-map _ _ r.catalogs ∙ h) w)))
      l,
)
