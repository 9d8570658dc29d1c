-- ===== src/ControlPlane/Registry/Catalogs/Refines.antt =====
-- The catalogs against what they promise: a function from a name to the catalog that a caller
-- reads under it.
use mathlib.Core.Path.{fun_ext}
use latiq.Prelude.{
  ℕ, String, Bool, true, false, ◌&&◌, ◌≡◌, refl, sym, ap, ◌∙◌, inl, inr, List, [], ◌∷◌, Option,
  none, some, arith, eq_iff, ◌==◌, string_eq, if◌then◌else◌, any, find, Result, ok, err, Bool-cases,
  result_cases,
}
use latiq.Prelude.Text.{Text}
use latiq.ControlPlane.Registry.{CatalogRecord, Registry, delete_where}
use latiq.ControlPlane.Registry.Tables.{find_of_any, find_of_not_any}
use latiq.ControlPlane.Registry.Keyed.{
  find-delete_same, find-delete_other, find-append_other, find-append_new, rows_of-delete_same,
  rows_of-delete_other, with_tags, rows_of-insert_tags, rows_of-insert_tags_other,
}
use latiq.ControlPlane.Registry.Datasets.{rows_of, order_by, same_text, of_dataset}
use latiq.ControlPlane.Registry.Catalogs.{
  Params, CatalogRow, named_catalog, new_catalog, read_params, clear_catalog, catalog_row,
  get_catalog, add_catalog, remove_catalog,
}
use latiq.ControlPlane.Registry.Catalogs.Laws.{
  is_ok, is_named, with_catalog, add_catalog-ok, add_catalog-err,
}

abbrev pub Directory : Type 0
Directory = String → Option CatalogRow

abbrev pub answer {ℓ} : {E : Type 0} {A : Type ℓ} → Result E A → Option A
answer (ok a) = some a
answer (err e) = none

pub data Change : Type 0 where
  add : (now : ℕ) → CatalogRow → Change
  remove : (name : String) → Change

-- What is read back of a catalog that was added at `now`: each tag once, in order.
abbrev pub stored : ℕ → CatalogRow → CatalogRow
stored now ca = record ca { tags = order_by same_text (with_tags ca.tags []); created_at = now }

abbrev pub updated : String → Option CatalogRow → Directory → Directory
updated name o m n = if n == name then o else m n

abbrev pub is_some {ℓ} : {A : Type ℓ} → Option A → Bool
is_some none = false
is_some (some a) = true

module _ (to_string : Params → Result Text Text) where
  -- The promise: whether the change is taken, and the directory after it.
  unfoldable pub promise : Change → Directory → Bool × Directory
  promise (add now ca) m =
      let taken = is_named ca && is_ok (to_string ca.params) in
      (taken, if taken then updated ca.name (some (stored now ca)) m else m)
  promise (remove name) m = (is_some (m name), updated name none m)

  unfoldable pub promises : List Change → Directory → List Bool × Directory
  unfolding promise
  promises [] m = ([], m)
  promises (c ∷ cs) m =
      let first = promise c m in let rest = promises cs first.1 in (first.0 ∷ rest.0, rest.1)

  -- The code: whether the method succeeds, and the registry after it.
  unfoldable pub perform : Change → Registry → Bool × Registry
  perform (add now ca) r = let out = add_catalog to_string now ca r in (is_ok out.0, out.1)
  perform (remove name) r = let out = remove_catalog name r in (is_ok out.0, out.1)

  unfoldable pub performs : List Change → Registry → List Bool × Registry
  unfolding perform
  performs [] r = ([], r)
  performs (c ∷ cs) r =
      let first = perform c r in let rest = performs cs first.1 in (first.0 ∷ rest.0, rest.1)

module _ (from_str : Text → Option Params) where
  -- What `get_catalog` answers under each name.
  unfoldable pub view : Registry → Directory
  view r name = answer (get_catalog from_str name r).0

  found : String → List String → Option CatalogRecord → Option CatalogRow
  found name tags none = none
  found name tags (some c) = some (catalog_row from_str name tags c)

  view_eq :
      (r : Registry) (name : String)
      → view r name
        ≡ found name (rows_of name r.catalog_tags) (find (named_catalog name) r.catalogs)
  unfolding view get_catalog found
  view_eq r name = ground arith

  -- A view depends on the row and the tags alone.
  view_same :
      (r s : Registry) (n : String)
      → rows_of n r.catalog_tags ≡ rows_of n s.catalog_tags
      → find (named_catalog n) r.catalogs ≡ find (named_catalog n) s.catalogs
      → view r n ≡ view s n
  view_same r s n e f = cc (view_eq r n, view_eq s n)

  view-clear_other :
      (name n : String) (r : Registry)
      → (n == name) ≡ false
      → view (clear_catalog name r).1 n ≡ view r n
  unfolding clear_catalog
  view-clear_other name n r h =
      view_same _ r n (rows_of-delete_other name n r.catalog_tags h)
        (find-delete_other (λ c. c.name) name n r.catalogs h)

  view-clear_same : (name : String) (r : Registry) → view (clear_catalog name r).1 name ≡ none
  unfolding clear_catalog found
  view-clear_same name r =
      view_eq (clear_catalog name r).1 name
      ∙ ap (found name _) (find-delete_same (λ c. c.name) name r.catalogs)

  read_params_lem : (t : Text) (ps : Params) → from_str t ≡ some ps → read_params from_str t ≡ ps
  unfolding read_params
  read_params_lem t ps e = rw (e, read_params) refl

  view-with_same :
      (now : ℕ) (t : Text) (ca : CatalogRow) (r : Registry)
      → from_str t ≡ some ca.params
      → view (with_catalog now t ca r) ca.name ≡ some (stored now ca)
  unfolding catalog_row found
  view-with_same now t ca r e =
      view_eq (with_catalog now t ca r) ca.name
      ∙ ap (found ca.name (rows_of ca.name (with_catalog now t ca r).catalog_tags)) (
          find-append_new (λ c. c.name) ca.name (delete_where (named_catalog ca.name) r.catalogs)
            (new_catalog now t ca) (find-delete_same (λ c. c.name) ca.name r.catalogs)
            ((eq_iff ca.name ca.name).1 refl))
      ∙ rw
          (
            rows_of-insert_tags ca.name ca.tags (delete_where (of_dataset ca.name) r.catalog_tags),
            rows_of-delete_same ca.name r.catalog_tags,
            read_params_lem t ca.params e,
          )
          refl

  view-with_other :
      (now : ℕ) (t : Text) (ca : CatalogRow) (r : Registry) (n : String)
      → (n == ca.name) ≡ false
      → view (with_catalog now t ca r) n ≡ view r n
  view-with_other now t ca r n h =
      view_same _ r n
        (rows_of-insert_tags_other ca.name n ca.tags
            (delete_where (of_dataset ca.name) r.catalog_tags) h
          ∙ rows_of-delete_other ca.name n r.catalog_tags h)
        (find-append_other (λ c. c.name) n (delete_where (named_catalog ca.name) r.catalogs)
            (new_catalog now t ca) (ground (arith, eq_iff n ca.name, eq_iff ca.name n))
          ∙ find-delete_other (λ c. c.name) ca.name n r.catalogs h)

  view-missing :
      (r : Registry) (name : String)
      → any (named_catalog name) r.catalogs ≡ false
      → view r name ≡ none
  unfolding found
  view-missing r name h =
      view_eq r name
      ∙ ap (found name (rows_of name r.catalog_tags))
          (find_of_not_any (named_catalog name) r.catalogs h)

  view-present :
      (r : Registry) (name : String)
      → any (named_catalog name) r.catalogs ≡ true
      → is_some (view r name) ≡ true
  unfolding found
  view-present r name h =
      let (c, at, _) = find_of_any (named_catalog name) r.catalogs h in
      ap is_some (view_eq r name ∙ ap (found name (rows_of name r.catalog_tags)) at)

  updated_eq :
      (name : String) (o : Option CatalogRow) (m m' : Directory)
      → m' name ≡ o
      → ((n : String) → (n == name) ≡ false → m' n ≡ m n)
      → m' ≡ updated name o m
  updated_eq name o m m' same other = fun_ext (λ n. elim (Bool-cases (n == name)) [
    | inl e ↦ ground (arith, eq_iff n name)
    | inr e ↦ rw e (other n e)
  ])

module _ (to_string : Params → Result Text Text) (from_str : Text → Option Params)
    (decodes : (ps : Params) (t : Text) → to_string ps ≡ ok t → from_str t ≡ some ps) where
  -- One change.
  perform-promise :
      (c : Change) (r : Registry)
      → ((perform to_string c r).0 ≡ (promise to_string c (view from_str r)).0)
        × (view from_str (perform to_string c r).1 ≡ (promise to_string c (view from_str r)).1)
  unfolding perform promise remove_catalog
  perform-promise (add now ca) r = elim (Bool-cases (is_named ca && is_ok (to_string ca.params))) [
    | inl h ↦ elim (result_cases (to_string ca.params)) [
      | inl (t, e) ↦
          rw (h, add_catalog-ok to_string now ca t r (ground arith) e)
            (
              refl,
              updated_eq from_str ca.name (some (stored now ca)) (view from_str r) _
                  (view-with_same from_str now t ca r (decodes ca.params t e))
                  (view-with_other from_str now t ca r),
            )
      | inr (e, q) ↦ absurd (ground arith)
    ]
    | inr h ↦ let (e, same) = add_catalog-err to_string now ca r h in rw (h, same) (refl, refl)
  ]
  perform-promise (remove name) r = elim (Bool-cases (any (named_catalog name) r.catalogs)) [
    | inl h ↦ rw h (
      sym (view-present from_str r name h),
      updated_eq from_str name none (view from_str r) _ (view-clear_same from_str name r)
          (λ n. view-clear_other from_str name n r),
    )
    | inr h ↦
        let gone = view-missing from_str r name h in
        rw h (
          ap is_some (sym gone),
          updated_eq from_str name none (view from_str r) _ gone (λ n e. refl),
        )
  ]

  -- If JSON texts read back as the parameters that were written, then every sequence of additions and
  -- removals succeeds and fails exactly as a function from names to catalogs promises, and leaves
  -- exactly the catalogs that can be read: replacing a catalog forgets its former tags, a refused or
  -- failed change leaves everything, and no change shows under another name.
  pub performs-promises :
      (cs : List Change) (r : Registry)
      → ((performs to_string cs r).0 ≡ (promises to_string cs (view from_str r)).0)
        × (view from_str (performs to_string cs r).1 ≡ (promises to_string cs (view from_str r)).1)
  unfolding performs promises
  performs-promises [] r = (refl, refl)
  performs-promises (c ∷ cs) r =
      let (taken, after) = perform-promise c r in
      let (rest, last) = performs-promises cs (perform to_string c r).1 in
      (cc (taken, after, rest), last ∙ ap (λ m. (promises to_string cs m).1) after)
