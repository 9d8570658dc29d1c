-- ===== src/ControlPlane/Registry/Catalogs/Laws.antt =====
-- What adding and removing a catalog do, on every path.
use latiq.Prelude.{
  ℕ, String, Bool, true, false, ◌&&◌, ◌||◌, not, ◌≡◌, refl, inl, inr, ◌⊎◌, [], ◌∷◌, ◌++◌, arith,
  ◌==◌, string_eq, Result, ok, err, Bool-cases, result_cases,
}
use latiq.Prelude.Text.{Text, codes}
use latiq.ControlPlane.Registry.{
  Registry, ControlPlaneError, invalid, name_and_type_required, catalog_not_an_identifier,
  params_unwritable, delete_where,
}
use latiq.ControlPlane.Registry.Keyed.{any-delete_same}
use latiq.ControlPlane.Registry.Datasets.{is_ident, in_txn, insert_tags, of_dataset}
use latiq.ControlPlane.Registry.Datasets.Laws.{IsFramed}
use latiq.ControlPlane.Registry.Catalogs.{
  Params, CatalogRow, named_catalog, new_catalog, insert_catalog, clear_catalog, write_catalog,
  add_catalog, remove_catalog,
}

-- The registry that a catalog has been written to.
abbrev pub with_catalog : ℕ → Text → CatalogRow → Registry → Registry
with_catalog now t ca r = record r {
  catalogs = delete_where (named_catalog ca.name) r.catalogs ++ new_catalog now t ca ∷ [];
  catalog_tags = insert_tags ca.name ca.tags (delete_where (of_dataset ca.name) r.catalog_tags);
}

-- The transaction never fails: what it inserts, it has deleted before.
pub write_catalog_eq :
    (now : ℕ) (t : Text) (ca : CatalogRow) (r : Registry)
    → write_catalog now t ca r ≡ (ok tt, with_catalog now t ca r)
unfolding write_catalog clear_catalog insert_catalog insert_tags
write_catalog_eq now t ca r = ground (arith, any-delete_same (λ c. c.name) ca.name r.catalogs)

abbrev pub is_ok {ℓ} : {E : Type 0} {A : Type ℓ} → Result E A → Bool
is_ok (ok a) = true
is_ok (err e) = false

-- The guards of `add_catalog`.
abbrev pub is_named : CatalogRow → Bool
is_named ca = not (ca.name == "" || ca.type == "") && is_ident (codes ca.name)

module _ (to_string : Params → Result Text Text) where
  pub add_catalog-ok :
      (now : ℕ) (ca : CatalogRow) (t : Text) (r : Registry)
      → is_named ca ≡ true
      → to_string ca.params ≡ ok t
      → add_catalog to_string now ca r ≡ (ok ca.name, with_catalog now t ca r)
  unfolding add_catalog in_txn
  add_catalog-ok now ca t r h e = ground (arith, write_catalog_eq now t ca r)

  pub add_catalog-err :
      (now : ℕ) (ca : CatalogRow) (r : Registry)
      → (is_named ca && is_ok (to_string ca.params)) ≡ false
      → (e : ControlPlaneError) × (add_catalog to_string now ca r ≡ (err e, r))
  unfolding add_catalog
  add_catalog-err now ca r h = elim (Bool-cases (ca.name == "" || ca.type == "")) [
    | inl e ↦ (invalid name_and_type_required, rw e refl)
    | inr f ↦ elim (Bool-cases (is_ident (codes ca.name))) [
      | inl g ↦ elim (result_cases (to_string ca.params)) [
        | inl (t, e) ↦ absurd (ground arith)
        | inr (e, q) ↦ (invalid (params_unwritable e), ground arith)
      ]
      | inr g ↦ (invalid catalog_not_an_identifier, ground arith)
    ]
  ]

  pub add_catalog_cases :
      (now : ℕ) (ca : CatalogRow) (r : Registry)
      → ((t : Text) × (add_catalog to_string now ca r ≡ (ok ca.name, with_catalog now t ca r)))
        ⊎ ((e : ControlPlaneError) × (add_catalog to_string now ca r ≡ (err e, r)))
  add_catalog_cases now ca r = elim (Bool-cases (is_named ca && is_ok (to_string ca.params))) [
    | inl h ↦ elim (result_cases (to_string ca.params)) [
      | inl (t, e) ↦ inl (t, add_catalog-ok now ca t r (ground arith) e)
      | inr (e, q) ↦ absurd (ground arith)
    ]
    | inr h ↦ inr (add_catalog-err now ca r h)
  ]

  pub add_catalog-IsFramed : (now : ℕ) (ca : CatalogRow) → IsFramed (add_catalog to_string now ca)
  add_catalog-IsFramed now ca r = elim (add_catalog_cases now ca r) [
    | inl (t, e) ↦ rw e (refl, refl)
    | inr (x, e) ↦ rw e (refl, refl)
  ]

pub remove_catalog-IsFramed : (name : String) → IsFramed (remove_catalog name)
unfolding remove_catalog clear_catalog
remove_catalog-IsFramed name r = ground arith
