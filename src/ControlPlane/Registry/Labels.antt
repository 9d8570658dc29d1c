-- ===== src/ControlPlane/Registry/Labels.antt =====
-- The tags of datasets and catalogs: each stands beside a row that it belongs to.
pub mod Methods
use latiq.Prelude.{
  ℕ, String, Bool, true, false, ◌≡◌, refl, sym, ap, ◌∙◌, inl, inr, List, [], ◌∷◌, ◌++◌, arith,
  eq_iff, ◌==◌, string_eq, not, any, All, ok, err, Bool-cases, if◌then◌else◌, Result, result_cases,
}
use mathlib.Core.Path.{subst}
use latiq.ControlPlane.Registry.{
  DatasetTableRow, DatasetRecord, CatalogRecord, Registry, ControlPlaneError, Op, ◌>>=◌, ◌>>◌,
  >>=-ok, >>=-err, fail_if, return, delete_where,
}
use latiq.ControlPlane.Registry.Tables.{
  Distinct, Distinct-delete_where, Distinct-snoc, Distinct-update_where, All-snoc, All-map,
  any-append, any-snoc,
}
use latiq.ControlPlane.Registry.Keyed.{bears, any-delete_same}
use latiq.ControlPlane.Registry.Datasets.{
  DatasetRow, is_nil, is_ident, of_dataset, same_tag, insert_tag, insert_tags, in_txn,
  named_dataset, clear_dataset, insert_dataset, new_dataset, same_table, insert_table,
  insert_tables, label, write_dataset, add_dataset, remove_dataset,
}
use latiq.Prelude.Text.{Text, codes}
use latiq.ControlPlane.Registry.Catalogs.{
  Params, CatalogRow, named_catalog, new_catalog, clear_catalog, add_catalog, remove_catalog,
}
use latiq.ControlPlane.Registry.Catalogs.Laws.{with_catalog, add_catalog_cases}
use latiq.ControlPlane.Registry.Policy.{has_key, policy_set}

module _ {ℓ} {A : Type ℓ} (key : A → String) where
  abbrev pub HasRow : List A → String × String → Type 0
  HasRow rows t = any (bears key t.0) rows ≡ true

  abbrev pub Owned : List A → List (String × String) → Type 0
  Owned rows tags = All (HasRow rows) tags

  any-delete_other :
      (n m : String) (xs : List A)
      → (m == n) ≡ false
      → any (bears key m) (delete_where (bears key n) xs) ≡ any (bears key m) xs
  unfolding any delete_where
  any-delete_other n m [] h = refl
  any-delete_other n m (x ∷ xs) h =
      ground (arith, any-delete_other n m xs h, eq_iff (key x) n, eq_iff (key x) m, eq_iff m n)

  -- The rows and the tags of one name go together.
  pub Owned-cleared :
      (n : String) (rows : List A) (tags : List (String × String))
      → Owned rows tags
      → Owned (delete_where (bears key n) rows) (delete_where (of_dataset n) tags)
  unfolding delete_where
  Owned-cleared n rows [] h = tt
  Owned-cleared n rows ((o, t) ∷ tags) (h, hs) = elim (Bool-cases (o == n)) [
    | inl e ↦ rw e (Owned-cleared n rows tags hs)
    | inr e ↦ rw e (any-delete_other n o rows e ∙ h, Owned-cleared n rows tags hs)
  ]

  pub Owned-grown :
      (rows : List A) (x : A) (tags : List (String × String))
      → Owned rows tags
      → Owned (rows ++ x ∷ []) tags
  Owned-grown rows x tags h = All-map _ _ tags (λ t q. any-append (bears key t.0) rows (x ∷ []) q) h

  Owned-insert_tag :
      (n t : String) (rows : List A) (tags : List (String × String))
      → any (bears key n) rows ≡ true
      → Owned rows tags
      → Owned rows (insert_tag n t tags)
  unfolding insert_tag
  Owned-insert_tag n t rows tags e h = elim (Bool-cases (any (same_tag n t) tags)) [
    | inl f ↦ rw f h
    | inr f ↦ rw f (All-snoc _ tags (n, t) h e)
  ]

  pub Owned-insert_tags :
      (n : String) (ts : List String) (rows : List A) (tags : List (String × String))
      → any (bears key n) rows ≡ true
      → Owned rows tags
      → Owned rows (insert_tags n ts tags)
  unfolding insert_tags
  Owned-insert_tags n [] rows tags e h = h
  Owned-insert_tags n (t ∷ ts) rows tags e h =
      Owned-insert_tags n ts rows (insert_tag n t tags) e (Owned-insert_tag n t rows tags e h)

  -- A row that is written anew, with its tags.
  pub Owned-written :
      (n : String) (x : A) (ts : List String) (rows : List A) (tags : List (String × String))
      → key x ≡ n
      → Owned rows tags
      → Owned
          (delete_where (bears key n) rows ++ x ∷ [])
          (insert_tags n ts (delete_where (of_dataset n) tags))
  Owned-written n x ts rows tags e h =
      Owned-insert_tags n ts _ _
        (any-snoc (bears key n) (delete_where (bears key n) rows) x ((eq_iff (key x) n).1 e))
        (Owned-grown (delete_where (bears key n) rows) x _ (Owned-cleared n rows tags h))

abbrev pub same_dataset : DatasetRecord → DatasetRecord → Bool
same_dataset d e = d.name == e.name

abbrev pub same_catalog : CatalogRecord → CatalogRecord → Bool
same_catalog c d = c.name == d.name

abbrev pub same_key : String × String → String × String → Bool
same_key p q = p.0 == q.0

-- The names of datasets and of catalogs and the keys of the policy are unique, and every tag belongs
-- to a row.
abbrev pub Labels : Registry → Type 0
Labels r =
    Distinct same_dataset r.datasets
    × Distinct same_catalog r.catalogs
    × Distinct same_key r.policy
    × Owned (λ d. d.name) r.datasets r.dataset_tags
    × Owned (λ c. c.name) r.catalogs r.catalog_tags

pub Distinct-written :
    {A : Type 0} (key : A → String) (n : String) (x : A) (rows : List A)
    → key x ≡ n
    → Distinct (λ x y. key x == key y) rows
    → Distinct (λ x y. key x == key y) (delete_where (bears key n) rows ++ x ∷ [])
Distinct-written key n x rows e d =
    Distinct-snoc (λ x y. key x == key y) (delete_where (bears key n) rows) x
      (Distinct-delete_where (λ x y. key x == key y) (bears key n) rows d)
      (subst (λ k. any (bears key k) (delete_where (bears key n) rows) ≡ false) (sym e)
        (any-delete_same key n rows))
