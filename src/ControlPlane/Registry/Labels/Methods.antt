-- ===== src/ControlPlane/Registry/Labels/Methods.antt =====
-- Every method on datasets, catalogs and the policy keeps their names and tags in order.
use latiq.Prelude.{
  ℕ, String, Bool, true, false, ◌≡◌, refl, sym, ap, ◌∙◌, inl, inr, List, [], ◌∷◌, ◌++◌, arith,
  eq_iff, ◌==◌, string_eq, not, any, ok, Bool-cases, Result, result_cases,
}
use mathlib.Core.Path.{subst}
use latiq.ControlPlane.Registry.{
  DatasetTableRow, DatasetRecord, Registry, ControlPlaneError, invalid, name_required,
  not_an_identifier, no_tables, Op, ◌>>=◌, ◌>>◌, >>=-ok, >>=-err, fail_if, return,
}
use latiq.ControlPlane.Registry.Tables.{
  Distinct-delete_where, Distinct-snoc, Distinct-update_where, any-snoc,
}
use latiq.ControlPlane.Registry.Keyed.{any-delete_same}
use latiq.ControlPlane.Registry.Datasets.{
  DatasetRow, is_nil, is_ident, in_txn, named_dataset, clear_dataset, insert_dataset, new_dataset,
  same_table, insert_table, insert_tables, label, write_dataset, add_dataset, remove_dataset,
}
use latiq.Prelude.Text.{Text, codes}
use latiq.ControlPlane.Registry.Catalogs.{
  Params, CatalogRow, named_catalog, new_catalog, clear_catalog, add_catalog, remove_catalog,
}
use latiq.ControlPlane.Registry.Catalogs.Laws.{with_catalog, add_catalog_cases}
use latiq.ControlPlane.Registry.Policy.{has_key, policy_set}
use latiq.ControlPlane.Registry.Labels.{
  Owned-cleared, Owned-grown, Owned-insert_tags, Owned-written, Labels, same_dataset, same_catalog,
  same_key, Distinct-written,
}

-- A sequence stops where its first part fails.
then_holds :
    {A B : Type 0} (P : Registry → Type 0) (m : Op A) (k : A → Op B) (r : Registry)
    → P (m r).1
    → ((a : A) → (m r).0 ≡ ok a → P (k a (m r).1).1)
    → P ((m >>= k) r).1
then_holds P m k r stopped went = elim (result_cases (m r).0) [
  | inl (a, e) ↦ subst (λ x. P x.1) (sym (>>=-ok m k a (ap (λ x. (x, (m r).1)) e))) (went a e)
  | inr (x, e) ↦ subst (λ x. P x.1) (sym (>>=-err m k x (ap (λ x. (x, (m r).1)) e))) stopped
]

guard_holds :
    {B : Type 0} (P : Registry → Type 0) (b : Bool) (e : ControlPlaneError) (k : Op B)
    (r : Registry)
    → P r
    → P (k r).1
    → P ((fail_if b e >> k) r).1
guard_holds P true e k r stopped went = stopped
guard_holds P false e k r stopped went = went

insert_table-Labels :
    (n : String) (t : DatasetTableRow) (r : Registry) → Labels r → Labels (insert_table n t r).1
unfolding insert_table
insert_table-Labels n t r v = elim (Bool-cases (any (same_table n t.table_name) r.dataset_tables)) [
  | inl e ↦ rw e v
  | inr e ↦ rw e v
]

-- Only the rows of `dataset_tables` change.
insert_tables-Labels :
    (n : String) (ts : List DatasetTableRow) (r : Registry)
    → Labels r
    → Labels (insert_tables n ts r).1
unfolding insert_tables insert_table
insert_tables-Labels n [] r v = v
insert_tables-Labels n (t ∷ ts) r v =
    let w = insert_table-Labels n t r v in
    then_holds Labels (insert_table n t) (λ u. insert_tables n ts) r w
      (λ u e. insert_tables-Labels n ts (insert_table n t r).1 w)

in_txn-Labels :
    (f : Op (Unit {0})) (r : Registry) → Labels r → Labels (f r).1 → Labels (in_txn f r).1
unfolding in_txn
in_txn-Labels f r v w = elim (result_cases (f r).0) [
  | inl (u, e) ↦ rw (e, in_txn) w
  | inr (x, e) ↦ rw (e, in_txn) v
]

label-Labels :
    (d : DatasetRow) (r : Registry)
    → any (named_dataset d.name) r.datasets ≡ true
    → Labels r
    → Labels (label d r).1
unfolding label
label-Labels d r e (k, c, p, o, w) =
    (k, c, p, Owned-insert_tags (λ d. d.name) d.name d.tags r.datasets r.dataset_tags e o, w)

clear_dataset-Labels : (n : String) (r : Registry) → Labels r → Labels (clear_dataset n r).1
unfolding clear_dataset
clear_dataset-Labels n r (d, c, p, o, w) = (
  Distinct-delete_where same_dataset (named_dataset n) r.datasets d,
  c,
  p,
  Owned-cleared (λ d. d.name) n r.datasets r.dataset_tags o,
  w,
)

-- The registry once the dataset's own row is in.
abbrev with_row : ℕ → DatasetRow → Registry → Registry
with_row now d r = record r { datasets = r.datasets ++ new_dataset now d ∷ [] }

insert_dataset_new :
    (now : ℕ) (d : DatasetRow) (r : Registry)
    → any (named_dataset d.name) r.datasets ≡ false
    → insert_dataset now d r ≡ (ok tt, with_row now d r)
unfolding insert_dataset
insert_dataset_new now d r e = rw e refl

with_row-Labels :
    (now : ℕ) (d : DatasetRow) (r : Registry)
    → any (named_dataset d.name) r.datasets ≡ false
    → Labels r
    → Labels (with_row now d r)
with_row-Labels now d r e (k, c, p, o, w) = (
  Distinct-snoc same_dataset r.datasets (new_dataset now d) k e,
  c,
  p,
  Owned-grown (λ d. d.name) r.datasets (new_dataset now d) r.dataset_tags o,
  w,
)

insert_tables-datasets :
    (n : String) (ts : List DatasetTableRow) (r : Registry)
    → (insert_tables n ts r).1.datasets ≡ r.datasets
unfolding insert_tables insert_table
insert_tables-datasets n [] r = refl
insert_tables-datasets n (t ∷ ts) r = ground (
  arith,
  insert_tables-datasets n ts (record r { dataset_tables = r.dataset_tables ++ (n, t) ∷ [] }),
)

write_dataset-Labels :
    (now : ℕ) (d : DatasetRow) (r : Registry) → Labels r → Labels (write_dataset now d r).1
unfolding write_dataset insert_dataset
write_dataset-Labels now d r v =
    let s : Registry = (clear_dataset d.name r).1 in
    let free = any-delete_same (λ (d : DatasetRecord). d.name) d.name r.datasets in
    let placed : insert_dataset now d s ≡ (ok tt, with_row now d s) =
      insert_dataset_new now d s free in
    let filled =
      insert_tables-Labels d.name d.tables (with_row now d s)
        (with_row-Labels now d s free (clear_dataset-Labels d.name r v)) in
    subst (λ x. Labels x.1)
      (sym
        (>>=-ok (insert_dataset now d) (λ u. insert_tables d.name d.tables >> label d) tt placed))
      (then_holds Labels (insert_tables d.name d.tables) (λ u. label d) (with_row now d s) filled
        (λ u e.
          label-Labels d (insert_tables d.name d.tables (with_row now d s)).1
            (ap (any (named_dataset d.name))
                (insert_tables-datasets d.name d.tables (with_row now d s))
              ∙ any-snoc (named_dataset d.name) s.datasets (new_dataset now d)
                  ((eq_iff d.name d.name).1 refl))
            filled))

pub add_dataset-Labels :
    (now : ℕ) (d : DatasetRow) (r : Registry) → Labels r → Labels (add_dataset now d r).1
unfolding add_dataset
add_dataset-Labels now d r v =
    let write : Op String = in_txn (write_dataset now d) >> return d.name in
    let tables : Op String = fail_if (is_nil d.tables) (invalid no_tables) >> write in
    let named : Op String =
      fail_if (not (is_ident (codes d.name))) (invalid not_an_identifier) >> tables in
    let w = in_txn-Labels (write_dataset now d) r v (write_dataset-Labels now d r v) in
    guard_holds Labels (d.name == "") (invalid name_required) named r v (
      guard_holds Labels (not (is_ident (codes d.name))) (invalid not_an_identifier) tables r v (
        guard_holds Labels (is_nil d.tables) (invalid no_tables) write r v
          (then_holds Labels (in_txn (write_dataset now d)) (λ u. return d.name) r w (λ u e. w))))

pub remove_dataset-Labels : (n : String) (r : Registry) → Labels r → Labels (remove_dataset n r).1
unfolding remove_dataset
remove_dataset-Labels n r v = elim (Bool-cases (any (named_dataset n) r.datasets)) [
  | inl e ↦ rw e (clear_dataset-Labels n r v)
  | inr e ↦ rw e v
]

pub remove_catalog-Labels : (n : String) (r : Registry) → Labels r → Labels (remove_catalog n r).1
unfolding remove_catalog clear_catalog
remove_catalog-Labels n r (d, c, p, o, w) = elim (Bool-cases (any (named_catalog n) r.catalogs)) [
  | inl e ↦ rw e (
    d,
    Distinct-delete_where same_catalog (named_catalog n) r.catalogs c,
    p,
    o,
    Owned-cleared (λ c. c.name) n r.catalogs r.catalog_tags w,
  )
  | inr e ↦ rw e (d, c, p, o, w)
]

with_catalog-Labels :
    (now : ℕ) (t : Text) (ca : CatalogRow) (r : Registry)
    → Labels r
    → Labels (with_catalog now t ca r)
with_catalog-Labels now t ca r (d, c, p, o, w) = (
  d,
  Distinct-written (λ c. c.name) ca.name (new_catalog now t ca) r.catalogs refl c,
  p,
  o,
  Owned-written (λ c. c.name) ca.name (new_catalog now t ca) ca.tags r.catalogs r.catalog_tags refl
      w,
)

pub add_catalog-Labels :
    (to_string : Params → Result Text Text) (now : ℕ) (ca : CatalogRow) (r : Registry)
    → Labels r
    → Labels (add_catalog to_string now ca r).1
add_catalog-Labels to_string now ca r v = elim (add_catalog_cases to_string now ca r) [
  | inl (t, e) ↦ rw e (with_catalog-Labels now t ca r v)
  | inr (x, e) ↦ rw e v
]

pub policy_set-Labels :
    (key value : String) (r : Registry) → Labels r → Labels (policy_set key value r).1
unfolding policy_set
policy_set-Labels key value r (d, c, p, o, w) = elim (Bool-cases (any (has_key key) r.policy)) [
  | inl e ↦ rw e (
    d,
    c,
    Distinct-update_where same_key (has_key key) (λ row. (row.0, value)) r.policy (λ x y. refl)
        (λ x y. refl) p,
    o,
    w,
  )
  | inr e ↦ rw e (d, c, Distinct-snoc same_key r.policy (key, value) p e, o, w)
]
