-- ===== src/ControlPlane/Registry.antt =====
-- crates/latiq-control-plane/src/registry.rs: the rows, the errors and the shape of an operation.
-- The tables are those of migrations.rs, as lists of rows in the order of insertion, which is the
-- order in which an unordered SELECT reads them. An UPDATE or DELETE is a function over a table,
-- with the number of rows that it touched; PRIMARY KEY and UNIQUE are tests before an INSERT. What
-- the code takes from its surroundings is an argument: the clock, a fresh id, a random number.
-- Failures of the engine other than a violated constraint, and CHECKPOINT, are left out.
pub mod Tables
pub mod Keyed
pub mod Nodes
pub mod Ponds
pub mod Datasets
pub mod Catalogs
pub mod Policy
pub mod Search
pub mod Labels
pub mod Invariant
pub mod Lifecycle
pub mod Tests
use latiq.Prelude.{
  ℕ, suc, String, Bool, true, false, not, List, [], ◌∷◌, Option, none, some, if◌then◌else◌, Result,
  ok, err, ◌≡◌, ap,
}
use latiq.Prelude.Text.{Text}
use latiq.Common.PondName.{NameError}

-- The column `state`, which the code writes as 'active' or 'down' alone.
pub data NodeState : Type 0 where
  active down : NodeState

-- Times are microseconds.
pub record NodeRecord : Type 0 where
  pub node_id : String
  pub mcp_endpoint : String
  pub internal_endpoint : String
  pub capacity : ℕ
  pub state : NodeState
  pub last_heartbeat : ℕ

-- A row of `ponds`; the extensions are comma-separated.
pub record PondRecord : Type 0 where
  pub pond_id : String
  pub name : String
  pub owner_identity : String
  pub node_id : String
  pub policy_json : String
  pub created_at : ℕ
  pub tier : String
  pub extensions : Text
  pub description : String
  pub lineage : Bool

pub record DatasetRecord : Type 0 where
  pub name : String
  pub description : String
  pub created_by : String
  pub created_at : ℕ

pub record DatasetTableRow : Type 0 where
  pub table_name : String
  pub source_uri : String
  pub format : String

-- A row of `catalogs`; the parameters are a JSON text.
pub record CatalogRecord : Type 0 where
  pub name : String
  pub type : String
  pub params_json : Text
  pub description : String
  pub created_by : String
  pub created_at : ℕ

pub record Registry : Type 0 where
  pub nodes : List NodeRecord
  pub ponds : List PondRecord
  pub datasets : List DatasetRecord
  pub dataset_tables : List (String × DatasetTableRow)
  pub dataset_tags : List (String × String)
  pub catalogs : List CatalogRecord
  pub catalog_tags : List (String × String)
  pub policy : List (String × String)

pub data InvalidReason : Type 0 where
  unknown_tier : Text → InvalidReason
  operator_only_tier : InvalidReason
  bad_name : NameError → InvalidReason
  name_required not_an_identifier no_tables : InvalidReason
  name_and_type_required catalog_not_an_identifier : InvalidReason
  params_unwritable : Text → InvalidReason

-- Why a pond that was placed could not be made real: the registry no longer locates it, or what
-- the materializer answered.
pub data Cause : Type 0 where
  unlocated : Cause
  node_said : Text → Cause

-- `duckdb` is a violated constraint, or a statement that the database does not carry out.
pub data ControlPlaneError : Type 0 where
  node_not_found pond_not_found dataset_not_found catalog_not_found name_conflict :
      String → ControlPlaneError
  invalid : InvalidReason → ControlPlaneError
  no_node_available duckdb : ControlPlaneError
  pond_still_owned : (pond node_id : String) → ControlPlaneError
  allocation_not_materialized :
      (name owner : String) (cause : Cause) (compensated : Bool) → ControlPlaneError

-- A method: its result, and the registry as it leaves it.
abbrev pub Op : Type 0 → Type 0
Op A = Registry → Result ControlPlaneError A × Registry

infixl 5 ◌>>=◌ ◌>>◌
abbrev pub ◌>>=◌ : {A B : Type 0} → Op A → (A → Op B) → Op B
◌>>=◌ m f r = elim (m r).0 [ ok a ↦ f a (m r).1 | err e ↦ (err e, (m r).1) ]

abbrev pub ◌>>◌ : {B : Type 0} → Op (Unit {0}) → Op B → Op B
◌>>◌ m k = m >>= λ _. k

abbrev pub return : {A : Type 0} → A → Op A
return a r = (ok a, r)

abbrev pub fail : {A : Type 0} → ControlPlaneError → Op A
fail e r = (err e, r)

-- `.ok_or(e)?` and `.map_err(e)?`.
abbrev pub or_fail : {A : Type 0} → Option A → ControlPlaneError → Op A
or_fail none e r = (err e, r)
or_fail (some a) e r = (ok a, r)

abbrev pub lift_err {κ} : {E : Type κ} {A : Type 0} → Result E A → (E → ControlPlaneError) → Op A
lift_err (ok a) f r = (ok a, r)
lift_err (err e) f r = (err (f e), r)

abbrev pub fail_if : Bool → ControlPlaneError → Op (Unit {0})
fail_if true e r = (err e, r)
fail_if false e r = (ok tt, r)

module _ {ℓ} {A : Type ℓ} where
  -- The number of rows that a WHERE clause selects.
  unfoldable pub count : (A → Bool) → List A → ℕ
  count p [] = 0
  count p (x ∷ xs) = if p x then suc (count p xs) else count p xs

  -- UPDATE … SET f WHERE p.
  unfoldable pub update_where : (A → Bool) → (A → A) → List A → List A
  update_where p f [] = []
  update_where p f (x ∷ xs) = (if p x then f x else x) ∷ update_where p f xs

  -- DELETE … WHERE p.
  unfoldable pub delete_where : (A → Bool) → List A → List A
  delete_where p [] = []
  delete_where p (x ∷ xs) = let rest = delete_where p xs in if p x then rest else x ∷ rest

  -- The first row that a SELECT … LIMIT 1 computes.
  unfoldable pub find_map {κ} : {B : Type κ} → (A → Option B) → List A → Option B
  find_map f [] = none
  find_map f (x ∷ xs) = elim (f x) [ some b ↦ some b | none ↦ find_map f xs ]

module _ {A B : Type 0} (m : Op A) (f : A → Op B) {r r' : Registry} where
  -- What a bind does once its first part is known.
  pub >>=-ok : (a : A) → m r ≡ (ok a, r') → (m >>= f) r ≡ f a r'
  >>=-ok a h =
      ap
        (λ (x : Result ControlPlaneError A × Registry). elim x.0 [
          | ok a ↦ f a x.1
          | err e ↦ (err e, x.1)
        ])
        h

  pub >>=-err : (e : ControlPlaneError) → m r ≡ (err e, r') → (m >>= f) r ≡ (err e, r')
  >>=-err e h =
      ap
        (λ (x : Result ControlPlaneError A × Registry). elim x.0 [
          | ok a ↦ f a x.1
          | err e ↦ (err e, x.1)
        ])
        h
