-- ===== src/Storage/LocalFs.antt =====
-- crates/latiq-storage/src/local_fs.rs and location.rs: ponds on a node's own disk. A disk is the
-- pond directories under the root, each with the directories that this code makes in it. What the
-- operating system answers to one call that makes or removes a directory is an argument; a call
-- can fail half done.
pub mod Laws
pub mod HalfMade
pub mod Tests
use latiq.Prelude.{
  ℕ, String, Bool, true, false, ◌||◌, not, List, [], ◌∷◌, ◌++◌, Option, none, some, any, find, ◌==◌,
  string_eq, if◌then◌else◌, Result, ok, err,
}
use latiq.Prelude.Text.{Text, codes}
use latiq.Common.Tier.{ResourceLimits}
use latiq.ControlPlane.Registry.{update_where, delete_where}

-- `<root>/<pond-id>`, and which of its directories exist.
pub record PondDir : Type 0 where
  pub pond_id : String
  pub has_data : Bool
  pub has_lineage : Bool

abbrev pub Disk : Type 0
Disk = List PondDir

pub data StorageError : Type 0 where
  not_found already_exists : String → StorageError
  io : Text → StorageError

pub record PondLocation : Type 0 where
  pub catalog_uri : Text
  pub data_path : Text
  pub catalog_name : Text
  pub limits : Option ResourceLimits
  pub extensions : List Text
  pub lineage : Bool
  pub lineage_dir : Text

-- What `create_dir_all` answers, and how much it has made when it fails.
pub data Mkdir : Type 0 where
  made : Mkdir
  nothing_made parents_made : Text → Mkdir

-- What `remove_dir_all` answers, and what it leaves when it fails.
pub data Rmdir : Type 0 where
  removed : Rmdir
  kept : Text → (has_data has_lineage : Bool) → Rmdir

abbrev pub is_dir_of : String → PondDir → Bool
is_dir_of id d = d.pond_id == id

unfoldable pub pond_exists : String → Disk → Bool
pond_exists id disk = any (is_dir_of id) disk

abbrev slash : Text → Text → Text
slash dir name = dir ++ b'/' ∷ name

unfoldable pub pond_dir : (root : Text) → String → Text
pond_dir root id = slash root (codes id)

unfoldable pub location_for : (root : Text) → String → PondLocation
unfolding pond_dir
location_for root id = record {
  catalog_uri = codes "ducklake:duckdb:" ++ slash (pond_dir root id) (codes "catalog.duckdb");
  data_path = slash (pond_dir root id) (codes "data");
  catalog_name = codes "pond";
  limits = none;
  extensions = [];
  lineage = false;
  lineage_dir = slash (pond_dir root id) (codes "lineage");
}

-- A storage call: its result, and the disk as it leaves it.
abbrev pub StorageOp : Type 0
StorageOp = Disk → Result StorageError PondLocation × Disk

abbrev has_lineage_dir : String → PondDir → Bool
has_lineage_dir id d = if d.pond_id == id then d.has_lineage else false

abbrev with_lineage : PondDir → PondDir
with_lineage d = record d { has_lineage = true }

-- `create_lineage_dir`, inside a pond directory that exists.
unfoldable pub create_lineage_dir : String → Mkdir → Disk → Option StorageError × Disk
create_lineage_dir id mkdir disk =
    if any (has_lineage_dir id) disk then (none, disk) else elim mkdir [
      | made ↦ (none, update_where (is_dir_of id) with_lineage disk)
      | nothing_made e ↦ (some (io e), disk)
      | parents_made e ↦ (some (io e), disk)
    ]

module _ (root : Text) where
  unfoldable pub finish :
      String → Option StorageError × Disk → Result StorageError PondLocation × Disk
  unfolding location_for
  finish id (none, disk) = (ok (location_for root id), disk)
  finish id (some e, disk) = (err e, disk)

  -- `if lineage { create_lineage_dir? }` and the location.
  unfoldable pub provision : String → (lineage : Bool) → Mkdir → StorageOp
  unfolding finish create_lineage_dir
  provision id lineage mkdir disk =
      finish id (if lineage then create_lineage_dir id mkdir disk else (none, disk))

  unfoldable pub create_pond :
      String → (lineage : Bool) → (data_dir lineage_dir : Mkdir) → StorageOp
  unfolding pond_exists provision
  create_pond id lineage data_dir lineage_dir disk =
      if pond_exists id disk then (err (already_exists id), disk) else elim data_dir [
        | made ↦
            provision id lineage lineage_dir
              (disk ++ record { pond_id = id; has_data = true; has_lineage = false } ∷ [])
        | nothing_made e ↦ (err (io e), disk)
        | parents_made e ↦ (
          err (io e),
          disk ++ record { pond_id = id; has_data = false; has_lineage = false } ∷ [],
        )
      ]

  unfoldable pub pond_location : String → Disk → Result StorageError PondLocation
  unfolding pond_exists location_for
  pond_location id disk =
      if pond_exists id disk then ok (location_for root id) else err (not_found id)

  unfoldable pub ensure_pond :
      String → (lineage : Bool) → (data_dir lineage_dir : Mkdir) → StorageOp
  unfolding create_pond
  ensure_pond id lineage data_dir lineage_dir disk =
      if pond_exists id disk
      then provision id lineage lineage_dir disk
      else create_pond id lineage data_dir lineage_dir disk

unfoldable pub drop_pond : String → Rmdir → Disk → Option StorageError × Disk
unfolding pond_exists
drop_pond id rmdir disk =
    if pond_exists id disk
    then elim rmdir [
      | removed ↦ (none, delete_where (is_dir_of id) disk)
      | kept e has_data has_lineage ↦ (
        some (io e),
        update_where (is_dir_of id)
            (λ d. record d { has_data = has_data; has_lineage = has_lineage }) disk,
      )
    ]
    else (some (not_found id), disk)
