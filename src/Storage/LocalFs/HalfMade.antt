-- ===== src/Storage/LocalFs/HalfMade.antt =====
-- What becomes of a pond whose creation has failed between its directory and the `data` directory in it.
use latiq.Prelude.{
  String, Bool, true, false, ◌≡◌, ◌≢◌, refl, ◌∙◌, inl, inr, ◌⊎◌, List, [], ◌∷◌, ◌++◌, Option, none,
  some, arith, any, ◌==◌, string_eq, ok, err, if◌then◌else◌,
}
use latiq.Prelude.Text.{Text}
use latiq.ControlPlane.Registry.Tables.{any-update_where}
use latiq.Storage.LocalFs.{
  PondDir, Disk, Mkdir, made, nothing_made, parents_made, StorageError, already_exists, pond_exists,
  is_dir_of, location_for, with_lineage, create_lineage_dir, provision, finish, create_pond,
  ensure_pond,
}
use latiq.Storage.LocalFs.Laws.{
  exists_snoc, create_lineage_dir-exists, finish-disk, ensure_pond-old,
}

abbrev pub has_data_dir : String → PondDir → Bool
has_data_dir id d = if d.pond_id == id then d.has_data else false

-- The pond exists, without its `data` directory.
abbrev pub IsHalfMade : String → Disk → Type 0
IsHalfMade id disk = (pond_exists id disk ≡ true) × (any (has_data_dir id) disk ≡ false)

any-has_data_dir :
    (id : String) (disk : Disk)
    → pond_exists id disk ≡ false
    → any
        (has_data_dir id)
        (disk ++ record { pond_id = id; has_data = false; has_lineage = false } ∷ [])
      ≡ false
unfolding pond_exists any
any-has_data_dir id [] h = ground arith
any-has_data_dir id (d ∷ ds) h = ground (arith, any-has_data_dir id ds)

create_lineage_dir-has_data_dir :
    (id : String) (mkdir : Mkdir) (disk : Disk)
    → any (has_data_dir id) (create_lineage_dir id mkdir disk).1 ≡ any (has_data_dir id) disk
unfolding create_lineage_dir
create_lineage_dir-has_data_dir id mkdir disk =
    ground (arith, any-update_where (has_data_dir id) (is_dir_of id) with_lineage disk (λ d. refl))

create_lineage_dir_made : (id : String) (disk : Disk) → (create_lineage_dir id made disk).0 ≡ none
unfolding create_lineage_dir
create_lineage_dir_made id disk = ground arith

-- One call of `ensure_pond`: whether it wants lineage, and what the operating system answers.
abbrev pub Request : Type 0
Request = Bool × Mkdir × Mkdir

module _ (root : Text) where
  finish-none :
      (id : String) (r : Option StorageError × Disk)
      → r.0 ≡ none
      → (finish root id r).0 ≡ ok (location_for root id)
  unfolding finish
  finish-none id (none, disk) h = refl
  finish-none id (some e, disk) h = absurd (cc h)

  provision-IsHalfMade :
      (id : String) (lineage : Bool) (mkdir : Mkdir) (disk : Disk)
      → IsHalfMade id disk
      → IsHalfMade id (provision root id lineage mkdir disk).1
  unfolding provision
  provision-IsHalfMade id true mkdir disk (e, h) =
      rw (finish-disk root id (create_lineage_dir id mkdir disk)) (
        create_lineage_dir-exists id mkdir disk ∙ e,
        create_lineage_dir-has_data_dir id mkdir disk ∙ h,
      )
  provision-IsHalfMade id false mkdir disk h = rw (finish-disk root id (none, disk)) h

  provision_ready :
      (id : String) (lineage : Bool) (mkdir : Mkdir) (disk : Disk)
      → (provision root id lineage mkdir disk).0 ≡ ok (location_for root id)
        ⊎ (lineage ≡ true) × (mkdir ≢ made)
  unfolding provision
  provision_ready id false mkdir disk = inl (finish-none id (none, disk) refl)
  provision_ready id true made disk =
      inl (finish-none id (create_lineage_dir id made disk) (create_lineage_dir_made id disk))
  provision_ready id true (nothing_made e) disk = inr (refl, λ h. cc)
  provision_ready id true (parents_made e) disk = inr (refl, λ h. cc)

  abbrev pub ensure_all : String → List Request → Disk → Disk
  ensure_all id [] disk = disk
  ensure_all id ((lineage, data_dir, lineage_dir) ∷ later) disk =
      ensure_all id later (ensure_pond root id lineage data_dir lineage_dir disk).1

  ensure_all-IsHalfMade :
      (id : String) (later : List Request) (disk : Disk)
      → IsHalfMade id disk
      → IsHalfMade id (ensure_all id later disk)
  ensure_all-IsHalfMade id [] disk h = h
  ensure_all-IsHalfMade id ((lineage, data_dir, lineage_dir) ∷ later) disk h =
      ensure_all-IsHalfMade id later _ (
        rw (ensure_pond-old root id lineage data_dir lineage_dir disk h.0)
          (provision-IsHalfMade id lineage lineage_dir disk h))

  -- Of a pond that does not exist, a creation that fails between the pond's directory and its `data` leaves a pond
  -- that no number of later calls of `ensure_pond` gives a `data` directory, whatever the operating system
  -- answers. After any of them the next is accepted, unless it wants lineage and its lineage directory
  -- cannot be made, and `create_pond` answers that the pond already exists.
  pub ensure_pond-half_made :
      (id : String) (why : Text) (lineage : Bool) (n : Mkdir) (later : List Request) (wants : Bool)
      (data_dir lineage_dir : Mkdir) (disk : Disk)
      → pond_exists id disk ≡ false
      → let left = ensure_all id later (ensure_pond root id lineage (parents_made why) n disk).1 in
        (any (has_data_dir id) left ≡ false)
        × ((ensure_pond root id wants data_dir lineage_dir left).0 ≡ ok (location_for root id)
            ⊎ (wants ≡ true) × (lineage_dir ≢ made))
        × ((create_pond root id wants data_dir lineage_dir left).0 ≡ err (already_exists id))
  unfolding ensure_pond create_pond
  ensure_pond-half_made id why lineage n later wants data_dir lineage_dir disk h =
      let half =
        ensure_all-IsHalfMade id later (ensure_pond root id lineage (parents_made why) n disk).1
          (rw h (exists_snoc id false disk, any-has_data_dir id disk h)) in
      (
        half.1,
        rw half.0 (
            provision_ready id wants lineage_dir
              (ensure_all id later (ensure_pond root id lineage (parents_made why) n disk).1)),
        rw half.0 refl,
      )
