-- ===== src/Storage/LocalFs/Laws.antt =====
-- What the storage calls promise to one another.
use latiq.Prelude.{
  String, Bool, true, false, ◌≡◌, refl, sym, ap, ◌∙◌, inl, inr, ◌⊎◌, [], ◌∷◌, ◌++◌, none, some,
  arith, eq_iff, any, find, ◌==◌, string_eq, ok, err, ok_injective, Option, Bool-cases,
}
use latiq.Prelude.Text.{Text}
use latiq.ControlPlane.Registry.{update_where}
use latiq.ControlPlane.Registry.Tables.{any-update_where, any-snoc}
use latiq.ControlPlane.Registry.Keyed.{any-delete_same, find-append_other}
use latiq.Storage.LocalFs.{
  PondDir, PondLocation, Disk, Mkdir, made, nothing_made, parents_made, removed, StorageError,
  not_found, pond_exists, is_dir_of, location_for, has_lineage_dir, with_lineage,
  create_lineage_dir, provision, finish, create_pond, ensure_pond, pond_location, drop_pond,
}

find-update_other :
    (id other : String) (f : PondDir → PondDir) (disk : Disk)
    → ((d : PondDir) → (f d).pond_id ≡ d.pond_id)
    → (other == id) ≡ false
    → find (is_dir_of other) (update_where (is_dir_of id) f disk) ≡ find (is_dir_of other) disk
unfolding find update_where
find-update_other id other f [] same h = refl
find-update_other id other f (d ∷ ds) same h = ground (
  arith,
  find-update_other id other f ds same h,
  same d,
  eq_iff d.pond_id id,
  eq_iff d.pond_id other,
  eq_iff other id,
)

create_lineage_dir-other :
    (id other : String) (mkdir : Mkdir) (disk : Disk)
    → (other == id) ≡ false
    → find (is_dir_of other) (create_lineage_dir id mkdir disk).1 ≡ find (is_dir_of other) disk
unfolding create_lineage_dir
create_lineage_dir-other id other mkdir disk h =
    ground (arith, find-update_other id other with_lineage disk (λ d. refl) h)

-- What `create_lineage_dir` leaves of the pond itself.
pub create_lineage_dir-exists :
    (id : String) (mkdir : Mkdir) (disk : Disk)
    → pond_exists id (create_lineage_dir id mkdir disk).1 ≡ pond_exists id disk
unfolding create_lineage_dir pond_exists
create_lineage_dir-exists id mkdir disk =
    ground (arith, any-update_where (is_dir_of id) (is_dir_of id) with_lineage disk (λ d. refl))

any-has_lineage_dir :
    (id : String) (disk : Disk)
    → any (is_dir_of id) disk ≡ true
    → any (has_lineage_dir id) (update_where (is_dir_of id) with_lineage disk) ≡ true
unfolding any update_where
any-has_lineage_dir id [] h = absurd (ground arith)
any-has_lineage_dir id (d ∷ ds) h = ground (arith, any-has_lineage_dir id ds)

create_lineage_dir-none :
    (id : String) (mkdir : Mkdir) (disk : Disk)
    → pond_exists id disk ≡ true
    → (create_lineage_dir id mkdir disk).0 ≡ none
    → any (has_lineage_dir id) (create_lineage_dir id mkdir disk).1 ≡ true
unfolding create_lineage_dir pond_exists
create_lineage_dir-none id mkdir disk h e = ground (arith, any-has_lineage_dir id disk h)

pub exists_snoc :
    (id : String) (has_data : Bool) (disk : Disk)
    → pond_exists id
        (disk ++ record { pond_id = id; has_data = has_data; has_lineage = false } ∷ [])
      ≡ true
unfolding pond_exists
exists_snoc id has_data disk = any-snoc (is_dir_of id) disk _ ((eq_iff id id).1 refl)

not_same : (id other : String) → (other == id) ≡ false → (id == other) ≡ false
not_same id other h = ground (arith, eq_iff id other, eq_iff other id)

module _ (root : Text) where
  pub finish-disk : (id : String) (r : Option StorageError × Disk) → (finish root id r).1 ≡ r.1
  unfolding finish
  finish-disk id (none, disk) = refl
  finish-disk id (some e, disk) = refl

  finish-ok :
      (id : String) (r : Option StorageError × Disk) (loc : PondLocation)
      → (finish root id r).0 ≡ ok loc
      → (r.0 ≡ none) × (loc ≡ location_for root id)
  unfolding finish
  finish-ok id (none, disk) loc h = (refl, sym (ok_injective h))
  finish-ok id (some e, disk) loc h = absurd (ground arith)

  provision-other :
      (id other : String) (lineage : Bool) (lineage_dir : Mkdir) (disk : Disk)
      → (other == id) ≡ false
      → find (is_dir_of other) (provision root id lineage lineage_dir disk).1
        ≡ find (is_dir_of other) disk
  unfolding provision
  provision-other id other true lineage_dir disk h =
      ap (find (is_dir_of other)) (finish-disk id _)
      ∙ create_lineage_dir-other id other lineage_dir disk h
  provision-other id other false lineage_dir disk h =
      ap (find (is_dir_of other)) (finish-disk id (none, disk))

  -- The location is the pond's, the pond exists, and so does its lineage directory if one is wanted.
  abbrev pub IsReady : String → (lineage : Bool) → PondLocation → Disk → Type 0
  IsReady id lineage loc disk =
      (loc ≡ location_for root id)
      × (pond_exists id disk ≡ true)
      × (lineage ≡ false ⊎ any (has_lineage_dir id) disk ≡ true)

  provision-ok :
      (id : String) (lineage : Bool) (lineage_dir : Mkdir) (disk : Disk) (loc : PondLocation)
      → pond_exists id disk ≡ true
      → (provision root id lineage lineage_dir disk).0 ≡ ok loc
      → IsReady id lineage loc (provision root id lineage lineage_dir disk).1
  unfolding provision
  provision-ok id true lineage_dir disk loc e h =
      let (none_eq, loc_eq) = finish-ok id (create_lineage_dir id lineage_dir disk) loc h in
      rw (finish-disk id (create_lineage_dir id lineage_dir disk)) (
        loc_eq,
        create_lineage_dir-exists id lineage_dir disk ∙ e,
        inr (create_lineage_dir-none id lineage_dir disk e none_eq),
      )
  provision-ok id false lineage_dir disk loc e h =
      let (none_eq, loc_eq) = finish-ok id (none, disk) loc h in
      rw (finish-disk id (none, disk)) (loc_eq, e, inl refl)

  create_pond-other :
      (id other : String) (lineage : Bool) (data_dir lineage_dir : Mkdir) (disk : Disk)
      → pond_exists id disk ≡ false
      → (other == id) ≡ false
      → find (is_dir_of other) (create_pond root id lineage data_dir lineage_dir disk).1
        ≡ find (is_dir_of other) disk
  unfolding create_pond
  create_pond-other id other lineage made lineage_dir disk e h = rw e (
      provision-other id other lineage lineage_dir _ h
      ∙ find-append_other (λ d. d.pond_id) other disk _ (not_same id other h))
  create_pond-other id other lineage (nothing_made x) lineage_dir disk e h = rw e refl
  create_pond-other id other lineage (parents_made x) lineage_dir disk e h =
      rw e (find-append_other (λ d. d.pond_id) other disk _ (not_same id other h))

  create_pond-ok :
      (id : String) (lineage : Bool) (data_dir lineage_dir : Mkdir) (disk : Disk)
      (loc : PondLocation)
      → pond_exists id disk ≡ false
      → (create_pond root id lineage data_dir lineage_dir disk).0 ≡ ok loc
      → IsReady id lineage loc (create_pond root id lineage data_dir lineage_dir disk).1
  unfolding create_pond
  create_pond-ok id lineage made lineage_dir disk loc e h =
      rw e (provision-ok id lineage lineage_dir _ loc (exists_snoc id true disk) (rw e at h))
  create_pond-ok id lineage (nothing_made x) lineage_dir disk loc e h = absurd (cc (rw e at h))
  create_pond-ok id lineage (parents_made x) lineage_dir disk loc e h = absurd (cc (rw e at h))

  pub ensure_pond-old :
      (id : String) (lineage : Bool) (data_dir lineage_dir : Mkdir) (disk : Disk)
      → pond_exists id disk ≡ true
      → ensure_pond root id lineage data_dir lineage_dir disk
        ≡ provision root id lineage lineage_dir disk
  unfolding ensure_pond
  ensure_pond-old id lineage data_dir lineage_dir disk e = rw e refl

  ensure_pond-new :
      (id : String) (lineage : Bool) (data_dir lineage_dir : Mkdir) (disk : Disk)
      → pond_exists id disk ≡ false
      → ensure_pond root id lineage data_dir lineage_dir disk
        ≡ create_pond root id lineage data_dir lineage_dir disk
  unfolding ensure_pond create_pond
  ensure_pond-new id lineage data_dir lineage_dir disk e = rw e refl

  -- `ensure_pond` never touches the directory of another pond, whether it succeeds or fails.
  pub ensure_pond-other :
      (id other : String) (lineage : Bool) (data_dir lineage_dir : Mkdir) (disk : Disk)
      → (other == id) ≡ false
      → find (is_dir_of other) (ensure_pond root id lineage data_dir lineage_dir disk).1
        ≡ find (is_dir_of other) disk
  ensure_pond-other id other lineage data_dir lineage_dir disk h =
      elim (Bool-cases (pond_exists id disk)) [
        | inl e ↦
            rw (ensure_pond-old id lineage data_dir lineage_dir disk e)
              (provision-other id other lineage lineage_dir disk h)
        | inr e ↦
            rw (ensure_pond-new id lineage data_dir lineage_dir disk e)
              (create_pond-other id other lineage data_dir lineage_dir disk e h)
      ]

  -- A call of `ensure_pond` that succeeds answers the pond's location, and the pond exists, with its
  -- lineage directory if one is wanted.
  pub ensure_pond-ok :
      (id : String) (lineage : Bool) (data_dir lineage_dir : Mkdir) (disk : Disk)
      (loc : PondLocation)
      → (ensure_pond root id lineage data_dir lineage_dir disk).0 ≡ ok loc
      → IsReady id lineage loc (ensure_pond root id lineage data_dir lineage_dir disk).1
  ensure_pond-ok id lineage data_dir lineage_dir disk loc h =
      elim (Bool-cases (pond_exists id disk)) [
        | inl e ↦
            let old = ensure_pond-old id lineage data_dir lineage_dir disk e in
            rw old (provision-ok id lineage lineage_dir disk loc e (rw old at h))
        | inr e ↦
            let new = ensure_pond-new id lineage data_dir lineage_dir disk e in
            rw new (create_pond-ok id lineage data_dir lineage_dir disk loc e (rw new at h))
      ]

-- After a removal that succeeds, the pond does not exist and has no location.
pub drop_pond-removed :
    (root : Text) (id : String) (disk : Disk)
    → pond_exists id disk ≡ true
    → ((drop_pond id removed disk).0 ≡ none)
      × (pond_exists id (drop_pond id removed disk).1 ≡ false)
      × (pond_location root id (drop_pond id removed disk).1 ≡ err (not_found id))
unfolding drop_pond pond_location pond_exists
drop_pond-removed root id disk h =
    rw (h, any-delete_same (λ d. d.pond_id) id disk) (refl, refl, refl)
