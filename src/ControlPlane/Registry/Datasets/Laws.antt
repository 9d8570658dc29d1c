-- ===== src/ControlPlane/Registry/Datasets/Laws.antt =====
-- What a dataset's transaction leaves alone: nodes and ponds, on every path.
use latiq.Prelude.{ℕ, String, ◌≡◌, refl, List, [], ◌∷◌, string_eq, arith}
use latiq.ControlPlane.Registry.{DatasetTableRow, Registry, Op}
use latiq.ControlPlane.Registry.Datasets.{
  DatasetRow, in_txn, clear_dataset, insert_dataset, insert_table, insert_tables, write_dataset,
  add_dataset, remove_dataset,
}

-- An operation that writes neither `nodes` nor `ponds`.
abbrev pub IsFramed : {A : Type 0} → Op A → Type 0
IsFramed m = (r : Registry) → ((m r).1.nodes ≡ r.nodes) × ((m r).1.ponds ≡ r.ponds)

insert_table-IsFramed : (name : String) (t : DatasetTableRow) → IsFramed (insert_table name t)
unfolding insert_table
insert_table-IsFramed name t r = ground arith

insert_tables-IsFramed :
    (name : String) (ts : List DatasetTableRow) → IsFramed (insert_tables name ts)
unfolding insert_tables
insert_tables-IsFramed name [] r = (refl, refl)
insert_tables-IsFramed name (t ∷ ts) r = ground (
  arith,
  insert_table-IsFramed name t r,
  insert_tables-IsFramed name ts (insert_table name t r).1,
)

insert_dataset-IsFramed : (now : ℕ) (d : DatasetRow) → IsFramed (insert_dataset now d)
unfolding insert_dataset
insert_dataset-IsFramed now d r = ground arith

clear_dataset-IsFramed : (name : String) → IsFramed (clear_dataset name)
unfolding clear_dataset
clear_dataset-IsFramed name r = (refl, refl)

write_dataset-IsFramed : (now : ℕ) (d : DatasetRow) → IsFramed (write_dataset now d)
unfolding write_dataset
write_dataset-IsFramed now d r = ground (
  arith,
  clear_dataset-IsFramed d.name r,
  insert_dataset-IsFramed now d cleared,
  insert_tables-IsFramed d.name d.tables (insert_dataset now d cleared).1,
)
  where
    cleared : Registry
    cleared = (clear_dataset d.name r).1

in_txn-IsFramed : (f : Op (Unit {0})) → IsFramed f → IsFramed (in_txn f)
unfolding in_txn
in_txn-IsFramed f h r = ground (arith, h r)

pub add_dataset-IsFramed : (now : ℕ) (d : DatasetRow) → IsFramed (add_dataset now d)
unfolding add_dataset
add_dataset-IsFramed now d r =
    ground (arith, in_txn-IsFramed (write_dataset now d) (write_dataset-IsFramed now d) r)

pub remove_dataset-IsFramed : (name : String) → IsFramed (remove_dataset name)
unfolding remove_dataset
remove_dataset-IsFramed name r = ground arith
