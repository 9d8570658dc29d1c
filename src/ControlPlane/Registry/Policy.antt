-- ===== src/ControlPlane/Registry/Policy.antt =====
-- registry.rs: the policy, a table of keys and values.
pub mod Laws
use latiq.Prelude.{String, Bool, List, [], ◌∷◌, ◌++◌, ◌==◌, string_eq, if◌then◌else◌, any, ok}
use latiq.ControlPlane.Registry.{Op, update_where}
use latiq.ControlPlane.Registry.Datasets.{order_by}

abbrev pub has_key : String → String × String → Bool
has_key key row = row.0 == key

-- INSERT … ON CONFLICT (key) DO UPDATE SET value.
unfoldable pub policy_set : (key value : String) → Op (Unit {0})
policy_set key value r = (
  ok tt,
  record r {
    policy =
        if any (has_key key) r.policy
        then update_where (has_key key) (λ row. (row.0, value)) r.policy
        else r.policy ++ (key, value) ∷ [];
  },
)

-- `Map::insert` on the object that is answered, whose entries are (key, value).
unfoldable pub map_insert : String × String → List (String × String) → List (String × String)
map_insert kv [] = kv ∷ []
map_insert (k, v) ((k', v') ∷ kvs) =
    let rest = map_insert (k, v) kvs in if k' == k then (k, v) ∷ kvs else (k', v') ∷ rest

unfoldable pub collect_map :
    List (String × String) → List (String × String) → List (String × String)
unfolding map_insert
collect_map kvs [] = kvs
collect_map kvs (row ∷ rows) = collect_map (map_insert row kvs) rows

unfoldable pub policy_get : Op (List (String × String))
unfolding order_by collect_map
policy_get r = (ok (collect_map [] (order_by (λ kv. kv.0) r.policy)), r)
