-- ===== src/ControlPlane/Registry/Ponds.antt =====
-- registry.rs: the life of a pond's row. A caller's reference is a pond's id or its name.
pub mod Laws
pub mod Total
use latiq.Prelude.{
  ℕ, ◌%◌, String, Bool, true, false, ◌&&◌, ◌||◌, not, List, [], ◌∷◌, ◌++◌, map, Option, none, some,
  eqb, ◌==◌, string_eq, if◌then◌else◌, any, find, keep, length, get_elem?, Result, ok, err,
}
use latiq.Prelude.Text.{Text, codes}
use latiq.Common.Tier.{PondTier, uncapped, as_str, parse, parse_for_create}
use latiq.Common.PondName
use latiq.Common.Extensions.{join, parse_csv}
use latiq.ControlPlane.Registry.{
  NodeState, NodeRecord, PondRecord, Registry, invalid, unknown_tier, operator_only_tier, bad_name,
  no_node_available, name_conflict, duckdb, pond_not_found, pond_still_owned, Op, ◌>>=◌, ◌>>◌,
  return, fail_if, or_fail, lift_err, update_where, delete_where, find_map,
}
use latiq.ControlPlane.Registry.Nodes.{is_active, has_node_id}

pub record PondRow : Type 0 where
  pub pond_id : String
  pub name : String
  pub owner_identity : String
  pub node_id : String
  pub tier : String
  pub extensions : List Text
  pub description : String
  pub lineage : Bool

-- The arguments of `create_pond`.
pub record NewPond : Type 0 where
  pub name : Option String
  pub owner_identity : String
  pub policy_json : String
  pub tier : String
  pub extensions : List Text
  pub description : String
  pub lineage : Bool

-- What `create_pond` draws: a new UUID, the number behind ORDER BY random(), and the time.
pub record Draw : Type 0 where
  pub pond_id : String
  pub roll : ℕ
  pub now : ℕ

abbrev pub is_uncapped : PondTier → Bool
is_uncapped uncapped = true
is_uncapped _ = false

unfoldable pub check_name : Option String → Op (Unit {0})
check_name none = return tt
check_name (some n) = lift_err (PondName.validate (codes n)) (λ e. invalid (bad_name e))

abbrev pub name_or : String → Option String → String
name_or id none = id
name_or id (some n) = n

-- SELECT node_id FROM nodes WHERE state='active' ORDER BY random() LIMIT 1.
abbrev pub is_placeable : NodeRecord → Bool
is_placeable n = is_active n.state

unfoldable pub pick_active : ℕ → List NodeRecord → Option NodeRecord
pick_active roll nodes =
    let open_nodes = keep is_placeable nodes in get_elem? open_nodes (roll % length open_nodes)

abbrev pub named : String → PondRecord → Bool
named name p = p.name == name

abbrev pub has_id : String → PondRecord → Bool
has_id id p = p.pond_id == id

-- WHERE pond_id=? OR name=?.
abbrev pub refers : String → PondRecord → Bool
refers ref p = p.pond_id == ref || p.name == ref

-- The columns that the code reads back, by `parse_csv` where it stored by `join`.
unfoldable pub pond_row : PondRecord → PondRow
pond_row p = record {
  pond_id = p.pond_id;
  name = p.name;
  owner_identity = p.owner_identity;
  node_id = p.node_id;
  tier = p.tier;
  extensions = parse_csv p.extensions;
  description = p.description;
  lineage = p.lineage;
}

-- INSERT INTO ponds, where `pond_id` is the PRIMARY KEY and `name` is UNIQUE.
unfoldable pub insert_pond : PondRecord → Op (Unit {0})
insert_pond p r =
    if any (has_id p.pond_id) r.ponds || any (named p.name) r.ponds
    then (err duckdb, r)
    else (ok tt, record r { ponds = r.ponds ++ p ∷ [] })

-- The row that `create_pond` writes, and the one that it returns.
unfoldable pub new_record :
    (id : String) (now : ℕ) (name : String) → NewPond → PondTier → NodeRecord → PondRecord
new_record id now name new tier node = record {
  pond_id = id;
  name = name;
  owner_identity = new.owner_identity;
  node_id = node.node_id;
  policy_json = new.policy_json;
  created_at = now;
  tier = as_str tier;
  extensions = join new.extensions;
  description = new.description;
  lineage = new.lineage;
}

unfoldable pub new_row : (id name : String) → NewPond → PondTier → NodeRecord → PondRow
new_row id name new tier node = record {
  pond_id = id;
  name = name;
  owner_identity = new.owner_identity;
  node_id = node.node_id;
  tier = as_str tier;
  extensions = new.extensions;
  description = new.description;
  lineage = new.lineage;
}

-- From the lock on: the placement, the name's uniqueness and the row.
unfoldable pub place :
    (id : String) (roll now : ℕ) (name : String) → NewPond → PondTier → Op PondRow
unfolding pick_active insert_pond new_record new_row
place id roll now name new tier r = elim (pick_active roll r.nodes) [
  | none ↦ (err no_node_available, r)
  | some node ↦
      if any (named name) r.ponds
      then (err (name_conflict name), r)
      else ((do
        insert_pond (new_record id now name new tier node)
        return (new_row id name new tier node))
          r)
]

module _ (to_lowercase : Text → Text) where
  unfoldable pub create_pond : Draw → NewPond → Op PondRow
  unfolding check_name place
  create_pond draw new = do
    tier ← lift_err (parse_for_create to_lowercase (codes new.tier)) (λ t. invalid (unknown_tier t))
    fail_if (is_uncapped tier) (invalid operator_only_tier)
    check_name new.name
    place draw.pond_id draw.roll draw.now (name_or draw.pond_id new.name) new tier

  abbrev pub retier : PondTier → PondRecord → PondRecord
  retier t p = record p { tier = as_str t }

  unfoldable pub set_pond_tier : String → String → Op (Unit {0})
  set_pond_tier ref tier = do
    t ← or_fail (parse to_lowercase (codes tier)) (invalid (unknown_tier (codes tier)))
    λ r.
        if any (refers ref) r.ponds
        then (ok tt, record r { ponds = update_where (refers ref) (retier t) r.ponds })
        else (err (pond_not_found ref), r)

-- FROM ponds p JOIN nodes n …: the pair of one joined row.
unfoldable pub located : Registry → String → PondRecord → Option (String × String)
located r ref p =
    if refers ref p
    then elim (find (has_node_id p.node_id) r.nodes) [
      | none ↦ none
      | some n ↦ some (p.pond_id, n.internal_endpoint)
    ]
    else none

unfoldable pub get_pond_location : String → Op (String × String)
unfolding located
get_pond_location ref r = or_fail (find_map (located r ref) r.ponds) (pond_not_found ref) r

abbrev pub endpoint_of : Option NodeRecord → Option String
endpoint_of none = none
endpoint_of (some n) = some n.internal_endpoint

-- With a LEFT JOIN: the row, its creation time, its policy, and its node's endpoint if there is one.
unfoldable pub pond_info : String → Op (PondRow × ℕ × String × Option String)
unfolding pond_row
pond_info ref r = elim (find (refers ref) r.ponds) [
  | none ↦ (err (pond_not_found ref), r)
  | some p ↦ (
    ok (
      pond_row p,
      p.created_at,
      p.policy_json,
      endpoint_of (find (has_node_id p.node_id) r.nodes),
    ),
    r,
  )
]

-- The state that the operator is told of: the node's, or that there is no such node.
pub data ForgottenState : Type 0 where
  known : NodeState → ForgottenState
  unregistered : ForgottenState

pub record ForgottenPond : Type 0 where
  pub pond_id : String
  pub name : String
  pub node_id : String
  pub node_state : ForgottenState

-- `state == "active" && !endpoint.is_empty()`, where a missing node row reads as two empty texts.
unfoldable pub is_served : Option NodeRecord → Bool
is_served none = false
is_served (some n) = is_active n.state && not (n.internal_endpoint == "")

abbrev forgotten_state : Option NodeRecord → ForgottenState
forgotten_state none = unregistered
forgotten_state (some n) = known n.state

unfoldable pub forget_pond : String → Op ForgottenPond
unfolding is_served
forget_pond ref r = elim (find (refers ref) r.ponds) [
  | none ↦ (err (pond_not_found ref), r)
  | some p ↦
      let node = find (has_node_id p.node_id) r.nodes in
      if is_served node then (err (pond_still_owned p.name p.node_id), r) else (
        ok (record {
          pond_id = p.pond_id;
          name = p.name;
          node_id = p.node_id;
          node_state = forgotten_state node;
        }),
        record r { ponds = delete_where (has_id p.pond_id) r.ponds },
      )
]

-- What the database answers to a statement: it carries it out, or fails and changes nothing.
pub data Database : Type 0 where
  carries_out fails : Database

unfoldable pub drop_pond : Database → String → Op (Unit {0})
drop_pond fails ref r = (err duckdb, r)
drop_pond carries_out ref r =
    if any (refers ref) r.ponds
    then (ok tt, record r { ponds = delete_where (refers ref) r.ponds })
    else (err (pond_not_found ref), r)
