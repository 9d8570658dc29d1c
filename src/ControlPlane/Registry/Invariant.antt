-- ===== src/ControlPlane/Registry/Invariant.antt =====
-- What every sequence of the registry's methods keeps: the constraints of migrations.rs, a
-- registered node behind every pond, a canonical tier in every row, and a row behind every tag.
use latiq.Prelude.{
  ℕ, String, Bool, true, ◌≡◌, refl, ap, ◌∙◌, inl, inr, List, [], ◌∷◌, ◌==◌, string_eq, All, any,
  find, any-of-Memᴰ, Bool-cases, Option-cases,
}
use latiq.Prelude.Text.{Text, codes}
use latiq.Common.Tier.{PondTier, as_str, parse}
use latiq.ControlPlane.Registry.{NodeRecord, PondRecord, Registry, update_where, delete_where}
use latiq.ControlPlane.Registry.Tables.{
  Distinct, Distinct-delete_where, Distinct-snoc, Distinct-update_where, All-delete_where,
  All-update_where, All-snoc, All-map, any-append, any-update_where,
}
use latiq.ControlPlane.Registry.Nodes.{
  has_node_id, refreshed, register_node, beat, heartbeat, is_stale, take_down, reap_stale_nodes,
}
use latiq.ControlPlane.Registry.Ponds.{
  NewPond, Draw, create_pond, set_pond_tier, forget_pond, drop_pond, Database, fails, carries_out,
  new_record, has_id, refers, retier, is_served,
}
use text.Mathlib.TextPositions.{eq_refl}
use latiq.ControlPlane.Registry.Ponds.Laws.{create_pond_lem}
use latiq.ControlPlane.Registry.Datasets.Laws.{add_dataset-IsFramed, remove_dataset-IsFramed}
use latiq.ControlPlane.Registry.Datasets.{DatasetRow, add_dataset, remove_dataset}
use latiq.Prelude.{Result}
use latiq.ControlPlane.Registry.Catalogs.{Params, CatalogRow, add_catalog, remove_catalog}
use latiq.ControlPlane.Registry.Catalogs.Laws.{add_catalog-IsFramed, remove_catalog-IsFramed}
use latiq.ControlPlane.Registry.Policy.{policy_set}
use latiq.ControlPlane.Registry.Policy.Laws.{policy_set-IsFramed}
use latiq.ControlPlane.Registry.Labels.{Labels}
use latiq.ControlPlane.Registry.Labels.Methods.{
  add_dataset-Labels, remove_dataset-Labels, add_catalog-Labels, remove_catalog-Labels,
  policy_set-Labels,
}

abbrev pub same_node : NodeRecord → NodeRecord → Bool
same_node m n = m.node_id == n.node_id

abbrev pub same_id : PondRecord → PondRecord → Bool
same_id p q = p.pond_id == q.pond_id

abbrev pub same_name : PondRecord → PondRecord → Bool
same_name p q = p.name == q.name

-- The node that a pond is assigned to has a row.
abbrev pub IsHosted : List NodeRecord → PondRecord → Type 0
IsHosted nodes p = any (has_node_id p.node_id) nodes ≡ true

abbrev pub IsCanonical : PondRecord → Type 0
IsCanonical p = (t : PondTier) × (p.tier ≡ as_str t)

pub record Inv (r : Registry) : Type 0 where
  pub node_ids : Distinct same_node r.nodes
  pub pond_ids : Distinct same_id r.ponds
  pub names : Distinct same_name r.ponds
  pub hosted : All (IsHosted r.nodes) r.ponds
  pub tiers : All IsCanonical r.ponds
  pub labels : Labels r

-- The methods that write, at their arguments.
pub data Call : Type 0 where
  register : (node_id mcp internal : String) (capacity now : ℕ) → Call
  beats : (node_id : String) (now : ℕ) → Call
  reap : (ttl_secs now : ℕ) → Call
  create : Draw → NewPond → Call
  set_tier : (ref tier : String) → Call
  forget : (ref : String) → Call
  drop : Database → (ref : String) → Call
  add : (now : ℕ) → DatasetRow → Call
  remove : (name : String) → Call
  put_catalog : (Params → Result Text Text) → (now : ℕ) → CatalogRow → Call
  del_catalog : (name : String) → Call
  set_policy : (key value : String) → Call

module _ (to_lowercase : Text → Text) where
  unfoldable pub step : Call → Registry → Registry
  step (register id mcp internal capacity now) r = (register_node id mcp internal capacity now r).1
  step (beats id now) r = (heartbeat id now r).1
  step (reap ttl now) r = (reap_stale_nodes ttl now r).1
  step (create draw new) r = (create_pond to_lowercase draw new r).1
  step (set_tier ref tier) r = (set_pond_tier to_lowercase ref tier r).1
  step (forget ref) r = (forget_pond ref r).1
  step (drop db ref) r = (drop_pond db ref r).1
  step (add now d) r = (add_dataset now d r).1
  step (remove name) r = (remove_dataset name r).1
  step (put_catalog to_string now ca) r = (add_catalog to_string now ca r).1
  step (del_catalog name) r = (remove_catalog name r).1
  step (set_policy key value) r = (policy_set key value r).1

  unfoldable pub run : List Call → Registry → Registry
  run [] r = r
  run (c ∷ cs) r = run cs (step c r)

IsHosted-update :
    (p : NodeRecord → Bool) (f : NodeRecord → NodeRecord) (nodes : List NodeRecord)
    (ponds : List PondRecord)
    → ((n : NodeRecord) → (f n).node_id ≡ n.node_id)
    → All (IsHosted nodes) ponds
    → All (IsHosted (update_where p f nodes)) ponds
IsHosted-update p f nodes ponds same h =
    All-map _ _ ponds
      (λ q hq.
        any-update_where (has_node_id q.node_id) p f nodes (λ n. ap (λ i. i == q.node_id) (same n))
        ∙ hq)
      h

-- An UPDATE of nodes that keeps their ids.
nodes-Inv :
    (p : NodeRecord → Bool) (f : NodeRecord → NodeRecord) (r : Registry)
    → ((n : NodeRecord) → (f n).node_id ≡ n.node_id)
    → Inv r
    → Inv (record r { nodes = update_where p f r.nodes })
nodes-Inv p f r same v = record {
  node_ids =
      Distinct-update_where same_node p f r.nodes (λ m n. ap (λ i. i == n.node_id) (same m))
        (λ m n. ap (λ i. m.node_id == i) (same n)) v.node_ids;
  pond_ids = v.pond_ids;
  names = v.names;
  hosted = IsHosted-update p f r.nodes r.ponds same v.hosted;
  tiers = v.tiers;
  labels = v.labels;
}

register_node-Inv :
    (id mcp internal : String) (capacity now : ℕ) (r : Registry)
    → Inv r
    → Inv (register_node id mcp internal capacity now r).1
unfolding register_node
register_node-Inv id mcp internal capacity now r v =
    elim (Bool-cases (any (has_node_id id) r.nodes)) [
      | inl e ↦
          rw e (nodes-Inv (has_node_id id) (refreshed mcp internal capacity now) r (λ n. refl) v)
      | inr e ↦ rw e (record {
        node_ids = Distinct-snoc same_node r.nodes _ v.node_ids e;
        pond_ids = v.pond_ids;
        names = v.names;
        hosted = All-map _ _ r.ponds (λ p h. any-append _ r.nodes _ h) v.hosted;
        tiers = v.tiers;
        labels = v.labels;
      })
    ]

heartbeat-Inv : (id : String) (now : ℕ) (r : Registry) → Inv r → Inv (heartbeat id now r).1
unfolding heartbeat
heartbeat-Inv id now r v = elim (Bool-cases (any (has_node_id id) r.nodes)) [
  | inl e ↦ rw e (nodes-Inv (has_node_id id) (beat now) r (λ n. refl) v)
  | inr e ↦ rw e v
]

reap-Inv : (ttl now : ℕ) (r : Registry) → Inv r → Inv (reap_stale_nodes ttl now r).1
unfolding reap_stale_nodes
reap-Inv ttl now r v = nodes-Inv (is_stale ttl now) take_down r (λ n. refl) v

-- A DELETE of ponds.
delete-Inv :
    (p : PondRecord → Bool) (r : Registry)
    → Inv r
    → Inv (record r { ponds = delete_where p r.ponds })
delete-Inv p r v = record {
  node_ids = v.node_ids;
  pond_ids = Distinct-delete_where same_id p r.ponds v.pond_ids;
  names = Distinct-delete_where same_name p r.ponds v.names;
  hosted = All-delete_where _ p r.ponds v.hosted;
  tiers = All-delete_where _ p r.ponds v.tiers;
  labels = v.labels;
}

create-Inv :
    (to_lowercase : Text → Text) (draw : Draw) (new : NewPond) (r : Registry)
    → Inv r
    → Inv (create_pond to_lowercase draw new r).1
unfolding new_record
create-Inv lower draw new r v = elim (create_pond_lem lower draw new r) [
  | inl (why, e) ↦ rw e v
  | inr c ↦ rw c.result_eq (record {
    node_ids = v.node_ids;
    pond_ids = Distinct-snoc same_id r.ponds _ v.pond_ids c.free_id;
    names = Distinct-snoc same_name r.ponds _ v.names c.free_name;
    hosted =
        All-snoc _ r.ponds _ v.hosted
          (any-of-Memᴰ _ r.nodes c.node c.listed (eq_refl c.node.node_id));
    tiers = All-snoc _ r.ponds _ v.tiers (c.tier, refl);
    labels = v.labels;
  })
]

set_tier-Inv :
    (to_lowercase : Text → Text) (ref tier : String) (r : Registry)
    → Inv r
    → Inv (set_pond_tier to_lowercase ref tier r).1
unfolding set_pond_tier
set_tier-Inv lower ref tier r v = elim (Option-cases (parse lower (codes tier))) [
  | inl e ↦ rw e v
  | inr (t, e) ↦ elim (Bool-cases (any (refers ref) r.ponds)) [
    | inl found ↦
        rw (e, found)
          (record {
            node_ids = v.node_ids;
            pond_ids =
                Distinct-update_where same_id (refers ref) (retier lower t) r.ponds (λ p q. refl)
                  (λ p q. refl) v.pond_ids;
            names =
                Distinct-update_where same_name (refers ref) (retier lower t) r.ponds (λ p q. refl)
                  (λ p q. refl) v.names;
            hosted = All-update_where _ (refers ref) (retier lower t) r.ponds (λ p h. h) v.hosted;
            tiers =
                All-update_where _ (refers ref) (retier lower t) r.ponds (λ p h. (t, refl)) v.tiers;
            labels = v.labels;
          })
    | inr missing ↦ rw (e, missing) v
  ]
]

drop-Inv : (db : Database) (ref : String) (r : Registry) → Inv r → Inv (drop_pond db ref r).1
unfolding drop_pond
drop-Inv fails ref r v = v
drop-Inv carries_out ref r v = elim (Bool-cases (any (refers ref) r.ponds)) [
  | inl e ↦ rw e (delete-Inv (refers ref) r v)
  | inr e ↦ rw e v
]

forget-Inv : (ref : String) (r : Registry) → Inv r → Inv (forget_pond ref r).1
unfolding forget_pond
forget-Inv ref r v = elim (Option-cases (find (refers ref) r.ponds)) [
  | inl e ↦ rw (e, forget_pond) v
  | inr (p, e) ↦ elim (Bool-cases (is_served (find (has_node_id p.node_id) r.nodes))) [
    | inl served ↦ rw (e, forget_pond, served) v
    | inr free ↦ rw (e, forget_pond, free) (delete-Inv (has_id p.pond_id) r v)
  ]
]

-- Apart from the labels, the invariant reads `nodes` and `ponds` alone.
framed-Inv : (r s : Registry) → (s.nodes ≡ r.nodes) × (s.ponds ≡ r.ponds) → Labels s → Inv r → Inv s
framed-Inv r s (n, p) l v = record {
  node_ids = rw n v.node_ids;
  pond_ids = rw p v.pond_ids;
  names = rw p v.names;
  hosted = rw (n, p) v.hosted;
  tiers = rw p v.tiers;
  labels = l;
}

-- Every method keeps the invariant, whether it succeeds or fails.
pub step-Inv :
    (to_lowercase : Text → Text) (c : Call) (r : Registry) → Inv r → Inv (step to_lowercase c r)
unfolding step
step-Inv lower (register id mcp internal capacity now) r v =
    register_node-Inv id mcp internal capacity now r v
step-Inv lower (beats id now) r v = heartbeat-Inv id now r v
step-Inv lower (reap ttl now) r v = reap-Inv ttl now r v
step-Inv lower (create draw new) r v = create-Inv lower draw new r v
step-Inv lower (set_tier ref tier) r v = set_tier-Inv lower ref tier r v
step-Inv lower (forget ref) r v = forget-Inv ref r v
step-Inv lower (drop db ref) r v = drop-Inv db ref r v
step-Inv lower (add now d) r v =
    framed-Inv r _ (add_dataset-IsFramed now d r) (add_dataset-Labels now d r v.labels) v
step-Inv lower (remove name) r v =
    framed-Inv r _ (remove_dataset-IsFramed name r) (remove_dataset-Labels name r v.labels) v
step-Inv lower (put_catalog to_string now ca) r v =
    framed-Inv r _ (add_catalog-IsFramed to_string now ca r)
      (add_catalog-Labels to_string now ca r v.labels) v
step-Inv lower (del_catalog name) r v =
    framed-Inv r _ (remove_catalog-IsFramed name r) (remove_catalog-Labels name r v.labels) v
step-Inv lower (set_policy key value) r v =
    framed-Inv r _ (policy_set-IsFramed key value r) (policy_set-Labels key value r v.labels) v

-- After any sequence of methods on a registry that satisfies the constraints, node ids, pond ids,
-- pond names, the names of datasets and of catalogs and the keys of the policy are still unique,
-- every pond's node has a row, every tier is a canonical name, and every tag belongs to a dataset or
-- catalog that is there.
pub run-Inv :
    (to_lowercase : Text → Text) (cs : List Call) (r : Registry)
    → Inv r
    → Inv (run to_lowercase cs r)
unfolding run
run-Inv lower [] r v = v
run-Inv lower (c ∷ cs) r v = run-Inv lower cs (step lower c r) (step-Inv lower c r v)
