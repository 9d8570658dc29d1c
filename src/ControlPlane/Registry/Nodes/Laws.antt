-- ===== src/ControlPlane/Registry/Nodes/Laws.antt =====
-- Liveness of nodes: what a heartbeat, the reaper and a placement promise to one another.
use mathlib.Core.List.{Memᴰ}
use mathlib.Core.List.{Memᴰ}
use latiq.ControlPlane.Registry.Tables.{All-of-Memᴰ}
use latiq.Prelude.{
  ℕ, ◌+◌, ◌*◌, ◌≤◌, String, true, ◌≡◌, refl, inl, inr, List, [], ◌∷◌, arith, eq_iff, any,
  Bool-cases, ok, All,
}
use latiq.ControlPlane.Registry.{NodeRecord, active, Registry, update_where, count}
use latiq.ControlPlane.Registry.Nodes.{
  has_node_id, beat, heartbeat, is_stale, is_active, take_down, reap_stale_nodes, second,
}

-- The last beat is at most `ttl` seconds old.
abbrev pub IsFresh : (ttl now : ℕ) → NodeRecord → Type 0
IsFresh ttl now n = now ≤ n.last_heartbeat + ttl * second

reaped-IsFresh :
    (ttl now : ℕ) (nodes : List NodeRecord)
    → All
        (λ n. n.state ≡ active → IsFresh ttl now n)
        (update_where (is_stale ttl now) take_down nodes)
unfolding update_where is_stale
reaped-IsFresh ttl now [] = tt
reaped-IsFresh ttl now (n ∷ nodes) = (λ h. ground arith, reaped-IsFresh ttl now nodes)

-- After the reaper, every node that is still active has a fresh heartbeat.
pub reap_stale_nodes-IsFresh :
    (ttl now : ℕ) (r : Registry) (n : NodeRecord)
    → Memᴰ n (reap_stale_nodes ttl now r).1.nodes
    → n.state ≡ active
    → IsFresh ttl now n
unfolding reap_stale_nodes
reap_stale_nodes-IsFresh ttl now r n m up = All-of-Memᴰ _ _ n (reaped-IsFresh ttl now r.nodes) m up

abbrev pub count_active : List NodeRecord → ℕ
count_active = count (λ n. is_active n.state)

count-reaped :
    (ttl now : ℕ) (nodes : List NodeRecord)
    → count_active (update_where (is_stale ttl now) take_down nodes)
        + count (is_stale ttl now) nodes
      ≡ count_active nodes
unfolding count update_where is_stale
count-reaped ttl now [] = omega arith
count-reaped ttl now (n ∷ nodes) = ground (arith, count-reaped ttl now nodes)

-- The reaper reports how many nodes it took down: that many fewer are active afterwards.
pub reap_stale_nodes-count :
    (ttl now : ℕ) (r : Registry)
    → (n : ℕ) × ((reap_stale_nodes ttl now r).0 ≡ ok n)
      × (count_active (reap_stale_nodes ttl now r).1.nodes + n ≡ count_active r.nodes)
unfolding reap_stale_nodes
reap_stale_nodes-count ttl now r =
    (count (is_stale ttl now) r.nodes, refl, count-reaped ttl now r.nodes)

beats-IsActive :
    (id : String) (ttl at now : ℕ) (nodes : List NodeRecord)
    → now ≤ at + ttl * second
    → All
        (λ n. has_node_id id n ≡ true → n.state ≡ active)
        (update_where (is_stale ttl now) take_down (update_where (has_node_id id) (beat at) nodes))
unfolding update_where is_stale
beats-IsActive id ttl at now [] h = tt
beats-IsActive id ttl at now (n ∷ nodes) h =
    (λ e. ground arith, beats-IsActive id ttl at now nodes h)

-- A heartbeat that a node's row takes up makes the node active, whatever it was before, and keeps
-- it active through the reaper until more than `ttl` seconds have gone by.
pub heartbeat-reap_stale_nodes :
    (id : String) (ttl at now : ℕ) (r : Registry) (n : NodeRecord)
    → (heartbeat id at r).0 ≡ ok tt
    → now ≤ at + ttl * second
    → Memᴰ n (reap_stale_nodes ttl now (heartbeat id at r).1).1.nodes
    → n.node_id ≡ id
    → n.state ≡ active
unfolding heartbeat reap_stale_nodes
heartbeat-reap_stale_nodes id ttl at now r n e h m named =
    elim (Bool-cases (any (has_node_id id) r.nodes)) [
      | inl found ↦
          All-of-Memᴰ (λ x. has_node_id id x ≡ true → x.state ≡ active) _ n
            (beats-IsActive id ttl at now r.nodes h) (rw found at m) ((eq_iff n.node_id id).1 named)
      | inr missing ↦ absurd (ground arith)
    ]
