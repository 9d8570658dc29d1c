-- ===== src/AgentCore/Placement/Laws.antt =====
-- Who serves a pond, and who is asked to.
use latiq.Prelude.{
  String, true, ◌≡◌, ◌≢◌, ◌↔◌, refl, ◌⊎◌, inl, Option, none, some, string_eq, arith, eq_iff, ok,
  err,
}
use latiq.AgentCore.Control.{PondInfo}
use latiq.AgentCore.Placement.{
  Node, Peer, local, forward, no_owner, non_empty, dial, owned, clustered, placement,
  pond_unavailable, route,
}

-- A node of a cluster has a forwarder, an id and an address.
abbrev pub member : (id endpoint : String) → Node
member id endpoint = record {
  self_node_id = some id;
  self_endpoint = some endpoint;
  has_forwarder = true;
}

-- The two cases of an owner's id.
dial-local :
    (owner_id address : String) (endpoint : Option String) → dial owner_id address endpoint ≢ local
unfolding dial
dial-local owner_id address none h = cc
dial-local owner_id address (some e) h = ground arith

owned-local :
    (me address : String) (owner endpoint : Option String)
    → (owned me address (non_empty owner) endpoint ≡ local) ↔ ((owner ≡ some me) × (me ≢ ""))
unfolding owned non_empty
owned-local me address none endpoint = (λ h. absurd (cc), λ h. absurd (cc (h.0)))
owned-local me address (some o) endpoint =
    ground (arith, eq_iff o "", eq_iff o me, dial-local o address endpoint)

owned-forward :
    (me address : String) (owner endpoint : Option String) (peer : Peer)
    → owned me address (non_empty owner) (non_empty endpoint) ≡ forward peer
    → (owner ≡ some peer.node_id)
      × (endpoint ≡ some peer.endpoint)
      × (peer.node_id ≢ me)
      × (peer.endpoint ≢ address)
      × (peer.node_id ≢ "")
      × (peer.endpoint ≢ "")
unfolding owned dial non_empty
owned-forward me address none endpoint peer h = absurd (cc)
owned-forward me address (some o) none peer h = ground (arith, eq_iff o "", eq_iff o me)
owned-forward me address (some o) (some e) peer h =
    ground (arith, eq_iff o "", eq_iff o me, eq_iff e "", eq_iff e address)

-- A node of a cluster serves a pond itself exactly when the registry names it, by its id, as the owner.
pub placement-local_iff :
    (me address : String) (info : PondInfo)
    → (placement (member me address) info ≡ local) ↔ ((info.node_id ≡ some me) × (me ≢ ""))
unfolding placement clustered owned dial
placement-local_iff me address info =
    owned-local me address info.node_id (non_empty info.node_endpoint)

-- A node never asks itself: the peer that it forwards to is the owner that the registry names, with the
-- endpoint that it gives; its id is not the node's own, its endpoint not the node's own, and neither is empty.
pub placement-forward :
    (me address : String) (info : PondInfo) (peer : Peer)
    → placement (member me address) info ≡ forward peer
    → (info.node_id ≡ some peer.node_id)
      × (info.node_endpoint ≡ some peer.endpoint)
      × (peer.node_id ≢ me)
      × (peer.endpoint ≢ address)
      × (peer.node_id ≢ "")
      × (peer.endpoint ≢ "")
unfolding placement clustered owned dial
placement-forward me address info peer h =
    owned-forward me address info.node_id info.node_endpoint peer h

-- The first hop is the last: the node that bears the id of the peer that another one forwards to, at whatever
-- address, serves the pond itself when it reads the same entry of the registry.
pub placement-one_hop :
    (me address there : String) (info : PondInfo) (peer : Peer)
    → placement (member me address) info ≡ forward peer
    → placement (member peer.node_id there) info ≡ local
placement-one_hop me address there info peer h =
    let (owner, _, _, _, named, _) = placement-forward me address info peer h in
    (placement-local_iff peer.node_id there info).1 (owner, named)

-- Of the nodes of a cluster at most one serves a pond: two that do bear the same id.
pub placement_unique :
    (me you here there : String) (info : PondInfo)
    → placement (member me here) info ≡ local
    → placement (member you there) info ≡ local
    → me ≡ you
placement_unique me you here there info h k =
    let (mine, _) = (placement-local_iff me here info).0 h in
    let (yours, _) = (placement-local_iff you there info).0 k in cc

-- On a node whose id the registry does not name as the owner, a request is refused, under
-- the pond's name, exactly when the registry gives no
-- usable address: no owner, no endpoint, or the node's own address.
pub route-err_iff :
    (me address : String) (info : PondInfo)
    → (info.node_id ≢ some me)
    → (route (member me address) info ≡ err (pond_unavailable info.name)) ↔ (
        (info.node_id ≡ none)
        ⊎ (info.node_id ≡ some "")
        ⊎ (info.node_endpoint ≡ none)
        ⊎ (info.node_endpoint ≡ some "")
        ⊎ (info.node_endpoint ≡ some address))
unfolding route placement clustered owned dial non_empty
route-err_iff me address info other = go info.node_id info.node_endpoint other
  where
    go :
        (o e : Option String)
        → (o ≢ some me)
        → ((elim (owned me address (non_empty o) (non_empty e)) [
          | local ↦ ok none
          | forward peer ↦ ok (some peer)
          | no_owner ↦ err (pond_unavailable info.name)
        ]
              ≡ err (pond_unavailable info.name))
            ↔ ((o ≡ none) ⊎ (o ≡ some "") ⊎ (e ≡ none) ⊎ (e ≡ some "") ⊎ (e ≡ some address)))
    go none e h = (λ x. inl refl, λ x. refl)
    go (some o) none h = ground (arith, eq_iff o "", eq_iff o me)
    go (some o) (some e) h = ground (arith, eq_iff o "", eq_iff o me, eq_iff e "", eq_iff e address)
