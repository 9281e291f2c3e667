-- ===== src/Routing/Peers.antt =====
-- `filterPeers` and `uniquePeers` of pkg/routing/algorithm.go, and pkg/routing/epidemic.go.
pub mod Kept
use dtn7_go.Base.{
  ℕ, suc, ◌≡◌, ◌≢◌, ◌↔◌, refl, List, [], ◌∷◌, ◌++◌, Bool, true, false, ◌||◌, Option, none, some,
  ite, arith, All, All-map, ◌⊎◌, inl, inr,
}
use dtn7_go.Bpv7.Endpoint.{EndpointId, EndpointId-discrete}
use dtn7_go.Bpv7.Bundle.{Bundle}
use dtn7_go.Store.Descriptor.{Descriptor, get_known_holders}

-- A convergence sender: which one it is, and what its `GetPeerEndpointID` returns.
pub record Sender : Type 0 where
  pub handle : ℕ
  pub peer_endpoint_id : EndpointId

unfoldable pub holds_eid : EndpointId → List EndpointId → Bool
holds_eid e [] = false
holds_eid e (x ∷ xs) = ite (EndpointId-discrete e x) true (holds_eid e xs)

unfoldable pub not_among : List EndpointId → List Sender → List Sender
not_among sent [] = []
not_among sent (cs ∷ clas) =
    let rest = not_among sent clas in
    elim (holds_eid cs.peer_endpoint_id sent) [ true ↦ rest | false ↦ cs ∷ rest ]

-- The peers that are not known to hold the bundle; none if it has been deleted.
unfoldable pub filter_peers : Descriptor → List Sender → List Sender
filter_peers d clas = elim (get_known_holders d) [ none ↦ [] | some sent ↦ not_among sent clas ]

-- The loop of `uniquePeers`; `seen` are the keys of the map `endpoints`.
unfoldable pub unique_from : List EndpointId → List Sender → List Sender
unique_from seen [] = []
unique_from seen (cs ∷ peers) =
    let again = unique_from seen peers in
    let first = unique_from (cs.peer_endpoint_id ∷ seen) peers in
    elim (holds_eid cs.peer_endpoint_id seen) [ true ↦ again | false ↦ cs ∷ first ]

unfoldable pub unique_peers : List Sender → List Sender
unique_peers = unique_from []

-- `EpidemicRouting.SelectPeersForForwarding`; it has no bundle of its own to send.
unfoldable pub select_epidemic : Descriptor → List Sender → List Sender × Option Bundle
select_epidemic d peers = (filter_peers d peers, none)
