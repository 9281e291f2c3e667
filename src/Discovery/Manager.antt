-- ===== src/Discovery/Manager.antt =====
-- pkg/discovery/discovery_manager.go: what a node does with the announcements that it hears. The
-- sockets, timers and goroutines of `InitialiseManager` are not modelled.
use dtn7_go.Base.{
  ℕ, List, [], ◌∷◌, ◌++◌, true, false, ◌==◌, Option, none, some, if◌then◌else◌, Result, ok, err,
  panic,
}
use dtn7_go.Base.Decimal.{decimal}
use dtn7_go.Cbor.{Libs}
use dtn7_go.Bpv7.Endpoint.{EndpointId}
use dtn7_go.Bpv7.Endpoint.Text.{same_node}
use dtn7_go.Cla.Types.{mtcp, quicl}
use dtn7_go.Cla.Manager.{Convergence, Manager, check_present, register_async}
use dtn7_go.Discovery.{Announcement, unmarshal_announcements}

-- `fmt.Sprintf("%s:%d", addr, announcement.Port)`
abbrev pub dial_address : List ℕ → ℕ → List ℕ
dial_address addr port = addr ++ (b':' ∷ decimal port)

-- `mtcp.NewMTCPClient` and `quicl.NewDialerEndpoint`. An MTCP client only sends; a QUICL endpoint
-- learns who its peer is when it is activated.
unfoldable pub dialled : Announcement → List ℕ → Option Convergence
dialled a addr =
    if a.cla_type == mtcp
    then some (record {
      address = dial_address addr a.port;
      is_receiver = false;
      is_sender = true;
      peer_endpoint_id = a.endpoint;
    })
    else if a.cla_type == quicl
    then some (record {
      address = dial_address addr a.port;
      is_receiver = true;
      is_sender = true;
      peer_endpoint_id = record { endpoint_type = none };
    })
    else none

abbrev pub registered : Option Convergence → Manager → Manager
registered none m = m
registered (some c) m = if check_present c m then m else register_async c m

-- `handleDiscovery`, and what `Register` has a goroutine do.
unfoldable pub handle_discovery : EndpointId → List ℕ → Announcement → Manager → Manager
unfolding dialled
handle_discovery node_id addr a m =
    if same_node node_id a.endpoint then m else registered (dialled a addr) m

-- The goroutines of `notify`, one after the other.
unfoldable pub handle_all : EndpointId → List ℕ → List Announcement → Manager → Manager
unfolding handle_discovery
handle_all node_id addr [] m = m
handle_all node_id addr (a ∷ rest) m =
    handle_all node_id addr rest (handle_discovery node_id addr a m)

-- `notify`: a package that cannot be parsed is dropped.
unfoldable pub notify : Libs → EndpointId → List ℕ → List ℕ → Manager → Result Manager
unfolding handle_all
notify lib node_id addr payload m = elim (unmarshal_announcements lib payload) [
  | ok (announcements, rest) ↦ ok (handle_all node_id addr announcements m)
  | err e ↦ ok m
  | panic ↦ panic
]

-- `notify6`
unfoldable pub notify6 : Libs → EndpointId → List ℕ → List ℕ → Manager → Result Manager
unfolding notify
notify6 lib node_id addr payload m = notify lib node_id (b'[' ∷ (addr ++ (b']' ∷ []))) payload m
