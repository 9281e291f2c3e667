-- ===== src/Examples/Neighbours.antt =====
-- What a node hears of its neighbours, and the agents of a node, with what the theorems say of them.
use dtn7_go.Base.{
  ℕ, ◌≡◌, refl, List, [], ◌∷◌, ◌++◌, arith, ok, err, Encodes, All, inl, inr, malformed_ssp,
  append-nil, none, get, KeysDiffer, length, ◌+◌, Result, bytes_equal, if◌then◌else◌,
}
use dtn7_go.Base.Texts.{codes}
use dtn7_go.Cla.Types.{mtcp, quicl, dummy}
use dtn7_go.Cla.Manager.{Manager, Reached, start, new_manager}
use dtn7_go.Discovery.{Announcement, marshal_announcements, unmarshal_announcements}
use dtn7_go.Discovery.RoundTrip.{AnnouncementFits, announcements-Encodes}
use dtn7_go.Discovery.Manager.{notify, handle_all}
use dtn7_go.Discovery.Heard.{notify-settles}
use dtn7_go.ApplicationAgent.Manager.{Name, Name-discrete, Methods}
use dtn7_go.ApplicationAgent.Manager.Events.{
  Event, registering, unregistering, delivering, collecting, run,
}
use dtn7_go.ApplicationAgent.Manager.Promised.{promised_after, all_starts}
use dtn7_go.ApplicationAgent.Manager.Ledger.{run-promised}
use dtn7_go.Examples.Wire.{small_libs, small_laws}
use dtn7_go.Examples.Blocks.{service, service-IsWireEndpoint}

abbrev heard : List Announcement
heard =
    record { cla_type = mtcp; endpoint = service 9; port = 4556 }
    ∷ record { cla_type = quicl; endpoint = service 9; port = 35037 }
    ∷ []

heard-fit : All AnnouncementFits heard
heard-fit = (
  record {
    type_known = inr (inl refl);
    endpoint_fits = service-IsWireEndpoint 9 (omega arith) (omega arith);
    port_fits = omega arith;
  },
  (
    record {
      type_known = inr (inr (inl refl));
      endpoint_fits = service-IsWireEndpoint 9 (omega arith) (omega arith);
      port_fits = omega arith;
    },
    tt,
  ),
)

announcements-Encodes_example :
    Encodes (marshal_announcements small_libs heard) (unmarshal_announcements small_libs) heard
announcements-Encodes_example =
    announcements-Encodes small_libs small_laws heard heard-fit (omega arith)

-- The dummy adapter's type.
abbrev for_tests : Announcement
for_tests = record { cla_type = dummy; endpoint = service 9; port = 1 }

-- The bytes of `heard`.
abbrev datagram : List ℕ
datagram = (announcements-Encodes small_libs small_laws heard heard-fit (omega arith)).0

abbrev after : Manager
after = handle_all (service 7) (codes "10.0.0.9") heard new_manager

notified : notify small_libs (service 7) (codes "10.0.0.9") datagram new_manager ≡ ok after
unfolding notify
notified =
    let read : unmarshal_announcements small_libs (datagram ++ []) ≡ ok (heard, []) =
      (announcements-Encodes small_libs small_laws heard heard-fit (omega arith)).2 [] in
    ground (arith, append-nil datagram, read)

notify-settles_example :
    Reached after × (notify small_libs (service 7) (codes "10.0.0.9") datagram after ≡ ok after)
notify-settles_example =
    notify-settles small_libs (service 7) (codes "10.0.0.9") datagram new_manager after start
      notified

-- Agents that are no more than their names; the one called "x" does not start.
abbrev starting : Name → Name × Result (Unit {0})
starting a = (a, if bytes_equal a (codes "x") then err malformed_ssp else ok tt)

abbrev names : Methods Name ℕ
names = record {
  name = λ a. a;
  endpoints = λ a. service 1 ∷ [];
  deliver = λ d a. (a, err malformed_ssp);
  start = starting;
  shut_down = λ a. a;
  collect = λ a. a;
}

-- "a" twice, "x", which refuses to start, and "b", which is taken out again.
abbrev happened : List (Event Name ℕ)
happened =
    registering (codes "a")
    ∷ registering (codes "a")
    ∷ registering (codes "x")
    ∷ registering (codes "b")
    ∷ delivering 3
    ∷ unregistering (codes "b")
    ∷ collecting
    ∷ []

run-promised_example :
    ((k : Name)
      → get Name-discrete k (run names happened (record { agents = []; stopped = [] })).agents
        ≡ promised_after names happened (λ _. none) k)
    × KeysDiffer Name-discrete (run names happened (record { agents = []; stopped = [] })).agents
    × (length (run names happened (record { agents = []; stopped = [] })).agents
          + length (run names happened (record { agents = []; stopped = [] })).stopped
        ≡ all_starts names happened (λ _. none))
run-promised_example = run-promised names happened
