-- ===== src/ApplicationAgent/Manager.antt =====
-- pkg/application_agent/agent_manager.go, over any kind of agents: those of a node talk over sockets.
pub mod Branches
pub mod Events
pub mod Promised
pub mod Ledger
pub mod Replaced
use dtn7_go.Base.{
  ℕ, List, [], ◌∷◌, ◌++◌, Bool, true, false, Option, none, some, ℕ_discrete, Result, ok, err, panic,
  get, set, remove, map_values, agent_already_registered, no_such_agent, Error,
}
use mathlib.Core.List.{List-discrete}
use dtn7_go.Bpv7.Endpoint.{EndpointId, EndpointId-discrete}
use dtn7_go.Bpv7.Bundle.{Bundle, BundleId, bundle_id}
use dtn7_go.IdKeeper.{IdKeeper, update}

abbrev pub Name : Type 0
Name = List ℕ

-- Go's `==` on strings.
pub Name-discrete : Discrete Name
Name-discrete = List-discrete ℕ_discrete

-- Go's interface `ApplicationAgent`: what its methods return and make of an agent `A`. `D` is a bundle
-- descriptor.
pub record Methods (A D : Type 0) : Type 0 where
  pub name : A → Name
  pub endpoints : A → List EndpointId
  pub deliver : D → A → A × Result (Unit {0})
  pub start : A → A × Result (Unit {0})
  pub shut_down : A → A
  pub collect : A → A

-- The map of the agents. The last field is none of the program: the agents that were shut down, the
-- newest first.
pub record Manager (A : Type 0) : Type 0 where
  pub agents : List (Name × A)
  pub stopped : List A

-- `bagContainsEndpoint`
abbrev one_of : EndpointId → List EndpointId → Bool
one_of eid [] = false
one_of eid (e ∷ es) = elim (EndpointId-discrete eid e) [ yes p ↦ true | no p ↦ one_of eid es ]

unfoldable pub bag_contains_endpoint : List EndpointId → List EndpointId → Bool
bag_contains_endpoint [] eids = false
bag_contains_endpoint (eid ∷ bag) eids =
    let rest = bag_contains_endpoint bag eids in
    elim (one_of eid eids) [ true ↦ true | false ↦ rest ]

-- `InitialiseApplicationAgentManager`
abbrev pub new_manager : {A : Type 0} → Manager A
new_manager = record { agents = []; stopped = [] }

module _ {A D : Type 0} (methods : Methods A D) where
  -- The agents of the map, each after its `Shutdown`.
  abbrev pub all_stopped : List (Name × A) → List A
  all_stopped [] = []
  all_stopped ((n, a) ∷ rest) = methods.shut_down a ∷ all_stopped rest

  unfoldable pub shutdown : Manager A → Manager A
  shutdown m = record { agents = []; stopped = all_stopped m.agents ++ m.stopped }

  abbrev all_endpoints : List (Name × A) → List EndpointId
  all_endpoints [] = []
  all_endpoints ((n, a) ∷ rest) = methods.endpoints a ++ all_endpoints rest

  unfoldable pub get_endpoints : Manager A → List EndpointId
  get_endpoints m = all_endpoints m.agents

  abbrev pub started : Name → A × Result (Unit {0}) → Manager A → Manager A × Result (Unit {0})
  started n (a, ok _) m = (record m { agents = set Name-discrete n a m.agents }, ok tt)
  started n (a, err e) m = (m, err e)
  started n (a, panic) m = (m, panic)

  -- An agent of a name that is taken is not started.
  unfoldable pub register_agent : A → Manager A → Manager A × Result (Unit {0})
  register_agent a m = elim (get Name-discrete (methods.name a) m.agents) [
    | some b ↦ (m, err agent_already_registered)
    | none ↦ started (methods.name a) (methods.start a) m
  ]

  unfoldable pub unregister_agent : Name → Manager A → Manager A × Result (Unit {0})
  unregister_agent n m = elim (get Name-discrete n m.agents) [
    | none ↦ (m, err no_such_agent)
    | some a ↦ (
      record {
        agents = remove Name-discrete n m.agents;
        stopped = methods.shut_down a ∷ m.stopped;
      },
      ok tt,
    )
  ]

  -- `Delivery`: an error of an agent is logged, and the next one is asked all the same.
  unfoldable pub delivery : D → Manager A → Manager A
  delivery d m = record m { agents = map_values (λ a. (methods.deliver d a).0) m.agents }

  -- `GC`
  unfoldable pub collect_garbage : Manager A → Manager A
  collect_garbage m = record m { agents = map_values methods.collect m.agents }

-- What `Send` changes: the ID keeper of the node, and the bundles that were handed to `sendCallback`,
-- the newest first.
pub record Outbox : Type 0 where
  pub keeper : IdKeeper
  pub sent : List Bundle

unfoldable pub send : Bundle → Outbox → Outbox × BundleId
send b out =
    let (b', keeper) = update b out.keeper in
    (record { keeper = keeper; sent = b' ∷ out.sent }, bundle_id b')
