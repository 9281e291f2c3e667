-- ===== src/ApplicationAgent/Manager/Branches.antt =====
-- The branches of `RegisterAgent` and `UnregisterAgent`.
use dtn7_go.Base.{
  ◌≡◌, refl, ◌∷◌, none, some, ok, err, get, remove, agent_already_registered, no_such_agent,
}
use dtn7_go.ApplicationAgent.Manager.{
  Name, Name-discrete, Methods, Manager, started, register_agent, unregister_agent,
}

module _ {A D : Type 0} (methods : Methods A D) where
  pub register_agent-free :
      (a : A) (m : Manager A)
      → get Name-discrete (methods.name a) m.agents ≡ none
      → register_agent methods a m ≡ started methods (methods.name a) (methods.start a) m
  unfolding register_agent
  register_agent-free a m free = rw (register_agent, free) refl

  pub register_agent-taken :
      (a b : A) (m : Manager A)
      → get Name-discrete (methods.name a) m.agents ≡ some b
      → register_agent methods a m ≡ (m, err agent_already_registered)
  unfolding register_agent
  register_agent-taken a b m taken = rw (register_agent, taken) refl

  pub unregister_agent-missing :
      (n : Name) (m : Manager A)
      → get Name-discrete n m.agents ≡ none
      → unregister_agent methods n m ≡ (m, err no_such_agent)
  unfolding unregister_agent
  unregister_agent-missing n m free = rw (unregister_agent, free) refl

  pub unregister_agent-found :
      (n : Name) (a : A) (m : Manager A)
      → get Name-discrete n m.agents ≡ some a
      → unregister_agent methods n m ≡ (
        record {
          agents = remove Name-discrete n m.agents;
          stopped = methods.shut_down a ∷ m.stopped;
        },
        ok tt,
      )
  unfolding unregister_agent
  unregister_agent-found n a m found = rw (unregister_agent, found) refl
