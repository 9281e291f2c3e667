-- ===== src/ApplicationAgent/Manager/Replaced.antt =====
-- Registering an agent and taking it out again.
use dtn7_go.Base.{◌≡◌, refl, ◌∷◌, none, some, ok, arith, get, set, get-set, remove-set, ◌∙◌}
use dtn7_go.ApplicationAgent.Manager.{
  Name-discrete, Methods, Manager, register_agent, unregister_agent,
}
use dtn7_go.ApplicationAgent.Manager.Branches.{register_agent-free, unregister_agent-found}

-- Registering an agent whose name is free, and which starts, and then unregistering that name leaves
-- the other agents as they were and stops the agent, once.
pub unregister-register :
    {A D : Type 0} (methods : Methods A D) (a a' : A) (m : Manager A)
    → get Name-discrete (methods.name a) m.agents ≡ none
    → methods.start a ≡ (a', ok tt)
    → unregister_agent methods (methods.name a) (register_agent methods a m).0
      ≡ (record { agents = m.agents; stopped = methods.shut_down a' ∷ m.stopped }, ok tt)
unregister-register {A} {D} methods a a' m free fine =
    let with_agent : Manager A = record m {
      agents = set Name-discrete (methods.name a) a' m.agents;
    } in
    let registered : register_agent methods a m ≡ (with_agent, ok tt) =
      register_agent-free methods a m free ∙ rw fine refl in
    let found : get Name-discrete (methods.name a) with_agent.agents ≡ some a' =
      ground (arith, get-set Name-discrete (methods.name a) (methods.name a) a' m.agents) in
    rw registered (
      rw (unregister_agent-found methods (methods.name a) a' with_agent found)
        (rw (remove-set Name-discrete (methods.name a) a' m.agents free) refl))
