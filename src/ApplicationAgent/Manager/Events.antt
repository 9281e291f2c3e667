-- ===== src/ApplicationAgent/Manager/Events.antt =====
-- What can be done with a manager of agents, as a sequence of events.
use dtn7_go.Base.{List, [], ◌∷◌}
use dtn7_go.ApplicationAgent.Manager.{
  Name, Methods, Manager, register_agent, unregister_agent, delivery, collect_garbage, shutdown,
}

pub data Event (A D : Type 0) : Type 0 where
  registering : A → Event A D
  unregistering : Name → Event A D
  delivering : D → Event A D
  collecting : Event A D
  shutting_down : Event A D

module _ {A D : Type 0} (methods : Methods A D) where
  unfoldable pub perform : Event A D → Manager A → Manager A
  perform (registering a) m = (register_agent methods a m).0
  perform (unregistering n) m = (unregister_agent methods n m).0
  perform (delivering d) m = delivery methods d m
  perform collecting m = collect_garbage methods m
  perform shutting_down m = shutdown methods m

  unfoldable pub run : List (Event A D) → Manager A → Manager A
  unfolding perform
  run [] m = m
  run (e ∷ es) m = run es (perform e m)
