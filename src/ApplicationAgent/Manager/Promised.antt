-- ===== src/ApplicationAgent/Manager/Promised.antt =====
-- What a manager promises: the agent of each name, and how many have been started.
use dtn7_go.Base.{ℕ, ◌+◌, List, [], ◌∷◌, Option, none, some, Result, ok, err, panic, ite, change}
use dtn7_go.ApplicationAgent.Manager.{Name, Name-discrete, Methods}
use dtn7_go.ApplicationAgent.Manager.Events.{
  Event, registering, unregistering, delivering, collecting, shutting_down,
}

-- The agent of each name, without a map.
abbrev pub Agents : Type 0 → Type 0
Agents A = Name → Option A

module _ {A : Type 0} where
  -- The first agent of a name that starts is the one, until it is taken out.
  abbrev pub first_started : A × Result (Unit {0}) → Option A → Option A
  first_started out (some b) = some b
  first_started (a, ok _) none = some a
  first_started (a, err e) none = none
  first_started (a, panic) none = none

  abbrev pub one_if_started : Option A → A × Result (Unit {0}) → ℕ
  one_if_started (some b) out = 0
  one_if_started none (a, ok _) = 1
  one_if_started none (a, err e) = 0
  one_if_started none (a, panic) = 0

module _ {A D : Type 0} (methods : Methods A D) where
  abbrev pub promised : Event A D → Agents A → Agents A
  promised (registering a) f n =
      ite (Name-discrete n (methods.name a)) (first_started (methods.start a) (f n)) (f n)
  promised (unregistering k) f n = ite (Name-discrete n k) none (f n)
  promised (delivering d) f n = change (λ a. (methods.deliver d a).0) (f n)
  promised collecting f n = change methods.collect (f n)
  promised shutting_down f n = none

  -- How many agents of a free name have been started by an event.
  abbrev pub starts : Event A D → Agents A → ℕ
  starts (registering a) f = one_if_started (f (methods.name a)) (methods.start a)
  starts (unregistering k) f = 0
  starts (delivering d) f = 0
  starts collecting f = 0
  starts shutting_down f = 0

  abbrev pub promised_after : List (Event A D) → Agents A → Agents A
  promised_after [] f = f
  promised_after (e ∷ es) f = promised_after es (promised e f)

  abbrev pub all_starts : List (Event A D) → Agents A → ℕ
  all_starts [] f = 0
  all_starts (e ∷ es) f = starts e f + all_starts es (promised e f)
