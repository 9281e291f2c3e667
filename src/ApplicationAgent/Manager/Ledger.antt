-- ===== src/ApplicationAgent/Manager/Ledger.antt =====
-- The manager keeps what it promises.
use dtn7_go.Base.{
  ℕ, suc, ◌+◌, ◌≡◌, ◌∙◌, refl, sym, ap, subst, List, [], ◌∷◌, Option, none, some, Result, ok, err,
  panic, arith, get, remove, map_values, change, KeysDiffer, get-set, get-remove, get-map_values,
  set-KeysDiffer, remove-KeysDiffer, map_values-KeysDiffer, Option-cases, inl, inr, length,
  length-append, length-set, length-remove_found, length-map_values,
}
use dtn7_go.ApplicationAgent.Manager.{
  Name, Name-discrete, Methods, Manager, new_manager, started, delivery, collect_garbage, shutdown,
  all_stopped,
}
use dtn7_go.ApplicationAgent.Manager.Branches.{
  register_agent-free, register_agent-taken, unregister_agent-missing, unregister_agent-found,
}
use dtn7_go.ApplicationAgent.Manager.Events.{
  Event, registering, unregistering, delivering, collecting, shutting_down, perform, run,
}
use dtn7_go.ApplicationAgent.Manager.Promised.{
  Agents, first_started, promised, one_if_started, starts, promised_after, all_starts,
}

module _ {A D : Type 0} (methods : Methods A D) where
  -- The map has the promised agent for each name, and each of `n` agents is in the map or was shut down.
  pub record Keeps (f : Agents A) (n : ℕ) (m : Manager A) : Type 0 where
    pub agrees : (k : Name) → get Name-discrete k m.agents ≡ f k
    pub keys_differ : KeysDiffer Name-discrete m.agents
    pub balanced : length m.agents + length m.stopped ≡ n

  after :
      {p q : Manager A × Result (Unit {0})} (f : Agents A) (n : ℕ)
      → p ≡ q
      → Keeps f n (q.0)
      → Keeps f n (p.0)
  after f n e i = subst (λ (x : Manager A × Result (Unit {0})). Keeps f n (x.0)) (sym e) i

  unstarted-Keeps :
      (a : A) (f : Agents A) (n : ℕ) (m : Manager A)
      → ((o : Option A) → first_started (methods.start a) o ≡ o)
      → ((o : Option A) → one_if_started o (methods.start a) ≡ 0)
      → Keeps f n m
      → Keeps (promised methods (registering a) f) (starts methods (registering a) f + n) m
  unstarted-Keeps a f n m same none_started i = record {
    agrees = λ k. ground (arith, i.agrees k, same (f k));
    keys_differ = i.keys_differ;
    balanced = omega (arith, i.balanced, none_started (f (methods.name a)));
  }

  plus_nothing : {f : Agents A} {n : ℕ} {m : Manager A} → Keeps f n m → Keeps f (0 + n) m
  plus_nothing {f} {n} {m} i = let e : n ≡ 0 + n = omega arith in subst (λ (k : ℕ). Keeps f k m) e i

  registered-Keeps :
      (a : A) (f : Agents A) (n : ℕ) (m : Manager A) (out : A × Result (Unit {0}))
      → methods.start a ≡ out
      → get Name-discrete (methods.name a) m.agents ≡ none
      → Keeps f n m
      → Keeps
          (promised methods (registering a) f)
          (starts methods (registering a) f + n)
          (started methods (methods.name a) out m).0
  registered-Keeps a f n m (a', ok _) e free i =
      let unused : f (methods.name a) ≡ none = sym (i.agrees (methods.name a)) ∙ free in
      record {
        agrees = λ k. elim (Name-discrete k (methods.name a)) [
          | yes same ↦
              ground (arith, e, same, unused, get-set Name-discrete k (methods.name a) a' m.agents)
          | no differ ↦
              ground
                (arith, differ, i.agrees k, get-set Name-discrete k (methods.name a) a' m.agents)
        ];
        keys_differ = set-KeysDiffer Name-discrete (methods.name a) a' m.agents i.keys_differ;
        balanced =
            let one : starts methods (registering a) f ≡ 1 = rw (unused, e) refl in
            omega
              (arith, one, i.balanced, length-set Name-discrete (methods.name a) a' m.agents free);
      }
  registered-Keeps a f n m (a', err x) e free i =
      unstarted-Keeps a f n m (λ o. rw e (not_started o)) (λ o. rw e (none_counted o)) i
    where
      not_started : (o : Option A) → first_started (a', err x) o ≡ o
      not_started none = refl
      not_started (some b) = refl

      none_counted : (o : Option A) → one_if_started o (a', err x) ≡ 0
      none_counted none = refl
      none_counted (some b) = refl
  registered-Keeps a f n m (a', panic) e free i =
      unstarted-Keeps a f n m (λ o. rw e (not_started o)) (λ o. rw e (none_counted o)) i
    where
      not_started : (o : Option A) → first_started (a', panic) o ≡ o
      not_started none = refl
      not_started (some b) = refl

      none_counted : (o : Option A) → one_if_started o (a', panic) ≡ 0
      none_counted none = refl
      none_counted (some b) = refl

  taken-Keeps :
      (a b : A) (f : Agents A) (n : ℕ) (m : Manager A)
      → get Name-discrete (methods.name a) m.agents ≡ some b
      → Keeps f n m
      → Keeps (promised methods (registering a) f) (starts methods (registering a) f + n) m
  taken-Keeps a b f n m taken i =
      let used : f (methods.name a) ≡ some b = sym (i.agrees (methods.name a)) ∙ taken in
      record {
        agrees = λ k. elim (Name-discrete k (methods.name a)) [
          | yes same ↦ ground (arith, i.agrees k, same, used)
          | no differ ↦ ground (arith, differ, i.agrees k)
        ];
        keys_differ = i.keys_differ;
        balanced =
            let no_start : starts methods (registering a) f ≡ 0 = rw used refl in
            omega (arith, no_start, i.balanced);
      }

  missing-Keeps :
      (k : Name) (f : Agents A) (n : ℕ) (m : Manager A)
      → get Name-discrete k m.agents ≡ none
      → Keeps f n m
      → Keeps (promised methods (unregistering k) f) n m
  missing-Keeps k f n m free i = record {
    agrees = λ j. elim (Name-discrete j k) [
      | yes same ↦ ground (arith, same, free)
      | no differ ↦ ground (arith, differ, i.agrees j)
    ];
    keys_differ = i.keys_differ;
    balanced = i.balanced;
  }

  taken_out-Keeps :
      (k : Name) (a : A) (f : Agents A) (n : ℕ) (m : Manager A)
      → get Name-discrete k m.agents ≡ some a
      → Keeps f n m
      → Keeps (promised methods (unregistering k) f) n (record {
        agents = remove Name-discrete k m.agents;
        stopped = methods.shut_down a ∷ m.stopped;
      })
  taken_out-Keeps k a f n m found i = record {
    agrees = λ j. ground (arith, i.agrees j, get-remove Name-discrete j k m.agents);
    keys_differ = remove-KeysDiffer Name-discrete k m.agents i.keys_differ;
    balanced =
        omega
          (arith, i.balanced, length-remove_found Name-discrete k a m.agents i.keys_differ found);
  }

  changed-Keeps :
      (g : A → A) (f : Agents A) (n : ℕ) (m : Manager A)
      → Keeps f n m
      → Keeps (λ k. change g (f k)) n (record m { agents = map_values g m.agents })
  changed-Keeps g f n m i = record {
    agrees = λ k. get-map_values Name-discrete g k m.agents ∙ ap (change g) (i.agrees k);
    keys_differ = map_values-KeysDiffer Name-discrete g m.agents i.keys_differ;
    balanced = omega (arith, i.balanced, length-map_values g m.agents);
  }

  length-all_stopped :
      (agents : List (Name × A)) → length (all_stopped methods agents) ≡ length agents
  length-all_stopped [] = refl
  length-all_stopped ((n, a) ∷ rest) = ap suc (length-all_stopped rest)

  perform-Keeps :
      (e : Event A D) (f : Agents A) (n : ℕ) (m : Manager A)
      → Keeps f n m
      → Keeps (promised methods e f) (starts methods e f + n) (perform methods e m)
  unfolding perform delivery collect_garbage shutdown get
  perform-Keeps (registering a) f n m i =
      elim (Option-cases (get Name-discrete (methods.name a) m.agents)) [
        | inl free ↦
            after (promised methods (registering a) f) (starts methods (registering a) f + n)
              (register_agent-free methods a m free)
              (registered-Keeps a f n m (methods.start a) refl free i)
        | inr (b, taken) ↦
            after (promised methods (registering a) f) (starts methods (registering a) f + n)
              (register_agent-taken methods a b m taken) (taken-Keeps a b f n m taken i)
      ]
  perform-Keeps (unregistering k) f n m i = elim (Option-cases (get Name-discrete k m.agents)) [
    | inl free ↦
        after (promised methods (unregistering k) f) (0 + n)
          (unregister_agent-missing methods k m free) (plus_nothing (missing-Keeps k f n m free i))
    | inr (a, found) ↦
        after (promised methods (unregistering k) f) (0 + n)
          (unregister_agent-found methods k a m found)
          (plus_nothing (taken_out-Keeps k a f n m found i))
  ]
  perform-Keeps (delivering d) f n m i =
      plus_nothing (changed-Keeps (λ a. (methods.deliver d a).0) f n m i)
  perform-Keeps collecting f n m i = plus_nothing (changed-Keeps methods.collect f n m i)
  perform-Keeps shutting_down f n m i = record {
    agrees = λ k. refl;
    keys_differ = tt;
    balanced = omega (
      arith,
      i.balanced,
      length-append (all_stopped methods m.agents) m.stopped,
      length-all_stopped m.agents,
    );
  }

  run-Keeps :
      (es : List (Event A D)) (f : Agents A) (n : ℕ) (m : Manager A)
      → Keeps f n m
      → Keeps (promised_after methods es f) (all_starts methods es f + n) (run methods es m)
  unfolding run
  run-Keeps [] f n m i = plus_nothing i
  run-Keeps (e ∷ es) f n m i =
      let rest =
        run-Keeps es (promised methods e f) (starts methods e f + n) (perform methods e m)
          (perform-Keeps e f n m i) in
      let sum : all_starts methods es (promised methods e f) + (starts methods e f + n)
          ≡ starts methods e f + all_starts methods es (promised methods e f) + n =
        omega arith in
      subst
        (λ (k : ℕ).
          Keeps (promised_after methods es (promised methods e f)) k
            (run methods es (perform methods e m)))
        sum rest

  -- Whatever is done with a new manager, it has for each name the agent that it promises: the first one
  -- of the name that has started, with what deliveries and collections have made of it, until the name
  -- is unregistered or the manager shut down; an agent of a taken name, or one that refuses to start, has
  -- no effect. No two agents have one name. As many agents are in the map or have been shut down as have
  -- been started while their name was free.
  pub run-promised :
      (es : List (Event A D))
      → ((k : Name)
          → get Name-discrete k (run methods es new_manager).agents
            ≡ promised_after methods es (λ _. none) k)
        × KeysDiffer Name-discrete (run methods es new_manager).agents
        × (length (run methods es new_manager).agents + length (run methods es new_manager).stopped
            ≡ all_starts methods es (λ _. none))
  run-promised es =
      let start : Keeps (λ _. none) 0 new_manager = record {
        agrees = λ k. unfold get in refl;
        keys_differ = tt;
        balanced = omega arith;
      } in
      let done = run-Keeps es (λ _. none) 0 new_manager start in
      (done.agrees, done.keys_differ, omega (arith, done.balanced))
