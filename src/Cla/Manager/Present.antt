-- ===== src/Cla/Manager/Present.antt =====
-- No address is present twice.
use dtn7_go.Base.{
  ℕ, ◌≤◌, ◌≡◌, refl, sym, ap, subst, List, [], ◌∷◌, ◌++◌, Bool, true, false, ◌&&◌, arith,
  bytes_equal, bytes_equal→eq, Bool-cases, Option-cases, inl, inr, Option, some, ◌∙◌,
}
use dtn7_go.Cla.Manager.{
  Convergence, Manager, new_manager, has_address, find_cla, drop_cla, check_present, register_async,
  finish_activation, note_disconnect, finish_disconnect, register_listener, shutdown, Event,
  registering, activated, disconnecting_from, removing, listening, shutting_down, with_found,
  perform, Reached, start, step,
}
use dtn7_go.Cla.Manager.Addresses.{
  count_address, count_address-append, count_address-others, has_address-count, drop_cla-others,
  find_cla-found, find_cla-append,
}
use dtn7_go.Cla.Manager.Joined.{count_at, joined_once, still_pending, joined_free, both_true}

pub record IsOrderly (m : Manager) : Type 0 where
  pub one_goroutine_each : m.activating ≡ m.pending_start
  pub pending_once : (a : List ℕ) → count_address a m.pending_start ≤ 1
  pub receivers_once : (a : List ℕ) → count_address a m.receivers ≤ 1
  pub senders_once : (a : List ℕ) → count_address a m.senders ≤ 1
  pub receivers_free :
      (a : List ℕ) (c : Convergence)
      → find_cla a m.pending_start ≡ some c
      → c.is_receiver ≡ true
      → count_address a m.receivers ≡ 0
  pub senders_free :
      (a : List ℕ) (c : Convergence)
      → find_cla a m.pending_start ≡ some c
      → c.is_sender ≡ true
      → count_address a m.senders ≡ 0

new_manager-IsOrderly : IsOrderly new_manager
unfolding count_address
new_manager-IsOrderly = record {
  one_goroutine_each = refl;
  pending_once = λ a. omega arith;
  receivers_once = λ a. omega arith;
  senders_once = λ a. omega arith;
  receivers_free = λ a c h r. refl;
  senders_free = λ a c h r. refl;
}

-- What a CLA that is not present is free of.
record IsAbsent (c : Convergence) (m : Manager) : Type 0 where
  not_pending : has_address c.address m.pending_start ≡ false
  not_receiving : c.is_receiver ≡ true → has_address c.address m.receivers ≡ false
  not_sending : c.is_sender ≡ true → has_address c.address m.senders ≡ false

absent : (c : Convergence) (m : Manager) → check_present c m ≡ false → IsAbsent c m
unfolding check_present
absent c m h = record {
  not_pending = ground (arith, h);
  not_receiving = λ r. ground (arith, h, r);
  not_sending = λ s. ground (arith, h, s);
}

registered : Convergence → Manager → Manager
registered c m = record m {
  pending_start = m.pending_start ++ (c ∷ []);
  activating = m.activating ++ (c ∷ []);
}

register_async-absent :
    (c : Convergence) (m : Manager)
    → check_present c m ≡ false
    → register_async c m ≡ registered c m
unfolding register_async registered
register_async-absent c m free = rw (register_async, free) refl

register_async-present :
    (c : Convergence) (m : Manager) → check_present c m ≡ true → register_async c m ≡ m
unfolding register_async
register_async-present c m present = rw (register_async, present) refl

register_async-IsOrderly :
    (c : Convergence) (m : Manager) → IsOrderly m → IsOrderly (register_async c m)
unfolding registered
register_async-IsOrderly c m o = elim (Bool-cases (check_present c m)) [
  | inl present ↦ subst IsOrderly (sym (register_async-present c m present)) o
  | inr free ↦
      let n = absent c m free in
      subst IsOrderly (sym (register_async-absent c m free)) (record {
        one_goroutine_each = ap (λ (cs : List Convergence). cs ++ (c ∷ [])) o.one_goroutine_each;
        pending_once = λ a. elim (Bool-cases (bytes_equal a c.address)) [
          | inl same ↦ ground (
            arith,
            same,
            count_address-append a m.pending_start c,
            count_at a c.address m.pending_start same,
            has_address-count c.address m.pending_start n.not_pending,
          )
          | inr off ↦
              ground (arith, off, count_address-append a m.pending_start c, o.pending_once a)
        ];
        receivers_once = o.receivers_once;
        senders_once = o.senders_once;
        receivers_free = λ a x h r. elim (find_cla-append a m.pending_start c x h) [
          | inl old ↦ o.receivers_free a x old r
          | inr (same, new) ↦
              count_at a c.address m.receivers same
              ∙ has_address-count c.address m.receivers
                  (n.not_receiving (ap (λ (y : Convergence). y.is_receiver) new ∙ r))
        ];
        senders_free = λ a x h s. elim (find_cla-append a m.pending_start c x h) [
          | inl old ↦ o.senders_free a x old s
          | inr (same, new) ↦
              count_at a c.address m.senders same
              ∙ has_address-count c.address m.senders
                  (n.not_sending (ap (λ (y : Convergence). y.is_sender) new ∙ s))
        ];
      })
]

finish_activation-IsOrderly :
    (a : List ℕ) (c : Convergence) (fine : Bool) (m : Manager)
    → IsOrderly m
    → find_cla a m.activating ≡ some c
    → IsOrderly (finish_activation c fine m)
unfolding finish_activation
finish_activation-IsOrderly a c fine m o h =
    let named = bytes_equal→eq a c.address (find_cla-found a m.activating c h) in
    let here : find_cla c.address m.pending_start ≡ some c =
      ap (λ (x : List ℕ). find_cla x m.pending_start) (sym named)
      ∙ ap (find_cla a) (sym o.one_goroutine_each)
      ∙ h in
    record {
      one_goroutine_each =
          ap (drop_cla c.address) o.one_goroutine_each
          ∙ drop_cla-others c.address m.pending_start (o.pending_once c.address);
      pending_once =
          λ b. ground (arith, count_address-others b c.address m.pending_start, o.pending_once b);
      receivers_once = λ b.
          joined_once (fine && c.is_receiver) b c m.receivers (o.receivers_once b)
            λ adds. o.receivers_free c.address c here (both_true fine c.is_receiver adds);
      senders_once = λ b.
          joined_once (fine && c.is_sender) b c m.senders (o.senders_once b)
            λ adds. o.senders_free c.address c here (both_true fine c.is_sender adds);
      receivers_free = λ b x found r.
          let (off, old) = still_pending b c.address m.pending_start x found in
          joined_free (fine && c.is_receiver) b c m.receivers off (o.receivers_free b x old r);
      senders_free = λ b x found s.
          let (off, old) = still_pending b c.address m.pending_start x found in
          joined_free (fine && c.is_sender) b c m.senders off (o.senders_free b x old s);
    }

finish_disconnect-IsOrderly :
    (c : Convergence) (m : Manager) → IsOrderly m → IsOrderly (finish_disconnect c m)
unfolding finish_disconnect
finish_disconnect-IsOrderly c m o =
    let left = λ (b : List ℕ) (cs : List Convergence). count_address-others b c.address cs in
    record {
      one_goroutine_each = o.one_goroutine_each;
      pending_once = o.pending_once;
      receivers_once = λ b. ground (arith, left b m.receivers, o.receivers_once b);
      senders_once = λ b. ground (arith, left b m.senders, o.senders_once b);
      receivers_free =
          λ b x found r. ground (arith, left b m.receivers, o.receivers_free b x found r);
      senders_free = λ b x found s. ground (arith, left b m.senders, o.senders_free b x found s);
    }

shutdown-IsOrderly : (m : Manager) → IsOrderly m → IsOrderly (shutdown m)
unfolding shutdown count_address
shutdown-IsOrderly m o = record {
  one_goroutine_each = o.one_goroutine_each;
  pending_once = o.pending_once;
  receivers_once = λ b. omega arith;
  senders_once = λ b. omega arith;
  receivers_free = λ b x found r. refl;
  senders_free = λ b x found s. refl;
}

-- A step that leaves the lists of CLAs that are pending or active.
unchanged-IsOrderly :
    (m m' : Manager)
    → m'.activating ≡ m.activating
    → m'.pending_start ≡ m.pending_start
    → m'.receivers ≡ m.receivers
    → m'.senders ≡ m.senders
    → IsOrderly m
    → IsOrderly m'
unchanged-IsOrderly m m' e p r s o = record {
  one_goroutine_each = e ∙ o.one_goroutine_each ∙ sym p;
  pending_once =
      λ a. subst (λ (cs : List Convergence). count_address a cs ≤ 1) (sym p) (o.pending_once a);
  receivers_once =
      λ a. subst (λ (cs : List Convergence). count_address a cs ≤ 1) (sym r) (o.receivers_once a);
  senders_once =
      λ a. subst (λ (cs : List Convergence). count_address a cs ≤ 1) (sym s) (o.senders_once a);
  receivers_free = λ a x found is.
      ap (count_address a) r ∙ o.receivers_free a x (ap (find_cla a) (sym p) ∙ found) is;
  senders_free = λ a x found is.
      ap (count_address a) s ∙ o.senders_free a x (ap (find_cla a) (sym p) ∙ found) is;
}

perform-IsOrderly : (e : Event) (m : Manager) → IsOrderly m → IsOrderly (perform e m)
unfolding perform note_disconnect register_listener
perform-IsOrderly (registering c) m o = register_async-IsOrderly c m o
perform-IsOrderly (activated a fine) m o = elim (Option-cases (find_cla a m.activating)) [
  | inl gone ↦
      subst IsOrderly
        (sym
          (ap (λ (f : Option Convergence). with_found f (λ c. finish_activation c fine m) m) gone))
        o
  | inr (c, here) ↦
      subst IsOrderly
        (sym
          (ap (λ (f : Option Convergence). with_found f (λ c. finish_activation c fine m) m) here))
        (finish_activation-IsOrderly a c fine m o here)
]
perform-IsOrderly (disconnecting_from c) m o =
    unchanged-IsOrderly m (note_disconnect c m) (ground arith) (ground arith) (ground arith)
      (ground arith) o
perform-IsOrderly (removing a) m o = elim (Option-cases (find_cla a m.disconnecting)) [
  | inl gone ↦
      subst IsOrderly
        (sym (ap (λ (f : Option Convergence). with_found f (λ c. finish_disconnect c m) m) gone)) o
  | inr (c, here) ↦
      subst IsOrderly
        (sym (ap (λ (f : Option Convergence). with_found f (λ c. finish_disconnect c m) m) here))
        (finish_disconnect-IsOrderly c m o)
]
perform-IsOrderly (listening l fine) m o =
    unchanged-IsOrderly m (register_listener l fine m) (ground arith) (ground arith) (ground arith)
      (ground arith) o
perform-IsOrderly shutting_down m o = shutdown-IsOrderly m o

-- Whatever steps of its goroutines have interleaved since it was new, a manager has no two receivers of
-- an address, no two senders and no two CLAs that are pending, and for each of these just one goroutine
-- is activating it. A CLA that is pending has the address of no receiver if it is one, and of no sender
-- if it is one.
pub Reached-IsOrderly : (m : Manager) → Reached m → IsOrderly m
Reached-IsOrderly _ start = new_manager-IsOrderly
Reached-IsOrderly _ (step {m} r e) = perform-IsOrderly e m (Reached-IsOrderly m r)
