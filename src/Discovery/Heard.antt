-- ===== src/Discovery/Heard.antt =====
-- What announcements that are heard again and again leave in the manager of the adapters.
use dtn7_go.Base.{
  ℕ, ◌≡◌, refl, ◌∙◌, subst, List, [], ◌∷◌, ◌++◌, true, ◌||◌, Option, none, some, arith, All,
  bytes_equal, bytes_equal_refl, Bool-cases, Result-cases, ok, inl, inr, if◌then◌else◌,
}
use dtn7_go.Cbor.{Libs}
use dtn7_go.Bpv7.Endpoint.{EndpointId}
use dtn7_go.Bpv7.Endpoint.Text.{same_node}
use dtn7_go.Cla.Manager.{
  Convergence, Manager, Reached, step, registering, perform, has_address, check_present,
  register_async,
}
use dtn7_go.Discovery.{Announcement, unmarshal_announcements}
use dtn7_go.Discovery.Manager.{dialled, registered, handle_discovery, handle_all, notify}

has_address-append :
    (a : List ℕ) (cs : List Convergence) (c : Convergence)
    → has_address a (cs ++ (c ∷ [])) ≡ (has_address a cs || bytes_equal a c.address)
unfolding has_address
has_address-append a [] c = ground arith
has_address-append a (x ∷ xs) c = ground (arith, has_address-append a xs c)

registered-present :
    (c : Convergence) (m : Manager) → check_present c (registered (some c) m) ≡ true
unfolding check_present register_async
registered-present c m =
    ground (arith, has_address-append c.address m.pending_start c, bytes_equal_refl c.address)

present-registered :
    (c : Convergence) (o : Option Convergence) (m : Manager)
    → check_present c m ≡ true
    → check_present c (registered o m) ≡ true
unfolding check_present register_async
present-registered c none m h = h
present-registered c (some d) m h =
    ground (arith, h, has_address-append c.address m.pending_start d)

-- There is nothing left to do for what an announcement asks to dial.
abbrev IsSettled : Option Convergence → Manager → Type 0
IsSettled none m = Unit
IsSettled (some c) m = check_present c m ≡ true

registered_stays :
    (o p : Option Convergence) (m : Manager) → IsSettled o m → IsSettled o (registered p m)
registered_stays none p m h = tt
registered_stays (some c) p m h = present-registered c p m h

registered_settles : (o : Option Convergence) (m : Manager) → IsSettled o (registered o m)
registered_settles none m = tt
registered_settles (some c) m = registered-present c m

registered-same : (o : Option Convergence) (m : Manager) → IsSettled o m → registered o m ≡ m
registered-same none m h = refl
registered-same (some c) m h = rw h refl

registering-Reached : (c : Convergence) (m : Manager) → Reached m → Reached (register_async c m)
registering-Reached c m r = unfold perform in step r (registering c)

module _ (node_id : EndpointId) (addr : List ℕ) where
  -- What is dialled for an announcement; nothing for those of this node.
  abbrev wanted : Announcement → Option Convergence
  wanted a = if same_node node_id a.endpoint then none else dialled a addr

  handle-registered :
      (a : Announcement) (m : Manager) → handle_discovery node_id addr a m ≡ registered (wanted a) m
  unfolding handle_discovery
  handle-registered a m = elim (Bool-cases (same_node node_id a.endpoint)) [
    | inl own ↦ rw own refl
    | inr other ↦ rw other refl
  ]

  handle_all_stays :
      (o : Option Convergence) (anns : List Announcement) (m : Manager)
      → IsSettled o m
      → IsSettled o (handle_all node_id addr anns m)
  unfolding handle_all
  handle_all_stays o [] m h = h
  handle_all_stays o (a ∷ rest) m h =
      handle_all_stays o rest (handle_discovery node_id addr a m)
        (rw (handle-registered a m) (registered_stays o (wanted a) m h))

  handle_all_settles :
      (anns : List Announcement) (m : Manager)
      → All (λ a. IsSettled (wanted a) (handle_all node_id addr anns m)) anns
  unfolding handle_all
  handle_all_settles [] m = tt
  handle_all_settles (a ∷ rest) m = (
    handle_all_stays (wanted a) rest (handle_discovery node_id addr a m)
        (rw (handle-registered a m) (registered_settles (wanted a) m)),
    handle_all_settles rest (handle_discovery node_id addr a m),
  )

  handle_all-same :
      (anns : List Announcement) (m : Manager)
      → All (λ a. IsSettled (wanted a) m) anns
      → handle_all node_id addr anns m ≡ m
  unfolding handle_all
  handle_all-same [] m h = refl
  handle_all-same (a ∷ rest) m h =
      let same : handle_discovery node_id addr a m ≡ m =
        handle-registered a m ∙ registered-same (wanted a) m h.0 in
      rw same (handle_all-same rest m h.1)

  handle_all-Reached :
      (anns : List Announcement) (m : Manager)
      → Reached m
      → Reached (handle_all node_id addr anns m)
  unfolding handle_all
  handle_all-Reached [] m r = r
  handle_all-Reached (a ∷ rest) m r =
      handle_all-Reached rest _ (rw (handle-registered a m) (reached (wanted a)))
    where
      reached : (o : Option Convergence) → Reached (registered o m)
      reached none = r
      reached (some c) = elim (Bool-cases (check_present c m)) [
        | inl present ↦ rw present r
        | inr absent ↦ rw absent (registering-Reached c m r)
      ]

-- Whatever package comes in, and whatever the manager's steps have been: if the package does not make
-- the node panic, then the manager is one that its own steps lead to, so that its invariant holds; and
-- the same package, heard again before anything else happens, changes nothing.
pub notify-settles :
    (lib : Libs) (node_id : EndpointId) (addr payload : List ℕ) (m m' : Manager)
    → Reached m
    → notify lib node_id addr payload m ≡ ok m'
    → Reached m' × (notify lib node_id addr payload m' ≡ ok m')
unfolding notify
notify-settles lib node_id addr payload m m' r h =
    elim (Result-cases (unmarshal_announcements lib payload)) [
      | inl ((anns, rest), p) ↦
          let same : handle_all node_id addr anns m ≡ m' = ground (arith, p, h) in
          let again : handle_all node_id addr anns m' ≡ m' =
            subst (λ (x : Manager). handle_all node_id addr anns x ≡ x) same
              (handle_all-same node_id addr anns (handle_all node_id addr anns m)
                (handle_all_settles node_id addr anns m)) in
          (subst Reached same (handle_all-Reached node_id addr anns m r), ground (arith, p, again))
      | inr (inl (e, p)) ↦
          let same : m ≡ m' = ground (arith, p, h) in (subst Reached same r, ground (arith, p))
      | inr (inr p) ↦ absurd (ground (arith, p, h))
    ]
