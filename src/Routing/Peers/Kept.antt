-- ===== src/Routing/Peers/Kept.antt =====
-- Which peers are left when the known holders, or all but one sender of each peer, are dropped.
use dtn7_go.Base.{
  ◌≡◌, ◌≢◌, ◌↔◌, ◌∙◌, refl, sym, ap, subst, List, [], ◌∷◌, true, false, arith, All, All-map, ◌⊎◌,
  inl, inr, Bool-cases,
}
use mathlib.Core.List.{Memᴰ}
use mathlib.Core.List.Memᴰ
use dtn7_go.Bpv7.Endpoint.{EndpointId, EndpointId-discrete}
use dtn7_go.Store.Descriptor.{Descriptor, get_known_holders}
use dtn7_go.Routing.Peers.{Sender, holds_eid, not_among, filter_peers, unique_from, unique_peers}

holds_eid-Mem : (e : EndpointId) (xs : List EndpointId) → (holds_eid e xs ≡ true) ↔ Memᴰ e xs
unfolding holds_eid
holds_eid-Mem e [] = (λ h. absurd (ground arith), λ m. absurd (Memᴰ.not-nil m))
holds_eid-Mem e (x ∷ xs) =
    let (to, from) = holds_eid-Mem e xs in
    elim (EndpointId-discrete e x) [
      | yes same ↦ (λ _. Memᴰ.head same, λ _. ground (arith, same))
      | no differ ↦ (
        λ h. Memᴰ.tail (to (ground (arith, h, differ))),
        λ m. elim (Memᴰ.cases_cons m) [
          | inl same ↦ absurd (differ same)
          | inr m' ↦ ground (arith, from m')
        ],
      )
    ]

not_among-step :
    (sent : List EndpointId) (x : Sender) (xs : List Sender)
    → ((holds_eid x.peer_endpoint_id sent ≡ true) × (not_among sent (x ∷ xs) ≡ not_among sent xs))
      ⊎ ((holds_eid x.peer_endpoint_id sent ≡ false)
          × (not_among sent (x ∷ xs) ≡ x ∷ not_among sent xs))
unfolding not_among
not_among-step sent x xs = elim (Bool-cases (holds_eid x.peer_endpoint_id sent)) [
  | inl h ↦ inl (h, rw (not_among, h) refl)
  | inr h ↦ inr (h, rw (not_among, h) refl)
]

kept_was_there :
    (sent : List EndpointId) (clas : List Sender) (cs : Sender)
    → Memᴰ cs (not_among sent clas)
    → Memᴰ cs clas × (holds_eid cs.peer_endpoint_id sent ≡ false)
unfolding not_among
kept_was_there sent [] cs m = absurd (Memᴰ.not-nil m)
kept_was_there sent (x ∷ xs) cs m = elim (not_among-step sent x xs) [
  | inl (h, e) ↦
      let (there, free) = kept_was_there sent xs cs (subst (Memᴰ cs) e m) in (Memᴰ.tail there, free)
  | inr (h, e) ↦ elim (Memᴰ.cases_cons (subst (Memᴰ cs) e m)) [
    | inl same ↦ (Memᴰ.head same, ap (λ (s : Sender). holds_eid s.peer_endpoint_id sent) same ∙ h)
    | inr m' ↦ let (there, free) = kept_was_there sent xs cs m' in (Memᴰ.tail there, free)
  ]
]

free_is_kept :
    (sent : List EndpointId) (clas : List Sender) (cs : Sender)
    → Memᴰ cs clas
    → holds_eid cs.peer_endpoint_id sent ≡ false
    → Memᴰ cs (not_among sent clas)
free_is_kept sent [] cs m free = absurd (Memᴰ.not-nil m)
free_is_kept sent (x ∷ xs) cs m free = elim (not_among-step sent x xs) [
  | inl (h, e) ↦ elim (Memᴰ.cases_cons m) [
    | inl same ↦
        absurd
          (ground (arith, ap (λ (s : Sender). holds_eid s.peer_endpoint_id sent) same, h, free))
    | inr m' ↦ subst (Memᴰ cs) (sym e) (free_is_kept sent xs cs m' free)
  ]
  | inr (h, e) ↦ elim (Memᴰ.cases_cons m) [
    | inl same ↦ subst (Memᴰ cs) (sym e) (Memᴰ.head same)
    | inr m' ↦ subst (Memᴰ cs) (sym e) (Memᴰ.tail (free_is_kept sent xs cs m' free))
  ]
]

-- Of a bundle that is not deleted, the filter keeps just those of the given senders whose peer is not
-- among the bundle's known holders.
pub filter_peers_lem :
    (d : Descriptor) (clas : List Sender) (cs : Sender)
    → d.deleted ≡ false
    → Memᴰ cs (filter_peers d clas)
      ↔ Memᴰ cs clas × ¬ (Memᴰ cs.peer_endpoint_id d.metadata.known_holders)
unfolding filter_peers get_known_holders
filter_peers_lem d clas cs here =
    let sent = d.metadata.known_holders in
    let (to, from) = holds_eid-Mem cs.peer_endpoint_id sent in
    rw here (
      λ m.
          let (there, free) = kept_was_there sent clas cs m in
          (there, λ held. ground (arith, from held, free)),
      λ (there, new).
          free_is_kept sent clas cs there (elim (Bool-cases (holds_eid cs.peer_endpoint_id sent)) [
            | inl held ↦ absurd (new (to held))
            | inr free ↦ free
          ]),
    )

-- No two of the senders lead to the same peer.
abbrev pub PeersDiffer : List Sender → Type 0
PeersDiffer [] = Unit {0}
PeersDiffer (x ∷ xs) =
    All (λ (y : Sender). x.peer_endpoint_id ≢ y.peer_endpoint_id) xs × PeersDiffer xs

unique-step :
    (seen : List EndpointId) (x : Sender) (xs : List Sender)
    → ((holds_eid x.peer_endpoint_id seen ≡ true)
        × (unique_from seen (x ∷ xs) ≡ unique_from seen xs))
      ⊎ ((holds_eid x.peer_endpoint_id seen ≡ false)
          × (unique_from seen (x ∷ xs) ≡ x ∷ unique_from (x.peer_endpoint_id ∷ seen) xs))
unfolding unique_from
unique-step seen x xs = elim (Bool-cases (holds_eid x.peer_endpoint_id seen)) [
  | inl h ↦ inl (h, rw (unique_from, h) refl)
  | inr h ↦ inr (h, rw (unique_from, h) refl)
]

-- The senders that the loop keeps after it has met some peers.
AllNew : List EndpointId → List Sender → Type 0
AllNew seen xs = All (λ (y : Sender). holds_eid y.peer_endpoint_id seen ≡ false) xs × PeersDiffer xs

unseen_before :
    (seen : List EndpointId) (e : EndpointId) (y : Sender)
    → holds_eid y.peer_endpoint_id (e ∷ seen) ≡ false
    → holds_eid y.peer_endpoint_id seen ≡ false
unfolding holds_eid
unseen_before seen e y h = ground (arith, h)

differs_from :
    (seen : List EndpointId) (e : EndpointId) (y : Sender)
    → holds_eid y.peer_endpoint_id (e ∷ seen) ≡ false
    → e ≢ y.peer_endpoint_id
unfolding holds_eid
differs_from seen e y h same = ground (arith, h, sym same)

unique_from-AllNew : (seen : List EndpointId) (xs : List Sender) → AllNew seen (unique_from seen xs)
unfolding AllNew unique_from
unique_from-AllNew seen [] = (tt, tt)
unique_from-AllNew seen (x ∷ xs) = elim (unique-step seen x xs) [
  | inl (h, e) ↦ subst (AllNew seen) (sym e) (unique_from-AllNew seen xs)
  | inr (h, e) ↦
      let kept = unique_from (x.peer_endpoint_id ∷ seen) xs in
      let (new, differ) = unique_from-AllNew (x.peer_endpoint_id ∷ seen) xs in
      subst (AllNew seen) (sym e) (
        (h, All-map (unseen_before seen x.peer_endpoint_id) kept new),
        (All-map (differs_from seen x.peer_endpoint_id) kept new, differ),
      )
]

Reaching : List EndpointId → Sender → List Sender → Type 0
Reaching seen cs kept =
    Memᴰ cs.peer_endpoint_id seen
    ⊎ ((y : Sender) × Memᴰ y kept × (y.peer_endpoint_id ≡ cs.peer_endpoint_id))

reaches_all :
    (seen : List EndpointId) (xs : List Sender) (cs : Sender)
    → Memᴰ cs xs
    → Reaching seen cs (unique_from seen xs)
unfolding Reaching
reaches_all seen [] cs m = absurd (Memᴰ.not-nil m)
reaches_all seen (x ∷ xs) cs m = elim (unique-step seen x xs) [
  | inl (h, e) ↦ elim (Memᴰ.cases_cons m) [
    | inl same ↦ inl (
        subst (λ (s : Sender). Memᴰ s.peer_endpoint_id seen) (sym same)
          ((holds_eid-Mem _ seen).0 h))
    | inr m' ↦ subst (Reaching seen cs) (sym e) (reaches_all seen xs cs m')
  ]
  | inr (h, e) ↦ subst (Reaching seen cs) (sym e) (elim (Memᴰ.cases_cons m) [
    | inl same ↦ inr (x, Memᴰ.head refl, ap (λ (s : Sender). s.peer_endpoint_id) (sym same))
    | inr m' ↦ elim (reaches_all (x.peer_endpoint_id ∷ seen) xs cs m') [
      | inl held ↦ elim (Memᴰ.cases_cons held) [
        | inl same ↦ inr (x, Memᴰ.head refl, sym same)
        | inr held' ↦ inl held'
      ]
      | inr (y, my, same) ↦ inr (y, Memᴰ.tail my, same)
    ]
  ])
]

-- `uniquePeers` keeps at most one sender of each peer, and one of each peer that it was given.
pub unique_peers_lem :
    (peers : List Sender)
    → PeersDiffer (unique_peers peers)
      × ((cs : Sender)
          → Memᴰ cs peers
          → (y : Sender) × Memᴰ y (unique_peers peers) × (y.peer_endpoint_id ≡ cs.peer_endpoint_id))
unfolding unique_peers AllNew Reaching
unique_peers_lem peers = (
  (unique_from-AllNew [] peers).1,
  λ cs m. elim (reaches_all [] peers cs m) [
    | inl held ↦ absurd (Memᴰ.not-nil held)
    | inr kept ↦ kept
  ],
)
