-- ===== src/Routing/Spray/Copies.antt =====
-- What basic spraying does to the number of copies.
use dtn7_go.Base.{
  ℕ, zero, suc, ◌+◌, ◌-◌, ◌≡◌, refl, sym, List, [], ◌∷◌, false, none, some, Option-cases,
  Bool-cases, inl, inr, Result, ok, length, take, take_all, length-take, leb, arith, bytes_equal,
  lt→ltb, ne→==,
}
use dtn7_go.Bpv7.Bundle.{Bundle}
use dtn7_go.Store.Descriptor.{Descriptor, get_misc_data, set_misc_data, lookup, get_known_holders}
use dtn7_go.Routing.Peers.{Sender, filter_peers}
use dtn7_go.Routing.Spray.{
  SprayAndWait, Selection, set_spray_copies, get_spray_copies, select_basic_spray, select_some,
  select_with_copies, select_spray,
}

-- The copies that a router sees: those of the descriptor, or its own number.
unfoldable pub copies_seen : SprayAndWait → Descriptor → ℕ
copies_seen router d = elim (get_spray_copies d) [ none ↦ router.copies | some copies ↦ copies ]

pub get-set_spray_copies :
    (copies : ℕ) (d : Descriptor) → get_spray_copies (set_spray_copies copies d) ≡ some copies
unfolding get_spray_copies set_spray_copies get_misc_data set_misc_data lookup bytes_equal
get-set_spray_copies copies d = refl

pub filter_peers-set :
    (copies : ℕ) (d : Descriptor) (peers : List Sender)
    → filter_peers (set_spray_copies copies d) peers ≡ filter_peers d peers
unfolding filter_peers set_spray_copies set_misc_data get_known_holders
filter_peers-set copies d peers = refl

-- A selection that gives copies to the first of the allowed peers, one each, as many as there are, and
-- keeps the others.
abbrev pub Sprays : ℕ → List Sender → Selection → Type 0
Sprays before allowed sel =
    (after : ℕ) × (get_spray_copies sel.descriptor ≡ some after)
    × (after + length sel.senders ≡ before)
    × (sel.senders ≡ take before allowed)
    × (sel.bundle ≡ none)

select_basic_spray-Sprays :
    (d : Descriptor) (copies : ℕ) (peers : List Sender)
    → Sprays copies peers (select_basic_spray d copies peers)
unfolding select_basic_spray
select_basic_spray-Sprays d copies peers = elim (Bool-cases (leb (length peers) copies)) [
  | inl enough ↦ simp enough (
    copies - length peers,
    get-set_spray_copies _ d,
    ground arith,
    sym (take_all copies peers (ground arith)),
    refl,
  )
  | inr short ↦
      simp short (0, get-set_spray_copies 0 d, ground (arith, length-take copies peers), refl, refl)
]

nobody-Sprays :
    (d : Descriptor) (before : ℕ) (allowed : List Sender)
    → get_spray_copies d ≡ some before
    → take before allowed ≡ []
    → Sprays before allowed (record { senders = []; bundle = none; descriptor = d })
nobody-Sprays d before allowed h none_sent = (before, h, omega arith, sym none_sent, refl)

select_with_copies-Sprays :
    (router : SprayAndWait) (stored : Result Bundle) (choice : ℕ) (d : Descriptor) (copies : ℕ)
    (peers : List Sender)
    → router.binary ≡ false
    → get_spray_copies d ≡ some copies
    → (sel : Selection) × (select_with_copies router stored choice d copies peers ≡ ok sel)
      × Sprays copies (filter_peers d peers) sel
unfolding select_with_copies select_some
select_with_copies-Sprays router stored choice d zero peers basic h = (
  record { senders = []; bundle = none; descriptor = d },
  rw basic refl,
  nobody-Sprays d 0 (filter_peers d peers) h refl,
)
select_with_copies-Sprays router stored choice d (suc copies) peers basic h =
    with_peers (filter_peers d peers) refl
  where
    with_peers :
        (allowed : List Sender)
        → filter_peers d peers ≡ allowed
        → (sel : Selection) × (select_with_copies router stored choice d (suc copies) peers
            ≡ ok sel)
          × Sprays (suc copies) (filter_peers d peers) sel
    with_peers [] e = (
      record { senders = []; bundle = none; descriptor = d },
      rw (basic, lt→ltb 0 (suc copies) (omega arith), e) refl,
      rw e (nobody-Sprays d (suc copies) [] h refl),
    )
    with_peers (p ∷ ps) e = (
      select_basic_spray d (suc copies) (p ∷ ps),
      rw
          (
            basic,
            lt→ltb 0 (suc copies) (omega arith),
            e,
            ne→== (length (p ∷ ps)) 0 (λ h. absurd (omega (arith, h))),
          )
          refl,
      rw e (select_basic_spray-Sprays d (suc copies) (p ∷ ps)),
    )

-- In basic mode, the router gives copies of the bundle to the first of the peers that are not known to
-- hold it, one each, as many as it has. What it gives and what it notes as left add up to the copies
-- that it had: those of the descriptor, or its own number where there are none. It does not fail,
-- whatever the store and the random choice do.
pub select_spray-Sprays :
    (router : SprayAndWait) (stored : Result Bundle) (choice : ℕ) (d : Descriptor)
    (peers : List Sender)
    → router.binary ≡ false
    → (sel : Selection) × (select_spray router stored choice d peers ≡ ok sel)
      × Sprays (copies_seen router d) (filter_peers d peers) sel
unfolding select_spray copies_seen
select_spray-Sprays router stored choice d peers basic = elim (Option-cases (get_spray_copies d)) [
  | inl unset ↦
      rw (select_spray, copies_seen, unset)
        (rw⁻¹ (filter_peers-set router.copies d peers) (
          select_with_copies-Sprays router stored choice (set_spray_copies router.copies d)
            router.copies peers basic (get-set_spray_copies router.copies d)))
  | inr (copies, known) ↦
      rw (select_spray, copies_seen, known)
        (select_with_copies-Sprays router stored choice d copies peers basic known)
]
