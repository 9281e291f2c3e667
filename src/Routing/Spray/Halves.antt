-- ===== src/Routing/Spray/Halves.antt =====
-- What binary spraying does to the number of copies.
use dtn7_go.Base.{ℕ, ◌+◌, ◌≤◌, ◌≡◌, ◌⊎◌, List, [], ◌∷◌, true, none, some, All, ok, get_elem?}
use dtn7_go.Bpv7.Bundle.{Bundle, add_extension_block}
use dtn7_go.Store.Descriptor.{Descriptor}
use dtn7_go.Routing.Peers.{Sender}
use dtn7_go.Routing.Spray.{Selection, spray_block, get_spray_copies}
use dtn7_go.Bpv7.Bundle.Distinct.{numbers_differ}
use dtn7_go.Routing.Spray.Stripped.{HasValue, other_blocks, count_sprays}

-- The bundle's extension blocks have values and different numbers, and one is a spray block at most.
pub record IsSprayable (b : Bundle) : Type 0 where
  pub values : All HasValue b.extension_blocks
  pub numbers : numbers_differ b.extension_blocks ≡ true
  pub one_spray : count_sprays b.extension_blocks ≤ 1

abbrev pub without_sprays : Bundle → Bundle
without_sprays b = record b { extension_blocks = other_blocks b.extension_blocks }

-- The bundle goes to nobody, or with the smaller half of the copies to one of the allowed peers: all of
-- the stored bundle, and a new spray block in place of the old one.
abbrev pub Halves : Bundle → ℕ → List Sender → Selection → Type 0
Halves stored before allowed sel =
    (after : ℕ) × (get_spray_copies sel.descriptor ≡ some after)
    × (((after ≡ before) × (sel.senders ≡ []) × (sel.bundle ≡ none))
        ⊎ ((sent i : ℕ) × (peer : Sender) × (b' : Bundle) × (after + sent ≡ before)
            × (1 ≤ sent)
            × (sent ≤ after)
            × (sel.senders ≡ peer ∷ [])
            × (get_elem? allowed i ≡ some peer)
            × (sel.bundle ≡ some b')
            × (add_extension_block (spray_block sent) (without_sprays stored) ≡ ok b')))
