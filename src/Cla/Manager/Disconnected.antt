-- ===== src/Cla/Manager/Disconnected.antt =====
-- A CLA that is lost before it is active.
use dtn7_go.Base.{ℕ, ◌≡◌, refl, List, [], ◌∷◌, true, false, arith, bytes_equal_refl}
use dtn7_go.Cla.Manager.{
  Convergence, Manager, others, finish_activation, note_disconnect, finish_disconnect, listed,
  unlisted,
}
use dtn7_go.Cla.Manager.Addresses.{count_address, count_address-append, count_address-others}

unlisted_all :
    (a : List ℕ) (xs : List (List ℕ)) → listed a xs ≡ false → listed a (unlisted a xs) ≡ false
unfolding listed unlisted
unlisted_all a [] h = refl
unlisted_all a (x ∷ xs) h = ground (arith, h, unlisted_all a xs)

-- However a manager stands: if a sender that is not noted as disconnecting reports its disconnection,
-- and its activation comes to a good end only after that, then it is one of the senders afterwards, and
-- nothing is noted that would take it out again.
pub finish_activation-disconnected :
    (m : Manager) (c : Convergence)
    → c.is_sender ≡ true
    → listed c.address m.pending_removal ≡ false
    → (count_address c.address
          (finish_activation c true (finish_disconnect c (note_disconnect c m))).senders
        ≡ 1)
      × (listed c.address
            (finish_activation c true (finish_disconnect c (note_disconnect c m))).pending_removal
          ≡ false)
unfolding finish_activation finish_disconnect note_disconnect unlisted
finish_activation-disconnected m c sends fresh = (
  ground (
    arith,
    sends,
    fresh,
    bytes_equal_refl c.address,
    count_address-append c.address (others c.address m.senders) c,
    count_address-others c.address c.address m.senders,
  ),
  ground (arith, fresh, bytes_equal_refl c.address, unlisted_all c.address m.pending_removal fresh),
)
