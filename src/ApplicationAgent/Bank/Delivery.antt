-- ===== src/ApplicationAgent/Bank/Delivery.antt =====
-- When a delivery succeeds, and what it changes.
use dtn7_go.Base.{
  ◌≡◌, ◌↔◌, ℕ, Bool, true, false, Option, none, some, if◌then◌else◌, ite, get, set, get-set, arith,
  Option-cases, inl, inr,
}
use dtn7_go.Bpv7.Endpoint.{EndpointId, EndpointId-discrete}
use dtn7_go.Bpv7.Bundle.{BundleId}
use dtn7_go.Store.Descriptor.{Descriptor}
use dtn7_go.Store.Disk.{Surroundings, BundleId-discrete}
use dtn7_go.Store.Bundles.{BundleStore}
use dtn7_go.ApplicationAgent.Mailbox.{Mailbox, is_some, is_visible, deliver}
use dtn7_go.ApplicationAgent.Bank.{MailboxBank, put_mailbox, deliver_to_bank}

-- Whether a bundle of the mailbox of an endpoint has been retrieved; none if there is no such bundle or
-- no such mailbox.
abbrev in_mailbox : BundleId → Option Mailbox → Option Bool
in_mailbox bid none = none
in_mailbox bid (some mailbox) = get BundleId-discrete bid mailbox

abbrev pub message : EndpointId → BundleId → MailboxBank → Option Bool
message eid bid bank = in_mailbox bid (get EndpointId-discrete eid bank.mailboxes)

module _ {D : Type 0} (env : Surroundings D) (now : ℕ) (st : BundleStore D) where
  -- There is a mailbox for the destination, the bundle is neither deleted nor in it, and the store has it.
  abbrev pub IsDeliverable : Descriptor → MailboxBank → Type 0
  IsDeliverable d bank =
      (d.deleted ≡ false)
      × (is_some (get EndpointId-discrete d.metadata.destination bank.mailboxes) ≡ true)
      × (message d.metadata.destination d.metadata.id bank ≡ none)
      × (is_visible env now st d.metadata.id ≡ true)

  pub deliver_to_bank-none :
      (d : Descriptor) (bank : MailboxBank)
      → ((deliver_to_bank env now st d bank).1 ≡ none) ↔ IsDeliverable d bank
  unfolding deliver_to_bank deliver
  deliver_to_bank-none d bank =
      elim (Option-cases (get EndpointId-discrete d.metadata.destination bank.mailboxes)) [
        | inl gone ↦
            (λ h. absurd (ground (arith, h, gone)), λ h. absurd (ground (arith, h.1, gone)))
        | inr (mailbox, here) ↦ (
          λ h. (
            ground (arith, h, here),
            ground (arith, h, here),
            ground (arith, h, here),
            ground (arith, h, here),
          ),
          λ h. ground (arith, h.0, h.2, h.3, here),
        )
      ]

  -- Whatever a delivery returns, no bundle of any mailbox changes but the one that is delivered, in the
  -- mailbox of its destination. If it returns no error, that bundle is there afterwards and has not
  -- been retrieved; if it returns one, that bundle has not changed either.
  pub deliver_to_bank-message :
      (d : Descriptor) (bank : MailboxBank) (eid : EndpointId) (bid : BundleId)
      → message eid bid (deliver_to_bank env now st d bank).0 ≡ (
          if is_some (deliver_to_bank env now st d bank).1
          then message eid bid bank
          else ite
              (EndpointId-discrete eid d.metadata.destination)
              (ite (BundleId-discrete bid d.metadata.id) (some false) (message eid bid bank))
              (message eid bid bank))
  unfolding deliver_to_bank deliver put_mailbox
  deliver_to_bank-message d bank eid bid =
      elim (Option-cases (get EndpointId-discrete d.metadata.destination bank.mailboxes)) [
        | inl gone ↦ ground (arith, gone)
        | inr (mailbox, here) ↦
            let there = λ (m : Mailbox).
              get-set EndpointId-discrete eid d.metadata.destination m bank.mailboxes in
            let inside = get-set BundleId-discrete bid d.metadata.id false mailbox in
            ground (
              arith,
              here,
              inside,
              there mailbox,
              there (set BundleId-discrete d.metadata.id false mailbox),
            )
      ]
