-- ===== src/ApplicationAgent/Bank/Registered.antt =====
-- The IDs that a bank lists are those that have a mailbox.
use dtn7_go.Base.{
  ◌≡◌, refl, ℕ, suc, ◌+◌, List, [], ◌∷◌, ◌++◌, some, if◌then◌else◌, ite, get, get-set, get-remove,
  get-map_values, arith, Option-cases, inl, inr,
}
use dtn7_go.Bpv7.Endpoint.{EndpointId, EndpointId-discrete}
use dtn7_go.Store.Descriptor.{Descriptor}
use dtn7_go.Store.Disk.{Surroundings}
use dtn7_go.Store.Bundles.{BundleStore}
use dtn7_go.ApplicationAgent.Mailbox.{Mailbox, is_some, deliver, collect_mailbox}
use dtn7_go.ApplicationAgent.Bank.{
  MailboxBank, new_mailbox_bank, register_id, unregister_id, remaining, get_mailbox, put_mailbox,
  deliver_to_bank, collect_bank,
}

-- What any sequence of calls makes of a new bank, the store being as it may at each of them. `used` is
-- any method of a mailbox that `GetMailbox` has returned.
pub data Opened {D : Type 0} (env : Surroundings D) : MailboxBank → Type 0 where
  opened : Opened env new_mailbox_bank
  registered :
      {bank : MailboxBank}
      → Opened env bank
      → (eid : EndpointId) → Opened env ((register_id eid bank).0)
  unregistered :
      {bank : MailboxBank}
      → Opened env bank
      → (eid : EndpointId) → Opened env ((unregister_id eid bank).0)
  delivered :
      {bank : MailboxBank}
      → Opened env bank
      → (now : ℕ) (st : BundleStore D) (d : Descriptor)
      → Opened env ((deliver_to_bank env now st d bank).0)
  collected :
      {bank : MailboxBank}
      → Opened env bank
      → (now : ℕ) (st : BundleStore D) → Opened env (collect_bank env now st bank)
  used :
      {bank : MailboxBank}
      → Opened env bank
      → (eid : EndpointId) (mailbox mailbox' : Mailbox) → get_mailbox eid bank ≡ some mailbox
      → Opened env (put_mailbox eid mailbox' bank)

unfoldable pub times_listed : EndpointId → List EndpointId → ℕ
times_listed eid [] = 0
times_listed eid (reid ∷ reids) =
    ite (EndpointId-discrete eid reid) (suc (times_listed eid reids)) (times_listed eid reids)

times_listed-append :
    (eid : EndpointId) (xs ys : List EndpointId)
    → times_listed eid (xs ++ ys) ≡ times_listed eid xs + times_listed eid ys
unfolding times_listed
times_listed-append eid [] ys = ground arith
times_listed-append eid (x ∷ xs) ys = ground (arith, times_listed-append eid xs ys)

times_listed-remaining :
    (eid gone : EndpointId) (xs : List EndpointId)
    → times_listed eid (remaining gone xs)
      ≡ ite (EndpointId-discrete eid gone) 0 (times_listed eid xs)
unfolding times_listed remaining
times_listed-remaining eid gone [] = ground arith
times_listed-remaining eid gone (x ∷ xs) = ground (arith, times_listed-remaining eid gone xs)

-- Each ID is listed once if it has a mailbox and not at all if it has none.
abbrev pub ListsMailboxes : MailboxBank → Type 0
ListsMailboxes bank =
    (eid : EndpointId)
    → times_listed eid bank.registered_ids
      ≡ (if is_some (get EndpointId-discrete eid bank.mailboxes) then 1 else 0)

put_mailbox-lists :
    (eid : EndpointId) (mailbox mailbox' : Mailbox) (bank : MailboxBank)
    → ListsMailboxes bank
    → get EndpointId-discrete eid bank.mailboxes ≡ some mailbox
    → ListsMailboxes (put_mailbox eid mailbox' bank)
unfolding put_mailbox
put_mailbox-lists eid mailbox mailbox' bank lists here other =
    ground (arith, lists other, here, get-set EndpointId-discrete other eid mailbox' bank.mailboxes)

register_id-lists :
    (eid : EndpointId) (bank : MailboxBank)
    → ListsMailboxes bank
    → ListsMailboxes ((register_id eid bank).0)
unfolding register_id times_listed
register_id-lists eid bank lists other = ground (
  arith,
  lists other,
  lists eid,
  get-set EndpointId-discrete other eid [] bank.mailboxes,
  times_listed-append other bank.registered_ids (eid ∷ []),
)

unregister_id-lists :
    (eid : EndpointId) (bank : MailboxBank)
    → ListsMailboxes bank
    → ListsMailboxes ((unregister_id eid bank).0)
unfolding unregister_id
unregister_id-lists eid bank lists other = ground (
  arith,
  lists other,
  get-remove EndpointId-discrete other eid bank.mailboxes,
  times_listed-remaining other eid bank.registered_ids,
)

module _ {D : Type 0} (env : Surroundings D) where
  deliver_to_bank-lists :
      (now : ℕ) (st : BundleStore D) (d : Descriptor) (bank : MailboxBank)
      → ListsMailboxes bank
      → ListsMailboxes ((deliver_to_bank env now st d bank).0)
  unfolding deliver_to_bank put_mailbox
  deliver_to_bank-lists now st d bank lists other =
      elim (Option-cases (get EndpointId-discrete d.metadata.destination bank.mailboxes)) [
        | inl gone ↦ ground (arith, gone, lists other)
        | inr (mailbox, here) ↦ ground (
          arith,
          here,
          lists other,
          get-set EndpointId-discrete other d.metadata.destination
              ((deliver env now st d mailbox).0) bank.mailboxes,
        )
      ]

  collect_bank-lists :
      (now : ℕ) (st : BundleStore D) (bank : MailboxBank)
      → ListsMailboxes bank
      → ListsMailboxes (collect_bank env now st bank)
  unfolding collect_bank
  collect_bank-lists now st bank lists other = ground (
    arith,
    lists other,
    get-map_values EndpointId-discrete (collect_mailbox env now st) other bank.mailboxes,
  )

  -- Whatever calls were made since it was new, a bank lists each endpoint that has a mailbox once, and no
  -- other endpoint.
  pub Opened-lists : (bank : MailboxBank) → Opened env bank → ListsMailboxes bank
  unfolding times_listed get get_mailbox
  Opened-lists _ opened = λ other. refl
  Opened-lists _ (registered {bank} o eid) = register_id-lists eid bank (Opened-lists bank o)
  Opened-lists _ (unregistered {bank} o eid) = unregister_id-lists eid bank (Opened-lists bank o)
  Opened-lists _ (delivered {bank} o now st d) =
      deliver_to_bank-lists now st d bank (Opened-lists bank o)
  Opened-lists _ (collected {bank} o now st) = collect_bank-lists now st bank (Opened-lists bank o)
  Opened-lists _ (used {bank} o eid mailbox mailbox' here) =
      put_mailbox-lists eid mailbox mailbox' bank (Opened-lists bank o) here
