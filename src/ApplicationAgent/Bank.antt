-- ===== src/ApplicationAgent/Bank.antt =====
-- pkg/application_agent/mailbox_bank.go on a store that does not change meanwhile. A mailbox that is
-- reached through the bank is changed in place.
pub mod Delivery
pub mod Registered
use dtn7_go.Base.{
  ℕ, List, [], ◌∷◌, ◌++◌, Bool, true, false, ◌||◌, Option, none, some, if◌then◌else◌, ite, Error,
  get, set, remove, map_values, already_delivered, no_such_bundle, id_already_registered,
  no_such_id, descriptor_deleted,
}
use dtn7_go.Bpv7.Endpoint.{EndpointId, EndpointId-discrete}
use dtn7_go.Store.Descriptor.{Descriptor}
use dtn7_go.Store.Disk.{Surroundings}
use dtn7_go.Store.Bundles.{BundleStore}
use dtn7_go.ApplicationAgent.Mailbox.{Mailbox, new_mailbox, is_some, deliver, collect_mailbox}

pub record MailboxBank : Type 0 where
  pub registered_ids : List EndpointId
  pub mailboxes : List (EndpointId × Mailbox)

abbrev pub new_mailbox_bank : MailboxBank
new_mailbox_bank = record { registered_ids = []; mailboxes = [] }

unfoldable pub register_id : EndpointId → MailboxBank → MailboxBank × Option Error
register_id eid bank =
    if is_some (get EndpointId-discrete eid bank.mailboxes)
    then (bank, some id_already_registered)
    else (
      record {
        registered_ids = bank.registered_ids ++ (eid ∷ []);
        mailboxes = set EndpointId-discrete eid new_mailbox bank.mailboxes;
      },
      none,
    )

-- The loop of `Unregister`: the IDs that remain.
unfoldable pub remaining : EndpointId → List EndpointId → List EndpointId
remaining eid [] = []
remaining eid (reid ∷ reids) =
    ite (EndpointId-discrete eid reid) (remaining eid reids) (reid ∷ remaining eid reids)

unfoldable pub unregister_id : EndpointId → MailboxBank → MailboxBank × Option Error
unfolding remaining
unregister_id eid bank =
    if is_some (get EndpointId-discrete eid bank.mailboxes)
    then (
      record {
        registered_ids = remaining eid bank.registered_ids;
        mailboxes = remove EndpointId-discrete eid bank.mailboxes;
      },
      none,
    )
    else (bank, some no_such_id)

-- `GetMailbox`; none is `NoSuchIDError`.
unfoldable pub get_mailbox : EndpointId → MailboxBank → Option Mailbox
get_mailbox eid bank = get EndpointId-discrete eid bank.mailboxes

-- The method that leaves a mailbox so, called on the one of an ID.
unfoldable pub put_mailbox : EndpointId → Mailbox → MailboxBank → MailboxBank
put_mailbox eid mailbox bank = record bank {
  mailboxes = set EndpointId-discrete eid mailbox bank.mailboxes;
}

module _ {D : Type 0} (env : Surroundings D) (now : ℕ) (st : BundleStore D) where
  -- `Deliver`
  unfoldable pub deliver_to_bank : Descriptor → MailboxBank → MailboxBank × Option Error
  unfolding put_mailbox
  deliver_to_bank d bank =
      if d.deleted
      then (bank, some descriptor_deleted)
      else elim (get EndpointId-discrete d.metadata.destination bank.mailboxes) [
        | none ↦ (bank, some no_such_id)
        | some mailbox ↦
            let (mailbox', e) = deliver env now st d mailbox in
            (put_mailbox d.metadata.destination mailbox' bank, e)
      ]

  -- `GC`, when all its goroutines are through.
  unfoldable pub collect_bank : MailboxBank → MailboxBank
  collect_bank bank = record bank {
    mailboxes = map_values (collect_mailbox env now st) bank.mailboxes;
  }
