-- ===== src/Examples/Agents.antt =====
-- Mailboxes, a bank and a CLA manager, and what the theorems say of them.
use dtn7_go.Base.{◌≡◌, refl, [], ◌∷◌, true, false, none, some, ok, arith, ap, set, get, if_pos}
use dtn7_go.Bpv7.Bundle.{bundle_id}
use dtn7_go.Store.Descriptor.{Descriptor, new_descriptor}
use dtn7_go.Store.Disk.{BundleId-discrete, new_metadata, load}
use dtn7_go.Store.Bundles.{BundleStore, alive, get_bundle_descriptor}
use dtn7_go.Bpv7.Bundle.Wire.{parse_bundle}
use dtn7_go.ApplicationAgent.Mailbox.{Mailbox, deliver, get_new, fetch_from}
use dtn7_go.ApplicationAgent.Bank.{MailboxBank, new_mailbox_bank, register_id, unregister_id}
use dtn7_go.ApplicationAgent.Bank.Registered.{
  opened, registered, unregistered, ListsMailboxes, Opened-lists,
}
use dtn7_go.Cla.Manager.{
  Convergence, Manager, new_manager, listed, registering, activated, perform, start, step,
  finish_activation, finish_disconnect, note_disconnect, register_async, check_present, has_address,
}
use dtn7_go.Cla.Manager.Addresses.{count_address}
use dtn7_go.Cla.Manager.Present.{IsOrderly, Reached-IsOrderly}
use dtn7_go.Cla.Manager.Disconnected.{finish_activation-disconnected}
use dtn7_go.Examples.Blocks.{service}
use dtn7_go.Examples.Stores.{Rows, small_disk, b₁, fresh_store}

-- The descriptor of a bundle for service 1.
abbrev pub parcel : Descriptor
parcel = new_descriptor (new_metadata small_disk (service 7) b₁ none)

abbrev pub bank : MailboxBank
bank = (register_id (service 1) ((register_id (service 4) new_mailbox_bank).0)).0

Opened-lists_example : ListsMailboxes (unregister_id (service 4) bank).0
Opened-lists_example =
    Opened-lists small_disk ((unregister_id (service 4) bank).0)
      (unregistered (registered (registered opened (service 4)) (service 1)) (service 4))

abbrev pub held_store : BundleStore Rows
held_store = record fresh_store { bundles = (parcel.metadata.id, parcel) ∷ [] }

held_found : get BundleId-discrete parcel.metadata.id held_store.bundles ≡ some parcel
unfolding get
held_found =
    if_pos (BundleId-discrete parcel.metadata.id parcel.metadata.id) refl (some parcel) none

held_seen : get_bundle_descriptor parcel.metadata.id held_store ≡ some parcel
unfolding get_bundle_descriptor new_descriptor
held_seen = ap alive held_found

abbrev pub with_parcel : Mailbox
with_parcel = (deliver small_disk 0 held_store parcel []).0

with_parcel-entries : with_parcel ≡ (parcel.metadata.id, false) ∷ []
unfolding deliver get set
with_parcel-entries = ground (arith, held_seen)

-- Its file is no bundle, which the store does not report.
parcel_loaded : load small_disk 0 parcel [] ≡ ok none
unfolding load new_descriptor new_metadata parse_bundle bundle_id dtn7_go.Examples.Wire.expect_byte
parcel_loaded = refl

fetched_without_error : (get_new small_disk 0 held_store false with_parcel).error ≡ ok tt
unfolding get_new fetch_from
fetched_without_error = ground (arith, with_parcel-entries, held_seen, parcel_loaded)

abbrev pub link : Convergence
link = record {
  address = 49 ∷ [];
  is_receiver = true;
  is_sender = true;
  peer_endpoint_id = service 4;
}

abbrev pub with_link : Manager
with_link = perform (activated (49 ∷ []) true) (perform (registering link) new_manager)

Reached-IsOrderly_example : IsOrderly with_link
Reached-IsOrderly_example =
    Reached-IsOrderly with_link (step (step start (registering link)) (activated (49 ∷ []) true))

nothing_noted : listed link.address (perform (registering link) new_manager).pending_removal ≡ false
unfolding perform listed register_async check_present has_address
nothing_noted = refl

finish_activation-disconnected_example :
    (count_address link.address
        (finish_activation link true (
          finish_disconnect link
            (note_disconnect link (perform (registering link) new_manager)))).senders
      ≡ 1)
    × (listed link.address
          (finish_activation link true (
            finish_disconnect link
              (note_disconnect link (perform (registering link) new_manager)))).pending_removal
        ≡ false)
finish_activation-disconnected_example =
    finish_activation-disconnected (perform (registering link) new_manager) link refl nothing_noted
