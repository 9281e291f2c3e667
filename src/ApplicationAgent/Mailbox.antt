-- ===== src/ApplicationAgent/Mailbox.antt =====
-- pkg/application_agent/mailbox.go on a store that does not change meanwhile. A method holds the
-- mailbox's mutex. Go ranges over a map in any order; here it is that of the list.
pub mod Contents
pub mod Fetched
use dtn7_go.Base.{
  ℕ, ◌≡◌, List, [], ◌∷◌, ◌++◌, Bool, true, false, not, ◌&&◌, Option, none, some, if◌then◌else◌,
  Error, Result, ok, err, panic, get, set, remove, keep, keys, already_delivered, no_such_bundle,
}
use dtn7_go.Bpv7.Bundle.{Bundle, BundleId}
use dtn7_go.Store.Descriptor.{Descriptor}
use dtn7_go.Store.Disk.{Surroundings, BundleId-discrete, load}
use dtn7_go.Store.Bundles.{BundleStore, get_bundle_descriptor}

-- The map `messages`: whether a bundle has been retrieved.
abbrev pub Mailbox : Type 0
Mailbox = List (BundleId × Bool)

abbrev pub new_mailbox : Mailbox
new_mailbox = []

abbrev pub is_some {ℓ} : {A : Type ℓ} → Option A → Bool
is_some none = false
is_some (some a) = true

unfoldable pub list_bundles : Mailbox → List BundleId
list_bundles = keys

unfoldable pub list_new : Mailbox → List BundleId
list_new mailbox = keys (keep (λ bid retrieved. not retrieved) mailbox)

unfoldable pub delete_message : BundleId → Mailbox → Mailbox
delete_message bid mailbox = remove BundleId-discrete bid mailbox

unfoldable pub clear_mailbox : Mailbox → Mailbox
clear_mailbox mailbox = []

-- What `GetAll` and `GetNew` return, and the mailbox afterwards. The bundles are `nil` after an error of
-- `GetBundleDescriptor`, which is the empty list here.
pub record Fetch : Type 0 where
  pub mailbox : Mailbox
  pub bundles : List (Option Bundle)
  pub error : Result (Unit {0})

abbrev emptied : Bool → Result (Unit {0}) → Mailbox → Mailbox
emptied true (ok _) mailbox = []
emptied true (err e) mailbox = mailbox
emptied true panic mailbox = mailbox
emptied false result mailbox = mailbox

-- `if remove { clear(mailbox.messages) }`, where no error has been met.
abbrev pub cleared : Bool → Fetch → Fetch
cleared removing fetch = record fetch { mailbox = emptied removing fetch.error fetch.mailbox }

-- A store, at a time.
module _ {D : Type 0} (env : Surroundings D) (now : ℕ) (st : BundleStore D) where
  abbrev pub is_visible : BundleId → Bool
  is_visible bid = is_some (get_bundle_descriptor bid st)

  unfoldable pub deliver : Descriptor → Mailbox → Mailbox × Option Error
  deliver d mailbox =
      let bid = d.metadata.id in
      if is_some (get BundleId-discrete bid mailbox)
      then (mailbox, some already_delivered)
      else if not (is_visible bid)
      then (mailbox, some no_such_bundle)
      else (set BundleId-discrete bid false mailbox, none)

  -- `GetBundleDescriptor` and `Load`. The bundle may be one that was parsed in part.
  unfoldable pub load_message : BundleId → Result (Option Bundle)
  load_message bid = elim (get_bundle_descriptor bid st) [
    | none ↦ err no_such_bundle
    | some d ↦ load env now d st.disk
  ]

  abbrev after_get :
      Bool → BundleId → Mailbox → Result (Option Bundle) → Mailbox × Result (Option Bundle)
  after_get true bid mailbox (ok b) = (remove BundleId-discrete bid mailbox, ok b)
  after_get false bid mailbox (ok b) = (set BundleId-discrete bid true mailbox, ok b)
  after_get removing bid mailbox (err e) = (mailbox, err e)
  after_get removing bid mailbox panic = (mailbox, panic)

  -- `Get`
  unfoldable pub get_message : BundleId → Bool → Mailbox → Mailbox × Result (Option Bundle)
  get_message bid removing mailbox =
      if is_some (get BundleId-discrete bid mailbox)
      then after_get removing bid mailbox (load_message bid)
      else (mailbox, err no_such_bundle)

  -- The loop of `GetAll`, and of `GetNew`, which skips what has been retrieved: the entries that are
  -- still to come, the mailbox and the bundles so far.
  unfoldable pub fetch_from : Bool → Mailbox → Mailbox → List (Option Bundle) → Fetch
  fetch_from only_new [] mailbox bundles = record {
    mailbox = mailbox;
    bundles = bundles;
    error = ok tt;
  }
  fetch_from only_new ((bid, retrieved) ∷ entries) mailbox bundles =
      let skipped = fetch_from only_new entries mailbox bundles in
      if only_new && retrieved then skipped else elim (get_bundle_descriptor bid st) [
        | none ↦ record { mailbox = mailbox; bundles = []; error = err no_such_bundle }
        | some d ↦ elim (load env now d st.disk) [
          | ok b ↦
              fetch_from only_new entries (set BundleId-discrete bid true mailbox)
                (bundles ++ (b ∷ []))
          | err e ↦ record { mailbox = mailbox; bundles = bundles; error = err e }
          | panic ↦ record { mailbox = mailbox; bundles = bundles; error = panic }
        ]
      ]

  unfoldable pub get_all : Bool → Mailbox → Fetch
  unfolding fetch_from
  get_all removing mailbox = cleared removing (fetch_from false mailbox mailbox [])

  unfoldable pub get_new : Bool → Mailbox → Fetch
  unfolding fetch_from
  get_new removing mailbox = cleared removing (fetch_from true mailbox mailbox [])

  -- `GC`; a descriptor that `GetBundleDescriptor` returns is not deleted.
  unfoldable pub collect_mailbox : Mailbox → Mailbox
  collect_mailbox = keep λ bid retrieved. is_visible bid
