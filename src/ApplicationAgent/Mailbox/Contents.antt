-- ===== src/ApplicationAgent/Mailbox/Contents.antt =====
-- The mailboxes that calls lead to have one entry at most for a bundle.
use dtn7_go.Base.{
  ℕ, refl, subst, List, [], ◌∷◌, ◌++◌, Bool, true, false, ◌&&◌, Option, Result, ok, err, panic, get,
  set, KeysDiffer, set-KeysDiffer, remove-KeysDiffer, keep-KeysDiffer, Bool-cases, Option-cases,
  Result-cases, inl, inr,
}
use dtn7_go.Bpv7.Bundle.{Bundle, BundleId}
use dtn7_go.Store.Descriptor.{Descriptor}
use dtn7_go.Store.Disk.{Surroundings, BundleId-discrete, load}
use dtn7_go.Store.Bundles.{BundleStore, get_bundle_descriptor}
use dtn7_go.ApplicationAgent.Mailbox.{
  Mailbox, Fetch, new_mailbox, is_some, is_visible, deliver, delete_message, clear_mailbox,
  collect_mailbox, load_message, after_get, get_message, fetch_from, get_all, get_new, emptied,
  cleared,
}

-- What any sequence of calls makes of a new mailbox, the store being as it may at each of them.
pub data Filled {D : Type 0} (env : Surroundings D) : Mailbox → Type 0 where
  new : Filled env new_mailbox
  delivered :
      {m : Mailbox}
      → Filled env m
      → (now : ℕ) (st : BundleStore D) (d : Descriptor) → Filled env ((deliver env now st d m).0)
  got :
      {m : Mailbox}
      → Filled env m
      → (now : ℕ) (st : BundleStore D) (bid : BundleId) (removing : Bool)
      → Filled env ((get_message env now st bid removing m).0)
  got_all :
      {m : Mailbox}
      → Filled env m
      → (now : ℕ) (st : BundleStore D) (removing : Bool)
      → Filled env ((get_all env now st removing m).mailbox)
  got_new :
      {m : Mailbox}
      → Filled env m
      → (now : ℕ) (st : BundleStore D) (removing : Bool)
      → Filled env ((get_new env now st removing m).mailbox)
  deleted : {m : Mailbox} → Filled env m → (bid : BundleId) → Filled env (delete_message bid m)
  cleared_all : {m : Mailbox} → Filled env m → Filled env (clear_mailbox m)
  collected :
      {m : Mailbox}
      → Filled env m
      → (now : ℕ) (st : BundleStore D) → Filled env (collect_mailbox env now st m)

abbrev pub Differ : Mailbox → Type 0
Differ m = KeysDiffer BundleId-discrete m

emptied-Differ :
    (removing : Bool) (e : Result (Unit {0})) (m : Mailbox)
    → Differ m
    → Differ (emptied removing e m)
emptied-Differ true (ok _) m d = tt
emptied-Differ true (err e) m d = d
emptied-Differ true panic m d = d
emptied-Differ false e m d = d

module _ {D : Type 0} (env : Surroundings D) (now : ℕ) (st : BundleStore D) where
  after_get-Differ :
      (removing : Bool) (bid : BundleId) (m : Mailbox) (r : Result (Option Bundle))
      → Differ m
      → Differ ((after_get env now st removing bid m r).0)
  after_get-Differ true bid m (ok b) d = remove-KeysDiffer BundleId-discrete bid m d
  after_get-Differ false bid m (ok b) d = set-KeysDiffer BundleId-discrete bid true m d
  after_get-Differ true bid m (err e) d = d
  after_get-Differ false bid m (err e) d = d
  after_get-Differ true bid m panic d = d
  after_get-Differ false bid m panic d = d

  deliver-Differ : (x : Descriptor) (m : Mailbox) → Differ m → Differ ((deliver env now st x m).0)
  unfolding deliver
  deliver-Differ x m d = elim (Bool-cases (is_some (get BundleId-discrete x.metadata.id m))) [
    | inl there ↦ subst Differ (rw (deliver, there) refl) d
    | inr free ↦ elim (Bool-cases (is_visible env now st x.metadata.id)) [
      | inl seen ↦
          subst Differ (rw (deliver, free, seen) refl)
            (set-KeysDiffer BundleId-discrete x.metadata.id false m d)
      | inr hidden ↦ subst Differ (rw (deliver, free, hidden) refl) d
    ]
  ]

  get_message-Differ :
      (bid : BundleId) (removing : Bool) (m : Mailbox)
      → Differ m
      → Differ ((get_message env now st bid removing m).0)
  unfolding get_message
  get_message-Differ bid removing m d = elim (Bool-cases (is_some (get BundleId-discrete bid m))) [
    | inl there ↦
        subst Differ (rw (get_message, there) refl)
          (after_get-Differ removing bid m (load_message env now st bid) d)
    | inr free ↦ subst Differ (rw (get_message, free) refl) d
  ]

  fetch_from-Differ :
      (only_new : Bool) (entries m : Mailbox) (bs : List (Option Bundle))
      → Differ m
      → Differ (fetch_from env now st only_new entries m bs).mailbox
  unfolding fetch_from
  fetch_from-Differ only_new [] m bs d = d
  fetch_from-Differ only_new ((bid, r) ∷ entries) m bs d = elim (Bool-cases (only_new && r)) [
    | inl skip ↦
        subst Differ (rw (fetch_from, skip) refl) (fetch_from-Differ only_new entries m bs d)
    | inr take_it ↦ elim (Option-cases (get_bundle_descriptor bid st)) [
      | inl gone ↦ subst Differ (rw (fetch_from, take_it, gone) refl) d
      | inr (x, seen) ↦ elim (Result-cases (load env now x st.disk)) [
        | inl (b, read) ↦ subst Differ (rw (fetch_from, take_it, seen, read) refl) (
            fetch_from-Differ only_new entries (set BundleId-discrete bid true m) (bs ++ (b ∷ []))
              (set-KeysDiffer BundleId-discrete bid true m d))
        | inr (inl (e, bad)) ↦ subst Differ (rw (fetch_from, take_it, seen, bad) refl) d
        | inr (inr bad) ↦ subst Differ (rw (fetch_from, take_it, seen, bad) refl) d
      ]
    ]
  ]

module _ {D : Type 0} (env : Surroundings D) where
  cleared-Differ :
      (removing : Bool) (f : Fetch) → Differ f.mailbox → Differ (cleared removing f).mailbox
  cleared-Differ removing f d = emptied-Differ removing f.error f.mailbox d

  pub Filled-KeysDiffer : (m : Mailbox) → Filled env m → KeysDiffer BundleId-discrete m
  unfolding get_all get_new delete_message clear_mailbox collect_mailbox
  Filled-KeysDiffer _ new = tt
  Filled-KeysDiffer _ (delivered {m} f now st d) =
      deliver-Differ env now st d m (Filled-KeysDiffer m f)
  Filled-KeysDiffer _ (got {m} f now st bid removing) =
      get_message-Differ env now st bid removing m (Filled-KeysDiffer m f)
  Filled-KeysDiffer _ (got_all {m} f now st removing) =
      cleared-Differ removing (fetch_from env now st false m m [])
        (fetch_from-Differ env now st false m m [] (Filled-KeysDiffer m f))
  Filled-KeysDiffer _ (got_new {m} f now st removing) =
      cleared-Differ removing (fetch_from env now st true m m [])
        (fetch_from-Differ env now st true m m [] (Filled-KeysDiffer m f))
  Filled-KeysDiffer _ (deleted {m} f bid) =
      remove-KeysDiffer BundleId-discrete bid m (Filled-KeysDiffer m f)
  Filled-KeysDiffer _ (cleared_all {m} f) = tt
  Filled-KeysDiffer _ (collected {m} f now st) =
      keep-KeysDiffer BundleId-discrete (λ bid retrieved. is_visible env now st bid) m
        (Filled-KeysDiffer m f)
