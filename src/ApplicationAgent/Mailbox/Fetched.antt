-- ===== src/ApplicationAgent/Mailbox/Fetched.antt =====
-- What `GetAll` and `GetNew` return and leave.
use dtn7_go.Base.{
  ℕ, ◌≡◌, ◌∙◌, refl, sym, ap, subst, List, [], ◌∷◌, ◌++◌, append-nil, append_assoc, Bool, true,
  false, not, ◌&&◌, Option, none, some, if◌then◌else◌, ok, get, set, keep, keys, KeysDiffer, arith,
  change, get-set, ◌⊎◌, inl, inr, Bool-cases, Option-cases, Result-cases,
}
use dtn7_go.Bpv7.Bundle.{Bundle, BundleId}
use dtn7_go.Store.Disk.{Surroundings, BundleId-discrete, load}
use dtn7_go.Store.Bundles.{BundleStore, get_bundle_descriptor}
use dtn7_go.ApplicationAgent.Mailbox.Contents.{Filled, Filled-KeysDiffer}
use dtn7_go.ApplicationAgent.Mailbox.{Mailbox, Fetch, list_new, load_message, fetch_from, get_new}

-- An entry after a fetch that passes over the whole mailbox, given what the loop has for its ID.
marked : Bool → Option Bool → Option Bool → Option Bool
marked only_new none found = found
marked only_new (some retrieved) found = if only_new && retrieved then found else some true

abbrev selected : Bool → Mailbox → List BundleId
selected only_new entries = keys (keep (λ bid retrieved. not (only_new && retrieved)) entries)

selected-skip :
    (only_new : Bool) (bid : BundleId) (retrieved : Bool) (entries : Mailbox)
    → (only_new && retrieved) ≡ true
    → selected only_new ((bid, retrieved) ∷ entries) ≡ selected only_new entries
selected-skip only_new bid retrieved entries h = rw (keep, h) refl

selected-take :
    (only_new : Bool) (bid : BundleId) (retrieved : Bool) (entries : Mailbox)
    → (only_new && retrieved) ≡ false
    → selected only_new ((bid, retrieved) ∷ entries) ≡ bid ∷ selected only_new entries
selected-take only_new bid retrieved entries h = rw (keep, h) refl

module _ {D : Type 0} (env : Surroundings D) (now : ℕ) (st : BundleStore D) where
  -- Each bundle is the one that the store has for the ID in its place.
  abbrev pub Loaded : List BundleId → List (Option Bundle) → Type 0
  Loaded [] [] = Unit {0}
  Loaded [] (b ∷ bs) = ⊥
  Loaded (bid ∷ bids) [] = ⊥
  Loaded (bid ∷ bids) (b ∷ bs) = (load_message env now st bid ≡ ok b) × Loaded bids bs

  fetch_from-step :
      (only_new : Bool) (bid : BundleId) (retrieved : Bool) (entries mailbox : Mailbox)
      (bundles : List (Option Bundle))
      → (fetch_from env now st only_new ((bid, retrieved) ∷ entries) mailbox bundles).error ≡ ok tt
      → (((only_new && retrieved) ≡ true)
          × (fetch_from env now st only_new ((bid, retrieved) ∷ entries) mailbox bundles
              ≡ fetch_from env now st only_new entries mailbox bundles))
        ⊎ ((b : Option Bundle) × ((only_new && retrieved) ≡ false)
            × (load_message env now st bid ≡ ok b)
            × (fetch_from env now st only_new ((bid, retrieved) ∷ entries) mailbox bundles
                ≡ fetch_from env now st only_new entries
                    (set BundleId-discrete bid true mailbox)
                    (bundles ++ (b ∷ []))))
  unfolding fetch_from load_message
  fetch_from-step only_new bid retrieved entries mailbox bundles fine =
      elim (Bool-cases (only_new && retrieved)) [
        | inl skip ↦ inl (skip, rw (fetch_from, skip) refl)
        | inr take_it ↦ elim (Option-cases (get_bundle_descriptor bid st)) [
          | inl gone ↦ absurd (ground (arith, fine, take_it, gone))
          | inr (d, seen) ↦ elim (Result-cases (load env now d st.disk)) [
            | inl (b, read) ↦ inr (
              b,
              take_it,
              rw (load_message, seen, read) refl,
              rw (fetch_from, take_it, seen, read) refl,
            )
            | inr (inl (e, bad)) ↦ absurd (ground (arith, fine, take_it, seen, bad))
            | inr (inr bad) ↦ absurd (ground (arith, fine, take_it, seen, bad))
          ]
        ]
      ]

  fetched_bundles :
      (only_new : Bool) (entries mailbox : Mailbox) (bundles : List (Option Bundle))
      → (fetch_from env now st only_new entries mailbox bundles).error ≡ ok tt
      → (bs : List (Option Bundle)) × ((fetch_from env now st only_new entries mailbox
            bundles).bundles
          ≡ bundles ++ bs)
        × Loaded (selected only_new entries) bs
  unfolding fetch_from
  fetched_bundles only_new [] mailbox bundles fine = ([], sym (append-nil bundles), tt)
  fetched_bundles only_new ((bid, retrieved) ∷ entries) mailbox bundles fine =
      elim (fetch_from-step only_new bid retrieved entries mailbox bundles fine) [
        | inl (skip, e) ↦
            let (bs, new, read) =
              fetched_bundles only_new entries mailbox bundles
                (ap (λ (f : Fetch). f.error) (sym e) ∙ fine) in
            (
              bs,
              ap (λ (f : Fetch). f.bundles) e ∙ new,
              subst (λ (bids : List BundleId). Loaded bids bs)
                  (sym (selected-skip only_new bid retrieved entries skip)) read,
            )
        | inr (b, take_it, one, e) ↦
            let (bs, new, read) =
              fetched_bundles only_new entries (set BundleId-discrete bid true mailbox)
                (bundles ++ (b ∷ [])) (ap (λ (f : Fetch). f.error) (sym e) ∙ fine) in
            (
              b ∷ bs,
              ap (λ (f : Fetch). f.bundles) e ∙ new ∙ append_assoc bundles (b ∷ []) bs,
              subst (λ (bids : List BundleId). Loaded bids (b ∷ bs))
                  (sym (selected-take only_new bid retrieved entries take_it)) (one, read),
            )
      ]

  fetched_marks :
      (only_new : Bool) (entries mailbox : Mailbox) (bundles : List (Option Bundle)) (i : BundleId)
      → KeysDiffer BundleId-discrete entries
      → (fetch_from env now st only_new entries mailbox bundles).error ≡ ok tt
      → get BundleId-discrete i (fetch_from env now st only_new entries mailbox bundles).mailbox
        ≡ marked only_new (get BundleId-discrete i entries) (get BundleId-discrete i mailbox)
  unfolding fetch_from marked get
  fetched_marks only_new [] mailbox bundles i differ fine = refl
  fetched_marks only_new ((bid, retrieved) ∷ entries) mailbox bundles i (free, differ) fine =
      elim (fetch_from-step only_new bid retrieved entries mailbox bundles fine) [
        | inl (skip, e) ↦
            let rest =
              fetched_marks only_new entries mailbox bundles i differ
                (ap (λ (f : Fetch). f.error) (sym e) ∙ fine) in
            let same_mailbox = ap (λ (f : Fetch). get BundleId-discrete i f.mailbox) e in
            elim (BundleId-discrete i bid) [
              | yes same ↦ ground (
                arith,
                skip,
                rest,
                same_mailbox,
                same,
                ap (λ (j : BundleId). get BundleId-discrete j entries) same,
                free,
              )
              | no off ↦ ground (arith, rest, same_mailbox, off)
            ]
        | inr (b, take_it, one, e) ↦
            let rest =
              fetched_marks only_new entries (set BundleId-discrete bid true mailbox)
                (bundles ++ (b ∷ [])) i differ (ap (λ (f : Fetch). f.error) (sym e) ∙ fine) in
            let same_mailbox = ap (λ (f : Fetch). get BundleId-discrete i f.mailbox) e in
            let found = get-set BundleId-discrete i bid true mailbox in
            elim (BundleId-discrete i bid) [
              | yes same ↦ ground (
                arith,
                take_it,
                rest,
                found,
                same_mailbox,
                same,
                ap (λ (j : BundleId). get BundleId-discrete j entries) same,
                free,
              )
              | no off ↦ ground (arith, rest, same_mailbox, found, off)
            ]
      ]

  all_marked :
      (only_new : Bool) (mailbox : Mailbox) (i : BundleId)
      → KeysDiffer BundleId-discrete mailbox
      → (fetch_from env now st only_new mailbox mailbox []).error ≡ ok tt
      → get BundleId-discrete i (fetch_from env now st only_new mailbox mailbox []).mailbox
        ≡ change (λ _. true) (get BundleId-discrete i mailbox)
  unfolding marked
  all_marked only_new mailbox i differ fine =
      let marks = fetched_marks only_new mailbox mailbox [] i differ fine in
      elim (Option-cases (get BundleId-discrete i mailbox)) [
        | inl gone ↦ ground (arith, marks, gone)
        | inr (retrieved, here) ↦ ground (arith, marks, here)
      ]

  -- Of a mailbox that any calls have led to: if `GetNew` meets no error and does not remove, it returns in their order the bundles that
  -- `ListNew` listed before, as the store has them. Every bundle of the mailbox has then been
  -- retrieved, and no bundle has come or gone.
  pub get_new_lem :
      (mailbox : Mailbox)
      → Filled env mailbox
      → (get_new env now st false mailbox).error ≡ ok tt
      → Loaded (list_new mailbox) (get_new env now st false mailbox).bundles
        × ((i : BundleId)
            → get BundleId-discrete i (get_new env now st false mailbox).mailbox
              ≡ change (λ _. true) (get BundleId-discrete i mailbox))
  unfolding get_new list_new
  get_new_lem mailbox filled fine =
      let differ = Filled-KeysDiffer env mailbox filled in
      let (bs, new, read) = fetched_bundles true mailbox mailbox [] fine in
      (subst (Loaded (list_new mailbox)) (sym new) read, λ i. all_marked true mailbox i differ fine)
