-- ===== src/Store/Bundles/Deletions.antt =====
-- That `deleteBundle` keeps what holds of a store.
use dtn7_go.Base.{
  suc, ◌≤◌, ◌≡◌, ◌≢◌, ◌∙◌, refl, sym, ap, subst, List, [], ◌∷◌, Option, none, some, arith, get,
  remove, some-injective, get-remove, remove-KeysDiffer, remove-found, Option-cases, ◌⊎◌, inl, inr,
  if_pos,
}
use dtn7_go.Bpv7.Bundle.{BundleId}
use dtn7_go.Store.Descriptor.{Metadata}
use dtn7_go.Store.Disk.{BundleId-discrete, Surroundings, delete_from_disk}
use dtn7_go.Store.Bundles.{BundleStore, drop_deletion, find_deletion, delete_bundle}
use dtn7_go.Store.Bundles.Invariant.{count, calls, IsSound, calls_once}

pub find_deletion-count :
    (i : BundleId) (ms : List Metadata) (m : Metadata)
    → find_deletion i ms ≡ some m
    → (m.id ≡ i) × (count i ms ≡ suc (count i (drop_deletion i ms)))
unfolding find_deletion drop_deletion count
find_deletion-count i [] m h = absurd (ground (arith, h))
find_deletion-count i (n ∷ ms) m h = elim (BundleId-discrete i n.id) [
  | yes same ↦
      let first : Path (Option Metadata) (some n) (some m) = ground (arith, h, same) in
      (ap (λ (x : Metadata). x.id) (sym (some-injective first)) ∙ sym same, ground (arith, same))
  | no off ↦
      let (named, less) = find_deletion-count i ms m (ground (arith, h, off)) in
      (named, ground (arith, off, less))
]

drop_deletion-other :
    (i j : BundleId) (ms : List Metadata) → j ≢ i → count j (drop_deletion i ms) ≡ count j ms
unfolding drop_deletion count
drop_deletion-other i j [] off = refl
drop_deletion-other i j (m ∷ ms) off = elim (BundleId-discrete i m.id) [
  | yes same ↦ ground (arith, same, off)
  | no differ ↦ ground (arith, differ, off, drop_deletion-other i j ms off)
]

module _ {D : Type 0} where
  calls_at_most_once :
      (i : BundleId) (st : BundleStore D)
      → IsSound st
      → calls (get BundleId-discrete i st.bundles) ≤ 1
  calls_at_most_once i st sound = elim (Option-cases (get BundleId-discrete i st.bundles)) [
    | inl h ↦ ground (arith, h)
    | inr (d, h) ↦ ground (arith, h, calls_once d (sound.keyed i d h).1)
  ]

  last_deletion :
      (i : BundleId) (st : BundleStore D) (m : Metadata)
      → IsSound st
      → find_deletion i st.deletions ≡ some m
      → count i (drop_deletion i st.deletions) ≡ 0
  last_deletion i st m sound h =
      let (_, less) = find_deletion-count i st.deletions m h in
      omega (arith, less, sound.counted i, calls_at_most_once i st sound)

module _ {D : Type 0} (env : Surroundings D) where
  pub delete_bundle-cases :
      (i : BundleId) (st : BundleStore D)
      → (delete_bundle env i st ≡ st)
        ⊎ ((m : Metadata) × (find_deletion i st.deletions ≡ some m)
            × (delete_bundle env i st ≡ record st {
              bundles = remove BundleId-discrete m.id st.bundles;
              deletions = drop_deletion i st.deletions;
              disk = delete_from_disk env m st.disk;
            }))
  unfolding delete_bundle
  delete_bundle-cases i st = elim (Option-cases (find_deletion i st.deletions)) [
    | inl h ↦ inl (rw (delete_bundle, h) refl)
    | inr (m, h) ↦ inr (m, h, rw (delete_bundle, h) refl)
  ]

  pub delete_bundle-IsSound :
      (i : BundleId) (st : BundleStore D) → IsSound st → IsSound (delete_bundle env i st)
  delete_bundle-IsSound i st sound = elim (delete_bundle-cases i st) [
    | inl e ↦ subst IsSound (sym e) sound
    | inr (m, h, e) ↦
        let (named, less) = find_deletion-count i st.deletions m h in
        subst IsSound (sym e) (record {
          differ = remove-KeysDiffer BundleId-discrete m.id st.bundles sound.differ;
          keyed = λ j d there.
              sound.keyed j d (remove-found BundleId-discrete j m.id d st.bundles there);
          counted = λ j.
              let left = get-remove BundleId-discrete j m.id st.bundles in
              elim (BundleId-discrete j i) [
                | yes same ↦
                    let none_left = last_deletion i st m sound h in
                    ap (λ (k : BundleId). count k (drop_deletion i st.deletions)) same
                    ∙ none_left
                    ∙ sym (
                        ap calls (
                          left
                          ∙ if_pos (BundleId-discrete j m.id) (same ∙ sym named) none
                              (get BundleId-discrete j st.bundles)))
                | no off ↦ ground (
                  arith,
                  off,
                  named,
                  left,
                  drop_deletion-other i j st.deletions off,
                  sound.counted j,
                )
              ];
        })
  ]
