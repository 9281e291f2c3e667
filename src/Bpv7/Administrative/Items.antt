-- ===== src/Bpv7/Administrative/Items.antt =====
-- The items of a status report: which are asserted, and their wire format.
use dtn7_go.Base.{
  ℕ, ◌<◌, ◌≡◌, ◌∙◌, refl, sym, ap, List, [], ◌∷◌, ◌++◌, append_assoc, Bool, true, false, length,
  All, ok, arith,
}
use dtn7_go.Cbor.{Libs}
use dtn7_go.Cbor.Laws.{CborLaws, IsU64}
use dtn7_go.Bpv7.Bundle.{Bundle}
use dtn7_go.Bpv7.Administrative.{
  BundleStatusItem, new_bundle_status_item, new_time_reporting_item, item_at, new_status_report,
  status_informations, marshal_item, unmarshal_item, marshal_items, unmarshal_items,
}

-- A time that is reported is asserted and has 64 bits; one that is not reported is the epoch.
pub record ItemFits (si : BundleStatusItem) : Type 0 where
  pub time_fits : IsU64 si.time
  pub requested_is_asserted : si.status_requested ≡ true → si.asserted ≡ true
  pub unrequested_is_epoch : si.status_requested ≡ false → si.time ≡ 0

-- A status report on a bundle asserts just the position that it is made for.
pub new_status_report-asserts :
    (b : Bundle) (status_item reason time : ℕ)
    → status_item < 4
    → status_informations (new_status_report b status_item reason time) ≡ status_item ∷ []
unfolding status_informations new_status_report item_at new_bundle_status_item
    new_time_reporting_item
new_status_report-asserts b status_item reason time low = ground (arith, low)

item_at-ItemFits :
    (b : Bundle) (status_item time sip : ℕ) → IsU64 time → ItemFits (item_at b status_item time sip)
unfolding item_at new_bundle_status_item new_time_reporting_item
item_at-ItemFits b status_item time sip small = record {
  time_fits = ground (arith, small);
  requested_is_asserted = ground arith;
  unrequested_is_epoch = ground arith;
}

pub new_status_report-fit :
    (b : Bundle) (status_item reason time : ℕ)
    → IsU64 time
    → All ItemFits (new_status_report b status_item reason time).status_information
unfolding new_status_report
new_status_report-fit b status_item reason time small =
    let fits = λ (sip : ℕ). item_at-ItemFits b status_item time sip small in
    (fits 0, (fits 1, (fits 2, (fits 3, tt))))

module _ (lib : Libs) (laws : CborLaws lib) where
  timed_item :
      (t : ℕ) (rest : List ℕ)
      → IsU64 t
      → unmarshal_item lib
          ((lib.write_array_length 2 ++ (lib.write_boolean true ++ lib.write_uint t)) ++ rest)
        ≡ ok (record { asserted = true; time = t; status_requested = true }, rest)
  unfolding unmarshal_item
  timed_item t rest small = grind (arith, append_assoc, laws.array_length, laws.boolean, laws.uint)

  plain_item :
      (b : Bool) (rest : List ℕ)
      → unmarshal_item lib ((lib.write_array_length 1 ++ lib.write_boolean b) ++ rest)
        ≡ ok (record { asserted = b; time = 0; status_requested = false }, rest)
  unfolding unmarshal_item
  plain_item b rest = grind (arith, append_assoc, laws.array_length, laws.boolean)

  unmarshal-marshal_item :
      (asserted : Bool) (time : ℕ) (status_requested : Bool) (rest : List ℕ)
      → ItemFits (record { asserted = asserted; time = time; status_requested = status_requested })
      → unmarshal_item lib (
          marshal_item lib
            (record { asserted = asserted; time = time; status_requested = status_requested })
          ++ rest)
        ≡ ok
            (record { asserted = asserted; time = time; status_requested = status_requested }, rest)
  unfolding marshal_item
  unmarshal-marshal_item true time true rest fits = timed_item time rest fits.time_fits
  unmarshal-marshal_item true time false rest fits =
      plain_item true rest
      ∙ ap (λ (t : ℕ). ok (record { asserted = true; time = t; status_requested = false }, rest))
          (sym (fits.unrequested_is_epoch refl))
  unmarshal-marshal_item false time true rest fits =
      absurd (ground (arith, fits.requested_is_asserted refl))
  unmarshal-marshal_item false time false rest fits =
      plain_item false rest
      ∙ ap (λ (t : ℕ). ok (record { asserted = false; time = t; status_requested = false }, rest))
          (sym (fits.unrequested_is_epoch refl))

  pub unmarshal-marshal_items :
      (items : List BundleStatusItem) (rest : List ℕ)
      → All ItemFits items
      → unmarshal_items lib (length items) (marshal_items lib items ++ rest) ≡ ok (items, rest)
  unfolding unmarshal_items marshal_items
  unmarshal-marshal_items [] rest fit = refl
  unmarshal-marshal_items (si ∷ items) rest (fits, fit) = grind (
    arith,
    append_assoc,
    unmarshal-marshal_item si.asserted si.time si.status_requested (marshal_items lib items ++ rest)
        fits,
    unmarshal-marshal_items items rest fit,
  )
