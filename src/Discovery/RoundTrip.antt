-- ===== src/Discovery/RoundTrip.antt =====
-- Announcements are read back from what was written for them, unless they are of a type for tests.
use dtn7_go.Base.{
  ℕ, ◌<◌, ◌^◌, ◌≡◌, refl, List, [], ◌∷◌, ◌++◌, append_assoc, length, All, ok, err, Encodes, arith,
  unknown_cla_type,
}
use dtn7_go.Cbor.{Libs}
use dtn7_go.Cbor.Laws.{CborLaws, IsU64}
use dtn7_go.Bpv7.Endpoint.RoundTrip.{IsWireEndpoint, endpoint-Encodes}
use dtn7_go.Cla.Types.{IsClaType, check_cla_type, check_cla_type_iff}
use dtn7_go.Discovery.{
  Announcement, marshal_announcement, unmarshal_announcement, marshal_all, marshal_announcements,
  unmarshal_all, unmarshal_announcements, made, checked_type,
}

pub record AnnouncementFits (a : Announcement) : Type 0 where
  pub type_known : IsClaType a.cla_type
  pub endpoint_fits : IsWireEndpoint a.endpoint
  pub port_fits : IsU64 a.port

small_type : (t : ℕ) → IsClaType t → IsU64 t
small_type t h = ground arith

module _ (lib : Libs) (laws : CborLaws lib) where
  type_read : (t : ℕ) (s : List ℕ) → IsClaType t → checked_type lib t s ≡ ok (tt, s)
  type_read t s known = ground (arith, (check_cla_type_iff t).1 known)

  type_refused :
      (t : ℕ) (s : List ℕ)
      → check_cla_type t ≡ err unknown_cla_type
      → checked_type lib t s ≡ err unknown_cla_type
  type_refused t s refused = ground (arith, refused)

  made_few : (n : ℕ) (s : List ℕ) → n < 2 ^ 40 → made lib n s ≡ ok (tt, s)
  made_few n s few = ground (arith, few)

  announcement-Encodes :
      (a : Announcement)
      → AnnouncementFits a
      → Encodes (marshal_announcement lib a) (unmarshal_announcement lib) a
  unfolding marshal_announcement unmarshal_announcement
  announcement-Encodes a fits =
      let (eid, written, eid_read) = endpoint-Encodes lib laws a.endpoint fits.endpoint_fits in
      (
        lib.write_array_length 3 ++ (lib.write_uint a.cla_type ++ (eid ++ lib.write_uint a.port)),
        rw (marshal_announcement, written) refl,
        λ rest. grind (
          arith,
          append_assoc,
          laws.array_length,
          laws.uint,
          eid_read,
          small_type a.cla_type fits.type_known,
          type_read a.cla_type (eid ++ (lib.write_uint a.port ++ rest)) fits.type_known,
          fits.port_fits,
        ),
      )

  marshal_all-Encodes :
      (anns : List Announcement)
      → All AnnouncementFits anns
      → Encodes (marshal_all lib anns) (unmarshal_all lib (length anns)) anns
  unfolding marshal_all unmarshal_all
  marshal_all-Encodes [] fit = ([], refl, λ rest. refl)
  marshal_all-Encodes (a ∷ anns) (fits, fit) =
      let (bytes, written, read) = announcement-Encodes a fits in
      let (more, all_written, all_read) = marshal_all-Encodes anns fit in
      (
        bytes ++ more,
        ground (arith, written, all_written),
        λ rest. grind (arith, append_assoc, read, all_read),
      )

  -- `UnmarshalAnnouncements` reads back the announcements that `MarshalAnnouncements` has written,
  -- if each has a type with a text, an endpoint that can stand in a bundle and a port of 64 bits, and
  -- there are less than 2 ^ 40 of them.
  pub announcements-Encodes :
      (anns : List Announcement)
      → All AnnouncementFits anns
      → length anns < 2 ^ 40
      → Encodes (marshal_announcements lib anns) (unmarshal_announcements lib) anns
  unfolding marshal_announcements unmarshal_announcements
  announcements-Encodes anns fit few =
      let (bytes, written, read) = marshal_all-Encodes anns fit in
      let small : IsU64 (length anns) = omega (arith, few) in
      (
        lib.write_array_length (length anns) ++ bytes,
        ground (arith, written),
        λ rest. grind (
          arith,
          append_assoc,
          laws.array_length,
          small,
          made_few (length anns) (bytes ++ rest) few,
          read,
        ),
      )

  refused_read :
      (t : ℕ) (more : List ℕ)
      → IsU64 t
      → checked_type lib t more ≡ err unknown_cla_type
      → unmarshal_announcement lib (lib.write_array_length 3 ++ (lib.write_uint t ++ more))
        ≡ err unknown_cla_type
  unfolding unmarshal_announcement
  refused_read t more fits refused = grind (arith, laws.array_length, laws.uint, fits, refused)

  -- Every announcement of a type that `CheckValid` refuses, as is the dummy adapter's, can be written,
  -- but what was written is not read back.
  pub announcement-refused :
      (a : Announcement) (rest : List ℕ)
      → check_cla_type a.cla_type ≡ err unknown_cla_type
      → IsU64 a.cla_type
      → IsWireEndpoint a.endpoint
      → (bs : List ℕ) × (marshal_announcement lib a ≡ ok bs)
        × (unmarshal_announcement lib (bs ++ rest) ≡ err unknown_cla_type)
  unfolding marshal_announcement
  announcement-refused a rest refused fits e =
      let (eid, written, eid_read) = endpoint-Encodes lib laws a.endpoint e in
      (
        lib.write_array_length 3 ++ (lib.write_uint a.cla_type ++ (eid ++ lib.write_uint a.port)),
        rw (marshal_announcement, written) refl,
        rw (append_assoc, append_assoc)
            (refused_read a.cla_type _ fits (type_refused a.cla_type _ refused)),
      )
