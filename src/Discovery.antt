-- ===== src/Discovery.antt =====
-- pkg/discovery/announcement.go: what a node announces of its adapters, and its wire format.
pub mod RoundTrip
pub mod Manager
pub mod Heard
use dtn7_go.Base.{
  ℕ, zero, suc, ◌*◌, ◌^◌, List, [], ◌∷◌, ◌++◌, Bool, ◌==◌, ltb, length, if◌then◌else◌, Result, ok,
  err, panic, then_ok, wrap_err, Reader, ◌>>=◌, ◌>>◌, return, fail, wrap, require, wrong_length,
}
use dtn7_go.Cbor.{Libs}
use dtn7_go.Bpv7.Endpoint.{EndpointId, marshal_endpoint, unmarshal_endpoint}
use dtn7_go.Cla.Types.{check_cla_type}

pub record Announcement : Type 0 where
  pub cla_type : ℕ
  pub endpoint : EndpointId
  pub port : ℕ

module _ (lib : Libs) where
  unfoldable pub marshal_announcement : Announcement → Result (List ℕ)
  marshal_announcement a = then_ok (wrap_err (marshal_endpoint lib a.endpoint)) λ eid.
      ok (lib.write_array_length 3 ++ (lib.write_uint a.cla_type ++ (eid ++ lib.write_uint a.port)))

  abbrev pub checked_type : ℕ → Reader (Unit {0})
  checked_type t s = then_ok (check_cla_type t) λ _. ok (tt, s)

  unfoldable pub unmarshal_announcement : Reader Announcement
  unmarshal_announcement = do
    l ← lib.read_array_length
    require (l == 3) (wrong_length l)
    t ← lib.read_uint
    checked_type t
    eid ← wrap (unmarshal_endpoint lib)
    port ← lib.read_uint
    return (record { cla_type = t; endpoint = eid; port = port })

  unfoldable pub marshal_all : List Announcement → Result (List ℕ)
  unfolding marshal_announcement
  marshal_all [] = ok []
  marshal_all (a ∷ anns) =
      then_ok (wrap_err (marshal_announcement a))
        λ bytes. then_ok (marshal_all anns) λ rest. ok (bytes ++ rest)

  -- `MarshalAnnouncements`
  unfoldable pub marshal_announcements : List Announcement → Result (List ℕ)
  unfolding marshal_all
  marshal_announcements anns =
      then_ok (marshal_all anns) λ bytes. ok (lib.write_array_length (length anns) ++ bytes)

  -- `make([]Announcement, l)` panics if the slice of 32 bytes each exceeds 2 ^ 48 bytes.
  abbrev pub made : ℕ → Reader (Unit {0})
  made n s = if ltb (2 ^ 48) (n * 32) then panic else ok (tt, s)

  -- The loop over the slice.
  unfoldable pub unmarshal_all : ℕ → Reader (List Announcement)
  unmarshal_all zero = return []
  unmarshal_all (suc n) = do
    a ← wrap unmarshal_announcement
    anns ← unmarshal_all n
    return (a ∷ anns)

  -- `UnmarshalAnnouncements`; what follows the announcements is not looked at.
  unfoldable pub unmarshal_announcements : Reader (List Announcement)
  unmarshal_announcements = do n ← lib.read_array_length; made n; unmarshal_all n
