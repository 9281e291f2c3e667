-- ===== src/Bpv7/Canonical/RoundTrip.antt =====
-- A canonical block is read back, its CRC included, from what was written for it.
use dtn7_go.Base.{
  ℕ, ◌≤◌, ◌≡◌, ◌∙◌, refl, sym, ap, inl, inr, List, [], ◌++◌, append_assoc, true, false, ◌==◌, ◌||◌,
  Option, some, length, ok, if◌then◌else◌, consumed-append, arith, >>=_step, require_step, wrap,
  wrap_step, Bool-cases,
}
use dtn7_go.Cbor.{Libs}
use dtn7_go.Cbor.Laws.{CborLaws, IsU64, write_byte_string}
use dtn7_go.Bpv7.Crc.{calculate_crc_buff}
use dtn7_go.Bpv7.Crc.Laws.{calculate_crc_known}
use dtn7_go.Bpv7.Primary.Fields.{read_crc-written}
use dtn7_go.Bpv7.Extension.{ExtensionBlock, BlockKind, block_type_code, write_block, read_block}
use dtn7_go.Bpv7.Extension.RoundTrip.{ExtensionFits, extension-Encodes}
use dtn7_go.Bpv7.Canonical.{
  CanonicalBlock, has_block_crc, canonical_body, marshal_canonical, read_canonical_crc,
  unmarshal_canonical_from, unmarshal_canonical,
}

-- A block with a value that can be read back, fields of their width and a known CRC type; without a
-- CRC type it has no CRC.
pub record CanonicalFits (lib : Libs) (known : ℕ → Option BlockKind) (cb : CanonicalBlock)
    : Type 0 where
  pub block : ExtensionBlock
  pub has_value : cb.value ≡ some block
  pub block_fits : ExtensionFits lib known block
  pub code_fits : IsU64 (block_type_code block)
  pub number_fits : IsU64 cb.block_number
  pub flags_fit : IsU64 cb.block_control_flags
  pub crc_type_known : cb.crc_type ≤ 2
  pub no_crc : has_block_crc cb ≡ false → cb.crc ≡ []

module _ (lib : Libs) (laws : CborLaws lib) (known : ℕ → Option BlockKind) where
  -- What is written between the array's head and the CRC.
  fields_of : CanonicalBlock → ExtensionBlock → List ℕ → List ℕ
  fields_of cb b value_bytes =
      lib.write_uint (block_type_code b)
      ++ (lib.write_uint cb.block_number
          ++ (lib.write_uint cb.block_control_flags ++ (lib.write_uint cb.crc_type ++ value_bytes)))

  fields-read :
      (cb : CanonicalBlock) (b : ExtensionBlock) (block_len : ℕ)
      (value_bytes start rest crc_bytes crc_val : List ℕ)
      → IsU64 (block_type_code b)
      → IsU64 cb.block_number
      → IsU64 cb.block_control_flags
      → cb.crc_type ≤ 2
      → ((more : List ℕ)
          → read_block lib known (block_type_code b) (value_bytes ++ more) ≡ ok (b, more))
      → read_canonical_crc lib start block_len cb.crc_type (crc_bytes ++ rest) ≡ ok (crc_val, rest)
      → unmarshal_canonical_from lib known block_len start
          (fields_of cb b value_bytes ++ (crc_bytes ++ rest))
        ≡ ok (record cb { crc = crc_val; value = some b }, rest)
  unfolding unmarshal_canonical_from fields_of
  fields-read cb b block_len value_bytes start rest crc_bytes crc_val hc hn hf ht read_value
        read_val =
      simp append_assoc (
        >>=_step lib.read_uint _ (laws.uint (block_type_code b) _ hc)
        ∙ >>=_step lib.read_uint _ (laws.uint cb.block_number _ hn)
        ∙ >>=_step lib.read_uint _ (laws.uint cb.block_control_flags _ hf)
        ∙ >>=_step lib.read_uint _ (laws.uint cb.crc_type _ (omega (arith, ht)))
        ∙ >>=_step (wrap (read_block lib known (block_type_code b))) _
            (wrap_step (read_block lib known (block_type_code b)) (read_value _))
        ∙ >>=_step (read_canonical_crc lib start block_len cb.crc_type) _ read_val)

  head-read :
      (block_len : ℕ) (s : List ℕ)
      → (block_len == 5 || block_len == 6) ≡ true
      → unmarshal_canonical lib known (lib.write_array_length block_len ++ s)
        ≡ unmarshal_canonical_from lib known block_len s s
  unfolding unmarshal_canonical
  head-read block_len s h =
      >>=_step lib.read_array_length _ (laws.array_length block_len s (ground arith))
      ∙ require_step _ _ _ _ h

  crc_part_read :
      (cb : CanonicalBlock) (fields v rest : List ℕ)
      → calculate_crc_buff lib (lib.write_array_length 6 ++ fields) cb.crc_type ≡ ok v
      → length v ≤ 4
      → read_canonical_crc lib
          (fields ++ (write_byte_string lib v ++ rest))
          6
          cb.crc_type
          (write_byte_string lib v ++ rest)
        ≡ ok (v, rest)
  unfolding read_canonical_crc
  crc_part_read cb fields v rest h short =
      rw (consumed-append fields (write_byte_string lib v ++ rest))
        (read_crc-written lib laws (lib.write_array_length 6 ++ fields) v rest cb.crc_type h short)

  RoundTrips : CanonicalBlock → Type 0
  RoundTrips cb =
      (bs : List ℕ) × (crc_val : List ℕ) × (marshal_canonical lib cb
        ≡ ok (bs, record cb { crc = crc_val }))
      × ((rest : List ℕ)
          → unmarshal_canonical lib known (bs ++ rest) ≡ ok (record cb { crc = crc_val }, rest))

  canonical_body-known :
      (cb : CanonicalBlock) (b : ExtensionBlock) (value_bytes : List ℕ)
      → cb.value ≡ some b
      → write_block lib b ≡ ok value_bytes
      → canonical_body lib cb
        ≡ ok (
            lib.write_array_length (if has_block_crc cb then 6 else 5)
            ++ fields_of cb b value_bytes)
  unfolding canonical_body fields_of
  canonical_body-known cb b value_bytes h written = ground arith

  with_crc-round_trip :
      (cb : CanonicalBlock) (fits : CanonicalFits lib known cb) (value_bytes : List ℕ)
      → write_block lib fits.block ≡ ok value_bytes
      → ((more : List ℕ)
          → read_block lib known (block_type_code fits.block) (value_bytes ++ more)
            ≡ ok (fits.block, more))
      → has_block_crc cb ≡ true
      → RoundTrips cb
  unfolding RoundTrips marshal_canonical
  with_crc-round_trip cb fits value_bytes written read has =
      let fields : List ℕ = fields_of cb fits.block value_bytes in
      let body : List ℕ = lib.write_array_length 6 ++ fields in
      let (v, h, short) = calculate_crc_known lib body cb.crc_type fits.crc_type_known in
      (
        body ++ write_byte_string lib v,
        v,
        rw (canonical_body-known cb fits.block value_bytes fits.has_value written, has) (rw h),
        λ rest.
            rw (append_assoc, append_assoc)
              (head-read 6 _ refl
                ∙ fields-read cb fits.block 6 value_bytes _ rest _ v fits.code_fits fits.number_fits
                    fits.flags_fit fits.crc_type_known read (crc_part_read cb fields v rest h short)
                ∙ ap (λ (b : Option ExtensionBlock). ok (record cb { crc = v; value = b }, rest))
                    (sym fits.has_value)),
      )

  without_crc-round_trip :
      (cb : CanonicalBlock) (fits : CanonicalFits lib known cb) (value_bytes : List ℕ)
      → write_block lib fits.block ≡ ok value_bytes
      → ((more : List ℕ)
          → read_block lib known (block_type_code fits.block) (value_bytes ++ more)
            ≡ ok (fits.block, more))
      → has_block_crc cb ≡ false
      → RoundTrips cb
  unfolding RoundTrips marshal_canonical read_canonical_crc
  without_crc-round_trip cb fits value_bytes written read has =
      let fields : List ℕ = fields_of cb fits.block value_bytes in
      (
        lib.write_array_length 5 ++ fields,
        [],
        rw (canonical_body-known cb fits.block value_bytes fits.has_value written, has)
            (ap (λ (v : List ℕ). ok (lib.write_array_length 5 ++ fields, record cb { crc = v }))
              (fits.no_crc has)),
        λ rest. rw append_assoc (
            head-read 5 _ refl
            ∙ fields-read cb fits.block 5 value_bytes _ rest [] [] fits.code_fits fits.number_fits
                fits.flags_fit fits.crc_type_known read refl
            ∙ ap (λ (b : Option ExtensionBlock). ok (record cb { crc = []; value = b }, rest))
                (sym fits.has_value)),
      )

  -- Every canonical block that fits is written without an error and keeps its new CRC. From the
  -- front of any input that begins with what was written, the same block is read, that CRC included.
  pub unmarshal-marshal_canonical :
      (cb : CanonicalBlock)
      → CanonicalFits lib known cb
      → (bs : List ℕ) × (crc_val : List ℕ) × (marshal_canonical lib cb
          ≡ ok (bs, record cb { crc = crc_val }))
        × ((rest : List ℕ)
            → unmarshal_canonical lib known (bs ++ rest) ≡ ok (record cb { crc = crc_val }, rest))
  unfolding RoundTrips
  unmarshal-marshal_canonical cb fits =
      let (value_bytes, written, read) =
        extension-Encodes lib laws known fits.block fits.block_fits in
      elim (Bool-cases (has_block_crc cb)) [
        | inl has ↦ with_crc-round_trip cb fits value_bytes written read has
        | inr has ↦ without_crc-round_trip cb fits value_bytes written read has
      ]
