-- ===== src/Bpv7/Bundle/Wire.antt =====
-- `MarshalCbor` and `UnmarshalCbor` of pkg/bpv7/bundle.go.
pub mod NoPayload
pub mod Loop
pub mod RoundTrip
pub mod Valid
use dtn7_go.Base.{
  ℕ, zero, suc, ◌+◌, List, [], ◌∷◌, ◌++◌, Bool, ◌==◌, Option, length, if◌then◌else◌, Error, Result,
  ok, err, panic, then_ok, wrap_err, Reader, ◌>>=◌, ◌>>◌, wrap, flag_break_code, wrapped,
  invalid_bundle, out_of_fuel,
}
use dtn7_go.Cbor.{Libs}
use dtn7_go.Bpv7.Primary.{PrimaryBlock, marshal_primary, unmarshal_primary}
use dtn7_go.Bpv7.Extension.{BlockKind, block_type_code, block_type_payload}
use dtn7_go.Bpv7.Canonical.{
  CanonicalBlock, empty_block, has_type, marshal_canonical, unmarshal_canonical,
}
use dtn7_go.Bpv7.Bundle.{Bundle}
use dtn7_go.Bpv7.Bundle.Check.{check_valid}

-- `if err := b.CheckValid(); err != nil`
abbrev pub accepted : Result (List Error) → Bundle → Result Bundle
accepted (ok []) b = ok b
accepted (ok (e ∷ es)) b = err (invalid_bundle e)
accepted (err e) b = err e
accepted panic b = panic

-- The blocks read so far.
abbrev pub Blocks : Type 0
Blocks = List CanonicalBlock × CanonicalBlock

-- A payload block replaces the payload block, and any other is put behind the extension blocks.
abbrev pub place : CanonicalBlock → Blocks → Blocks
place cb (exts, payload_cb) =
    if has_type block_type_payload cb then (exts, cb) else (exts ++ (cb ∷ []), payload_cb)

abbrev pub at_error : Error → Blocks → Result Blocks
at_error flag_break_code bs = ok bs
at_error other bs = err (wrapped other)

abbrev pub finish : ℕ → PrimaryBlock → Blocks → Result Bundle
finish now primary (exts, payload_cb) =
    let b : Bundle = record {
      primary_block = primary;
      extension_blocks = exts;
      payload_block = payload_cb;
    } in
    accepted (check_valid now b) b

module _ (lib : Libs) where
  unfoldable pub marshal_blocks : List CanonicalBlock → Result (List ℕ × List CanonicalBlock)
  marshal_blocks [] = ok ([], [])
  marshal_blocks (cb ∷ cbs) =
      let rest = marshal_blocks cbs in
      then_ok (wrap_err (marshal_canonical lib cb))
        λ w. then_ok rest λ ws. ok (w.0 ++ ws.0, w.1 ∷ ws.1)

  -- The bytes, and the bundle with the CRCs that its blocks keep.
  unfoldable pub marshal_bundle : Bundle → Result (List ℕ × Bundle)
  marshal_bundle b = then_ok (wrap_err (marshal_primary lib b.primary_block)) λ p.
      then_ok (marshal_blocks b.extension_blocks) λ es.
        then_ok (wrap_err (marshal_canonical lib b.payload_block)) λ w. ok (
          lib.indefinite_array ∷ (p.0 ++ (es.0 ++ (w.0 ++ (lib.break_code ∷ [])))),
          record { primary_block = p.1; extension_blocks = es.1; payload_block = w.1 },
        )

  -- The loop until the break. Each round but the last takes a byte of the input at least; the fuel
  -- counts the rounds. What is left in the reader behind the break is dropped.
  unfoldable pub read_blocks : (ℕ → Option BlockKind) → ℕ → Blocks → List ℕ → Result Blocks
  read_blocks known zero bs s = err out_of_fuel
  read_blocks known (suc fuel) bs s = elim (unmarshal_canonical lib known s) [
    | ok (cb, s') ↦ read_blocks known fuel (place cb bs) s'
    | err e ↦ at_error e bs
    | panic ↦ panic
  ]

  -- `ParseBundle` at a time `now`, with what the extension block manager knows.
  unfoldable pub parse_bundle : (ℕ → Option BlockKind) → ℕ → List ℕ → Result Bundle
  parse_bundle known now s = then_ok (lib.read_expect lib.indefinite_array s) λ start.
      then_ok (wrap (unmarshal_primary lib) start.1)
        λ p. then_ok (read_blocks known (suc (length p.1)) ([], empty_block) p.1) (finish now p.0)
