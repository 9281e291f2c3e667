-- ===== src/Bpv7/Fragmentation/Rounds.antt =====
-- The loop of `Fragment` without fuel, as a relation, and that it ends.
use dtn7_go.Base.{
  ℕ, zero, suc, ◌+◌, ◌-◌, ◌≤◌, ◌<◌, ◌≡◌, List, [], ◌∷◌, false, ltb, leb, length, arith, Result, ok,
  err, panic, then_ok, Error, mtu_exceeded, Bool-cases, Result-cases, inl, inr,
}
use dtn7_go.Cbor.{Libs}
use dtn7_go.Bpv7.Primary.{PrimaryBlock}
use dtn7_go.Bpv7.Bundle.{Bundle}
use dtn7_go.Bpv7.Fragmentation.{fragment_primary_block, fragment_at, overhead, fragments_from}

module _ (lib : Libs) (now mtu : ℕ) (b : Bundle) (bytes : List ℕ) (lens : ℕ × ℕ) where
  abbrev pub primary_at : ℕ → Result (PrimaryBlock × ℕ)
  primary_at i = fragment_primary_block lib b.primary_block i (length bytes)

  abbrev pub used_at : ℕ → ℕ → ℕ
  used_at i primary_len = overhead lib i primary_len lens

  abbrev pub piece_at : ℕ → PrimaryBlock × ℕ → Result Bundle
  piece_at i p = fragment_at lib now b bytes p.0 i (mtu - used_at i p.1)

  abbrev pub with_piece : Bundle → Result (List Bundle) → Result (List Bundle)
  with_piece frag rest = then_ok rest λ frags. ok (frag ∷ frags)

  -- From index `i` on, the loop ends after finitely many rounds with this outcome. A round that goes
  -- on has room for a byte of the payload at least.
  pub data Ends : ℕ → Result (List Bundle) → Type 0 where
    at_end : (i : ℕ) → length bytes ≤ i → Ends i (ok [])
    no_primary : (i : ℕ) (e : Error) → i < length bytes → primary_at i ≡ err e → Ends i (err e)
    primary_panics : (i : ℕ) → i < length bytes → primary_at i ≡ panic → Ends i panic
    no_room :
        (i : ℕ) (p : PrimaryBlock × ℕ)
        → i < length bytes
        → primary_at i ≡ ok p
        → mtu ≤ used_at i p.1
        → Ends i (err mtu_exceeded)
    no_piece :
        (i : ℕ) (p : PrimaryBlock × ℕ) (e : Error)
        → i < length bytes
        → primary_at i ≡ ok p
        → used_at i p.1 < mtu
        → piece_at i p ≡ err e
        → Ends i (err e)
    piece_panics :
        (i : ℕ) (p : PrimaryBlock × ℕ)
        → i < length bytes
        → primary_at i ≡ ok p
        → used_at i p.1 < mtu
        → piece_at i p ≡ panic
        → Ends i panic
    one_more :
        (i : ℕ) (p : PrimaryBlock × ℕ) (frag : Bundle) (rest : Result (List Bundle))
        → i < length bytes
        → primary_at i ≡ ok p
        → used_at i p.1 < mtu
        → piece_at i p ≡ ok frag
        → Ends (i + (mtu - used_at i p.1)) rest
        → Ends i (with_piece frag rest)

  Ends-with_room :
      (fuel i : ℕ) (p : PrimaryBlock × ℕ)
      → i < length bytes
      → primary_at i ≡ ok p
      → used_at i p.1 < mtu
      → Ends
          (i + (mtu - used_at i p.1))
          (fragments_from lib now mtu b bytes lens fuel (i + (mtu - used_at i p.1)))
      → Ends i (
          then_ok (piece_at i p) λ frag.
            with_piece frag
              (fragments_from lib now mtu b bytes lens fuel (i + (mtu - used_at i p.1))))
  Ends-with_room fuel i p inside made room rest = elim (Result-cases (piece_at i p)) [
    | inl (frag, e) ↦ rw e (one_more i p frag _ inside made room e rest)
    | inr (inl (x, e)) ↦ rw e (no_piece i p x inside made room e)
    | inr (inr e) ↦ rw e (piece_panics i p inside made room e)
  ]

  Ends-from :
      (fuel i : ℕ)
      → length bytes ≤ i + fuel
      → Ends i (fragments_from lib now mtu b bytes lens fuel i)
  unfolding fragments_from
  Ends-from zero i h =
      let done : ltb i (length bytes) ≡ false = ground (arith, h) in
      rw (fragments_from, done) (at_end i (omega (arith, h)))
  Ends-from (suc fuel) i h = elim (Bool-cases (ltb i (length bytes))) [
    | inr done ↦ rw (fragments_from, done) (at_end i (ground (arith, done)))
    | inl more ↦
        let inside : i < length bytes = ground (arith, more) in
        elim (Result-cases (primary_at i)) [
          | inr (inl (e, failed)) ↦ rw (fragments_from, more, failed) (no_primary i e inside failed)
          | inr (inr failed) ↦ rw (fragments_from, more, failed) (primary_panics i inside failed)
          | inl (p, made) ↦ elim (Bool-cases (leb mtu (used_at i p.1))) [
            | inl full ↦
                rw (fragments_from, more, made, full)
                  (no_room i p inside made (ground (arith, full)))
            | inr free ↦
                let room : used_at i p.1 < mtu = ground (arith, free) in
                rw (fragments_from, more, made, free)
                  (Ends-with_room fuel i p inside made room
                    (Ends-from fuel (i + (mtu - used_at i p.1)) (omega (arith, h, room))))
          ]
        ]
  ]

  -- The loop of `Fragment` ends, whatever the bundle and the size that its fragments may have, and its
  -- outcome is what `fragments_from` computes in as many rounds as the payload has bytes: no round is
  -- missing. Each round that goes on has room for a byte of the payload at least.
  pub fragments_from-Ends : Ends 0 (fragments_from lib now mtu b bytes lens (length bytes) 0)
  fragments_from-Ends = Ends-from (length bytes) 0 (omega arith)
