-- ===== src/Base/Outcome.antt =====
-- Go's (value, error) pairs. An error is named by its kind; its message is not kept.
use Prim.Native.Nat.{ℕ}
use mathlib.Core.Path.{◌≡◌, refl}
use mathlib.Core.Bool.{Bool, true, false}
use mathlib.Core.Logic.{◌⊎◌, inl, inr}
use native.Mathlib.Omega.{arith}
use mathlib.Core.List.{List, [], ◌∷◌, ◌++◌}

pub data Error : Type 0 where
  -- cboring's: `FlagBreakCode`, and any other.
  flag_break_code : Error
  cbor_failed : ℕ → Error
  -- `fmt.Errorf("...: %v", err)`, which is no longer the error that it names.
  wrapped : Error → Error
  wrong_length : ℕ → Error
  wrong_version : ℕ → Error
  unknown_scheme : ℕ → Error
  wrong_major : ℕ → Error
  malformed_ssp ssp_is_none nil_endpoint invalid_ipn : Error
  unknown_crc_type : ℕ → Error
  invalid_crc : Error
  out_of_range : ℕ → Error
  unknown_record_type : ℕ → Error
  -- What the `CheckValid` methods find.
  fragment_must_not_be_fragmented report_on_admin_record anonymous_source_flags : Error
  payload_block_number : ℕ → Error
  status_report_on_payload : Error
  duplicate_block_number : ℕ → Error
  age_block_missing lifetime_exceeded hop_count_exceeded block_pointer_differs : Error
  no_block_of_type several_blocks_of_type : ℕ → Error
  -- Fragmentation and reassembly.
  must_not_fragment mtu_exceeded no_fragments not_a_fragment : Error
  fragment_gap : ℕ → ℕ → Error
  wrong_total : ℕ → ℕ → Error
  -- A bundle that `CheckValid` finds this wrong with, among others.
  invalid_bundle : Error → Error
  -- The store: the database refuses a row, a file is not opened or not written, or the descriptor of
  -- that ID is one of a bundle that has been deleted.
  row_refused file_refused write_failed descriptor_deleted : Error
  -- The agents.
  already_delivered no_such_bundle id_already_registered no_such_id : Error
  agent_already_registered no_such_agent : Error
  -- Texts: `strconv.ParseUint`, and the forms of URIs and bundle IDs.
  not_a_number number_too_large malformed_uri unknown_scheme_name malformed_bundle_id : Error
  unknown_cla_type : Error
  -- The bundle builder.
  no_parameters wrong_parameters unsupported_type unknown_block_argument : Error
  negative_duration malformed_duration payload_not_written missing_endpoint : Error
  wrong_map_argument not_implemented unknown_method : Error
  -- No error of the program: a loop of the model has used up its rounds.
  out_of_fuel : Error

-- `panic` is a run-time panic, as of a method called on a nil interface.
pub data Result {ℓ} (A : Type ℓ) : Type ℓ where
  ok : A → Result A
  err : Error → Result A
  panic : Result A

-- Readers: what is left of the input is threaded through. Go's `io.Reader`.
abbrev pub Reader {ℓ} : Type ℓ → Type ℓ
Reader A = List ℕ → Result (A × List ℕ)

abbrev pub return {ℓ} : {A : Type ℓ} → A → Reader A
return a s = ok (a, s)

abbrev pub fail {ℓ} : {A : Type ℓ} → Error → Reader A
fail e s = err e

infixl 5 ◌>>=◌ ◌>>◌
abbrev pub ◌>>=◌ {ℓ κ} : {A : Type ℓ} {B : Type κ} → Reader A → (A → Reader B) → Reader B
◌>>=◌ m f s = elim (m s) [ ok (a, s') ↦ f a s' | err e ↦ err e | panic ↦ panic ]

abbrev pub ◌>>◌ {ℓ} : {B : Type ℓ} → Reader (Unit {0}) → Reader B → Reader B
m >> k = m >>= λ _. k

-- `if !test { return err }`
abbrev pub require : Bool → Error → Reader (Unit {0})
require true e s = ok (tt, s)
require false e s = err e

-- `return fmt.Errorf("...: %v", err)` around a failure.
abbrev pub wrap {ℓ} : {A : Type ℓ} → Reader A → Reader A
wrap m s = elim (m s) [ ok (a, s') ↦ ok (a, s') | err e ↦ err (wrapped e) | panic ↦ panic ]

-- A chain of results without input.
abbrev pub then_ok {ℓ κ} : {A : Type ℓ} {B : Type κ} → Result A → (A → Result B) → Result B
then_ok (ok a) f = f a
then_ok (err e) f = err e
then_ok panic f = panic

-- `fmt.Errorf("...: %v", err)` around a result.
abbrev pub wrap_err {ℓ} : {A : Type ℓ} → Result A → Result A
wrap_err (ok a) = ok a
wrap_err (err e) = err (wrapped e)
wrap_err panic = panic

-- One step of a reader that succeeds.
pub >>=_step {ℓ κ} :
    {A : Type ℓ} {B : Type κ} (m : Reader A) (f : A → Reader B) {s s' : List ℕ} {a : A}
    → m s ≡ ok (a, s')
    → (m >>= f) s ≡ f a s'
>>=_step m f h = rw (h, ◌>>=◌)

pub wrap_step {ℓ} :
    {A : Type ℓ} (m : Reader A) {s s' : List ℕ} {a : A} → m s ≡ ok (a, s') → wrap m s ≡ ok (a, s')
wrap_step m h = rw (h, wrap)

pub Result-cases {ℓ} :
    {A : Type ℓ} (r : Result A)
    → ((a : A) × (r ≡ ok a)) ⊎ (((e : Error) × (r ≡ err e)) ⊎ (r ≡ panic))
Result-cases (ok a) = inl (a, refl)
Result-cases (err e) = inr (inl (e, refl))
Result-cases panic = inr (inr refl)

-- The writer succeeds, and the reader takes the value back from the front of any input that begins
-- with what was written.
abbrev pub Encodes {ℓ} : {A : Type ℓ} → Result (List ℕ) → Reader A → A → Type ℓ
Encodes write read a =
    (bs : List ℕ) × (write ≡ ok bs) × ((rest : List ℕ) → read (bs ++ rest) ≡ ok (a, rest))

-- A chain that succeeds, taken apart.
pub >>=-eq-ok {ℓ κ} :
    {A : Type ℓ} {B : Type κ} (m : Reader A) (f : A → Reader B) (s : List ℕ) {b : B × List ℕ}
    → (m >>= f) s ≡ ok b
    → (a : A) × (s' : List ℕ) × (m s ≡ ok (a, s')) × (f a s' ≡ ok b)
>>=-eq-ok {A} {B} m f s {b} h = parts (m s) refl h
  where
    parts :
        (r : Result (A × List ℕ))
        → m s ≡ r
        → elim r [ ok (a, s') ↦ f a s' | err e ↦ err e | panic ↦ panic ] ≡ ok b
        → (a : A) × (s' : List ℕ) × (m s ≡ ok (a, s')) × (f a s' ≡ ok b)
    parts (ok (a, s')) e h = (a, s', e, h)
    parts (err x) e h = absurd (ground arith)
    parts panic e h = absurd (ground arith)

-- `if err != nil { errs = multierror.Append(errs, err) }`
abbrev pub errors_of {ℓ} : {A : Type ℓ} → Result A → List Error
errors_of (ok a) = []
errors_of (err e) = e ∷ []
errors_of panic = []

-- A check that is passed.
pub require_step {ℓ} :
    {B : Type ℓ} (b : Bool) (e : Error) (k : Reader B) (s : List ℕ)
    → b ≡ true
    → (require b e >> k) s ≡ k s
require_step true e k s h = refl
require_step false e k s h = absurd (ground arith)

-- A chain of results that succeeds has succeeded at each step.
pub then_ok-eq-ok {ℓ κ} :
    {A : Type ℓ} {B : Type κ} (r : Result A) (f : A → Result B) {b : B}
    → then_ok r f ≡ ok b
    → (a : A) × (r ≡ ok a) × (f a ≡ ok b)
then_ok-eq-ok (ok a) f h = (a, refl, h)
then_ok-eq-ok (err e) f h = absurd (ground arith)
then_ok-eq-ok panic f h = absurd (ground arith)
