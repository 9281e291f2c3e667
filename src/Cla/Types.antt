-- ===== src/Cla/Types.antt =====
-- pkg/cla/cla_types.go: the types of convergence layer adapters. `CLAType` is a `uint`.
use dtn7_go.Base.{
  ℕ, List, ◌==◌, ◌≡◌, ◌⊎◌, ◌↔◌, inl, inr, refl, if◌then◌else◌, Result, ok, err, bytes_equal,
  unknown_cla_type, arith,
}
use dtn7_go.Base.Texts.{codes, to_lower}

abbrev pub tcpclv4 : ℕ
tcpclv4 = 0

abbrev pub mtcp : ℕ
mtcp = 10

abbrev pub quicl : ℕ
quicl = 20

abbrev pub meshtastic : ℕ
meshtastic = 30

-- Used for testing.
abbrev pub dummy : ℕ
dummy = 8080

unfoldable pub type_from_string : List ℕ → Result ℕ
unfolding bytes_equal to_lower
type_from_string text =
    let lower = to_lower text in
    if bytes_equal lower (codes "tcpclv4")
    then ok tcpclv4
    else if bytes_equal lower (codes "mtcp")
    then ok mtcp
    else if bytes_equal lower (codes "quicl")
    then ok quicl
    else if bytes_equal lower (codes "meshtastic")
    then ok meshtastic
    else err unknown_cla_type

abbrev unknown_text : List ℕ
unknown_text = codes "unknown CLA type"

-- `CLAType.String`
unfoldable pub cla_type_string : ℕ → List ℕ
cla_type_string t =
    if t == tcpclv4
    then codes "TCPCLv4"
    else if t == mtcp
    then codes "MTCP"
    else if t == quicl
    then codes "QUICL"
    else if t == meshtastic
    then codes "meshtastic"
    else unknown_text

-- `CLAType.CheckValid` compares the text.
unfoldable pub check_cla_type : ℕ → Result (Unit {0})
unfolding cla_type_string bytes_equal
check_cla_type t =
    if bytes_equal (cla_type_string t) unknown_text then err unknown_cla_type else ok tt

-- The types of adapters that are more than a test.
abbrev pub IsClaType : ℕ → Type 0
IsClaType t = (t ≡ tcpclv4) ⊎ ((t ≡ mtcp) ⊎ ((t ≡ quicl) ⊎ (t ≡ meshtastic)))

checked-IsClaType : (t : ℕ) → check_cla_type t ≡ ok tt → IsClaType t
unfolding check_cla_type
checked-IsClaType t h = ground arith

IsClaType-checked : (t : ℕ) → IsClaType t → check_cla_type t ≡ ok tt
unfolding check_cla_type
IsClaType-checked t (inl e) = rw e refl
IsClaType-checked t (inr (inl e)) = rw e refl
IsClaType-checked t (inr (inr (inl e))) = rw e refl
IsClaType-checked t (inr (inr (inr e))) = rw e refl

-- `CheckValid` accepts exactly the four types that have a text; not the dummy.
pub check_cla_type_iff : (t : ℕ) → (check_cla_type t ≡ ok tt) ↔ IsClaType t
check_cla_type_iff t = (checked-IsClaType t, IsClaType-checked t)

type_from_string-string : (t : ℕ) → IsClaType t → type_from_string (cla_type_string t) ≡ ok t
unfolding type_from_string cla_type_string
type_from_string-string t (inl e) = rw e refl
type_from_string-string t (inr (inl e)) = rw e refl
type_from_string-string t (inr (inr (inl e))) = rw e refl
type_from_string-string t (inr (inr (inr e))) = rw e refl

type_from_string-IsClaType : (text : List ℕ) (t : ℕ) → type_from_string text ≡ ok t → IsClaType t
unfolding type_from_string
type_from_string-IsClaType text t h = ground arith

-- The types are read back from their texts, and whatever text comes in, a type that is read from it
-- passes `CheckValid`.
pub type_from_string-valid :
    ((t : ℕ) → IsClaType t → type_from_string (cla_type_string t) ≡ ok t)
    × ((text : List ℕ) (t : ℕ) → type_from_string text ≡ ok t → check_cla_type t ≡ ok tt)
type_from_string-valid =
    (type_from_string-string, λ text t h. IsClaType-checked t (type_from_string-IsClaType text t h))
