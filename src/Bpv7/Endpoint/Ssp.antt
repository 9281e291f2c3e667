-- ===== src/Bpv7/Endpoint/Ssp.antt =====
-- The two uses of the regular expression `//((^$)|([\w-._~!$&'()*+,;=]+))/(.*)` in
-- pkg/bpv7/endpoint_dtn.go. Its first alternative never matches behind the two slashes, `[...]+`
-- cannot take a slash, and `.` takes anything but a line feed.
pub mod Laws
use dtn7_go.Base.{
  ℕ, List, [], ◌∷◌, Bool, true, false, not, ◌&&◌, ◌||◌, ◌==◌, leb, Option, none, some,
  if◌then◌else◌,
}
use mathlib.Core.Option

-- `DtnEndpointDtnNoneSsp`, "none".
abbrev pub none_ssp : List ℕ
none_ssp = b'n' ∷ b'o' ∷ b'n' ∷ b'e' ∷ []

abbrev among : ℕ → List ℕ → Bool
among c [] = false
among c (x ∷ xs) = c == x || among c xs

abbrev punctuation : List ℕ
punctuation =
    b'_' ∷ b'-' ∷ b'.' ∷ b'~' ∷ b'!' ∷ b'$' ∷ b'&' ∷ 0x27 ∷ b'(' ∷ b')' ∷ b'*' ∷ b'+' ∷ b',' ∷ b';'
    ∷ b'=' ∷ []

-- `[\w-._~!$&'()*+,;=]`
unfoldable pub is_node_char : ℕ → Bool
is_node_char c =
    (leb b'0' c && leb c b'9')
    || (leb b'A' c && leb c b'Z')
    || (leb b'a' c && leb c b'z')
    || among c punctuation

-- No line feed, which `.*` up to the end asks for.
unfoldable pub on_one_line : List ℕ → Bool
on_one_line [] = true
on_one_line (c ∷ cs) = not (c == 0x0a) && on_one_line cs

-- `[...]+/` and then what `tail` asks for; `seen` says that the class has matched once.
unfoldable pub matches_node : (List ℕ → Bool) → Bool → List ℕ → Bool
matches_node tail seen [] = false
matches_node tail seen (c ∷ cs) =
    let more = matches_node tail true cs in
    if is_node_char c then more else seen && c == b'/' && tail cs

abbrev after_slashes : (List ℕ → Bool) → List ℕ → Bool
after_slashes rest [] = false
after_slashes rest (a ∷ []) = false
after_slashes rest (a ∷ b ∷ cs) = a == b'/' && b == b'/' && rest cs

-- `^…$`: the whole text.
unfoldable pub matches_ssp : List ℕ → Bool
unfolding matches_node
matches_ssp = after_slashes (matches_node on_one_line false)

abbrev anything : List ℕ → Bool
anything cs = true

-- Without the anchors: from some place on, up to any other.
unfoldable pub contains_ssp : List ℕ → Bool
unfolding matches_node
contains_ssp [] = false
contains_ssp (c ∷ cs) = after_slashes (matches_node anything false) (c ∷ cs) || contains_ssp cs

-- `ssp[2:]`
abbrev pub drop_slashes : List ℕ → List ℕ
drop_slashes [] = []
drop_slashes (a ∷ []) = []
drop_slashes (a ∷ b ∷ cs) = cs

-- `strings.SplitN(ssp, "/", 2)`: `none` if there is no slash.
unfoldable pub cut_slash : List ℕ → Option (List ℕ × List ℕ)
cut_slash [] = none
cut_slash (c ∷ cs) =
    if c == b'/'
    then some ([], cs)
    else Option.map (λ (p : List ℕ × List ℕ). (c ∷ p.0, p.1)) (cut_slash cs)
