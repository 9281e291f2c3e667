-- ===== src/Bpv7/Endpoint/Ssp/Laws.antt =====
-- What the two regular expressions accept, in terms of a node name and the rest.
use dtn7_go.Base.{
  ℕ, ◌≡◌, ◌≢◌, refl, ap, ◌⊎◌, inl, inr, List, [], ◌∷◌, ◌++◌, Bool, true, false, ◌==◌, some, arith,
  All, Bool-cases, ==_iff,
}
use dtn7_go.Bpv7.Endpoint.Ssp.{
  is_node_char, on_one_line, matches_node, matches_ssp, contains_ssp, cut_slash,
}

abbrev pub IsNodeText : List ℕ → Type 0
IsNodeText = All (λ c. is_node_char c ≡ true)

pub slash_not_node_char : (c : ℕ) → is_node_char c ≡ true → (c == b'/') ≡ false
unfolding is_node_char
slash_not_node_char c h = ground arith

matches_node-name :
    (tail : List ℕ → Bool) (n d : List ℕ)
    → IsNodeText n
    → matches_node tail true (n ++ (b'/' ∷ d)) ≡ tail d
unfolding matches_node
matches_node-name tail [] d h = unfold is_node_char in refl
matches_node-name tail (c ∷ n) d h = rw (h.0) (matches_node-name tail n d h.1)

matches_node-start :
    (tail : List ℕ → Bool) (n d : List ℕ)
    → n ≢ []
    → IsNodeText n
    → matches_node tail false (n ++ (b'/' ∷ d)) ≡ tail d
matches_node-start tail [] d h t = absurd (h refl)
matches_node-start tail (c ∷ n) d h t =
    unfold matches_node in rw (t.0) (matches_node-name tail n d t.1)

-- A node name, a slash and one line match from end to end.
pub matches_ssp-name :
    (n d : List ℕ)
    → n ≢ []
    → IsNodeText n
    → matches_ssp (b'/' ∷ b'/' ∷ (n ++ (b'/' ∷ d))) ≡ on_one_line d
unfolding matches_ssp
matches_ssp-name n d h t = matches_node-start on_one_line n d h t

-- The unanchored expression finds a node name at the front, whatever stands behind it.
pub contains_ssp-name :
    (n d : List ℕ) → n ≢ [] → IsNodeText n → contains_ssp (b'/' ∷ b'/' ∷ (n ++ (b'/' ∷ d))) ≡ true
unfolding contains_ssp
contains_ssp-name n d h t = rw (matches_node-start (λ cs. true) n d h t)

pub cut_slash-name : (n d : List ℕ) → IsNodeText n → cut_slash (n ++ (b'/' ∷ d)) ≡ some (n, d)
unfolding cut_slash
cut_slash-name [] d h = refl
cut_slash-name (c ∷ n) d h = rw (slash_not_node_char c h.0, cut_slash-name n d h.1)

matches_node_split :
    (seen : Bool) (cs : List ℕ)
    → matches_node on_one_line seen cs ≡ true
    → (n : List ℕ) × (d : List ℕ) × (cs ≡ n ++ (b'/' ∷ d))
      × IsNodeText n
      × (on_one_line d ≡ true)
      × ((seen ≡ true) ⊎ (n ≢ []))
unfolding matches_node
matches_node_split seen [] h = absurd (ground arith)
matches_node_split seen (c ∷ cs) h = elim (Bool-cases (is_node_char c)) [
  | inl yes_char ↦
      let (n, d, e, t, l, s) = matches_node_split true cs (ground (arith, yes_char)) in
      (c ∷ n, d, ap (◌∷◌ c) e, (yes_char, t), l, inr (λ q. cc))
  | inr no_char ↦
      ([], cs, ap (λ x. x ∷ cs) ((==_iff c b'/').0 (ground arith)), tt, ground arith, ground arith)
]

-- Whatever matches is two slashes, a node name, a slash and one line.
pub matches_ssp_split :
    (ssp : List ℕ)
    → matches_ssp ssp ≡ true
    → (n : List ℕ) × (d : List ℕ) × (ssp ≡ b'/' ∷ b'/' ∷ (n ++ (b'/' ∷ d)))
      × (n ≢ [])
      × IsNodeText n
      × (on_one_line d ≡ true)
unfolding matches_ssp
matches_ssp_split [] h = absurd (ground arith)
matches_ssp_split (a ∷ []) h = absurd (ground arith)
matches_ssp_split (a ∷ b ∷ cs) h =
    let (n, d, e, t, l, s) = matches_node_split false cs (ground arith) in
    (n, d, ground (arith, e), elim s [ inl q ↦ absurd (ground arith) | inr q ↦ q ], t, l)
