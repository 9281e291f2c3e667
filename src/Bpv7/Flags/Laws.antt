-- ===== src/Bpv7/Flags/Laws.antt =====
-- Setting and clearing the fragment flag.
use dtn7_go.Base.{
  ℕ, ◌*◌, ◌/◌, ◌%◌, ◌≡◌, true, false, ◌==◌, not, bit_or, arith, ap, bit_and-one, bit_or-one,
  bit_and-double, bit_and, ◌-◌, ◌∙◌, sym,
}
use dtn7_go.Bpv7.Flags.{has, clear_flags, is_fragment}

pub has-fragment : (f : ℕ) → has f is_fragment ≡ not (f % 2 == 0)
unfolding has
has-fragment f = ap (λ (n : ℕ). not (n == 0)) (bit_and-one f)

-- A flag beyond the lowest is a lower flag of the half.
pub has-double : (f m : ℕ) → has f (m * 2) ≡ has (f / 2) m
unfolding has
has-double f m = ground (arith, bit_and-double f m)

-- `flags | IsFragment` sets that flag and keeps every other.
pub has_fragment_set : (f : ℕ) → has (bit_or f is_fragment) is_fragment ≡ true
has_fragment_set f = ground (arith, has-fragment (bit_or f is_fragment), bit_or-one f)

pub has_other_set : (f m : ℕ) → has (bit_or f is_fragment) (m * 2) ≡ has f (m * 2)
has_other_set f m =
    let half : bit_or f 1 / 2 ≡ f / 2 = omega (arith, bit_or-one f) in
    has-double (bit_or f 1) m ∙ ap (λ (h : ℕ). has h m) half ∙ sym (has-double f m)

-- `flags &^ IsFragment` clears that flag and keeps every other.
pub has_fragment_cleared : (f : ℕ) → has (clear_flags f is_fragment) is_fragment ≡ false
unfolding clear_flags
has_fragment_cleared f = ground (arith, has-fragment (clear_flags f is_fragment), bit_and-one f)

pub has_other_cleared : (f m : ℕ) → has (clear_flags f is_fragment) (m * 2) ≡ has f (m * 2)
unfolding clear_flags
has_other_cleared f m =
    let half : (f - bit_and f 1) / 2 ≡ f / 2 = omega (arith, bit_and-one f) in
    has-double (f - bit_and f 1) m ∙ ap (λ (h : ℕ). has h m) half ∙ sym (has-double f m)

-- Where the fragment flag was not set, `&^ IsFragment` takes back what `| IsFragment` did.
pub clear_set_fragment :
    (f : ℕ) → has f is_fragment ≡ false → clear_flags (bit_or f is_fragment) is_fragment ≡ f
unfolding clear_flags
clear_set_fragment f h = ground (arith, has-fragment f, bit_or-one f, bit_and-one (bit_or f 1))
