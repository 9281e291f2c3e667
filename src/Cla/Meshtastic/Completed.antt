-- ===== src/Cla/Meshtastic/Completed.antt =====
-- When a buffer with as many chunks as the bundle has been cut into holds them all.
use dtn7_go.Base.{
  length-set, length-remove, ℕ, zero, suc, ◌+◌, ◌≤◌, ◌<◌, ◌≡◌, ◌∙◌, sym, ap, refl, List, [], ◌∷◌,
  ◌++◌, length, get_elem?, Option, some, get, set, remove, KeysDiffer, ℕ_discrete, get-set,
  get-remove, set-KeysDiffer, remove-KeysDiffer, Option-cases, inl, inr, arith,
}
use dtn7_go.Cla.Meshtastic.Reassembly.{full_from, or_nil}
use dtn7_go.Cla.Meshtastic.Chunks.{joined}

abbrev pub Chunks : Type 0
Chunks = List (ℕ × List ℕ)

abbrev pub found : ℕ → Chunks → Option (List ℕ)
found k m = get ℕ_discrete k m

head_found : (u : ℕ) (x : List ℕ) (m : Chunks) → found u ((u, x) ∷ m) ≡ some x
unfolding get
head_found u x m = ground arith

below :
    (n k : ℕ) (v : List ℕ) (m : Chunks)
    → ((j : ℕ) (w : List ℕ) → found j m ≡ some w → j < suc n)
    → found k (remove ℕ_discrete n m) ≡ some v
    → k < n
below n k v m small h = elim (ℕ_discrete k n) [
  | yes same ↦ absurd (ground (arith, same, h, get-remove ℕ_discrete k n m))
  | no differ ↦
      let there : found k m ≡ some v = ground (arith, differ, h, get-remove ℕ_discrete k n m) in
      omega (arith, differ, small k v there)
]

-- There are no more different positions than there are positions.
pub length-positions :
    (n : ℕ) (m : Chunks)
    → KeysDiffer ℕ_discrete m
    → ((k : ℕ) (v : List ℕ) → found k m ≡ some v → k < n)
    → length m ≤ n
length-positions zero [] d small = omega arith
length-positions zero ((u, x) ∷ m) d small = absurd (omega (arith, small u x (head_found u x m)))
length-positions (suc n) m d small =
    let fewer =
      length-positions n (remove ℕ_discrete n m) (remove-KeysDiffer ℕ_discrete n m d)
        λ k v h. below n k v m small h in
    omega (arith, fewer, length-remove ℕ_discrete n m d)

-- The chunks are some of those that the bundle has been cut into, each at its position.
pub record AreChunksOf (all : List (List ℕ)) (m : Chunks) : Type 0 where
  pub keys_differ : KeysDiffer ℕ_discrete m
  pub right : (i : ℕ) (c : List ℕ) → found i m ≡ some c → get_elem? all i ≡ some c

position_small :
    (all : List (List ℕ)) (i : ℕ) (c : List ℕ) → get_elem? all i ≡ some c → i < length all
position_small [] i c h = absurd (ground (arith, h))
position_small (x ∷ all) zero c h = omega arith
position_small (x ∷ all) (suc i) c h = omega (arith, position_small all i c h)

right-set :
    (all : List (List ℕ)) (m : Chunks) (k : ℕ) (v : List ℕ)
    → AreChunksOf all m
    → get_elem? all k ≡ some v
    → (i : ℕ) (c : List ℕ) → found i (set ℕ_discrete k v m) ≡ some c
    → get_elem? all i ≡ some c
right-set all m k v of h i c there = elim (ℕ_discrete i k) [
  | yes same ↦
      let this : some v ≡ some c = ground (arith, same, there, get-set ℕ_discrete i k v m) in
      ap (get_elem? all) same ∙ h ∙ this
  | no differ ↦ of.right i c (ground (arith, differ, there, get-set ℕ_discrete i k v m))
]

pub set-AreChunksOf :
    (all : List (List ℕ)) (m : Chunks) (k : ℕ) (v : List ℕ)
    → AreChunksOf all m
    → get_elem? all k ≡ some v
    → AreChunksOf all (set ℕ_discrete k v m)
set-AreChunksOf all m k v of h = record {
  keys_differ = set-KeysDiffer ℕ_discrete k v m of.keys_differ;
  right = right-set all m k v of h;
}

pub chunks_bounded : (all : List (List ℕ)) (m : Chunks) → AreChunksOf all m → length m ≤ length all
chunks_bounded all m of =
    length-positions (length all) m of.keys_differ λ k v h. position_small all k v (of.right k v h)

-- As many chunks as there are: none is missing.
none_missing :
    (all : List (List ℕ)) (m : Chunks) (i : ℕ) (c : List ℕ)
    → AreChunksOf all m
    → length m ≡ length all
    → get_elem? all i ≡ some c
    → found i m ≡ some c
none_missing all m i c of enough h = elim (Option-cases (found i m)) [
  | inl free ↦ absurd (
      omega (
        arith,
        enough,
        length-set ℕ_discrete i c m free,
        chunks_bounded all (set ℕ_discrete i c m) (set-AreChunksOf all m i c of h),
      ))
  | inr (v, there) ↦ there ∙ (sym (of.right i v there) ∙ h)
]

full_from-joined :
    (cs : List (List ℕ)) (j : ℕ) (m : Chunks)
    → ((i : ℕ) (c : List ℕ) → get_elem? cs i ≡ some c → found (j + i) m ≡ some c)
    → full_from (length cs) j m ≡ joined cs
unfolding full_from
full_from-joined [] j m all_there = refl
full_from-joined (c ∷ cs) j m all_there =
    let first : found (j + 0) m ≡ some c = all_there 0 c refl in
    let here : found j m ≡ some c =
      let e : j ≡ j + 0 = omega arith in ap (λ k. found k m) e ∙ first in
    let rest = full_from-joined cs (suc j) m λ i x h.
      let e : suc j + i ≡ j + suc i = omega arith in
      ap (λ k. found k m) e ∙ all_there (suc i) x h in
    ap (λ o. or_nil o ++ full_from (length cs) (suc j) m) here ∙ ap (λ bs. c ++ bs) rest

pub full-joined :
    (all : List (List ℕ)) (m : Chunks)
    → AreChunksOf all m
    → length m ≡ length all
    → full_from (length all) 0 m ≡ joined all
full-joined all m of enough = full_from-joined all 0 m λ i c h.
    let e : 0 + i ≡ i = omega arith in ap (λ k. found k m) e ∙ none_missing all m i c of enough h
