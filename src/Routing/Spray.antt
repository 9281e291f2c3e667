-- ===== src/Routing/Spray.antt =====
-- pkg/routing/spray_and_wait.go. A descriptor's copies are its miscellaneous data under one key.
pub mod Copies
pub mod Stripped
pub mod Halves
pub mod Received
use dtn7_go.Base.{
  ℕ, zero, suc, ◌+◌, ◌-◌, ◌/◌, ◌%◌, List, [], ◌∷◌, ◌++◌, Bool, true, false, not, ◌&&◌, ◌==◌, leb,
  ltb, Option, none, some, map, Result, ok, err, panic, then_ok, if◌then◌else◌, length, take, drop,
  get_elem?,
}
use dtn7_go.Bpv7.Extension.{
  ExtensionBlock, payload, previous_node, bundle_age, hop_count, binary_spray, generic,
  block_type_code, block_type_binary_spray,
}
use dtn7_go.Bpv7.Canonical.{CanonicalBlock, of_value, new_canonical_block}
use dtn7_go.Bpv7.Bundle.{Bundle, extension_block_by_type, add_extension_block}
use dtn7_go.Store.Descriptor.{Descriptor, get_misc_data, set_misc_data}
use dtn7_go.Routing.Peers.{Sender, filter_peers}

-- "spray_and_wait/copies"
abbrev pub spray_bundle_copies_key : List ℕ
spray_bundle_copies_key =
    115 ∷ 112 ∷ 114 ∷ 97 ∷ 121 ∷ 95 ∷ 97 ∷ 110 ∷ 100 ∷ 95 ∷ 119 ∷ 97 ∷ 105 ∷ 116 ∷ 47 ∷ 99 ∷ 111
    ∷ 112 ∷ 105 ∷ 101 ∷ 115 ∷ []

pub record SprayAndWait : Type 0 where
  pub copies : ℕ
  pub binary : Bool

unfoldable pub set_spray_copies : ℕ → Descriptor → Descriptor
set_spray_copies copies = set_misc_data spray_bundle_copies_key copies

unfoldable pub get_spray_copies : Descriptor → Option ℕ
get_spray_copies = get_misc_data spray_bundle_copies_key

unfoldable pub notify_new_bundle : SprayAndWait → Descriptor → Descriptor
unfolding set_spray_copies
notify_new_bundle router d = set_spray_copies router.copies d

-- `block.Value.(*bpv7.BinarySprayBlock).RemainingCopies()`; the assertion panics on any other type.
abbrev remaining_copies : ExtensionBlock → Result ℕ
remaining_copies (binary_spray copies) = ok copies
remaining_copies (payload bytes) = panic
remaining_copies (previous_node eid) = panic
remaining_copies (bundle_age ms) = panic
remaining_copies (hop_count hcb) = panic
remaining_copies (generic code bytes) = panic

-- The copies that a received bundle brings: none without a block of its own.
abbrev received_copies : Result CanonicalBlock → Result ℕ
received_copies (ok cb) = of_value cb.value remaining_copies
received_copies (err e) = ok 0
received_copies panic = panic

unfoldable pub notify_received_bundle : Descriptor → Bundle → Result Descriptor
unfolding set_spray_copies
notify_received_bundle d b =
    then_ok (received_copies (extension_block_by_type block_type_binary_spray b))
      λ copies. ok (set_spray_copies copies d)

-- The senders, the bundle to send in place of the stored one, and the descriptor afterwards.
pub record Selection : Type 0 where
  pub senders : List Sender
  pub bundle : Option Bundle
  pub descriptor : Descriptor

abbrev pub nobody : Descriptor → Selection
nobody d = record { senders = []; bundle = none; descriptor = d }

-- `selectBasicSpray`
unfoldable pub select_basic_spray : Descriptor → ℕ → List Sender → Selection
unfolding set_spray_copies
select_basic_spray d copies peers =
    if leb (length peers) copies
    then record {
      senders = peers;
      bundle = none;
      descriptor = set_spray_copies (copies - length peers) d;
    }
    else record { senders = take copies peers; bundle = none; descriptor = set_spray_copies 0 d }

-- The blocks of a bundle as Go has them: an array, and how much of it is the slice. What
-- `ExtensionBlocksByType` returns are pointers into the array.
abbrev pub BlockArray : Type 0
BlockArray = List CanonicalBlock × ℕ

abbrev pub spray_if : ℕ → ExtensionBlock → List ℕ → List ℕ
spray_if i b is = if block_type_code b == block_type_binary_spray then i ∷ is else is

-- Where the spray blocks stand, from `i` on; `TypeCode` of a block without a value panics.
unfoldable pub spray_positions : ℕ → List CanonicalBlock → Result (List ℕ)
spray_positions i [] = ok []
spray_positions i (cb ∷ cbs) =
    let rest = spray_positions (suc i) cbs in
    of_value cb.value λ b. then_ok rest λ is. ok (spray_if i b is)

abbrev next_index : Option ℕ → Option ℕ
next_index none = none
next_index (some i) = some (suc i)

unfoldable pub index_of : ℕ → List CanonicalBlock → Option ℕ
index_of n [] = none
index_of n (cb ∷ cbs) = if cb.block_number == n then some 0 else next_index (index_of n cbs)

-- `append(b.ExtensionBlocks[:i], b.ExtensionBlocks[i+1:]...)` moves what is behind the block down in
-- the array, whose last place of the slice keeps what it had.
unfoldable pub remove_in_place : ℕ → BlockArray → BlockArray
unfolding index_of
remove_in_place n (array, live) = elim (index_of n (take live array)) [
  | none ↦ (array, live)
  | some i ↦ (take i array ++ (drop (suc i) (take live array) ++ drop (live - 1) array), live - 1)
]

abbrev pub remove_pointed : Option CanonicalBlock → BlockArray → BlockArray
remove_pointed none bs = bs
remove_pointed (some cb) bs = remove_in_place cb.block_number bs

-- The loop over the pointers: each is read after the removals before it.
unfoldable pub remove_spray_blocks : List ℕ → BlockArray → BlockArray
unfolding remove_in_place
remove_spray_blocks [] bs = bs
remove_spray_blocks (p ∷ ps) bs = remove_spray_blocks ps (remove_pointed (get_elem? bs.0 p) bs)

-- `bundle` without its spray blocks.
unfoldable pub without_spray_blocks : Bundle → Result Bundle
unfolding spray_positions remove_spray_blocks
without_spray_blocks b = then_ok (spray_positions 0 b.extension_blocks) λ ps.
    let bs = remove_spray_blocks ps (b.extension_blocks, length b.extension_blocks) in
    ok (record b { extension_blocks = take bs.1 bs.0 })

-- `NewCanonicalBlock(0, 0, NewBinarySprayBlock(sendCopies))`
abbrev pub spray_block : ℕ → CanonicalBlock
spray_block copies = new_canonical_block 0 0 (binary_spray copies)

-- If the number of copies is odd, one more is retained than given away.
abbrev pub retained_copies : ℕ → ℕ
retained_copies copies = if copies % 2 == 0 then copies / 2 else copies / 2 + 1

abbrev pub picked : Descriptor → ℕ → Bundle → Option Sender → Result Selection
picked d retained b none = panic
picked d retained b (some peer) =
    ok (record { senders = peer ∷ []; bundle = some b; descriptor = set_spray_copies retained d })

abbrev pub tagged : Descriptor → ℕ → List Sender → ℕ → Result Bundle → Result Selection
tagged d copies peers choice loaded = elim loaded [
  | ok b ↦ then_ok (without_spray_blocks b) λ b'.
      then_ok (add_extension_block (spray_block (copies / 2)) b')
        λ b''. picked d (retained_copies copies) b'' (get_elem? peers choice)
  | err e ↦ ok (nobody d)
  | panic ↦ panic
]

-- `selectBinarySpray`. `stored` is what the store's `loadEntireBundle` returns and `choice` what
-- `rand.Intn` does.
unfoldable pub select_binary_spray :
    Result Bundle → ℕ → Descriptor → ℕ → List Sender → Result Selection
unfolding without_spray_blocks set_spray_copies
select_binary_spray stored choice d copies peers =
    if d.deleted then ok (nobody d) else tagged d copies peers choice stored

unfoldable pub select_some :
    SprayAndWait → Result Bundle → ℕ → Descriptor → ℕ → List Sender → Result Selection
unfolding select_basic_spray select_binary_spray
select_some router stored choice d copies peers =
    if length peers == 0
    then ok (nobody d)
    else if router.binary
    then select_binary_spray stored choice d copies peers
    else ok (select_basic_spray d copies peers)

-- What is left of `SelectPeersForForwarding` once the copies are known.
unfoldable pub select_with_copies :
    SprayAndWait → Result Bundle → ℕ → Descriptor → ℕ → List Sender → Result Selection
unfolding select_some
select_with_copies router stored choice d copies peers =
    if not router.binary && not (ltb 0 copies)
    then ok (nobody d)
    else if router.binary && not (ltb 1 copies)
    then ok (nobody d)
    else select_some router stored choice d copies (filter_peers d peers)

-- `SelectPeersForForwarding`
unfoldable pub select_spray :
    SprayAndWait → Result Bundle → ℕ → Descriptor → List Sender → Result Selection
unfolding get_spray_copies set_spray_copies select_with_copies
select_spray router stored choice d peers = elim (get_spray_copies d) [
  | none ↦
      select_with_copies router stored choice (set_spray_copies router.copies d) router.copies peers
  | some copies ↦ select_with_copies router stored choice d copies peers
]
