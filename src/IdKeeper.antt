-- ===== src/IdKeeper.antt =====
-- pkg/id_keeper/id_keeper.go: the sequence numbers of the bundles that this node creates.
pub mod Uniqueness
use dtn7_go.Base.{
  ℕ, zero, suc, ◌+◌, ◌-◌, ◌%◌, ◌^◌, List, [], ◌∷◌, Bool, true, false, ◌&&◌, ◌==◌, ltb, Option, none,
  some, if◌then◌else◌, ite, ℕ_discrete,
}
use dtn7_go.Bpv7.Endpoint.{EndpointId, EndpointId-discrete}
use dtn7_go.Bpv7.Time.{CreationTimestamp}
use dtn7_go.Bpv7.Primary.{PrimaryBlock}
use dtn7_go.Bpv7.Bundle.{Bundle}

pub record IdTuple : Type 0 where
  pub source : EndpointId
  pub time : ℕ

unfoldable pub new_id_tuple : Bundle → IdTuple
new_id_tuple b = record {
  source = b.primary_block.source_node;
  time = b.primary_block.creation_timestamp.dtn_time;
}

-- Go's `==` on the struct.
pub IdTuple-discrete : Discrete IdTuple
IdTuple-discrete = hlevel (EndpointId-discrete, ℕ_discrete)

-- The map: at most the first entry of a tuple counts.
abbrev pub IdKeeper : Type 0
IdKeeper = List (IdTuple × ℕ)

unfoldable pub find : IdTuple → IdKeeper → Option ℕ
find t [] = none
find t ((u, n) ∷ entries) = ite (IdTuple-discrete t u) (some n) (find t entries)

-- `idk.data[tpl] = n`
unfoldable pub put : IdTuple → ℕ → IdKeeper → IdKeeper
put t n [] = (t, n) ∷ []
put t n ((u, m) ∷ entries) =
    ite (IdTuple-discrete t u) ((t, n) ∷ entries) ((u, m) ∷ put t n entries)

-- The number of the next bundle; it is a `uint64`, which wraps.
unfoldable pub next_number : Option ℕ → ℕ
next_number none = 0
next_number (some n) = (n + 1) % 2 ^ 64

-- `Update` sets the sequence number of the bundle and counts it.
unfoldable pub update : Bundle → IdKeeper → Bundle × IdKeeper
unfolding find put next_number
update b idk =
    let t = new_id_tuple b in
    let n = next_number (find t idk) in
    (
      record b {
        primary_block = record b.primary_block {
          creation_timestamp = record b.primary_block.creation_timestamp { sequence_number = n };
        };
      },
      put t n idk,
    )

-- `Clean` at a DTN time: deleting while ranging over a map is defined in Go.
unfoldable pub clean : ℕ → IdKeeper → IdKeeper
clean threshold [] = []
clean threshold ((u, n) ∷ entries) =
    if ltb u.time threshold then clean threshold entries else (u, n) ∷ clean threshold entries

-- What is done with the one keeper of a node.
pub data Event : Type 0 where
  stamping : Bundle → Event
  cleaning : ℕ → Event

-- The bundles as `Update` leaves them.
unfoldable pub run : List Event → IdKeeper → List Bundle
run [] idk = []
run (stamping b ∷ es) idk = let (b', idk') = update b idk in b' ∷ run es idk'
run (cleaning threshold ∷ es) idk = run es (clean threshold idk)
