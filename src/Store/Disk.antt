-- ===== src/Store/Disk.antt =====
-- pkg/store/store.go: what the store asks of its surroundings, and what it writes of a bundle.
use dtn7_go.Base.{
  ℕ, ◌+◌, ◌*◌, List, [], ◌∷◌, Bool, not, Option, none, some, if◌then◌else◌, Result, ok, err, panic,
  row_refused, file_refused, write_failed, descriptor_deleted, ℕ_discrete,
}
use mathlib.Core.Bool.{Bool-discrete}
use dtn7_go.Cbor.{Libs}
use dtn7_go.Bpv7.Time.{unix_milliseconds, raised}
use dtn7_go.Bpv7.Endpoint.{EndpointId, EndpointId-discrete}
use dtn7_go.Bpv7.Primary.{PrimaryBlock}
use dtn7_go.Bpv7.Extension.{
  ExtensionBlock, BlockKind, payload, previous_node, bundle_age, hop_count, binary_spray, generic,
  block_type_previous_node,
}
use dtn7_go.Bpv7.Canonical.{of_value}
use dtn7_go.Bpv7.Bundle.{
  Bundle, BundleId, bundle_id, is_administrative_record, extension_block_by_type,
}
use dtn7_go.Bpv7.BundleId.{string_bundle_id}
use dtn7_go.Bpv7.Bundle.Check.{lifetime_duration}
use dtn7_go.Bpv7.Bundle.Wire.{marshal_bundle, parse_bundle}
use dtn7_go.Store.Descriptor.{Metadata, Descriptor}

-- Go's `==` on the struct.
pub BundleId-discrete : Discrete BundleId
BundleId-discrete = hlevel (EndpointId-discrete, ℕ_discrete, Bool-discrete)

-- What the store calls: the hash that names a file, the database of
-- github.com/timshannon/badgerhold with its rows, and the files of package os. `D` is what is on the
-- disk. A Boolean result says that there was no error.
pub record Surroundings (D : Type 0) : Type 0 where
  pub libs : Libs
  pub known : ℕ → Option BlockKind
  pub file_name : List ℕ → List ℕ
  pub insert_row : List ℕ → Metadata → D → D × Bool
  pub update_row : List ℕ → Metadata → D → D
  pub delete_row : List ℕ → D → D
  pub all_rows : D → Option (List Metadata)
  pub create_file : List ℕ → D → D × Bool
  pub write_file : List ℕ → List ℕ → D → D × Bool
  pub remove_file : List ℕ → D → D
  pub read_file : List ℕ → D → Option (List ℕ)

-- `CreationTimestamp.DtnTime().Time().Add(lifetimeDuration)`, in nanoseconds since 1970 and raised
-- as `Bundle.Check.after_max_timestamp` does.
unfoldable pub expiry : PrimaryBlock → ℕ
expiry pb =
    raised (unix_milliseconds pb.creation_timestamp.dtn_time) * 1_000_000
    + raised (lifetime_duration pb.lifetime)

-- `previousNodeBlock.Value.(*bpv7.PreviousNodeBlock).Endpoint()`
abbrev sender_of : ExtensionBlock → Result (Option EndpointId)
sender_of (previous_node eid) = ok (some eid)
sender_of (payload bytes) = panic
sender_of (bundle_age ms) = panic
sender_of (hop_count hcb) = panic
sender_of (binary_spray copies) = panic
sender_of (generic code bytes) = panic

-- The node that a bundle says it comes from, if just one block says so.
unfoldable pub previous_node_of : Bundle → Result (Option EndpointId)
previous_node_of b = elim (extension_block_by_type block_type_previous_node b) [
  | ok cb ↦ of_value cb.value sender_of
  | err e ↦ ok none
  | panic ↦ panic
]

abbrev among_holders : Option EndpointId → List EndpointId
among_holders none = []
among_holders (some eid) = eid ∷ []

module _ {D : Type 0} (env : Surroundings D) where
  -- `insertNewBundleUnsafe`, the metadata
  unfoldable pub new_metadata : EndpointId → Bundle → Option EndpointId → Metadata
  new_metadata node_id b prev = record {
    id = bundle_id b;
    source = b.primary_block.source_node;
    destination = b.primary_block.destination;
    report_to = b.primary_block.report_to;
    is_administrative_record = is_administrative_record b;
    miscellaneous_data = [];
    id_string = string_bundle_id (bundle_id b);
    known_holders = node_id ∷ among_holders prev;
    expires = expiry b.primary_block;
    serialised_file_name = env.file_name (string_bundle_id (bundle_id b));
  }

  unfoldable pub delete_from_disk : Metadata → D → D
  delete_from_disk m disk = env.remove_file m.serialised_file_name (env.delete_row m.id_string disk)

  -- `cboring.Marshal` into the buffer and `Flush`; what of a bundle is written before an error is
  -- left out.
  unfoldable pub write_bundle : Metadata → Bundle → D → D × Result (Unit {0})
  write_bundle m b disk = elim (marshal_bundle env.libs b) [
    | ok (bytes, _) ↦
        let (disk', fine) = env.write_file m.serialised_file_name bytes disk in
        (disk', if fine then ok tt else err write_failed)
    | err e ↦ (disk, err e)
    | panic ↦ (disk, panic)
  ]

  -- The row and the file of a new bundle. After a file that cannot be opened the row is deleted
  -- again; after one that cannot be written it stays.
  unfoldable pub store_on_disk : Metadata → Bundle → D → D × Result (Unit {0})
  unfolding delete_from_disk write_bundle
  store_on_disk m b disk =
      let (disk', inserted) = env.insert_row m.id_string m disk in
      let (disk'', opened) = env.create_file m.serialised_file_name disk' in
      if not inserted
      then (disk', err row_refused)
      else if not opened
      then (delete_from_disk m disk'', err file_refused)
      else write_bundle m b disk''

  -- `Load`, at a time. A bundle that is not parsed to its end is no error: `loadEntireBundle` drops the error
  -- and returns what the parser had read, here `none`.
  unfoldable pub load : ℕ → Descriptor → D → Result (Option Bundle)
  load now d disk =
      if d.deleted
      then err descriptor_deleted
      else elim (env.read_file d.metadata.serialised_file_name disk) [
        | none ↦ err file_refused
        | some bytes ↦ elim (parse_bundle env.libs env.known now bytes) [
          | ok b ↦ ok (some b)
          | err e ↦ ok none
          | panic ↦ panic
        ]
      ]
