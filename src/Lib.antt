-- ===== src/Lib.antt =====
-- dtn7-go is a node of a delay-tolerant network: it speaks the Bundle Protocol, version 7 (RFC 9171),
-- keeps bundles in a store, and forwards them to peers as a routing algorithm decides. Bundles are
-- built, written and parsed by pkg/bpv7. pkg/id_keeper stamps those that the node creates. pkg/store
-- holds a descriptor of each bundle, whose retention constraints say what is still to be done with it.
-- pkg/processing takes a received bundle through reception, dispatching and forwarding; it asks
-- pkg/routing for peers, which look at the descriptor and at the convergence senders of pkg/cla.
--
-- The files:
--   Base and below: lists, Boolean tests, bits and results that all modules share. A Go function that
--     returns a value and an error is a function into `Result`; a run-time panic is its third case. A
--     method that reads from an io.Reader is a `Reader`, which passes on what is left of the input.
--   Cbor: github.com/dtn7/cboring and github.com/howeyc/crc16, whose code is not in the repository, as
--     the parameter `Libs`; Cbor.Laws says what the code relies on of them, as `CborLaws`.
--   Bpv7.Flags, Time, Endpoint, Crc: pkg/bpv7/bundle_control_flags.go, block_control_flags.go, time.go,
--     endpoint.go, endpoint_dtn.go, endpoint_ipn.go and crc.go. CRC-32C is written out.
--   Bpv7.Endpoint.Text, Bpv7.BundleId: the texts of endpoints in endpoint.go, endpoint_dtn.go and
--     endpoint_ipn.go, with NewEndpointID and SameNode, and those of bundle IDs in bundle_id.go.
--     Base.Decimal has `%d` and strconv.ParseUint.
--   Bpv7.Primary, Extension, Canonical: primary_block.go, extension_block.go with the blocks that it
--     manages, canonical_block.go and canonical_block_sort.go.
--   Bpv7.Bundle: bundle.go and the struct of bundle_id.go; Bundle.Check has CheckValid and
--     IsLifetimeExceeded at a time that is given, Bundle.Wire has MarshalCbor and UnmarshalCbor.
--   Bpv7.Fragmentation: fragmentation.go.
--   Bpv7.Administrative: administrative_record.go, administrative_record_status_report.go and the wire
--     format of bundle_id.go.
--   Bpv7.Builder: bundle_builder.go. A call is a function from builders to builders; Builder.Calls has
--     chains of calls, and BuildFromMap over the entries of the map in the order of the visit.
--   Store.Descriptor: pkg/store/bundle_descriptor.go and constraints.go. A method holds the
--     descriptor's mutex throughout, so the calls of all goroutines are one sequence of steps.
--   Store.Disk, Store.Bundles: pkg/store/store.go. The database, the files and the hash of an ID's text
--     are the parameter `Surroundings`. The map of descriptors is a list of entries; what happens to it
--     is a sequence of events, among them that a goroutine of deleteBundle gets the mutex. Store.Bundles.View
--     has the abstract store, a function from IDs to descriptors, and what each event promises of it.
--   ApplicationAgent.Mailbox, ApplicationAgent.Bank: pkg/application_agent/mailbox.go and
--     mailbox_bank.go, on the store as it is during a call.
--   ApplicationAgent.Manager: pkg/application_agent/agent_manager.go and agent.go, over any agents that
--     have the methods of the interface ApplicationAgent.
--   Cla.Types: pkg/cla/cla_types.go.
--   Cla.Manager: pkg/cla/cla_manager.go, as steps of the goroutines that register, activate and disconnect
--     a convergence layer adapter.
--   Cla.Meshtastic, Cla.Meshtastic.Reassembly: pkg/cla/meshtastic/client.go and server.go. The transport
--     is an argument; a packet is a slice with what stands behind it up to its capacity.
--   Discovery, Discovery.Manager: pkg/discovery/announcement.go and discovery_manager.go. What is heard
--     goes to Cla.Manager, as `register_async` of it.
--   Processing: pkg/processing/processing.go and reception.go; the routing algorithm, the agents and the
--     senders are arguments.
--   IdKeeper: pkg/id_keeper/id_keeper.go.
--   Routing.Peers, Routing.Spray: pkg/routing/algorithm.go, epidemic.go and spray_and_wait.go. What the
--     store loads and what math/rand picks are arguments.
--   Examples: a small wire format that has the laws of `CborLaws`, and concrete values.
--
-- Names are those of the source in another spelling: UnmarshalCbor of a primary block is
-- `unmarshal_primary`, MarshalCbor of a bundle `marshal_bundle`.
--
-- Bounds and fuel: a uint64 is a number, and where the source may leave 64 bits the wrap-around is
-- written out. `read_blocks` has a round for each byte of the input and one more, and each round but the
-- last takes a byte; `free_number` has one try more than there are numbers, of which one is free;
-- `fragments_from` and `split_rounds` have a round for each byte, of which every round takes one at least.
-- The lengths of a payload are below 2 ^ 53, where Go's float64 is exact. `sort.Slice` is an insertion
-- sort; of equal elements Go leaves the order open. Go ranges over a map in any order; the model takes that
-- of the list, and no theorem but those on what a fetch returns speaks of the order.
--
-- Not modelled: the JSON output and partial parsing; time.ParseDuration and binary.Write, which the
-- builder calls, are the parameter `Outside`; the code of the database and of the files, the convergence
-- layers but the radio adapter, the sockets of discovery, the agents on sockets and the commands, which
-- are mostly input and output; the signature, DTLSR and Prophet blocks. Texts of adapter types are
-- ASCII. Log messages are left out, and of an error its kind is kept.
pub mod Base
pub mod Cbor
pub mod Bpv7
pub mod Store
pub mod ApplicationAgent
pub mod Cla
pub mod Discovery
pub mod IdKeeper
pub mod Routing
pub mod Processing
pub mod Examples
