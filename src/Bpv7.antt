-- ===== src/Bpv7.antt =====
-- pkg/bpv7: bundles and their blocks.
pub mod Flags
pub mod Time
pub mod Endpoint
pub mod Crc
pub mod Primary
pub mod Extension
pub mod Canonical
pub mod Bundle
pub mod Fragmentation
pub mod BundleId
pub mod Builder
pub mod Administrative
