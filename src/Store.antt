-- ===== src/Store.antt =====
-- pkg/store: what the store keeps of a bundle in memory, and the store.
pub mod Descriptor
pub mod Disk
pub mod Bundles
use dtn7_go.Base.{ℕ}
