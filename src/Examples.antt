-- ===== src/Examples.antt =====
-- Concrete values, and the theorems applied to them.
pub mod Wire
pub mod Blocks
pub mod Bundles
pub mod Node
pub mod Stores
pub mod Agents
pub mod Processes
pub mod Records
mod Radio
pub mod Texts
pub mod Builders
pub mod Neighbours
use dtn7_go.Base.{ℕ}
