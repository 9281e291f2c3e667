-- ===== src/Routing.antt =====
-- pkg/routing: to which peers a bundle is sent.
pub mod Peers
pub mod Spray
use dtn7_go.Base.{ℕ}
