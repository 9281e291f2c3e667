-- ===== src/Cla.antt =====
-- pkg/cla: the manager of the convergence layer adapters (CLAs).
pub mod Manager
pub mod Meshtastic
pub mod Types
use dtn7_go.Base.{ℕ}
