-- ===== src/ApplicationAgent.antt =====
-- pkg/application_agent: mailboxes, and the bank that has one for each endpoint.
pub mod Mailbox
pub mod Bank
pub mod Manager
use dtn7_go.Base.{ℕ}
