-- ===== src/Tests.antt =====
-- Runs of the definitions on concrete inputs, and the theorems at such inputs.
pub mod Dtls
pub mod Compound
pub mod Feedback
pub mod Packets
pub mod ReceiveStatistics
pub mod Registry
pub mod Reports
pub mod SendHistory
pub mod State
pub mod TransportFeedback
