-- ===== src/Rtp.antt =====
-- The packet formats and media state of rtp/.
pub mod Packet
pub mod HeaderExtension
pub mod RetransmissionCache
pub mod ReceiveStatistics
