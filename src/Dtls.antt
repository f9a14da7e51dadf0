-- ===== src/Dtls.antt =====
-- The sources under dtls/.
pub mod Packet
