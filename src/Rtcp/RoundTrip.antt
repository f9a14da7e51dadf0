-- ===== src/Rtcp/RoundTrip.antt =====
-- Packets built by rtcp_packet_builder.cpp, parsed by rtcp_report.cpp and rtcp_feedback.cpp.
pub mod Blocks
pub mod Receiver
pub mod FirBytes
pub mod KeyframeRequests
pub mod Sdes
pub mod ByeParts
pub mod Bye
pub mod Sender
pub mod Datagram
