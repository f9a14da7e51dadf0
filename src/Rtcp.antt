-- ===== src/Rtcp.antt =====
-- The RTCP packets of rtp/: reports, feedback, and the packets that the server builds.
pub mod Report
pub mod Builder
pub mod Feedback
pub mod FirSequenceTracker
pub mod RoundTrip
pub mod SdesBye
pub mod CompoundBlock
pub mod CompoundPacket
pub mod SendHistory
pub mod TransportFeedback
