-- ===== src/Rtcp/TransportFeedback/Dispatch.antt =====
-- `parse_rtcp_feedback_packet` with `parse_rtcp_transport_feedback` as its parser of format 15.
use simple_webrtc.Base.{ℕ, ◌<◌, List, IsSafe, Ensures, Ensures-mono, AreBytes}
use simple_webrtc.Rtcp.Feedback.{parse_rtcp_feedback_packet}
use simple_webrtc.Rtcp.Feedback.Safety.{IsFeedback, parse_rtcp_feedback_packet-Ensures}
use simple_webrtc.Rtcp.TransportFeedback.{
  ParsedRtcpTransportFeedback, parse_rtcp_transport_feedback,
}
use simple_webrtc.Rtcp.TransportFeedback.Safety.{
  IsFeedbackOf, parse_rtcp_transport_feedback-Ensures,
}

-- On any bytes, `parse_rtcp_feedback_packet` with the parser of transport feedback in its place ends
-- without a read outside the packet. A packet that it returns has the type, format, sender and media
-- source of the bytes, as many entries as its counts say, and a number of 16 bits is among its
-- sequence numbers exactly if one of its NACK entries names it or has it in its mask.
pub parse_rtcp_feedback_packet_with_transport-Ensures :
    (bytes : List ℕ) (number : ℕ)
    → AreBytes bytes
    → number < 65536
    → Ensures
        (IsFeedback bytes number)
        (parse_rtcp_feedback_packet parse_rtcp_transport_feedback bytes)
parse_rtcp_feedback_packet_with_transport-Ensures bytes number =
    parse_rtcp_feedback_packet-Ensures ParsedRtcpTransportFeedback parse_rtcp_transport_feedback
      bytes number safe
  where
    safe : (packet : List ℕ) → IsSafe (parse_rtcp_transport_feedback packet)
    safe packet =
        Ensures-mono (IsFeedbackOf packet) _ (parse_rtcp_transport_feedback packet)
          (parse_rtcp_transport_feedback-Ensures packet) λ p v. tt
