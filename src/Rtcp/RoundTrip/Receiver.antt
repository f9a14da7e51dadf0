-- ===== src/Rtcp/RoundTrip/Receiver.antt =====
-- Receiver reports through rtcp_packet_builder.cpp and rtcp_report.cpp.
use simple_webrtc.Base.{
  ◌+◌, ◌*◌, ◌≤◌, ◌≡◌, ◌≢◌, refl, ◌++◌, length, All, ok, none, ◌>>=◌, byte, at, read_u32, u32_bytes,
  arith,
}
use simple_webrtc.Rtp.Packet.{parse_rtcp_packet_header}
use simple_webrtc.Rtcp.Report.{
  RtcpReportPacket, parse_report_blocks, parse_optional_sender_info, parse_report_payload,
  parse_rtcp_report_packet,
}
use simple_webrtc.Rtcp.Builder.{RtcpReceiverReportData, build_rtcp_receiver_report}
use simple_webrtc.Rtcp.Builder.Bytes.{
  common_header, blocks_bytes, receiver_report_bytes, build_rtcp_receiver_report-bytes,
}
use simple_webrtc.Rtcp.Builder.Bytes.{length-blocks_bytes}
use simple_webrtc.Rtcp.RoundTrip.Blocks.{
  IsU32, IsBlock, parse_report_blocks-bytes, blocks-LossFits, report_header,
  parse_rtcp_packet_header-bytes, payload_end-report_header,
}

unfoldable pub receiver_report_packet : RtcpReceiverReportData → RtcpReportPacket
receiver_report_packet r = record {
  packet_type = 201;
  sender_ssrc = r.sender_ssrc;
  sender_info = none;
  report_blocks = r.report_blocks;
}

length-receiver_report_bytes :
    (r : RtcpReceiverReportData)
    → 8 + length r.report_blocks * 24 ≡ length (receiver_report_bytes r)
unfolding receiver_report_bytes common_header
length-receiver_report_bytes r = omega (arith, length-blocks_bytes r.report_blocks)

header-receiver_report_bytes :
    (r : RtcpReceiverReportData)
    → IsU32 r.sender_ssrc
    → length r.report_blocks ≤ 31
    → parse_rtcp_packet_header (receiver_report_bytes r)
      ≡ ok (
          report_header
            (length r.report_blocks)
            201
            (8 + length r.report_blocks * 24)
            r.sender_ssrc)
unfolding receiver_report_bytes common_header
header-receiver_report_bytes r u few =
    parse_rtcp_packet_header-bytes (length r.report_blocks) 201 (8 + length r.report_blocks * 24)
      r.sender_ssrc (blocks_bytes r.report_blocks) few (omega arith) (omega arith)
      (omega (arith, length-blocks_bytes r.report_blocks)) (omega arith) (omega arith) u

sender-receiver_report_bytes :
    (r : RtcpReceiverReportData)
    → IsU32 r.sender_ssrc
    → read_u32 (receiver_report_bytes r) 4 ≡ ok r.sender_ssrc
unfolding receiver_report_bytes common_header read_u32 byte at
sender-receiver_report_bytes r u = ground arith

blocks-receiver_report_bytes :
    (r : RtcpReceiverReportData)
    → All IsBlock r.report_blocks
    → parse_report_blocks (receiver_report_bytes r) 8 (length r.report_blocks) ≡ ok r.report_blocks
unfolding receiver_report_bytes common_header
blocks-receiver_report_bytes r h =
    parse_report_blocks-bytes
      (common_header (length r.report_blocks) 201 (8 + length r.report_blocks * 24)
        ++ u32_bytes r.sender_ssrc)
      8 r.report_blocks refl h

parse_payload-receiver :
    (r : RtcpReceiverReportData)
    → IsU32 r.sender_ssrc
    → All IsBlock r.report_blocks
    → parse_report_payload
        (receiver_report_bytes r)
        (report_header (length r.report_blocks) 201 (8 + length r.report_blocks * 24) r.sender_ssrc)
        (8 + length r.report_blocks * 24)
      ≡ ok (receiver_report_packet r)
unfolding parse_report_payload parse_optional_sender_info report_header receiver_report_packet
parse_payload-receiver r u h =
    ground (arith, sender-receiver_report_bytes r u, blocks-receiver_report_bytes r h)

-- A receiver report of a nonzero sender, with at most 31 blocks whose fields fit, is built, and
-- parsing the packet gives back the sender and the blocks.
pub parse-build_receiver_report :
    (r : RtcpReceiverReportData)
    → r.sender_ssrc ≢ 0
    → IsU32 r.sender_ssrc
    → length r.report_blocks ≤ 31
    → All IsBlock r.report_blocks
    → (build_rtcp_receiver_report r >>= parse_rtcp_report_packet) ≡ ok (receiver_report_packet r)
unfolding parse_rtcp_report_packet
parse-build_receiver_report r nz u few h =
    rw (build_rtcp_receiver_report-bytes r (nz, few, blocks-LossFits r.report_blocks h)) (
      ground (
        arith,
        header-receiver_report_bytes r u few,
        type_of,
        payload_end-report_header (length r.report_blocks) 201 (8 + length r.report_blocks * 24)
            r.sender_ssrc (receiver_report_bytes r) (length-receiver_report_bytes r),
        parse_payload-receiver r u h,
      ))
  where
    type_of :
        (report_header
          (length r.report_blocks)
          201
          (8 + length r.report_blocks * 24)
          r.sender_ssrc).packet_type
        ≡ 201
    type_of = unfold report_header in refl
