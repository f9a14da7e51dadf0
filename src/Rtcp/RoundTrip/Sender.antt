-- ===== src/Rtcp/RoundTrip/Sender.antt =====
-- Sender reports through rtcp_packet_builder.cpp and rtcp_report.cpp.
use simple_webrtc.Base.{
  ◌+◌, ◌*◌, ◌/◌, ◌%◌, ◌^◌, ◌≤◌, ◌<◌, ◌≡◌, ◌≢◌, refl, ◌++◌, length, All, ok, some, ◌>>=◌, byte, at,
  read_u32, u32_bytes, arith,
}
use simple_webrtc.Rtp.Packet.{parse_rtcp_packet_header}
use simple_webrtc.Rtcp.Report.{
  RtcpReportPacket, RtcpSenderInfo, parse_report_blocks, parse_sender_info,
  parse_optional_sender_info, parse_report_payload, parse_rtcp_report_packet,
}
use simple_webrtc.Rtcp.Builder.{RtcpSenderReportData, build_rtcp_sender_report}
use simple_webrtc.Rtcp.Builder.Bytes.{
  common_header, blocks_bytes, sender_report_bytes, build_rtcp_sender_report-bytes,
}
use simple_webrtc.Rtcp.Builder.Bytes.{length-blocks_bytes}
use simple_webrtc.Rtcp.RoundTrip.Blocks.{
  IsU32, IsBlock, parse_report_blocks-bytes, blocks-LossFits, report_header,
  parse_rtcp_packet_header-bytes, payload_end-report_header,
}

unfoldable pub sender_info_of : RtcpSenderReportData → RtcpSenderInfo
sender_info_of r = record {
  ntp_timestamp_msw = r.ntp_timestamp / 2 ^ 32;
  ntp_timestamp_lsw = r.ntp_timestamp % 2 ^ 32;
  rtp_timestamp = r.rtp_timestamp;
  sender_packet_count = r.sender_packet_count;
  sender_octet_count = r.sender_octet_count;
}

unfoldable pub sender_report_packet : RtcpSenderReportData → RtcpReportPacket
sender_report_packet r = record {
  packet_type = 200;
  sender_ssrc = r.sender_ssrc;
  sender_info = some (sender_info_of r);
  report_blocks = r.report_blocks;
}

pub length-sender_report_bytes :
    (r : RtcpSenderReportData) → 28 + length r.report_blocks * 24 ≡ length (sender_report_bytes r)
unfolding sender_report_bytes common_header
length-sender_report_bytes r = omega (arith, length-blocks_bytes r.report_blocks)

pub header-sender_report_bytes :
    (r : RtcpSenderReportData)
    → IsU32 r.sender_ssrc
    → length r.report_blocks ≤ 31
    → parse_rtcp_packet_header (sender_report_bytes r)
      ≡ ok (
          report_header
            (length r.report_blocks)
            200
            (28 + length r.report_blocks * 24)
            r.sender_ssrc)
unfolding sender_report_bytes common_header
header-sender_report_bytes r u few =
    parse_rtcp_packet_header-bytes (length r.report_blocks) 200 (28 + length r.report_blocks * 24)
      r.sender_ssrc
      (u32_bytes (r.ntp_timestamp / 2 ^ 32)
        ++ (u32_bytes (r.ntp_timestamp % 2 ^ 32)
            ++ (u32_bytes r.rtp_timestamp
                ++ (u32_bytes r.sender_packet_count
                    ++ (u32_bytes r.sender_octet_count ++ blocks_bytes r.report_blocks)))))
      few (omega arith) (omega arith) (omega (arith, length-blocks_bytes r.report_blocks))
      (omega arith) (omega arith) u

sender-sender_report_bytes :
    (r : RtcpSenderReportData)
    → IsU32 r.sender_ssrc
    → read_u32 (sender_report_bytes r) 4 ≡ ok r.sender_ssrc
unfolding sender_report_bytes common_header read_u32 byte at
sender-sender_report_bytes r u = ground arith

blocks-sender_report_bytes :
    (r : RtcpSenderReportData)
    → All IsBlock r.report_blocks
    → parse_report_blocks (sender_report_bytes r) 28 (length r.report_blocks) ≡ ok r.report_blocks
unfolding sender_report_bytes common_header
blocks-sender_report_bytes r h =
    parse_report_blocks-bytes
      ((((((common_header (length r.report_blocks) 200 (28 + length r.report_blocks * 24)
                  ++ u32_bytes r.sender_ssrc)
                ++ u32_bytes (r.ntp_timestamp / 2 ^ 32))
              ++ u32_bytes (r.ntp_timestamp % 2 ^ 32))
            ++ u32_bytes r.rtp_timestamp)
          ++ u32_bytes r.sender_packet_count)
        ++ u32_bytes r.sender_octet_count)
      28 r.report_blocks refl h

info-sender_report_bytes :
    (r : RtcpSenderReportData)
    → r.ntp_timestamp < 18446744073709551616
    → IsU32 r.rtp_timestamp
    → IsU32 r.sender_packet_count
    → IsU32 r.sender_octet_count
    → parse_sender_info (sender_report_bytes r) 8 ≡ ok (sender_info_of r)
unfolding parse_sender_info sender_report_bytes common_header read_u32 byte at sender_info_of
info-sender_report_bytes r n t p o = ground arith

parse_payload-sender :
    (r : RtcpSenderReportData)
    → IsU32 r.sender_ssrc
    → All IsBlock r.report_blocks
    → r.ntp_timestamp < 18446744073709551616
    → IsU32 r.rtp_timestamp
    → IsU32 r.sender_packet_count
    → IsU32 r.sender_octet_count
    → parse_report_payload
        (sender_report_bytes r)
        (report_header
          (length r.report_blocks)
          200
          (28 + length r.report_blocks * 24)
          r.sender_ssrc)
        (28 + length r.report_blocks * 24)
      ≡ ok (sender_report_packet r)
unfolding parse_report_payload parse_optional_sender_info report_header sender_report_packet
parse_payload-sender r u h n t p o = ground (
  arith,
  sender-sender_report_bytes r u,
  blocks-sender_report_bytes r h,
  info-sender_report_bytes r n t p o,
)

-- A sender report of a nonzero sender, with at most 31 blocks whose fields fit, is built, and
-- parsing the packet gives back the sender, the sender info and the blocks.
pub parse-build_sender_report :
    (r : RtcpSenderReportData)
    → r.sender_ssrc ≢ 0
    → IsU32 r.sender_ssrc
    → length r.report_blocks ≤ 31
    → All IsBlock r.report_blocks
    → r.ntp_timestamp < 18446744073709551616
    → IsU32 r.rtp_timestamp
    → IsU32 r.sender_packet_count
    → IsU32 r.sender_octet_count
    → (build_rtcp_sender_report r >>= parse_rtcp_report_packet) ≡ ok (sender_report_packet r)
unfolding parse_rtcp_report_packet
parse-build_sender_report r nz u few h n t p o =
    rw (build_rtcp_sender_report-bytes r (nz, few, blocks-LossFits r.report_blocks h)) (
      ground (
        arith,
        header-sender_report_bytes r u few,
        type_of,
        payload_end-report_header (length r.report_blocks) 200 (28 + length r.report_blocks * 24)
            r.sender_ssrc (sender_report_bytes r) (length-sender_report_bytes r),
        parse_payload-sender r u h n t p o,
      ))
  where
    type_of :
        (report_header
          (length r.report_blocks)
          200
          (28 + length r.report_blocks * 24)
          r.sender_ssrc).packet_type
        ≡ 200
    type_of = unfold report_header in refl
