-- ===== src/Rtcp/Report.antt =====
-- rtp/rtcp_report.h and rtp/rtcp_report.cpp: sender and receiver reports. The loop over the report
-- blocks is a recursion on the blocks left, with the running offset.
pub mod Safety
use simple_webrtc.Base.{
  ℕ, zero, suc, ◌+◌, ◌-◌, ◌*◌, Bool, true, false, ◌||◌, List, [], ◌∷◌, ltb, leb, ◌==◌, not,
  if◌then◌else◌, bit_set, Option, none, some, length, Result, ok, err, fault, ◌>>=◌, ◌>>◌, reject,
  byte, read_u32,
}
use simple_webrtc.Base.Int.{ℤ, i32_of_u32}
use simple_webrtc.Rtp.Packet.{RtcpPacketHeader, parse_rtcp_packet_header}

pub record RtcpSenderInfo : Type 0 where
  pub ntp_timestamp_msw : ℕ
  pub ntp_timestamp_lsw : ℕ
  pub rtp_timestamp : ℕ
  pub sender_packet_count : ℕ
  pub sender_octet_count : ℕ

pub record RtcpReportBlock : Type 0 where
  pub source_ssrc : ℕ
  pub fraction_lost : ℕ
  pub cumulative_lost : ℤ
  pub extended_highest_sequence_number : ℕ
  pub jitter : ℕ
  pub last_sender_report : ℕ
  pub delay_since_last_sender_report : ℕ

pub record RtcpReportPacket : Type 0 where
  pub packet_type : ℕ
  pub sender_ssrc : ℕ
  pub sender_info : Option RtcpSenderInfo
  pub report_blocks : List RtcpReportBlock

-- The 24 bits as an integer: bit 23 is copied into the upper byte before the cast.
unfoldable pub sign_extend_24 : ℕ → ℤ
sign_extend_24 value = i32_of_u32 (if bit_set value 23 then value + 0xff000000 else value)

unfoldable pub read_i24 : List ℕ → ℕ → Result ℤ
unfolding sign_extend_24
read_i24 packet offset = do
  a ← byte packet offset
  b ← byte packet (offset + 1)
  c ← byte packet (offset + 2)
  ok (sign_extend_24 (a * 65536 + b * 256 + c))

unfoldable pub is_report_packet_type : ℕ → Bool
is_report_packet_type packet_type = packet_type == 200 || packet_type == 201

unfoldable pub parse_sender_info : List ℕ → ℕ → Result RtcpSenderInfo
parse_sender_info packet offset = do
  msw ← read_u32 packet offset
  lsw ← read_u32 packet (offset + 4)
  rtp_timestamp ← read_u32 packet (offset + 8)
  packet_count ← read_u32 packet (offset + 12)
  octet_count ← read_u32 packet (offset + 16)
  ok (record {
    ntp_timestamp_msw = msw;
    ntp_timestamp_lsw = lsw;
    rtp_timestamp = rtp_timestamp;
    sender_packet_count = packet_count;
    sender_octet_count = octet_count;
  })

unfoldable pub parse_report_block : List ℕ → ℕ → Result RtcpReportBlock
parse_report_block packet offset = do
  source_ssrc ← read_u32 packet offset
  fraction_lost ← byte packet (offset + 4)
  cumulative_lost ← read_i24 packet (offset + 5)
  highest ← read_u32 packet (offset + 8)
  jitter ← read_u32 packet (offset + 12)
  last_sender_report ← read_u32 packet (offset + 16)
  delay ← read_u32 packet (offset + 20)
  ok (record {
    source_ssrc = source_ssrc;
    fraction_lost = fraction_lost;
    cumulative_lost = cumulative_lost;
    extended_highest_sequence_number = highest;
    jitter = jitter;
    last_sender_report = last_sender_report;
    delay_since_last_sender_report = delay;
  })

unfoldable pub parse_report_blocks : List ℕ → ℕ → ℕ → Result (List RtcpReportBlock)
parse_report_blocks packet offset zero = ok []
parse_report_blocks packet offset (suc n) = do
  block ← parse_report_block packet offset
  blocks ← parse_report_blocks packet (offset + 24) n
  ok (block ∷ blocks)

unfoldable pub payload_end_without_padding : List ℕ → Bool → ℕ → Result ℕ
payload_end_without_padding packet false payload_end = ok payload_end
payload_end_without_padding packet true payload_end = do
  reject (leb payload_end 4) "rtcp report padding packet is too short"
  padding_size ← byte packet (payload_end - 1)
  reject (padding_size == 0) "rtcp report padding size is zero"
  reject (ltb (payload_end - 4) padding_size) "rtcp report padding exceeds packet size"
  ok (payload_end - padding_size)

unfoldable pub rtcp_report_payload_end : RtcpPacketHeader → List ℕ → Result ℕ
unfolding payload_end_without_padding
rtcp_report_payload_end header packet = do
  reject (ltb (length packet) header.packet_size) "rtcp report packet exceeds buffer size"
  payload_end_without_padding packet header.padding header.packet_size

-- A header that cannot be read is no report.
unfoldable pub is_rtcp_report_packet : List ℕ → Result Bool
unfolding is_report_packet_type
is_rtcp_report_packet packet = elim (parse_rtcp_packet_header packet) [
  | ok header ↦ ok (is_report_packet_type header.packet_type)
  | err message ↦ ok false
  | fault ↦ fault
]

-- The sender info of a sender report, with the offset behind it.
unfoldable pub parse_optional_sender_info : List ℕ → ℕ → ℕ → Result (Option RtcpSenderInfo × ℕ)
parse_optional_sender_info packet packet_type payload_end =
    if packet_type == 200
    then (do
      reject (ltb payload_end (8 + 20)) "rtcp sender report sender info is truncated"
      info ← parse_sender_info packet 8
      ok (some info, 8 + 20))
    else ok (none, 8)

unfoldable pub parse_report_payload : List ℕ → RtcpPacketHeader → ℕ → Result RtcpReportPacket
parse_report_payload packet header payload_end = do
  reject (ltb payload_end 8) "rtcp report packet is too short"
  sender_ssrc ← read_u32 packet 4
  (sender_info, report_block_offset) ←
      parse_optional_sender_info packet header.packet_type payload_end
  let report_block_end = report_block_offset + header.count * 24
  reject (ltb payload_end report_block_end) "rtcp report block list is truncated"
  reject (not (report_block_end == payload_end)) "rtcp report packet has trailing payload bytes"
  blocks ← parse_report_blocks packet report_block_offset header.count
  ok (record {
    packet_type = header.packet_type;
    sender_ssrc = sender_ssrc;
    sender_info = sender_info;
    report_blocks = blocks;
  })

unfoldable pub parse_rtcp_report_packet : List ℕ → Result RtcpReportPacket
unfolding is_report_packet_type
parse_rtcp_report_packet packet = do
  header ← parse_rtcp_packet_header packet
  reject (not (is_report_packet_type header.packet_type)) "rtcp packet is not report"
  payload_end ← rtcp_report_payload_end header packet
  parse_report_payload packet header payload_end
