-- ===== src/Rtcp/CompoundPacket.antt =====
-- rtp/rtcp_compound_packet.h and rtp/rtcp_compound_packet.cpp: a datagram of RTCP packets, split into
-- blocks, of which each is parsed and added up. A function that fills a block or the packet takes it
-- and returns it. The span `data` is called `bytes`.
pub mod Tally
pub mod Safety
pub mod MemberHeader
pub mod Members
use simple_webrtc.Base.{
  ℕ, zero, suc, ◌+◌, ◌-◌, Bool, true, false, ◌||◌, ◌&&◌, List, [], ◌∷◌, ◌++◌, ltb, leb, ◌==◌, not,
  if◌then◌else◌, Option, none, some, length, Result, ok, err, fault, ◌>>=◌, ◌>>◌, reject, subspan,
  drop, String, same_text, with_prefix,
}
use simple_webrtc.Rtp.Packet.{
  RtcpPacketHeader, parse_rtcp_packet_header, rtcp_packet_type_to_string,
}
use simple_webrtc.Rtcp.Feedback.{
  RtcpNackEntry, RtcpFirEntry, RtcpFeedbackPacket, is_rtcp_feedback_packet,
  parse_rtcp_feedback_packet, rtcp_feedback_format_to_string,
}
use simple_webrtc.Rtcp.Report.{RtcpReportPacket, is_rtcp_report_packet, parse_rtcp_report_packet}
use simple_webrtc.Rtcp.TransportFeedback.{
  ParsedRtcpTransportFeedback, parse_rtcp_transport_feedback,
}
use simple_webrtc.Rtcp.SdesBye.{
  RtcpSdesChunk, RtcpByePacket, parse_rtcp_sdes_packet, parse_rtcp_bye_packet,
}
use simple_webrtc.Rtcp.CompoundBlock.{
  RtcpCompoundBlock, RtcpCompoundPacket, empty_packet, has_value, value_or, make_block_from_header,
  fill_feedback_block, contains, add_new_ssrcs, increment_if, feedback_is_classified,
  aggregate_feedback_block, aggregate_report_packet,
}

-- The block of which `block_data` are the bytes: the branches for feedback, reports, source
-- descriptions, BYE and the rest, with what they do to the packet.
unfoldable pub parse_feedback_block :
    List ℕ
    → RtcpCompoundBlock
    → RtcpCompoundPacket
    → Result (RtcpCompoundBlock × RtcpCompoundPacket)
unfolding fill_feedback_block
parse_feedback_block block_data block packet = do
  feedback ←
      with_prefix "rtcp compound feedback parse failed: "
        (parse_rtcp_feedback_packet parse_rtcp_transport_feedback block_data)
  let filled = fill_feedback_block feedback block
  ok (filled, aggregate_feedback_block filled packet)

unfoldable pub parse_report_block :
    List ℕ
    → RtcpCompoundBlock
    → RtcpCompoundPacket
    → Result (RtcpCompoundBlock × RtcpCompoundPacket)
parse_report_block block_data block packet = do
  report ← with_prefix "rtcp compound report parse failed: " (parse_rtcp_report_packet block_data)
  ok (record block { is_report = true }, aggregate_report_packet report packet)

unfoldable pub parse_sdes_block :
    List ℕ
    → RtcpCompoundBlock
    → RtcpCompoundPacket
    → Result (RtcpCompoundBlock × RtcpCompoundPacket)
parse_sdes_block block_data block packet = do
  chunks ← with_prefix "rtcp compound sdes parse failed: " (parse_rtcp_sdes_packet block_data)
  ok (
    record block { is_sdes = true },
    record packet {
      sdes_packet_count = packet.sdes_packet_count + 1;
      sdes_chunks = packet.sdes_chunks ++ chunks;
    },
  )

unfoldable pub parse_bye_block :
    List ℕ
    → RtcpCompoundBlock
    → RtcpCompoundPacket
    → Result (RtcpCompoundBlock × RtcpCompoundPacket)
parse_bye_block block_data block packet = do
  bye ← with_prefix "rtcp compound bye parse failed: " (parse_rtcp_bye_packet block_data)
  ok (
    record block { is_bye = true },
    record packet { has_bye = true; bye_packets = packet.bye_packets ++ bye ∷ [] },
  )

unfoldable pub parse_block :
    List ℕ → RtcpPacketHeader → RtcpCompoundPacket → Result (RtcpCompoundBlock × RtcpCompoundPacket)
unfolding make_block_from_header
parse_block block_data header packet = do
  let block = make_block_from_header header
  feedback ← is_rtcp_feedback_packet block_data
  if feedback then parse_feedback_block block_data block packet else (do
    report ← is_rtcp_report_packet block_data
    if report
        then parse_report_block block_data block packet
        else if header.packet_type == 202
        then parse_sdes_block block_data block packet
        else if header.packet_type == 203
        then parse_bye_block block_data block packet
        else ok (
          record block { is_unknown = true },
          record packet { unknown_block_count = packet.unknown_block_count + 1 },
        ))

-- A round of the loop: the size of the block at the offset, and the packet with it.
unfoldable pub parse_block_at : List ℕ → ℕ → RtcpCompoundPacket → Result (ℕ × RtcpCompoundPacket)
parse_block_at bytes offset packet = do
  reject (ltb (length bytes - offset) 4) "rtcp compound trailing bytes are invalid"
  let remaining = drop offset bytes
  header ← with_prefix "rtcp compound block parse failed: " (parse_rtcp_packet_header remaining)
  reject (header.packet_size == 0) "rtcp compound block size is zero"
  reject (ltb (length remaining) header.packet_size) "rtcp compound block exceeds remaining size"
  reject (header.padding && not (offset + header.packet_size == length bytes))
      "rtcp compound padding is only allowed on the last block"
  (block, filled) ← parse_block (subspan bytes offset header.packet_size) header packet
  ok (header.packet_size, record filled { blocks = filled.blocks ++ block ∷ [] })

-- `while (offset < data.size())`.
unfoldable pub parse_blocks : List ℕ → ℕ → ℕ → RtcpCompoundPacket → Result RtcpCompoundPacket
parse_blocks bytes zero offset packet = if leb (length bytes) offset then ok packet else fault
parse_blocks bytes (suc fuel) offset packet = if leb (length bytes) offset then ok packet else (do
  (size, next) ← parse_block_at bytes offset packet
  parse_blocks bytes fuel (offset + size) next)

unfoldable pub parse_rtcp_compound_packet : List ℕ → Result RtcpCompoundPacket
parse_rtcp_compound_packet bytes = do
  reject (length bytes == 0) "rtcp compound packet is empty"
  packet ← parse_blocks bytes (length bytes) 0 empty_packet
  reject (length packet.blocks == 0) "rtcp compound packet has no blocks"
  ok packet

unfoldable pub rtcp_compound_feedback_summary_to_string : RtcpCompoundPacket → String
rtcp_compound_feedback_summary_to_string packet =
    if packet.has_bye
    then "bye"
    else if not packet.has_feedback
    then "none"
    else if packet.has_remb
    then "remb"
    else if packet.has_keyframe_request
    then "keyframe_request"
    else if packet.has_generic_nack
    then "generic_nack"
    else if not (packet.transport_cc_block_count == 0)
    then "transport_cc"
    else "feedback"
