-- ===== src/Rtcp/CompoundBlock.antt =====
-- The blocks of rtp/rtcp_compound_packet.h and the packet that adds them up: what
-- rtp/rtcp_compound_packet.cpp does with a parsed feedback packet or report.
use simple_webrtc.Base.{
  ℕ, ◌+◌, Bool, true, false, ◌||◌, ◌&&◌, List, [], ◌∷◌, ◌++◌, ltb, ◌==◌, not, if◌then◌else◌, Option,
  none, some, length, String, same_text,
}
use simple_webrtc.Rtp.Packet.{RtcpPacketHeader, rtcp_packet_type_to_string}
use simple_webrtc.Rtcp.Feedback.{
  RtcpNackEntry, RtcpFirEntry, RtcpFeedbackPacket, rtcp_feedback_format_to_string,
}
use simple_webrtc.Rtcp.Report.{RtcpReportPacket}
use simple_webrtc.Rtcp.TransportFeedback.{ParsedRtcpTransportFeedback}
use simple_webrtc.Rtcp.SdesBye.{RtcpSdesChunk, RtcpByePacket}

pub record RtcpCompoundBlock : Type 0 where
  pub count : ℕ
  pub packet_type : ℕ
  pub length : ℕ
  pub has_ssrc : Bool
  pub ssrc : ℕ
  pub packet_type_name : String
  pub is_feedback : Bool
  pub is_report : Bool
  pub is_sdes : Bool
  pub is_bye : Bool
  pub is_unknown : Bool
  pub feedback_name : String
  pub feedback_sender_ssrc : ℕ
  pub feedback_media_ssrc : ℕ
  pub nack_count : ℕ
  pub fir_count : ℕ
  pub has_generic_nack : Bool
  pub has_keyframe_request : Bool
  pub transport_feedback : Option ParsedRtcpTransportFeedback
  pub nack_entries : List RtcpNackEntry
  pub nack_sequence_numbers : List ℕ
  pub keyframe_request_media_ssrcs : List ℕ
  pub fir_entries : List RtcpFirEntry
  pub has_remb : Bool
  pub remb_bitrate_bps : ℕ

pub record RtcpCompoundPacket : Type 0 where
  pub blocks : List RtcpCompoundBlock
  pub feedback_block_count : ℕ
  pub pli_count : ℕ
  pub fir_block_count : ℕ
  pub nack_count : ℕ
  pub fir_count : ℕ
  pub generic_nack_block_count : ℕ
  pub transport_cc_block_count : ℕ
  pub remb_block_count : ℕ
  pub other_feedback_block_count : ℕ
  pub has_feedback : Bool
  pub has_generic_nack : Bool
  pub has_keyframe_request : Bool
  pub nack_entries : List RtcpNackEntry
  pub nack_sequence_numbers : List ℕ
  pub keyframe_request_media_ssrcs : List ℕ
  pub fir_entries : List RtcpFirEntry
  pub has_remb : Bool
  pub remb_bitrate_bps : ℕ
  pub report_packet_count : ℕ
  pub sender_report_count : ℕ
  pub receiver_report_count : ℕ
  pub report_block_count : ℕ
  pub report_packets : List RtcpReportPacket
  pub sdes_packet_count : ℕ
  pub sdes_chunks : List RtcpSdesChunk
  pub bye_packets : List RtcpByePacket
  pub has_bye : Bool
  pub unknown_block_count : ℕ

-- `rtcp_compound_packet packet;`
unfoldable pub empty_packet : RtcpCompoundPacket
empty_packet = record {
  blocks = [];
  feedback_block_count = 0;
  pli_count = 0;
  fir_block_count = 0;
  nack_count = 0;
  fir_count = 0;
  generic_nack_block_count = 0;
  transport_cc_block_count = 0;
  remb_block_count = 0;
  other_feedback_block_count = 0;
  has_feedback = false;
  has_generic_nack = false;
  has_keyframe_request = false;
  nack_entries = [];
  nack_sequence_numbers = [];
  keyframe_request_media_ssrcs = [];
  fir_entries = [];
  has_remb = false;
  remb_bitrate_bps = 0;
  report_packet_count = 0;
  sender_report_count = 0;
  receiver_report_count = 0;
  report_block_count = 0;
  report_packets = [];
  sdes_packet_count = 0;
  sdes_chunks = [];
  bye_packets = [];
  has_bye = false;
  unknown_block_count = 0;
}

abbrev pub has_value : {A : Type 0} → Option A → Bool
has_value none = false
has_value (some a) = true

abbrev pub value_or : {A : Type 0} → A → Option A → A
value_or a none = a
value_or a (some b) = b

unfoldable pub make_block_from_header : RtcpPacketHeader → RtcpCompoundBlock
make_block_from_header header = record {
  count = header.count;
  packet_type = header.packet_type;
  length = header.length;
  has_ssrc = header.has_ssrc;
  ssrc = header.ssrc;
  packet_type_name = rtcp_packet_type_to_string header.packet_type;
  is_feedback = false;
  is_report = false;
  is_sdes = false;
  is_bye = false;
  is_unknown = false;
  feedback_name = "";
  feedback_sender_ssrc = 0;
  feedback_media_ssrc = 0;
  nack_count = 0;
  fir_count = 0;
  has_generic_nack = false;
  has_keyframe_request = false;
  transport_feedback = none;
  nack_entries = [];
  nack_sequence_numbers = [];
  keyframe_request_media_ssrcs = [];
  fir_entries = [];
  has_remb = false;
  remb_bitrate_bps = 0;
}

unfoldable pub fill_feedback_block :
    RtcpFeedbackPacket ParsedRtcpTransportFeedback → RtcpCompoundBlock → RtcpCompoundBlock
fill_feedback_block feedback block = record block {
  is_feedback = true;
  feedback_name =
      if has_value feedback.remb_bitrate_bps
      then "remb"
      else rtcp_feedback_format_to_string feedback.packet_type feedback.format;
  feedback_sender_ssrc = feedback.sender_ssrc;
  feedback_media_ssrc = feedback.media_ssrc;
  nack_count = feedback.nack_count;
  fir_count = feedback.fir_count;
  has_generic_nack = feedback.has_generic_nack;
  has_keyframe_request = feedback.has_keyframe_request;
  transport_feedback = feedback.transport_feedback;
  nack_entries = feedback.nack_entries;
  nack_sequence_numbers = feedback.nack_sequence_numbers;
  keyframe_request_media_ssrcs = feedback.keyframe_request_media_ssrcs;
  fir_entries = feedback.fir_entries;
  has_remb = has_value feedback.remb_bitrate_bps;
  remb_bitrate_bps = value_or 0 feedback.remb_bitrate_bps;
}

-- `std::find(...) == end()` on the sources so far.
unfoldable pub contains : ℕ → List ℕ → Bool
contains ssrc [] = false
contains ssrc (x ∷ xs) = if x == ssrc then true else contains ssrc xs

unfoldable pub add_new_ssrcs : List ℕ → List ℕ → List ℕ
unfolding contains
add_new_ssrcs known [] = known
add_new_ssrcs known (ssrc ∷ ssrcs) =
    add_new_ssrcs (if contains ssrc known then known else known ++ ssrc ∷ []) ssrcs

abbrev pub increment_if : Bool → ℕ → ℕ
increment_if true n = n + 1
increment_if false n = n

unfoldable pub feedback_is_classified : RtcpCompoundBlock → Bool
feedback_is_classified block =
    same_text block.feedback_name "pli"
    || same_text block.feedback_name "fir"
    || block.has_generic_nack
    || has_value block.transport_feedback
    || block.has_remb

unfoldable pub aggregate_feedback_block :
    RtcpCompoundBlock → RtcpCompoundPacket → RtcpCompoundPacket
unfolding feedback_is_classified add_new_ssrcs
aggregate_feedback_block block packet = if not block.is_feedback then packet else record packet {
  has_feedback = true;
  feedback_block_count = packet.feedback_block_count + 1;
  pli_count = increment_if (same_text block.feedback_name "pli") packet.pli_count;
  fir_block_count =
      increment_if
        (not (same_text block.feedback_name "pli") && same_text block.feedback_name "fir")
        packet.fir_block_count;
  nack_count = packet.nack_count + block.nack_count;
  fir_count = packet.fir_count + block.fir_count;
  generic_nack_block_count = increment_if block.has_generic_nack packet.generic_nack_block_count;
  transport_cc_block_count =
      increment_if (has_value block.transport_feedback) packet.transport_cc_block_count;
  remb_block_count = increment_if block.has_remb packet.remb_block_count;
  other_feedback_block_count =
      increment_if (not (feedback_is_classified block)) packet.other_feedback_block_count;
  has_generic_nack = packet.has_generic_nack || block.has_generic_nack;
  has_keyframe_request = packet.has_keyframe_request || block.has_keyframe_request;
  nack_entries = packet.nack_entries ++ block.nack_entries;
  nack_sequence_numbers = packet.nack_sequence_numbers ++ block.nack_sequence_numbers;
  keyframe_request_media_ssrcs =
      add_new_ssrcs packet.keyframe_request_media_ssrcs block.keyframe_request_media_ssrcs;
  fir_entries = packet.fir_entries ++ block.fir_entries;
  has_remb = packet.has_remb || block.has_remb;
  remb_bitrate_bps =
      if ltb packet.remb_bitrate_bps block.remb_bitrate_bps
      then block.remb_bitrate_bps
      else packet.remb_bitrate_bps;
}

unfoldable pub aggregate_report_packet : RtcpReportPacket → RtcpCompoundPacket → RtcpCompoundPacket
aggregate_report_packet report packet = record packet {
  report_packet_count = packet.report_packet_count + 1;
  sender_report_count = increment_if (has_value report.sender_info) packet.sender_report_count;
  receiver_report_count =
      increment_if (not (has_value report.sender_info)) packet.receiver_report_count;
  report_block_count = packet.report_block_count + length report.report_blocks;
  report_packets = packet.report_packets ++ report ∷ [];
}
