-- ===== src/Rtcp/Feedback.antt =====
-- rtp/rtcp_feedback.h and rtp/rtcp_feedback.cpp: NACK, PLI, FIR and REMB. A function that fills the
-- packet takes it and returns it. `parse_rtcp_transport_feedback` of rtcp_transport_feedback.cpp,
-- which reads a report on the whole transport, is a parameter. The span `data` is
-- called `bytes`.
pub mod Nack
pub mod Safety
use simple_webrtc.Base.{
  ℕ, zero, suc, ◌+◌, ◌-◌, ◌*◌, ◌/◌, ◌%◌, ◌^◌, Bool, true, false, ◌||◌, ◌&&◌, List, [], ◌∷◌, ◌++◌,
  map, ltb, leb, ◌==◌, not, if◌then◌else◌, bit_set, low_bits, Option, none, some, length, Result,
  ok, err, fault, ◌>>=◌, ◌>>◌, reject, byte, read_u16, read_u32, String,
}
use simple_webrtc.Rtp.Packet.{RtcpPacketHeader, parse_rtcp_packet_header}

pub record RtcpNackEntry : Type 0 where
  pub packet_id : ℕ
  pub bitmask : ℕ

pub record RtcpFirEntry : Type 0 where
  pub media_ssrc : ℕ
  pub sequence_number : ℕ

-- `A` is the type `parsed_rtcp_transport_feedback`.
pub record RtcpFeedbackPacket (A : Type 0) : Type 0 where
  pub format : ℕ
  pub packet_type : ℕ
  pub sender_ssrc : ℕ
  pub media_ssrc : ℕ
  pub nack_count : ℕ
  pub fir_count : ℕ
  pub has_generic_nack : Bool
  pub has_keyframe_request : Bool
  pub transport_feedback : Option A
  pub nack_entries : List RtcpNackEntry
  pub nack_sequence_numbers : List ℕ
  pub keyframe_request_media_ssrcs : List ℕ
  pub fir_entries : List RtcpFirEntry
  pub remb_bitrate_bps : Option ℕ

unfoldable pub padded_payload_end : List ℕ → Bool → ℕ → Result ℕ
padded_payload_end bytes false payload_end = ok payload_end
padded_payload_end bytes true payload_end = do
  reject (leb payload_end 4) "rtcp feedback padding packet is too short"
  padding_size ← byte bytes (payload_end - 1)
  reject (padding_size == 0) "rtcp feedback padding size is zero"
  reject (ltb (payload_end - 4) padding_size) "rtcp feedback padding exceeds packet size"
  let unpadded_end = payload_end - padding_size
  reject (ltb unpadded_end 12) "rtcp feedback payload is shorter than feedback header"
  ok unpadded_end

unfoldable pub rtcp_feedback_payload_end : RtcpPacketHeader → List ℕ → Result ℕ
unfolding padded_payload_end
rtcp_feedback_payload_end header bytes = do
  reject (ltb (length bytes) header.packet_size) "rtcp feedback packet exceeds buffer size"
  padded_payload_end bytes header.padding header.packet_size

unfoldable pub is_feedback_packet_type : ℕ → Bool
is_feedback_packet_type packet_type = packet_type == 205 || packet_type == 206

-- Each `&&` reads its byte only where the tests before it hold; the four bytes are in the buffer.
unfoldable pub is_remb_fci : List ℕ → ℕ → ℕ → Result Bool
is_remb_fci bytes offset end = if ltb end (offset + 4) then ok false else (do
  a ← byte bytes offset
  b ← byte bytes (offset + 1)
  c ← byte bytes (offset + 2)
  d ← byte bytes (offset + 3)
  ok (a == 82 && b == 69 && c == 77 && d == 66))

-- The loop over the bits of a mask, from `bit` on, with the rounds that are left.
unfoldable pub masked_sequence_numbers : ℕ → ℕ → ℕ → ℕ → List ℕ
masked_sequence_numbers packet_id bitmask zero bit = []
masked_sequence_numbers packet_id bitmask (suc rounds) bit =
    let rest = masked_sequence_numbers packet_id bitmask rounds (bit + 1) in
    if bit_set bitmask bit then (packet_id + (bit + 1)) % 65536 ∷ rest else rest

-- The loop over the entries: those left, from the running offset on.
unfoldable pub parse_nack_entries : List ℕ → ℕ → ℕ → Result (List RtcpNackEntry × List ℕ)
unfolding masked_sequence_numbers
parse_nack_entries bytes current zero = ok ([], [])
parse_nack_entries bytes current (suc n) = do
  packet_id ← read_u16 bytes current
  bitmask ← read_u16 bytes (current + 2)
  (entries, numbers) ← parse_nack_entries bytes (current + 4) n
  ok (
    record { packet_id = packet_id; bitmask = bitmask } ∷ entries,
    packet_id ∷ masked_sequence_numbers packet_id bitmask 16 0 ++ numbers,
  )

unfoldable pub nonzero_ssrcs : ℕ → List ℕ → List ℕ
nonzero_ssrcs ssrc ssrcs = if ssrc == 0 then ssrcs else ssrc ∷ ssrcs

unfoldable pub parse_fir_entries : List ℕ → ℕ → ℕ → Result (List RtcpFirEntry × List ℕ)
unfolding nonzero_ssrcs
parse_fir_entries bytes current zero = ok ([], [])
parse_fir_entries bytes current (suc n) = do
  media_ssrc ← read_u32 bytes current
  sequence_number ← byte bytes (current + 4)
  (entries, ssrcs) ← parse_fir_entries bytes (current + 8) n
  ok (
    record { media_ssrc = media_ssrc; sequence_number = sequence_number } ∷ entries,
    nonzero_ssrcs media_ssrc ssrcs,
  )

module _ {A : Type 0} where
  unfoldable pub parse_generic_nack :
      List ℕ → ℕ → ℕ → RtcpFeedbackPacket A → Result (RtcpFeedbackPacket A)
  parse_generic_nack bytes offset end packet = do
    let fci_size = end - offset
    reject (not (fci_size % 4 == 0)) "rtcp nack fci size is invalid"
    (entries, numbers) ← parse_nack_entries bytes offset (fci_size / 4)
    ok (record packet {
      has_generic_nack = true;
      nack_count = fci_size / 4;
      nack_entries = packet.nack_entries ++ entries;
      nack_sequence_numbers = packet.nack_sequence_numbers ++ numbers;
    })

  unfoldable pub parse_pli : ℕ → ℕ → RtcpFeedbackPacket A → Result (RtcpFeedbackPacket A)
  parse_pli offset end packet = do
    reject (not (offset == end)) "rtcp pli fci must be empty"
    ok (record packet {
      has_keyframe_request = true;
      keyframe_request_media_ssrcs =
          packet.keyframe_request_media_ssrcs ++ nonzero_ssrcs packet.media_ssrc [];
    })

  unfoldable pub parse_fir : List ℕ → ℕ → ℕ → RtcpFeedbackPacket A → Result (RtcpFeedbackPacket A)
  parse_fir bytes offset end packet = do
    let fci_size = end - offset
    reject (not (fci_size % 8 == 0)) "rtcp fir fci size is invalid"
    (entries, ssrcs) ← parse_fir_entries bytes offset (fci_size / 8)
    ok (record packet {
      has_keyframe_request = true;
      fir_count = fci_size / 8;
      fir_entries = packet.fir_entries ++ entries;
      keyframe_request_media_ssrcs = packet.keyframe_request_media_ssrcs ++ ssrcs;
    })

  unfoldable pub parse_remb_fci :
      List ℕ → ℕ → ℕ → RtcpFeedbackPacket A → Result (RtcpFeedbackPacket A)
  parse_remb_fci bytes offset end packet = do
    reject (ltb end (offset + 8)) "rtcp remb fci is truncated"
    ssrc_count ← byte bytes (offset + 4)
    high ← byte bytes (offset + 5)
    middle ← byte bytes (offset + 6)
    low ← byte bytes (offset + 7)
    let bitrate_exponent = high / 4
    let bitrate_mantissa = low_bits high 2 * 65536 + middle * 256 + low
    reject (ltb end (offset + 8 + ssrc_count * 4)) "rtcp remb ssrc list is truncated"
    ok (record packet {
      remb_bitrate_bps = some (bitrate_mantissa * 2 ^ bitrate_exponent % 2 ^ 64);
    })

  unfoldable pub parse_remb : List ℕ → ℕ → ℕ → RtcpFeedbackPacket A → Result (RtcpFeedbackPacket A)
  parse_remb bytes offset end packet = do
    remb ← is_remb_fci bytes offset end
    if remb then parse_remb_fci bytes offset end packet else ok packet

  unfoldable pub parse_payload_feedback :
      List ℕ → ℕ → ℕ → RtcpFeedbackPacket A → Result (RtcpFeedbackPacket A)
  parse_payload_feedback bytes offset end packet =
      if packet.format == 1
      then parse_pli offset end packet
      else if packet.format == 4
      then parse_fir bytes offset end packet
      else if packet.format == 15
      then parse_remb bytes offset end packet
      else ok packet

  unfoldable pub new_packet : RtcpPacketHeader → ℕ → ℕ → RtcpFeedbackPacket A
  new_packet header sender_ssrc media_ssrc = record {
    format = header.count;
    packet_type = header.packet_type;
    sender_ssrc = sender_ssrc;
    media_ssrc = media_ssrc;
    nack_count = 0;
    fir_count = 0;
    has_generic_nack = false;
    has_keyframe_request = false;
    transport_feedback = none;
    nack_entries = [];
    nack_sequence_numbers = [];
    keyframe_request_media_ssrcs = [];
    fir_entries = [];
    remb_bitrate_bps = none;
  }

module _ {A : Type 0} (parse_rtcp_transport_feedback : List ℕ → Result A) where
  unfoldable pub parse_transport_feedback :
      List ℕ → ℕ → ℕ → RtcpFeedbackPacket A → Result (RtcpFeedbackPacket A)
  parse_transport_feedback bytes offset end packet =
      if packet.format == 1
      then parse_generic_nack bytes offset end packet
      else if packet.format == 15
      then (do
        feedback ← parse_rtcp_transport_feedback bytes
        ok (record packet { transport_feedback = some feedback }))
      else ok packet

  unfoldable pub parse_feedback_payload :
      List ℕ → RtcpPacketHeader → ℕ → Result (RtcpFeedbackPacket A)
  unfolding new_packet
  parse_feedback_payload bytes header packet_end = do
    sender_ssrc ← read_u32 bytes 4
    media_ssrc ← read_u32 bytes 8
    let packet = new_packet header sender_ssrc media_ssrc
    if header.packet_type == 205
        then parse_transport_feedback bytes 12 packet_end packet
        else parse_payload_feedback bytes 12 packet_end packet

  unfoldable pub parse_rtcp_feedback_packet : List ℕ → Result (RtcpFeedbackPacket A)
  unfolding is_feedback_packet_type
  parse_rtcp_feedback_packet bytes = do
    header ← parse_rtcp_packet_header bytes
    reject (not (is_feedback_packet_type header.packet_type)) "rtcp packet is not feedback"
    reject (ltb header.packet_size 12) "rtcp feedback packet is shorter than feedback header"
    payload_end ← rtcp_feedback_payload_end header bytes
    parse_feedback_payload bytes header payload_end

-- A header that cannot be read is no feedback packet.
unfoldable pub is_rtcp_feedback_packet : List ℕ → Result Bool
unfolding is_feedback_packet_type
is_rtcp_feedback_packet bytes = elim (parse_rtcp_packet_header bytes) [
  | ok header ↦ ok (is_feedback_packet_type header.packet_type)
  | err message ↦ ok false
  | fault ↦ fault
]

unfoldable pub rtcp_feedback_format_to_string : ℕ → ℕ → String
rtcp_feedback_format_to_string packet_type format =
    if packet_type == 205
    then if format == 1
      then "generic_nack"
      else if format == 3
      then "tmmbr"
      else if format == 4
      then "tmmbn"
      else if format == 15
      then "transport_cc"
      else "transport_feedback_unknown"
    else if packet_type == 206
    then if format == 1
      then "pli"
      else if format == 2
      then "sli"
      else if format == 3
      then "rpsi"
      else if format == 4
      then "fir"
      else if format == 15
      then "afb"
      else "payload_feedback_unknown"
    else "unknown"
