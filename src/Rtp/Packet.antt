-- ===== src/Rtp/Packet.antt =====
-- rtp/rtp_packet.h and rtp/rtp_packet.cpp: the layout of an RTP packet, its fixed header and the
-- common header of an RTCP packet. A `while` loop over extension elements is a step that gives the
-- next offset, iterated on fuel. No sum here comes near 2 ^ 64, so `std::size_t` is ℕ.
pub mod Safety
pub mod Layout
pub mod Encode
use simple_webrtc.Base.{
  ℕ, zero, suc, ◌+◌, ◌-◌, ◌*◌, ◌/◌, String, Bool, true, false, not, ◌&&◌, List, ltb, leb, ◌==◌,
  if◌then◌else◌, low_bits, bit_set, length, Result, ok, fault, ◌>>=◌, ◌>>◌, reject, byte, read_u16,
  read_u32,
}

pub record RtpPacketLayout : Type 0 where
  pub header_size : ℕ
  pub media_payload_size : ℕ
  pub padding_size : ℕ
  pub padding : Bool

unfoldable pub padding_only : RtpPacketLayout → Bool
padding_only l = l.padding && l.media_payload_size == 0

pub record RtpPacketHeader : Type 0 where
  pub marker : Bool
  pub payload_type : ℕ
  pub sequence_number : ℕ
  pub timestamp : ℕ
  pub ssrc : ℕ

pub record RtcpPacketHeader : Type 0 where
  pub padding : Bool
  pub count : ℕ
  pub packet_type : ℕ
  pub length : ℕ
  pub packet_size : ℕ
  pub has_ssrc : Bool
  pub ssrc : ℕ

abbrev pub rtp_fixed_header_size : ℕ
rtp_fixed_header_size = 12

abbrev pub rtcp_common_header_size : ℕ
rtcp_common_header_size = 4

unfoldable pub has_rtp_version : List ℕ → Result Bool
has_rtp_version packet =
    if length packet == 0 then ok false else (do first ← byte packet 0; ok (first / 64 == 2))

unfoldable pub is_one_byte_extension_profile : ℕ → Bool
is_one_byte_extension_profile profile = profile == 0xBEDE

-- `(profile & 0xFFF0) == 0x1000`.
unfoldable pub is_two_byte_extension_profile : ℕ → Bool
is_two_byte_extension_profile profile = profile / 16 == 0x100

-- One round of the loop of `validate_one_byte_header_extensions`: the next offset.
unfoldable pub next_one_byte_element : List ℕ → ℕ → ℕ → Result ℕ
next_one_byte_element packet extension_end offset = do
  value ← byte packet offset
  if value == 0 then ok (offset + 1) else (do
    reject (value / 16 == 15) "rtp one-byte extension id 15 is reserved"
    let size = low_bits value 4 + 1
    reject (ltb extension_end (offset + 1 + size)) "rtp one-byte extension element is truncated"
    ok (offset + 1 + size))

unfoldable pub next_two_byte_element : List ℕ → ℕ → ℕ → Result ℕ
next_two_byte_element packet extension_end offset = do
  id ← byte packet offset
  if id == 0 then ok (offset + 1) else (do
    reject (leb extension_end (offset + 1)) "rtp two-byte extension length is truncated"
    size ← byte packet (offset + 1)
    reject (ltb extension_end (offset + 2 + size)) "rtp two-byte extension element is truncated"
    ok (offset + 2 + size))

-- `while (offset < extension_end)`.
unfoldable pub validate_elements : (ℕ → Result ℕ) → ℕ → ℕ → ℕ → Result (Unit {0})
validate_elements next extension_end zero offset = if leb extension_end offset then ok tt else fault
validate_elements next extension_end (suc fuel) offset =
    if leb extension_end offset
    then ok tt
    else (do offset' ← next offset; validate_elements next extension_end fuel offset')

unfoldable pub validate_one_byte_header_extensions : List ℕ → ℕ → ℕ → Result (Unit {0})
validate_one_byte_header_extensions packet extension_payload_offset extension_payload_size = do
  let extension_end = extension_payload_offset + extension_payload_size
  reject (ltb (length packet) extension_end) "rtp one-byte extension payload is truncated"
  validate_elements (next_one_byte_element packet extension_end) extension_end
      extension_payload_size extension_payload_offset

unfoldable pub validate_two_byte_header_extensions : List ℕ → ℕ → ℕ → Result (Unit {0})
validate_two_byte_header_extensions packet extension_payload_offset extension_payload_size = do
  let extension_end = extension_payload_offset + extension_payload_size
  reject (ltb (length packet) extension_end) "rtp two-byte extension payload is truncated"
  validate_elements (next_two_byte_element packet extension_end) extension_end
      extension_payload_size extension_payload_offset

unfoldable pub validate_extension_payload : ℕ → List ℕ → ℕ → ℕ → Result (Unit {0})
unfolding is_one_byte_extension_profile is_two_byte_extension_profile
validate_extension_payload profile packet offset size =
    if is_one_byte_extension_profile profile
    then validate_one_byte_header_extensions packet offset size
    else if is_two_byte_extension_profile profile
    then validate_two_byte_header_extensions packet offset size
    else ok tt

unfoldable pub validate_header_extensions : List ℕ → ℕ → Result ℕ
validate_header_extensions packet extension_header_offset = do
  reject (ltb (length packet) (extension_header_offset + 4)) "rtp extension header is truncated"
  extension_profile ← read_u16 packet extension_header_offset
  extension_length_words ← read_u16 packet (extension_header_offset + 2)
  let extension_payload_offset = extension_header_offset + 4
  let extension_payload_size = extension_length_words * 4
  let extension_total_size = 4 + extension_payload_size
  reject (ltb (length packet) (extension_header_offset + extension_total_size))
      "rtp extension payload is truncated"
  validate_extension_payload extension_profile packet extension_payload_offset
      extension_payload_size
  ok extension_total_size

unfoldable pub validate_rtp_padding : List ℕ → Bool → ℕ → Result (Unit {0})
validate_rtp_padding packet false payload_size = ok tt
validate_rtp_padding packet true payload_size = do
  reject (payload_size == 0) "rtp padding flag set but payload is empty"
  padding_size ← byte packet (length packet - 1)
  reject (padding_size == 0) "rtp padding size is zero"
  reject (ltb payload_size padding_size) "rtp padding exceeds payload size"

unfoldable pub is_rtp_or_rtcp_packet : List ℕ → Result Bool
is_rtp_or_rtcp_packet packet =
    if length packet == 0
    then ok false
    else (do first ← byte packet 0; ok (leb 128 first && leb first 191))

unfoldable pub is_rtcp_packet : List ℕ → Result Bool
unfolding is_rtp_or_rtcp_packet
is_rtcp_packet packet = do
  either ← is_rtp_or_rtcp_packet packet
  if not either
      then ok false
      else if ltb (length packet) 2
      then ok false
      else (do second ← byte packet 1; ok (leb 192 second && leb second 223))

-- `header_size += *extension_result` where the extension bit is set.
unfoldable pub header_size_with_extension : List ℕ → Bool → ℕ → Result ℕ
header_size_with_extension packet false header_size = ok header_size
header_size_with_extension packet true header_size = do
  extension_size ← validate_header_extensions packet header_size
  ok (header_size + extension_size)

unfoldable pub inspect_rtp_packet_layout : List ℕ → Result RtpPacketLayout
unfolding has_rtp_version is_rtcp_packet
inspect_rtp_packet_layout packet = do
  reject (ltb (length packet) rtp_fixed_header_size) "rtp packet is shorter than fixed header"
  version ← has_rtp_version packet
  reject (not version) "rtp version is invalid"
  rtcp ← is_rtcp_packet packet
  reject rtcp "packet is rtcp not rtp"
  first ← byte packet 0
  let padding = bit_set first 5
  let fixed_size = rtp_fixed_header_size + low_bits first 4 * 4
  reject (ltb (length packet) fixed_size) "rtp csrc list is truncated"
  header_size ← header_size_with_extension packet (bit_set first 4) fixed_size
  reject (ltb (length packet) header_size) "rtp header exceeds packet size"
  let wire_payload_size = length packet - header_size
  validate_rtp_padding packet padding wire_payload_size
  padding_size ← if padding then byte packet (length packet - 1) else ok 0
  ok (record {
    header_size = header_size;
    media_payload_size = wire_payload_size - padding_size;
    padding_size = padding_size;
    padding = padding;
  })

unfoldable pub parse_rtp_packet_header : List ℕ → Result RtpPacketHeader
parse_rtp_packet_header packet = do
  layout ← inspect_rtp_packet_layout packet
  second ← byte packet 1
  sequence_number ← read_u16 packet 2
  timestamp ← read_u32 packet 4
  ssrc ← read_u32 packet 8
  ok (record {
    marker = bit_set second 7;
    payload_type = low_bits second 7;
    sequence_number = sequence_number;
    timestamp = timestamp;
    ssrc = ssrc;
  })

unfoldable pub validate_rtcp_padding : List ℕ → Bool → ℕ → Result (Unit {0})
validate_rtcp_padding packet false packet_size = ok tt
validate_rtcp_padding packet true packet_size = do
  reject (leb packet_size rtcp_common_header_size) "rtcp padding packet is too short"
  padding_size ← byte packet (packet_size - 1)
  reject (padding_size == 0) "rtcp padding size is zero"
  reject (ltb (packet_size - rtcp_common_header_size) padding_size)
      "rtcp padding exceeds packet size"

unfoldable pub parse_rtcp_packet_header : List ℕ → Result RtcpPacketHeader
unfolding has_rtp_version is_rtcp_packet validate_rtcp_padding
parse_rtcp_packet_header packet = do
  reject (ltb (length packet) rtcp_common_header_size) "rtcp packet is shorter than fixed header"
  version ← has_rtp_version packet
  reject (not version) "rtcp version is invalid"
  rtcp ← is_rtcp_packet packet
  reject (not rtcp) "packet is not rtcp"
  first ← byte packet 0
  packet_type ← byte packet 1
  length_words ← read_u16 packet 2
  let padding = bit_set first 5
  let packet_size = (length_words + 1) * 4
  reject (ltb (length packet) packet_size) "rtcp packet is truncated"
  validate_rtcp_padding packet padding packet_size
  ssrc ← if leb 8 packet_size then read_u32 packet 4 else ok 0
  ok (record {
    padding = padding;
    count = low_bits first 5;
    packet_type = packet_type;
    length = length_words;
    packet_size = packet_size;
    has_ssrc = leb 8 packet_size;
    ssrc = ssrc;
  })

unfoldable pub rtcp_packet_type_to_string : ℕ → String
rtcp_packet_type_to_string packet_type =
    if packet_type == 192
    then "fir"
    else if packet_type == 193
    then "nack"
    else if packet_type == 200
    then "sr"
    else if packet_type == 201
    then "rr"
    else if packet_type == 202
    then "sdes"
    else if packet_type == 203
    then "bye"
    else if packet_type == 204
    then "app"
    else if packet_type == 205
    then "rtpfb"
    else if packet_type == 206
    then "psfb"
    else if packet_type == 207
    then "xr"
    else "unknown"
