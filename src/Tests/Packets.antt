-- ===== src/Tests/Packets.antt =====
-- RTP packets of rtp_packet.cpp and rtp_header_extension.cpp.
use simple_webrtc.Base.{
  ℕ, ◌≡◌, refl, List, [], ◌∷◌, true, false, some, ok, err, Ensures, read_u16, read_u32, byte, at,
  inr, arith,
}
use simple_webrtc.Rtp.Packet.{
  RtpPacketHeader, RtpPacketLayout, inspect_rtp_packet_layout, parse_rtp_packet_header,
  parse_rtcp_packet_header, header_size_with_extension, validate_header_extensions,
  validate_extension_payload, validate_one_byte_header_extensions, validate_elements,
  next_one_byte_element, padding_only, rtcp_packet_type_to_string, validate_rtp_padding,
}
use simple_webrtc.Rtp.Packet.Layout.{
  IsLayoutOf, IsHeaderOf, IsRtcpHeaderOf, inspect_rtp_packet_layout-Ensures,
  parse_rtp_packet_header-Ensures, parse_rtcp_packet_header-Ensures, parse_rtp_packet_header-rtcp,
}
use simple_webrtc.Rtp.Packet.Encode.{rtp_bytes, IsSendable, inspect-rtp_bytes, parse-rtp_bytes}
use simple_webrtc.Rtp.HeaderExtension.{
  find_rtp_header_extension, find_in_extension, find_one_byte_extension, scan_elements,
  scan_one_byte_element,
}
use simple_webrtc.Rtp.HeaderExtension.Validated.{IsOk, find_rtp_header_extension-IsOk}

-- A one-byte extension with the element 1 = AA, and two bytes of payload.
abbrev extended : List ℕ
extended =
    0x90 ∷ 96 ∷ 0 ∷ 1 ∷ 0 ∷ 0 ∷ 0 ∷ 2 ∷ 0 ∷ 0 ∷ 0 ∷ 3 ∷ 0xBE ∷ 0xDE ∷ 0 ∷ 1 ∷ 0x10 ∷ 0xAA ∷ 0 ∷ 0
    ∷ 7 ∷ 7 ∷ []

abbrev extended_layout : RtpPacketLayout
extended_layout = record {
  header_size = 20;
  media_payload_size = 2;
  padding_size = 0;
  padding = false;
}

extended-inspected : inspect_rtp_packet_layout extended ≡ ok extended_layout
unfolding inspect_rtp_packet_layout header_size_with_extension validate_header_extensions
    validate_extension_payload validate_one_byte_header_extensions validate_elements
    next_one_byte_element validate_rtp_padding read_u16 byte at
extended-inspected = refl

element_found : find_rtp_header_extension extended 1 ≡ ok (some (0xAA ∷ []))
unfolding find_rtp_header_extension find_in_extension find_one_byte_extension scan_elements
    scan_one_byte_element read_u16 byte at
element_found = refl

not_padding_only : padding_only extended_layout ≡ false
unfolding padding_only
not_padding_only = refl

-- A receiver report without blocks.
abbrev empty_report : List ℕ
empty_report = 0x80 ∷ 201 ∷ 0 ∷ 1 ∷ 0 ∷ 0 ∷ 0 ∷ 9 ∷ []

named : rtcp_packet_type_to_string 201 ≡ "rr"
unfolding rtcp_packet_type_to_string
named = refl

inspect_rtp_packet_layout-Ensures_example :
    Ensures (IsLayoutOf extended) (inspect_rtp_packet_layout extended)
inspect_rtp_packet_layout-Ensures_example = inspect_rtp_packet_layout-Ensures extended

parse_rtp_packet_header-Ensures_example :
    Ensures (IsHeaderOf extended) (parse_rtp_packet_header extended)
parse_rtp_packet_header-Ensures_example = parse_rtp_packet_header-Ensures extended

parse_rtcp_packet_header-Ensures_example :
    Ensures (IsRtcpHeaderOf empty_report) (parse_rtcp_packet_header empty_report)
parse_rtcp_packet_header-Ensures_example = parse_rtcp_packet_header-Ensures empty_report

find_rtp_header_extension-IsOk_example : IsOk (find_rtp_header_extension extended 1)
find_rtp_header_extension-IsOk_example =
    find_rtp_header_extension-IsOk extended 1 (omega arith) extended-inspected

abbrev marked : RtpPacketHeader
marked = record {
  marker = true;
  payload_type = 96;
  sequence_number = 65535;
  timestamp = 90000;
  ssrc = 0x01020304;
}

marked-IsSendable : IsSendable marked (5 ∷ []) true 3
marked-IsSendable = record {
  payload_type = omega arith;
  demultiplexed = inr (inr (omega arith));
  sequence_number = omega arith;
  timestamp = omega arith;
  ssrc = omega arith;
  csrcs = omega arith;
  padded = inr (refl, omega arith, omega arith);
}

inspect-rtp_bytes_example :
    inspect_rtp_packet_layout (rtp_bytes marked (5 ∷ []) (1 ∷ 2 ∷ []) true 3)
    ≡ ok (record { header_size = 16; media_payload_size = 2; padding_size = 3; padding = true })
inspect-rtp_bytes_example = inspect-rtp_bytes marked (5 ∷ []) (1 ∷ 2 ∷ []) true 3 marked-IsSendable

parse-rtp_bytes_example :
    parse_rtp_packet_header (rtp_bytes marked (5 ∷ []) (1 ∷ 2 ∷ []) true 3) ≡ ok marked
parse-rtp_bytes_example = parse-rtp_bytes marked (5 ∷ []) (1 ∷ 2 ∷ []) true 3 marked-IsSendable

extended-parsed :
    parse_rtp_packet_header extended
    ≡ ok
        (record { marker = false; payload_type = 96; sequence_number = 1; timestamp = 2; ssrc = 3 })
unfolding parse_rtp_packet_header inspect_rtp_packet_layout header_size_with_extension
    validate_header_extensions validate_extension_payload validate_one_byte_header_extensions
    validate_elements next_one_byte_element validate_rtp_padding read_u16 read_u32 byte at
extended-parsed = refl

parse_rtp_packet_header-rtcp_example : parse_rtcp_packet_header extended ≡ err "packet is not rtcp"
parse_rtp_packet_header-rtcp_example = parse_rtp_packet_header-rtcp extended extended-parsed
