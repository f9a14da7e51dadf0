-- ===== src/Rtp/Packet/Layout.antt =====
-- What a parsed RTP header or RTCP common header says of its packet.
use simple_webrtc.Base.{
  ℕ, ◌+◌, ◌-◌, ◌*◌, ◌%◌, ◌/◌, ◌≤◌, ◌<◌, ◌≡◌, List, true, false, length, ok, err, Ensures,
  Ensures->>=, Ensures-eq_ok, byte, at, u16_at, u32_at, read_u16, read_u32, bit_set, arith, ◌⊎◌,
}
use simple_webrtc.Rtp.Packet.{
  RtpPacketLayout, RtpPacketHeader, RtcpPacketHeader, inspect_rtp_packet_layout,
  parse_rtp_packet_header, parse_rtcp_packet_header, validate_rtp_padding,
}
use simple_webrtc.Rtp.Packet.Safety.{header_size_with_extension-Ensures}

-- What a layout says of the packet that it was read from.
pub record IsLayoutOf (packet : List ℕ) (l : RtpPacketLayout) : Type 0 where
  pub whole : l.header_size + l.media_payload_size + l.padding_size ≡ length packet
  pub fixed : 12 + at packet 0 % 16 * 4 ≤ l.header_size
  pub flag : l.padding ≡ bit_set (at packet 0) 5
  pub padded :
      (l.padding ≡ false) × (l.padding_size ≡ 0)
      ⊎ (l.padding ≡ true) × (1 ≤ l.padding_size) × (l.padding_size ≡ at packet (length packet - 1))

-- On any bytes `inspect_rtp_packet_layout` ends without a read outside the packet. A layout that it
-- returns splits the packet into a header of at least 12 bytes and 4 for each CSRC, the payload and
-- the padding with nothing left over; its flag is the padding bit, with which the last byte is the
-- padding's size, at least 1, and without which there is no padding.
pub inspect_rtp_packet_layout-Ensures :
    (packet : List ℕ) → Ensures (IsLayoutOf packet) (inspect_rtp_packet_layout packet)
unfolding inspect_rtp_packet_layout byte validate_rtp_padding
inspect_rtp_packet_layout-Ensures packet = ground (
  arith,
  header_size_with_extension-Ensures packet (bit_set (at packet 0) 4) (12 + at packet 0 % 16 * 4),
)

-- The header is the fixed fields of RFC 3550 at their offsets.
pub record IsHeaderOf (packet : List ℕ) (h : RtpPacketHeader) : Type 0 where
  pub long : 12 ≤ length packet
  pub version : at packet 0 / 64 ≡ 2
  pub not_rtcp : at packet 1 < 192 ⊎ 223 < at packet 1
  pub marker : h.marker ≡ bit_set (at packet 1) 7
  pub payload_type : h.payload_type ≡ at packet 1 % 128
  pub sequence_number : h.sequence_number ≡ u16_at packet 2
  pub timestamp : h.timestamp ≡ u32_at packet 4
  pub ssrc : h.ssrc ≡ u32_at packet 8

inspect-first_bytes :
    (packet : List ℕ)
    → Ensures
        (λ _.
          (12 ≤ length packet) × (at packet 0 / 64 ≡ 2) × (at packet 1 < 192 ⊎ 223 < at packet 1))
        (inspect_rtp_packet_layout packet)
unfolding inspect_rtp_packet_layout byte validate_rtp_padding
inspect-first_bytes packet = ground (
  arith,
  header_size_with_extension-Ensures packet (bit_set (at packet 0) 4) (12 + at packet 0 % 16 * 4),
)

-- On any bytes `parse_rtp_packet_header` ends without a read outside the packet. A header that it
-- returns is of a packet of at least 12 bytes with version 2 whose second byte is none of RTCP's,
-- and its fields are those of RFC 3550 at their offsets.
pub parse_rtp_packet_header-Ensures :
    (packet : List ℕ) → Ensures (IsHeaderOf packet) (parse_rtp_packet_header packet)
unfolding parse_rtp_packet_header byte read_u16 read_u32
parse_rtp_packet_header-Ensures packet =
    Ensures->>= _ (IsHeaderOf packet) (inspect_rtp_packet_layout packet) _
      (inspect-first_bytes packet) λ l h. ground arith

pub record IsRtcpHeaderOf (packet : List ℕ) (h : RtcpPacketHeader) : Type 0 where
  pub version : at packet 0 / 64 ≡ 2
  pub padding : h.padding ≡ bit_set (at packet 0) 5
  pub count : h.count ≡ at packet 0 % 32
  pub packet_type : h.packet_type ≡ at packet 1
  pub rtcp_type : (192 ≤ at packet 1) × (at packet 1 ≤ 223)
  pub length_field : h.length ≡ u16_at packet 2
  pub size : h.packet_size ≡ (h.length + 1) * 4
  pub fits : h.packet_size ≤ length packet
  pub padded :
      (h.padding ≡ false)
      ⊎ (1 ≤ at packet (h.packet_size - 1)) × (at packet (h.packet_size - 1) + 4 ≤ h.packet_size)
  pub ssrc :
      (h.has_ssrc ≡ false) × (h.packet_size ≡ 4)
      ⊎ (h.has_ssrc ≡ true) × (8 ≤ h.packet_size) × (h.ssrc ≡ u32_at packet 4)

-- On any bytes `parse_rtcp_packet_header` ends without a read outside the packet. A header that it
-- returns has version 2, a type from 192 to 223, the flag, count and length of the first four bytes,
-- a size of four times the length plus one that the packet holds, a padding that is not empty and
-- leaves the header free, and an SSRC exactly if the size is above 4.
pub parse_rtcp_packet_header-Ensures :
    (packet : List ℕ) → Ensures (IsRtcpHeaderOf packet) (parse_rtcp_packet_header packet)
unfolding parse_rtcp_packet_header byte read_u16 read_u32
parse_rtcp_packet_header-Ensures packet = ground arith

-- A packet that is read as RTP is never read as RTCP: the RTCP parser refuses it for its type.
pub parse_rtp_packet_header-rtcp :
    (packet : List ℕ) {rtp : RtpPacketHeader}
    → parse_rtp_packet_header packet ≡ ok rtp
    → parse_rtcp_packet_header packet ≡ err "packet is not rtcp"
unfolding parse_rtcp_packet_header byte
parse_rtp_packet_header-rtcp packet e =
    let h = Ensures-eq_ok (IsHeaderOf packet) _ (parse_rtp_packet_header-Ensures packet) e in
    ground (arith, h.not_rtcp, h.long, h.version)
