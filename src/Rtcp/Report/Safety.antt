-- ===== src/Rtcp/Report/Safety.antt =====
-- Every read of rtcp_report.cpp is inside the packet, on any input.
use simple_webrtc.Base.{
  ℕ, zero, suc, ◌+◌, ◌-◌, ◌*◌, ◌≤◌, ◌≡◌, List, Bool, length, Option, IsSafe, Ensures, Ensures->>=,
  Ensures-reject, Ensures-mono, ◌%◌, not, bit_set, if◌then◌else◌, ◌==◌, ◌||◌, u16_at, ◌≢◌, byte, at,
  read_u32, u32_at, arith, some, none, ◌⊎◌,
}
use simple_webrtc.Rtp.Packet.{RtcpPacketHeader, parse_rtcp_packet_header}
use simple_webrtc.Rtp.Packet.Layout.{IsRtcpHeaderOf, parse_rtcp_packet_header-Ensures}
use simple_webrtc.Rtcp.Report.{
  RtcpReportPacket, RtcpSenderInfo, parse_report_block, parse_report_blocks, read_i24,
  parse_sender_info, parse_optional_sender_info, parse_report_payload, parse_rtcp_report_packet,
  rtcp_report_payload_end,
}

parse_report_block-IsSafe :
    (packet : List ℕ) (offset : ℕ)
    → offset + 24 ≤ length packet
    → IsSafe (parse_report_block packet offset)
unfolding parse_report_block read_i24 read_u32 byte
parse_report_block-IsSafe packet offset h = ground arith

parse_report_blocks-Ensures :
    (packet : List ℕ) (offset n : ℕ)
    → offset + n * 24 ≤ length packet
    → Ensures (λ bs. length bs ≡ n) (parse_report_blocks packet offset n)
unfolding parse_report_blocks
parse_report_blocks-Ensures packet offset zero h = ground arith
parse_report_blocks-Ensures packet offset (suc n) h = ground (
  arith,
  parse_report_block-IsSafe packet offset,
  parse_report_blocks-Ensures packet (offset + 24) n,
)

parse_sender_info-IsSafe :
    (packet : List ℕ) (offset : ℕ)
    → offset + 20 ≤ length packet
    → IsSafe (parse_sender_info packet offset)
unfolding parse_sender_info read_u32 byte
parse_sender_info-IsSafe packet offset h = ground arith

-- The fixed part in front of the report blocks: 28 bytes in a sender report, 8 in the other.
abbrev pub report_header_size : Option RtcpSenderInfo → ℕ
report_header_size none = 8
report_header_size (some info) = 28

abbrev pub FitsType : ℕ → Option RtcpSenderInfo → Type 0
FitsType packet_type none = packet_type ≢ 200
FitsType packet_type (some info) = packet_type ≡ 200

parse_optional_sender_info-Ensures :
    (packet : List ℕ) (packet_type payload_end : ℕ)
    → payload_end ≤ length packet
    → Ensures
        (λ r. FitsType packet_type r.0 × (r.1 ≡ report_header_size r.0))
        (parse_optional_sender_info packet packet_type payload_end)
unfolding parse_optional_sender_info
parse_optional_sender_info-Ensures packet packet_type payload_end h =
    ground (arith, parse_sender_info-IsSafe packet 8)

-- What a parsed report says of its packet; `payload_end` is where its padding begins.
pub record IsReportOf (packet : List ℕ) (header : RtcpPacketHeader) (payload_end : ℕ)
    (r : RtcpReportPacket) : Type 0 where
  pub type_of : r.packet_type ≡ header.packet_type
  pub info : FitsType header.packet_type r.sender_info
  pub sender : r.sender_ssrc ≡ u32_at packet 4
  pub blocks : length r.report_blocks ≡ header.count
  pub exact : report_header_size r.sender_info + length r.report_blocks * 24 ≡ payload_end

pub parse_report_payload-Ensures :
    (packet : List ℕ) (header : RtcpPacketHeader) (payload_end : ℕ)
    → payload_end ≤ length packet
    → Ensures
        (IsReportOf packet header payload_end)
        (parse_report_payload packet header payload_end)
unfolding parse_report_payload read_u32 byte
parse_report_payload-Ensures packet header payload_end h = ground (
  arith,
  parse_optional_sender_info-Ensures packet header.packet_type payload_end,
  parse_report_blocks-Ensures packet 8 header.count,
  parse_report_blocks-Ensures packet 28 header.count,
)

abbrev pub padding_of : List ℕ → Bool → ℕ → ℕ
padding_of packet padding size = if padding then at packet (size - 1) else 0

pub record IsPayloadEnd (packet : List ℕ) (header : RtcpPacketHeader) (e : ℕ) : Type 0 where
  pub low : 4 ≤ e
  pub rest : e + padding_of packet header.padding header.packet_size ≡ header.packet_size
  pub inside : header.packet_size ≤ length packet

pub rtcp_report_payload_end-Ensures :
    (packet : List ℕ) (header : RtcpPacketHeader)
    → 4 ≤ header.packet_size
    → Ensures (IsPayloadEnd packet header) (rtcp_report_payload_end header packet)
unfolding rtcp_report_payload_end byte
rtcp_report_payload_end-Ensures packet header h = ground arith

-- What a parsed report says of the bytes: its size in bytes is that of the length field.
pub record IsReport (packet : List ℕ) (r : RtcpReportPacket) : Type 0 where
  pub report_type : (r.packet_type ≡ 200) ⊎ (r.packet_type ≡ 201)
  pub type_of : r.packet_type ≡ at packet 1
  pub info : FitsType r.packet_type r.sender_info
  pub sender : r.sender_ssrc ≡ u32_at packet 4
  pub blocks : length r.report_blocks ≡ at packet 0 % 32
  pub size :
      report_header_size r.sender_info
        + length r.report_blocks * 24
        + padding_of packet (bit_set (at packet 0) 5) ((u16_at packet 2 + 1) * 4)
      ≡ (u16_at packet 2 + 1) * 4

-- On any bytes `parse_rtcp_report_packet` ends without a read outside the packet. A report that it
-- returns has type 200 and sender info, or type 201 and none; its sender stands in bytes 4 to 7, it
-- has as many blocks as the header counts, and it fills the packet up to the padding.
pub parse_rtcp_report_packet-Ensures :
    (packet : List ℕ) → Ensures (IsReport packet) (parse_rtcp_report_packet packet)
unfolding parse_rtcp_report_packet
parse_rtcp_report_packet-Ensures packet =
    Ensures->>= (IsRtcpHeaderOf packet) _ (parse_rtcp_packet_header packet) _
      (parse_rtcp_packet_header-Ensures packet)
      λ header h.
        Ensures-reject _ (not (header.packet_type == 200 || header.packet_type == 201)) _ _ λ e.
          Ensures->>= (IsPayloadEnd packet header) _ (rtcp_report_payload_end header packet) _
            (rtcp_report_payload_end-Ensures packet header (omega arith))
            λ payload_end k.
              Ensures-mono (IsReportOf packet header payload_end) _ _
                (parse_report_payload-Ensures packet header payload_end (omega arith))
                λ r v. ground arith
