-- ===== src/Rtcp/CompoundPacket/MemberHeader.antt =====
-- The header of a packet is read alike alone and in front of other packets.
use simple_webrtc.Base.{
  ℕ, ◌+◌, ◌*◌, ◌/◌, ◌%◌, ◌≡◌, ◌≤◌, ◌<◌, refl, sym, ◌∙◌, true, false, List, ◌++◌, length,
  length-append, ltb, leb, ◌==◌, ok, Ensures-eq_ok, read_u16-at, read_u32-at, byte, byte-at, at,
  at-append_left, read_u16, read_u32, u16_at, u32_at, bit_set, arith,
}
use simple_webrtc.Rtp.Packet.{RtcpPacketHeader, parse_rtcp_packet_header}
use simple_webrtc.Rtp.Packet.Layout.{IsRtcpHeaderOf, parse_rtcp_packet_header-Ensures}

byte-front : (xs ys : List ℕ) (i : ℕ) → i < length xs → byte (xs ++ ys) i ≡ byte xs i
unfolding byte
byte-front xs ys i h = ground (arith, at-append_left xs ys i h, length-append xs ys)

-- A packet without padding that is as long as its header says, with a source.
pub record IsWhole (packet : List ℕ) (header : RtcpPacketHeader) : Type 0 where
  pub parsed : parse_rtcp_packet_header packet ≡ ok header
  pub unpadded : header.padding ≡ false
  pub sized : header.packet_size ≡ length packet
  pub long : 8 ≤ length packet

-- What is read of the first bytes.
abbrev IsFront : List ℕ → List ℕ → Type 0
IsFront packet p =
    (length packet ≤ length p)
    × (byte p 0 ≡ ok (at packet 0))
    × (byte p 1 ≡ ok (at packet 1))
    × (read_u16 p 2 ≡ ok (u16_at packet 2))
    × (read_u32 p 4 ≡ ok (u32_at packet 4))

IsFront-append : (packet rest : List ℕ) → 8 ≤ length packet → IsFront packet (packet ++ rest)
unfolding read_u16 read_u32
IsFront-append packet rest h = (
  omega (arith, length-append packet rest),
  read 0 (omega arith),
  read 1 (omega arith),
  (rw (read 2 (omega arith), read 3 (omega arith)) refl),
  (rw (read 4 (omega arith), read 5 (omega arith), read 6 (omega arith), read 7 (omega arith))
      refl),
)
  where
    read : (i : ℕ) → i < 8 → byte (packet ++ rest) i ≡ ok (at packet i)
    read i l = byte-front packet rest i (omega arith) ∙ byte-at packet i (omega arith)

-- The header that these bytes give.
header_of : List ℕ → RtcpPacketHeader
header_of packet = record {
  padding = false;
  count = at packet 0 % 32;
  packet_type = at packet 1;
  length = u16_at packet 2;
  packet_size = (u16_at packet 2 + 1) * 4;
  has_ssrc = true;
  ssrc = u32_at packet 4;
}

header-from_bytes :
    (packet p : List ℕ)
    → IsFront packet p
    → at packet 0 / 64 ≡ 2
    → 192 ≤ at packet 1
    → at packet 1 ≤ 223
    → bit_set (at packet 0) 5 ≡ false
    → (u16_at packet 2 + 1) * 4 ≡ length packet
    → 8 ≤ length packet
    → parse_rtcp_packet_header p ≡ ok (header_of packet)
unfolding parse_rtcp_packet_header header_of
header-from_bytes packet p f v lo hi pad sz long = ground (arith, f, v, pad, tests)
  where
    tests :
        (ltb (length p) 4 ≡ false)
        × ((length p == 0) ≡ false)
        × (ltb (length p) 2 ≡ false)
        × (ltb (length p) ((u16_at packet 2 + 1) * 4) ≡ false)
        × (leb 8 ((u16_at packet 2 + 1) * 4) ≡ true)
    tests = ground (arith, f.0)

same-IsFront : (packet : List ℕ) → 8 ≤ length packet → IsFront packet packet
same-IsFront packet h = (
  omega arith,
  byte-at packet 0 (omega arith),
  byte-at packet 1 (omega arith),
  read_u16-at packet 2 (omega arith),
  read_u32-at packet 4 (omega arith),
)

-- A header does not depend on what stands behind its packet.
pub parse_rtcp_packet_header-append :
    (packet rest : List ℕ) (header : RtcpPacketHeader)
    → IsWhole packet header
    → parse_rtcp_packet_header (packet ++ rest) ≡ ok header
parse_rtcp_packet_header-append packet rest header w =
    from (packet ++ rest) (IsFront-append packet rest w.long)
    ∙ (sym (from packet (same-IsFront packet w.long)) ∙ w.parsed)
  where
    h : IsRtcpHeaderOf packet header
    h = Ensures-eq_ok (IsRtcpHeaderOf packet) _ (parse_rtcp_packet_header-Ensures packet) w.parsed

    from : (p : List ℕ) → IsFront packet p → parse_rtcp_packet_header p ≡ ok (header_of packet)
    from p f =
        header-from_bytes packet p f h.version h.rtcp_type.0 h.rtcp_type.1
          (sym h.padding ∙ w.unpadded) (omega (arith, h.size, h.length_field, w.sized)) w.long
