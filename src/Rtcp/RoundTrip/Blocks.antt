-- ===== src/Rtcp/RoundTrip/Blocks.antt =====
-- Report blocks and the common header, written by rtcp_packet_builder.cpp and read by
-- rtcp_report.cpp and rtp_packet.cpp.
use mathlib.Core.List.{append_assoc}
use simple_webrtc.Base.{
  ℕ, ◌+◌, ◌-◌, ◌/◌, ◌%◌, ◌≤◌, ◌<◌, ◌≡◌, refl, true, false, List, [], ◌∷◌, ◌++◌, length, All,
  length-append, ok, byte, byte-append, read_u32-append, at, read_u16, read_u32, u32_bytes, arith,
}
use simple_webrtc.Base.Int.{ℤ, pos, negsuc, lt_neg, gt_pos, u32_of_i32}
use simple_webrtc.Rtp.Packet.{RtcpPacketHeader, parse_rtcp_packet_header}
use simple_webrtc.Rtcp.Report.{
  RtcpReportBlock, sign_extend_24, read_i24, parse_report_block, parse_report_blocks,
  rtcp_report_payload_end,
}
use simple_webrtc.Rtcp.Builder.Bytes.{common_header, block_bytes, blocks_bytes, LossFits}

abbrev pub IsU32 : ℕ → Type 0
IsU32 v = v < 4294967296

pub record IsBlock (b : RtcpReportBlock) : Type 0 where
  pub source : IsU32 b.source_ssrc
  pub fraction : b.fraction_lost < 256
  pub loss : LossFits b
  pub highest : IsU32 b.extended_highest_sequence_number
  pub jitter : IsU32 b.jitter
  pub last : IsU32 b.last_sender_report
  pub delay : IsU32 b.delay_since_last_sender_report

-- A loss that fits 24 bits is read back with its sign.
pub sign_extend_24-u24 :
    (c : ℤ)
    → lt_neg c 8388608 ≡ false
    → gt_pos c 8388607 ≡ false
    → sign_extend_24 (u32_of_i32 c % 16777216) ≡ c
unfolding sign_extend_24
sign_extend_24-u24 (pos n) h k = ground arith
sign_extend_24-u24 (negsuc n) h k = ground arith

parse_report_block-append :
    (front rest : List ℕ) (offset : ℕ)
    → offset ≡ length front
    → parse_report_block (front ++ rest) offset ≡ parse_report_block rest 0
unfolding parse_report_block read_i24
parse_report_block-append front rest offset h = rw (
  read_u32-append front rest 0 offset (omega arith),
  byte-append front rest 4 (offset + 4) (omega arith),
  byte-append front rest 5 (offset + 5) (omega arith),
  byte-append front rest 6 (offset + 5 + 1) (omega arith),
  byte-append front rest 7 (offset + 5 + 2) (omega arith),
  read_u32-append front rest 8 (offset + 8) (omega arith),
  read_u32-append front rest 12 (offset + 12) (omega arith),
  read_u32-append front rest 16 (offset + 16) (omega arith),
  read_u32-append front rest 20 (offset + 20) (omega arith),
)

parse_report_block-bytes :
    (b : RtcpReportBlock) (rest : List ℕ)
    → IsBlock b
    → parse_report_block (block_bytes b ++ rest) 0 ≡ ok b
unfolding parse_report_block read_i24 read_u32 byte block_bytes at
parse_report_block-bytes b rest h = ground (arith, sign_extend_24-u24 b.cumulative_lost)

pub parse_report_blocks-bytes :
    (front : List ℕ) (offset : ℕ) (bs : List RtcpReportBlock)
    → offset ≡ length front
    → All IsBlock bs
    → parse_report_blocks (front ++ blocks_bytes bs) offset (length bs) ≡ ok bs
unfolding parse_report_blocks blocks_bytes
parse_report_blocks-bytes front offset [] e h = refl
parse_report_blocks-bytes front offset (b ∷ bs) e h = rw (
  parse_report_block-append front (block_bytes b ++ blocks_bytes bs) offset e,
  parse_report_block-bytes b (blocks_bytes bs) h.0,
  tail (
      parse_report_blocks-bytes (front ++ block_bytes b) (offset + 24) bs
        (omega (arith, length-append front (block_bytes b), block)) h.1),
)
  where
    block : length (block_bytes b) ≡ 24
    block = unfold block_bytes in refl

    tail :
        parse_report_blocks ((front ++ block_bytes b) ++ blocks_bytes bs) (offset + 24) (length bs)
          ≡ ok bs
        → parse_report_blocks (front ++ blocks_bytes (b ∷ bs)) (offset + 24) (length bs) ≡ ok bs
    tail h = rw append_assoc at h

pub blocks-LossFits : (bs : List RtcpReportBlock) → All IsBlock bs → All LossFits bs
blocks-LossFits [] h = tt
blocks-LossFits (b ∷ bs) h = (h.0.loss, blocks-LossFits bs h.1)

-- A header of `count` and `packet_type` in front of `body`, of which the sender comes first.
unfoldable pub report_header : ℕ → ℕ → ℕ → ℕ → RtcpPacketHeader
report_header count packet_type size ssrc = record {
  padding = false;
  count = count;
  packet_type = packet_type;
  length = size / 4 - 1;
  packet_size = size;
  has_ssrc = true;
  ssrc = ssrc;
}

pub parse_rtcp_packet_header-bytes :
    (count packet_type size ssrc : ℕ) (body : List ℕ)
    → count ≤ 31
    → 192 ≤ packet_type
    → packet_type ≤ 223
    → size ≡ 8 + length body
    → size % 4 ≡ 0
    → size ≤ 262144
    → IsU32 ssrc
    → parse_rtcp_packet_header ((common_header count packet_type size ++ u32_bytes ssrc) ++ body)
      ≡ ok (report_header count packet_type size ssrc)
unfolding parse_rtcp_packet_header read_u16 read_u32 byte at common_header report_header
parse_rtcp_packet_header-bytes count packet_type size ssrc body c lo hi e m l u = ground arith

pub payload_end-report_header :
    (count packet_type size ssrc : ℕ) (packet : List ℕ)
    → size ≡ length packet
    → rtcp_report_payload_end (report_header count packet_type size ssrc) packet ≡ ok size
unfolding rtcp_report_payload_end report_header
payload_end-report_header count packet_type size ssrc packet e = ground arith
