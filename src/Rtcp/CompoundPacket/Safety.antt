-- ===== src/Rtcp/CompoundPacket/Safety.antt =====
-- `parse_rtcp_compound_packet` ends on any bytes, and its counters agree with its blocks.
use mathlib.Core.Path.{subst}
use simple_webrtc.Base.{
  All, All-append, ℕ, zero, suc, ◌+◌, ◌-◌, ◌*◌, ◌≡◌, ◌≤◌, ◌<◌, refl, ap, sym, ◌∙◌, Bool, not, ◌&&◌,
  List, [], ◌∷◌, ◌++◌, length, length-append, length-drop, drop, AreBytes-subspan, subspan, ltb,
  leb, ◌==◌, Ensures, Ensures->>=, Ensures-reject, Ensures-with_prefix, Ensures-if, AreBytes, arith,
}
use simple_webrtc.Rtp.Packet.{RtcpPacketHeader, parse_rtcp_packet_header}
use simple_webrtc.Rtp.Packet.Layout.{IsRtcpHeaderOf, parse_rtcp_packet_header-Ensures}
use simple_webrtc.Rtcp.CompoundBlock.{
  RtcpCompoundBlock, RtcpCompoundPacket, empty_packet, increment_if,
}
use simple_webrtc.Rtcp.CompoundPacket.{
  parse_block, parse_block_at, parse_blocks, parse_rtcp_compound_packet,
}
use simple_webrtc.Rtcp.CompoundPacket.Tally.{
  IsDistinct, IsOfOneKind, tally, tally-increment, increment_if-add, IsAdded, parse_block-Ensures,
}

-- The bytes of the blocks, by their length fields.
unfoldable pub block_bytes : List RtcpCompoundBlock → ℕ
block_bytes [] = 0
block_bytes (b ∷ bs) = (b.length + 1) * 4 + block_bytes bs

block_bytes-append :
    (bs : List RtcpCompoundBlock) (b : RtcpCompoundBlock)
    → block_bytes (bs ++ b ∷ []) ≡ block_bytes bs + (b.length + 1) * 4
unfolding block_bytes
block_bytes-append [] b = omega arith
block_bytes-append (x ∷ bs) b = omega (arith, block_bytes-append bs b)

-- Each block is of one kind, and the counters and lists agree with the blocks.
pub record IsTallied (p : RtcpCompoundPacket) : Type 0 where
  pub kinds : All IsOfOneKind p.blocks
  pub every :
      p.feedback_block_count
        + p.report_packet_count
        + p.sdes_packet_count
        + length p.bye_packets
        + p.unknown_block_count
      ≡ length p.blocks
  pub feedbacks : p.feedback_block_count ≡ tally (λ b. b.is_feedback) p.blocks
  pub reports : p.report_packet_count ≡ tally (λ b. b.is_report) p.blocks
  pub descriptions : p.sdes_packet_count ≡ tally (λ b. b.is_sdes) p.blocks
  pub byes : length p.bye_packets ≡ tally (λ b. b.is_bye) p.blocks
  pub unknowns : p.unknown_block_count ≡ tally (λ b. b.is_unknown) p.blocks
  pub sides : p.sender_report_count + p.receiver_report_count ≡ p.report_packet_count
  pub kept : length p.report_packets ≡ p.report_packet_count
  pub leaves : p.has_bye ≡ not (length p.bye_packets == 0)
  pub nacks : length p.nack_entries ≡ p.nack_count
  pub firs : length p.fir_entries ≡ p.fir_count
  pub distinct : IsDistinct p.keyframe_request_media_ssrcs

empty_packet-IsTallied : IsTallied empty_packet
unfolding empty_packet tally
empty_packet-IsTallied = record {
  kinds = tt;
  every = refl;
  feedbacks = refl;
  reports = refl;
  descriptions = refl;
  byes = refl;
  unknowns = refl;
  sides = refl;
  kept = refl;
  leaves = refl;
  nacks = refl;
  firs = refl;
  distinct = tt;
}

-- The packet with the block appended.
append-IsTallied :
    (header : RtcpPacketHeader) (p : RtcpCompoundPacket)
    (r : RtcpCompoundBlock × RtcpCompoundPacket)
    → IsTallied p
    → IsAdded header p r
    → IsTallied (record r.1 { blocks = r.1.blocks ++ r.0 ∷ [] })
append-IsTallied header p r t a = record {
  kinds =
      All-append IsOfOneKind r.1.blocks (r.0 ∷ []) (subst (All IsOfOneKind) (sym a.before) t.kinds)
        (a.kinds, tt);
  every = omega (
    arith,
    increment_if-add r.0.is_feedback p.feedback_block_count,
    increment_if-add r.0.is_report p.report_packet_count,
    increment_if-add r.0.is_sdes p.sdes_packet_count,
    increment_if-add r.0.is_bye (length p.bye_packets),
    increment_if-add r.0.is_unknown p.unknown_block_count,
    a,
    t,
    blocks,
  );
  feedbacks =
      a.feedbacks ∙ (ap (increment_if r.0.is_feedback) t.feedbacks ∙ appended (λ b. b.is_feedback));
  reports = a.reports ∙ (ap (increment_if r.0.is_report) t.reports ∙ appended (λ b. b.is_report));
  descriptions =
      a.descriptions ∙ (ap (increment_if r.0.is_sdes) t.descriptions ∙ appended (λ b. b.is_sdes));
  byes = a.byes ∙ (ap (increment_if r.0.is_bye) t.byes ∙ appended (λ b. b.is_bye));
  unknowns =
      a.unknowns ∙ (ap (increment_if r.0.is_unknown) t.unknowns ∙ appended (λ b. b.is_unknown));
  sides = a.sides ∙ (ap (increment_if r.0.is_report) t.sides ∙ sym a.reports);
  kept = a.kept ∙ (ap (increment_if r.0.is_report) t.kept ∙ sym a.reports);
  leaves = ground (arith, a.leaves, a.byes, t.leaves);
  nacks = a.nacks t.nacks;
  firs = a.firs t.firs;
  distinct = a.distinct t.distinct;
}
  where
    blocks : length (r.1.blocks ++ r.0 ∷ []) ≡ length p.blocks + 1
    blocks = omega (arith, length-append r.1.blocks (r.0 ∷ []), ap length a.before)

    appended :
        (kind : RtcpCompoundBlock → Bool)
        → increment_if (kind r.0) (tally kind p.blocks) ≡ tally kind (r.1.blocks ++ r.0 ∷ [])
    appended kind =
        tally-increment kind p.blocks r.0 ∙ ap (λ bs. tally kind (bs ++ r.0 ∷ [])) (sym a.before)

-- The packet after the bytes up to an offset.
abbrev IsUpTo : ℕ → RtcpCompoundPacket → Type 0
IsUpTo offset p = IsTallied p × (block_bytes p.blocks ≡ offset)

parse_block_at-Ensures :
    (bytes : List ℕ) (offset : ℕ) (p : RtcpCompoundPacket)
    → AreBytes bytes
    → offset < length bytes
    → IsUpTo offset p
    → Ensures
        (λ r. (4 ≤ r.0) × (offset + r.0 ≤ length bytes) × IsUpTo (offset + r.0) r.1)
        (parse_block_at bytes offset p)
unfolding parse_block_at
parse_block_at-Ensures bytes offset p b l u =
    Ensures-reject _ (ltb (length bytes - offset) 4) _ _ λ e.
      Ensures-with_prefix (IsRtcpHeaderOf (drop offset bytes)) _ _
        (parse_rtcp_packet_header (drop offset bytes)) _
        (parse_rtcp_packet_header-Ensures (drop offset bytes))
        λ header h. Ensures-reject _ (header.packet_size == 0) _ _ λ z.
          Ensures-reject _ (ltb (length (drop offset bytes)) header.packet_size) _ _ λ f.
            Ensures-reject _ (header.padding && not (offset + header.packet_size == length bytes)) _
              _
              λ g.
                Ensures->>= (IsAdded header p) _
                  (parse_block (subspan bytes offset header.packet_size) header p) _
                  (parse_block-Ensures (subspan bytes offset header.packet_size) header p
                    (AreBytes-subspan bytes offset header.packet_size b))
                  λ r a. (
                    omega (arith, h.size),
                    omega (arith, h.fits, length-drop offset bytes),
                    (
                      append-IsTallied header p r u.0 a,
                      omega (
                        arith,
                        block_bytes-append r.1.blocks r.0,
                        ap block_bytes a.before,
                        u.1,
                        a.size,
                        h.size,
                      ),
                    ),
                  )

all_read :
    (bytes : List ℕ) (offset : ℕ) (p : RtcpCompoundPacket)
    → offset ≤ length bytes
    → length bytes ≤ offset
    → IsUpTo offset p
    → IsUpTo (length bytes) p
all_read bytes offset p l f u = (u.0, u.1 ∙ omega arith)

parse_blocks-Ensures :
    (bytes : List ℕ) (fuel offset : ℕ) (p : RtcpCompoundPacket)
    → AreBytes bytes
    → offset ≤ length bytes
    → length bytes ≤ offset + fuel
    → IsUpTo offset p
    → Ensures (IsUpTo (length bytes)) (parse_blocks bytes fuel offset p)
unfolding parse_blocks
parse_blocks-Ensures bytes zero offset p b l f u =
    Ensures-if _ (leb (length bytes) offset) _ _ (λ e. all_read bytes offset p l (omega arith) u)
      λ e. absurd (ground arith)
parse_blocks-Ensures bytes (suc fuel) offset p b l f u =
    Ensures-if _ (leb (length bytes) offset) _ _ (λ e. all_read bytes offset p l (ground arith) u)
      λ e.
        Ensures->>= (λ r. (4 ≤ r.0) × (offset + r.0 ≤ length bytes) × IsUpTo (offset + r.0) r.1) _
          (parse_block_at bytes offset p) _
          (parse_block_at-Ensures bytes offset p b (ground arith) u)
          λ r v. parse_blocks-Ensures bytes fuel (offset + r.0) r.1 b v.1 (omega arith) v.2

-- On any bytes `parse_rtcp_compound_packet` ends, without a read outside them. The blocks of a packet
-- that it returns fill the datagram by their length fields, and there is one at least. Of each block
-- exactly one of the flags for feedback, report, SDES, BYE and unknown is set, and the counts of the
-- kinds are the numbers of the blocks with that flag; sender and receiver
-- reports together are the reports, and all are kept; `has_bye` tells whether there is a BYE packet.
-- The entries of NACKs and of full intra requests are as many as their counts, and no source stands
-- twice among those that are asked for a key frame.
pub parse_rtcp_compound_packet-Ensures :
    (bytes : List ℕ)
    → AreBytes bytes
    → Ensures
        (λ p. IsTallied p × (block_bytes p.blocks ≡ length bytes) × (0 < length p.blocks))
        (parse_rtcp_compound_packet bytes)
unfolding parse_rtcp_compound_packet
parse_rtcp_compound_packet-Ensures bytes b = Ensures-reject _ (length bytes == 0) _ _ λ e.
    Ensures->>= (IsUpTo (length bytes)) _ (parse_blocks bytes (length bytes) 0 empty_packet) _
      (parse_blocks-Ensures bytes (length bytes) 0 empty_packet b (omega arith) (omega arith)
        (empty_packet-IsTallied, unfold empty_packet block_bytes in refl))
      λ p u. Ensures-reject _ (length p.blocks == 0) _ _ λ f. (u.0, u.1, ground (arith, f))
