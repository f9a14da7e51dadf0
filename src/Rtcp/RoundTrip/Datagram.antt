-- ===== src/Rtcp/RoundTrip/Datagram.antt =====
-- A report with the name of its source: built and joined by rtcp_packet_builder.cpp, split and parsed
-- by rtcp_compound_packet.cpp.
use simple_webrtc.Base.{
  ℕ, ◌+◌, ◌*◌, ◌==◌, ◌≤◌, ◌<◌, ◌≡◌, ◌≢◌, refl, ap, sym, ◌∙◌, inl, true, false, List, [], ◌∷◌, ◌++◌,
  length, length-append, All, ok, ◌>>=◌, at, bit_set, Ensures-eq_ok, arith,
}
use simple_webrtc.Rtp.Packet.{parse_rtcp_packet_header}
use simple_webrtc.Rtp.Packet.Layout.{IsRtcpHeaderOf, parse_rtcp_packet_header-Ensures}
use simple_webrtc.Rtcp.Report.{
  is_rtcp_report_packet, is_report_packet_type, parse_rtcp_report_packet,
}
use simple_webrtc.Rtcp.Feedback.{is_rtcp_feedback_packet, is_feedback_packet_type}
use simple_webrtc.Rtcp.Builder.{
  RtcpSenderReportData, build_rtcp_sender_report, build_rtcp_sdes_cname,
}
use simple_webrtc.Rtcp.Builder.Bytes.{sender_report_bytes, build_rtcp_sender_report-bytes}
use simple_webrtc.Rtcp.Builder.Compound.{build_rtcp_compound_packet, join}
use simple_webrtc.Rtcp.Builder.Compound.Members.{
  IsMember, IsCompound, build_rtcp_compound_packet-total,
}
use simple_webrtc.Rtcp.RoundTrip.Blocks.{IsU32, IsBlock, report_header, blocks-LossFits}
use simple_webrtc.Rtcp.RoundTrip.Sender.{
  sender_report_packet, length-sender_report_bytes, header-sender_report_bytes,
  parse-build_sender_report,
}
use simple_webrtc.Rtcp.RoundTrip.Sdes.{
  sdes_size, sdes_bytes, cname_chunk, build_rtcp_sdes_cname-bytes, length-sdes_bytes,
  header-sdes_bytes, parse-build_rtcp_sdes_cname,
}
use simple_webrtc.Rtcp.SdesBye.{parse_rtcp_sdes_packet}
use simple_webrtc.Rtcp.CompoundBlock.{
  RtcpCompoundPacket, empty_packet, make_block_from_header, aggregate_report_packet,
}
use simple_webrtc.Rtcp.CompoundPacket.{
  parse_block, parse_report_block, parse_sdes_block, parse_rtcp_compound_packet,
}
use simple_webrtc.Rtcp.CompoundPacket.MemberHeader.{IsWhole}
use simple_webrtc.Rtcp.CompoundPacket.Members.{
  AreWhole, parse_member, parse_members, parse_rtcp_compound_packet-join,
}

-- The fields of a sender report fit their widths.
pub record IsSendable (r : RtcpSenderReportData) : Type 0 where
  pub nonzero : r.sender_ssrc ≢ 0
  pub sender : IsU32 r.sender_ssrc
  pub few : length r.report_blocks ≤ 31
  pub blocks : All IsBlock r.report_blocks
  pub ntp : r.ntp_timestamp < 18446744073709551616
  pub rtp : IsU32 r.rtp_timestamp
  pub packets : IsU32 r.sender_packet_count
  pub octets : IsU32 r.sender_octet_count

pub record IsName (cname : List ℕ) : Type 0 where
  pub named : 0 < length cname
  pub short : length cname < 256

-- A packet whose header is `report_header` is whole.
report_header-IsWhole :
    (count packet_type size ssrc : ℕ) (packet : List ℕ)
    → parse_rtcp_packet_header packet ≡ ok (report_header count packet_type size ssrc)
    → size ≡ length packet
    → 8 ≤ size
    → IsWhole packet (report_header count packet_type size ssrc)
unfolding report_header
report_header-IsWhole count packet_type size ssrc packet e l h = record {
  parsed = e;
  unpadded = refl;
  sized = l;
  long = omega arith;
}

-- The same for the builder of compound packets.
report_header-IsMember :
    (count packet_type size ssrc : ℕ) (packet : List ℕ)
    → parse_rtcp_packet_header packet ≡ ok (report_header count packet_type size ssrc)
    → size ≡ length packet
    → 8 ≤ size
    → IsMember packet × (at packet 1 ≡ packet_type) × (bit_set (at packet 0) 5 ≡ false)
unfolding report_header
report_header-IsMember count packet_type size ssrc packet e l h =
    let v = Ensures-eq_ok (IsRtcpHeaderOf packet) _ (parse_rtcp_packet_header-Ensures packet) e in
    (
      record {
        long = omega arith;
        version = v.version;
        sized = omega (arith, v.size, v.length_field);
      },
      sym v.packet_type,
      sym v.padding,
    )

header_kinds-feedback :
    (packet : List ℕ) (count packet_type size ssrc : ℕ)
    → parse_rtcp_packet_header packet ≡ ok (report_header count packet_type size ssrc)
    → is_rtcp_feedback_packet packet ≡ ok (is_feedback_packet_type packet_type)
unfolding is_rtcp_feedback_packet report_header
header_kinds-feedback packet count packet_type size ssrc e = ground (arith, e)

header_kinds-report :
    (packet : List ℕ) (count packet_type size ssrc : ℕ)
    → parse_rtcp_packet_header packet ≡ ok (report_header count packet_type size ssrc)
    → is_rtcp_report_packet packet ≡ ok (is_report_packet_type packet_type)
unfolding is_rtcp_report_packet report_header
header_kinds-report packet count packet_type size ssrc e = ground (arith, e)

module _ (r : RtcpSenderReportData) (v : IsSendable r) (ssrc : ℕ) (cname : List ℕ)
    (n : IsName cname) (s : ssrc ≢ 0) (u : IsU32 ssrc) where
  report_size : ℕ
  report_size = 28 + length r.report_blocks * 24

  built-report : build_rtcp_sender_report r ≡ ok (sender_report_bytes r)
  built-report =
      build_rtcp_sender_report-bytes r (v.nonzero, v.few, blocks-LossFits r.report_blocks v.blocks)

  built-name : build_rtcp_sdes_cname ssrc cname ≡ ok (sdes_bytes ssrc cname)
  built-name = build_rtcp_sdes_cname-bytes ssrc cname s n.named n.short

  parsed-report : parse_rtcp_report_packet (sender_report_bytes r) ≡ ok (sender_report_packet r)
  parsed-report =
      ap (λ m. m >>= parse_rtcp_report_packet) (sym built-report)
      ∙ parse-build_sender_report r v.nonzero v.sender v.few v.blocks v.ntp v.rtp v.packets v.octets

  parsed-name : parse_rtcp_sdes_packet (sdes_bytes ssrc cname) ≡ ok (cname_chunk ssrc cname ∷ [])
  parsed-name =
      ap (λ m. m >>= parse_rtcp_sdes_packet) (sym built-name)
      ∙ parse-build_rtcp_sdes_cname ssrc cname s u n.named n.short

  -- The packet with the report, and with the name behind it.
  with_report : RtcpCompoundPacket → RtcpCompoundPacket
  with_report p = record (aggregate_report_packet (sender_report_packet r) p) {
    blocks =
        (aggregate_report_packet (sender_report_packet r) p).blocks
        ++ record (make_block_from_header
            (report_header (length r.report_blocks) 200 report_size r.sender_ssrc)) {
              is_report = true;
            }
          ∷ [];
  }

  with_name : RtcpCompoundPacket → RtcpCompoundPacket
  with_name p = record p {
    sdes_packet_count = p.sdes_packet_count + 1;
    sdes_chunks = p.sdes_chunks ++ cname_chunk ssrc cname ∷ [];
    blocks =
        p.blocks
        ++ record (make_block_from_header (report_header 1 202 (sdes_size ssrc cname) ssrc)) {
          is_sdes = true;
        }
          ∷ [];
  }

  member-report :
      (p : RtcpCompoundPacket) → parse_member (sender_report_bytes r) p ≡ ok (with_report p)
  unfolding parse_member parse_block parse_report_block with_report report_size
      is_feedback_packet_type is_report_packet_type
  member-report p =
      rw (header-sender_report_bytes r v.sender v.few, feedback, report, parsed-report) refl
    where
      feedback : is_rtcp_feedback_packet (sender_report_bytes r) ≡ ok false
      feedback = header_kinds-feedback _ _ _ _ _ (header-sender_report_bytes r v.sender v.few)

      report : is_rtcp_report_packet (sender_report_bytes r) ≡ ok true
      report = header_kinds-report _ _ _ _ _ (header-sender_report_bytes r v.sender v.few)

  member-name : (p : RtcpCompoundPacket) → parse_member (sdes_bytes ssrc cname) p ≡ ok (with_name p)
  unfolding parse_member parse_block parse_sdes_block with_name is_feedback_packet_type
      is_report_packet_type
  member-name p =
      rw (header-sdes_bytes ssrc cname n.short u, feedback, report, sdes, parsed-name) refl
    where
      feedback : is_rtcp_feedback_packet (sdes_bytes ssrc cname) ≡ ok false
      feedback = header_kinds-feedback _ _ _ _ _ (header-sdes_bytes ssrc cname n.short u)

      report : is_rtcp_report_packet (sdes_bytes ssrc cname) ≡ ok false
      report = header_kinds-report _ _ _ _ _ (header-sdes_bytes ssrc cname n.short u)

      sdes : ((report_header 1 202 (sdes_size ssrc cname) ssrc).packet_type == 202) ≡ true
      sdes = unfold report_header in refl

  datagram-IsCompound :
      (maximum_size : ℕ)
      → report_size + sdes_size ssrc cname ≤ maximum_size
      → IsCompound (sender_report_bytes r ∷ sdes_bytes ssrc cname ∷ []) maximum_size
  unfolding report_size join
  datagram-IsCompound maximum_size fits =
      let a =
        report_header-IsMember (length r.report_blocks) 200 report_size r.sender_ssrc
          (sender_report_bytes r) (header-sender_report_bytes r v.sender v.few)
          (length-sender_report_bytes r) (omega arith) in
      let b =
        report_header-IsMember 1 202 (sdes_size ssrc cname) ssrc (sdes_bytes ssrc cname)
          (header-sdes_bytes ssrc cname n.short u) (sym (length-sdes_bytes ssrc cname))
          (omega arith) in
      record {
        report = inl a.1;
        members = (a.0, inl a.2, (b.0, inl b.2, tt));
        sdes = ground (arith, b.1);
        fits = omega (
          arith,
          fits,
          length-append (sender_report_bytes r) (sdes_bytes ssrc cname ++ []),
          length-append (sdes_bytes ssrc cname) [],
          length-sender_report_bytes r,
          length-sdes_bytes ssrc cname,
        );
      }

-- A sender report of a nonzero sender, whose fields fit, and a nonzero source with a name of 1 to 255
-- bytes, are built and joined to a compound packet where they fit its maximum size, and parsing the
-- datagram gives two blocks, the report and the name, as they were given, and nothing else: no
-- feedback and no BYE packet.
pub parse-build_rtcp_compound_packet :
    (r : RtcpSenderReportData) (ssrc : ℕ) (cname : List ℕ) (maximum_size : ℕ)
    → IsSendable r
    → IsName cname
    → ssrc ≢ 0
    → IsU32 ssrc
    → 28 + length r.report_blocks * 24 + sdes_size ssrc cname ≤ maximum_size
    → (p : RtcpCompoundPacket) × ((do
      report ← build_rtcp_sender_report r
      name ← build_rtcp_sdes_cname ssrc cname
      datagram ← build_rtcp_compound_packet (report ∷ name ∷ []) maximum_size
      parse_rtcp_compound_packet datagram)
        ≡ ok p)
      × (p.report_packets ≡ sender_report_packet r ∷ [])
      × (p.sdes_chunks ≡ cname_chunk ssrc cname ∷ [])
      × (length p.blocks ≡ 2)
      × (p.has_feedback ≡ false)
      × (p.has_bye ≡ false)
parse-build_rtcp_compound_packet r ssrc cname maximum_size v n s u fits = (
  with_name r v ssrc cname n s u (with_report r v ssrc cname n s u empty_packet),
  parsed,
  (unfold with_name with_report empty_packet aggregate_report_packet in refl),
  (unfold with_name with_report empty_packet aggregate_report_packet in refl),
  (unfold with_name with_report empty_packet aggregate_report_packet in refl),
  (unfold with_name with_report empty_packet aggregate_report_packet in refl),
  (unfold with_name with_report empty_packet aggregate_report_packet in refl),
)
  where
    whole : AreWhole (sender_report_bytes r ∷ sdes_bytes ssrc cname ∷ [])
    whole = (
      (
        _,
        report_header-IsWhole _ _ _ _ _ (header-sender_report_bytes r v.sender v.few)
            (length-sender_report_bytes r) (omega arith),
      ),
      (
        (
          _,
          report_header-IsWhole _ _ _ _ _ (header-sdes_bytes ssrc cname n.short u)
              (sym (length-sdes_bytes ssrc cname)) (omega arith),
        ),
        tt,
      ),
    )

    parsed :
        (do
          report ← build_rtcp_sender_report r
          name ← build_rtcp_sdes_cname ssrc cname
          datagram ← build_rtcp_compound_packet (report ∷ name ∷ []) maximum_size
          parse_rtcp_compound_packet datagram)
        ≡ ok (with_name r v ssrc cname n s u (with_report r v ssrc cname n s u empty_packet))
    parsed =
        rw
          (
            built-report r v ssrc cname n s u,
            built-name r v ssrc cname n s u,
            build_rtcp_compound_packet-total (sender_report_bytes r ∷ sdes_bytes ssrc cname ∷ [])
                maximum_size
                (datagram-IsCompound r v ssrc cname n s u maximum_size
                  (unfold report_size in fits)),
            parse_rtcp_compound_packet-join (sender_report_bytes r ∷ sdes_bytes ssrc cname ∷ [])
                (omega arith) whole,
          )
          (unfold parse_members in
            rw
              (
                member-report r v ssrc cname n s u empty_packet,
                member-name r v ssrc cname n s u (with_report r v ssrc cname n s u empty_packet),
              )
              refl)
