-- ===== src/Tests/Compound.antt =====
-- The theorems on rtcp_compound_packet.cpp at concrete packets.
use simple_webrtc.Base.{
  ℕ, ◌≡◌, ◌<◌, refl, true, false, List, [], ◌∷◌, ◌>>=◌, ok, length, Ensures, byte, at, read_u16,
  read_u32, arith,
}
use simple_webrtc.Rtp.Packet.{RtcpPacketHeader, parse_rtcp_packet_header}
use simple_webrtc.Rtcp.Builder.{
  RtcpSenderReportData, build_rtcp_sender_report, build_rtcp_sdes_cname, build_rtcp_bye,
}
use simple_webrtc.Rtcp.Builder.Compound.{build_rtcp_compound_packet, join}
use simple_webrtc.Rtcp.SdesBye.{parse_rtcp_bye_packet}
use simple_webrtc.Rtcp.RoundTrip.Sdes.{cname_chunk}
use simple_webrtc.Rtcp.RoundTrip.Bye.{parse-build_rtcp_bye}
use simple_webrtc.Rtcp.RoundTrip.Sender.{sender_report_packet}
use simple_webrtc.Rtcp.RoundTrip.Datagram.{parse-build_rtcp_compound_packet}
use simple_webrtc.Rtcp.CompoundBlock.{RtcpCompoundPacket, empty_packet}
use simple_webrtc.Rtcp.CompoundPacket.{parse_rtcp_compound_packet}
use simple_webrtc.Rtcp.CompoundPacket.Safety.{
  IsTallied, block_bytes, parse_rtcp_compound_packet-Ensures,
}
use simple_webrtc.Rtcp.CompoundPacket.Members.{
  AreWhole, parse_members, parse_rtcp_compound_packet-join,
}

-- The name "me" of source 7, and a BYE of sources 7 and 8 with the reason "x".
abbrev name : List ℕ
name = 129 ∷ 202 ∷ 0 ∷ 3 ∷ 0 ∷ 0 ∷ 0 ∷ 7 ∷ 1 ∷ 2 ∷ 109 ∷ 101 ∷ 0 ∷ 0 ∷ 0 ∷ 0 ∷ []

abbrev bye : List ℕ
bye = 130 ∷ 203 ∷ 0 ∷ 3 ∷ 0 ∷ 0 ∷ 0 ∷ 7 ∷ 0 ∷ 0 ∷ 0 ∷ 8 ∷ 1 ∷ 120 ∷ 0 ∷ 0 ∷ []

parse-build_rtcp_bye_example :
    (build_rtcp_bye (7 ∷ 8 ∷ []) (120 ∷ []) >>= parse_rtcp_bye_packet)
    ≡ ok (record { ssrcs = 7 ∷ 8 ∷ []; reason = 120 ∷ [] })
parse-build_rtcp_bye_example =
    parse-build_rtcp_bye (7 ∷ 8 ∷ []) (120 ∷ []) (omega arith) (omega arith)
      ((omega arith, omega arith), ((omega arith, omega arith), tt)) (omega arith)

parse_rtcp_compound_packet-Ensures_example :
    Ensures
      (λ p.
        IsTallied p
        × (block_bytes p.blocks ≡ length (join (name ∷ bye ∷ [])))
        × (0 < length p.blocks))
      (parse_rtcp_compound_packet (join (name ∷ bye ∷ [])))
parse_rtcp_compound_packet-Ensures_example =
    parse_rtcp_compound_packet-Ensures (join (name ∷ bye ∷ [])) (unfold join in ground arith)

abbrev name_header : RtcpPacketHeader
name_header = record {
  padding = false;
  count = 1;
  packet_type = 202;
  length = 3;
  packet_size = 16;
  has_ssrc = true;
  ssrc = 7;
}

abbrev bye_header : RtcpPacketHeader
bye_header = record {
  padding = false;
  count = 2;
  packet_type = 203;
  length = 3;
  packet_size = 16;
  has_ssrc = true;
  ssrc = 7;
}

-- The two packets, each with its header.
name_and_bye-AreWhole : AreWhole (name ∷ bye ∷ [])
name_and_bye-AreWhole = (
  (
    name_header,
    record {
      parsed = unfold parse_rtcp_packet_header read_u16 read_u32 byte at in refl;
      unpadded = refl;
      sized = refl;
      long = omega arith;
    },
  ),
  (
    (
      bye_header,
      record {
        parsed = unfold parse_rtcp_packet_header read_u16 read_u32 byte at in refl;
        unpadded = refl;
        sized = refl;
        long = omega arith;
      },
    ),
    tt,
  ),
)

parse_rtcp_compound_packet-join_example :
    parse_rtcp_compound_packet (join (name ∷ bye ∷ []))
    ≡ parse_members (name ∷ bye ∷ []) empty_packet
parse_rtcp_compound_packet-join_example =
    parse_rtcp_compound_packet-join (name ∷ bye ∷ []) (omega arith) name_and_bye-AreWhole

-- A report without blocks.
abbrev sender : RtcpSenderReportData
sender = record {
  sender_ssrc = 9;
  ntp_timestamp = 72623859790382856;
  rtp_timestamp = 90000;
  sender_packet_count = 4;
  sender_octet_count = 400;
  report_blocks = [];
}

parse-build_rtcp_compound_packet_example :
    (p : RtcpCompoundPacket) × ((do
      report ← build_rtcp_sender_report sender
      name ← build_rtcp_sdes_cname 9 (109 ∷ 101 ∷ [])
      datagram ← build_rtcp_compound_packet (report ∷ name ∷ []) 1200
      parse_rtcp_compound_packet datagram)
      ≡ ok p)
    × (p.report_packets ≡ sender_report_packet sender ∷ [])
    × (p.sdes_chunks ≡ cname_chunk 9 (109 ∷ 101 ∷ []) ∷ [])
    × (length p.blocks ≡ 2)
    × (p.has_feedback ≡ false)
    × (p.has_bye ≡ false)
parse-build_rtcp_compound_packet_example =
    parse-build_rtcp_compound_packet sender 9 (109 ∷ 101 ∷ []) 1200
      (record {
        nonzero = omega arith;
        sender = omega arith;
        few = omega arith;
        blocks = tt;
        ntp = omega arith;
        rtp = omega arith;
        packets = omega arith;
        octets = omega arith;
      })
      (record { named = omega arith; short = omega arith }) (omega arith) (omega arith)
      (omega arith)
