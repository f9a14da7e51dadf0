-- ===== src/Tests/Reports.antt =====
-- Reports and compound packets of rtcp_report.cpp and rtcp_packet_builder.cpp.
use simple_webrtc.Base.{
  ℕ, ◌≡◌, refl, List, [], ◌∷◌, ok, Ensures, ◌>>=◌, inl, inr, arith, at, overwrite,
}
use simple_webrtc.Base.Int.{negsuc}
use simple_webrtc.Rtcp.Report.{RtcpReportBlock, parse_rtcp_report_packet}
use simple_webrtc.Rtcp.Report.Safety.{IsReport, parse_rtcp_report_packet-Ensures}
use simple_webrtc.Rtcp.Builder.{
  RtcpReceiverReportData, RtcpSenderReportData, build_rtcp_receiver_report,
  build_rtcp_sender_report, build_rtcp_sdes_cname, build_rtcp_picture_loss_indication,
  build_rtcp_full_intra_request, build_rtcp_bye, write_common_header, write_fir_requests,
  write_ssrcs, write_reason, reject_zero_ssrcs,
}
use simple_webrtc.Rtcp.Builder.Compound.{build_rtcp_compound_packet, join}
use simple_webrtc.Rtcp.Builder.Compound.Members.{
  IsCompound, build_rtcp_compound_packet-Ensures, build_rtcp_compound_packet-total,
}
use simple_webrtc.Rtcp.RoundTrip.Receiver.{receiver_report_packet, parse-build_receiver_report}
use simple_webrtc.Rtcp.RoundTrip.Sender.{sender_report_packet, parse-build_sender_report}

abbrev block : RtcpReportBlock
block = record {
  source_ssrc = 77;
  fraction_lost = 12;
  cumulative_lost = negsuc 4;
  extended_highest_sequence_number = 65540;
  jitter = 3;
  last_sender_report = 1;
  delay_since_last_sender_report = 2;
}

abbrev receiver : RtcpReceiverReportData
receiver = record { sender_ssrc = 9; report_blocks = block ∷ [] }

abbrev sender : RtcpSenderReportData
sender = record {
  sender_ssrc = 9;
  ntp_timestamp = 0x0102_0304_0506_0708;
  rtp_timestamp = 90000;
  sender_packet_count = 4;
  sender_octet_count = 400;
  report_blocks = block ∷ [];
}

-- A picture loss indication is twelve bytes.
loss_indication :
    build_rtcp_picture_loss_indication 1 2
    ≡ ok (0x81 ∷ 206 ∷ 0 ∷ 2 ∷ 0 ∷ 0 ∷ 0 ∷ 1 ∷ 0 ∷ 0 ∷ 0 ∷ 2 ∷ [])
unfolding build_rtcp_picture_loss_indication write_common_header overwrite
loss_indication = refl

full_intra_request :
    build_rtcp_full_intra_request 1 (record { media_ssrc = 2; sequence_number = 5 } ∷ [])
    ≡ ok (0x84 ∷ 206 ∷ 0 ∷ 4 ∷ 0 ∷ 0 ∷ 0 ∷ 1 ∷ 0 ∷ 0 ∷ 0 ∷ 0 ∷ 0 ∷ 0 ∷ 0 ∷ 2 ∷ 5 ∷ 0 ∷ 0 ∷ 0 ∷ [])
unfolding build_rtcp_full_intra_request write_common_header write_fir_requests overwrite
full_intra_request = refl

goodbye :
    build_rtcp_bye (7 ∷ []) (b'x' ∷ [])
    ≡ ok (0x81 ∷ 203 ∷ 0 ∷ 2 ∷ 0 ∷ 0 ∷ 0 ∷ 7 ∷ 1 ∷ b'x' ∷ 0 ∷ 0 ∷ [])
unfolding build_rtcp_bye write_common_header write_ssrcs write_reason reject_zero_ssrcs overwrite
goodbye = refl

name_item :
    build_rtcp_sdes_cname 7 (b'n' ∷ [])
    ≡ ok (0x81 ∷ 202 ∷ 0 ∷ 2 ∷ 0 ∷ 0 ∷ 0 ∷ 7 ∷ 1 ∷ 1 ∷ b'n' ∷ 0 ∷ [])
unfolding build_rtcp_sdes_cname write_common_header overwrite
name_item = refl

abbrev report_member : List ℕ
report_member = 0x80 ∷ 201 ∷ 0 ∷ 1 ∷ 0 ∷ 0 ∷ 0 ∷ 7 ∷ []

abbrev name_member : List ℕ
name_member = 0x81 ∷ 202 ∷ 0 ∷ 2 ∷ 0 ∷ 0 ∷ 0 ∷ 7 ∷ 1 ∷ 1 ∷ b'n' ∷ 0 ∷ []

members-IsCompound : IsCompound (report_member ∷ name_member ∷ []) 1200
unfolding join at
members-IsCompound = record {
  report = inr refl;
  members = (omega arith, inl refl, (omega arith, inl refl, tt));
  sdes = refl;
  fits = omega arith;
}

parse-build_receiver_report_example :
    (build_rtcp_receiver_report receiver >>= parse_rtcp_report_packet)
    ≡ ok (receiver_report_packet receiver)
parse-build_receiver_report_example =
    parse-build_receiver_report receiver (omega arith) (omega arith) (omega arith) (
      record {
        source = omega arith;
        fraction = omega arith;
        loss = (refl, refl);
        highest = omega arith;
        jitter = omega arith;
        last = omega arith;
        delay = omega arith;
      },
      tt,
    )

parse-build_sender_report_example :
    (build_rtcp_sender_report sender >>= parse_rtcp_report_packet)
    ≡ ok (sender_report_packet sender)
parse-build_sender_report_example =
    parse-build_sender_report sender (omega arith) (omega arith) (omega arith)
      (
        record {
          source = omega arith;
          fraction = omega arith;
          loss = (refl, refl);
          highest = omega arith;
          jitter = omega arith;
          last = omega arith;
          delay = omega arith;
        },
        tt,
      )
      (omega arith) (omega arith) (omega arith) (omega arith)

parse_rtcp_report_packet-Ensures_example :
    Ensures (IsReport report_member) (parse_rtcp_report_packet report_member)
parse_rtcp_report_packet-Ensures_example = parse_rtcp_report_packet-Ensures report_member

build_rtcp_compound_packet-Ensures_example :
    Ensures
      (λ c.
        (c ≡ join (report_member ∷ name_member ∷ []))
        × IsCompound (report_member ∷ name_member ∷ []) 1200)
      (build_rtcp_compound_packet (report_member ∷ name_member ∷ []) 1200)
build_rtcp_compound_packet-Ensures_example =
    build_rtcp_compound_packet-Ensures (report_member ∷ name_member ∷ []) 1200

build_rtcp_compound_packet-total_example :
    build_rtcp_compound_packet (report_member ∷ name_member ∷ []) 1200
    ≡ ok (join (report_member ∷ name_member ∷ []))
build_rtcp_compound_packet-total_example =
    build_rtcp_compound_packet-total (report_member ∷ name_member ∷ []) 1200 members-IsCompound
