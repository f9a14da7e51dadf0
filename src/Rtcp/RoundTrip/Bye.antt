-- ===== src/Rtcp/RoundTrip/Bye.antt =====
-- BYE packets, built by rtcp_packet_builder.cpp and parsed by rtcp_compound_packet.cpp.
use mathlib.Core.List.{append_assoc}
use simple_webrtc.Base.{
  ℕ, ◌+◌, ◌-◌, ◌*◌, ◌/◌, ◌%◌, ◌≤◌, ◌<◌, ◌≡◌, refl, ap, ◌∙◌, false, List, [], ◌∷◌, ◌++◌, All, length,
  ltb, ◌==◌, length-append, length-replicate, ok, ◌>>=◌, zeros, u32_bytes, arith,
}
use simple_webrtc.Rtp.Packet.{parse_rtcp_packet_header}
use simple_webrtc.Rtcp.Builder.{align_4, build_rtcp_bye}
use simple_webrtc.Rtcp.Builder.Bytes.{
  common_header, length-common_header, write_common_header-zeros,
}
use simple_webrtc.Rtcp.RoundTrip.Blocks.{IsU32, report_header, parse_rtcp_packet_header-bytes}
use simple_webrtc.Rtcp.SdesBye.{
  rtcp_payload_end, end_without_padding, parse_bye_ssrcs, parse_bye_reason, parse_rtcp_bye_packet,
}
use simple_webrtc.Rtcp.RoundTrip.ByeParts.{
  words_bytes, length-words_bytes, write_ssrcs-zeros, IsSource, reject_zero_ssrcs-ok, reason_bytes,
  reason_size, length-reason_bytes, write_reason-zeros, parse_bye_ssrcs-bytes,
  parse_bye_reason-bytes,
}

-- The bytes of a BYE packet, written out from RFC 3550.
module _ (source : ℕ) (sources reason : List ℕ) where
  abbrev ssrcs : List ℕ
  ssrcs = source ∷ sources

  abbrev reason_offset : ℕ
  reason_offset = 4 + length ssrcs * 4

  abbrev bye_size : ℕ
  bye_size = (reason_offset + reason_size reason + 3) / 4 * 4

  abbrev rest_size : ℕ
  rest_size = bye_size - (reason_offset + reason_size reason)

  unfoldable bye_bytes : List ℕ
  bye_bytes =
      ((common_header (length ssrcs) 203 bye_size ++ words_bytes ssrcs) ++ reason_bytes reason)
      ++ zeros rest_size

  build_rtcp_bye-bytes :
      length ssrcs ≤ 31
      → length reason < 256
      → All IsSource ssrcs
      → build_rtcp_bye ssrcs reason ≡ ok bye_bytes
  unfolding build_rtcp_bye bye_bytes
  build_rtcp_bye-bytes few l h =
      rw
        (
          checks.0,
          checks.1,
          checks.2,
          reject_zero_ssrcs-ok ssrcs h,
          aligned,
          count,
          write_common_header-zeros (length ssrcs) 203 bye_size (bye_size - 4) (ground arith) few
              (omega arith) (ground arith),
          write_ssrcs-zeros (common_header (length ssrcs) 203 bye_size) 4 (bye_size - 4)
              (bye_size - reason_offset) ssrcs (omega (arith, length-common_header)) (ground arith),
        )
        (write_reason-zeros (common_header (length ssrcs) 203 bye_size ++ words_bytes ssrcs)
          reason_offset (bye_size - reason_offset) rest_size reason
          (omega (
            arith,
            length-append (common_header (length ssrcs) 203 bye_size) (words_bytes ssrcs),
            length-common_header,
            length-words_bytes ssrcs,
          ))
          (ground arith))
    where
      checks :
          ((length ssrcs == 0) ≡ false)
          × (ltb 31 (length ssrcs) ≡ false)
          × (ltb 255 (length reason) ≡ false)
      checks = ground arith

      aligned : align_4 (4 + length ssrcs * 4 + reason_size reason) ≡ bye_size
      aligned = unfold align_4 in refl

      count : length ssrcs % 256 ≡ length ssrcs
      count = omega arith

  length-bye_bytes : length bye_bytes ≡ bye_size
  unfolding bye_bytes
  length-bye_bytes = ground (
    arith,
    length-append
        ((common_header (length ssrcs) 203 bye_size ++ words_bytes ssrcs) ++ reason_bytes reason)
        (zeros rest_size),
    length-append (common_header (length ssrcs) 203 bye_size ++ words_bytes ssrcs)
        (reason_bytes reason),
    length-append (common_header (length ssrcs) 203 bye_size) (words_bytes ssrcs),
    length-common_header (length ssrcs) 203 bye_size,
    length-words_bytes ssrcs,
    length-reason_bytes reason,
    length-replicate {A = ℕ} rest_size 0,
  )

  header-bye_bytes :
      length ssrcs ≤ 31
      → length reason < 256
      → IsU32 source
      → parse_rtcp_packet_header bye_bytes ≡ ok (report_header (length ssrcs) 203 bye_size source)
  unfolding bye_bytes words_bytes
  header-bye_bytes few l u =
      ap parse_rtcp_packet_header regroup
      ∙ parse_rtcp_packet_header-bytes (length ssrcs) 203 bye_size source
          ((words_bytes sources ++ reason_bytes reason) ++ zeros rest_size) few (omega arith)
          (omega arith)
          (ground (
            arith,
            length-append (words_bytes sources ++ reason_bytes reason) (zeros rest_size),
            length-append (words_bytes sources) (reason_bytes reason),
            length-words_bytes sources,
            length-reason_bytes reason,
            length-replicate {A = ℕ} rest_size 0,
          ))
          (omega arith) (ground arith) u
    where
      regroup :
          ((common_header (length ssrcs) 203 bye_size ++ (u32_bytes source ++ words_bytes sources))
              ++ reason_bytes reason)
            ++ zeros rest_size
          ≡ (common_header (length ssrcs) 203 bye_size ++ u32_bytes source)
            ++ ((words_bytes sources ++ reason_bytes reason) ++ zeros rest_size)
      regroup = simp append_assoc

  ssrcs-bye_bytes :
      All IsSource ssrcs → parse_bye_ssrcs bye_bytes bye_size (length ssrcs) 4 ≡ ok ssrcs
  unfolding bye_bytes
  ssrcs-bye_bytes h =
      ap (λ p. parse_bye_ssrcs p bye_size (length ssrcs) 4) regroup
      ∙ parse_bye_ssrcs-bytes (common_header (length ssrcs) 203 bye_size)
          (reason_bytes reason ++ zeros rest_size) 4 bye_size ssrcs
          (omega (arith, length-common_header)) (ground arith) h
    where
      regroup :
          ((common_header (length ssrcs) 203 bye_size ++ words_bytes ssrcs) ++ reason_bytes reason)
            ++ zeros rest_size
          ≡ common_header (length ssrcs) 203 bye_size
            ++ (words_bytes ssrcs ++ (reason_bytes reason ++ zeros rest_size))
      regroup = simp append_assoc

  reason-bye_bytes :
      length reason < 256 → parse_bye_reason bye_bytes bye_size reason_offset ≡ ok reason
  unfolding bye_bytes
  reason-bye_bytes l =
      parse_bye_reason-bytes (common_header (length ssrcs) 203 bye_size ++ words_bytes ssrcs)
        reason_offset bye_size rest_size reason
        (omega (
          arith,
          length-append (common_header (length ssrcs) 203 bye_size) (words_bytes ssrcs),
          length-common_header,
          length-words_bytes ssrcs,
        ))
        l (ground arith) (ground arith) (omega arith) (omega arith)

-- A BYE packet of 1 to 31 sources that are not 0, with a reason of at most 255 bytes, is built, and
-- parsing it gives the sources and the reason back.
pub parse-build_rtcp_bye :
    (ssrcs reason : List ℕ)
    → 0 < length ssrcs
    → length ssrcs ≤ 31
    → All IsSource ssrcs
    → length reason < 256
    → (build_rtcp_bye ssrcs reason >>= parse_rtcp_bye_packet)
      ≡ ok (record { ssrcs = ssrcs; reason = reason })
parse-build_rtcp_bye [] reason n few h l = absurd (omega arith)
parse-build_rtcp_bye (v ∷ vs) reason n few h l = rw (build_rtcp_bye-bytes v vs reason few l h) (
    unfold parse_rtcp_bye_packet rtcp_payload_end end_without_padding report_header in
    rw
      (
        header-bye_bytes v vs reason few l h.0.1,
        fits,
        ssrcs-bye_bytes v vs reason h,
        reason-bye_bytes v vs reason l,
      )
      refl)
  where
    fits : ltb (length (bye_bytes v vs reason)) (bye_size v vs reason) ≡ false
    fits = ground (arith, length-bye_bytes v vs reason)
