-- ===== src/Rtcp/RoundTrip/KeyframeRequests.antt =====
-- Full intra requests and picture loss indications, built by rtcp_packet_builder.cpp and parsed by
-- rtcp_feedback.cpp.
use mathlib.Core.List.{append_assoc, append-nil}
use simple_webrtc.Base.{
  ℕ, ◌+◌, ◌-◌, ◌*◌, ◌/◌, ◌≤◌, ◌<◌, ◌≡◌, ◌≢◌, refl, ◌∙◌, true, false, not, List, [], ◌∷◌, ◌++◌,
  length, All, ltb, ◌==◌, length-append, ok, none, ◌>>=◌, Result, overwrite-zeros, overwrite-then,
  byte, byte-append, read_u32-append, at, read_u32, u32_bytes, arith,
}
use simple_webrtc.Rtp.Packet.{RtcpPacketHeader, parse_rtcp_packet_header}
use simple_webrtc.Rtcp.Builder.{
  RtcpFirRequest, build_rtcp_full_intra_request, build_rtcp_picture_loss_indication,
}
use simple_webrtc.Rtcp.Builder.Bytes.{
  common_header, length-common_header, write_common_header-zeros,
}
use simple_webrtc.Rtcp.Feedback.{
  RtcpFeedbackPacket, RtcpFirEntry, parse_fir_entries, nonzero_ssrcs, parse_fir, parse_pli,
  parse_payload_feedback, parse_feedback_payload, parse_rtcp_feedback_packet,
  is_feedback_packet_type, new_packet, rtcp_feedback_payload_end, padded_payload_end,
}
use simple_webrtc.Rtcp.RoundTrip.Blocks.{IsU32, report_header, parse_rtcp_packet_header-bytes}
use simple_webrtc.Rtcp.RoundTrip.FirBytes.{
  fir_bytes, firs_bytes, IsRequest, length-firs_bytes, full_intra_request_bytes,
  build_rtcp_full_intra_request-bytes,
}

unfoldable pub entries_of : List RtcpFirRequest → List RtcpFirEntry
entries_of [] = []
entries_of (r ∷ rs) =
    record { media_ssrc = r.media_ssrc; sequence_number = r.sequence_number } ∷ entries_of rs

unfoldable pub ssrcs_of : List RtcpFirRequest → List ℕ
ssrcs_of [] = []
ssrcs_of (r ∷ rs) = r.media_ssrc ∷ ssrcs_of rs

read-fir_bytes :
    (front rest : List ℕ) (offset : ℕ) (r : RtcpFirRequest)
    → offset ≡ length front
    → IsRequest r
    → (read_u32 (front ++ (fir_bytes r ++ rest)) offset ≡ ok r.media_ssrc)
      × (byte (front ++ (fir_bytes r ++ rest)) (offset + 4) ≡ ok r.sequence_number)
unfolding fir_bytes read_u32 byte at
read-fir_bytes front rest offset r e h = (
  read_u32-append front (fir_bytes r ++ rest) 0 offset (omega (arith, e)) ∙ ground arith,
  byte-append front (fir_bytes r ++ rest) 4 (offset + 4) (omega (arith, e)) ∙ ground arith,
)

parse_fir_entries-bytes :
    (front : List ℕ) (offset : ℕ) (rs : List RtcpFirRequest)
    → offset ≡ length front
    → All IsRequest rs
    → parse_fir_entries (front ++ firs_bytes rs) offset (length rs)
      ≡ ok (entries_of rs, ssrcs_of rs)
unfolding parse_fir_entries firs_bytes entries_of ssrcs_of nonzero_ssrcs
parse_fir_entries-bytes front offset [] e h = refl
parse_fir_entries-bytes front offset (r ∷ rs) e h = ground (
  arith,
  h.0.nonzero,
  read-fir_bytes front (firs_bytes rs) offset r e h.0,
  append_assoc front (fir_bytes r) (firs_bytes rs),
  parse_fir_entries-bytes (front ++ fir_bytes r) (offset + 8) rs
      (omega (arith, length-append front (fir_bytes r), block)) h.1,
)
  where
    block : length (fir_bytes r) ≡ 8
    block = unfold fir_bytes in refl

unfoldable pub fir_packet : (A : Type 0) → ℕ → List RtcpFirRequest → RtcpFeedbackPacket A
fir_packet A sender_ssrc requests = record {
  format = 4;
  packet_type = 206;
  sender_ssrc = sender_ssrc;
  media_ssrc = 0;
  nack_count = 0;
  fir_count = length requests;
  has_generic_nack = false;
  has_keyframe_request = true;
  transport_feedback = none;
  nack_entries = [];
  nack_sequence_numbers = [];
  keyframe_request_media_ssrcs = ssrcs_of requests;
  fir_entries = entries_of requests;
  remb_bitrate_bps = none;
}

module _ (sender_ssrc : ℕ) (rs : List RtcpFirRequest) where
  abbrev fir_header : RtcpPacketHeader
  fir_header = report_header 4 206 (12 + length rs * 8) sender_ssrc

  header-fir_bytes :
      IsU32 sender_ssrc
      → length rs ≤ 32766
      → parse_rtcp_packet_header (full_intra_request_bytes sender_ssrc rs) ≡ ok fir_header
  unfolding full_intra_request_bytes common_header
  header-fir_bytes u few =
      parse_rtcp_packet_header-bytes 4 206 (12 + length rs * 8) sender_ssrc
        (u32_bytes 0 ++ firs_bytes rs) (omega arith) (omega arith) (omega arith)
        (omega (arith, length-firs_bytes rs)) (omega arith) (omega arith) u

  senders-fir_bytes :
      IsU32 sender_ssrc
      → (read_u32 (full_intra_request_bytes sender_ssrc rs) 4 ≡ ok sender_ssrc)
        × (read_u32 (full_intra_request_bytes sender_ssrc rs) 8 ≡ ok 0)
  unfolding full_intra_request_bytes common_header read_u32 byte at
  senders-fir_bytes u = ground arith

  entries-fir_bytes :
      All IsRequest rs
      → parse_fir_entries (full_intra_request_bytes sender_ssrc rs) 12 (length rs)
        ≡ ok (entries_of rs, ssrcs_of rs)
  unfolding full_intra_request_bytes
  entries-fir_bytes h =
      parse_fir_entries-bytes
        ((common_header 4 206 (12 + length rs * 8) ++ u32_bytes sender_ssrc) ++ u32_bytes 0) 12 rs
        (omega (arith, length-append {0}, length-common_header)) h

  payload_end-fir_bytes :
      rtcp_feedback_payload_end fir_header (full_intra_request_bytes sender_ssrc rs)
      ≡ ok (12 + length rs * 8)
  unfolding rtcp_feedback_payload_end padded_payload_end report_header full_intra_request_bytes
      common_header
  payload_end-fir_bytes = ground (arith, length-firs_bytes rs)

  parse_payload-fir :
      (A : Type 0) (transport : List ℕ → Result A)
      → IsU32 sender_ssrc
      → All IsRequest rs
      → parse_feedback_payload transport
          (full_intra_request_bytes sender_ssrc rs)
          fir_header
          (12 + length rs * 8)
        ≡ ok (fir_packet A sender_ssrc rs)
  unfolding parse_feedback_payload parse_payload_feedback parse_fir new_packet report_header
      fir_packet
  parse_payload-fir A transport u h =
      rw ((senders-fir_bytes u).0, (senders-fir_bytes u).1)
        (ground (arith, entries-fir_bytes h, size))
    where
      size : (12 + length rs * 8 - 12) / 8 ≡ length rs
      size = omega arith

-- A full intra request of a nonzero sender for 1 to 32766 sources, none of them 0, is built, and
-- parsing the packet as feedback gives back the sender and the requests, in their order, as entries
-- and as sources that are to send a key frame. It is a key frame request and no NACK.
pub parse-build_full_intra_request :
    (A : Type 0) (transport : List ℕ → Result A) (sender_ssrc : ℕ) (requests : List RtcpFirRequest)
    → sender_ssrc ≢ 0
    → IsU32 sender_ssrc
    → 0 < length requests
    → length requests ≤ 32766
    → All IsRequest requests
    → (build_rtcp_full_intra_request sender_ssrc requests >>= parse_rtcp_feedback_packet transport)
      ≡ ok (fir_packet A sender_ssrc requests)
unfolding parse_rtcp_feedback_packet
parse-build_full_intra_request A transport ssrc rs nz u some_requests few h =
    rw
      (
        build_rtcp_full_intra_request-bytes ssrc rs nz some_requests few h,
        header-fir_bytes ssrc rs u few,
        checks.0,
        checks.1,
        payload_end-fir_bytes ssrc rs,
      )
      (parse_payload-fir ssrc rs A transport u h)
  where
    checks :
        (not (is_feedback_packet_type (fir_header ssrc rs).packet_type) ≡ false)
        × (ltb (fir_header ssrc rs).packet_size 12 ≡ false)
    checks = unfold report_header is_feedback_packet_type in ground arith

unfoldable pub picture_loss_bytes : ℕ → ℕ → List ℕ
picture_loss_bytes sender_ssrc media_ssrc =
    (common_header 1 206 12 ++ u32_bytes sender_ssrc) ++ u32_bytes media_ssrc

build_rtcp_picture_loss_indication-bytes :
    (sender_ssrc media_ssrc : ℕ)
    → sender_ssrc ≢ 0
    → media_ssrc ≢ 0
    → build_rtcp_picture_loss_indication sender_ssrc media_ssrc
      ≡ ok (picture_loss_bytes sender_ssrc media_ssrc)
unfolding build_rtcp_picture_loss_indication picture_loss_bytes
build_rtcp_picture_loss_indication-bytes sender media nz nm =
    rw
      (
        checks.0,
        checks.1,
        write_common_header-zeros 1 206 12 8 (omega arith) (omega arith) (omega arith)
            (omega arith),
      )
      (overwrite-then _ _ _ 8 4 _ (omega (arith, length-common_header)) (omega arith) (
        overwrite-zeros _ _ _ 4 0 (omega (arith, length-append {0}, length-common_header))
          (omega arith)
        ∙ simp append-nil))
  where
    checks : ((sender == 0) ≡ false) × ((media == 0) ≡ false)
    checks = ground arith

unfoldable pub pli_packet : (A : Type 0) → ℕ → ℕ → RtcpFeedbackPacket A
pli_packet A sender_ssrc media_ssrc = record {
  format = 1;
  packet_type = 206;
  sender_ssrc = sender_ssrc;
  media_ssrc = media_ssrc;
  nack_count = 0;
  fir_count = 0;
  has_generic_nack = false;
  has_keyframe_request = true;
  transport_feedback = none;
  nack_entries = [];
  nack_sequence_numbers = [];
  keyframe_request_media_ssrcs = media_ssrc ∷ [];
  fir_entries = [];
  remb_bitrate_bps = none;
}

-- A picture loss indication of a nonzero sender for a nonzero source is built, and parsing the packet
-- as feedback gives back the sender and the source, which is to send a key frame.
pub parse-build_picture_loss_indication :
    (A : Type 0) (transport : List ℕ → Result A) (sender_ssrc media_ssrc : ℕ)
    → sender_ssrc ≢ 0
    → media_ssrc ≢ 0
    → IsU32 sender_ssrc
    → IsU32 media_ssrc
    → (build_rtcp_picture_loss_indication sender_ssrc media_ssrc
        >>= parse_rtcp_feedback_packet transport)
      ≡ ok (pli_packet A sender_ssrc media_ssrc)
unfolding parse_rtcp_feedback_packet
parse-build_picture_loss_indication A transport sender media nz nm u v =
    rw
      (build_rtcp_picture_loss_indication-bytes sender media nz nm, header, checks.0, checks.1, end)
      payload
  where
    header :
        parse_rtcp_packet_header (picture_loss_bytes sender media)
        ≡ ok (report_header 1 206 12 sender)
    header =
        unfold picture_loss_bytes common_header in
        parse_rtcp_packet_header-bytes 1 206 12 sender (u32_bytes media) (omega arith) (omega arith)
          (omega arith) (omega arith) (omega arith) (omega arith) u

    checks :
        (not (is_feedback_packet_type (report_header 1 206 12 sender).packet_type) ≡ false)
        × (ltb (report_header 1 206 12 sender).packet_size 12 ≡ false)
    checks = unfold report_header is_feedback_packet_type in ground arith

    end :
        rtcp_feedback_payload_end (report_header 1 206 12 sender) (picture_loss_bytes sender media)
        ≡ ok 12
    end =
        unfold rtcp_feedback_payload_end padded_payload_end report_header picture_loss_bytes
          common_header in
        ground arith

    payload :
        parse_feedback_payload transport
          (picture_loss_bytes sender media)
          (report_header 1 206 12 sender)
          12
        ≡ ok (pli_packet A sender media)
    payload =
        unfold picture_loss_bytes common_header parse_feedback_payload parse_payload_feedback
          parse_pli nonzero_ssrcs new_packet report_header pli_packet read_u32 byte at in
        ground arith
