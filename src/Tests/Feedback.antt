-- ===== src/Tests/Feedback.antt =====
-- The theorems on rtcp_feedback.cpp and rtcp_fir_sequence_tracker.cpp at concrete packets.
use simple_webrtc.Base.{none, some, true, ◌↔◌, ◌≢◌}
use simple_webrtc.Base.{ℕ, ◌≡◌, refl, List, [], ◌∷◌, ◌>>=◌, ok, length, Ensures, Result, All, arith}
use simple_webrtc.Rtcp.Builder.{
  RtcpFirRequest, build_rtcp_full_intra_request, build_rtcp_picture_loss_indication,
}
use simple_webrtc.Rtcp.Feedback.{masked_sequence_numbers, parse_rtcp_feedback_packet}
use simple_webrtc.Rtcp.Feedback.Safety.{IsFeedback, parse_rtcp_feedback_packet-Ensures}
use simple_webrtc.Rtcp.FirSequenceTracker.{accept}
use simple_webrtc.Rtcp.FirSequenceTracker.Latest.{Call, request, latest, run, accept-run}
use simple_webrtc.Rtcp.RoundTrip.FirBytes.{IsRequest}
use simple_webrtc.Rtcp.RoundTrip.KeyframeRequests.{
  fir_packet, pli_packet, parse-build_full_intra_request, parse-build_picture_loss_indication,
}

-- A stand-in for the parser of transport feedback.
abbrev transport : List ℕ → Result ℕ
transport packet = ok (length packet)

-- Bits 0 and 2 behind packet 65534.
masked : masked_sequence_numbers 65534 5 16 0 ≡ 65535 ∷ 1 ∷ []
unfolding masked_sequence_numbers
masked = refl

-- A NACK from source 1 for source 2, of packet 10 and the two behind it.
abbrev nack : List ℕ
nack = 129 ∷ 205 ∷ 0 ∷ 3 ∷ 0 ∷ 0 ∷ 0 ∷ 1 ∷ 0 ∷ 0 ∷ 0 ∷ 2 ∷ 0 ∷ 10 ∷ 0 ∷ 3 ∷ []

parse_rtcp_feedback_packet-Ensures_example :
    Ensures (IsFeedback nack 12) (parse_rtcp_feedback_packet transport nack)
parse_rtcp_feedback_packet-Ensures_example =
    parse_rtcp_feedback_packet-Ensures ℕ transport nack 12 (λ packet. tt) (ground arith)
      (omega arith)

abbrev requests : List RtcpFirRequest
requests =
    record { media_ssrc = 7; sequence_number = 1 }
    ∷ record { media_ssrc = 9; sequence_number = 255 }
    ∷ []

requests-IsRequest : All IsRequest requests
requests-IsRequest = (
  record { nonzero = omega arith; ssrc = omega arith; sequence = omega arith },
  (record { nonzero = omega arith; ssrc = omega arith; sequence = omega arith }, tt),
)

parse-build_full_intra_request_example :
    (build_rtcp_full_intra_request 3 requests >>= parse_rtcp_feedback_packet transport)
    ≡ ok (fir_packet ℕ 3 requests)
parse-build_full_intra_request_example =
    parse-build_full_intra_request ℕ transport 3 requests (omega arith) (omega arith) (omega arith)
      (omega arith) requests-IsRequest

parse-build_picture_loss_indication_example :
    (build_rtcp_picture_loss_indication 3 7 >>= parse_rtcp_feedback_packet transport)
    ≡ ok (pli_packet ℕ 3 7)
parse-build_picture_loss_indication_example =
    parse-build_picture_loss_indication ℕ transport 3 7 (omega arith) (omega arith) (omega arith)
      (omega arith)

-- Two requests with the same number, the second of them refused, then another number.
abbrev calls : List Call
calls = request 3 7 1 ∷ request 3 7 1 ∷ request 3 9 4 ∷ request 3 7 2 ∷ []

accept-run_example :
    ((accept 3 7 2 (run calls (record { last_sequence_by_sender_and_media = [] }))).0 ≡ true)
    ↔ (latest 3 7 calls none ≢ some 2)
accept-run_example =
    accept-run calls 3 7 2 (omega arith, (omega arith, (omega arith, (omega arith, tt))))
      (omega arith)
