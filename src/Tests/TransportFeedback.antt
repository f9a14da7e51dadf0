-- ===== src/Tests/TransportFeedback.antt =====
-- The theorems on rtcp_transport_feedback.cpp at concrete packets.
use simple_webrtc.Base.{
  ℕ, ◌≡◌, ◌*◌, ◌+◌, ◌≤◌, refl, List, [], ◌∷◌, ◌>>=◌, ok, length, Ensures, overwrite, arith,
}
use simple_webrtc.Base.Int.{ℤ, pos, negsuc}
use simple_webrtc.Rtcp.TransportFeedback.{
  encode_status_chunks, encoded_packet_size, chunks_from, next_chunk, write_chunks, write_deltas,
  u16_of_i16, encode_transport_feedback_packet, parse_rtcp_transport_feedback,
}
use simple_webrtc.Rtcp.TransportFeedback.Chunks.{Parses, encode_status_chunks-Parses}
use simple_webrtc.Rtcp.TransportFeedback.Encode.{Fields}
use simple_webrtc.Rtcp.TransportFeedback.Header.{parsed_of}
use simple_webrtc.Rtcp.TransportFeedback.RoundTrip.{parse-encode_transport_feedback_packet}
use simple_webrtc.Rtcp.TransportFeedback.Safety.{
  IsFeedbackOf, parse_rtcp_transport_feedback-Ensures,
}

abbrev fields : Fields
fields = record {
  sender_ssrc = 1;
  media_ssrc = 2;
  base_sequence = 65535;
  reference_time = 3;
  feedback_packet_count = 4;
}

-- Packets 65535, 0 and 1: the second is lost, the third arrives before the first.
abbrev sizes : List ℕ
sizes = 1 ∷ 0 ∷ 2 ∷ []

abbrev deltas : List ℤ
deltas = pos 9 ∷ negsuc 4 ∷ []

abbrev feedback : List ℕ
feedback =
    175 ∷ 205 ∷ 0 ∷ 6 ∷ 0 ∷ 0 ∷ 0 ∷ 1 ∷ 0 ∷ 0 ∷ 0 ∷ 2 ∷ 255 ∷ 255 ∷ 0 ∷ 3 ∷ 0 ∷ 0 ∷ 3 ∷ 4 ∷ 210 ∷ 0
    ∷ 9 ∷ 255 ∷ 251 ∷ 0 ∷ 0 ∷ 3 ∷ []

encoded_feedback : encode_transport_feedback_packet 1 2 65535 3 4 sizes deltas ≡ ok feedback
unfolding encode_transport_feedback_packet encoded_packet_size encode_status_chunks chunks_from
    next_chunk overwrite write_chunks write_deltas u16_of_i16
encoded_feedback = refl

parse-encode_transport_feedback_packet_example :
    (encode_transport_feedback_packet 1 2 65535 3 4 sizes deltas >>= parse_rtcp_transport_feedback)
    ≡ ok (parsed_of fields sizes deltas)
parse-encode_transport_feedback_packet_example =
    parse-encode_transport_feedback_packet fields sizes deltas
      (record {
        sender = omega arith;
        media = omega arith;
        base = omega arith;
        time = omega arith;
        count = omega arith;
      })
      (omega arith) (omega arith, (omega arith, tt))

encode_status_chunks-Parses_example :
    (chunks : List ℕ) × (encode_status_chunks sizes ≡ ok chunks)
    × Parses sizes chunks
    × (length chunks * 7 ≤ length sizes + 6)
encode_status_chunks-Parses_example =
    encode_status_chunks-Parses sizes (omega arith, (omega arith, (omega arith, tt)))

parse_rtcp_transport_feedback-Ensures_example :
    Ensures (IsFeedbackOf feedback) (parse_rtcp_transport_feedback feedback)
parse_rtcp_transport_feedback-Ensures_example = parse_rtcp_transport_feedback-Ensures feedback
