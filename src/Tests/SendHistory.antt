-- ===== src/Tests/SendHistory.antt =====
-- The theorems on the history of sent packets at a concrete history.
use simple_webrtc.Base.{
  ◌%◌, ◌-◌, ◌≡◌, refl, true, false, none, some, List, [], ◌∷◌, ok, length, Ensures, arith,
}
use simple_webrtc.Base.Int.{pos}
use simple_webrtc.Rtcp.TransportFeedback.{ParsedRtcpTransportFeedback}
use simple_webrtc.Rtcp.SendHistory.{
  TransportFeedbackSentPacket, TransportFeedbackSendHistory, SentRecord, new_history, observe,
  find_extended_sequence, record_at, front_number, no_stats,
}
use simple_webrtc.Rtcp.SendHistory.Operations.{IsHistory, IsCounted, observe-Ensures}
use simple_webrtc.Rtcp.SendHistory.Runs.{
  HasU16s, Call, remember, feedback, expire_at, reset_all, run_calls, run_calls-IsHistory,
}
use simple_webrtc.Rtcp.SendHistory.Lookup.{find_extended_sequence-record_at}

abbrev packet : TransportFeedbackSentPacket
packet = record { packet_size = 100; retransmission = true; sent_at = 5 }

abbrev found : SentRecord
found = record { extended_sequence_number = 65536; packet = packet }

-- Numbers 65535 and 65536, which is 0 on the wire.
abbrev history : TransportFeedbackSendHistory
history = record {
  maximum_history_age = 2000000000;
  maximum_history_packets = 32768;
  next_extended_sequence = 65537;
  history = record { extended_sequence_number = 65535; packet = packet } ∷ found ∷ [];
  last_feedback_packet_count = some 255;
  stats = no_stats;
}

history-IsHistory : IsHistory history
history-IsHistory = record { run = (65535, omega arith, (refl, (refl, refl))); few = omega arith }

-- One packet arrived, the other is not in the history.
abbrev report : ParsedRtcpTransportFeedback
report = record {
  sender_ssrc = 1;
  media_ssrc = 2;
  base_sequence_number = 0;
  packet_status_count = 2;
  reference_time = 0;
  feedback_packet_count = 0;
  statuses =
      record { sequence_number = 0; received = true; delta_ticks = some (pos 4) }
      ∷ record { sequence_number = 1; received = false; delta_ticks = none }
      ∷ [];
}

find_extended_sequence-record_at_example :
    (find_extended_sequence (65536 % 65536) history.history ≡ some 65536)
    × (record_at history.history (65536 - front_number history.history) ≡ ok found)
find_extended_sequence-record_at_example =
    find_extended_sequence-record_at history 1 found history-IsHistory (omega arith)
      (unfold record_at in refl)

observe-Ensures_example :
    Ensures
      (λ r. IsCounted (length report.statuses) r.0 × IsHistory r.1)
      (observe report 1000 history)
observe-Ensures_example =
    observe-Ensures report 1000 history history-IsHistory (omega arith, (omega arith, tt))

abbrev calls : List Call
calls = remember packet ∷ feedback report 1000 ∷ expire_at 3000 ∷ reset_all ∷ remember packet ∷ []

run_calls-IsHistory_example : Ensures IsHistory (run_calls calls (new_history 2000 32768))
run_calls-IsHistory_example =
    run_calls-IsHistory 2000 32768 calls
      (unfold HasU16s in (tt, ((omega arith, (omega arith, tt)), (tt, (tt, (tt, tt))))))
