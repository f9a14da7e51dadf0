-- ===== src/Rtcp/SendHistory/Operations.antt =====
-- What each operation of `transport_feedback_send_history` keeps, and what `observe` counts.
use mathlib.Core.Path.{subst}
use simple_webrtc.Base.{
  ℕ, ◌+◌, ◌-◌, ◌≡◌, ◌≤◌, ◌<◌, refl, ap, sym, ◌∙◌, Option-cases, inl, inr, true, false, List, [],
  ◌∷◌, none, some, length, All, ok, Ensures, Ensures->>=, Ensures-mono, arith,
}
use simple_webrtc.Rtcp.TransportFeedback.{RtcpTransportFeedbackStatus, ParsedRtcpTransportFeedback}
use simple_webrtc.Rtcp.SendHistory.{
  SentRecord, TransportFeedbackSentPacket, TransportFeedbackSendHistory,
  TransportFeedbackSendObservation, new_history, evict_by_age, evict_old, remember_sent,
  observe_feedback_packet_count, find_extended_sequence, record_at, front_number, observe_packet,
  observe_status, observe_statuses, add_observation, new_observation, observe, reset,
}
use simple_webrtc.Rtcp.SendHistory.Consecutive.{
  IsRun, length-run, append-IsRun, Leaves, evict_by_age-IsRun, evict_by_capacity-IsRun,
  record_at-IsRun, AreFound, find_extended_sequence-AreFound,
}

-- The records run up to the next number, and are within the capacity.
pub record IsHistory (h : TransportFeedbackSendHistory) : Type 0 where
  pub run : Leaves 0 h.next_extended_sequence h.history
  pub few : length h.history ≤ h.maximum_history_packets

pub evict_old-IsHistory :
    (now : ℕ) (h : TransportFeedbackSendHistory)
    → Leaves 0 h.next_extended_sequence h.history
    → IsHistory (evict_old now h)
unfolding evict_old
evict_old-IsHistory now h (first, l, run) =
    let (young, l2, run2) =
      evict_by_age-IsRun now h.maximum_history_age first h.next_extended_sequence h.history run in
    let ((start, l3, run3), few) =
      evict_by_capacity-IsRun h.maximum_history_packets young h.next_extended_sequence
        (evict_by_age now h.maximum_history_age h.history).0 run2 in
    record { run = (start, omega arith, run3); few = few }

pub remember_sent-IsHistory :
    (packet : TransportFeedbackSentPacket) (h : TransportFeedbackSendHistory)
    → IsHistory h
    → IsHistory (remember_sent packet h)
unfolding remember_sent
remember_sent-IsHistory packet h v =
    let (first, l, run) = v.run in
    evict_old-IsHistory packet.sent_at _
      (first, l, append-IsRun first h.next_extended_sequence h.history packet run)

pub new_history-IsHistory : (age packets : ℕ) → IsHistory (new_history age packets)
unfolding new_history
new_history-IsHistory age packets = record { run = (0, omega arith, refl); few = omega arith }

pub reset-IsHistory : (h : TransportFeedbackSendHistory) → IsHistory (reset h)
unfolding reset
reset-IsHistory h = record { run = (0, omega arith, refl); few = omega arith }

-- Counting feedback packets leaves the records alone.
observe_feedback_packet_count-IsHistory :
    (count : ℕ) (h : TransportFeedbackSendHistory)
    → IsHistory h
    → IsHistory (observe_feedback_packet_count count h)
unfolding observe_feedback_packet_count
observe_feedback_packet_count-IsHistory count h v = record { run = v.run; few = v.few }

-- The counters of an observation, after `seen` statuses.
pub record IsCounted (seen : ℕ) (o : TransportFeedbackSendObservation) : Type 0 where
  pub statuses : o.lookup_hit + o.lookup_miss ≡ seen
  pub hits : o.received + o.not_received ≡ o.lookup_hit
  pub retransmitted :
      (o.received_retransmissions ≤ o.received) × (o.not_received_retransmissions ≤ o.not_received)

observe_packet-IsCounted :
    (seen : ℕ) (packet : TransportFeedbackSentPacket) (received now : _)
    (o : TransportFeedbackSendObservation)
    → IsCounted seen o
    → IsCounted (seen + 1) (observe_packet packet received now o)
unfolding observe_packet
observe_packet-IsCounted seen packet true now o c = record {
  statuses = ground (arith, c);
  hits = ground (arith, c);
  retransmitted = ground (arith, c);
}
observe_packet-IsCounted seen packet false now o c = record {
  statuses = ground (arith, c);
  hits = ground (arith, c);
  retransmitted = ground (arith, c);
}

abbrev pub HasU16 : RtcpTransportFeedbackStatus → Type 0
HasU16 s = s.sequence_number < 65536

pub front-IsRun :
    (first next : ℕ) (rs : List SentRecord)
    → IsRun first next rs
    → 0 < length rs
    → front_number rs ≡ first
unfolding front_number
front-IsRun first next [] h n = absurd (omega (arith, n))
front-IsRun first next (r ∷ rs) h n = h.0

-- A status with what the look-up gives.
observe_status-found :
    (rs : List SentRecord) (now n : ℕ) (s : RtcpTransportFeedbackStatus)
    (o : TransportFeedbackSendObservation) (r : SentRecord)
    → find_extended_sequence s.sequence_number rs ≡ some n
    → record_at rs (n - front_number rs) ≡ ok r
    → observe_status rs now s o ≡ ok (observe_packet r.packet s.received now o)
unfolding observe_status
observe_status-found rs now n s o r e at = ground (arith, e, at)

observe_status-missed :
    (rs : List SentRecord) (now : ℕ) (s : RtcpTransportFeedbackStatus)
    (o : TransportFeedbackSendObservation)
    → find_extended_sequence s.sequence_number rs ≡ none
    → observe_status rs now s o ≡ ok (record o { lookup_miss = o.lookup_miss + 1 })
unfolding observe_status
observe_status-missed rs now s o e = ground (arith, e)

module _ (first next now : ℕ) (rs : List SentRecord) (run : IsRun first next rs) where
  observe_status-IsCounted :
      (seen : ℕ) (s : RtcpTransportFeedbackStatus) (o : TransportFeedbackSendObservation)
      → HasU16 s
      → IsCounted seen o
      → Ensures (IsCounted (seen + 1)) (observe_status rs now s o)
  observe_status-IsCounted seen s o u c =
      elim (Option-cases (find_extended_sequence s.sequence_number rs)) [
        | inl e ↦
            subst (Ensures (IsCounted (seen + 1))) (sym (observe_status-missed rs now s o e))
              (record {
                statuses = omega (arith, c.statuses);
                hits = c.hits;
                retransmitted = c.retransmitted;
              })
        | inr found ↦ hit found.0 found.1
      ]
    where
      -- The index is within the history.
      hit :
          (n : ℕ)
          → find_extended_sequence s.sequence_number rs ≡ some n
          → Ensures (IsCounted (seen + 1)) (observe_status rs now s o)
      hit n e =
          let f : AreFound first next s.sequence_number (some n) =
            subst (AreFound first next s.sequence_number) e
              (find_extended_sequence-AreFound first next s.sequence_number rs run u) in
          let l : n - first < length rs = omega (arith, length-run first next rs run, f.0, f.1) in
          let (r, at, same) = record_at-IsRun first next (n - first) rs run l in
          let place : n - front_number rs ≡ n - first =
            omega (arith, front-IsRun first next rs run (omega (arith, l))) in
          subst (Ensures (IsCounted (seen + 1)))
            (sym (observe_status-found rs now n s o r e (ap (record_at rs) place ∙ at)))
            (observe_packet-IsCounted seen r.packet s.received now o c)

  observe_statuses-IsCounted :
      (seen : ℕ) (ss : List RtcpTransportFeedbackStatus) (o : TransportFeedbackSendObservation)
      → All HasU16 ss
      → IsCounted seen o
      → Ensures (IsCounted (seen + length ss)) (observe_statuses rs now ss o)
  unfolding observe_statuses
  observe_statuses-IsCounted seen [] o u c = subst (λ n. IsCounted n o) (omega arith) c
  observe_statuses-IsCounted seen (s ∷ ss) o u c =
      Ensures->>= (IsCounted (seen + 1)) _ (observe_status rs now s o) _
        (observe_status-IsCounted seen s o u.0 c)
        λ next d.
          Ensures-mono (IsCounted (seen + 1 + length ss)) _ _
            (observe_statuses-IsCounted (seen + 1) ss next u.1 d)
            λ q v. subst (λ n. IsCounted n q) (omega arith) v

-- On a history whose numbers run up to the next one, and feedback whose statuses have numbers of 16
-- bits, `observe` reads no record outside the history. Each status is a hit or a miss, each hit is of a
-- packet that was received or of one that was not, no more of them retransmissions, and the history
-- left still runs up to the next number, within its capacity.
pub observe-Ensures :
    (feedback : ParsedRtcpTransportFeedback) (now : ℕ) (h : TransportFeedbackSendHistory)
    → IsHistory h
    → All HasU16 feedback.statuses
    → Ensures
        (λ r. IsCounted (length feedback.statuses) r.0 × IsHistory r.1)
        (observe feedback now h)
unfolding observe add_observation
observe-Ensures feedback now h v u =
    let w =
      observe_feedback_packet_count-IsHistory feedback.feedback_packet_count (evict_old now h)
        (evict_old-IsHistory now h v.run) in
    let (first, l, run) = w.run in
    Ensures->>= (IsCounted (0 + length feedback.statuses)) _
      (observe_statuses _ now feedback.statuses (new_observation (length feedback.statuses))) _
      (observe_statuses-IsCounted first _ now _ run 0 feedback.statuses
        (new_observation (length feedback.statuses)) u
        (record { statuses = refl; hits = refl; retransmitted = (omega arith, omega arith) }))
      λ o c. (subst (λ n. IsCounted n o) (omega arith) c, record { run = w.run; few = w.few })
