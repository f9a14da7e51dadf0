-- ===== src/Rtcp/SendHistory/Lookup.antt =====
-- A packet of the history is found from the 16 bits that the feedback carries.
use simple_webrtc.Base.{
  ℕ, zero, suc, ◌+◌, ◌-◌, ◌%◌, ◌≡◌, ◌≤◌, ◌<◌, ap, sym, ◌∙◌, List, [], ◌∷◌, some, length, ok, arith,
}
use simple_webrtc.Rtcp.SendHistory.{
  SentRecord, TransportFeedbackSendHistory, find_extended_sequence, record_at, front_number,
}
use simple_webrtc.Rtcp.SendHistory.Consecutive.{
  length-run, record_at-IsRun, find_extended_sequence-IsRun,
}
use simple_webrtc.Rtcp.SendHistory.Operations.{IsHistory, front-IsRun}

record_at-lt :
    (rs : List SentRecord) (i : ℕ) {r : SentRecord} → record_at rs i ≡ ok r → i < length rs
unfolding record_at
record_at-lt [] i e = absurd (cc)
record_at-lt (q ∷ rs) zero e = omega arith
record_at-lt (q ∷ rs) (suc i) e = omega (arith, record_at-lt rs i e)

-- In a history whose numbers run up to the next one, with a capacity of at most 2 ^ 15 packets, each
-- packet is found: from the low 16 bits of its extended number the look-up gives the whole number,
-- and at the distance of that number from the front stands the packet.
pub find_extended_sequence-record_at :
    (h : TransportFeedbackSendHistory) (i : ℕ) (r : SentRecord)
    → IsHistory h
    → h.maximum_history_packets ≤ 32768
    → record_at h.history i ≡ ok r
    → (find_extended_sequence (r.extended_sequence_number % 65536) h.history
        ≡ some r.extended_sequence_number)
      × (record_at h.history (r.extended_sequence_number - front_number h.history) ≡ ok r)
find_extended_sequence-record_at h i r v small e =
    let (first, l, run) = v.run in
    let inside = record_at-lt h.history i e in
    let (q, at, number) = record_at-IsRun first h.next_extended_sequence i h.history run inside in
    let same : q ≡ r = ok-same (sym at ∙ e) in
    let extended : r.extended_sequence_number ≡ first + i =
      ap (λ x. x.extended_sequence_number) (sym same) ∙ number in
    let place : r.extended_sequence_number - front_number h.history ≡ i = omega (
      arith,
      extended,
      front-IsRun first h.next_extended_sequence h.history run (omega (arith, inside)),
    ) in
    (
      find_extended_sequence-IsRun first h.next_extended_sequence r.extended_sequence_number
          h.history run (omega (arith, v.few, small)) (omega (arith, extended))
          (omega
            (arith, extended, inside, length-run first h.next_extended_sequence h.history run)),
      ap (record_at h.history) place ∙ e,
    )
  where
    ok-same : {a b : SentRecord} → ok a ≡ ok b → a ≡ b
    ok-same e = cc
