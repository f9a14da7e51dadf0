-- ===== src/Rtcp/SendHistory/Runs.antt =====
-- What every sequence of calls of `transport_feedback_send_history` keeps.
use simple_webrtc.Base.{ℕ, List, [], ◌∷◌, length, All, Result, ok, ◌>>=◌, Ensures, Ensures->>=}
use simple_webrtc.Rtcp.TransportFeedback.{ParsedRtcpTransportFeedback}
use simple_webrtc.Rtcp.SendHistory.{
  TransportFeedbackSentPacket, TransportFeedbackSendHistory, new_history, remember_sent, observe,
  expire, reset,
}
use simple_webrtc.Rtcp.SendHistory.Operations.{
  evict_old-IsHistory, remember_sent-IsHistory, new_history-IsHistory, reset-IsHistory, IsHistory,
  observe-Ensures, IsCounted, HasU16,
}

-- The calls of a session, one after the other, from a new history on.
pub data Call : Type 0 where
  remember : TransportFeedbackSentPacket → Call
  feedback : ParsedRtcpTransportFeedback → ℕ → Call
  expire_at : ℕ → Call
  reset_all : Call

unfoldable pub call : Call → TransportFeedbackSendHistory → Result TransportFeedbackSendHistory
call (remember packet) h = ok (remember_sent packet h)
call (feedback f now) h = observe f now h >>= λ r. ok r.1
call (expire_at now) h = ok (expire now h)
call reset_all h = ok (reset h)

unfoldable pub run_calls :
    List Call → TransportFeedbackSendHistory → Result TransportFeedbackSendHistory
unfolding call
run_calls [] h = ok h
run_calls (c ∷ cs) h = call c h >>= run_calls cs

unfoldable pub HasU16s : Call → Type 0
HasU16s (remember packet) = Unit {0}
HasU16s (feedback f now) = All HasU16 f.statuses
HasU16s (expire_at now) = Unit {0}
HasU16s reset_all = Unit {0}

call-Ensures :
    (c : Call) (h : TransportFeedbackSendHistory)
    → HasU16s c
    → IsHistory h
    → Ensures IsHistory (call c h)
unfolding call HasU16s expire
call-Ensures (remember packet) h u v = remember_sent-IsHistory packet h v
call-Ensures (feedback f now) h u v =
    Ensures->>= (λ r. IsCounted (length f.statuses) r.0 × IsHistory r.1) _ (observe f now h) _
      (observe-Ensures f now h v u) λ r w. w.1
call-Ensures (expire_at now) h u v = evict_old-IsHistory now h v.run
call-Ensures reset_all h u v = reset-IsHistory h

run_calls-Ensures :
    (cs : List Call) (h : TransportFeedbackSendHistory)
    → All HasU16s cs
    → IsHistory h
    → Ensures IsHistory (run_calls cs h)
unfolding run_calls
run_calls-Ensures [] h u v = v
run_calls-Ensures (c ∷ cs) h u v =
    Ensures->>= IsHistory _ (call c h) _ (call-Ensures c h u.0 v)
      λ q w. run_calls-Ensures cs q u.1 w

-- From a new history on, whatever packets are remembered, feedback with numbers of 16 bits observed,
-- time passed and resets made, no call reads outside the history; its records have consecutive
-- extended numbers, the last one before the next number, and are no more than the capacity.
pub run_calls-IsHistory :
    (age packets : ℕ) (cs : List Call)
    → All HasU16s cs
    → Ensures IsHistory (run_calls cs (new_history age packets))
run_calls-IsHistory age packets cs u =
    run_calls-Ensures cs (new_history age packets) u (new_history-IsHistory age packets)
