-- ===== src/Rtcp/FirSequenceTracker/Latest.antt =====
-- rtcp_fir_sequence_tracker.cpp over a sequence of calls: a request is accepted unless it repeats.
use mathlib.Core.Path.{subst}
use simple_webrtc.Base.{
  ◌≢◌, ◌↔◌, Option-cases, inl, inr, ℕ, ◌<◌, ◌≡◌, refl, ap, ◌∙◌, true, ◌&&◌, List, [], ◌∷◌, ◌==◌,
  if◌then◌else◌, Option, none, some, arith,
}
use simple_webrtc.Rtcp.FirSequenceTracker.{
  RtcpFirSequenceTracker, make_sequence_key, find, insert_or_assign, is_repeated, accept, clear,
}

pub data Call : Type 0 where
  request : ℕ → ℕ → ℕ → Call
  clearing : Call

unfoldable pub step : Call → RtcpFirSequenceTracker → RtcpFirSequenceTracker
step (request sender media number) t = (accept sender media number t).1
step clearing t = clear t

unfoldable pub run : List Call → RtcpFirSequenceTracker → RtcpFirSequenceTracker
run [] t = t
run (c ∷ cs) t = run cs (step c t)

-- The number of the latest request of the sender for the source since the last `clear`.
unfoldable pub latest : ℕ → ℕ → List Call → Option ℕ → Option ℕ
latest sender media [] o = o
latest sender media (request s m n ∷ cs) o =
    latest sender media cs (if (s == sender) && (m == media) then some n else o)
latest sender media (clearing ∷ cs) o = latest sender media cs none

-- The media SSRCs have 32 bits.
abbrev pub AreU32 : List Call → Type 0
AreU32 [] = Unit {0}
AreU32 (request s m n ∷ cs) = (m < 4294967296) × AreU32 cs
AreU32 (clearing ∷ cs) = AreU32 cs

find-insert :
    (k j n : ℕ) (m : List (ℕ × ℕ))
    → find j (insert_or_assign k n m) ≡ (if k == j then some n else find j m)
unfolding find insert_or_assign
find-insert k j n [] = refl
find-insert k j n ((i, d) ∷ m) = ground (arith, find-insert k j n m)

abbrev held : ℕ → ℕ → RtcpFirSequenceTracker → Option ℕ
held sender media t = find (make_sequence_key sender media) t.last_sequence_by_sender_and_media

same_key :
    (s m sender media : ℕ)
    → m < 4294967296
    → media < 4294967296
    → (make_sequence_key s m == make_sequence_key sender media) ≡ ((s == sender) && (m == media))
unfolding make_sequence_key
same_key s m sender media h k = ground arith

repeated : (o : Option ℕ) (n : ℕ) → is_repeated o n ≡ true → o ≡ some n
unfolding is_repeated
repeated none n h = absurd (cc)
repeated (some p) n h = ground (arith, h)

accept_iff :
    (s m n : ℕ) (t : RtcpFirSequenceTracker) → ((accept s m n t).0 ≡ true) ↔ (held s m t ≢ some n)
unfolding accept is_repeated
accept_iff s m n t = elim (Option-cases (held s m t)) [
  | inl e ↦ rw e (ground arith)
  | inr (p, e) ↦ rw e (ground arith)
]

held-accept :
    (s m n sender media : ℕ) (t : RtcpFirSequenceTracker)
    → m < 4294967296
    → media < 4294967296
    → held sender media (accept s m n t).1
      ≡ (if (s == sender) && (m == media) then some n else held sender media t)
unfolding accept
held-accept s m n sender media t h k = ground (
  arith,
  same_key s m sender media h k,
  repeated (held s m t) n,
  find-insert (make_sequence_key s m) (make_sequence_key sender media) n
      t.last_sequence_by_sender_and_media,
)

held-run :
    (cs : List Call) (sender media : ℕ) (t : RtcpFirSequenceTracker)
    → AreU32 cs
    → media < 4294967296
    → held sender media (run cs t) ≡ latest sender media cs (held sender media t)
unfolding run step latest clear find
held-run [] sender media t h k = refl
held-run (request s m n ∷ cs) sender media t h k =
    held-run cs sender media (accept s m n t).1 h.1 k
    ∙ ap (latest sender media cs) (held-accept s m n sender media t h.0 k)
held-run (clearing ∷ cs) sender media t h k = held-run cs sender media (clear t) h k

-- After any sequence of calls on an empty tracker, with SSRCs of 32 bits, a request is accepted
-- exactly if its number is not that of the sender's latest request for the source since the last
-- `clear`, whether that one was accepted or not.
pub accept-run :
    (cs : List Call) (sender media number : ℕ)
    → AreU32 cs
    → media < 4294967296
    → ((accept sender media number (run cs (record { last_sequence_by_sender_and_media = [] }))).0
        ≡ true)
      ↔ (latest sender media cs none ≢ some number)
unfolding find
accept-run cs sender media number h k =
    subst (λ o. ((accept sender media number tracked).0 ≡ true) ↔ (o ≢ some number))
      (held-run cs sender media (record { last_sequence_by_sender_and_media = [] }) h k)
      (accept_iff sender media number tracked)
  where
    tracked : RtcpFirSequenceTracker
    tracked = run cs (record { last_sequence_by_sender_and_media = [] })
