-- ===== src/Rtcp/FirSequenceTracker.antt =====
-- rtp/rtcp_fir_sequence_tracker.h and rtp/rtcp_fir_sequence_tracker.cpp: the last full intra request
-- of each sender for each source. The `std::unordered_map` is an association list.
pub mod Latest
use simple_webrtc.Base.{
  ℕ, ◌+◌, ◌*◌, ◌^◌, Bool, true, false, List, [], ◌∷◌, ◌==◌, if◌then◌else◌, Option, none, some,
}

pub record RtcpFirSequenceTracker : Type 0 where
  pub last_sequence_by_sender_and_media : List (ℕ × ℕ)

-- `(sender << 32) | media`, for a media SSRC of 32 bits.
unfoldable pub make_sequence_key : ℕ → ℕ → ℕ
make_sequence_key sender_ssrc media_ssrc = sender_ssrc * 4294967296 + media_ssrc

unfoldable pub find : ℕ → List (ℕ × ℕ) → Option ℕ
find key [] = none
find key ((k, n) ∷ m) = if k == key then some n else find key m

unfoldable pub insert_or_assign : ℕ → ℕ → List (ℕ × ℕ) → List (ℕ × ℕ)
insert_or_assign key number [] = (key, number) ∷ []
insert_or_assign key number ((k, n) ∷ m) =
    if k == key then (key, number) ∷ m else (k, n) ∷ insert_or_assign key number m

unfoldable pub is_repeated : Option ℕ → ℕ → Bool
is_repeated none sequence_number = false
is_repeated (some previous) sequence_number = previous == sequence_number

unfoldable pub accept : ℕ → ℕ → ℕ → RtcpFirSequenceTracker → Bool × RtcpFirSequenceTracker
unfolding is_repeated
accept sender_ssrc media_ssrc sequence_number t =
    let key = make_sequence_key sender_ssrc media_ssrc in
    let map = t.last_sequence_by_sender_and_media in
    if is_repeated (find key map) sequence_number then (false, t) else (
      true,
      record { last_sequence_by_sender_and_media = insert_or_assign key sequence_number map },
    )

unfoldable pub clear : RtcpFirSequenceTracker → RtcpFirSequenceTracker
clear t = record { last_sequence_by_sender_and_media = [] }
