-- ===== src/Rtcp/TransportFeedback/Deltas.antt =====
-- The receive deltas of rtcp_transport_feedback.cpp: what `write_deltas` writes, `parse_statuses` reads.
use mathlib.Core.List.{append_assoc, append-nil}
use simple_webrtc.Base.{
  ℕ, zero, suc, ◌+◌, ◌*◌, ◌%◌, ◌≤◌, ◌<◌, ◌≡◌, refl, ap, ◌∙◌, true, false, List, [], ◌∷◌, ◌++◌,
  length, length-append, none, some, ok, u16_bytes, read_u16, read_u16-append, byte, byte-append,
  at, arith, zeros, overwrite-then,
}
use simple_webrtc.Base.Int.{ℤ, pos, negsuc}
use simple_webrtc.Rtcp.TransportFeedback.{
  RtcpTransportFeedbackStatus, u16_of_i16, i16_of_u16, write_chunks, write_deltas, read_i16,
  parse_delta, parse_statuses, sum_sizes,
}
use simple_webrtc.Rtcp.TransportFeedback.Chunks.{chunks_bytes}

abbrev pub IsSmallDelta : ℤ → Type 0
IsSmallDelta (pos n) = n < 256
IsSmallDelta (negsuc n) = ⊥

abbrev pub IsI16 : ℤ → Type 0
IsI16 (pos n) = n < 32768
IsI16 (negsuc n) = n < 32768

-- One delta for each packet that was received, of its size.
abbrev pub FitSizes : List ℕ → List ℤ → Type 0
FitSizes [] [] = Unit {0}
FitSizes [] (d ∷ ds) = ⊥
FitSizes (zero ∷ ss) ds = FitSizes ss ds
FitSizes (suc s ∷ ss) [] = ⊥
FitSizes (suc zero ∷ ss) (d ∷ ds) = IsSmallDelta d × FitSizes ss ds
FitSizes (suc (suc zero) ∷ ss) (d ∷ ds) = IsI16 d × FitSizes ss ds
FitSizes (suc (suc (suc s)) ∷ ss) (d ∷ ds) = ⊥

unfoldable pub deltas_bytes : List ℕ → List ℤ → List ℕ
deltas_bytes [] ds = []
deltas_bytes (zero ∷ ss) ds = deltas_bytes ss ds
deltas_bytes (suc s ∷ ss) [] = []
deltas_bytes (suc zero ∷ ss) (d ∷ ds) = (u16_of_i16 d % 256) ∷ deltas_bytes ss ds
deltas_bytes (suc (suc s) ∷ ss) (d ∷ ds) = u16_bytes (u16_of_i16 d) ++ deltas_bytes ss ds

pub length-deltas_bytes :
    (ss : List ℕ) (ds : List ℤ) → FitSizes ss ds → length (deltas_bytes ss ds) ≡ sum_sizes ss
unfolding deltas_bytes sum_sizes
length-deltas_bytes [] ds h = refl
length-deltas_bytes (zero ∷ ss) ds h = omega (arith, length-deltas_bytes ss ds h)
length-deltas_bytes (suc s ∷ ss) [] h = absurd h
length-deltas_bytes (suc zero ∷ ss) (d ∷ ds) h = omega (arith, length-deltas_bytes ss ds h.1)
length-deltas_bytes (suc (suc zero) ∷ ss) (d ∷ ds) h = omega (arith, length-deltas_bytes ss ds h.1)
length-deltas_bytes (suc (suc (suc s)) ∷ ss) (d ∷ ds) h = absurd h

pub write_chunks-zeros :
    (front : List ℕ) (offset size rest : ℕ) (cs : List ℕ)
    → offset ≡ length front
    → size ≡ length cs * 2 + rest
    → write_chunks (front ++ zeros size) offset cs ≡ ok ((front ++ chunks_bytes cs) ++ zeros rest)
unfolding write_chunks chunks_bytes
write_chunks-zeros front offset size rest [] e f =
    rw (f, append-nil) (ap (λ k. ok (front ++ zeros k)) (omega arith))
write_chunks-zeros front offset size rest (c ∷ cs) e f =
    overwrite-then front _ offset size (length cs * 2 + rest) _ e (omega arith) (
      write_chunks-zeros (front ++ u16_bytes c) (offset + 2) (length cs * 2 + rest) rest cs
        (omega (arith, length-append front (u16_bytes c))) refl
      ∙ simp append_assoc)

pub write_deltas-zeros :
    (front : List ℕ) (offset size rest : ℕ) (ss : List ℕ) (ds : List ℤ)
    → FitSizes ss ds
    → offset ≡ length front
    → size ≡ sum_sizes ss + rest
    → write_deltas (front ++ zeros size) offset ss ds
      ≡ ok ((front ++ deltas_bytes ss ds) ++ zeros rest)
unfolding write_deltas deltas_bytes sum_sizes
write_deltas-zeros front offset size rest [] ds h e f =
    rw (f, append-nil) (ap (λ k. ok (front ++ zeros k)) (omega arith))
write_deltas-zeros front offset size rest (zero ∷ ss) ds h e f =
    write_deltas-zeros front offset size rest ss ds h e (omega arith)
write_deltas-zeros front offset size rest (suc s ∷ ss) [] h e f = absurd h
write_deltas-zeros front offset size rest (suc zero ∷ ss) (d ∷ ds) h e f =
    overwrite-then front _ offset size (sum_sizes ss + rest) _ e (omega arith) (
      write_deltas-zeros (front ++ (u16_of_i16 d % 256) ∷ []) (offset + 1) (sum_sizes ss + rest)
        rest ss ds h.1 (omega (arith, length-append front ((u16_of_i16 d % 256) ∷ []))) refl
      ∙ simp append_assoc)
write_deltas-zeros front offset size rest (suc (suc zero) ∷ ss) (d ∷ ds) h e f =
    overwrite-then front _ offset size (sum_sizes ss + rest) _ e (omega arith) (
      write_deltas-zeros (front ++ u16_bytes (u16_of_i16 d)) (offset + 2) (sum_sizes ss + rest) rest
        ss ds h.1 (omega (arith, length-append front (u16_bytes (u16_of_i16 d)))) refl
      ∙ simp append_assoc)
write_deltas-zeros front offset size rest (suc (suc (suc s)) ∷ ss) (d ∷ ds) h e f = absurd h

unfoldable pub statuses_of : ℕ → List ℕ → List ℤ → List RtcpTransportFeedbackStatus
statuses_of sequence [] ds = []
statuses_of sequence (zero ∷ ss) ds =
    record { sequence_number = sequence; received = false; delta_ticks = none }
    ∷ statuses_of ((sequence + 1) % 65536) ss ds
statuses_of sequence (suc s ∷ ss) [] = []
statuses_of sequence (suc s ∷ ss) (d ∷ ds) =
    record { sequence_number = sequence; received = true; delta_ticks = some d }
    ∷ statuses_of ((sequence + 1) % 65536) ss ds

small_lem : (d : ℤ) → IsSmallDelta d → pos (u16_of_i16 d % 256) ≡ d
unfolding u16_of_i16
small_lem (pos n) h = ground arith
small_lem (negsuc n) h = absurd h

large_lem : (d : ℤ) → IsI16 d → (i16_of_u16 (u16_of_i16 d) ≡ d) × (u16_of_i16 d < 65536)
unfolding u16_of_i16 i16_of_u16
large_lem (pos n) h = ground arith
large_lem (negsuc n) h = ground arith

pub parse_statuses-bytes :
    (front rest : List ℕ) (offset effective_size sequence : ℕ) (ss : List ℕ) (ds : List ℤ)
    → FitSizes ss ds
    → offset ≡ length front
    → offset + sum_sizes ss ≤ effective_size
    → parse_statuses (front ++ (deltas_bytes ss ds ++ rest)) effective_size sequence ss offset
      ≡ ok (statuses_of sequence ss ds, offset + sum_sizes ss)
unfolding parse_statuses parse_delta read_i16 deltas_bytes sum_sizes statuses_of
parse_statuses-bytes front rest offset eff seq [] [] h e f = ground arith
parse_statuses-bytes front rest offset eff seq [] (d ∷ ds) h e f = absurd h
parse_statuses-bytes front rest offset eff seq (zero ∷ ss) ds h e f = ground (
  arith,
  parse_statuses-bytes front rest offset eff ((seq + 1) % 65536) ss ds h e (omega (arith, f)),
)
parse_statuses-bytes front rest offset eff seq (suc s ∷ ss) [] h e f = absurd h
parse_statuses-bytes front rest offset eff seq (suc zero ∷ ss) (d ∷ ds) h e f = ground (
  arith,
  byte-append front ((u16_of_i16 d % 256) ∷ (deltas_bytes ss ds ++ rest)) 0 offset (omega arith),
  first_byte,
  small_lem d h.0,
  append_assoc front ((u16_of_i16 d % 256) ∷ []) (deltas_bytes ss ds ++ rest),
  parse_statuses-bytes (front ++ (u16_of_i16 d % 256) ∷ []) rest (offset + 1) eff
      ((seq + 1) % 65536) ss ds h.1 (omega (arith, length-append front ((u16_of_i16 d % 256) ∷ [])))
      (omega arith),
)
  where
    first_byte :
        byte ((u16_of_i16 d % 256) ∷ (deltas_bytes ss ds ++ rest)) 0 ≡ ok (u16_of_i16 d % 256)
    first_byte = unfold byte at in ground arith
parse_statuses-bytes front rest offset eff seq (suc (suc zero) ∷ ss) (d ∷ ds) h e f = ground (
  arith,
  read_u16-append front (u16_bytes (u16_of_i16 d) ++ (deltas_bytes ss ds ++ rest)) 0 offset
      (omega arith),
  first_word,
  large_lem d h.0,
  append_assoc front (u16_bytes (u16_of_i16 d)) (deltas_bytes ss ds ++ rest),
  parse_statuses-bytes (front ++ u16_bytes (u16_of_i16 d)) rest (offset + 2) eff ((seq + 1) % 65536)
      ss ds h.1 (omega (arith, length-append front (u16_bytes (u16_of_i16 d)))) (omega arith),
)
  where
    first_word :
        read_u16 (u16_bytes (u16_of_i16 d) ++ (deltas_bytes ss ds ++ rest)) 0 ≡ ok (u16_of_i16 d)
    first_word = unfold read_u16 byte at in ground (arith, large_lem d h.0)
parse_statuses-bytes front rest offset eff seq (suc (suc (suc s)) ∷ ss) (d ∷ ds) h e f = absurd h
