-- ===== src/Rtcp/TransportFeedback/Safety.antt =====
-- Every read of `parse_rtcp_transport_feedback` is inside the packet, and its loops end.
use simple_webrtc.Base.{
  ℕ, zero, suc, ◌+◌, ◌-◌, ◌*◌, ◌/◌, ◌%◌, ◌≤◌, ◌<◌, min, ◌≡◌, refl, ◌∙◌, Bool, true, false, not,
  List, [], ◌∷◌, replicate, length, length-append, length-replicate, All-append, Option, none, some,
  ltb, ◌==◌, ◌||◌, bit_set, arith, byte, read_u16, read_u32, u16_at, u32_at, Ensures, Ensures->>=,
  Ensures-reject,
}
use simple_webrtc.Base.Int.{ℤ}
use simple_webrtc.Rtcp.TransportFeedback.{
  RtcpTransportFeedbackStatus, ParsedRtcpTransportFeedback, one_bit_symbols, two_bit_symbols,
  decode_chunk, parse_status_chunks, parse_delta, parse_statuses, read_i16, read_u24,
  transport_feedback_end, trailing_bytes_are_zero, parse_feedback_body,
  parse_rtcp_transport_feedback,
}
use simple_webrtc.Rtcp.TransportFeedback.Symbols.{AreSymbols}

one_bit_symbols-AreSymbols :
    (shift count chunk : ℕ)
    → count ≤ shift
    → AreSymbols (one_bit_symbols shift count chunk)
      × (length (one_bit_symbols shift count chunk) ≡ count)
unfolding one_bit_symbols
one_bit_symbols-AreSymbols shift zero chunk h = (tt, refl)
one_bit_symbols-AreSymbols zero (suc count) chunk h = absurd (omega arith)
one_bit_symbols-AreSymbols (suc shift) (suc count) chunk h =
    ground (arith, one_bit_symbols-AreSymbols shift count chunk)

two_bit_symbols-Ensures :
    (shift count chunk : ℕ)
    → count ≤ shift
    → Ensures (λ xs. AreSymbols xs × (length xs ≡ count)) (two_bit_symbols shift count chunk)
unfolding two_bit_symbols
two_bit_symbols-Ensures shift zero chunk h = (tt, refl)
two_bit_symbols-Ensures zero (suc count) chunk h = absurd (omega arith)
two_bit_symbols-Ensures (suc shift) (suc count) chunk h =
    ground (arith, two_bit_symbols-Ensures shift count chunk)

replicate-AreSymbols : (n s : ℕ) → s < 3 → AreSymbols (replicate n s)
replicate-AreSymbols zero s h = tt
replicate-AreSymbols (suc n) s h = (h, replicate-AreSymbols n s h)

-- At least one symbol, and no more than remain.
abbrev AreNext : ℕ → List ℕ → Type 0
AreNext remaining xs = AreSymbols xs × (0 < length xs) × (length xs ≤ remaining)

decode_chunk-Ensures :
    (chunk remaining : ℕ)
    → 0 < remaining
    → Ensures (AreNext remaining) (decode_chunk chunk remaining)
unfolding decode_chunk
decode_chunk-Ensures chunk remaining h = ground (
  arith,
  replicate-AreSymbols (min (chunk % 8192) remaining) (chunk / 8192 % 4),
  length-replicate (min (chunk % 8192) remaining) (chunk / 8192 % 4),
  one_bit_symbols-AreSymbols 14 (min 14 remaining) chunk,
  two_bit_symbols-Ensures 7 (min 7 remaining) chunk,
)

-- All symbols that were asked for, from chunks within the bytes that count.
abbrev AreSizes : ℕ → ℕ → ℕ → List ℕ × ℕ → Type 0
AreSizes remaining offset effective_size r =
    AreSymbols r.0 × (length r.0 ≡ remaining) × (offset ≤ r.1)

parse_status_chunks-Ensures :
    (packet : List ℕ) (effective_size fuel remaining offset : ℕ)
    → effective_size ≤ length packet
    → remaining ≤ fuel
    → Ensures
        (AreSizes remaining offset effective_size)
        (parse_status_chunks packet effective_size fuel remaining offset)
unfolding parse_status_chunks
parse_status_chunks-Ensures packet eff fuel zero offset h f = ground arith
parse_status_chunks-Ensures packet eff zero (suc remaining) offset h f = absurd (omega arith)
parse_status_chunks-Ensures packet eff (suc fuel) (suc remaining) offset h f =
    Ensures-reject _ (ltb eff (offset + 2)) _ _ λ e.
      Ensures->>= (λ c. Unit {0}) _ (read_u16 packet offset) _
        (unfold read_u16 byte in ground (arith, e))
        λ chunk t.
          Ensures->>= (AreNext (suc remaining)) _ (decode_chunk chunk (suc remaining)) _
            (decode_chunk-Ensures chunk (suc remaining) (omega arith))
            λ xs n.
              Ensures->>= (AreSizes (suc remaining - length xs) (offset + 2) eff) _
                (parse_status_chunks packet eff fuel (suc remaining - length xs) (offset + 2)) _
                (parse_status_chunks-Ensures packet eff fuel (suc remaining - length xs)
                  (offset + 2) h (omega arith))
                λ r v. (
                  All-append (λ x. x < 3) xs r.0 n.0 v.0,
                  omega (arith, length-append xs r.0),
                  omega arith,
                )

-- The packets follow one another from a sequence number on; one has a delta exactly if it arrived.
unfoldable pub has_delta : Option ℤ → Bool
has_delta none = false
has_delta (some d) = true

abbrev pub AreConsecutive : ℕ → List RtcpTransportFeedbackStatus → Type 0
AreConsecutive sequence [] = Unit {0}
AreConsecutive sequence (s ∷ ss) =
    (s.sequence_number ≡ sequence)
    × (s.received ≡ has_delta s.delta_ticks)
    × AreConsecutive ((sequence + 1) % 65536) ss

parse_delta-Ensures :
    (packet : List ℕ) (effective_size delta_size offset : ℕ)
    → effective_size ≤ length packet
    → delta_size < 3
    → Ensures
        (λ r. not (delta_size == 0) ≡ has_delta r.0)
        (parse_delta packet effective_size delta_size offset)
unfolding parse_delta read_i16 read_u16 byte has_delta
parse_delta-Ensures packet eff d offset h s = ground arith

parse_statuses-Ensures :
    (packet : List ℕ) (effective_size sequence : ℕ) (sizes : List ℕ) (offset : ℕ)
    → effective_size ≤ length packet
    → AreSymbols sizes
    → Ensures
        (λ r. AreConsecutive sequence r.0 × (length r.0 ≡ length sizes))
        (parse_statuses packet effective_size sequence sizes offset)
unfolding parse_statuses
parse_statuses-Ensures packet eff seq [] offset h s = (tt, refl)
parse_statuses-Ensures packet eff seq (d ∷ sizes) offset h s =
    Ensures->>= (λ r. not (d == 0) ≡ has_delta r.0) _ (parse_delta packet eff d offset) _
      (parse_delta-Ensures packet eff d offset h s.0)
      λ r e.
        Ensures->>= (λ q. AreConsecutive ((seq + 1) % 65536) q.0 × (length q.0 ≡ length sizes)) _
          (parse_statuses packet eff ((seq + 1) % 65536) sizes r.1) _
          (parse_statuses-Ensures packet eff ((seq + 1) % 65536) sizes r.1 h s.1)
          λ q v. ((refl, e, v.0), omega arith)

transport_feedback_end-Ensures :
    (packet : List ℕ) (padded : Bool)
    → 20 ≤ length packet
    → Ensures (λ e. (20 ≤ e) × (e ≤ length packet)) (transport_feedback_end packet padded)
unfolding transport_feedback_end byte
transport_feedback_end-Ensures packet false h = ground arith
transport_feedback_end-Ensures packet true h = ground arith

-- What parsed feedback says of the bytes.
pub record IsFeedbackOf (packet : List ℕ) (p : ParsedRtcpTransportFeedback) : Type 0 where
  pub sender : p.sender_ssrc ≡ u32_at packet 4
  pub media : p.media_ssrc ≡ u32_at packet 8
  pub base : p.base_sequence_number ≡ u16_at packet 12
  pub count : p.packet_status_count ≡ u16_at packet 14
  pub complete : length p.statuses ≡ p.packet_status_count
  pub limit : p.packet_status_count ≤ 8192
  pub consecutive : AreConsecutive p.base_sequence_number p.statuses

parse_feedback_body-Ensures :
    (packet : List ℕ) (effective_size : ℕ)
    → 20 ≤ length packet
    → effective_size ≤ length packet
    → Ensures (IsFeedbackOf packet) (parse_feedback_body packet effective_size)
unfolding parse_feedback_body
parse_feedback_body-Ensures packet eff h l =
    Ensures->>= (λ v. v ≡ u32_at packet 4) _ (read_u32 packet 4) _
      (unfold read_u32 byte in ground arith)
      λ sender e1.
        Ensures->>= (λ v. v ≡ u32_at packet 8) _ (read_u32 packet 8) _
          (unfold read_u32 byte in ground arith)
          λ media e2.
            Ensures->>= (λ v. v ≡ u16_at packet 12) _ (read_u16 packet 12) _
              (unfold read_u16 byte in ground arith)
              λ base e3.
                Ensures->>= (λ v. v ≡ u16_at packet 14) _ (read_u16 packet 14) _
                  (unfold read_u16 byte in ground arith)
                  λ count e4.
                    Ensures->>= (λ v. Unit {0}) _ (read_u24 packet 16) _
                      (unfold read_u24 byte in ground arith)
                      λ time t1.
                        Ensures->>= (λ v. Unit {0}) _ (byte packet 19) _
                          (unfold byte in ground arith)
                          λ feedbacks t2. Ensures-reject _ (ltb 8192 count) _ _ λ few.
                            Ensures->>= (AreSizes count 20 eff) _
                              (parse_status_chunks packet eff count count 20) _
                              (parse_status_chunks-Ensures packet eff count count 20 l
                                (omega arith))
                              λ sizes v.
                                Ensures->>=
                                  (λ r. AreConsecutive base r.0 × (length r.0 ≡ length sizes.0)) _
                                  (parse_statuses packet eff base sizes.0 sizes.1) _
                                  (parse_statuses-Ensures packet eff base sizes.0 sizes.1 l v.0)
                                  λ r w.
                                    Ensures-reject _ (not (trailing_bytes_are_zero packet r.1 eff))
                                      _ _
                                      λ z. record {
                                        sender = e1;
                                        media = e2;
                                        base = e3;
                                        count = e4;
                                        complete = w.1 ∙ v.1;
                                        limit = ground (arith, few);
                                        consecutive = w.0;
                                      }

-- On any bytes `parse_rtcp_transport_feedback` ends without a read outside the packet. Feedback that
-- it returns has the sender, media source, base and count of the bytes at their offsets, at most 8192
-- statuses and as many as the count says, with consecutive sequence numbers modulo 2 ^ 16 from the
-- base on, each with a delta exactly if the packet was received.
pub parse_rtcp_transport_feedback-Ensures :
    (packet : List ℕ) → Ensures (IsFeedbackOf packet) (parse_rtcp_transport_feedback packet)
unfolding parse_rtcp_transport_feedback
parse_rtcp_transport_feedback-Ensures packet =
    Ensures-reject _ (ltb (length packet) 20 || not (length packet % 4 == 0)) _ _ λ e.
      let long : 20 ≤ length packet = ground (arith, e) in
      Ensures->>= (λ v. Unit {0}) _ (byte packet 0) _ (unfold byte in ground (arith, long))
        λ first t1.
          Ensures->>= (λ v. Unit {0}) _ (byte packet 1) _ (unfold byte in ground (arith, long))
            λ second t2.
              Ensures-reject _
                (not (first / 64 == 2) || not (first % 32 == 15) || not (second == 205)) _ _
                λ g.
                  Ensures->>= (λ v. Unit {0}) _ (read_u16 packet 2) _
                    (unfold read_u16 byte in ground (arith, long))
                    λ words t3. Ensures-reject _ (not ((words + 1) * 4 == length packet)) _ _ λ i.
                      Ensures->>= (λ e. (20 ≤ e) × (e ≤ length packet)) _
                        (transport_feedback_end packet (bit_set first 5)) _
                        (transport_feedback_end-Ensures packet (bit_set first 5) long)
                        λ eff k. parse_feedback_body-Ensures packet eff long k.1
