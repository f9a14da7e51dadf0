-- ===== src/Rtcp/RoundTrip/ByeParts.antt =====
-- The sources and the reason of a BYE packet, written by rtcp_packet_builder.cpp and read by
-- rtcp_compound_packet.cpp.
use mathlib.Core.List.{append_assoc}
use simple_webrtc.Base.{
  ℕ, suc, ◌+◌, ◌*◌, ◌%◌, ◌≤◌, ◌<◌, ◌≡◌, ◌≢◌, refl, ap, sym, ◌∙◌, true, false, List, [], ◌∷◌, ◌++◌,
  subspan-append, All, length, ltb, ◌==◌, length-append, ok, overwrite-zeros, overwrite-then, zeros,
  if◌then◌else◌, byte, byte-append, at, read_u32, read_u32-append, subspan, u32_bytes, arith,
}
use simple_webrtc.Rtcp.Builder.{write_ssrcs, write_reason, reject_zero_ssrcs}
use simple_webrtc.Rtcp.RoundTrip.Blocks.{IsU32}
use simple_webrtc.Rtcp.RoundTrip.Sdes.{trailing_bytes_are_zero-zeros}
use simple_webrtc.Rtcp.SdesBye.{trailing_bytes_are_zero, parse_bye_ssrcs, parse_bye_reason}

unfoldable pub words_bytes : List ℕ → List ℕ
words_bytes [] = []
words_bytes (v ∷ vs) = u32_bytes v ++ words_bytes vs

pub length-words_bytes : (vs : List ℕ) → length (words_bytes vs) ≡ length vs * 4
unfolding words_bytes
length-words_bytes [] = refl
length-words_bytes (v ∷ vs) = omega (arith, length-words_bytes vs)

-- Nothing was written.
unwritten :
    (front : List ℕ) (size rest : ℕ)
    → size ≡ rest
    → front ++ zeros size ≡ (front ++ []) ++ zeros rest
unwritten front size rest e =
    ap (λ n. front ++ zeros n) e ∙ sym (append_assoc front [] (zeros rest))

pub write_ssrcs-zeros :
    (front : List ℕ) (offset size rest : ℕ) (vs : List ℕ)
    → offset ≡ length front
    → size ≡ length vs * 4 + rest
    → write_ssrcs (front ++ zeros size) offset vs ≡ ok ((front ++ words_bytes vs) ++ zeros rest)
unfolding write_ssrcs words_bytes
write_ssrcs-zeros front offset size rest [] e f =
    ap ok (unwritten front size rest (omega (arith, f)))
write_ssrcs-zeros front offset size rest (v ∷ vs) e f =
    overwrite-then front _ offset size (length vs * 4 + rest) _ e (omega arith) (
      write_ssrcs-zeros (front ++ u32_bytes v) (offset + 4) (length vs * 4 + rest) rest vs
        (omega (arith, length-append front (u32_bytes v))) refl
      ∙ simp append_assoc)

-- A source that is not 0.
abbrev pub IsSource : ℕ → Type 0
IsSource v = (v ≢ 0) × IsU32 v

pub reject_zero_ssrcs-ok : (vs : List ℕ) → All IsSource vs → reject_zero_ssrcs vs ≡ ok tt
unfolding reject_zero_ssrcs
reject_zero_ssrcs-ok [] h = refl
reject_zero_ssrcs-ok (v ∷ vs) h = ground (arith, h.0.0, reject_zero_ssrcs-ok vs h.1)

unfoldable pub reason_bytes : List ℕ → List ℕ
reason_bytes [] = []
reason_bytes (c ∷ cs) = (length (c ∷ cs) % 256) ∷ (c ∷ cs)

abbrev pub reason_size : List ℕ → ℕ
reason_size reason = if length reason == 0 then 0 else 1 + length reason

pub length-reason_bytes : (reason : List ℕ) → length (reason_bytes reason) ≡ reason_size reason
unfolding reason_bytes
length-reason_bytes [] = refl
length-reason_bytes (c ∷ cs) = ground arith

pub write_reason-zeros :
    (front : List ℕ) (offset size rest : ℕ) (reason : List ℕ)
    → offset ≡ length front
    → size ≡ reason_size reason + rest
    → write_reason (front ++ zeros size) offset reason
      ≡ ok ((front ++ reason_bytes reason) ++ zeros rest)
unfolding write_reason reason_bytes
write_reason-zeros front offset size rest [] e f =
    ap ok (unwritten front size rest (omega (arith, f)))
write_reason-zeros front offset size rest (c ∷ cs) e f =
    overwrite-then front _ offset size (suc (length cs) + rest) _ e (ground arith) (
      overwrite-zeros (front ++ (suc (length cs) % 256) ∷ []) (c ∷ cs) (offset + 1)
        (suc (length cs) + rest) rest
        (omega (arith, length-append front ((suc (length cs) % 256) ∷ []))) (omega arith)
      ∙ simp append_assoc)

read-u32_bytes :
    (front rest : List ℕ) (offset v : ℕ)
    → offset ≡ length front
    → IsU32 v
    → read_u32 (front ++ (u32_bytes v ++ rest)) offset ≡ ok v
unfolding read_u32 byte at
read-u32_bytes front rest offset v e u =
    read_u32-append front (u32_bytes v ++ rest) 0 offset (omega arith) ∙ ground arith

pub parse_bye_ssrcs-bytes :
    (front rest : List ℕ) (offset payload_end : ℕ) (vs : List ℕ)
    → offset ≡ length front
    → offset + length vs * 4 ≤ payload_end
    → All IsSource vs
    → parse_bye_ssrcs (front ++ (words_bytes vs ++ rest)) payload_end (length vs) offset ≡ ok vs
unfolding parse_bye_ssrcs words_bytes
parse_bye_ssrcs-bytes front rest offset payload_end [] e l h = refl
parse_bye_ssrcs-bytes front rest offset payload_end (v ∷ vs) e l h =
    let tail =
      parse_bye_ssrcs-bytes (front ++ u32_bytes v) rest (offset + 4) payload_end vs
        (omega (arith, length-append front (u32_bytes v))) (omega arith) h.1 in
    rw (inside, read-u32_bytes front (words_bytes vs ++ rest) offset v e h.0.1, regroup tail) refl
  where
    inside : ltb payload_end (offset + 4) ≡ false
    inside = ground arith

    regroup :
        parse_bye_ssrcs
            ((front ++ u32_bytes v) ++ (words_bytes vs ++ rest))
            payload_end
            (length vs)
            (offset + 4)
          ≡ ok vs
        → parse_bye_ssrcs
            (front ++ (u32_bytes v ++ (words_bytes vs ++ rest)))
            payload_end
            (length vs)
            (offset + 4)
          ≡ ok vs
    regroup t = rw append_assoc at t

-- The end of the parser, with what it reads of the reason.
reason-read :
    (bytes reason : List ℕ) (payload_end offset : ℕ)
    → 0 < length reason
    → offset + 1 + length reason ≤ payload_end
    → byte bytes offset ≡ ok (length reason)
    → subspan bytes (offset + 1) (length reason) ≡ reason
    → trailing_bytes_are_zero bytes (offset + 1 + length reason) payload_end ≡ true
    → parse_bye_reason bytes payload_end offset ≡ ok reason
unfolding parse_bye_reason
reason-read bytes reason payload_end offset n l b s z = ground (arith, b, s, z)

pub parse_bye_reason-bytes :
    (front : List ℕ) (offset payload_end rest : ℕ) (reason : List ℕ)
    → offset ≡ length front
    → length reason < 256
    → payload_end ≡ offset + reason_size reason + rest
    → rest < 4
    → payload_end % 4 ≡ 0
    → offset % 4 ≡ 0
    → parse_bye_reason ((front ++ reason_bytes reason) ++ zeros rest) payload_end offset ≡ ok reason
unfolding reason_bytes
parse_bye_reason-bytes front offset payload_end rest [] e l f small m o =
    unfold parse_bye_reason in ground arith
parse_bye_reason-bytes front offset payload_end rest (c ∷ cs) e l f small m o =
    reason-read packet (c ∷ cs) payload_end offset (omega arith) (ground arith) size value (
      trailing_bytes_are_zero-zeros (front ++ (n % 256) ∷ (c ∷ cs)) rest (offset + 1 + n)
        payload_end (omega (arith, length-append front ((n % 256) ∷ (c ∷ cs)))) (ground arith))
  where
    n : ℕ
    n = suc (length cs)

    packet : List ℕ
    packet = (front ++ (n % 256) ∷ (c ∷ cs)) ++ zeros rest

    size : byte packet offset ≡ ok n
    size =
        ap (λ p. byte p offset) (append_assoc front ((n % 256) ∷ (c ∷ cs)) (zeros rest))
        ∙ (byte-append front _ 0 offset (omega arith) ∙ (unfold byte at in ground arith))

    value : subspan packet (offset + 1) n ≡ c ∷ cs
    value =
        ap (λ p. subspan p (offset + 1) n) regroup
        ∙ subspan-append (front ++ (n % 256) ∷ []) (c ∷ cs) (zeros rest) (offset + 1) n
            (omega (arith, length-append front ((n % 256) ∷ []))) refl
      where
        regroup :
            (front ++ (n % 256) ∷ (c ∷ cs)) ++ zeros rest
            ≡ (front ++ (n % 256) ∷ []) ++ ((c ∷ cs) ++ zeros rest)
        regroup = simp append_assoc
