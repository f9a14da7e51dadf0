-- ===== src/Rtcp/TransportFeedback/Header.antt =====
-- The header and the padding of a feedback packet, as `parse_rtcp_transport_feedback` reads them.
use simple_webrtc.Base.{
  ℕ, zero, suc, ◌+◌, ◌-◌, ◌*◌, ◌/◌, ◌%◌, ◌≤◌, ◌<◌, ◌≡◌, refl, ap, ◌∙◌, true, false, not, ◌||◌, List,
  [], ◌∷◌, ◌++◌, length, length-append, length-replicate, ok, ltb, ◌==◌, bit_set, if◌then◌else◌,
  arith, zeros, byte, byte-append, at, read_u16, read_u32,
}
use simple_webrtc.Base.Int.{ℤ}
use simple_webrtc.Rtcp.TransportFeedback.{
  ParsedRtcpTransportFeedback, sum_sizes, read_u24, transport_feedback_end, parse_status_chunks,
  parse_statuses, parse_feedback_body, parse_rtcp_transport_feedback, trailing_bytes_are_zero,
}
use simple_webrtc.Rtcp.TransportFeedback.Symbols.{AreSymbols}
use simple_webrtc.Rtcp.TransportFeedback.Deltas.{FitSizes, statuses_of}
use simple_webrtc.Rtcp.TransportFeedback.Encode.{Fields, padding_bytes, header_bytes}

pub FitSizes-AreSymbols : (ss : List ℕ) (ds : List ℤ) → FitSizes ss ds → AreSymbols ss
FitSizes-AreSymbols [] ds h = tt
FitSizes-AreSymbols (zero ∷ ss) ds h = (omega arith, FitSizes-AreSymbols ss ds h)
FitSizes-AreSymbols (suc s ∷ ss) [] h = absurd h
FitSizes-AreSymbols (suc zero ∷ ss) (d ∷ ds) h = (omega arith, FitSizes-AreSymbols ss ds h.1)
FitSizes-AreSymbols (suc (suc zero) ∷ ss) (d ∷ ds) h = (omega arith, FitSizes-AreSymbols ss ds h.1)
FitSizes-AreSymbols (suc (suc (suc s)) ∷ ss) (d ∷ ds) h = absurd h

pub sizes-le : (ss : List ℕ) → AreSymbols ss → sum_sizes ss ≤ length ss * 2
unfolding sum_sizes
sizes-le [] h = omega arith
sizes-le (s ∷ ss) h = omega (arith, sizes-le ss h.1, h.0)

-- Fields that fit their widths.
pub record IsFields (f : Fields) : Type 0 where
  pub sender : f.sender_ssrc < 4294967296
  pub media : f.media_ssrc < 4294967296
  pub base : f.base_sequence < 65536
  pub time : f.reference_time < 16777216
  pub count : f.feedback_packet_count < 256

-- What is read from the header, whatever stands behind it.
pub record IsHeader (f : Fields) (padding size count : ℕ) (packet : List ℕ) : Type 0 where
  pub first : byte packet 0 ≡ ok (128 + (if padding == 0 then 0 else 32) + 15)
  pub second : byte packet 1 ≡ ok 205
  pub words : read_u16 packet 2 ≡ ok (size / 4 - 1)
  pub sender : read_u32 packet 4 ≡ ok f.sender_ssrc
  pub media : read_u32 packet 8 ≡ ok f.media_ssrc
  pub base : read_u16 packet 12 ≡ ok f.base_sequence
  pub statuses : read_u16 packet 14 ≡ ok count
  pub time : read_u24 packet 16 ≡ ok f.reference_time
  pub feedbacks : byte packet 19 ≡ ok f.feedback_packet_count

pub header_bytes-IsHeader :
    (f : Fields) (padding size count : ℕ) (rest : List ℕ)
    → IsFields f
    → count < 65536
    → size ≤ 262144
    → IsHeader f padding size count (header_bytes f padding size count ++ rest)
unfolding header_bytes read_u16 read_u24 read_u32 byte at
header_bytes-IsHeader f padding size count rest v c s = record {
  first = ground arith;
  second = ground arith;
  words = ground arith;
  sender = ground (arith, v);
  media = ground (arith, v);
  base = ground (arith, v);
  statuses = ground arith;
  time = ground (arith, v);
  feedbacks = ground arith;
}

last_byte :
    (front : List ℕ) (n : ℕ) → byte (front ++ padding_bytes (suc n)) (length front + n) ≡ ok (suc n)
unfolding padding_bytes
last_byte front n =
    byte-append front (zeros n ++ suc n ∷ []) n (length front + n) refl
    ∙ (byte-append (zeros n) (suc n ∷ []) 0 n (omega (arith, length-replicate {A = ℕ} n 0)) ∙ head)
  where
    head : byte (suc n ∷ []) 0 ≡ ok (suc n)
    head = unfold byte at in ground arith

pub length-padding_bytes : (n : ℕ) → length (padding_bytes n) ≡ n
unfolding padding_bytes
length-padding_bytes zero = refl
length-padding_bytes (suc n) =
    omega (arith, length-append (zeros n) (suc n ∷ []), length-replicate {A = ℕ} n 0)

pub end-padded :
    (front : List ℕ) (n : ℕ)
    → 20 ≤ length front
    → transport_feedback_end (front ++ padding_bytes n) (if n == 0 then false else true)
      ≡ ok (length front)
unfolding transport_feedback_end
end-padded front zero h =
    ap ok (omega (arith, length-append front (padding_bytes 0), length-padding_bytes 0))
end-padded front (suc n) h = ground (
  arith,
  last_byte front n,
  place,
  length-append front (padding_bytes (suc n)),
  length-padding_bytes (suc n),
)
  where
    place : length (front ++ padding_bytes (suc n)) - 1 ≡ length front + n
    place = omega (arith, length-append front (padding_bytes (suc n)), length-padding_bytes (suc n))

no_trailing : (packet : List ℕ) (end : ℕ) → trailing_bytes_are_zero packet end end ≡ true
unfolding trailing_bytes_are_zero
no_trailing packet end = rw none_left (ground arith)
  where
    none_left : end - end ≡ 0
    none_left = omega arith

unfoldable pub parsed_of : Fields → List ℕ → List ℤ → ParsedRtcpTransportFeedback
parsed_of f sizes deltas = record {
  sender_ssrc = f.sender_ssrc;
  media_ssrc = f.media_ssrc;
  base_sequence_number = f.base_sequence;
  packet_status_count = length sizes;
  reference_time = f.reference_time;
  feedback_packet_count = f.feedback_packet_count;
  statuses = statuses_of f.base_sequence sizes deltas;
}

-- The parser's last part, with what its reads give.
pub body-parsed :
    (f : Fields) (padding size : ℕ) (sizes : List ℕ) (deltas : List ℤ) (packet : List ℕ)
    (chunks_end used : ℕ)
    → IsHeader f padding size (length sizes) packet
    → length sizes ≤ 8192
    → parse_status_chunks packet used (length sizes) (length sizes) 20 ≡ ok (sizes, chunks_end)
    → parse_statuses packet used f.base_sequence sizes chunks_end
      ≡ ok (statuses_of f.base_sequence sizes deltas, used)
    → parse_feedback_body packet used ≡ ok (parsed_of f sizes deltas)
unfolding parse_feedback_body parsed_of
body-parsed f padding size sizes deltas packet chunks_end used h few c s =
    rw
      (
        h.sender,
        h.media,
        h.base,
        h.statuses,
        h.time,
        h.feedbacks,
        limit,
        c,
        s,
        no_trailing packet used,
      )
      refl
  where
    limit : ltb 8192 (length sizes) ≡ false
    limit = ground arith

-- The first byte: version 2, format 15, and the padding bit where there is padding.
first_bits :
    (padding : ℕ)
    → ((128 + (if padding == 0 then 0 else 32) + 15) / 64 ≡ 2)
      × ((128 + (if padding == 0 then 0 else 32) + 15) % 32 ≡ 15)
      × (bit_set (128 + (if padding == 0 then 0 else 32) + 15) 5
          ≡ (if padding == 0 then false else true))
first_bits padding = ground arith

-- The checks of the header, passed.
pub accepted :
    (f : Fields) (padding size count used : ℕ) (packet : List ℕ)
    → IsHeader f padding size count packet
    → size ≡ length packet
    → 20 ≤ size
    → size % 4 ≡ 0
    → transport_feedback_end packet (if padding == 0 then false else true) ≡ ok used
    → parse_rtcp_transport_feedback packet ≡ parse_feedback_body packet used
unfolding parse_rtcp_transport_feedback
accepted f padding size count used packet h e l m t =
    rw (checks.0, h.first, h.second, bits.0, bits.1, bits.2, h.words, checks.1, t) refl
  where
    bits :
        ((128 + (if padding == 0 then 0 else 32) + 15) / 64 ≡ 2)
        × ((128 + (if padding == 0 then 0 else 32) + 15) % 32 ≡ 15)
        × (bit_set (128 + (if padding == 0 then 0 else 32) + 15) 5
            ≡ (if padding == 0 then false else true))
    bits = first_bits padding

    checks :
        (ltb (length packet) 20 || not (length packet % 4 == 0) ≡ false)
        × (not ((size / 4 - 1 + 1) * 4 == length packet) ≡ false)
    checks = ground arith
