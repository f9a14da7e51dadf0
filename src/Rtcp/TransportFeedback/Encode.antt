-- ===== src/Rtcp/TransportFeedback/Encode.antt =====
-- The bytes of a transport feedback packet: what `encode_transport_feedback_packet` computes.
use mathlib.Core.List.{append_assoc, append-nil}
use simple_webrtc.Base.{
  ℕ, zero, suc, ◌+◌, ◌-◌, ◌*◌, ◌/◌, ◌%◌, ◌^◌, ◌<◌, ◌≡◌, refl, ap, sym, ◌∙◌, false, List, [], ◌∷◌,
  ◌++◌, length, length-append, length-replicate, ok, ◌==◌, if◌then◌else◌, u16_bytes, u24_bytes,
  u32_bytes, arith, zeros, overwrite-then, overwrite-zeros, ◌>>=◌, write_byte,
}
use simple_webrtc.Base.Int.{ℤ}
use simple_webrtc.Rtcp.TransportFeedback.{
  encode_status_chunks, encoded_packet_size, encode_transport_feedback_packet, sum_sizes,
  write_chunks, write_deltas,
}
use simple_webrtc.Rtcp.TransportFeedback.Chunks.{chunks_bytes, length-chunks_bytes}
use simple_webrtc.Rtcp.TransportFeedback.Deltas.{
  FitSizes, deltas_bytes, length-deltas_bytes, write_chunks-zeros, write_deltas-zeros,
}

-- Zeros, and the size of the padding in its last byte.
unfoldable pub padding_bytes : ℕ → List ℕ
padding_bytes zero = []
padding_bytes (suc n) = zeros n ++ suc n ∷ []

-- The bytes from the header to the last delta, and those of the padding behind them.
abbrev pub used_size : List ℕ → List ℕ → ℕ
used_size sizes chunks = 20 + length chunks * 2 + sum_sizes sizes

abbrev pub padding_of : List ℕ → List ℕ → ℕ
padding_of sizes chunks = (used_size sizes chunks + 3) / 4 * 4 - used_size sizes chunks

-- The fields of the header that are given.
pub record Fields : Type 0 where
  pub sender_ssrc : ℕ
  pub media_ssrc : ℕ
  pub base_sequence : ℕ
  pub reference_time : ℕ
  pub feedback_packet_count : ℕ

-- The header as it is written, piece by piece.
module _ (f : Fields) (padding packet_size count : ℕ) where
  abbrev written_1 : List ℕ
  written_1 = (128 + (if padding == 0 then 0 else 32) + 15) ∷ []

  abbrev written_2 : List ℕ
  written_2 = written_1 ++ 205 ∷ []

  abbrev written_4 : List ℕ
  written_4 = written_2 ++ u16_bytes (packet_size / 4 - 1)

  abbrev written_8 : List ℕ
  written_8 = written_4 ++ u32_bytes f.sender_ssrc

  abbrev written_12 : List ℕ
  written_12 = written_8 ++ u32_bytes f.media_ssrc

  abbrev written_14 : List ℕ
  written_14 = written_12 ++ u16_bytes f.base_sequence

  abbrev written_16 : List ℕ
  written_16 = written_14 ++ u16_bytes count

  abbrev written_19 : List ℕ
  written_19 = written_16 ++ u24_bytes (f.reference_time % 2 ^ 24)

  unfoldable pub header_bytes : List ℕ
  header_bytes = written_19 ++ f.feedback_packet_count ∷ []

unfoldable pub feedback_bytes : Fields → List ℕ → List ℕ → List ℤ → List ℕ
feedback_bytes f chunks sizes deltas =
    ((header_bytes f (padding_of sizes chunks) ((used_size sizes chunks + 3) / 4 * 4) (length sizes)
        ++ chunks_bytes chunks)
      ++ deltas_bytes sizes deltas)
    ++ padding_bytes (padding_of sizes chunks)

write_padding :
    (front : List ℕ) (size n : ℕ)
    → size ≡ length front + n
    → n < 256
    → (if n == 0 then ok (front ++ zeros n) else write_byte (front ++ zeros n) (size - 1) (n % 256))
      ≡ ok (front ++ padding_bytes n)
unfolding padding_bytes
write_padding front size zero e l = refl
write_padding front size (suc n) e l =
    rw (nonzero, split)
      (overwrite-zeros (front ++ zeros n) _ (size - 1) 1 0
          (omega (arith, e, length-append front (zeros n), length-replicate {A = ℕ} n 0))
          (omega arith)
        ∙ last)
  where
    snoc : (k : ℕ) → zeros (suc k) ≡ zeros k ++ 0 ∷ []
    snoc zero = refl
    snoc (suc k) = ap (◌∷◌ 0) (snoc k)

    split : front ++ zeros (suc n) ≡ (front ++ zeros n) ++ zeros 1
    split = ap (λ z. front ++ z) (snoc n) ∙ sym (append_assoc front (zeros n) (0 ∷ []))

    nonzero : (suc n == 0) ≡ false
    nonzero = ground arith

    small : suc n % 256 ≡ suc n
    small = omega arith

    last :
        ok (((front ++ zeros n) ++ (suc n % 256) ∷ []) ++ [])
        ≡ ok (front ++ (zeros n ++ suc n ∷ []))
    last = cc (
      small,
      append-nil ((front ++ zeros n) ++ (suc n % 256) ∷ []),
      append_assoc front (zeros n) ((suc n % 256) ∷ []),
    )

-- What is written behind the header.
write_body :
    (head chunks sizes : List ℕ) (deltas : List ℤ) (room : ℕ)
    → length head ≡ 20
    → FitSizes sizes deltas
    → room ≡ length chunks * 2 + (sum_sizes sizes + padding_of sizes chunks)
    → (write_chunks (head ++ zeros room) 20 chunks >>= λ p.
        write_deltas p (20 + length chunks * 2) sizes deltas >>= λ p.
        if padding_of sizes chunks == 0
        then ok p
        else write_byte p
            ((used_size sizes chunks + 3) / 4 * 4 - 1)
            (padding_of sizes chunks % 256))
      ≡ ok (
          ((head ++ chunks_bytes chunks) ++ deltas_bytes sizes deltas)
          ++ padding_bytes (padding_of sizes chunks))
write_body head chunks sizes deltas room l h e =
    rw
      (
        write_chunks-zeros head 20 room (sum_sizes sizes + padding_of sizes chunks) chunks
            (omega arith) e,
        write_deltas-zeros (head ++ chunks_bytes chunks) (20 + length chunks * 2)
            (sum_sizes sizes + padding_of sizes chunks) (padding_of sizes chunks) sizes deltas h
            (omega (arith, length-append head (chunks_bytes chunks), length-chunks_bytes chunks))
            refl,
      )
      (write_padding ((head ++ chunks_bytes chunks) ++ deltas_bytes sizes deltas)
        ((used_size sizes chunks + 3) / 4 * 4) (padding_of sizes chunks)
        (omega (
          arith,
          l,
          length-append (head ++ chunks_bytes chunks) (deltas_bytes sizes deltas),
          length-append head (chunks_bytes chunks),
          length-chunks_bytes chunks,
          length-deltas_bytes sizes deltas h,
        ))
        (omega arith))

pub encode-bytes :
    (f : Fields) (chunks sizes : List ℕ) (deltas : List ℤ)
    → encode_status_chunks sizes ≡ ok chunks
    → FitSizes sizes deltas
    → encode_transport_feedback_packet f.sender_ssrc f.media_ssrc f.base_sequence f.reference_time
        f.feedback_packet_count sizes deltas
      ≡ ok (feedback_bytes f chunks sizes deltas)
unfolding encode_transport_feedback_packet encoded_packet_size feedback_bytes header_bytes
encode-bytes f chunks sizes deltas e h =
    let size = (used_size sizes chunks + 3) / 4 * 4 in
    let pad = padding_of sizes chunks in
    let n = length sizes in
    let r = length chunks * 2 + (sum_sizes sizes + padding_of sizes chunks) in
    rw e (
      overwrite-then [] (written_1 f pad size n) 0 size (19 + r) _ (omega arith) (omega arith) (
        overwrite-then (written_1 f pad size n) _ 1 (19 + r) (18 + r) _ (omega arith) (omega arith)
          (overwrite-then (written_2 f pad size n) _ 2 (18 + r) (16 + r) _ (omega arith)
            (omega arith)
            (overwrite-then (written_4 f pad size n) _ 4 (16 + r) (12 + r) _ (omega arith)
              (omega arith)
              (overwrite-then (written_8 f pad size n) _ 8 (12 + r) (8 + r) _ (omega arith)
                (omega arith)
                (overwrite-then (written_12 f pad size n) _ 12 (8 + r) (6 + r) _ (omega arith)
                  (omega arith)
                  (overwrite-then (written_14 f pad size n) _ 14 (6 + r) (4 + r) _ (omega arith)
                    (omega arith)
                    (overwrite-then (written_16 f pad size n) _ 16 (4 + r) (1 + r) _ (omega arith)
                      (omega arith)
                      (overwrite-then (written_19 f pad size n) _ 19 (1 + r) (0 + r) _ (omega arith)
                        (omega arith)
                        (write_body (header_bytes f pad size n) chunks sizes deltas (0 + r) refl h
                          (omega arith)))))))))))
