-- ===== src/Rtcp/TransportFeedback/RoundTrip.antt =====
-- Transport feedback written by `encode_transport_feedback_packet` and read by
-- `parse_rtcp_transport_feedback`.
use mathlib.Core.Path.{subst}
use mathlib.Core.List.{append_assoc}
use simple_webrtc.Base.{
  ℕ, ◌+◌, ◌*◌, ◌/◌, ◌≤◌, ◌≡◌, refl, ap, sym, ◌∙◌, true, false, List, ◌++◌, length, length-append,
  ok, ◌==◌, if◌then◌else◌, arith, ◌>>=◌,
}
use simple_webrtc.Base.Int.{ℤ}
use simple_webrtc.Rtcp.TransportFeedback.{
  chunks_from, encode_status_chunks, encode_transport_feedback_packet, transport_feedback_end,
  parse_status_chunks, parse_statuses, parse_rtcp_transport_feedback,
}
use simple_webrtc.Rtcp.TransportFeedback.Chunks.{
  chunks_bytes, length-chunks_bytes, chunks_from-Parses, Parses,
}
use simple_webrtc.Rtcp.TransportFeedback.Deltas.{
  FitSizes, deltas_bytes, length-deltas_bytes, statuses_of, parse_statuses-bytes,
}
use simple_webrtc.Rtcp.TransportFeedback.Encode.{
  Fields, padding_bytes, used_size, padding_of, header_bytes, feedback_bytes, encode-bytes,
}
use simple_webrtc.Rtcp.TransportFeedback.Header.{
  FitSizes-AreSymbols, sizes-le, IsFields, IsHeader, header_bytes-IsHeader, length-padding_bytes,
  end-padded, parsed_of, body-parsed, accepted,
}

module _ (f : Fields) (chunks sizes : List ℕ) (deltas : List ℤ) (h : FitSizes sizes deltas) where
  abbrev size : ℕ
  size = (used_size sizes chunks + 3) / 4 * 4

  abbrev head : List ℕ
  head = header_bytes f (padding_of sizes chunks) size (length sizes)

  length-front :
      length ((head ++ chunks_bytes chunks) ++ deltas_bytes sizes deltas) ≡ used_size sizes chunks
  length-front = omega (
    arith,
    twenty,
    length-append (head ++ chunks_bytes chunks) (deltas_bytes sizes deltas),
    length-append head (chunks_bytes chunks),
    length-chunks_bytes chunks,
    length-deltas_bytes sizes deltas h,
  )
    where
      twenty : length head ≡ 20
      twenty = unfold header_bytes in refl

  length-feedback_bytes : length (feedback_bytes f chunks sizes deltas) ≡ size
  unfolding feedback_bytes
  length-feedback_bytes = omega (
    arith,
    length-front,
    length-append ((head ++ chunks_bytes chunks) ++ deltas_bytes sizes deltas)
        (padding_bytes (padding_of sizes chunks)),
    length-padding_bytes (padding_of sizes chunks),
  )

  chunks-parsed :
      Parses sizes chunks
      → parse_status_chunks
          (feedback_bytes f chunks sizes deltas)
          (used_size sizes chunks)
          (length sizes)
          (length sizes)
          20
        ≡ ok (sizes, 20 + length chunks * 2)
  unfolding feedback_bytes
  chunks-parsed p =
      ap
        (λ packet.
          parse_status_chunks packet (used_size sizes chunks) (length sizes) (length sizes) 20)
        regroup
      ∙ p head (deltas_bytes sizes deltas ++ padding_bytes (padding_of sizes chunks)) 20
          (used_size sizes chunks) (length sizes) (unfold header_bytes in refl) (omega arith)
          (omega arith)
    where
      regroup :
          ((head ++ chunks_bytes chunks) ++ deltas_bytes sizes deltas)
            ++ padding_bytes (padding_of sizes chunks)
          ≡ head
            ++ (chunks_bytes chunks
                ++ (deltas_bytes sizes deltas ++ padding_bytes (padding_of sizes chunks)))
      regroup = cc (
        append_assoc head (chunks_bytes chunks) (deltas_bytes sizes deltas),
        append_assoc head (chunks_bytes chunks ++ deltas_bytes sizes deltas)
            (padding_bytes (padding_of sizes chunks)),
        append_assoc (chunks_bytes chunks) (deltas_bytes sizes deltas)
            (padding_bytes (padding_of sizes chunks)),
      )

  statuses-parsed :
      parse_statuses
        (feedback_bytes f chunks sizes deltas)
        (used_size sizes chunks)
        f.base_sequence
        sizes
        (20 + length chunks * 2)
      ≡ ok (statuses_of f.base_sequence sizes deltas, used_size sizes chunks)
  unfolding feedback_bytes
  statuses-parsed =
      ap
        (λ packet.
          parse_statuses packet (used_size sizes chunks) f.base_sequence sizes
            (20 + length chunks * 2))
        (append_assoc (head ++ chunks_bytes chunks) (deltas_bytes sizes deltas)
          (padding_bytes (padding_of sizes chunks)))
      ∙ parse_statuses-bytes (head ++ chunks_bytes chunks) (padding_bytes (padding_of sizes chunks))
          (20 + length chunks * 2) (used_size sizes chunks) f.base_sequence sizes deltas h place
          (omega arith)
    where
      place : 20 + length chunks * 2 ≡ length (head ++ chunks_bytes chunks)
      place =
          omega
            (arith, twenty, length-append head (chunks_bytes chunks), length-chunks_bytes chunks)
        where
          twenty : length head ≡ 20
          twenty = unfold header_bytes in refl

  feedback_bytes-IsHeader :
      IsFields f
      → length sizes ≤ 8192
      → length chunks * 7 ≤ length sizes + 6
      → IsHeader f
          (padding_of sizes chunks)
          size
          (length sizes)
          (feedback_bytes f chunks sizes deltas)
  unfolding feedback_bytes
  feedback_bytes-IsHeader v few compact =
      subst (IsHeader f (padding_of sizes chunks) size (length sizes)) (sym regroup) (
        header_bytes-IsHeader f (padding_of sizes chunks) size (length sizes)
          (chunks_bytes chunks
            ++ (deltas_bytes sizes deltas ++ padding_bytes (padding_of sizes chunks)))
          v (omega arith) (omega (arith, sizes-le sizes (FitSizes-AreSymbols sizes deltas h))))
    where
      regroup :
          ((head ++ chunks_bytes chunks) ++ deltas_bytes sizes deltas)
            ++ padding_bytes (padding_of sizes chunks)
          ≡ head
            ++ (chunks_bytes chunks
                ++ (deltas_bytes sizes deltas ++ padding_bytes (padding_of sizes chunks)))
      regroup = cc (
        append_assoc head (chunks_bytes chunks) (deltas_bytes sizes deltas),
        append_assoc head (chunks_bytes chunks ++ deltas_bytes sizes deltas)
            (padding_bytes (padding_of sizes chunks)),
        append_assoc (chunks_bytes chunks) (deltas_bytes sizes deltas)
            (padding_bytes (padding_of sizes chunks)),
      )

  end-parsed :
      transport_feedback_end
        (feedback_bytes f chunks sizes deltas)
        (if padding_of sizes chunks == 0 then false else true)
      ≡ ok (used_size sizes chunks)
  unfolding feedback_bytes
  end-parsed =
      end-padded ((head ++ chunks_bytes chunks) ++ deltas_bytes sizes deltas)
        (padding_of sizes chunks) (omega (arith, length-front))
      ∙ ap ok length-front

-- Transport feedback with fields that fit their widths, for at most 8192 packets, each of them not
-- received or with a delta that fits its size, is encoded, and parsing the packet gives back the
-- fields, and for each packet in turn its sequence number, whether it was received, and its delta.
pub parse-encode_transport_feedback_packet :
    (f : Fields) (sizes : List ℕ) (deltas : List ℤ)
    → IsFields f
    → length sizes ≤ 8192
    → FitSizes sizes deltas
    → (encode_transport_feedback_packet f.sender_ssrc f.media_ssrc f.base_sequence f.reference_time
          f.feedback_packet_count sizes deltas
        >>= parse_rtcp_transport_feedback)
      ≡ ok (parsed_of f sizes deltas)
parse-encode_transport_feedback_packet f sizes deltas v few h =
    let (chunks, e, p, compact) =
      chunks_from-Parses (length sizes) sizes (omega arith) (FitSizes-AreSymbols sizes deltas h) in
    rw (encode-bytes f chunks sizes deltas (encoded chunks e) h) (
      accepted f (padding_of sizes chunks) (size f chunks sizes deltas h) (length sizes)
        (used_size sizes chunks) (feedback_bytes f chunks sizes deltas)
        (feedback_bytes-IsHeader f chunks sizes deltas h v few compact)
        (sym (length-feedback_bytes f chunks sizes deltas h)) (omega arith) (omega arith)
        (end-parsed f chunks sizes deltas h)
      ∙ body-parsed f (padding_of sizes chunks) (size f chunks sizes deltas h) sizes deltas
          (feedback_bytes f chunks sizes deltas) (20 + length chunks * 2) (used_size sizes chunks)
          (feedback_bytes-IsHeader f chunks sizes deltas h v few compact) few
          (chunks-parsed f chunks sizes deltas h p) (statuses-parsed f chunks sizes deltas h))
  where
    encoded :
        (chunks : List ℕ)
        → chunks_from (length sizes) sizes ≡ ok chunks
        → encode_status_chunks sizes ≡ ok chunks
    encoded chunks e = unfold encode_status_chunks in e
