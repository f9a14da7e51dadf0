-- ===== src/Rtcp/SdesBye/Safety.antt =====
-- Every read of the parsers of SDES and BYE packets is inside the packet, and their loops end.
use simple_webrtc.Base.{
  ℕ, zero, suc, ◌+◌, ◌*◌, ◌%◌, ◌≤◌, ◌<◌, ◌≡◌, refl, ap, ◌∙◌, true, not, Bool-cases, inl, inr, List,
  [], ◌∷◌, ◌++◌, length, All, All-append, ltb, leb, ◌==◌, ◌&&◌, if◌then◌else◌, arith, byte, at,
  read_u32, u32_at, Ensures, Ensures->>=, Ensures-reject, Ensures-mono, AreBytes, at-lt,
  length-subspan, String,
}
use simple_webrtc.Rtp.Packet.{RtcpPacketHeader, parse_rtcp_packet_header}
use simple_webrtc.Rtp.Packet.Layout.{IsRtcpHeaderOf, parse_rtcp_packet_header-Ensures}
use simple_webrtc.Rtcp.Builder.{align_4}
use simple_webrtc.Rtcp.SdesBye.{
  RtcpSdesItem, RtcpSdesChunk, RtcpByePacket, end_without_padding, rtcp_payload_end, end_of_chunk,
  parse_sdes_item, add_sdes_item, parse_sdes_items, parse_sdes_chunks, parse_rtcp_sdes_packet,
  parse_bye_ssrcs, parse_bye_reason, parse_rtcp_bye_packet,
}

abbrev IsEnd : List ℕ → ℕ → Type 0
IsEnd bytes e = (4 ≤ e) × (e ≤ length bytes)

rtcp_payload_end-Ensures :
    (header : RtcpPacketHeader) (bytes : List ℕ) (name : String)
    → 4 ≤ header.packet_size
    → Ensures (IsEnd bytes) (rtcp_payload_end header bytes name)
unfolding rtcp_payload_end end_without_padding byte
rtcp_payload_end-Ensures header bytes name h = ground arith

-- The CNAME is the first item of its type that is not empty.
unfoldable pub first_cname : List RtcpSdesItem → List ℕ
first_cname [] = []
first_cname (item ∷ items) =
    if item.item_type == 1 && not (length item.value == 0) then item.value else first_cname items

-- An item's type is not that of the end item, and its size fits its byte.
abbrev pub IsItem : RtcpSdesItem → Type 0
IsItem item = (0 < item.item_type) × (length item.value < 256)

abbrev pub IsChunk : RtcpSdesChunk → Type 0
IsChunk chunk = (chunk.cname ≡ first_cname chunk.items) × All IsItem chunk.items

empty-nil : (xs : List ℕ) → (length xs == 0) ≡ true → xs ≡ []
empty-nil [] e = refl
empty-nil (x ∷ xs) e = ground arith

first_cname-append :
    (items : List RtcpSdesItem) (item : RtcpSdesItem)
    → first_cname (items ++ item ∷ []) ≡ (
        if item.item_type == 1 && length (first_cname items) == 0
        then item.value
        else first_cname items)
unfolding first_cname
first_cname-append [] item = ground (arith, empty-nil item.value)
first_cname-append (x ∷ xs) item = ground (arith, first_cname-append xs item)

add_sdes_item-IsChunk :
    (item : RtcpSdesItem) (chunk : RtcpSdesChunk)
    → IsItem item
    → IsChunk chunk
    → IsChunk (add_sdes_item item chunk)
unfolding add_sdes_item
add_sdes_item-IsChunk item chunk i h =
    (cname, All-append IsItem chunk.items (item ∷ []) h.1 (i, tt))
  where
    cname : (add_sdes_item item chunk).cname ≡ first_cname (chunk.items ++ item ∷ [])
    cname = rw (h.0, first_cname-append chunk.items item)

end_of_chunk-Ensures :
    (bytes : List ℕ) (payload_end offset : ℕ)
    → Ensures
        (λ e. (offset ≤ e) × (e % 4 ≡ 0) × (e ≤ payload_end))
        (end_of_chunk bytes payload_end offset)
unfolding end_of_chunk align_4
end_of_chunk-Ensures bytes payload_end offset = ground arith

parse_sdes_item-Ensures :
    (bytes : List ℕ) (payload_end item_type offset : ℕ)
    → AreBytes bytes
    → payload_end ≤ length bytes
    → 0 < item_type
    → Ensures
        (λ r. IsItem r.0 × (offset < r.1) × (r.1 ≤ payload_end))
        (parse_sdes_item bytes payload_end item_type offset)
unfolding parse_sdes_item byte
parse_sdes_item-Ensures bytes payload_end item_type offset b h t =
    ground (arith, at-lt bytes offset b, length-subspan bytes (offset + 1) (at bytes offset))

parse_sdes_items-Ensures :
    (bytes : List ℕ) (payload_end fuel offset : ℕ) (chunk : RtcpSdesChunk)
    → AreBytes bytes
    → payload_end ≤ length bytes
    → offset ≤ payload_end
    → payload_end < offset + fuel
    → IsChunk chunk
    → Ensures
        (λ r. IsChunk r.0 × (r.0.ssrc ≡ chunk.ssrc) × (offset < r.1) × (r.1 ≤ payload_end))
        (parse_sdes_items bytes payload_end fuel offset chunk)
unfolding parse_sdes_items
parse_sdes_items-Ensures bytes payload_end zero offset chunk b h l f c = absurd (omega arith)
parse_sdes_items-Ensures bytes payload_end (suc fuel) offset chunk b h l f c =
    Ensures-reject _ (leb payload_end offset) _ _ λ e.
      Ensures->>= (λ v. Unit {0}) _ (byte bytes offset) _ (unfold byte in ground (arith, e))
        λ item_type t. elim (Bool-cases (item_type == 0)) [
          | inl z ↦ rw z (
              Ensures->>= (λ e. (offset + 1 ≤ e) × (e % 4 ≡ 0) × (e ≤ payload_end)) _
                (end_of_chunk bytes payload_end (offset + 1)) _
                (end_of_chunk-Ensures bytes payload_end (offset + 1))
                λ e k. (c, refl, omega arith, k.2))
          | inr n ↦ rw n (
              Ensures->>= (λ r. IsItem r.0 × (offset + 1 < r.1) × (r.1 ≤ payload_end)) _
                (parse_sdes_item bytes payload_end item_type (offset + 1)) _
                (parse_sdes_item-Ensures bytes payload_end item_type (offset + 1) b h
                  (ground (arith, n)))
                λ r k.
                  Ensures-mono
                    (λ q. IsChunk q.0 × (q.0.ssrc ≡ chunk.ssrc) × (r.1 < q.1) × (q.1 ≤ payload_end))
                    _ _
                    (parse_sdes_items-Ensures bytes payload_end fuel r.1 (add_sdes_item r.0 chunk) b
                      h k.2 (omega arith) (add_sdes_item-IsChunk r.0 chunk k.0 c))
                    λ q v. (v.0, v.1, omega arith, v.3))
        ]

-- The first chunk has the source that stands behind the header.
abbrev pub StartsAt : List ℕ → ℕ → List RtcpSdesChunk → Type 0
StartsAt bytes offset [] = Unit {0}
StartsAt bytes offset (chunk ∷ chunks) = chunk.ssrc ≡ u32_at bytes offset

parse_sdes_chunks-Ensures :
    (bytes : List ℕ) (payload_end count offset : ℕ)
    → AreBytes bytes
    → payload_end ≤ length bytes
    → Ensures
        (λ r. All IsChunk r.0 × (length r.0 ≡ count) × StartsAt bytes offset r.0)
        (parse_sdes_chunks bytes payload_end count offset)
unfolding parse_sdes_chunks
parse_sdes_chunks-Ensures bytes payload_end zero offset b h = (tt, refl, tt)
parse_sdes_chunks-Ensures bytes payload_end (suc count) offset b h =
    Ensures-reject _ (ltb payload_end (offset + 4)) _ _ λ e.
      Ensures->>= (λ v. v ≡ u32_at bytes offset) _ (read_u32 bytes offset) _
        (unfold read_u32 byte in ground (arith, e))
        λ ssrc t.
          let fresh : RtcpSdesChunk = record { ssrc = ssrc; cname = []; items = [] } in
          Ensures->>=
            (λ r. IsChunk r.0 × (r.0.ssrc ≡ ssrc) × (offset + 4 < r.1) × (r.1 ≤ payload_end)) _
            (parse_sdes_items bytes payload_end (length bytes + 1) (offset + 4) fresh) _
            (parse_sdes_items-Ensures bytes payload_end (length bytes + 1) (offset + 4) fresh b h
              (ground (arith, e)) (omega arith) (unfold first_cname in refl, tt))
            λ r v.
              Ensures->>= (λ r. All IsChunk r.0 × (length r.0 ≡ count) × Unit {0}) _
                (parse_sdes_chunks bytes payload_end count r.1) _
                (Ensures-mono (λ q. All IsChunk q.0 × (length q.0 ≡ count) × StartsAt bytes r.1 q.0)
                  _ _ (parse_sdes_chunks-Ensures bytes payload_end count r.1 b h)
                  λ q w. (w.0, w.1, tt))
                λ q w. ((v.0, w.0), omega arith, v.1 ∙ t)

-- What parsed source descriptions say of the bytes.
pub record AreChunksOf (bytes : List ℕ) (chunks : List RtcpSdesChunk) : Type 0 where
  pub count : length chunks ≡ at bytes 0 % 32
  pub first : StartsAt bytes 4 chunks
  pub named : All IsChunk chunks

-- On any bytes `parse_rtcp_sdes_packet` ends without a read outside the packet. It returns as many
-- chunks as the header counts, the first with the source in bytes 4 to 7, each with a CNAME that is
-- its first item of type 1 that is not empty, and with items of a type that is not 0 and at most 255
-- bytes.
pub parse_rtcp_sdes_packet-Ensures :
    (bytes : List ℕ) → AreBytes bytes → Ensures (AreChunksOf bytes) (parse_rtcp_sdes_packet bytes)
unfolding parse_rtcp_sdes_packet
parse_rtcp_sdes_packet-Ensures bytes b =
    Ensures->>= (IsRtcpHeaderOf bytes) _ (parse_rtcp_packet_header bytes) _
      (parse_rtcp_packet_header-Ensures bytes)
      λ header h. Ensures-reject _ (not (header.packet_type == 202)) _ _ λ t.
        Ensures->>= (IsEnd bytes) _ (rtcp_payload_end header bytes "sdes") _
          (rtcp_payload_end-Ensures header bytes "sdes" (omega (arith, h.size)))
          λ e k.
            Ensures->>= (λ r. All IsChunk r.0 × (length r.0 ≡ header.count) × StartsAt bytes 4 r.0)
              _ (parse_sdes_chunks bytes e header.count 4) _
              (parse_sdes_chunks-Ensures bytes e header.count 4 b k.1)
              λ r v.
                Ensures-reject _ (not (r.1 == e)) _ _
                  λ x. record { count = v.1 ∙ h.count; first = v.2; named = v.0 }

-- The sources in the words from an offset on.
unfoldable pub words_at : List ℕ → ℕ → ℕ → List ℕ
words_at bytes offset zero = []
words_at bytes offset (suc count) = u32_at bytes offset ∷ words_at bytes (offset + 4) count

parse_bye_ssrcs-Ensures :
    (bytes : List ℕ) (payload_end count offset : ℕ)
    → payload_end ≤ length bytes
    → offset ≤ payload_end
    → Ensures
        (λ ssrcs. (ssrcs ≡ words_at bytes offset count) × (offset + count * 4 ≤ payload_end))
        (parse_bye_ssrcs bytes payload_end count offset)
unfolding parse_bye_ssrcs words_at read_u32 byte
parse_bye_ssrcs-Ensures bytes payload_end zero offset h l = ground arith
parse_bye_ssrcs-Ensures bytes payload_end (suc count) offset h l =
    ground (arith, parse_bye_ssrcs-Ensures bytes payload_end count (offset + 4))

parse_bye_reason-Ensures :
    (bytes : List ℕ) (payload_end offset : ℕ)
    → AreBytes bytes
    → payload_end ≤ length bytes
    → offset ≤ payload_end
    → Ensures (λ reason. length reason < 256) (parse_bye_reason bytes payload_end offset)
unfolding parse_bye_reason byte
parse_bye_reason-Ensures bytes payload_end offset b h l =
    ground (arith, at-lt bytes offset b, length-subspan bytes (offset + 1) (at bytes offset))

pub record IsByeOf (bytes : List ℕ) (bye : RtcpByePacket) : Type 0 where
  pub sources : bye.ssrcs ≡ words_at bytes 4 (at bytes 0 % 32)
  pub short : length bye.reason < 256

-- On any bytes `parse_rtcp_bye_packet` ends without a read outside the packet. The sources that it
-- returns are those in the words behind the header, as many as it counts, and the reason has at most
-- 255 bytes.
pub parse_rtcp_bye_packet-Ensures :
    (bytes : List ℕ) → AreBytes bytes → Ensures (IsByeOf bytes) (parse_rtcp_bye_packet bytes)
unfolding parse_rtcp_bye_packet
parse_rtcp_bye_packet-Ensures bytes b =
    Ensures->>= (IsRtcpHeaderOf bytes) _ (parse_rtcp_packet_header bytes) _
      (parse_rtcp_packet_header-Ensures bytes)
      λ header h. Ensures-reject _ (not (header.packet_type == 203)) _ _ λ t.
        Ensures->>= (IsEnd bytes) _ (rtcp_payload_end header bytes "bye") _
          (rtcp_payload_end-Ensures header bytes "bye" (omega (arith, h.size)))
          λ e k.
            Ensures->>=
              (λ ssrcs. (ssrcs ≡ words_at bytes 4 header.count) × (4 + header.count * 4 ≤ e)) _
              (parse_bye_ssrcs bytes e header.count 4) _
              (parse_bye_ssrcs-Ensures bytes e header.count 4 k.1 k.0)
              λ ssrcs v.
                Ensures->>= (λ reason. length reason < 256) _
                  (parse_bye_reason bytes e (4 + header.count * 4)) _
                  (parse_bye_reason-Ensures bytes e (4 + header.count * 4) b k.1 v.1)
                  λ reason w. record { sources = v.0 ∙ ap (words_at bytes 4) h.count; short = w }
