-- ===== src/Rtcp/SdesBye.antt =====
-- The members of rtp/rtcp_compound_packet.h and rtp/rtcp_compound_packet.cpp that no other file
-- parses: source descriptions and BYE packets. A text is the list of its bytes, and the span `data`
-- is called `bytes`.
pub mod Safety
use simple_webrtc.Base.{
  ℕ, zero, suc, ◌+◌, ◌-◌, ◌*◌, ◌/◌, Bool, true, false, ◌||◌, ◌&&◌, List, [], ◌∷◌, ◌++◌, ltb, leb,
  ◌==◌, not, if◌then◌else◌, Option, none, some, length, Result, ok, err, fault, ◌>>=◌, ◌>>◌, reject,
  byte, read_u32, subspan, String, ◌<>◌,
}
use simple_webrtc.Rtp.Packet.{RtcpPacketHeader, parse_rtcp_packet_header}
use simple_webrtc.Rtcp.Builder.{align_4}
use simple_webrtc.Rtcp.TransportFeedback.{all_zero}

pub record RtcpSdesItem : Type 0 where
  pub item_type : ℕ
  pub value : List ℕ

pub record RtcpSdesChunk : Type 0 where
  pub ssrc : ℕ
  pub cname : List ℕ
  pub items : List RtcpSdesItem

pub record RtcpByePacket : Type 0 where
  pub ssrcs : List ℕ
  pub reason : List ℕ

unfoldable pub trailing_bytes_are_zero : List ℕ → ℕ → ℕ → Bool
unfolding all_zero
trailing_bytes_are_zero bytes offset end =
    if ltb end offset || ltb (length bytes) end
    then false
    else all_zero (subspan bytes offset (end - offset))

abbrev about : String → String → String
about packet_name message = "rtcp " <> packet_name <> message

unfoldable pub end_without_padding : List ℕ → Bool → ℕ → String → Result ℕ
end_without_padding bytes false payload_end packet_name = ok payload_end
end_without_padding bytes true payload_end packet_name = do
  reject (leb payload_end 4) (about packet_name " padding packet is too short")
  padding_size ← byte bytes (payload_end - 1)
  reject (padding_size == 0) (about packet_name " padding size is zero")
  reject (ltb (payload_end - 4) padding_size) (about packet_name " padding exceeds packet size")
  ok (payload_end - padding_size)

unfoldable pub rtcp_payload_end : RtcpPacketHeader → List ℕ → String → Result ℕ
unfolding end_without_padding
rtcp_payload_end header bytes packet_name = do
  reject (ltb (length bytes) header.packet_size) (about packet_name " packet exceeds buffer size")
  end_without_padding bytes header.padding header.packet_size packet_name

-- The end item of a chunk, with the zeros up to the next word: the offset behind them.
unfoldable pub end_of_chunk : List ℕ → ℕ → ℕ → Result ℕ
unfolding trailing_bytes_are_zero align_4
end_of_chunk bytes payload_end offset = do
  reject (ltb payload_end (align_4 offset)) "rtcp sdes chunk padding is truncated"
  reject (not (trailing_bytes_are_zero bytes offset (align_4 offset)))
      "rtcp sdes chunk padding is not zero"
  ok (align_4 offset)

-- An item of the given type, of which the size stands at the offset, and the offset behind it.
unfoldable pub parse_sdes_item : List ℕ → ℕ → ℕ → ℕ → Result (RtcpSdesItem × ℕ)
parse_sdes_item bytes payload_end item_type offset = do
  reject (leb payload_end offset) "rtcp sdes item length is truncated"
  item_size ← byte bytes offset
  reject (ltb payload_end (offset + 1 + item_size)) "rtcp sdes item value is truncated"
  ok (
    record { item_type = item_type; value = subspan bytes (offset + 1) item_size },
    offset + 1 + item_size,
  )

-- The first CNAME that is not empty names the chunk.
unfoldable pub add_sdes_item : RtcpSdesItem → RtcpSdesChunk → RtcpSdesChunk
add_sdes_item item chunk = record chunk {
  cname = if item.item_type == 1 && length chunk.cname == 0 then item.value else chunk.cname;
  items = chunk.items ++ item ∷ [];
}

-- `while (offset < *payload_end)`, and the test of `end_item_seen` behind it.
unfoldable pub parse_sdes_items : List ℕ → ℕ → ℕ → ℕ → RtcpSdesChunk → Result (RtcpSdesChunk × ℕ)
unfolding end_of_chunk parse_sdes_item add_sdes_item
parse_sdes_items bytes payload_end zero offset chunk = fault
parse_sdes_items bytes payload_end (suc fuel) offset chunk = do
  reject (leb payload_end offset) "rtcp sdes chunk end item is missing"
  item_type ← byte bytes offset
  elim (item_type == 0) [
    | true ↦ (do chunk_end ← end_of_chunk bytes payload_end (offset + 1); ok (chunk, chunk_end))
    | false ↦ (do
      (item, next) ← parse_sdes_item bytes payload_end item_type (offset + 1)
      parse_sdes_items bytes payload_end fuel next (add_sdes_item item chunk))
  ]

unfoldable pub parse_sdes_chunks : List ℕ → ℕ → ℕ → ℕ → Result (List RtcpSdesChunk × ℕ)
unfolding parse_sdes_items
parse_sdes_chunks bytes payload_end zero offset = ok ([], offset)
parse_sdes_chunks bytes payload_end (suc count) offset = do
  reject (ltb payload_end (offset + 4)) "rtcp sdes chunk ssrc is truncated"
  ssrc ← read_u32 bytes offset
  (chunk, next) ←
      parse_sdes_items bytes payload_end (length bytes + 1) (offset + 4)
        (record { ssrc = ssrc; cname = []; items = [] })
  (chunks, chunks_end) ← parse_sdes_chunks bytes payload_end count next
  ok (chunk ∷ chunks, chunks_end)

unfoldable pub parse_rtcp_sdes_packet : List ℕ → Result (List RtcpSdesChunk)
unfolding rtcp_payload_end
parse_rtcp_sdes_packet bytes = do
  header ← parse_rtcp_packet_header bytes
  reject (not (header.packet_type == 202)) "rtcp packet is not sdes"
  payload_end ← rtcp_payload_end header bytes "sdes"
  (chunks, chunks_end) ← parse_sdes_chunks bytes payload_end header.count 4
  reject (not (chunks_end == payload_end)) "rtcp sdes packet has trailing payload bytes"
  ok chunks

unfoldable pub parse_bye_ssrcs : List ℕ → ℕ → ℕ → ℕ → Result (List ℕ)
parse_bye_ssrcs bytes payload_end zero offset = ok []
parse_bye_ssrcs bytes payload_end (suc count) offset = do
  reject (ltb payload_end (offset + 4)) "rtcp bye ssrc list is truncated"
  ssrc ← read_u32 bytes offset
  ssrcs ← parse_bye_ssrcs bytes payload_end count (offset + 4)
  ok (ssrc ∷ ssrcs)

-- The reason behind the sources, where there is one.
unfoldable pub parse_bye_reason : List ℕ → ℕ → ℕ → Result (List ℕ)
unfolding trailing_bytes_are_zero
parse_bye_reason bytes payload_end offset = if offset == payload_end then ok [] else (do
  reason_size ← byte bytes offset
  reject (ltb payload_end (offset + 1 + reason_size)) "rtcp bye reason is truncated"
  reject (not (trailing_bytes_are_zero bytes (offset + 1 + reason_size) payload_end))
      "rtcp bye reason padding is not zero"
  ok (subspan bytes (offset + 1) reason_size))

unfoldable pub parse_rtcp_bye_packet : List ℕ → Result RtcpByePacket
parse_rtcp_bye_packet bytes = do
  header ← parse_rtcp_packet_header bytes
  reject (not (header.packet_type == 203)) "rtcp packet is not bye"
  payload_end ← rtcp_payload_end header bytes "bye"
  ssrcs ← parse_bye_ssrcs bytes payload_end header.count 4
  reason ← parse_bye_reason bytes payload_end (4 + header.count * 4)
  ok (record { ssrcs = ssrcs; reason = reason })
