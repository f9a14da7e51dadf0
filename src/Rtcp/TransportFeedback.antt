-- ===== src/Rtcp/TransportFeedback.antt =====
-- rtp/rtcp_transport_feedback.h and rtp/rtcp_transport_feedback.cpp: the packet that reports the
-- arrival of each packet of the transport. A status symbol is the size of its delta, 0, 1 or 2, so
-- the `|` of symbols into a chunk is a sum; a span at an offset is the list of what is left.
pub mod Symbols
pub mod Chunks
pub mod Deltas
pub mod Encode
pub mod Header
pub mod RoundTrip
pub mod Safety
pub mod Dispatch
use simple_webrtc.Base.{
  ℕ, zero, suc, ◌+◌, ◌-◌, ◌*◌, ◌/◌, ◌%◌, ◌^◌, min, Bool, true, false, ◌||◌, ◌&&◌, List, [], ◌∷◌,
  ◌++◌, take, drop, replicate, ltb, leb, ◌==◌, not, if◌then◌else◌, bit_set, low_bits, Option, none,
  some, length, Result, ok, err, fault, ◌>>=◌, ◌>>◌, reject, byte, read_u16, read_u32, overwrite,
  write_byte, write_u16, write_u24, write_u32, zeros,
}
use simple_webrtc.Base.Int.{ℤ, pos, negsuc}

pub record RtcpTransportFeedbackStatus : Type 0 where
  pub sequence_number : ℕ
  pub received : Bool
  pub delta_ticks : Option ℤ

pub record ParsedRtcpTransportFeedback : Type 0 where
  pub sender_ssrc : ℕ
  pub media_ssrc : ℕ
  pub base_sequence_number : ℕ
  pub packet_status_count : ℕ
  pub reference_time : ℕ
  pub feedback_packet_count : ℕ
  pub statuses : List RtcpTransportFeedbackStatus

-- The symbols behind the first that are equal to it, `left` of them at most.
unfoldable pub run_behind : ℕ → ℕ → List ℕ → ℕ
run_behind symbol zero symbols = 0
run_behind symbol (suc left) [] = 0
run_behind symbol (suc left) (x ∷ xs) = if x == symbol then suc (run_behind symbol left xs) else 0

unfoldable pub one_bit_compatible : List ℕ → Bool
one_bit_compatible [] = true
one_bit_compatible (x ∷ xs) = if ltb 1 x then false else one_bit_compatible xs

-- The symbols at the digits `shift - 1`, `shift - 2` and so on: `<< (13 - index)` at base 2, and
-- `<< 2 * (6 - index)` at base 4.
unfoldable pub pack_symbols : ℕ → ℕ → List ℕ → ℕ
pack_symbols base zero symbols = 0
pack_symbols base (suc shift) [] = 0
pack_symbols base (suc shift) (x ∷ xs) = x * base ^ shift + pack_symbols base shift xs

-- A round of the outer loop, where the first symbol is left: the chunk, and how many it takes.
unfoldable pub next_chunk : ℕ → List ℕ → ℕ × ℕ
unfolding run_behind one_bit_compatible pack_symbols
next_chunk symbol rest =
    let run_length = suc (run_behind symbol 8190 rest) in
    let symbols = symbol ∷ rest in
    if leb 7 run_length
    then (symbol * 8192 + run_length, run_length)
    else if one_bit_compatible (take 14 symbols)
    then (32768 + pack_symbols 2 14 (take 14 symbols), min 14 (length symbols))
    else (49152 + pack_symbols 4 7 (take 7 symbols), min 7 (length symbols))

unfoldable pub chunks_from : ℕ → List ℕ → Result (List ℕ)
chunks_from fuel [] = ok []
chunks_from zero (x ∷ xs) = fault
chunks_from (suc fuel) (x ∷ xs) = do
  chunks ← chunks_from fuel (drop (next_chunk x xs).1 (x ∷ xs))
  ok ((next_chunk x xs).0 ∷ chunks)

unfoldable pub encode_status_chunks : List ℕ → Result (List ℕ)
encode_status_chunks symbols = chunks_from (length symbols) symbols

unfoldable pub sum_sizes : List ℕ → ℕ
sum_sizes [] = 0
sum_sizes (x ∷ xs) = x + sum_sizes xs

-- `(size + 3) & ~3`.
unfoldable pub encoded_packet_size : List ℕ → Result ℕ
unfolding sum_sizes
encoded_packet_size delta_sizes = do
  chunks ← encode_status_chunks delta_sizes
  ok ((20 + length chunks * 2 + sum_sizes delta_sizes + 3) / 4 * 4)

-- `static_cast<uint16_t>` and `static_cast<int16_t>`, for integers of 16 bits.
unfoldable pub u16_of_i16 : ℤ → ℕ
u16_of_i16 (pos n) = n
u16_of_i16 (negsuc n) = 65535 - n

unfoldable pub i16_of_u16 : ℕ → ℤ
i16_of_u16 w = if ltb w 32768 then pos w else negsuc (65535 - w)

unfoldable pub write_chunks : List ℕ → ℕ → List ℕ → Result (List ℕ)
write_chunks packet offset [] = ok packet
write_chunks packet offset (chunk ∷ chunks) = do
  p ← write_u16 packet offset chunk
  write_chunks p (offset + 2) chunks

-- `deltas[delta_index++]` past the end is a fault.
unfoldable pub write_deltas : List ℕ → ℕ → List ℕ → List ℤ → Result (List ℕ)
write_deltas packet offset [] deltas = ok packet
write_deltas packet offset (zero ∷ sizes) deltas = write_deltas packet offset sizes deltas
write_deltas packet offset (suc s ∷ sizes) [] = fault
write_deltas packet offset (suc zero ∷ sizes) (delta ∷ deltas) = do
  p ← write_byte packet offset (u16_of_i16 delta % 256)
  write_deltas p (offset + 1) sizes deltas
write_deltas packet offset (suc (suc s) ∷ sizes) (delta ∷ deltas) = do
  p ← write_u16 packet offset (u16_of_i16 delta)
  write_deltas p (offset + 2) sizes deltas

unfoldable pub encode_transport_feedback_packet :
    ℕ → ℕ → ℕ → ℕ → ℕ → List ℕ → List ℤ → Result (List ℕ)
encode_transport_feedback_packet sender_ssrc media_ssrc base_sequence reference_time
      feedback_packet_count delta_sizes deltas =
    do
      packet_size ← encoded_packet_size delta_sizes
      chunks ← encode_status_chunks delta_sizes
      let unpadded_size = 20 + length chunks * 2 + sum_sizes delta_sizes
      let padding_size = packet_size - unpadded_size
      p ← write_byte (zeros packet_size) 0 (128 + (if padding_size == 0 then 0 else 32) + 15)
      p ← write_byte p 1 205
      p ← write_u16 p 2 (packet_size / 4 - 1)
      p ← write_u32 p 4 sender_ssrc
      p ← write_u32 p 8 media_ssrc
      p ← write_u16 p 12 base_sequence
      p ← write_u16 p 14 (length delta_sizes)
      p ← write_u24 p 16 (low_bits reference_time 24)
      p ← write_byte p 19 feedback_packet_count
      p ← write_chunks p 20 chunks
      p ← write_deltas p (20 + length chunks * 2) delta_sizes deltas
      if padding_size == 0 then ok p else write_byte p (packet_size - 1) (padding_size % 256)

unfoldable pub read_u24 : List ℕ → ℕ → Result ℕ
read_u24 packet offset = do
  a ← byte packet offset
  b ← byte packet (offset + 1)
  c ← byte packet (offset + 2)
  ok (a * 65536 + b * 256 + c)

unfoldable pub read_i16 : List ℕ → ℕ → Result ℤ
unfolding i16_of_u16
read_i16 packet offset = do w ← read_u16 packet offset; ok (i16_of_u16 w)

-- A loop over `count` symbols of one bit, from the digit `shift - 1` on.
unfoldable pub one_bit_symbols : ℕ → ℕ → ℕ → List ℕ
one_bit_symbols shift zero chunk = []
one_bit_symbols zero (suc count) chunk = []
one_bit_symbols (suc shift) (suc count) chunk =
    (chunk / 2 ^ shift % 2) ∷ one_bit_symbols shift count chunk

-- The same for two bits, of which 3 is reserved.
unfoldable pub two_bit_symbols : ℕ → ℕ → ℕ → Result (List ℕ)
two_bit_symbols shift zero chunk = ok []
two_bit_symbols zero (suc count) chunk = ok []
two_bit_symbols (suc shift) (suc count) chunk = do
  reject (chunk / 4 ^ shift % 4 == 3) "rtcp transport feedback status symbol is reserved"
  symbols ← two_bit_symbols shift count chunk
  ok ((chunk / 4 ^ shift % 4) ∷ symbols)

-- The symbols of a chunk, `remaining` of them at most.
unfoldable pub decode_chunk : ℕ → ℕ → Result (List ℕ)
unfolding one_bit_symbols two_bit_symbols
decode_chunk chunk remaining =
    if not (bit_set chunk 15)
    then (do
      let symbol = chunk / 8192 % 4
      let run_length = low_bits chunk 13
      reject (run_length == 0 || symbol == 3) "rtcp transport feedback run-length chunk is invalid"
      ok (replicate (min run_length remaining) symbol))
    else if not (bit_set chunk 14)
    then ok (one_bit_symbols 14 (min 14 remaining) chunk)
    else two_bit_symbols 7 (min 7 remaining) chunk

-- `while (delta_sizes.size() < parsed.packet_status_count)`: the sizes still to come, and the offset
-- behind the chunks.
unfoldable pub parse_status_chunks : List ℕ → ℕ → ℕ → ℕ → ℕ → Result (List ℕ × ℕ)
parse_status_chunks packet effective_size fuel zero offset = ok ([], offset)
parse_status_chunks packet effective_size zero (suc remaining) offset = fault
parse_status_chunks packet effective_size (suc fuel) (suc remaining) offset = do
  reject (ltb effective_size (offset + 2)) "rtcp transport feedback status chunk is truncated"
  chunk ← read_u16 packet offset
  symbols ← decode_chunk chunk (suc remaining)
  (sizes, chunks_end) ←
      parse_status_chunks packet effective_size fuel (suc remaining - length symbols) (offset + 2)
  ok (symbols ++ sizes, chunks_end)

unfoldable pub parse_delta : List ℕ → ℕ → ℕ → ℕ → Result (Option ℤ × ℕ)
parse_delta packet effective_size delta_size offset =
    if delta_size == 1
    then (do
      reject (ltb effective_size (offset + 1)) "rtcp transport feedback small delta is truncated"
      small ← byte packet offset
      ok (some (pos small), offset + 1))
    else if delta_size == 2
    then (do
      reject (ltb effective_size (offset + 2)) "rtcp transport feedback large delta is truncated"
      large ← read_i16 packet offset
      ok (some large, offset + 2))
    else ok (none, offset)

unfoldable pub parse_statuses :
    List ℕ → ℕ → ℕ → List ℕ → ℕ → Result (List RtcpTransportFeedbackStatus × ℕ)
parse_statuses packet effective_size sequence [] offset = ok ([], offset)
parse_statuses packet effective_size sequence (delta_size ∷ delta_sizes) offset = do
  (delta_ticks, next) ← parse_delta packet effective_size delta_size offset
  (statuses, statuses_end) ←
      parse_statuses packet effective_size ((sequence + 1) % 65536) delta_sizes next
  ok (
    record {
      sequence_number = sequence;
      received = not (delta_size == 0);
      delta_ticks = delta_ticks;
    }
        ∷ statuses,
    statuses_end,
  )

unfoldable pub all_zero : List ℕ → Bool
all_zero [] = true
all_zero (x ∷ xs) = (x == 0) && all_zero xs

unfoldable pub trailing_bytes_are_zero : List ℕ → ℕ → ℕ → Bool
unfolding all_zero
trailing_bytes_are_zero packet offset end =
    (leb offset end && leb (end - offset) 3) && all_zero (take (end - offset) (drop offset packet))

-- Where the padding begins; the last byte is its size.
unfoldable pub transport_feedback_end : List ℕ → Bool → Result ℕ
transport_feedback_end packet false = ok (length packet)
transport_feedback_end packet true = do
  padding_size ← byte packet (length packet - 1)
  reject (padding_size == 0 || ltb (length packet - 20) padding_size)
      "rtcp transport feedback padding is invalid"
  ok (length packet - padding_size)

-- The part behind the check of the padding.
unfoldable pub parse_feedback_body : List ℕ → ℕ → Result ParsedRtcpTransportFeedback
unfolding trailing_bytes_are_zero
parse_feedback_body packet effective_size = do
  sender_ssrc ← read_u32 packet 4
  media_ssrc ← read_u32 packet 8
  base_sequence_number ← read_u16 packet 12
  packet_status_count ← read_u16 packet 14
  reference_time ← read_u24 packet 16
  feedback_packet_count ← byte packet 19
  reject (ltb 8192 packet_status_count) "rtcp transport feedback packet status count exceeds limit"
  (delta_sizes, chunks_end) ←
      parse_status_chunks packet effective_size packet_status_count packet_status_count 20
  (statuses, statuses_end) ←
      parse_statuses packet effective_size base_sequence_number delta_sizes chunks_end
  reject (not (trailing_bytes_are_zero packet statuses_end effective_size))
      "rtcp transport feedback packet has trailing data"
  ok (record {
    sender_ssrc = sender_ssrc;
    media_ssrc = media_ssrc;
    base_sequence_number = base_sequence_number;
    packet_status_count = packet_status_count;
    reference_time = reference_time;
    feedback_packet_count = feedback_packet_count;
    statuses = statuses;
  })

unfoldable pub parse_rtcp_transport_feedback : List ℕ → Result ParsedRtcpTransportFeedback
unfolding transport_feedback_end
parse_rtcp_transport_feedback packet = do
  reject (ltb (length packet) 20 || not (length packet % 4 == 0))
      "rtcp transport feedback packet size is invalid"
  first ← byte packet 0
  second ← byte packet 1
  reject (not (first / 64 == 2) || not (low_bits first 5 == 15) || not (second == 205))
      "rtcp transport feedback header is invalid"
  length_words ← read_u16 packet 2
  reject (not ((length_words + 1) * 4 == length packet))
      "rtcp transport feedback declared size does not match buffer"
  effective_size ← transport_feedback_end packet (bit_set first 5)
  parse_feedback_body packet effective_size
