-- ===== src/Rtcp/TransportFeedback/Chunks.antt =====
-- The chunks of `encode_status_chunks` as bytes, and `parse_status_chunks` on them.
use mathlib.Core.List.{append_assoc}
use simple_webrtc.Base.{
  ℕ, zero, suc, ◌+◌, ◌-◌, ◌*◌, ◌≤◌, ◌<◌, ◌≡◌, refl, ap, ◌∙◌, List, [], ◌∷◌, ◌++◌, take, drop,
  take-drop, length, length-append, length-take, length-drop, All-drop, ok, u16_bytes, read_u16,
  read_u16-append, byte, at, arith,
}
use simple_webrtc.Rtcp.TransportFeedback.{
  next_chunk, chunks_from, encode_status_chunks, decode_chunk, parse_status_chunks,
}
use simple_webrtc.Rtcp.TransportFeedback.Symbols.{AreSymbols, IsChunkOf, next_chunk-IsChunkOf}

unfoldable pub chunks_bytes : List ℕ → List ℕ
chunks_bytes [] = []
chunks_bytes (c ∷ cs) = u16_bytes c ++ chunks_bytes cs

pub length-chunks_bytes : (cs : List ℕ) → length (chunks_bytes cs) ≡ length cs * 2
unfolding chunks_bytes
length-chunks_bytes [] = omega arith
length-chunks_bytes (c ∷ cs) = omega (arith, length-chunks_bytes cs)

read-u16_bytes :
    (c : ℕ) (front rest : List ℕ) (offset : ℕ)
    → c < 65536
    → offset ≡ length front
    → read_u16 (front ++ (u16_bytes c ++ rest)) offset ≡ ok c
unfolding read_u16 byte at
read-u16_bytes c front rest offset h e =
    read_u16-append front (u16_bytes c ++ rest) 0 offset (omega arith) ∙ ground arith

-- Parsing from an offset behind `front`, where the chunks stand in the bytes that count.
abbrev pub Parses : List ℕ → List ℕ → Type 0
Parses symbols chunks =
    (front rest : List ℕ) (offset effective_size fuel : ℕ)
    → offset ≡ length front
    → offset + length chunks * 2 ≤ effective_size
    → length symbols ≤ fuel
    → parse_status_chunks (front ++ (chunks_bytes chunks ++ rest)) effective_size fuel
        (length symbols) offset
      ≡ ok (symbols, offset + length chunks * 2)

-- A round of the parser, with what it read.
parse_round :
    (packet : List ℕ) (effective_size fuel remaining offset c : ℕ) (symbols sizes : List ℕ)
    (end : ℕ)
    → offset + 2 ≤ effective_size
    → read_u16 packet offset ≡ ok c
    → decode_chunk c (suc remaining) ≡ ok symbols
    → parse_status_chunks packet effective_size fuel (suc remaining - length symbols) (offset + 2)
      ≡ ok (sizes, end)
    → parse_status_chunks packet effective_size (suc fuel) (suc remaining) offset
      ≡ ok (symbols ++ sizes, end)
unfolding parse_status_chunks
parse_round packet eff fuel remaining offset c symbols sizes end h r d t = ground (arith, r, d, t)

module _ (s : ℕ) (symbols : List ℕ) (chunks : List ℕ)
    (v : IsChunkOf (s ∷ symbols) (next_chunk s symbols)) where
  Parses-next :
      Parses (drop (next_chunk s symbols).1 (s ∷ symbols)) chunks
      → Parses (s ∷ symbols) ((next_chunk s symbols).0 ∷ chunks)
  unfolding chunks_bytes
  Parses-next ih front rest offset eff zero e h l = absurd (omega arith)
  Parses-next ih front rest offset eff (suc fuel) e h l =
      parse_round _ eff fuel (length symbols) offset c (take n (s ∷ symbols)) (drop n (s ∷ symbols))
        _ (omega arith) (read-u16_bytes c front (chunks_bytes chunks ++ rest) offset v.word e)
        v.decoded tail
      ∙ ap ok pair
    where
      c : ℕ
      c = (next_chunk s symbols).0

      n : ℕ
      n = (next_chunk s symbols).1

      lengths :
          (suc (length symbols) - length (take (next_chunk s symbols).1 (s ∷ symbols))
            ≡ length (drop (next_chunk s symbols).1 (s ∷ symbols)))
          × (length (drop (next_chunk s symbols).1 (s ∷ symbols)) ≤ fuel)
      lengths = omega (
        arith,
        length-drop (next_chunk s symbols).1 (s ∷ symbols),
        length-take (next_chunk s symbols).1 (s ∷ symbols),
        v.within,
        v.some_taken,
      )

      ends : offset + 2 + length chunks * 2 ≡ offset + suc (length chunks) * 2
      ends = omega arith

      behind :
          parse_status_chunks
            (front ++ u16_bytes (next_chunk s symbols).0 ++ (chunks_bytes chunks ++ rest))
            eff
            fuel
            (length (drop (next_chunk s symbols).1 (s ∷ symbols)))
            (offset + 2)
          ≡ ok (drop (next_chunk s symbols).1 (s ∷ symbols), offset + 2 + length chunks * 2)
      behind =
          ih (front ++ u16_bytes c) rest (offset + 2) eff fuel
            (omega (arith, length-append front (u16_bytes c), e)) (omega arith) lengths.1

      tail :
          parse_status_chunks
            (front ++ (u16_bytes (next_chunk s symbols).0 ++ (chunks_bytes chunks ++ rest)))
            eff
            fuel
            (suc (length symbols) - length (take (next_chunk s symbols).1 (s ∷ symbols)))
            (offset + 2)
          ≡ ok (drop (next_chunk s symbols).1 (s ∷ symbols), offset + 2 + length chunks * 2)
      tail = cc (
        behind,
        lengths.0,
        append_assoc front (u16_bytes (next_chunk s symbols).0) (chunks_bytes chunks ++ rest),
      )

      pair :
          ◌≡◌ {A = List ℕ × ℕ}
            (
              take (next_chunk s symbols).1 (s ∷ symbols)
                  ++ drop (next_chunk s symbols).1 (s ∷ symbols),
              offset + 2 + length chunks * 2,
            )
            (s ∷ symbols, offset + suc (length chunks) * 2)
      pair = cc (take-drop (next_chunk s symbols).1 (s ∷ symbols), ends)

bound :
    (s : ℕ) (symbols chunks : List ℕ)
    → IsChunkOf (s ∷ symbols) (next_chunk s symbols)
    → length chunks * 7 ≤ length (drop (next_chunk s symbols).1 (s ∷ symbols)) + 6
    → suc (length chunks) * 7 ≤ suc (length symbols) + 6
bound s symbols chunks v h =
    ground (arith, v.compact, v.within, length-drop (next_chunk s symbols).1 (s ∷ symbols), h)

Parses-nil : Parses [] []
unfolding parse_status_chunks
Parses-nil front rest offset eff zero e h l = ground arith
Parses-nil front rest offset eff (suc fuel) e h l = ground arith

pub chunks_from-Parses :
    (fuel : ℕ) (symbols : List ℕ)
    → length symbols ≤ fuel
    → AreSymbols symbols
    → (chunks : List ℕ) × (chunks_from fuel symbols ≡ ok chunks)
      × Parses symbols chunks
      × (length chunks * 7 ≤ length symbols + 6)
unfolding chunks_from
chunks_from-Parses fuel [] l h = ([], refl, Parses-nil, omega arith)
chunks_from-Parses zero (x ∷ xs) l h = absurd (omega arith)
chunks_from-Parses (suc fuel) (x ∷ xs) l h =
    let v = next_chunk-IsChunkOf x xs h in
    let (cs, e, p, b) =
      chunks_from-Parses fuel (drop (next_chunk x xs).1 (x ∷ xs))
        (omega (arith, v.some_taken, v.within, length-drop (next_chunk x xs).1 (x ∷ xs)))
        (All-drop (λ x. x < 3) (next_chunk x xs).1 (x ∷ xs) h) in
    ((next_chunk x xs).0 ∷ cs, rw e, Parses-next x xs cs v p, bound x xs cs v b)

-- For status symbols, each 0, 1 or 2, `encode_status_chunks` ends with chunks. They are few: a chunk
-- for each seven symbols, the last of them perhaps fewer. And they lose nothing: the parser's loop
-- over them, wherever they stand in a packet, with any bytes behind them, gives the symbols back and
-- stops at the end of the chunks.
pub encode_status_chunks-Parses :
    (symbols : List ℕ)
    → AreSymbols symbols
    → (chunks : List ℕ) × (encode_status_chunks symbols ≡ ok chunks)
      × Parses symbols chunks
      × (length chunks * 7 ≤ length symbols + 6)
unfolding encode_status_chunks
encode_status_chunks-Parses symbols h = chunks_from-Parses (length symbols) symbols (omega arith) h
