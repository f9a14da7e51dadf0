-- ===== src/Rtcp/RoundTrip/Sdes.antt =====
-- Source descriptions, built by rtcp_packet_builder.cpp and parsed by rtcp_compound_packet.cpp.
use mathlib.Core.List.{append_assoc}
use simple_webrtc.Base.{
  ℕ, zero, suc, ◌+◌, ◌-◌, ◌*◌, ◌/◌, ◌%◌, ◌≤◌, ◌<◌, ◌≡◌, ◌≢◌, refl, ap, ◌∙◌, true, false, List, [],
  ◌∷◌, ◌++◌, take, drop, take-front, drop-front, length, ltb, leb, ◌==◌, length-append,
  length-replicate, ok, ◌>>=◌, overwrite-zeros, overwrite-then, zeros, byte, byte-append, at,
  read_u32, subspan, u32_bytes, arith,
}
use simple_webrtc.Rtp.Packet.{parse_rtcp_packet_header}
use simple_webrtc.Rtcp.Builder.{align_4, build_rtcp_sdes_cname}
use simple_webrtc.Rtcp.Builder.Bytes.{
  common_header, length-common_header, write_common_header-zeros,
}
use simple_webrtc.Rtcp.RoundTrip.Blocks.{IsU32, report_header, parse_rtcp_packet_header-bytes}
use simple_webrtc.Rtcp.TransportFeedback.{all_zero}
use simple_webrtc.Rtcp.SdesBye.{
  RtcpSdesChunk, rtcp_payload_end, end_without_padding, trailing_bytes_are_zero, end_of_chunk,
  parse_sdes_item, add_sdes_item, parse_sdes_items, parse_sdes_chunks, parse_rtcp_sdes_packet,
}

all_zero-zeros : (n : ℕ) → all_zero (zeros n) ≡ true
unfolding all_zero
all_zero-zeros zero = refl
all_zero-zeros (suc n) = all_zero-zeros n

take-zeros : (n : ℕ) → take n (zeros n) ≡ zeros n
take-zeros zero = refl
take-zeros (suc n) = ap (◌∷◌ 0) (take-zeros n)

pub trailing_bytes_are_zero-zeros :
    (front : List ℕ) (rest offset end : ℕ)
    → offset ≡ length front
    → end ≡ offset + rest
    → trailing_bytes_are_zero (front ++ zeros rest) offset end ≡ true
unfolding trailing_bytes_are_zero
trailing_bytes_are_zero-zeros front rest offset end e f =
    rw (tests.0, tests.1, left, behind, take-zeros rest) (all_zero-zeros rest)
  where
    tests : (ltb end offset ≡ false) × (ltb (length (front ++ zeros rest)) end ≡ false)
    tests = ground (arith, length-append front (zeros rest), length-replicate {A = ℕ} rest 0)

    left : end - offset ≡ rest
    left = omega arith

    behind : drop offset (front ++ zeros rest) ≡ zeros rest
    behind = ap (λ n. drop n (front ++ zeros rest)) (place) ∙ drop-front front (zeros rest) 0
      where
        place : offset ≡ length front + 0
        place = omega arith

-- A round of the loop over the items, at an item and at the end item.
parse_sdes_items-item :
    (bytes : List ℕ) (payload_end fuel offset item_type size : ℕ) (chunk : RtcpSdesChunk)
    → byte bytes offset ≡ ok (suc item_type)
    → byte bytes (offset + 1) ≡ ok size
    → offset + 2 + size ≤ payload_end
    → parse_sdes_items bytes payload_end (suc fuel) offset chunk
      ≡ parse_sdes_items bytes payload_end fuel (offset + 2 + size) (
          add_sdes_item
            (record { item_type = suc item_type; value = subspan bytes (offset + 2) size })
            chunk)
unfolding parse_sdes_items parse_sdes_item
parse_sdes_items-item bytes payload_end fuel offset item_type size chunk t n h =
    ground (arith, t, n, sums)
  where
    sums : (offset + 1 + 1 ≡ offset + 2) × (offset + 1 + 1 + size ≡ offset + 2 + size)
    sums = omega arith

parse_sdes_items-end :
    (bytes : List ℕ) (payload_end fuel offset : ℕ) (chunk : RtcpSdesChunk)
    → byte bytes offset ≡ ok 0
    → offset < payload_end
    → end_of_chunk bytes payload_end (offset + 1) ≡ ok payload_end
    → parse_sdes_items bytes payload_end (suc fuel) offset chunk ≡ ok (chunk, payload_end)
unfolding parse_sdes_items
parse_sdes_items-end bytes payload_end fuel offset chunk t h e = rw (check, t, e) refl
  where
    check : leb payload_end offset ≡ false
    check = ground arith

-- The bytes of a packet that names one source, written out from RFC 3550.
module _ (ssrc : ℕ) (cname : List ℕ) where
  abbrev pub sdes_size : ℕ
  sdes_size = (11 + length cname + 3) / 4 * 4

  abbrev pub rest_size : ℕ
  rest_size = sdes_size - (11 + length cname)

  unfoldable pub sdes_bytes : List ℕ
  sdes_bytes =
      (((((common_header 1 202 sdes_size ++ u32_bytes ssrc) ++ (1 ∷ []))
            ++ (length cname % 256 ∷ []))
          ++ cname)
        ++ (0 ∷ []))
      ++ zeros rest_size

  pub build_rtcp_sdes_cname-bytes :
      ssrc ≢ 0
      → 0 < length cname
      → length cname < 256
      → build_rtcp_sdes_cname ssrc cname ≡ ok sdes_bytes
  unfolding build_rtcp_sdes_cname sdes_bytes
  build_rtcp_sdes_cname-bytes s n l =
      rw
        (
          checks.0,
          checks.1,
          checks.2,
          aligned,
          write_common_header-zeros 1 202 sdes_size (sdes_size - 4) (omega arith) (omega arith)
              (omega arith) (omega arith),
        )
        (overwrite-then _ _ _ _ (sdes_size - 8) _ (omega (arith, length-common_header))
          (omega arith)
          (overwrite-then _ _ _ _ (sdes_size - 9) _
            (omega (arith, length-append {0}, length-common_header)) (omega arith)
            (overwrite-then _ _ _ _ (sdes_size - 10) _
              (omega (arith, length-append {0}, length-common_header)) (omega arith)
              (overwrite-then _ _ _ _ (sdes_size - (10 + length cname)) _
                (omega (arith, length-append {0}, length-common_header)) (omega arith)
                (overwrite-zeros _ _ _ _ rest_size
                  (omega (arith, length-append {0}, length-common_header)) (omega arith))))))
    where
      checks :
          ((ssrc == 0) ≡ false) × ((length cname == 0) ≡ false) × (ltb 255 (length cname) ≡ false)
      checks = ground arith

      aligned : align_4 (4 + 4 + 2 + length cname + 1) ≡ sdes_size
      aligned = unfold align_4 in ap (λ n. (n + 3) / 4 * 4) sum
        where
          sum : 4 + 4 + 2 + length cname + 1 ≡ 11 + length cname
          sum = omega arith

  pub length-sdes_bytes : length sdes_bytes ≡ sdes_size
  unfolding sdes_bytes common_header
  length-sdes_bytes = omega (
    arith,
    length-append (cname ++ 0 ∷ []) (zeros rest_size),
    length-append cname (0 ∷ []),
    length-replicate {A = ℕ} rest_size 0,
  )

  pub header-sdes_bytes :
      length cname < 256
      → IsU32 ssrc
      → parse_rtcp_packet_header sdes_bytes ≡ ok (report_header 1 202 sdes_size ssrc)
  unfolding sdes_bytes common_header
  header-sdes_bytes l u =
      parse_rtcp_packet_header-bytes 1 202 sdes_size ssrc
        (1 ∷ (length cname % 256) ∷ ((cname ++ 0 ∷ []) ++ zeros rest_size)) (omega arith)
        (omega arith) (omega arith)
        (omega (
          arith,
          length-append (cname ++ 0 ∷ []) (zeros rest_size),
          length-append cname (0 ∷ []),
          length-replicate {A = ℕ} rest_size 0,
        ))
        (omega arith) (omega arith) u

  front-sdes_bytes :
      length cname < 256
      → IsU32 ssrc
      → (read_u32 sdes_bytes 4 ≡ ok ssrc)
        × (byte sdes_bytes 8 ≡ ok 1)
        × (byte sdes_bytes 9 ≡ ok (length cname))
  unfolding sdes_bytes common_header read_u32 byte at
  front-sdes_bytes l u = ground arith

  -- The CNAME, and behind it the end item and zeros.
  value-sdes_bytes : subspan sdes_bytes 10 (length cname) ≡ cname
  unfolding sdes_bytes common_header
  value-sdes_bytes =
      ap (take (length cname)) (append_assoc cname (0 ∷ []) (zeros rest_size))
      ∙ take-front cname (0 ∷ zeros rest_size)

  end-sdes_bytes : byte sdes_bytes (10 + length cname) ≡ ok 0
  unfolding sdes_bytes
  end-sdes_bytes =
      ap (λ packet. byte packet (10 + length cname)) (append_assoc front (0 ∷ []) (zeros rest_size))
      ∙ (byte-append front (0 ∷ zeros rest_size) 0 (10 + length cname)
            (omega (arith, length-append {0}, length-common_header))
          ∙ head)
    where
      front : List ℕ
      front =
          ((((common_header 1 202 sdes_size ++ u32_bytes ssrc) ++ (1 ∷ []))
              ++ (length cname % 256 ∷ []))
            ++ cname)

      head : byte (0 ∷ zeros rest_size) 0 ≡ ok 0
      head = unfold byte at in ground arith

  padding-sdes_bytes : trailing_bytes_are_zero sdes_bytes (11 + length cname) sdes_size ≡ true
  unfolding sdes_bytes
  padding-sdes_bytes =
      trailing_bytes_are_zero-zeros _ rest_size (11 + length cname) sdes_size
        (omega (arith, length-append {0}, length-common_header)) (omega arith)

  -- The chunk that names the source.
  unfoldable pub cname_chunk : RtcpSdesChunk
  cname_chunk = record {
    ssrc = ssrc;
    cname = cname;
    items = record { item_type = 1; value = cname } ∷ [];
  }

  -- The rounds of the loop over the items, the CNAME and the end item.
  items-sdes_bytes :
      length cname < 256
      → IsU32 ssrc
      → parse_sdes_items sdes_bytes sdes_size
          (length sdes_bytes + 1)
          8
          (record { ssrc = ssrc; cname = []; items = [] })
        ≡ ok (cname_chunk, sdes_size)
  unfolding cname_chunk add_sdes_item
  items-sdes_bytes l u =
      ap
        (λ fuel.
          parse_sdes_items sdes_bytes sdes_size fuel 8
            (record { ssrc = ssrc; cname = []; items = [] }))
        rounds
      ∙ (parse_sdes_items-item sdes_bytes sdes_size (suc (sdes_size - 1)) 8 0 (length cname) _
            (front-sdes_bytes l u).1 (front-sdes_bytes l u).2 (omega arith)
          ∙ (rw value-sdes_bytes (
              parse_sdes_items-end sdes_bytes sdes_size (sdes_size - 1) (10 + length cname)
                cname_chunk end-sdes_bytes (omega arith) ended)))
    where
      rounds : length sdes_bytes + 1 ≡ suc (suc (sdes_size - 1))
      rounds = omega (arith, length-sdes_bytes)

      ended : end_of_chunk sdes_bytes sdes_size (10 + length cname + 1) ≡ ok sdes_size
      ended =
          unfold end_of_chunk align_4 in
          ap (end_of_chunk sdes_bytes sdes_size) place ∙ (rw (padding-sdes_bytes, check) refl)
        where
          place : 10 + length cname + 1 ≡ 11 + length cname
          place = omega arith

          check : ltb sdes_size sdes_size ≡ false
          check = ground arith

-- The name of a source that is not 0, in 1 to 255 bytes, is built into a packet of source
-- descriptions, and parsing it gives one chunk, with the source, the name and no other item.
pub parse-build_rtcp_sdes_cname :
    (ssrc : ℕ) (cname : List ℕ)
    → ssrc ≢ 0
    → IsU32 ssrc
    → 0 < length cname
    → length cname < 256
    → (build_rtcp_sdes_cname ssrc cname >>= parse_rtcp_sdes_packet)
      ≡ ok (cname_chunk ssrc cname ∷ [])
unfolding parse_rtcp_sdes_packet parse_sdes_chunks rtcp_payload_end end_without_padding
    report_header
parse-build_rtcp_sdes_cname ssrc cname s u n l =
    rw
      (
        build_rtcp_sdes_cname-bytes ssrc cname s n l,
        header-sdes_bytes ssrc cname l u,
        fits,
        checks.0,
        (front-sdes_bytes ssrc cname l u).0,
        items-sdes_bytes ssrc cname l u,
        checks.1,
      )
      refl
  where
    fits : ltb (length (sdes_bytes ssrc cname)) (sdes_size ssrc cname) ≡ false
    fits = ground (arith, length-sdes_bytes ssrc cname)

    checks :
        (ltb (sdes_size ssrc cname) (4 + 4) ≡ false)
        × ((sdes_size ssrc cname == sdes_size ssrc cname) ≡ true)
    checks = ground arith
