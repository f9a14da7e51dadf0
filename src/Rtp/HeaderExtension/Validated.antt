-- ===== src/Rtp/HeaderExtension/Validated.antt =====
-- The look-up of rtp_header_extension.cpp against the validation of rtp_packet.cpp.
use simple_webrtc.Base.{
  ℕ, zero, suc, ◌+◌, ◌*◌, ◌%◌, ◌/◌, ◌≤◌, ◌<◌, ◌≡◌, ap, ◌∙◌, List, false, Option, some, leb,
  Bool-cases, inl, inr, ◌⊎◌, length, Result, ok, err, fault, ◌>>=◌, byte, at, at-subspan,
  length-subspan, subspan, u16_at, read_u16, bit_set, arith,
}
use simple_webrtc.Rtp.Packet.{
  RtpPacketLayout, inspect_rtp_packet_layout, header_size_with_extension,
  validate_header_extensions, validate_extension_payload, validate_elements, next_one_byte_element,
  next_two_byte_element, validate_one_byte_header_extensions, validate_two_byte_header_extensions,
}
use simple_webrtc.Rtp.HeaderExtension.{
  Scan, skip, found, scan_elements, scan_one_byte_element, scan_two_byte_element,
  find_one_byte_extension, find_two_byte_extension, find_in_payload, find_in_extension,
  find_rtp_header_extension,
}

-- A round of the look-up goes where the round of the validation went.
abbrev Agrees : ℕ → Result ℕ → Result Scan → Type 0
Agrees base (ok n) (ok (skip j)) = base + j ≡ n
Agrees base (ok n) (ok (found v)) = Unit {0}
Agrees base (ok n) (err message) = ⊥
Agrees base (ok n) fault = ⊥
Agrees base (err message) s = Unit {0}
Agrees base fault s = Unit {0}

abbrev pub IsOk {ℓ} : {A : Type ℓ} → Result A → Type 0
IsOk (ok a) = Unit {0}
IsOk (err message) = ⊥
IsOk fault = ⊥

one_byte-Agrees :
    (packet : List ℕ) (id base size i : ℕ)
    → i < size
    → base + size ≤ length packet
    → Agrees base
        (next_one_byte_element packet (base + size) (base + i))
        (scan_one_byte_element (subspan packet base size) id i)
unfolding next_one_byte_element scan_one_byte_element byte
one_byte-Agrees packet id base size i h fits =
    ground (arith, at-subspan packet base size i, length-subspan packet base size)

two_byte-Agrees :
    (packet : List ℕ) (id base size i : ℕ)
    → i < size
    → base + size ≤ length packet
    → Agrees base
        (next_two_byte_element packet (base + size) (base + i))
        (scan_two_byte_element (subspan packet base size) id i)
unfolding next_two_byte_element scan_two_byte_element byte
two_byte-Agrees packet id base size i h fits = ground (
  arith,
  at-subspan packet base size i,
  at-subspan packet base size (i + 1),
  length-subspan packet base size,
)

round-IsOk :
    (base : ℕ) (r : Result ℕ) (s : Result Scan) (validate : ℕ → Result (Unit {0}))
    (look_up : ℕ → Result (Option (List ℕ)))
    → Agrees base r s
    → (r >>= validate) ≡ ok tt
    → ((j : ℕ) → validate (base + j) ≡ ok tt → IsOk (look_up j))
    → IsOk (s >>= λ x. elim x [ skip j ↦ look_up j | found v ↦ ok (some v) ])
round-IsOk base (ok n) (ok (skip j)) validate look_up a e k = k j (ap validate a ∙ e)
round-IsOk base (ok n) (ok (found v)) validate look_up a e k = tt
round-IsOk base (ok n) (err m) validate look_up a e k = a
round-IsOk base (ok n) fault validate look_up a e k = a
round-IsOk base (err m) s validate look_up a e k = cc
round-IsOk base fault s validate look_up a e k = cc

module _ (base size : ℕ) (next : ℕ → Result ℕ) (scan : ℕ → Result Scan)
    (agree : (i : ℕ) → i < size → Agrees base (next (base + i)) (scan i)) where
  scan_elements-IsOk :
      (fuel i : ℕ)
      → validate_elements next (base + size) fuel (base + i) ≡ ok tt
      → IsOk (scan_elements scan size fuel i)
  unfolding validate_elements scan_elements
  scan_elements-IsOk zero i e = ground arith
  scan_elements-IsOk (suc fuel) i e = elim (Bool-cases (leb size i)) [
    | inl done ↦ rw done tt
    | inr more ↦
        let inside : leb (base + size) (base + i) ≡ false = ground arith in
        rw more (
          round-IsOk base (next (base + i)) (scan i) (validate_elements next (base + size) fuel)
            (scan_elements scan size fuel) (agree i (ground arith)) (rw inside at e)
            (scan_elements-IsOk fuel))
  ]

find_one_byte-IsOk :
    (packet : List ℕ) (id base size : ℕ)
    → base + size ≤ length packet
    → validate_one_byte_header_extensions packet base size ≡ ok tt
    → IsOk (find_one_byte_extension (subspan packet base size) id)
unfolding find_one_byte_extension validate_one_byte_header_extensions
find_one_byte-IsOk packet id base size fits e = rw (length-subspan packet base size fits) (
    scan_elements-IsOk base size (next_one_byte_element packet (base + size))
      (scan_one_byte_element (subspan packet base size) id)
      (λ i h. one_byte-Agrees packet id base size i h fits) size 0 (ground arith))

find_two_byte-IsOk :
    (packet : List ℕ) (id base size : ℕ)
    → base + size ≤ length packet
    → validate_two_byte_header_extensions packet base size ≡ ok tt
    → IsOk (find_two_byte_extension (subspan packet base size) id)
unfolding find_two_byte_extension validate_two_byte_header_extensions
find_two_byte-IsOk packet id base size fits e = rw (length-subspan packet base size fits) (
    scan_elements-IsOk base size (next_two_byte_element packet (base + size))
      (scan_two_byte_element (subspan packet base size) id)
      (λ i h. two_byte-Agrees packet id base size i h fits) size 0 (ground arith))

find_in_payload-IsOk :
    (profile id base size : ℕ) (packet : List ℕ)
    → base + size ≤ length packet
    → validate_extension_payload profile packet base size ≡ ok tt
    → IsOk (find_in_payload profile (subspan packet base size) id)
unfolding find_in_payload validate_extension_payload
find_in_payload-IsOk profile id base size packet fits e = ground (
  arith,
  find_one_byte-IsOk packet id base size fits,
  find_two_byte-IsOk packet id base size fits,
)

abbrev extension_at : List ℕ → ℕ
extension_at packet = 12 + at packet 0 % 16 * 4

-- What the layout has checked of the extension.
inspect-validated :
    (packet : List ℕ) {l : RtpPacketLayout}
    → inspect_rtp_packet_layout packet ≡ ok l
    → (12 ≤ length packet)
      × (at packet 0 / 64 ≡ 2)
      × ((bit_set (at packet 0) 4 ≡ false)
          ⊎ ((extension_at packet + 4 + u16_at packet (extension_at packet + 2) * 4 ≤ length packet)
              × (validate_extension_payload
                    (u16_at packet (extension_at packet))
                    packet
                    (extension_at packet + 4)
                    (u16_at packet (extension_at packet + 2) * 4)
                  ≡ ok tt)))
unfolding inspect_rtp_packet_layout byte read_u16 header_size_with_extension
    validate_header_extensions
inspect-validated packet e = ground arith

-- On a packet whose layout is accepted, looking up any element but 0 neither fails nor reads
-- outside the packet: what the validation lets through the look-up can walk.
pub find_rtp_header_extension-IsOk :
    (packet : List ℕ) (id : ℕ) {l : RtpPacketLayout}
    → 1 ≤ id
    → inspect_rtp_packet_layout packet ≡ ok l
    → IsOk (find_rtp_header_extension packet id)
unfolding find_rtp_header_extension find_in_extension byte read_u16
find_rtp_header_extension-IsOk packet id h e = ground (
  arith,
  inspect-validated packet e,
  find_in_payload-IsOk (u16_at packet (extension_at packet)) id (extension_at packet + 4)
      (u16_at packet (extension_at packet + 2) * 4) packet,
)
