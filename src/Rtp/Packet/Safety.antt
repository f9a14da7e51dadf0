-- ===== src/Rtp/Packet/Safety.antt =====
-- Every read of rtp_packet.cpp is inside the packet, and its loops end, on any input.
use simple_webrtc.Base.{
  ℕ, zero, suc, ◌+◌, ◌*◌, ◌≤◌, ◌<◌, List, Bool, true, false, length, Result, Ensures, IsSafe,
  Ensures->>=, Bool-cases, Ensures-reject, u16_at, inl, inr, leb, ltb, byte, read_u16, arith,
}
use simple_webrtc.Rtp.Packet.{
  next_one_byte_element, next_two_byte_element, validate_elements,
  validate_one_byte_header_extensions, validate_two_byte_header_extensions,
  validate_extension_payload, validate_header_extensions, header_size_with_extension,
}

pub next_one_byte_element-Ensures :
    (packet : List ℕ) (end_ offset : ℕ)
    → offset < end_
    → end_ ≤ length packet
    → Ensures (λ next. (offset < next) × (next ≤ end_)) (next_one_byte_element packet end_ offset)
unfolding next_one_byte_element byte
next_one_byte_element-Ensures packet end_ offset h fits = ground arith

pub next_two_byte_element-Ensures :
    (packet : List ℕ) (end_ offset : ℕ)
    → offset < end_
    → end_ ≤ length packet
    → Ensures (λ next. (offset < next) × (next ≤ end_)) (next_two_byte_element packet end_ offset)
unfolding next_two_byte_element byte
next_two_byte_element-Ensures packet end_ offset h fits = ground arith

pub validate_elements-IsSafe :
    (next : ℕ → Result ℕ) (end_ : ℕ)
    → ((offset : ℕ) → offset < end_ → Ensures (λ n. (offset < n) × (n ≤ end_)) (next offset))
    → (fuel offset : ℕ) → end_ ≤ offset + fuel
    → IsSafe (validate_elements next end_ fuel offset)
unfolding validate_elements
validate_elements-IsSafe next end_ step zero offset enough = ground arith
validate_elements-IsSafe next end_ step (suc fuel) offset enough =
    elim (Bool-cases (leb end_ offset)) [
      | inl done ↦ rw done tt
      | inr more ↦ rw more (
          Ensures->>= (λ n. (offset < n) × (n ≤ end_)) (λ _. Unit {0}) (next offset) _
            (step offset (ground arith))
            (λ n h. validate_elements-IsSafe next end_ step fuel n (omega arith)))
    ]

validate_one_byte-IsSafe :
    (packet : List ℕ) (offset size : ℕ)
    → IsSafe (validate_one_byte_header_extensions packet offset size)
unfolding validate_one_byte_header_extensions
validate_one_byte-IsSafe packet offset size =
    Ensures-reject _ (ltb (length packet) (offset + size)) _ _ λ fits.
      validate_elements-IsSafe (next_one_byte_element packet (offset + size)) (offset + size)
        (λ i h. next_one_byte_element-Ensures packet _ i h (ground arith)) size offset (omega arith)

validate_two_byte-IsSafe :
    (packet : List ℕ) (offset size : ℕ)
    → IsSafe (validate_two_byte_header_extensions packet offset size)
unfolding validate_two_byte_header_extensions
validate_two_byte-IsSafe packet offset size =
    Ensures-reject _ (ltb (length packet) (offset + size)) _ _ λ fits.
      validate_elements-IsSafe (next_two_byte_element packet (offset + size)) (offset + size)
        (λ i h. next_two_byte_element-Ensures packet _ i h (ground arith)) size offset (omega arith)

validate_extension_payload-IsSafe :
    (profile : ℕ) (packet : List ℕ) (offset size : ℕ)
    → IsSafe (validate_extension_payload profile packet offset size)
unfolding validate_extension_payload
validate_extension_payload-IsSafe profile packet offset size = ground (
  arith,
  validate_one_byte-IsSafe packet offset size,
  validate_two_byte-IsSafe packet offset size,
)

pub validate_header_extensions-Ensures :
    (packet : List ℕ) (offset : ℕ)
    → Ensures
        (λ total. (4 ≤ total) × (offset + total ≤ length packet))
        (validate_header_extensions packet offset)
unfolding validate_header_extensions read_u16 byte
validate_header_extensions-Ensures packet offset = ground (
  arith,
  validate_extension_payload-IsSafe (u16_at packet offset) packet (offset + 4)
      (u16_at packet (offset + 2) * 4),
)

pub header_size_with_extension-Ensures :
    (packet : List ℕ) (extension : Bool) (size : ℕ)
    → size ≤ length packet
    → Ensures
        (λ s. (size ≤ s) × (s ≤ length packet))
        (header_size_with_extension packet extension size)
unfolding header_size_with_extension
header_size_with_extension-Ensures packet false size fits = ground arith
header_size_with_extension-Ensures packet true size fits =
    ground (arith, validate_header_extensions-Ensures packet size)
