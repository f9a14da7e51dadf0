-- ===== src/Rtp/HeaderExtension.antt =====
-- rtp/rtp_header_extension.h and rtp/rtp_header_extension.cpp: looking up one element of the header
-- extension. A round of a `while` loop either gives the next offset or returns the element's value.
pub mod Validated
use simple_webrtc.Base.{
  ℕ, zero, suc, ◌+◌, ◌*◌, ◌/◌, Bool, List, ltb, leb, ◌==◌, not, if◌then◌else◌, low_bits, bit_set,
  Option, none, some, length, Result, ok, fault, ◌>>=◌, ◌>>◌, reject, byte, read_u16, subspan,
}

pub data Scan : Type 0 where
  skip : ℕ → Scan
  found : List ℕ → Scan

unfoldable pub scan_one_byte_element : List ℕ → ℕ → ℕ → Result Scan
scan_one_byte_element payload extension_id offset = do
  value ← byte payload offset
  if value == 0 then ok (skip (offset + 1)) else (do
    let id = value / 16
    reject (id == 15) "rtp one-byte extension id 15 is reserved"
    let size = low_bits value 4 + 1
    reject (ltb (length payload) (offset + 1 + size)) "rtp one-byte extension element is truncated"
    ok (
        if id == extension_id
        then found (subspan payload (offset + 1) size)
        else skip (offset + 1 + size)))

unfoldable pub scan_two_byte_element : List ℕ → ℕ → ℕ → Result Scan
scan_two_byte_element payload extension_id offset = do
  id ← byte payload offset
  if id == 0 then ok (skip (offset + 1)) else (do
    reject (leb (length payload) (offset + 1)) "rtp two-byte extension length is truncated"
    size ← byte payload (offset + 1)
    reject (ltb (length payload) (offset + 2 + size)) "rtp two-byte extension element is truncated"
    ok (
        if id == extension_id
        then found (subspan payload (offset + 2) size)
        else skip (offset + 2 + size)))

-- `while (offset < payload.size())`.
unfoldable pub scan_elements : (ℕ → Result Scan) → ℕ → ℕ → ℕ → Result (Option (List ℕ))
scan_elements scan size zero offset = if leb size offset then ok none else fault
scan_elements scan size (suc fuel) offset = if leb size offset then ok none else (do
  s ← scan offset
  elim s [ skip offset' ↦ scan_elements scan size fuel offset' | found value ↦ ok (some value) ])

unfoldable pub find_one_byte_extension : List ℕ → ℕ → Result (Option (List ℕ))
find_one_byte_extension payload extension_id =
    scan_elements (scan_one_byte_element payload extension_id) (length payload) (length payload) 0

unfoldable pub find_two_byte_extension : List ℕ → ℕ → Result (Option (List ℕ))
find_two_byte_extension payload extension_id =
    scan_elements (scan_two_byte_element payload extension_id) (length payload) (length payload) 0

unfoldable pub find_in_payload : ℕ → List ℕ → ℕ → Result (Option (List ℕ))
find_in_payload profile payload extension_id =
    if profile == 0xBEDE
    then if leb 15 extension_id then ok none else find_one_byte_extension payload extension_id
    else if profile / 16 == 0x100
    then find_two_byte_extension payload extension_id
    else ok none

-- The part of the function behind the test of the extension bit.
unfoldable pub find_in_extension : List ℕ → ℕ → ℕ → Result (Option (List ℕ))
unfolding find_in_payload
find_in_extension packet extension_id first = do
  let extension_header_offset = 12 + low_bits first 4 * 4
  reject (ltb (length packet) (extension_header_offset + 4)) "rtp extension header is truncated"
  profile ← read_u16 packet extension_header_offset
  length_words ← read_u16 packet (extension_header_offset + 2)
  let payload_offset = extension_header_offset + 4
  let payload_size = length_words * 4
  reject (ltb (length packet) (payload_offset + payload_size)) "rtp extension payload is truncated"
  find_in_payload profile (subspan packet payload_offset payload_size) extension_id

unfoldable pub find_rtp_header_extension : List ℕ → ℕ → Result (Option (List ℕ))
find_rtp_header_extension packet extension_id = do
  reject (extension_id == 0) "rtp header extension id is zero"
  reject (ltb (length packet) 12) "rtp packet is shorter than fixed header"
  first ← byte packet 0
  reject (not (first / 64 == 2)) "rtp version is invalid"
  if bit_set first 4 then find_in_extension packet extension_id first else ok none
