-- ===== src/Dtls/Packet/Records.antt =====
-- The header parser against the classifier of datagrams.
use simple_webrtc.Base.{
  ℕ, ◌+◌, ◌≡◌, ◌≤◌, true, List, length, Result, ok, err, fault, Bool, false, Ensures, byte,
  read_u16, at, u16_at, arith,
}
use simple_webrtc.Dtls.Packet.{
  DtlsRecordContentType, change_cipher_spec, alert, handshake, application_data, unknown,
  DtlsRecordHeader, make_content_type, check_dtls_record, is_dtls_packet, parse_dtls_record_header,
}

-- The content types of RFC 6347 by their bytes; a record that is returned is of no other.
abbrev pub IsTypeOf : ℕ → DtlsRecordContentType → Type 0
IsTypeOf b change_cipher_spec = b ≡ 20
IsTypeOf b alert = b ≡ 21
IsTypeOf b handshake = b ≡ 22
IsTypeOf b application_data = b ≡ 23
IsTypeOf b unknown = ⊥

-- The header of the first record of a datagram, which the classifier takes for DTLS.
pub record IsRecordOf (packet : List ℕ) (h : DtlsRecordHeader) : Type 0 where
  pub classified : is_dtls_packet packet ≡ ok true
  pub content_type : IsTypeOf (at packet 0) h.content_type
  pub version : h.version ≡ u16_at packet 1
  pub epoch : h.epoch ≡ u16_at packet 3
  pub length_field : h.length ≡ u16_at packet 11
  pub size : h.record_size ≡ 13 + h.length
  pub inside : h.record_size ≤ length packet

-- On any bytes `parse_dtls_record_header` ends without a read outside them. A header that it returns
-- has the fields of the first bytes, the content type whose number is the first byte, one of the four
-- known ones, and a record that the datagram holds, and `is_dtls_packet` takes the datagram for DTLS.
pub parse_dtls_record_header-Ensures :
    (packet : List ℕ) → Ensures (IsRecordOf packet) (parse_dtls_record_header packet)
unfolding parse_dtls_record_header is_dtls_packet check_dtls_record make_content_type byte read_u16
parse_dtls_record_header-Ensures packet = ground arith

abbrev pub is_accepted : Result DtlsRecordHeader → Bool
is_accepted (ok h) = true
is_accepted (err message) = false
is_accepted fault = false

-- On a datagram whose first byte is at most 23, `is_dtls_packet` says yes if
-- `parse_dtls_record_header` returns a header, and no if it returns an error.
pub is_dtls_packet-parse :
    (packet : List ℕ)
    → at packet 0 ≤ 23
    → is_dtls_packet packet ≡ ok (is_accepted (parse_dtls_record_header packet))
unfolding parse_dtls_record_header is_dtls_packet check_dtls_record byte read_u16
is_dtls_packet-parse packet known = ground arith
