-- ===== src/Dtls/Packet.antt =====
-- dtls/dtls_packet.h and dtls/dtls_packet.cpp: the header of a DTLS record, by which a datagram is
-- told from STUN and RTP, and the type of a handshake message.
pub mod Records
use simple_webrtc.Base.{
  ℕ, ◌+◌, ◌/◌, ◌%◌, Bool, true, false, not, ◌&&◌, ◌||◌, List, length, ltb, leb, ◌==◌, if◌then◌else◌,
  String, Result, ok, ◌>>=◌, ◌>>◌, reject, byte, read_u16,
}

abbrev dtls_record_header_size : ℕ
dtls_record_header_size = 13

pub data DtlsRecordContentType : Type 0 where
  change_cipher_spec : DtlsRecordContentType
  alert : DtlsRecordContentType
  handshake : DtlsRecordContentType
  application_data : DtlsRecordContentType
  unknown : DtlsRecordContentType

pub data DtlsHandshakeType : Type 0 where
  hello_request : DtlsHandshakeType
  client_hello : DtlsHandshakeType
  server_hello : DtlsHandshakeType
  hello_verify_request : DtlsHandshakeType
  certificate : DtlsHandshakeType
  server_key_exchange : DtlsHandshakeType
  certificate_request : DtlsHandshakeType
  server_hello_done : DtlsHandshakeType
  certificate_verify : DtlsHandshakeType
  client_key_exchange : DtlsHandshakeType
  finished : DtlsHandshakeType
  unknown_handshake : DtlsHandshakeType

pub record DtlsRecordHeader : Type 0 where
  pub content_type : DtlsRecordContentType
  pub version : ℕ
  pub epoch : ℕ
  pub length : ℕ
  pub record_size : ℕ

abbrev is_dtls_content_type_byte : ℕ → Bool
is_dtls_content_type_byte value = leb 20 value && leb value 63

abbrev is_known_dtls_content_type : ℕ → Bool
is_known_dtls_content_type value = value == 20 || value == 21 || value == 22 || value == 23

abbrev is_dtls_version : ℕ → Bool
is_dtls_version version = version / 256 % 256 == 254

unfoldable pub make_content_type : ℕ → DtlsRecordContentType
make_content_type value =
    if value == 20
    then change_cipher_spec
    else if value == 21
    then alert
    else if value == 22
    then handshake
    else if value == 23
    then application_data
    else unknown

unfoldable pub make_handshake_type : ℕ → DtlsHandshakeType
make_handshake_type value =
    if value == 0
    then hello_request
    else if value == 1
    then client_hello
    else if value == 2
    then server_hello
    else if value == 3
    then hello_verify_request
    else if value == 11
    then certificate
    else if value == 12
    then server_key_exchange
    else if value == 13
    then certificate_request
    else if value == 14
    then server_hello_done
    else if value == 15
    then certificate_verify
    else if value == 16
    then client_key_exchange
    else if value == 20
    then finished
    else unknown_handshake

-- What stands behind the check of the size.
unfoldable pub check_dtls_record : List ℕ → Result Bool
check_dtls_record packet = do
  first ← byte packet 0
  version ← read_u16 packet 1
  length_field ← read_u16 packet 11
  ok (
      is_dtls_content_type_byte first
      && is_dtls_version version
      && leb (dtls_record_header_size + length_field) (length packet))

unfoldable pub is_dtls_packet : List ℕ → Result Bool
unfolding check_dtls_record
is_dtls_packet packet =
    if ltb (length packet) dtls_record_header_size then ok false else check_dtls_record packet

unfoldable pub parse_dtls_record_header : List ℕ → Result DtlsRecordHeader
parse_dtls_record_header packet = do
  reject (ltb (length packet) dtls_record_header_size) "dtls packet is shorter than record header"
  first ← byte packet 0
  reject (not (is_dtls_content_type_byte first)) "dtls content type byte is invalid"
  reject (not (is_known_dtls_content_type first)) "dtls content type is unsupported"
  version ← read_u16 packet 1
  reject (not (is_dtls_version version)) "dtls version is invalid"
  length_field ← read_u16 packet 11
  let record_size = dtls_record_header_size + length_field
  reject (ltb (length packet) record_size) "dtls record is truncated"
  epoch ← read_u16 packet 3
  ok (record {
    content_type = make_content_type first;
    version = version;
    epoch = epoch;
    length = length_field;
    record_size = record_size;
  })

abbrev is_handshake : DtlsRecordContentType → Bool
is_handshake handshake = true
is_handshake _ = false

unfoldable pub get_dtls_handshake_type : List ℕ → DtlsRecordHeader → Result DtlsHandshakeType
unfolding make_handshake_type
get_dtls_handshake_type packet header =
    if not (is_handshake header.content_type)
      || header.length == 0
      || leb (length packet) dtls_record_header_size
    then ok unknown_handshake
    else (byte packet dtls_record_header_size >>= λ b. ok (make_handshake_type b))

unfoldable dtls_record_content_type_to_string : DtlsRecordContentType → String
dtls_record_content_type_to_string change_cipher_spec = "change_cipher_spec"
dtls_record_content_type_to_string alert = "alert"
dtls_record_content_type_to_string handshake = "handshake"
dtls_record_content_type_to_string application_data = "application_data"
dtls_record_content_type_to_string unknown = "unknown"

unfoldable dtls_handshake_type_to_string : DtlsHandshakeType → String
dtls_handshake_type_to_string hello_request = "hello_request"
dtls_handshake_type_to_string client_hello = "client_hello"
dtls_handshake_type_to_string server_hello = "server_hello"
dtls_handshake_type_to_string hello_verify_request = "hello_verify_request"
dtls_handshake_type_to_string certificate = "certificate"
dtls_handshake_type_to_string server_key_exchange = "server_key_exchange"
dtls_handshake_type_to_string certificate_request = "certificate_request"
dtls_handshake_type_to_string server_hello_done = "server_hello_done"
dtls_handshake_type_to_string certificate_verify = "certificate_verify"
dtls_handshake_type_to_string client_key_exchange = "client_key_exchange"
dtls_handshake_type_to_string finished = "finished"
dtls_handshake_type_to_string unknown_handshake = "unknown"

unfoldable dtls_version_to_string : ℕ → String
dtls_version_to_string version =
    if version == 65279
    then "dtls1.0"
    else if version == 65277
    then "dtls1.2"
    else if version == 65276
    then "dtls1.3"
    else "unknown"
