-- ===== src/Tests/Dtls.antt =====
-- Records of DTLS, as they are sent, and what dtls/dtls_packet.cpp reads from them.
use simple_webrtc.Base.{ℕ, ◌≡◌, refl, List, [], ◌∷◌, ok, Ensures, byte, read_u16, at, arith}
use simple_webrtc.Dtls.Packet.{
  DtlsRecordHeader, handshake, client_hello, make_content_type, make_handshake_type, is_dtls_packet,
  parse_dtls_record_header, get_dtls_handshake_type,
}
use simple_webrtc.Dtls.Packet.Records.{
  IsRecordOf, is_accepted, parse_dtls_record_header-Ensures, is_dtls_packet-parse,
}

-- A client hello of DTLS 1.2 in epoch 0, cut to two bytes.
abbrev hello : List ℕ
hello = 22 ∷ 254 ∷ 253 ∷ 0 ∷ 0 ∷ 0 ∷ 0 ∷ 0 ∷ 0 ∷ 0 ∷ 1 ∷ 0 ∷ 2 ∷ 1 ∷ 0 ∷ []

abbrev hello_header : DtlsRecordHeader
hello_header = record {
  content_type = handshake;
  version = 65277;
  epoch = 0;
  length = 2;
  record_size = 15;
}

hello-parsed : parse_dtls_record_header hello ≡ ok hello_header
unfolding parse_dtls_record_header byte read_u16 at make_content_type
hello-parsed = refl

hello-type : get_dtls_handshake_type hello hello_header ≡ ok client_hello
unfolding get_dtls_handshake_type byte at make_handshake_type
hello-type = refl

parse_dtls_record_header-Ensures_example :
    Ensures (IsRecordOf hello) (parse_dtls_record_header hello)
parse_dtls_record_header-Ensures_example = parse_dtls_record_header-Ensures hello

is_dtls_packet-parse_example :
    is_dtls_packet hello ≡ ok (is_accepted (parse_dtls_record_header hello))
unfolding at
is_dtls_packet-parse_example = is_dtls_packet-parse hello (omega arith)
