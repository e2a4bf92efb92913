-- ===== src/Header/Tests.antt =====
-- Headers and padded sizes of include/aegis/packet/header.hpp at concrete inputs.
use aegis.Prelude.{ℕ, some, List, [], ◌∷◌, ◌≡◌, refl, arith, ◌>>=◌}
use aegis.Wire.{read_u8, read_u32}
use aegis.Header.{
  PacketHeader, serialize_packet_header, parse_packet_header, session_padded_plaintext_size,
}
use aegis.Header.Codec.{IsHeader, parse-serialize, serialize-parse}

abbrev data_header : PacketHeader
data_header = record {
  version = 2;
  packet_type = 2;
  flags = 1;
  reserved = 0;
  session_id = 0x01020304;
  sequence_number = 77;
  payload_length = 64;
}

abbrev data_bytes : List ℕ
data_bytes = 2 ∷ 2 ∷ 1 ∷ 0 ∷ 1 ∷ 2 ∷ 3 ∷ 4 ∷ 0 ∷ 0 ∷ 0 ∷ 77 ∷ 0 ∷ 0 ∷ 0 ∷ 64 ∷ []

parse-serialize_example :
    (serialize_packet_header data_header >>= parse_packet_header) ≡ some data_header
parse-serialize_example = parse-serialize data_header (omega arith)

serialize-parse_example :
    (serialize_packet_header data_header ≡ some data_bytes) × IsHeader data_header
unfolding parse_packet_header read_u8 read_u32
serialize-parse_example = serialize-parse data_bytes (omega arith) refl

padded_61 : session_padded_plaintext_size 61 64 ≡ 128
unfolding session_padded_plaintext_size
padded_61 = refl
