-- ===== src/Header/Codec.antt =====
-- The 16 bytes of `PacketHeader`: `serialize_packet_header` and `parse_packet_header` of
-- include/aegis/packet/header.hpp.
use aegis.Prelude.{ℕ, ◌/◌, ◌^◌, ◌<◌, some, List, [], ◌∷◌, length, arith, ◌≡◌, refl, All, ◌>>=◌}
use aegis.Wire.{read_u8, read_u32, write_bytes, byte_of}
use aegis.Wire.Cursor.{u32-u32_bytes, u32_bytes-u32, IsByte}
use aegis.Header.{PacketHeader, serialize_packet_header, parse_packet_header}

-- Each field fits the integer type that the struct gives it.
pub record IsHeader (h : PacketHeader) : Type 0 where
  pub version_fits : h.version < 2 ^ 8
  pub packet_type_fits : h.packet_type < 2 ^ 8
  pub flags_fits : h.flags < 2 ^ 8
  pub reserved_fits : h.reserved < 2 ^ 8
  pub session_id_fits : h.session_id < 2 ^ 32
  pub sequence_number_fits : h.sequence_number < 2 ^ 32
  pub payload_length_fits : h.payload_length < 2 ^ 32

abbrev pub header_bytes : PacketHeader → List ℕ
header_bytes h =
    h.version
    ∷ h.packet_type
    ∷ h.flags
    ∷ h.reserved
    ∷ byte_of (h.session_id / 2 ^ 24)
    ∷ byte_of (h.session_id / 2 ^ 16)
    ∷ byte_of (h.session_id / 2 ^ 8)
    ∷ byte_of h.session_id
    ∷ byte_of (h.sequence_number / 2 ^ 24)
    ∷ byte_of (h.sequence_number / 2 ^ 16)
    ∷ byte_of (h.sequence_number / 2 ^ 8)
    ∷ byte_of h.sequence_number
    ∷ byte_of (h.payload_length / 2 ^ 24)
    ∷ byte_of (h.payload_length / 2 ^ 16)
    ∷ byte_of (h.payload_length / 2 ^ 8)
    ∷ byte_of h.payload_length
    ∷ []

-- The writes fill the array exactly, so the flag that the code ignores is always true.
pub serialize-header_bytes : (h : PacketHeader) → serialize_packet_header h ≡ some (header_bytes h)
unfolding serialize_packet_header write_bytes
serialize-header_bytes h = refl

pub parse-header_bytes :
    (h : PacketHeader) → IsHeader h → parse_packet_header (header_bytes h) ≡ some h
unfolding parse_packet_header read_u8 read_u32
parse-header_bytes h v = ground (
  arith,
  u32-u32_bytes h.session_id,
  u32-u32_bytes h.sequence_number,
  u32-u32_bytes h.payload_length,
)

-- Only 16 bytes parse.
pub parse-length :
    (bytes : List ℕ) {h : PacketHeader} → parse_packet_header bytes ≡ some h → length bytes ≡ 16
unfolding parse_packet_header read_u8 read_u32
parse-length bytes e = ground arith

-- Parsing what `serialize_packet_header` wrote gives the header back, if its fields fit their types.
pub parse-serialize :
    (h : PacketHeader) → IsHeader h → (serialize_packet_header h >>= parse_packet_header) ≡ some h
parse-serialize h v = rw (serialize-header_bytes h) (parse-header_bytes h v)

canonical_16 :
    (a b c d s0 s1 s2 s3 n0 n1 n2 n3 p0 p1 p2 p3 : ℕ) {h : PacketHeader}
    → let bytes = a ∷ b ∷ c ∷ d ∷ s0 ∷ s1 ∷ s2 ∷ s3 ∷ n0 ∷ n1 ∷ n2 ∷ n3 ∷ p0 ∷ p1 ∷ p2 ∷ p3 ∷ [] in
      All IsByte bytes
      → parse_packet_header bytes ≡ some h
      → (serialize_packet_header h ≡ some bytes) × IsHeader h
unfolding parse_packet_header read_u8 read_u32
canonical_16 a b c d s0 s1 s2 s3 n0 n1 n2 n3 p0 p1 p2 p3 {h} v e = ground (
  arith,
  serialize-header_bytes h,
  u32_bytes-u32 s0 s1 s2 s3,
  u32_bytes-u32 n0 n1 n2 n3,
  u32_bytes-u32 p0 p1 p2 p3,
)

-- A header that parses from bytes has fields that fit their types, and is written as the bytes that
-- were read.
pub serialize-parse :
    (bytes : List ℕ) {h : PacketHeader}
    → All IsByte bytes
    → parse_packet_header bytes ≡ some h
    → (serialize_packet_header h ≡ some bytes) × IsHeader h
serialize-parse (a ∷ b ∷ c ∷ d ∷ s0 ∷ s1 ∷ s2 ∷ s3 ∷ n0 ∷ n1 ∷ n2 ∷ n3 ∷ p0 ∷ p1 ∷ p2 ∷ p3 ∷ []) v
      e =
    canonical_16 a b c d s0 s1 s2 s3 n0 n1 n2 n3 p0 p1 p2 p3 v e
serialize-parse bytes v e = absurd (omega (arith, parse-length bytes e))
