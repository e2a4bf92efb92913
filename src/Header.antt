-- ===== src/Header.antt =====
-- include/aegis/packet/header.hpp: the packet header on the wire, and the sizes of padded session
-- frames.
pub mod Codec
pub mod Padding
mod Tests
use aegis.Prelude.{
  ℕ, ◌+◌, ◌-◌, ◌*◌, ◌/◌, Bool, ◌||◌, Option, some, List, replicate, ◌==◌, if◌then◌else◌, ◌>>=◌,
  ◌>>◌, guard,
}
use aegis.Wire.{reader, finished, read_u8, read_u32, writer, full, write_u8, write_u32}

pub record PacketHeader : Type 0 where
  pub version : ℕ
  pub packet_type : ℕ
  pub flags : ℕ
  pub reserved : ℕ
  pub session_id : ℕ
  pub sequence_number : ℕ
  pub payload_length : ℕ

abbrev pub packet_version : ℕ
packet_version = 0x02

abbrev pub packet_header_size : ℕ
packet_header_size = 16

abbrev pub session_max_payload_size : ℕ
session_max_payload_size = 4096

abbrev pub session_padding_bucket_min : ℕ
session_padding_bucket_min = 32

abbrev pub session_length_prefix_size : ℕ
session_length_prefix_size = 4

abbrev pub session_max_logical_payload_size : ℕ
session_max_logical_payload_size = session_max_payload_size - session_length_prefix_size

abbrev pub packet_known_flags : ℕ
packet_known_flags = 0x03

unfoldable pub is_supported_session_padding_bucket : ℕ → Bool
is_supported_session_padding_bucket bucket_size =
    bucket_size == 32 || bucket_size == 64 || bucket_size == 128 || bucket_size == 256

unfoldable pub session_max_padding_for_bucket : ℕ → ℕ
unfolding is_supported_session_padding_bucket
session_max_padding_for_bucket bucket_size =
    if is_supported_session_padding_bucket bucket_size then bucket_size - 1 else 0

unfoldable pub session_frame_overhead : ℕ → ℕ
unfolding session_max_padding_for_bucket
session_frame_overhead bucket_size =
    packet_header_size
    + 12
    + 16
    + session_length_prefix_size
    + session_max_padding_for_bucket bucket_size

unfoldable pub session_padded_plaintext_size : ℕ → ℕ → ℕ
unfolding is_supported_session_padding_bucket
session_padded_plaintext_size logical_payload_size bucket_size =
    if is_supported_session_padding_bucket bucket_size
    then (logical_payload_size + session_length_prefix_size + bucket_size - 1)
      / bucket_size
      * bucket_size
    else 0

-- The bytes, or `none` where the local `encoded` would be false. The code ignores `encoded`.
unfoldable pub serialize_packet_header : PacketHeader → Option (List ℕ)
serialize_packet_header header = do
  w ← write_u8 header.version (writer (replicate packet_header_size 0))
  w ← write_u8 header.packet_type w
  w ← write_u8 header.flags w
  w ← write_u8 header.reserved w
  w ← write_u32 header.session_id w
  w ← write_u32 header.sequence_number w
  w ← write_u32 header.payload_length w
  guard (full w)
  some w.bytes

-- Every field is read before any of them is looked at.
unfoldable pub parse_packet_header : List ℕ → Option PacketHeader
parse_packet_header bytes =
    let (version, r) = read_u8 (reader bytes) in
    let (packet_type, r) = read_u8 r in
    let (flags, r) = read_u8 r in
    let (reserved, r) = read_u8 r in
    let (session_id, r) = read_u32 r in
    let (sequence_number, r) = read_u32 r in
    let (payload_length, r) = read_u32 r in
    do
      version ← version
      packet_type ← packet_type
      flags ← flags
      reserved ← reserved
      session_id ← session_id
      sequence_number ← sequence_number
      payload_length ← payload_length
      guard (finished r)
      some (record {
        version = version;
        packet_type = packet_type;
        flags = flags;
        reserved = reserved;
        session_id = session_id;
        sequence_number = sequence_number;
        payload_length = payload_length;
      })
