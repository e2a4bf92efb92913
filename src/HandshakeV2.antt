-- ===== src/HandshakeV2.antt =====
-- src/session/handshake_v2.cpp and include/aegis/session/handshake_v2.hpp: the frames that carry the
-- two Noise IK messages, and the prologue that both sides hash.
pub mod RoundTrip
mod Tests
use aegis.Prelude.{
  ℕ, ◌+◌, ◌*◌, Bool, true, false, ◌&&◌, not, Option, none, some, List, replicate, length, ◌==◌,
  if◌then◌else◌, ◌>>=◌, ◌>>◌, guard, codes,
}
use aegis.Wire.{
  WireReader, WireWriter, reader, finished, read_u8, read_u16, read_u32, read_bytes, writer, full,
  write_u8, write_u16, write_u32, write_bytes,
}

abbrev pub handshake_v2_version : ℕ
handshake_v2_version = 0x02

abbrev pub handshake_v2_init_type : ℕ
handshake_v2_init_type = 0x00

abbrev pub handshake_v2_response_type : ℕ
handshake_v2_response_type = 0x01

abbrev pub handshake_v2_flags : ℕ
handshake_v2_flags = 0x00

abbrev pub network_id_size : ℕ
network_id_size = 32

abbrev pub handshake_v2_init_noise_size : ℕ
handshake_v2_init_noise_size = 96

abbrev pub handshake_v2_response_noise_size : ℕ
handshake_v2_response_noise_size = 48

abbrev pub handshake_v2_init_payload_size : ℕ
handshake_v2_init_payload_size = network_id_size + handshake_v2_init_noise_size

abbrev pub handshake_v2_response_payload_size : ℕ
handshake_v2_response_payload_size = handshake_v2_response_noise_size

abbrev pub handshake_v2_init_frame_size : ℕ
handshake_v2_init_frame_size = 9 + handshake_v2_init_payload_size

abbrev pub handshake_v2_response_frame_size : ℕ
handshake_v2_response_frame_size = 9 + handshake_v2_response_payload_size

-- The arrays of the frame are lists here; see `IsInitFrame` for their lengths.
pub record HandshakeV2InitFrame : Type 0 where
  pub session_id : ℕ
  pub network_id : List ℕ
  pub noise_message : List ℕ

pub record HandshakeV2ResponseFrame : Type 0 where
  pub session_id : ℕ
  pub noise_message : List ℕ

unfoldable pub write_prologue_header : ℕ → ℕ → ℕ → WireWriter → Option WireWriter
write_prologue_header type session_id payload_length w = do
  w ← write_u8 handshake_v2_version w
  w ← write_u8 type w
  w ← write_u8 handshake_v2_flags w
  w ← write_u32 session_id w
  write_u16 payload_length w

unfoldable pub write_header : ℕ → ℕ → ℕ → WireWriter → Option WireWriter
write_header type session_id payload_length w = do
  guard (not (session_id == 0))
  w ← write_u8 handshake_v2_version w
  w ← write_u8 type w
  w ← write_u8 handshake_v2_flags w
  w ← write_u32 session_id w
  write_u16 payload_length w

-- The session id, or `none` for `false`, and the reader behind the header.
unfoldable pub read_header : ℕ → ℕ → WireReader → Option ℕ × WireReader
read_header expected_type expected_payload_length r =
    let (version, r) = read_u8 r in
    let (type, r) = read_u8 r in
    let (flags, r) = read_u8 r in
    let (parsed_session_id, r) = read_u32 r in
    let (payload_length, r) = read_u16 r in
    (
      do
        version ← version
        type ← type
        flags ← flags
        parsed_session_id ← parsed_session_id
        payload_length ← payload_length
        guard (
            version == handshake_v2_version
            && type == expected_type
            && flags == handshake_v2_flags
            && not (parsed_session_id == 0)
            && payload_length == expected_payload_length)
        some parsed_session_id,
      r,
    )

unfoldable pub serialize_handshake_v2_init : HandshakeV2InitFrame → Option (List ℕ)
unfolding write_header
serialize_handshake_v2_init frame = do
  w ←
      write_header handshake_v2_init_type frame.session_id handshake_v2_init_payload_size
        (writer (replicate handshake_v2_init_frame_size 0))
  w ← write_bytes frame.network_id w
  w ← write_bytes frame.noise_message w
  guard (full w)
  some w.bytes

unfoldable pub parse_handshake_v2_init : List ℕ → Option HandshakeV2InitFrame
parse_handshake_v2_init bytes = do
  guard (length bytes == handshake_v2_init_frame_size)
  let parsed = read_header handshake_v2_init_type handshake_v2_init_payload_size (reader bytes)
  session_id ← parsed.0
  let network = read_bytes network_id_size parsed.1
  let noise = read_bytes handshake_v2_init_noise_size network.1
  network_id ← network.0
  noise_message ← noise.0
  guard (finished noise.1)
  some (record { session_id = session_id; network_id = network_id; noise_message = noise_message })

unfoldable pub serialize_handshake_v2_response : HandshakeV2ResponseFrame → Option (List ℕ)
unfolding write_header
serialize_handshake_v2_response frame = do
  w ←
      write_header handshake_v2_response_type frame.session_id handshake_v2_response_payload_size
        (writer (replicate handshake_v2_response_frame_size 0))
  w ← write_bytes frame.noise_message w
  guard (full w)
  some w.bytes

unfoldable pub parse_handshake_v2_response : List ℕ → Option HandshakeV2ResponseFrame
parse_handshake_v2_response bytes = do
  guard (length bytes == handshake_v2_response_frame_size)
  let parsed =
      read_header handshake_v2_response_type handshake_v2_response_payload_size (reader bytes)
  session_id ← parsed.0
  let noise = read_bytes handshake_v2_response_noise_size parsed.1
  noise_message ← noise.0
  guard (finished noise.1)
  some (record { session_id = session_id; noise_message = noise_message })

abbrev pub handshake_v2_prologue_domain : List ℕ
handshake_v2_prologue_domain = codes "aegis-handshake-v2"

abbrev pub handshake_v2_noise_protocol : List ℕ
handshake_v2_noise_protocol = codes "Noise_IK_25519_ChaChaPoly_BLAKE2s"

abbrev pub handshake_v2_prologue_size : ℕ
handshake_v2_prologue_size =
    1
    + length handshake_v2_prologue_domain
    + 1
    + length handshake_v2_noise_protocol
    + 1
    + network_id_size
    + 4
    + 2
    + 2 * 9

unfoldable pub make_handshake_v2_prologue : List ℕ → ℕ → Option (List ℕ)
unfolding write_prologue_header
make_handshake_v2_prologue network_id session_id = do
  guard (not (session_id == 0))
  w ←
      write_u8 (length handshake_v2_prologue_domain)
        (writer (replicate handshake_v2_prologue_size 0))
  w ← write_bytes handshake_v2_prologue_domain w
  w ← write_u8 (length handshake_v2_noise_protocol) w
  w ← write_bytes handshake_v2_noise_protocol w
  w ← write_u8 handshake_v2_version w
  w ← write_bytes network_id w
  w ← write_u32 session_id w
  w ← write_u8 0x01 w
  w ← write_u8 0x02 w
  w ← write_prologue_header handshake_v2_init_type session_id handshake_v2_init_payload_size w
  w ←
      write_prologue_header handshake_v2_response_type session_id handshake_v2_response_payload_size
        w
  guard (full w)
  some w.bytes
