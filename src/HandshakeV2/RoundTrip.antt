-- ===== src/HandshakeV2/RoundTrip.antt =====
-- The frames of src/session/handshake_v2.cpp read back as they were written.
use aegis.Prelude.{
  ℕ, ◌/◌, ◌^◌, ◌<◌, some, List, ◌∷◌, ◌++◌, replicate, length, drop, ◌>>=◌, arith, ◌≡◌, ◌≢◌, sym,
  ◌∙◌, append-nil, length-append, drop-length, length-drop,
}
use aegis.Wire.{
  writer, read_u8, read_u16, read_u32, read_bytes, write_bytes, byte_of, u16_bytes, reader,
}
use aegis.Wire.Cursor.{at, read_field, read_last, write_bytes-prefix, u32-u32_bytes}
use aegis.HandshakeV2.{
  HandshakeV2InitFrame, HandshakeV2ResponseFrame, write_header, read_header,
  serialize_handshake_v2_init, parse_handshake_v2_init, serialize_handshake_v2_response,
  parse_handshake_v2_response,
}

-- The nine bytes in front of a payload.
abbrev pub header_bytes : ℕ → ℕ → ℕ → List ℕ
header_bytes type session_id payload_length =
    2
    ∷ type
    ∷ 0
    ∷ byte_of (session_id / 2 ^ 24)
    ∷ byte_of (session_id / 2 ^ 16)
    ∷ byte_of (session_id / 2 ^ 8)
    ∷ byte_of session_id
    ∷ u16_bytes payload_length

-- The values that the C++ type of an init frame can hold, with the session id that is refused left
-- out.
pub record IsInitFrame (f : HandshakeV2InitFrame) : Type 0 where
  pub session_id_fits : f.session_id < 2 ^ 32
  pub session_id_used : f.session_id ≢ 0
  pub network_id_size : length f.network_id ≡ 32
  pub noise_message_size : length f.noise_message ≡ 96

write_header_lem :
    (type session_id payload_length : ℕ) (room : List ℕ)
    → session_id ≢ 0
    → write_header type session_id payload_length (writer (replicate 9 0 ++ room))
      ≡ some (record { bytes = header_bytes type session_id payload_length ++ room; offset = 9 })
unfolding write_header write_bytes
write_header_lem type session_id payload_length room h = ground arith

read_header_lem :
    (type session_id payload_length : ℕ) (rest : List ℕ)
    → session_id < 2 ^ 32
    → session_id ≢ 0
    → payload_length < 2 ^ 16
    → read_header type payload_length (reader (header_bytes type session_id payload_length ++ rest))
      ≡ (some session_id, at (header_bytes type session_id payload_length) rest)
unfolding read_header read_u8 read_u16 read_u32 read_bytes
read_header_lem type session_id payload_length rest h k l =
    ground (arith, u32-u32_bytes session_id h)

-- The bytes of an init frame, and of a response frame.
abbrev pub init_bytes : HandshakeV2InitFrame → List ℕ
init_bytes f = header_bytes 0 f.session_id 128 ++ (f.network_id ++ f.noise_message)

abbrev pub response_bytes : HandshakeV2ResponseFrame → List ℕ
response_bytes f = header_bytes 1 f.session_id 48 ++ f.noise_message

-- A field that fills what is left of the buffer.
write_last :
    (done value room : List ℕ)
    → length room ≡ length value
    → write_bytes value (record { bytes = done ++ room; offset = length done })
      ≡ some (record { bytes = done ++ value; offset = length (done ++ value) })
write_last done value room h =
    write_bytes-prefix done value room 0 (omega arith) ∙ rw (← h, drop-length room) (rw append-nil)

pub serialize-init_bytes :
    (f : HandshakeV2InitFrame) → IsInitFrame f → serialize_handshake_v2_init f ≡ some (init_bytes f)
unfolding serialize_handshake_v2_init
serialize-init_bytes f v =
    rw (write_header_lem 0 f.session_id 128 (replicate 128 0) v.session_id_used) (
      rw
        (write_bytes-prefix header f.network_id (replicate 128 0) 96
          (omega (arith, v.network_id_size)))
        (rw
          (write_last (header ++ f.network_id) f.noise_message room
            (omega (arith, length-drop {A = ℕ} (length f.network_id) (replicate 128 0), v)))
          (ground arith)))
  where
    header : List ℕ
    header = header_bytes 0 f.session_id 128

    room : List ℕ
    room = drop (length f.network_id) (replicate 128 0)

pub serialize-response_bytes :
    (f : HandshakeV2ResponseFrame)
    → f.session_id ≢ 0
    → length f.noise_message ≡ 48
    → serialize_handshake_v2_response f ≡ some (response_bytes f)
unfolding serialize_handshake_v2_response
serialize-response_bytes f h k = rw (write_header_lem 1 f.session_id 48 (replicate 48 0) h) (
    rw (write_last (header_bytes 1 f.session_id 48) f.noise_message (replicate 48 0) (sym k))
      (ground arith))

parse-init_bytes :
    (f : HandshakeV2InitFrame) → IsInitFrame f → parse_handshake_v2_init (init_bytes f) ≡ some f
unfolding parse_handshake_v2_init
parse-init_bytes f v = ground (
  arith,
  v,
  length-append f.network_id f.noise_message,
  read_header_lem 0 f.session_id 128 (f.network_id ++ f.noise_message),
  read_field 32 (header_bytes 0 f.session_id 128) f.network_id f.noise_message,
  read_last 96 (header_bytes 0 f.session_id 128 ++ f.network_id) f.noise_message,
  append-nil (f.network_id ++ f.noise_message),
  append-nil ((header_bytes 0 f.session_id 128 ++ f.network_id) ++ f.noise_message),
)

parse-response_bytes :
    (f : HandshakeV2ResponseFrame)
    → f.session_id < 2 ^ 32
    → f.session_id ≢ 0
    → length f.noise_message ≡ 48
    → parse_handshake_v2_response (response_bytes f) ≡ some f
unfolding parse_handshake_v2_response
parse-response_bytes f h k l = ground (
  arith,
  read_header_lem 1 f.session_id 48 f.noise_message,
  read_last 48 (header_bytes 1 f.session_id 48) f.noise_message,
  append-nil (header_bytes 1 f.session_id 48 ++ f.noise_message),
)

-- An init frame whose fields have their sizes and whose session id is not 0 is written, and reads
-- back.
pub parse-serialize_init :
    (f : HandshakeV2InitFrame)
    → IsInitFrame f
    → (serialize_handshake_v2_init f >>= parse_handshake_v2_init) ≡ some f
parse-serialize_init f v = rw (serialize-init_bytes f v) (parse-init_bytes f v)

-- A response frame whose Noise message has its size and whose session id is not 0 and fits 32 bits
-- is written, and reads back.
pub parse-serialize_response :
    (f : HandshakeV2ResponseFrame)
    → f.session_id < 2 ^ 32
    → f.session_id ≢ 0
    → length f.noise_message ≡ 48
    → (serialize_handshake_v2_response f >>= parse_handshake_v2_response) ≡ some f
parse-serialize_response f h k l =
    rw (serialize-response_bytes f k l) (parse-response_bytes f h k l)
