-- ===== src/Session/Message.antt =====
-- `encrypt_message`, `decrypt_message` and `decrypt_data` of src/session/session.cpp. The AEAD of
-- src/crypto/chacha20poly1305.cpp and the random source are parameters; a key is the number that
-- its bytes spell. The nonce's byte order is that of a little-endian machine.
pub mod Payload
pub mod RoundTrip
pub mod Sending
pub mod Size
use Prim.Native.Nat.{bit_and}
use aegis.Prelude.{
  ℕ, ◌+◌, ◌-◌, ◌/◌, ◌%◌, ◌^◌, Bool, true, false, ◌&&◌, ◌||◌, not, Option, none, some, List, [], ◌∷◌,
  ◌++◌, length, take, drop, replicate, ltb, leb, ◌==◌, if◌then◌else◌, ◌>>=◌, ◌>>◌, guard,
  null_with_bytes, first_bytes,
}
use aegis.Prelude.Maps.{Map, find, insert}
use aegis.Wire.{
  WireWriter, reader, remaining, finished, read_u16, read_bytes, writer, room, write_u16,
  write_bytes, byte_of, u32_bytes,
}
use aegis.Header.{
  PacketHeader, packet_version, packet_header_size, session_max_payload_size,
  session_padding_bucket_min, session_max_logical_payload_size, is_supported_session_padding_bucket,
  session_padded_plaintext_size, serialize_packet_header, parse_packet_header,
}
use aegis.Replay.{ReplayState, check_replay, update_replay}
use aegis.Session.{
  SessionState, RetiredSession, SessionManager, find_session_locked, find_session_by_id_locked,
}

-- `chacha20_poly1305_encrypt` and `_decrypt`: key, nonce, text and associated data. The result of
-- the first is the ciphertext and the tag.
pub record Aead : Type 0 where
  pub encrypt : ℕ → List ℕ → List ℕ → List ℕ → Option (List ℕ × List ℕ)
  pub decrypt : ℕ → List ℕ → List ℕ → List ℕ → List ℕ → Option (List ℕ)

abbrev pub type_data : ℕ
type_data = 0x02

-- The payload before its padding: both lengths and the text, in a buffer of the padded size.
unfoldable pub write_payload : ℕ → List ℕ → Option WireWriter
write_payload bucket_size plaintext = do
  w ←
      write_u16 (length plaintext)
        (writer (replicate (session_padded_plaintext_size (length plaintext) bucket_size) 0))
  w ← write_u16 bucket_size w
  if ltb 0 (length plaintext) then write_bytes plaintext w else some w

-- The padding, drawn if there is any. `random n` is what the random source puts into `n` bytes.
unfoldable pub pad : (ℕ → Option (List ℕ)) → WireWriter → Option (List ℕ)
pad random w =
    if ltb 0 (room w)
    then (random (room w) >>= λ padding. some (take w.offset w.bytes ++ padding))
    else some w.bytes

-- The least significant byte first.
abbrev pub u32_bytes_le : ℕ → List ℕ
u32_bytes_le value =
    byte_of value
    ∷ byte_of (value / 2 ^ 8)
    ∷ byte_of (value / 2 ^ 16)
    ∷ byte_of (value / 2 ^ 24)
    ∷ []

unfoldable pub make_nonce : ℕ → ℕ → List ℕ
make_nonce session_id send_seq =
    u32_bytes session_id
    ++ (u32_bytes_le (send_seq / 2 ^ 32 % 2 ^ 32) ++ u32_bytes_le (send_seq % 2 ^ 32))

abbrev pub data_header : ℕ → ℕ → SessionState → ℕ → PacketHeader
data_header packet_type flags session size = record {
  version = packet_version;
  packet_type = packet_type;
  flags = flags;
  reserved = 0;
  session_id = session.id;
  sequence_number = session.send_seq % 2 ^ 32;
  payload_length = size;
}

-- The wire frame of a protected payload, under the session's next sequence number.
unfoldable pub seal : Aead → ℕ → ℕ → SessionState → List ℕ → Option (List ℕ)
seal aead packet_type flags session payload = do
  header ← serialize_packet_header (data_header packet_type flags session (length payload))
  let nonce = make_nonce session.id session.send_seq
  sealed ← aead.encrypt session.send_key nonce payload header
  some (header ++ (nonce ++ (sealed.0 ++ sealed.1)))

-- `sess->send_seq++`.
abbrev pub count_sent : SessionState → SessionState
count_sent session = record session { send_seq = (session.send_seq + 1) % 2 ^ 64 }

module _ {H : Type 0} where
  abbrev pub put_session : ℕ → SessionState → SessionManager H → SessionManager H
  put_session peer_id session m = record m { sessions = insert peer_id session m.sessions }

  -- Under the lock: the number is used up even where the encryption fails.
  abbrev pub send_padded :
      Aead
      → ℕ
      → ℕ
      → ℕ
      → SessionState
      → Option (List ℕ)
      → SessionManager H
      → Option (List ℕ) × SessionManager H
  send_padded aead peer_id packet_type flags session none m = (none, m)
  send_padded aead peer_id packet_type flags session (some payload) m =
      (seal aead packet_type flags session payload, put_session peer_id (count_sent session) m)

  abbrev pub send_to :
      Aead
      → (ℕ → Option (List ℕ))
      → ℕ
      → ℕ
      → ℕ
      → WireWriter
      → Option SessionState
      → SessionManager H
      → Option (List ℕ) × SessionManager H
  send_to aead random peer_id packet_type flags w none m = (none, m)
  send_to aead random peer_id packet_type flags w (some session) m =
      send_padded aead peer_id packet_type flags session (pad random w) m

  abbrev pub send_payload :
      Aead
      → (ℕ → Option (List ℕ))
      → ℕ
      → ℕ
      → ℕ
      → Option WireWriter
      → SessionManager H
      → Option (List ℕ) × SessionManager H
  send_payload aead random peer_id packet_type flags none m = (none, m)
  send_payload aead random peer_id packet_type flags (some w) m =
      send_to aead random peer_id packet_type flags w (find_session_locked peer_id m) m

  unfoldable pub encrypt_message :
      Aead
      → (ℕ → Option (List ℕ))
      → ℕ
      → ℕ
      → ℕ
      → Option (List ℕ)
      → ℕ
      → ℕ
      → SessionManager H
      → Option (List ℕ) × SessionManager H
  encrypt_message aead random padding_bucket_size peer_id packet_type buffer pt_len flags m =
      if null_with_bytes buffer pt_len
        || not (is_supported_session_padding_bucket padding_bucket_size)
        || ltb session_max_logical_payload_size pt_len
        || ltb (2 ^ 32 - 1) pt_len
      then (none, m)
      else if ltb session_max_payload_size
          (session_padded_plaintext_size pt_len padding_bucket_size)
      then (none, m)
      else send_payload aead random peer_id packet_type flags
          (write_payload padding_bucket_size (first_bytes buffer pt_len)) m

pub record DecryptedMessage : Type 0 where
  pub packet_type : ℕ
  pub payload : List ℕ

-- What a decrypted payload holds between its lengths and its padding.
unfoldable pub read_payload : List ℕ → Option (List ℕ)
read_payload bytes =
    let (logical_length, r) = read_u16 (reader bytes) in
    let (bucket_size, r) = read_u16 r in
    do
      logical_length ← logical_length
      bucket_size ← bucket_size
      guard (
          is_supported_session_padding_bucket bucket_size
          && leb logical_length session_max_logical_payload_size
          && session_padded_plaintext_size logical_length bucket_size == length bytes)
      let payload = read_bytes logical_length r
      let padding = read_bytes (remaining payload.1) payload.1
      logical_payload ← payload.0
      unused ← padding.0
      guard (finished padding.1)
      some logical_payload

-- The checks of a frame before the lock: its header, with a payload length that fits the frame.
unfoldable pub open_frame : List ℕ → Option PacketHeader
open_frame frame = do
  guard (leb (16 + 12 + session_padding_bucket_min + 16) (length frame))
  header ← parse_packet_header (take packet_header_size frame)
  guard (header.version == packet_version && header.reserved == 0 && bit_and header.flags 0xfc == 0)
  guard (
      leb session_padding_bucket_min header.payload_length
      && leb header.payload_length session_max_payload_size)
  guard (16 + 12 + header.payload_length + 16 == length frame)
  some header

-- The payload behind the nonce, if the tag is right under the session's key.
unfoldable pub open_payload : Aead → SessionState → PacketHeader → List ℕ → Option (List ℕ)
open_payload aead session header frame =
    aead.decrypt session.recv_key (take 12 (drop 16 frame))
      (take header.payload_length (drop 28 frame)) (drop (28 + header.payload_length) frame)
      (take 16 frame)

-- A session with its window moved on. `none` where the number is old, where the tag is wrong, and
-- where the window would throw.
unfoldable pub accept : Aead → SessionState → PacketHeader → List ℕ → Option (SessionState × List ℕ)
accept aead session header frame = do
  fresh ← check_replay session.replay header.sequence_number
  guard fresh
  bytes ← open_payload aead session header frame
  replay ← update_replay session.replay header.sequence_number
  some (record session { replay = replay }, bytes)

abbrev pub message_of : ℕ → Option (List ℕ) → Option DecryptedMessage
message_of packet_type none = none
message_of packet_type (some payload) =
    some (record { packet_type = packet_type; payload = payload })

abbrev pub data_of : Option DecryptedMessage → Option (List ℕ)
data_of none = none
data_of (some message) = if message.packet_type == type_data then some message.payload else none

module _ {H : Type 0} where
  -- The session goes back to where `find_session_by_id_locked` found it.
  abbrev pub put_retired :
      ℕ → SessionState → Option RetiredSession → SessionManager H → SessionManager H
  put_retired id session none m = m
  put_retired id session (some r) m = record m {
    retired = insert id (record r { session = session }) m.retired;
  }

  abbrev pub put_by_id : ℕ → SessionState → Option ℕ → SessionManager H → SessionManager H
  put_by_id id session none m = put_retired id session (find id m.retired) m
  put_by_id id session (some peer_id) m = put_session peer_id session m

  abbrev pub take_accepted :
      PacketHeader
      → Option (SessionState × List ℕ)
      → SessionManager H
      → Option DecryptedMessage × SessionManager H
  take_accepted header none m = (none, m)
  take_accepted header (some (session, bytes)) m = (
    message_of header.packet_type (read_payload bytes),
    put_by_id header.session_id session (find header.session_id m.session_to_peer) m,
  )

  abbrev pub receive_for :
      Aead
      → PacketHeader
      → List ℕ
      → Option SessionState
      → SessionManager H
      → Option DecryptedMessage × SessionManager H
  receive_for aead header frame none m = (none, m)
  receive_for aead header frame (some session) m =
      take_accepted header (accept aead session header frame) m

  abbrev pub receive_frame :
      Aead
      → List ℕ
      → Option PacketHeader
      → SessionManager H
      → Option DecryptedMessage × SessionManager H
  receive_frame aead frame none m = (none, m)
  receive_frame aead frame (some header) m =
      receive_for aead header frame (find_session_by_id_locked header.session_id m) m

  unfoldable pub decrypt_message :
      Aead → List ℕ → SessionManager H → Option DecryptedMessage × SessionManager H
  decrypt_message aead frame m = receive_frame aead frame (open_frame frame) m

  unfoldable pub decrypt_data :
      Aead → List ℕ → SessionManager H → Option (List ℕ) × SessionManager H
  decrypt_data aead frame m =
      let (message, m') = decrypt_message aead frame m in (data_of message, m')
