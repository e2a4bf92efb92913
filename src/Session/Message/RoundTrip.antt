-- ===== src/Session/Message/RoundTrip.antt =====
-- What `encrypt_message` of src/session/session.cpp seals for a peer, and what that peer's
-- `decrypt_message` makes of the frame.
use Prim.Native.Nat.{bit_and}
use aegis.Prelude.{
  ℕ, ◌+◌, ◌%◌, ◌^◌, ◌≤◌, ◌<◌, true, false, Option, some, List, ◌++◌, length, take, drop, ◌>>=◌,
  arith, ◌≡◌, refl, sym, append_assoc, length-append, take-append, drop-append, drop-add_append,
  Option-cases, inl, inr, null_with_bytes, first_bytes, Readable, length-first_bytes,
}
use aegis.Header.{
  PacketHeader, serialize_packet_header, is_supported_session_padding_bucket,
  session_padded_plaintext_size, session_max_payload_size, session_max_logical_payload_size,
  session_padding_bucket_min,
}
use aegis.Header.Codec.{IsHeader, header_bytes, serialize-header_bytes, parse-header_bytes}
use aegis.Header.Padding.{session_padded_plaintext_size-IsBucketed, padded-le-max, IsBucket-cases}
use aegis.Replay.{ReplayState, check_replay, update_replay, receive}
use aegis.Session.{SessionState, SessionManager, find_session_locked, find_session_by_id_locked}
use aegis.Session.Message.{
  Aead, make_nonce, data_header, seal, pad, open_frame, open_payload, accept, encrypt_message,
  decrypt_message, write_payload,
}
use aegis.Session.Message.Payload.{read_payload-protected, write_payload-written, pad-written}

-- What ChaCha20-Poly1305 promises: decryption under the same key, nonce and associated data gives
-- the text back; the ciphertext is as long as the text, and a tag has 16 bytes.
pub record IsAead (aead : Aead) : Type 0 where
  pub opens :
      (key : ℕ) (nonce text about cipher tag : List ℕ)
      → aead.encrypt key nonce text about ≡ some (cipher, tag)
      → aead.decrypt key nonce cipher tag about ≡ some text
  pub sizes :
      (key : ℕ) (nonce text about cipher tag : List ℕ)
      → aead.encrypt key nonce text about ≡ some (cipher, tag)
      → (length cipher ≡ length text) × (length tag ≡ 16)

-- The four parts of a frame.
abbrev frame_of : List ℕ → List ℕ → List ℕ → List ℕ → List ℕ
frame_of header nonce cipher tag = header ++ (nonce ++ (cipher ++ tag))

seal-frame :
    (aead : Aead) (type flags : ℕ) (s : SessionState) (payload : List ℕ) {frame : List ℕ}
    → seal aead type flags s payload ≡ some frame
    → (header cipher tag : List ℕ) × (serialize_packet_header
          (data_header type flags s (length payload))
        ≡ some header)
      × (aead.encrypt s.send_key (make_nonce s.id s.send_seq) payload header ≡ some (cipher, tag))
      × (frame ≡ frame_of header (make_nonce s.id s.send_seq) cipher tag)
unfolding seal
seal-frame aead type flags s payload e =
    elim (Option-cases (serialize_packet_header (data_header type flags s (length payload)))) [
      | inl f ↦ absurd (ground arith)
      | inr (header, f) ↦
          elim (Option-cases
            (aead.encrypt s.send_key (make_nonce s.id s.send_seq) payload header)) [
              | inl g ↦ absurd (ground arith)
              | inr ((cipher, tag), g) ↦ (header, cipher, tag, f, g, ground arith)
            ]
    ]

-- The parts are found again at their places.
record Parts (header nonce cipher tag : List ℕ) : Type 0 where
  header_found : take 16 (frame_of header nonce cipher tag) ≡ header
  nonce_found : take 12 (drop 16 (frame_of header nonce cipher tag)) ≡ nonce
  cipher_found : take (length cipher) (drop 28 (frame_of header nonce cipher tag)) ≡ cipher
  tag_found : drop (28 + length cipher) (frame_of header nonce cipher tag) ≡ tag
  size : length (frame_of header nonce cipher tag) ≡ 28 + length cipher + length tag

parts :
    (header nonce cipher tag : List ℕ)
    → length header ≡ 16
    → length nonce ≡ 12
    → Parts header nonce cipher tag
parts header nonce cipher tag h k = record {
  header_found = rw (← h) (take-append header _);
  nonce_found = rw (← h, drop-append header (nonce ++ (cipher ++ tag)), ← k) (take-append nonce _);
  cipher_found =
      ground (
        arith,
        joined,
        front,
        drop-append (header ++ nonce) (cipher ++ tag),
        take-append cipher tag,
      );
  tag_found = ground (
    arith,
    joined,
    front,
    drop-add_append (header ++ nonce) (cipher ++ tag) (length cipher),
    drop-append cipher tag,
  );
  size = omega (
    arith,
    length-append header (nonce ++ (cipher ++ tag)),
    length-append nonce (cipher ++ tag),
    length-append cipher tag,
  );
}
  where
    joined : frame_of header nonce cipher tag ≡ (header ++ nonce) ++ (cipher ++ tag)
    joined = sym (append_assoc header nonce (cipher ++ tag))

    front : length (header ++ nonce) ≡ 28
    front = omega (arith, length-append header nonce)

length-make_nonce : (id seq : ℕ) → length (make_nonce id seq) ≡ 12
unfolding make_nonce
length-make_nonce id seq = refl

-- A sealed payload has the header, the nonce and the tag around it.
pub length-seal :
    (aead : Aead) (type flags : ℕ) (s : SessionState) (payload : List ℕ) {frame : List ℕ}
    → IsAead aead
    → seal aead type flags s payload ≡ some frame
    → length frame ≡ 28 + length payload + 16
length-seal aead type flags s payload {frame} a e =
    let (header, cipher, tag, f, g, framed) = seal-frame aead type flags s payload e in
    let (same_size, tag_size) = a.sizes _ _ _ _ cipher tag g in
    let whole : header ≡ header_bytes (data_header type flags s (length payload)) =
      ground (arith, f, serialize-header_bytes (data_header type flags s (length payload))) in
    let p =
      parts header (make_nonce s.id s.send_seq) cipher tag (ground (arith, whole))
        (length-make_nonce s.id s.send_seq) in
    rw framed (omega (arith, p.size, same_size, tag_size))

-- A frame that `seal` made passes the checks that precede the lock.
open_frame-seal :
    (aead : Aead) (type flags : ℕ) (s : SessionState) (payload : List ℕ) {frame : List ℕ}
    → IsAead aead
    → IsHeader (data_header type flags s (length payload))
    → bit_and flags 0xfc ≡ 0
    → session_padding_bucket_min ≤ length payload
    → length payload ≤ session_max_payload_size
    → seal aead type flags s payload ≡ some frame
    → open_frame frame ≡ some (data_header type flags s (length payload))
unfolding open_frame
open_frame-seal aead type flags s payload {frame} a h low k l e =
    let (header, cipher, tag, f, g, framed) = seal-frame aead type flags s payload e in
    let (same_size, tag_size) = a.sizes _ _ _ _ cipher tag g in
    let whole : header ≡ header_bytes (data_header type flags s (length payload)) =
      ground (arith, f, serialize-header_bytes (data_header type flags s (length payload))) in
    let p =
      parts header (make_nonce s.id s.send_seq) cipher tag (ground (arith, whole))
        (length-make_nonce s.id s.send_seq) in
    ground (
      arith,
      framed,
      whole,
      p.header_found,
      p.nonce_found,
      p.cipher_found,
      p.tag_found,
      p.size,
      same_size,
      tag_size,
      h,
      low,
      k,
      l,
      parse-header_bytes (data_header type flags s (length payload)),
    )

-- The receiver's key opens it again.
open_payload-seal :
    (aead : Aead) (type flags : ℕ) (s r : SessionState) (payload : List ℕ) {frame : List ℕ}
    → IsAead aead
    → r.recv_key ≡ s.send_key
    → seal aead type flags s payload ≡ some frame
    → open_payload aead r (data_header type flags s (length payload)) frame ≡ some payload
unfolding open_payload
open_payload-seal aead type flags s r payload {frame} a same e =
    let (header, cipher, tag, f, g, framed) = seal-frame aead type flags s payload e in
    let (same_size, tag_size) = a.sizes _ _ _ _ cipher tag g in
    let whole : header ≡ header_bytes (data_header type flags s (length payload)) =
      ground (arith, f, serialize-header_bytes (data_header type flags s (length payload))) in
    let p =
      parts header (make_nonce s.id s.send_seq) cipher tag (ground (arith, whole))
        (length-make_nonce s.id s.send_seq) in
    ground (
      arith,
      framed,
      whole,
      p.header_found,
      p.nonce_found,
      p.cipher_found,
      p.tag_found,
      p.size,
      same_size,
      tag_size,
      same,
      a.opens s.send_key (make_nonce s.id s.send_seq) payload header cipher tag,
    )

-- What an `encrypt_message` that gives a frame has passed and done.
pub encrypt-seal :
    {H : Type 0} (aead : Aead) (random : ℕ → Option (List ℕ)) (bucket peer type : ℕ)
    (buffer : Option (List ℕ)) (len flags : ℕ) (m : SessionManager H) {s : SessionState}
    {frame : List ℕ}
    → find_session_locked peer m ≡ some s
    → (encrypt_message aead random bucket peer type buffer len flags m).0 ≡ some frame
    → (payload : List ℕ) × ((write_payload bucket (first_bytes buffer len) >>= pad random)
        ≡ some payload)
      × (seal aead type flags s payload ≡ some frame)
      × (is_supported_session_padding_bucket bucket ≡ true)
      × (len ≤ session_max_logical_payload_size)
      × (null_with_bytes buffer len ≡ false)
unfolding encrypt_message
encrypt-seal aead random bucket peer type buffer len flags m {s} held e =
    elim (Option-cases (write_payload bucket (first_bytes buffer len))) [
      | inl f ↦ absurd (ground arith)
      | inr (w, f) ↦ elim (Option-cases (pad random w)) [
        | inl g ↦ absurd (ground arith)
        | inr (payload, g) ↦
            (payload, ground arith, ground arith, ground arith, ground arith, ground arith)
      ]
    ]

-- The window lets a number through: the session is accepted with the text.
accept-open :
    (aead : Aead) (r : SessionState) (header : PacketHeader) (frame bytes : List ℕ)
    {window : ReplayState}
    → receive r.replay header.sequence_number ≡ some (true, window)
    → open_payload aead r header frame ≡ some bytes
    → accept aead r header frame ≡ some (record r { replay = window }, bytes)
unfolding accept receive
accept-open aead r header frame bytes h e =
    elim (Option-cases (check_replay r.replay header.sequence_number)) [
      | inl f ↦ absurd (ground arith)
      | inr (true, f) ↦ elim (Option-cases (update_replay r.replay header.sequence_number)) [
        | inl g ↦ absurd (ground arith)
        | inr (w, g) ↦ ground arith
      ]
      | inr (false, f) ↦ absurd (ground arith)
    ]

data_header-IsHeader :
    (type flags : ℕ) (s : SessionState) (size : ℕ)
    → s.id < 2 ^ 32
    → type < 2 ^ 8
    → flags < 2 ^ 8
    → size ≤ session_max_payload_size
    → IsHeader (data_header type flags s size)
data_header-IsHeader type flags s size hi ht hf h = record {
  version_fits = omega arith;
  packet_type_fits = ht;
  flags_fits = hf;
  reserved_fits = omega arith;
  session_id_fits = hi;
  sequence_number_fits = omega arith;
  payload_length_fits = omega (arith, h);
}

-- Even an empty payload is padded to the smallest bucket.
bucket-le-padded :
    (n b : ℕ)
    → is_supported_session_padding_bucket b ≡ true
    → session_padding_bucket_min ≤ session_padded_plaintext_size n b
bucket-le-padded n b h =
    let p = session_padded_plaintext_size-IsBucketed n b h in
    elim (IsBucket-cases b h) [
      | inl e ↦ ground (arith, p, e)
      | inr (inl e) ↦ ground (arith, p, e)
      | inr (inr (inl e)) ↦ ground (arith, p, e)
      | inr (inr (inr e)) ↦ ground (arith, p, e)
    ]

-- What a peer holds of the other's session: it finds it under the id, with the key that the other
-- sends under.
pub record Receives {H : Type 0} (s : SessionState) (n : SessionManager H) : Type 0 where
  pub receiver : SessionState
  pub found : find_session_by_id_locked s.id n ≡ some receiver
  pub same_key : receiver.recv_key ≡ s.send_key
  -- Its window lets the sender's next number through.
  pub window : ReplayState
  pub in_window : receive receiver.replay s.send_seq ≡ some (true, window)

-- With an AEAD that decrypts what it encrypts and a random source that fills what it is asked to: a
-- frame that `encrypt_message` gives under an established session is taken by a manager that holds
-- the session's other side, whose window lets the number through, and comes out as the type and the
-- bytes that were sent. The session's id and number fit 32 bits, the type a byte, and the flags are
-- among the two that are known.
pub decrypt-encrypt :
    {H K : Type 0} (aead : Aead) (random : ℕ → Option (List ℕ)) (bucket peer type : ℕ)
    (buffer : Option (List ℕ)) (len flags : ℕ) (m : SessionManager H) (n : SessionManager K)
    {s : SessionState} {frame : List ℕ}
    → IsAead aead
    → ((k : ℕ) (bytes : List ℕ) → random k ≡ some bytes → length bytes ≡ k)
    → find_session_locked peer m ≡ some s
    → Receives s n
    → s.id < 2 ^ 32
    → s.send_seq < 2 ^ 32
    → type < 2 ^ 8
    → flags < 2 ^ 8
    → bit_and flags 0xfc ≡ 0
    → Readable buffer len
    → (encrypt_message aead random bucket peer type buffer len flags m).0 ≡ some frame
    → (decrypt_message aead frame n).0
      ≡ some (record { packet_type = type; payload = first_bytes buffer len })
unfolding decrypt_message
decrypt-encrypt aead random bucket peer type buffer len flags m n {s} {frame} a sized held o hi hs
      ht hf low readable e =
    let (payload, laid, sealed, supported, short, given) =
      encrypt-seal aead random bucket peer type buffer len flags m held e in
    let text = first_bytes buffer len in
    let same_length : length text ≡ len = length-first_bytes buffer len readable given in
    let (padding, whole, total) =
      pad-written random bucket text {payload = payload} supported sized
        (ground (arith, laid, write_payload-written bucket text supported)) in
    let size : length payload ≡ session_padded_plaintext_size len bucket =
      ground (arith, whole, total, same_length, length-append text padding) in
    let header = data_header type flags s (length payload) in
    let low_number : s.send_seq % 2 ^ 32 ≡ s.send_seq = omega (arith, hs) in
    let most = padded-le-max len bucket supported short in
    let fits =
      data_header-IsHeader type flags s (length payload) hi ht hf (omega (arith, size, most)) in
    let opened =
      open_frame-seal aead type flags s payload a fits low
        (omega (arith, size, bucket-le-padded len bucket supported)) (omega (arith, size, most))
        sealed in
    let accepted =
      accept-open aead o.receiver header frame payload {window = o.window}
        (rw low_number o.in_window)
        (open_payload-seal aead type flags s o.receiver payload a o.same_key sealed) in
    let taken =
      read_payload-protected bucket text padding supported (omega (arith, same_length, short))
        total in
    rw (opened, o.found, accepted, whole, taken) refl
