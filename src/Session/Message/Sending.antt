-- ===== src/Session/Message/Sending.antt =====
-- `encrypt_message` of src/session/session.cpp on the sender's side: when it gives a frame, and
-- which number and nonce it uses up.
use aegis.Prelude.{
  ℕ, ◌^◌, ◌≤◌, ◌<◌, true, false, Option, some, List, ◌++◌, length, take, ltb, is_some, arith, ◌≡◌,
  refl, Bool-cases, Option-cases, inl, inr, null_with_bytes, first_bytes,
}
use aegis.Prelude.Maps.{find, find-insert}
use aegis.Wire.{WireWriter, room}
use aegis.Header.{
  is_supported_session_padding_bucket, session_max_logical_payload_size, PacketHeader,
}
use aegis.Header.Codec.{serialize-header_bytes, header_bytes}
use aegis.Header.Padding.{padded-le-max}
use aegis.Session.{SessionState, SessionManager, find_session_locked}
use aegis.Session.Message.{
  Aead, make_nonce, data_header, seal, pad, encrypt_message, write_payload, count_sent,
}
use aegis.Session.Message.Payload.{written, write_payload-written}

seal-some :
    (aead : Aead) (type flags : ℕ) (s : SessionState) (payload : List ℕ)
    → ((key : ℕ) (nonce text about : List ℕ) → is_some (aead.encrypt key nonce text about) ≡ true)
    → is_some (seal aead type flags s payload) ≡ true
unfolding seal
seal-some aead type flags s payload total =
    rw (serialize-header_bytes header)
      (ground (arith, total s.send_key (make_nonce s.id s.send_seq) payload (header_bytes header)))
  where
    header : PacketHeader
    header = data_header type flags s (length payload)

pad-some :
    (random : ℕ → Option (List ℕ)) (w : WireWriter)
    → ((k : ℕ) → is_some (random k) ≡ true)
    → (payload : List ℕ) × (pad random w ≡ some payload)
unfolding pad
pad-some random w drawn = elim (Bool-cases (ltb 0 (room w))) [
  | inl e ↦ elim (Option-cases (random (room w))) [
    | inl f ↦ absurd (ground (arith, drawn (room w)))
    | inr (padding, f) ↦ (take w.offset w.bytes ++ padding, rw (e, f) refl)
  ]
  | inr e ↦ (w.bytes, rw e refl)
]

-- With an AEAD and a random source that do not fail: under an established session, a message whose
-- padding bucket is supported and that fits is encrypted.
pub encrypt_message-some :
    {H : Type 0} (aead : Aead) (random : ℕ → Option (List ℕ)) (bucket peer type : ℕ)
    (buffer : Option (List ℕ)) (len flags : ℕ) (m : SessionManager H) {s : SessionState}
    → ((key : ℕ) (nonce text about : List ℕ) → is_some (aead.encrypt key nonce text about) ≡ true)
    → ((k : ℕ) → is_some (random k) ≡ true)
    → find_session_locked peer m ≡ some s
    → null_with_bytes buffer len ≡ false
    → is_supported_session_padding_bucket bucket ≡ true
    → len ≤ session_max_logical_payload_size
    → is_some (encrypt_message aead random bucket peer type buffer len flags m).0 ≡ true
unfolding encrypt_message
encrypt_message-some aead random bucket peer type buffer len flags m {s} total drawn held given
      supported short =
    let w = written bucket (first_bytes buffer len) in
    let (payload, padded) = pad-some random w drawn in
    let sealed = seal-some aead type flags s payload total in
    ground (
      arith,
      sealed,
      padded,
      held,
      write_payload-written bucket (first_bytes buffer len),
      padded-le-max len bucket,
    )

-- With ids of 32 bits and numbers of 64, two nonces are the same only for the same session and the same number.
pub make_nonce-injective :
    (id seq id' seq' : ℕ)
    → id < 2 ^ 32
    → id' < 2 ^ 32
    → seq < 2 ^ 64
    → seq' < 2 ^ 64
    → make_nonce id seq ≡ make_nonce id' seq'
    → (id ≡ id') × (seq ≡ seq')
unfolding make_nonce
make_nonce-injective id seq id' seq' hi hi' hs hs' e = ground arith

-- An `encrypt_message` that gives a frame uses the session's number up: the session is the same but
-- for a count that is one higher, modulo 2^64.
pub encrypt_message-counts :
    {H : Type 0} (aead : Aead) (random : ℕ → Option (List ℕ)) (bucket peer type : ℕ)
    (buffer : Option (List ℕ)) (len flags : ℕ) (m : SessionManager H) {s : SessionState}
    {frame : List ℕ}
    → find_session_locked peer m ≡ some s
    → (encrypt_message aead random bucket peer type buffer len flags m).0 ≡ some frame
    → find_session_locked peer (encrypt_message aead random bucket peer type buffer len flags m).1
      ≡ some (count_sent s)
unfolding encrypt_message find_session_locked
encrypt_message-counts aead random bucket peer type buffer len flags m {s} held e =
    elim (Option-cases (write_payload bucket (first_bytes buffer len))) [
      | inl f ↦ absurd (ground arith)
      | inr (w, f) ↦ elim (Option-cases (pad random w)) [
        | inl g ↦ absurd (ground arith)
        | inr (payload, g) ↦ ground (
          arith,
          find-insert peer peer (count_sent s) m.sessions,
          Option-cases (find peer m.sessions),
        )
      ]
    ]
