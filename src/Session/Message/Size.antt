-- ===== src/Session/Message/Size.antt =====
-- How long a frame of `encrypt_message` of src/session/session.cpp is.
use aegis.Prelude.{
  ℕ, ◌+◌, ◌≤◌, true, false, some, Option, List, length, is_some, arith, ◌≡◌, Option-cases, inl, inr,
  length-append, null_with_bytes, first_bytes, Readable, length-first_bytes,
}
use aegis.Header.{
  is_supported_session_padding_bucket, session_padded_plaintext_size,
  session_max_logical_payload_size,
}
use aegis.Session.{SessionManager, SessionState, find_session_locked}
use aegis.Session.Message.{Aead, encrypt_message}
use aegis.Session.Message.Payload.{write_payload-written, pad-written}
use aegis.Session.Message.RoundTrip.{IsAead, encrypt-seal, length-seal}
use aegis.Session.Message.Sending.{encrypt_message-some}

-- The AEAD and the random source do not fail, and give as many bytes as they should.
pub record IsReady (aead : Aead) (random : ℕ → Option (List ℕ)) : Type 0 where
  pub sizes : IsAead aead
  pub encrypts :
      (key : ℕ) (nonce text about : List ℕ) → is_some (aead.encrypt key nonce text about) ≡ true
  pub draws : (k : ℕ) → is_some (random k) ≡ true
  pub fills : (k : ℕ) (bytes : List ℕ) → random k ≡ some bytes → length bytes ≡ k

length-encrypt_message :
    {H : Type 0} (aead : Aead) (random : ℕ → Option (List ℕ)) (bucket peer type : ℕ)
    (buffer : Option (List ℕ)) (len flags : ℕ) (m : SessionManager H) {s : SessionState}
    {frame : List ℕ}
    → IsReady aead random
    → find_session_locked peer m ≡ some s
    → Readable buffer len
    → (encrypt_message aead random bucket peer type buffer len flags m).0 ≡ some frame
    → length frame ≡ 28 + session_padded_plaintext_size len bucket + 16
length-encrypt_message aead random bucket peer type buffer len flags m {s} r held readable e =
    let (payload, laid, sealed, supported, short, given) =
      encrypt-seal aead random bucket peer type buffer len flags m held e in
    let text = first_bytes buffer len in
    let same_length : length text ≡ len = length-first_bytes buffer len readable given in
    let (padding, whole, total) =
      pad-written random bucket text {payload = payload} supported r.fills
        (ground (arith, laid, write_payload-written bucket text supported)) in
    let size : length payload ≡ session_padded_plaintext_size len bucket =
      ground (arith, whole, total, same_length, length-append text padding) in
    omega (arith, size, length-seal aead type flags s payload r.sizes sealed)

-- A message that fits is encrypted, to a frame of the header, the nonce, the padded payload and the
-- tag.
pub encrypt_message-frame :
    {H : Type 0} (aead : Aead) (random : ℕ → Option (List ℕ)) (bucket peer type : ℕ)
    (buffer : Option (List ℕ)) (len flags : ℕ) (m : SessionManager H) {s : SessionState}
    → IsReady aead random
    → find_session_locked peer m ≡ some s
    → null_with_bytes buffer len ≡ false
    → Readable buffer len
    → is_supported_session_padding_bucket bucket ≡ true
    → len ≤ session_max_logical_payload_size
    → (frame : List ℕ) × ((encrypt_message aead random bucket peer type buffer len flags m).0
        ≡ some frame)
      × (length frame ≡ 28 + session_padded_plaintext_size len bucket + 16)
encrypt_message-frame aead random bucket peer type buffer len flags m {s} r held given readable
      supported short =
    let total =
      encrypt_message-some aead random bucket peer type buffer len flags m r.encrypts r.draws held
        given supported short in
    elim (Option-cases (encrypt_message aead random bucket peer type buffer len flags m).0) [
      | inl e ↦ absurd (ground (arith, e, total))
      | inr (frame, e) ↦ (
        frame,
        e,
        length-encrypt_message aead random bucket peer type buffer len flags m r held readable e,
      )
    ]
