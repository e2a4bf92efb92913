-- ===== src/Session/Message/Payload.antt =====
-- The padded payload of src/session/session.cpp: what `encrypt_message` lays out, and what
-- `decrypt_message` takes apart.
use aegis.Prelude.{
  ℕ, ◌+◌, ◌-◌, ◌^◌, ◌≤◌, ◌<◌, true, Option, some, List, [], ◌∷◌, ◌++◌, length, take, drop,
  replicate, ltb, arith, ◌≡◌, refl, append-nil, length-append, length-replicate, if◌then◌else◌,
  Option-cases, length-drop, take-append, Bool-cases, inl, inr, List-cases,
}
use aegis.Wire.{WireWriter, read_u16, writer, room, write_bytes, u16_bytes}
use aegis.Wire.Cursor.{read_field, read_last, write_bytes-prefix, u16-u16_bytes}
use aegis.Header.{
  is_supported_session_padding_bucket, session_padded_plaintext_size,
  session_max_logical_payload_size,
}
use aegis.Header.Padding.{IsBucketed, session_padded_plaintext_size-IsBucketed, IsBucket-cases}
use aegis.Session.Message.{write_payload, pad, read_payload}

-- The four bytes in front of a payload.
abbrev pub lengths : ℕ → ℕ → List ℕ
lengths size bucket = u16_bytes size ++ u16_bytes bucket

abbrev pub protected : ℕ → List ℕ → List ℕ → List ℕ
protected bucket plaintext padding = lengths (length plaintext) bucket ++ (plaintext ++ padding)

-- The writer behind the payload: what is left is the padding.
abbrev pub written : ℕ → List ℕ → WireWriter
written bucket plaintext = record {
  bytes =
      (lengths (length plaintext) bucket ++ plaintext)
      ++ drop (length plaintext)
          (replicate (session_padded_plaintext_size (length plaintext) bucket - 4) 0);
  offset = 4 + length plaintext;
}

write_size :
    (size n : ℕ)
    → write_bytes (u16_bytes size) (writer (replicate (4 + n) 0))
      ≡ some (record { bytes = u16_bytes size ++ replicate (2 + n) 0; offset = 2 })
unfolding write_bytes
write_size size n = ground arith

write_bucket :
    (size bucket n : ℕ)
    → write_bytes
        (u16_bytes bucket)
        (record { bytes = u16_bytes size ++ replicate (2 + n) 0; offset = 2 })
      ≡ some (record { bytes = lengths size bucket ++ replicate n 0; offset = 4 })
unfolding write_bytes
write_bucket size bucket n = ground arith

-- The receiver takes the payload apart again.
pub read_payload-protected :
    (bucket : ℕ) (plaintext padding : List ℕ)
    → is_supported_session_padding_bucket bucket ≡ true
    → length plaintext ≤ session_max_logical_payload_size
    → length plaintext + 4 + length padding
      ≡ session_padded_plaintext_size (length plaintext) bucket
    → read_payload (protected bucket plaintext padding) ≡ some plaintext
unfolding read_payload read_u16
read_payload-protected bucket plaintext padding h k e = ground (
  arith,
  session_padded_plaintext_size-IsBucketed (length plaintext) bucket,
  small,
  u16-u16_bytes (length plaintext),
  u16-u16_bytes bucket,
  read_field 2 [] (u16_bytes (length plaintext)) (u16_bytes bucket ++ (plaintext ++ padding)),
  read_field 2 (u16_bytes (length plaintext)) (u16_bytes bucket) (plaintext ++ padding),
  read_field (length plaintext) (lengths (length plaintext) bucket) plaintext padding,
  read_last (length padding) (lengths (length plaintext) bucket ++ plaintext) padding,
  length-append plaintext padding,
  append-nil ((lengths (length plaintext) bucket ++ plaintext) ++ padding),
)
  where
    small : bucket < 2 ^ 16
    small = ground (arith, IsBucket-cases bucket h)

write_text :
    (size bucket n : ℕ) (plaintext : List ℕ)
    → length plaintext ≤ n
    → (if ltb 0 (length plaintext)
        then write_bytes plaintext
            (record { bytes = lengths size bucket ++ replicate n 0; offset = 4 })
        else some (record { bytes = lengths size bucket ++ replicate n 0; offset = 4 }))
      ≡ some (record {
        bytes = (lengths size bucket ++ plaintext) ++ drop (length plaintext) (replicate n 0);
        offset = 4 + length plaintext;
      })
write_text size bucket n [] h = refl
write_text size bucket n (x ∷ xs) h = ground (
  arith,
  write_bytes-prefix (lengths size bucket) (x ∷ xs) (replicate n 0) (n - length (x ∷ xs)),
  length-replicate {A = ℕ} n 0,
)

-- The payload is laid out behind its lengths, and the buffer's end is left to the padding.
pub write_payload-written :
    (bucket : ℕ) (plaintext : List ℕ)
    → is_supported_session_padding_bucket bucket ≡ true
    → write_payload bucket plaintext ≡ some (written bucket plaintext)
unfolding write_payload
write_payload-written bucket plaintext h =
    rw (split, back)
      (rw (write_size (length plaintext) n) (
        rw (write_bucket (length plaintext) bucket n)
          (write_text (length plaintext) bucket n plaintext (omega (arith, padded)))))
  where
    n : ℕ
    n = session_padded_plaintext_size (length plaintext) bucket - 4

    padded : IsBucketed (length plaintext) bucket
    padded = session_padded_plaintext_size-IsBucketed (length plaintext) bucket h

    split : session_padded_plaintext_size (length plaintext) bucket ≡ 4 + n
    split = omega (arith, padded)

    back : 4 + n - 4 ≡ n
    back = omega arith

-- What `pad` makes of it is the whole protected payload.
pub pad-written :
    (random : ℕ → Option (List ℕ)) (bucket : ℕ) (plaintext : List ℕ) {payload : List ℕ}
    → is_supported_session_padding_bucket bucket ≡ true
    → ((n : ℕ) (bytes : List ℕ) → random n ≡ some bytes → length bytes ≡ n)
    → pad random (written bucket plaintext) ≡ some payload
    → (padding : List ℕ) × (payload ≡ protected bucket plaintext padding)
      × (length plaintext + 4 + length padding
          ≡ session_padded_plaintext_size (length plaintext) bucket)
unfolding pad
pad-written random bucket plaintext {payload} h sized e =
    elim (Bool-cases (ltb 0 (room (written bucket plaintext)))) [
      | inl f ↦ elim (Option-cases (random (room (written bucket plaintext)))) [
        | inl g ↦ absurd (ground arith)
        | inr (padding, g) ↦
            (padding, ground (arith, take_front), omega (arith, sized _ padding g, left, padded))
      ]
      | inr f ↦ ([], ground (arith, none_left, size_behind, left), ground (arith, left, padded))
    ]
  where
    padded : IsBucketed (length plaintext) bucket
    padded = session_padded_plaintext_size-IsBucketed (length plaintext) bucket h

    front : List ℕ
    front = lengths (length plaintext) bucket ++ plaintext

    behind : List ℕ
    behind =
        drop (length plaintext)
          (replicate (session_padded_plaintext_size (length plaintext) bucket - 4) 0)

    take_front : take (length front) (front ++ behind) ≡ front
    take_front = take-append front behind

    size_behind :
        length behind
        ≡ session_padded_plaintext_size (length plaintext) bucket - 4 - length plaintext
    size_behind = omega (
      arith,
      length-drop {A = ℕ} (length plaintext)
          (replicate (session_padded_plaintext_size (length plaintext) bucket - 4) 0),
      length-replicate {A = ℕ} (session_padded_plaintext_size (length plaintext) bucket - 4) 0,
    )

    left :
        room (written bucket plaintext)
        ≡ session_padded_plaintext_size (length plaintext) bucket - 4 - length plaintext
    left = omega (arith, length-append plaintext behind, size_behind, padded)

    none_left : length behind ≡ 0 → behind ≡ []
    none_left z = ground (arith, List-cases behind)
