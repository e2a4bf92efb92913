-- ===== src/Wire/Cursor.antt =====
-- What one call of a cursor of wire.hpp does, in the form that the codecs' proofs use: a reader
-- inside `front ++ rest`, and a writer whose buffer is filled up to some point.
use aegis.Prelude.{
  ℕ, ◌+◌, ◌/◌, ◌^◌, ◌<◌, some, List, [], ◌∷◌, ◌++◌, length, drop, arith, ◌≡◌, sym, ap, ◌∙◌,
  length-append, take-append, drop-append, drop-add_append, append_assoc, append-nil,
}
use aegis.Wire.{
  WireReader, read_bytes, write_bytes, big_endian, u16_bytes, u32_bytes, u64_bytes, byte_of,
}

-- A reader that has consumed `front` and has `rest` before it.
abbrev pub at : List ℕ → List ℕ → WireReader
at front rest = record { bytes = front ++ rest; offset = length front }

pub read_bytes-at :
    (front field rest : List ℕ)
    → read_bytes (length field) (at front (field ++ rest)) ≡ (some field, at (front ++ field) rest)
unfolding read_bytes
read_bytes-at front field rest = ground (
  arith,
  length-append front (field ++ rest),
  length-append front field,
  length-append field rest,
  drop-append front (field ++ rest),
  take-append field rest,
  append_assoc front field rest,
)

-- A field of a known size, with more behind it or at the end.
pub read_field :
    (n : ℕ) (front field rest : List ℕ)
    → length field ≡ n
    → read_bytes n (at front (field ++ rest)) ≡ (some field, at (front ++ field) rest)
read_field n front field rest e = rw (← e) (read_bytes-at front field rest)

pub read_last :
    (n : ℕ) (front field : List ℕ)
    → length field ≡ n
    → read_bytes n (at front field) ≡ (some field, at (front ++ field) [])
read_last n front field e =
    ap (λ rest. read_bytes n (at front rest)) (sym (append-nil field))
    ∙ read_field n front field [] e

-- A write into a buffer that is filled up to some point.
pub write_bytes-prefix :
    (done value room_left : List ℕ) (n : ℕ)
    → length room_left ≡ length value + n
    → write_bytes value (record { bytes = done ++ room_left; offset = length done })
      ≡ some (record {
        bytes = (done ++ value) ++ drop (length value) room_left;
        offset = length (done ++ value);
      })
unfolding write_bytes
write_bytes-prefix done value room_left n h = ground (
  arith,
  length-append done room_left,
  length-append done value,
  take-append done room_left,
  drop-add_append done room_left (length value),
  append_assoc done value (drop (length value) room_left),
)

-- A field of each width reads back as the integer that was written.
pub u16-u16_bytes : (v : ℕ) → v < 2 ^ 16 → big_endian 0 (u16_bytes v) ≡ v
u16-u16_bytes v h = omega arith

pub u32-u32_bytes : (v : ℕ) → v < 2 ^ 32 → big_endian 0 (u32_bytes v) ≡ v
u32-u32_bytes v h = omega arith

pub u64-u64_bytes : (v : ℕ) → v < 2 ^ 64 → big_endian 0 (u64_bytes v) ≡ v
u64-u64_bytes v h = omega arith

abbrev pub IsByte : ℕ → Type 0
IsByte b = b < 256

-- Four bytes read as an integer are the bytes of that integer.
pub u32_bytes-u32 :
    (a b c d : ℕ)
    → IsByte a
    → IsByte b
    → IsByte c
    → IsByte d
    → let v = big_endian 0 (a ∷ b ∷ c ∷ d ∷ []) in
      (v < 2 ^ 32)
      × (byte_of (v / 2 ^ 24) ≡ a)
      × (byte_of (v / 2 ^ 16) ≡ b)
      × (byte_of (v / 2 ^ 8) ≡ c)
      × (byte_of v ≡ d)
u32_bytes-u32 a b c d ha hb hc hd = omega arith
