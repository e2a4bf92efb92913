-- ===== src/Wire.antt =====
-- include/aegis/protocol/wire.hpp: the cursor over received bytes and the cursor that fills a
-- buffer. A byte is a number; a method returns its result and the cursor after it.
pub mod Cursor
pub mod Writing
use aegis.Prelude.{
  ℕ, zero, suc, ◌+◌, ◌-◌, ◌*◌, ◌/◌, ◌%◌, ◌^◌, Bool, true, false, Option, none, some, List, [], ◌∷◌,
  ◌++◌, length, take, drop, leb, ltb, ◌==◌, if◌then◌else◌, guard, ◌>>◌,
}

pub record WireReader : Type 0 where
  pub bytes : List ℕ
  pub offset : ℕ

abbrev pub reader : List ℕ → WireReader
reader bytes = record { bytes = bytes; offset = 0 }

-- A `size_t` difference. `offset` never passes the end, so it does not wrap.
abbrev pub remaining : WireReader → ℕ
remaining r = length r.bytes - r.offset

abbrev pub finished : WireReader → Bool
finished r = r.offset == length r.bytes

unfoldable pub read_bytes : ℕ → WireReader → Option (List ℕ) × WireReader
read_bytes count r =
    if ltb (remaining r) count
    then (none, r)
    else (some (take count (drop r.offset r.bytes)), record r { offset = r.offset + count })

-- `value = (value << 8) | byte` over the bytes of a field. No field is wider than 8 bytes, and a
-- byte is below 256, so the value fits its integer type.
abbrev pub big_endian : ℕ → List ℕ → ℕ
big_endian value [] = value
big_endian value (byte ∷ bytes) = big_endian (value * 256 + byte) bytes

abbrev integer : Option (List ℕ) × WireReader → Option ℕ × WireReader
integer (none, r) = (none, r)
integer (some bytes, r) = (some (big_endian 0 bytes), r)

unfoldable pub read_u8 : WireReader → Option ℕ × WireReader
unfolding read_bytes
read_u8 r = integer (read_bytes 1 r)

unfoldable pub read_u16 : WireReader → Option ℕ × WireReader
unfolding read_bytes
read_u16 r = integer (read_bytes 2 r)

unfoldable pub read_u32 : WireReader → Option ℕ × WireReader
unfolding read_bytes
read_u32 r = integer (read_bytes 4 r)

unfoldable pub read_u64 : WireReader → Option ℕ × WireReader
unfolding read_bytes
read_u64 r = integer (read_bytes 8 r)

-- The buffer that a writer fills, and how much of it is written.
pub record WireWriter : Type 0 where
  pub bytes : List ℕ
  pub offset : ℕ

abbrev pub writer : List ℕ → WireWriter
writer bytes = record { bytes = bytes; offset = 0 }

abbrev pub room : WireWriter → ℕ
room w = length w.bytes - w.offset

abbrev pub full : WireWriter → Bool
full w = w.offset == length w.bytes

-- The end of a serializer that must fill its buffer: `if (!writer.finished()) return std::nullopt;`.
abbrev pub whole : WireWriter → Option (List ℕ)
whole w = guard (full w) >> some w.bytes

-- `none` is the answer `false`: the callers give up at the first failed write.
unfoldable pub write_bytes : List ℕ → WireWriter → Option WireWriter
write_bytes value w =
    if ltb (room w) (length value)
    then none
    else some (record {
      bytes = take w.offset w.bytes ++ (value ++ drop (w.offset + length value) w.bytes);
      offset = w.offset + length value;
    })

abbrev pub byte_of : ℕ → ℕ
byte_of value = value % 256

-- The bytes of an integer of 1, 2, 4 or 8 bytes, most significant first.
abbrev pub u8_bytes : ℕ → List ℕ
u8_bytes value = value ∷ []

abbrev pub u16_bytes : ℕ → List ℕ
u16_bytes value = byte_of (value / 2 ^ 8) ∷ byte_of value ∷ []

abbrev pub u32_bytes : ℕ → List ℕ
u32_bytes value =
    byte_of (value / 2 ^ 24)
    ∷ byte_of (value / 2 ^ 16)
    ∷ byte_of (value / 2 ^ 8)
    ∷ byte_of value
    ∷ []

abbrev pub u64_bytes : ℕ → List ℕ
u64_bytes value =
    byte_of (value / 2 ^ 56)
    ∷ byte_of (value / 2 ^ 48)
    ∷ byte_of (value / 2 ^ 40)
    ∷ byte_of (value / 2 ^ 32)
    ∷ byte_of (value / 2 ^ 24)
    ∷ byte_of (value / 2 ^ 16)
    ∷ byte_of (value / 2 ^ 8)
    ∷ byte_of value
    ∷ []

abbrev pub write_u8 : ℕ → WireWriter → Option WireWriter
write_u8 value = write_bytes (u8_bytes value)

abbrev pub write_u16 : ℕ → WireWriter → Option WireWriter
write_u16 value = write_bytes (u16_bytes value)

abbrev pub write_u32 : ℕ → WireWriter → Option WireWriter
write_u32 value = write_bytes (u32_bytes value)

abbrev pub write_u64 : ℕ → WireWriter → Option WireWriter
write_u64 value = write_bytes (u64_bytes value)
