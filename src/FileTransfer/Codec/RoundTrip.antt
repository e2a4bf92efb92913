-- ===== src/FileTransfer/Codec/RoundTrip.antt =====
-- The messages of src/file/transfer.cpp read back as they were written.
use aegis.Prelude.{
  ℕ, ◌+◌, ◌^◌, ◌<◌, ◌≤◌, true, some, List, [], ◌∷◌, ◌++◌, length, ◌>>=◌, arith, ◌≡◌, ◌≢◌, refl, sym,
  ap, ◌∙◌, length-append, append-nil, take, take-append,
}
use aegis.Wire.{
  reader, finished, read_u8, read_u16, read_u32, read_u64, read_bytes, write_bytes, u16_bytes,
  u32_bytes, u64_bytes, WireReader,
}
use aegis.Wire.Cursor.{at, read_field, u64-u64_bytes, u32-u32_bytes}
use aegis.FileTransfer.{
  FileTransferHeader, FileTransferChunk, is_valid_file_header, is_valid_file_chunk,
}
use aegis.FileTransfer.Names.{is_safe_file_name-IsPlain}
use aegis.FileTransfer.Sizes.{is_valid_file_header-IsSized}
use aegis.FileTransfer.Codec.{
  FileTransferCancel, reason_byte, serialize_file_header, deserialize_file_header,
  serialize_file_chunk, deserialize_file_chunk, serialize_file_cancel, deserialize_file_cancel,
}
use aegis.Wire.Writing.{
  joined, write_then-whole, read_u64-at, read_u32-at, read_u16-at, finished-at,
}

take_all : (xs : List ℕ) → take (length xs) xs ≡ xs
take_all xs = ap (take (length xs)) (sym (append-nil xs)) ∙ take-append xs []

cancel_bytes : FileTransferCancel → List ℕ
cancel_bytes cancel = u64_bytes cancel.transfer_id ++ (reason_byte cancel.reason ∷ 0 ∷ 0 ∷ 0 ∷ [])

-- A cancellation whose id fits 64 bits and is not 0 is written, and reads back.
pub deserialize-serialize_cancel :
    (cancel : FileTransferCancel)
    → cancel.transfer_id < 2 ^ 64
    → cancel.transfer_id ≢ 0
    → (serialize_file_cancel cancel >>= deserialize_file_cancel) ≡ some cancel
unfolding serialize_file_cancel deserialize_file_cancel write_bytes read_u8 read_u16 read_u64
    read_bytes
deserialize-serialize_cancel cancel h k = ground (arith, u64-u64_bytes cancel.transfer_id)

is_valid_file_chunk-size :
    (chunk : FileTransferChunk)
    → is_valid_file_chunk chunk ≡ true
    → (length chunk.data_bytes < 2 ^ 32) × (chunk.chunk_index < 2 ^ 32)
unfolding is_valid_file_chunk
is_valid_file_chunk-size chunk h = ground arith

abbrev pub chunk_head : FileTransferChunk → List ℕ
chunk_head chunk =
    u64_bytes chunk.transfer_id
    ++ (u32_bytes chunk.chunk_index ++ u32_bytes (length chunk.data_bytes))

abbrev pub chunk_fields : FileTransferChunk → List (List ℕ)
chunk_fields chunk =
    u64_bytes chunk.transfer_id
    ∷ u32_bytes chunk.chunk_index
    ∷ u32_bytes (length chunk.data_bytes)
    ∷ chunk.data_bytes
    ∷ []

serialize_chunk-joined :
    (chunk : FileTransferChunk)
    → is_valid_file_chunk chunk ≡ true
    → serialize_file_chunk chunk ≡ some (joined (chunk_fields chunk))
unfolding serialize_file_chunk
serialize_chunk-joined chunk h = rw h (
    write_then-whole (chunk_fields chunk) (16 + length chunk.data_bytes)
      (omega (arith, length-append chunk.data_bytes [])))

deserialize_chunk-head :
    (chunk : FileTransferChunk)
    → chunk.transfer_id < 2 ^ 64
    → is_valid_file_chunk chunk ≡ true
    → deserialize_file_chunk (chunk_head chunk ++ chunk.data_bytes) ≡ some chunk
unfolding deserialize_file_chunk read_u32 read_u64 read_bytes
deserialize_chunk-head chunk h k = ground (
  arith,
  is_valid_file_chunk-size chunk k,
  u64-u64_bytes chunk.transfer_id h,
  u32-u32_bytes chunk.chunk_index,
  u32-u32_bytes (length chunk.data_bytes),
  take_all chunk.data_bytes,
)

-- A valid chunk whose id fits 64 bits is written, and reads back.
pub deserialize-serialize_chunk :
    (chunk : FileTransferChunk)
    → chunk.transfer_id < 2 ^ 64
    → is_valid_file_chunk chunk ≡ true
    → (serialize_file_chunk chunk >>= deserialize_file_chunk) ≡ some chunk
deserialize-serialize_chunk chunk h k =
    rw (serialize_chunk-joined chunk k, append-nil chunk.data_bytes)
      (deserialize_chunk-head chunk h k)

is_valid_file_header-name :
    (header : FileTransferHeader)
    → is_valid_file_header header ≡ true
    → length header.filename ≤ 255
unfolding is_valid_file_header
is_valid_file_header-name header h = ground (arith, is_safe_file_name-IsPlain header.filename)

-- The sizes of the C++ types, of a header that is valid.
pub record IsHeader (header : FileTransferHeader) : Type 0 where
  pub id_fits : header.transfer_id < 2 ^ 64
  pub hash_size : length header.content_hash ≡ 32
  pub accepted : is_valid_file_header header ≡ true

-- A header that is read field by field.
read_header_fields :
    (payload : List ℕ) (header : FileTransferHeader) (a b c d e f g : WireReader)
    → read_u64 (reader payload) ≡ (some header.transfer_id, a)
    → read_u64 a ≡ (some header.file_size, b)
    → read_u32 b ≡ (some header.chunk_size, c)
    → read_u32 c ≡ (some header.total_chunks, d)
    → read_bytes 32 d ≡ (some header.content_hash, e)
    → read_u16 e ≡ (some (length header.filename), f)
    → read_bytes (length header.filename) f ≡ (some header.filename, g)
    → finished g ≡ true
    → is_valid_file_header header ≡ true
    → deserialize_file_header payload ≡ some header
unfolding deserialize_file_header
read_header_fields payload header a b c d e f g ha hb hc hd he hf hg done valid =
    rw (ha, hb, hc, hd, he, hf, hg, done, valid) refl

abbrev pub header_fields : FileTransferHeader → List (List ℕ)
header_fields header =
    u64_bytes header.transfer_id
    ∷ u64_bytes header.file_size
    ∷ u32_bytes header.chunk_size
    ∷ u32_bytes header.total_chunks
    ∷ header.content_hash
    ∷ u16_bytes (length header.filename)
    ∷ header.filename
    ∷ []

serialize_header-joined :
    (header : FileTransferHeader)
    → IsHeader header
    → serialize_file_header header ≡ some (joined (header_fields header))
unfolding serialize_file_header
serialize_header-joined header v = rw v.accepted (
    write_then-whole (header_fields header) (58 + length header.filename) (
      omega (
        arith,
        v.hash_size,
        length-append header.content_hash
            (u16_bytes (length header.filename) ++ (header.filename ++ [])),
        length-append header.filename [],
      )))

deserialize_header-joined :
    (header : FileTransferHeader)
    → IsHeader header
    → deserialize_file_header (joined (header_fields header)) ≡ some header
deserialize_header-joined header v =
    let sizes = is_valid_file_header-IsSized header v.accepted in
    read_header_fields (joined (header_fields header)) header (at front1 rest1) (at front2 rest2)
      (at front3 rest3) (at front4 rest4) (at front5 rest5) (at front6 rest6)
      (at (front6 ++ header.filename) []) (read_u64-at [] rest1 header.transfer_id v.id_fits)
      (read_u64-at front1 rest2 header.file_size (omega (arith, sizes.size_bounded)))
      (read_u32-at front2 rest3 header.chunk_size (omega (arith, sizes.chunk_small)))
      (read_u32-at front3 rest4 header.total_chunks (omega (arith, sizes.chunks_bounded)))
      (read_field 32 front4 header.content_hash rest5 v.hash_size)
      (read_u16-at front5 rest6 (length header.filename)
        (omega (arith, is_valid_file_header-name header v.accepted)))
      (read_field (length header.filename) front6 header.filename [] refl)
      (finished-at (front6 ++ header.filename)) v.accepted
  where
    front1 : List ℕ
    front1 = u64_bytes header.transfer_id

    front2 : List ℕ
    front2 = front1 ++ u64_bytes header.file_size

    front3 : List ℕ
    front3 = front2 ++ u32_bytes header.chunk_size

    front4 : List ℕ
    front4 = front3 ++ u32_bytes header.total_chunks

    front5 : List ℕ
    front5 = front4 ++ header.content_hash

    front6 : List ℕ
    front6 = front5 ++ u16_bytes (length header.filename)

    rest6 : List ℕ
    rest6 = header.filename ++ []

    rest5 : List ℕ
    rest5 = u16_bytes (length header.filename) ++ rest6

    rest4 : List ℕ
    rest4 = header.content_hash ++ rest5

    rest3 : List ℕ
    rest3 = u32_bytes header.total_chunks ++ rest4

    rest2 : List ℕ
    rest2 = u32_bytes header.chunk_size ++ rest3

    rest1 : List ℕ
    rest1 = u64_bytes header.file_size ++ rest2

-- A valid header whose hash has 32 bytes and whose id fits 64 bits is written, and reads back.
pub deserialize-serialize_header :
    (header : FileTransferHeader)
    → IsHeader header
    → (serialize_file_header header >>= deserialize_file_header) ≡ some header
deserialize-serialize_header header v =
    rw (serialize_header-joined header v) (deserialize_header-joined header v)
