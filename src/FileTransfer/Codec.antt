-- ===== src/FileTransfer/Codec.antt =====
-- The messages of src/file/transfer.cpp on the wire.
pub mod Acks
pub mod RoundTrip
use aegis.Prelude.{
  ℕ, zero, suc, ◌+◌, ◌*◌, ◌%◌, Bool, true, false, ◌&&◌, ◌||◌, not, Option, none, some, List, [],
  ◌∷◌, length, replicate, ltb, leb, ◌==◌, ◌>>=◌, ◌>>◌, guard, if◌then◌else◌,
}
use aegis.Wire.{
  whole, WireReader, WireWriter, reader, finished, read_u8, read_u16, read_u32, read_u64,
  read_bytes, writer, full, write_u8, write_u16, write_u32, write_u64, write_bytes,
}
use aegis.FileTransfer.{
  FileTransferHeader, FileTransferChunk, is_valid_file_header, is_valid_file_chunk,
  file_transfer_max_chunks,
}
use aegis.FileTransfer.Tracker.{FileAckRange}

abbrev file_header_fixed_size : ℕ
file_header_fixed_size = 58

abbrev file_chunk_fixed_size : ℕ
file_chunk_fixed_size = 16

abbrev file_ack_fixed_size : ℕ
file_ack_fixed_size = 12

abbrev file_ack_range_size : ℕ
file_ack_range_size = 8

abbrev file_cancel_size : ℕ
file_cancel_size = 12

abbrev pub file_ack_max_ranges : ℕ
file_ack_max_ranges = 32

pub record FileTransferAck : Type 0 where
  pub transfer_id : ℕ
  pub header_received : Bool
  pub ranges : List FileAckRange

pub data FileCancelReason : Type 0 where
  sender_cancelled retry_limit timed_out capacity : FileCancelReason

abbrev pub reason_byte : FileCancelReason → ℕ
reason_byte sender_cancelled = 1
reason_byte retry_limit = 2
reason_byte timed_out = 3
reason_byte capacity = 4

pub record FileTransferCancel : Type 0 where
  pub transfer_id : ℕ
  pub reason : FileCancelReason

unfoldable pub serialize_file_header : FileTransferHeader → Option (List ℕ)
serialize_file_header header = do
  guard (is_valid_file_header header)
  w ←
      write_u64 header.transfer_id
        (writer (replicate (file_header_fixed_size + length header.filename) 0))
  w ← write_u64 header.file_size w
  w ← write_u32 header.chunk_size w
  w ← write_u32 header.total_chunks w
  w ← write_bytes header.content_hash w
  w ← write_u16 (length header.filename) w
  w ← write_bytes header.filename w
  whole w

abbrev checked_header : FileTransferHeader → Option FileTransferHeader
checked_header header = guard (is_valid_file_header header) >> some header

unfoldable pub deserialize_file_header : List ℕ → Option FileTransferHeader
deserialize_file_header payload =
    let (transfer_id, r) = read_u64 (reader payload) in
    let (file_size, r) = read_u64 r in
    let (chunk_size, r) = read_u32 r in
    let (total_chunks, r) = read_u32 r in
    let (content_hash, r) = read_bytes 32 r in
    let (filename_length, r) = read_u16 r in
    do
      transfer_id ← transfer_id
      file_size ← file_size
      chunk_size ← chunk_size
      total_chunks ← total_chunks
      content_hash ← content_hash
      filename_length ← filename_length
      let (filename, r) = read_bytes filename_length r
      filename ← filename
      guard (finished r)
      checked_header (record {
        transfer_id = transfer_id;
        file_size = file_size;
        chunk_size = chunk_size;
        total_chunks = total_chunks;
        content_hash = content_hash;
        filename = filename;
      })

unfoldable pub serialize_file_chunk : FileTransferChunk → Option (List ℕ)
serialize_file_chunk chunk = do
  guard (is_valid_file_chunk chunk)
  w ←
      write_u64 chunk.transfer_id
        (writer (replicate (file_chunk_fixed_size + length chunk.data_bytes) 0))
  w ← write_u32 chunk.chunk_index w
  w ← write_u32 (length chunk.data_bytes) w
  w ← write_bytes chunk.data_bytes w
  whole w

abbrev checked_chunk : FileTransferChunk → Option FileTransferChunk
checked_chunk chunk = guard (is_valid_file_chunk chunk) >> some chunk

unfoldable pub deserialize_file_chunk : List ℕ → Option FileTransferChunk
deserialize_file_chunk payload =
    let (transfer_id, r) = read_u64 (reader payload) in
    let (chunk_index, r) = read_u32 r in
    let (data_length, r) = read_u32 r in
    do
      transfer_id ← transfer_id
      chunk_index ← chunk_index
      data_length ← data_length
      let (data_bytes, r) = read_bytes data_length r
      data_bytes ← data_bytes
      guard (finished r)
      checked_chunk
          (record { transfer_id = transfer_id; chunk_index = chunk_index; data_bytes = data_bytes })

-- The ranges are not empty, do not overlap, ascend, and end inside the largest file.
unfoldable pub ranges_valid : ℕ → List FileAckRange → Bool
ranges_valid previous_end [] = true
ranges_valid previous_end (range ∷ ranges) =
    let end = range.first + range.count in
    let rest = ranges_valid end ranges in
    if range.count == 0 || ltb file_transfer_max_chunks end || ltb range.first previous_end
    then false
    else rest

unfoldable pub write_ranges : List FileAckRange → WireWriter → Option WireWriter
write_ranges [] w = some w
write_ranges (range ∷ ranges) w = do
  w ← write_u32 range.first w
  w ← write_u32 range.count w
  write_ranges ranges w

unfoldable pub serialize_file_ack : FileTransferAck → Option (List ℕ)
serialize_file_ack ack = do
  guard (not (ack.transfer_id == 0 || ltb file_ack_max_ranges (length ack.ranges)))
  guard (ranges_valid 0 ack.ranges)
  w ←
      write_u64 ack.transfer_id
        (writer (replicate (file_ack_fixed_size + length ack.ranges * file_ack_range_size) 0))
  w ← write_u8 (if ack.header_received then 1 else 0) w
  w ← write_u8 0 w
  w ← write_u16 (length ack.ranges) w
  w ← write_ranges ack.ranges w
  whole w

unfoldable pub read_ranges : ℕ → ℕ → WireReader → Option (List FileAckRange × WireReader)
read_ranges zero previous_end r = some ([], r)
read_ranges (suc left) previous_end r =
    let (first, r) = read_u32 r in
    let (count, r) = read_u32 r in
    do
      first ← first
      count ← count
      guard (
          not
            (count == 0 || ltb file_transfer_max_chunks (first + count) || ltb first previous_end))
      (ranges, r) ← read_ranges left (first + count) r
      some (record { first = first; count = count } ∷ ranges, r)

-- A flags byte whose upper seven bits are clear is 0 or 1.
unfoldable pub deserialize_file_ack : List ℕ → Option FileTransferAck
deserialize_file_ack payload =
    let (transfer_id, r) = read_u64 (reader payload) in
    let (flags, r) = read_u8 r in
    let (reserved, r) = read_u8 r in
    let (range_count, r) = read_u16 r in
    do
      transfer_id ← transfer_id
      flags ← flags
      reserved ← reserved
      range_count ← range_count
      guard (not (transfer_id == 0) && leb flags 1 && reserved == 0)
      guard (leb range_count file_ack_max_ranges)
      (ranges, r) ← read_ranges range_count 0 r
      guard (finished r)
      some (record {
        transfer_id = transfer_id;
        header_received = not (flags % 2 == 0);
        ranges = ranges;
      })

-- A reason is one of the four, so the check of it does not fail.
unfoldable serialize_file_cancel : FileTransferCancel → Option (List ℕ)
serialize_file_cancel cancel = do
  guard (not (cancel.transfer_id == 0))
  w ← write_u64 cancel.transfer_id (writer (replicate file_cancel_size 0))
  w ← write_u8 (reason_byte cancel.reason) w
  w ← write_u8 0 w
  w ← write_u16 0 w
  whole w

abbrev reason_of : ℕ → Option FileCancelReason
reason_of byte =
    if byte == 1
    then some sender_cancelled
    else if byte == 2
    then some retry_limit
    else if byte == 3
    then some timed_out
    else if byte == 4
    then some capacity
    else none

unfoldable deserialize_file_cancel : List ℕ → Option FileTransferCancel
deserialize_file_cancel payload =
    let (transfer_id, r) = read_u64 (reader payload) in
    let (reason, r) = read_u8 r in
    let (reserved_byte, r) = read_u8 r in
    let (reserved_word, r) = read_u16 r in
    do
      transfer_id ← transfer_id
      reason ← reason
      reserved_byte ← reserved_byte
      reserved_word ← reserved_word
      guard (finished r && not (transfer_id == 0))
      reason ← reason_of reason
      guard (reserved_byte == 0 && reserved_word == 0)
      some (record { transfer_id = transfer_id; reason = reason })
