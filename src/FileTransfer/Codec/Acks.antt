-- ===== src/FileTransfer/Codec/Acks.antt =====
-- The acknowledgements of src/file/transfer.cpp read back as they were written.
use aegis.Prelude.{
  ℕ, ◌+◌, ◌*◌, ◌%◌, ◌^◌, ◌<◌, ◌≤◌, true, some, List, [], ◌∷◌, ◌++◌, length, ◌>>=◌, arith, ◌≡◌, ◌≢◌,
  refl, sym, ap, ◌∙◌, append-nil, append_assoc, if◌then◌else◌, ltb, leb, ◌==◌, not, Bool-cases,
  Option-cases, inl, inr, replicate, ◌&&◌, ◌||◌,
}
use aegis.Wire.{
  whole, reader, finished, read_u8, read_u16, read_u64, write_u32, u8_bytes, u16_bytes, u32_bytes,
  u64_bytes, WireWriter, WireReader, writer,
}
use aegis.Wire.Cursor.{at}
use aegis.FileTransfer.{file_transfer_max_chunks}
use aegis.FileTransfer.Tracker.{FileAckRange}
use aegis.FileTransfer.Codec.{
  FileTransferAck, file_ack_max_ranges, ranges_valid, write_ranges, read_ranges, serialize_file_ack,
  deserialize_file_ack,
}
use aegis.Wire.Writing.{
  joined, write_then, write_then-whole, read_u64-at, read_u32-at, read_u16-at, read_u8-at,
  finished-at,
}

abbrev pub range_fields : List FileAckRange → List (List ℕ)
range_fields [] = []
range_fields (range ∷ ranges) = u32_bytes range.first ∷ u32_bytes range.count ∷ range_fields ranges

abbrev ack_head : FileTransferAck → List (List ℕ)
ack_head ack =
    u64_bytes ack.transfer_id
    ∷ u8_bytes (if ack.header_received then 1 else 0)
    ∷ u8_bytes 0
    ∷ u16_bytes (length ack.ranges)
    ∷ []

length-range_fields :
    (ranges : List FileAckRange) → length (joined (range_fields ranges)) ≡ length ranges * 8
length-range_fields [] = refl
length-range_fields (range ∷ ranges) = omega (arith, length-range_fields ranges)

-- The loop over the ranges writes their fields.
write_ranges-then :
    (ranges : List FileAckRange) (w : WireWriter)
    → (write_ranges ranges w >>= whole) ≡ write_then (range_fields ranges) whole w
unfolding write_ranges
write_ranges-then [] w = refl
write_ranges-then (range ∷ ranges) w = elim (Option-cases (write_u32 range.first w)) [
  | inl e ↦ rw e refl
  | inr (v, e) ↦ rw e (elim (Option-cases (write_u32 range.count v)) [
    | inl k ↦ rw k refl
    | inr (u, k) ↦ rw k (write_ranges-then ranges u)
  ])
]

-- What a valid list of ranges says of its first.
ranges_valid-first :
    (previous_end : ℕ) (range : FileAckRange) (ranges : List FileAckRange)
    → ranges_valid previous_end (range ∷ ranges) ≡ true
    → (not (
          range.count == 0
          || ltb file_transfer_max_chunks (range.first + range.count)
          || ltb range.first previous_end)
        ≡ true)
      × (range.first < 2 ^ 32)
      × (range.count < 2 ^ 32)
      × (ranges_valid (range.first + range.count) ranges ≡ true)
unfolding ranges_valid
ranges_valid-first previous_end range ranges h = ground arith

read_ranges-joined :
    (ranges : List FileAckRange) (previous_end : ℕ) (front : List ℕ)
    → ranges_valid previous_end ranges ≡ true
    → read_ranges (length ranges) previous_end (at front (joined (range_fields ranges)))
      ≡ some (ranges, at (front ++ joined (range_fields ranges)) [])
unfolding read_ranges
read_ranges-joined [] previous_end front h = ap (λ f. some ([], at f [])) (sym (append-nil front))
read_ranges-joined (range ∷ ranges) previous_end front h =
    let (ok, first_fits, count_fits, rest_valid) = ranges_valid-first previous_end range ranges h in
    rw
      (
        read_u32-at front (u32_bytes range.count ++ joined (range_fields ranges)) range.first
            first_fits,
        read_u32-at (front ++ u32_bytes range.first) (joined (range_fields ranges)) range.count
            count_fits,
        ok,
        read_ranges-joined ranges (range.first + range.count)
            ((front ++ u32_bytes range.first) ++ u32_bytes range.count) rest_valid,
      )
      (ap (λ f. some (range ∷ ranges, at f []))
        (append_assoc (front ++ u32_bytes range.first) (u32_bytes range.count)
            (joined (range_fields ranges))
          ∙ append_assoc front (u32_bytes range.first)
              (u32_bytes range.count ++ joined (range_fields ranges))))

-- What serialize accepts: an id that is not 0 and fits 64 bits, and at most 32 ranges that are in
-- order.
pub record IsAck (ack : FileTransferAck) : Type 0 where
  pub id_fits : ack.transfer_id < 2 ^ 64
  pub id_used : ack.transfer_id ≢ 0
  pub few : length ack.ranges ≤ file_ack_max_ranges
  pub ordered : ranges_valid 0 ack.ranges ≡ true

abbrev ack_bytes : FileTransferAck → List ℕ
ack_bytes ack = joined (ack_head ack) ++ joined (range_fields ack.ranges)

serialize_ack-accepted :
    (ack : FileTransferAck)
    → IsAck ack
    → (not (ack.transfer_id == 0 || ltb file_ack_max_ranges (length ack.ranges))) ≡ true
serialize_ack-accepted ack v = ground (arith, v)

-- An acknowledgement that is allowed is written, as its bytes.
pub serialize_ack-bytes :
    (ack : FileTransferAck) → IsAck ack → serialize_file_ack ack ≡ some (ack_bytes ack)
unfolding serialize_file_ack
serialize_ack-bytes ack v =
    rw (serialize_ack-accepted ack v, v.ordered)
      ((λ i.
          write_then (ack_head ack) (λ w. write_ranges-then ack.ranges w i)
            (writer (replicate (12 + length ack.ranges * 8) 0)))
        ∙ write_then-whole (ack_head ack ++ range_fields ack.ranges) (12 + length ack.ranges * 8)
            (omega (arith, length-range_fields ack.ranges)))

-- An acknowledgement that is read field by field.
read_ack_fields :
    (payload : List ℕ) (ack : FileTransferAck) (flags : ℕ) (a b c d e : WireReader)
    → read_u64 (reader payload) ≡ (some ack.transfer_id, a)
    → read_u8 a ≡ (some flags, b)
    → read_u8 b ≡ (some 0, c)
    → read_u16 c ≡ (some (length ack.ranges), d)
    → read_ranges (length ack.ranges) 0 d ≡ some (ack.ranges, e)
    → finished e ≡ true
    → (not (ack.transfer_id == 0) && leb flags 1) ≡ true
    → leb (length ack.ranges) file_ack_max_ranges ≡ true
    → not (flags % 2 == 0) ≡ ack.header_received
    → deserialize_file_ack payload ≡ some ack
unfolding deserialize_file_ack
read_ack_fields payload ack flags a b c d e ha hb hc hd he done used few flag =
    rw (ha, hb, hc, hd, he, done) (ground (arith, used, few, flag))

deserialize_ack-bytes :
    (ack : FileTransferAck) → IsAck ack → deserialize_file_ack (ack_bytes ack) ≡ some ack
deserialize_ack-bytes ack v =
    read_ack_fields (ack_bytes ack) ack flags (at front1 (u8_bytes flags ++ rest2))
      (at front2 rest2) (at front3 rest3) (at front4 (joined (range_fields ack.ranges)))
      (at (front4 ++ joined (range_fields ack.ranges)) [])
      (read_u64-at [] (u8_bytes flags ++ rest2) ack.transfer_id v.id_fits)
      (read_u8-at front1 rest2 flags) (read_u8-at front2 rest3 0)
      (read_u16-at front3 (joined (range_fields ack.ranges)) (length ack.ranges)
        (omega (arith, v.few)))
      (read_ranges-joined ack.ranges 0 front4 v.ordered)
      (finished-at (front4 ++ joined (range_fields ack.ranges)))
      (ground (arith, v.id_used, Bool-cases ack.header_received)) (ground (arith, v.few))
      (ground (arith, Bool-cases ack.header_received))
  where
    flags : ℕ
    flags = if ack.header_received then 1 else 0

    front1 : List ℕ
    front1 = u64_bytes ack.transfer_id

    front2 : List ℕ
    front2 = front1 ++ u8_bytes flags

    front3 : List ℕ
    front3 = front2 ++ u8_bytes 0

    front4 : List ℕ
    front4 = front3 ++ u16_bytes (length ack.ranges)

    rest3 : List ℕ
    rest3 = u16_bytes (length ack.ranges) ++ joined (range_fields ack.ranges)

    rest2 : List ℕ
    rest2 = u8_bytes 0 ++ rest3

-- An acknowledgement that is allowed is written, and reads back with all its ranges.
pub deserialize-serialize_ack :
    (ack : FileTransferAck)
    → IsAck ack
    → (serialize_file_ack ack >>= deserialize_file_ack) ≡ some ack
deserialize-serialize_ack ack v = rw (serialize_ack-bytes ack v) (deserialize_ack-bytes ack v)
