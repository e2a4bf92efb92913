-- ===== src/FileTransfer/Tracker.antt =====
-- FileChunkTracker of src/file/transfer.cpp: which chunks of a file have arrived.
pub mod Bits
pub mod Invariant
use aegis.Prelude.{
  ℕ, zero, suc, ◌+◌, ◌-◌, Bool, true, false, ◌&&◌, ◌||◌, not, Option, none, some, List, [], ◌∷◌,
  ◌++◌, length, drop, replicate, ltb, leb, ◌==◌, if◌then◌else◌,
}
use aegis.FileTransfer.{file_transfer_max_chunks}

pub record FileAckRange : Type 0 where
  pub first : ℕ
  pub count : ℕ

pub data FileChunkReceipt : Type 0 where
  accepted duplicate out_of_range : FileChunkReceipt

pub record FileChunkTracker : Type 0 where
  pub received_bits : List Bool
  pub received_count : ℕ
  pub contiguous_received : ℕ

abbrev pub new_tracker : FileChunkTracker
new_tracker = record { received_bits = []; received_count = 0; contiguous_received = 0 }

-- `bits[index]`, with `false` behind the end.
unfoldable pub bit : ℕ → List Bool → Bool
bit index [] = false
bit zero (b ∷ bits) = b
bit (suc index) (b ∷ bits) = bit index bits

-- `bits[index] = value`, of an index that is not behind the end.
unfoldable pub set_bit : ℕ → Bool → List Bool → List Bool
set_bit index value [] = []
set_bit zero value (b ∷ bits) = value ∷ bits
set_bit (suc index) value (b ∷ bits) = b ∷ set_bit index value bits

-- How far the loop `while (i < size && bits[i]) ++i` gets from the first of the bits.
unfoldable pub leading_run : List Bool → ℕ
leading_run [] = 0
leading_run (false ∷ bits) = 0
leading_run (true ∷ bits) = suc (leading_run bits)

unfoldable pub reset : ℕ → FileChunkTracker → Bool × FileChunkTracker
reset total_chunks t =
    if total_chunks == 0 || ltb file_transfer_max_chunks total_chunks then (false, t) else (
      true,
      record {
        received_bits = replicate total_chunks false;
        received_count = 0;
        contiguous_received = 0;
      },
    )

unfoldable pub record_chunk : ℕ → FileChunkTracker → FileChunkReceipt × FileChunkTracker
record_chunk chunk_index t =
    if leb (length t.received_bits) chunk_index
    then (out_of_range, t)
    else if bit chunk_index t.received_bits
    then (duplicate, t)
    else let bits = set_bit chunk_index true t.received_bits in
      (
        accepted,
        record {
          received_bits = bits;
          received_count = suc t.received_count;
          contiguous_received =
              t.contiguous_received + leading_run (drop t.contiguous_received bits);
        },
      )

unfoldable pub remove : ℕ → FileChunkTracker → Bool × FileChunkTracker
remove chunk_index t =
    if leb (length t.received_bits) chunk_index || not (bit chunk_index t.received_bits)
    then (false, t)
    else let bits = set_bit chunk_index false t.received_bits in
      (
        true,
        record {
          received_bits = bits;
          received_count = t.received_count - 1;
          contiguous_received =
              if ltb chunk_index t.contiguous_received
              then leading_run bits
              else t.contiguous_received;
        },
      )

unfoldable pub received : ℕ → FileChunkTracker → Bool
received chunk_index t = ltb chunk_index (length t.received_bits) && bit chunk_index t.received_bits

unfoldable pub complete : FileChunkTracker → Bool
complete t = not (length t.received_bits == 0) && t.received_count == length t.received_bits

-- The runs of set bits from an index on, at most `room` of them. A run that has begun is ended at
-- the first bit that is not set, or behind the last.
unfoldable pub ranges_from : ℕ → ℕ → Option ℕ → List Bool → List FileAckRange
ranges_from room index none [] = []
ranges_from room index none (false ∷ bits) = ranges_from room (suc index) none bits
ranges_from zero index none (true ∷ bits) = []
ranges_from (suc room) index none (true ∷ bits) = ranges_from room (suc index) (some index) bits
ranges_from room index (some first) [] = record { first = first; count = index - first } ∷ []
ranges_from room index (some first) (true ∷ bits) = ranges_from room (suc index) (some first) bits
ranges_from room index (some first) (false ∷ bits) =
    record { first = first; count = index - first } ∷ ranges_from room (suc index) none bits

-- `while (first > contiguous && received[first - 1]) --first`.
unfoldable pub run_start : ℕ → List Bool → ℕ → ℕ
run_start contiguous bits zero = zero
run_start contiguous bits (suc first) =
    let rest = run_start contiguous bits first in
    if ltb contiguous (suc first) && bit first bits then rest else suc first

-- The chunks that have arrived without a gap from the first on.
unfoldable pub prefix_ranges : FileChunkTracker → List FileAckRange
prefix_ranges t =
    if ltb 0 t.contiguous_received
    then record { first = 0; count = t.contiguous_received } ∷ []
    else []

-- The run around one chunk.
unfoldable pub focus_range : ℕ → FileChunkTracker → FileAckRange
focus_range focus t =
    let first = run_start t.contiguous_received t.received_bits focus in
    let end = suc focus + leading_run (drop (suc focus) t.received_bits) in
    record { first = first; count = end - first }

unfoldable pub acknowledged_ranges : Option ℕ → ℕ → FileChunkTracker → List FileAckRange
acknowledged_ranges focus zero t = []
acknowledged_ranges none (suc maximum) t =
    let ranges = prefix_ranges t in
    ranges
    ++ (ranges_from (suc maximum - length ranges) t.contiguous_received none
        (drop t.contiguous_received t.received_bits))
acknowledged_ranges (some focus) (suc maximum) t =
    let ranges = prefix_ranges t in
    if leb (length t.received_bits) focus
      || not (bit focus t.received_bits)
      || ltb focus t.contiguous_received
      || leb (suc maximum) (length ranges)
    then ranges
    else ranges ++ (focus_range focus t ∷ [])
