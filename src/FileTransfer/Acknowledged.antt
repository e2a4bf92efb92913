-- ===== src/FileTransfer/Acknowledged.antt =====
-- The ranges that FileChunkTracker of src/file/transfer.cpp reports: they can be sent, and they say
-- which chunks have arrived.
pub mod Reports
use aegis.Prelude.{
  ℕ, zero, suc, ◌+◌, ◌-◌, ◌^◌, ◌<◌, ◌≤◌, Bool, true, false, Option, none, some, List, [], ◌∷◌, ◌++◌,
  length, drop, arith, ◌≡◌, ◌≢◌, refl, ltb, leb, ◌==◌, if◌then◌else◌, ◌&&◌, ◌||◌, not,
  length-append, length-drop, Bool-cases, inl, inr, ◌⊎◌,
}
use aegis.FileTransfer.{file_transfer_max_chunks}
use aegis.FileTransfer.Tracker.{
  FileChunkTracker, FileAckRange, bit, leading_run, received, ranges_from, run_start, prefix_ranges,
  focus_range, acknowledged_ranges,
}
use aegis.FileTransfer.Tracker.Bits.{bit_behind, leading_run-set, leading_run-le}
use aegis.FileTransfer.Tracker.Invariant.{IsTracker}
use aegis.FileTransfer.Codec.{FileTransferAck, file_ack_max_ranges, ranges_valid}
use aegis.FileTransfer.Codec.Acks.{IsAck}

-- A chunk lies in one of the ranges.
unfoldable pub covered : ℕ → List FileAckRange → Bool
covered i [] = false
covered i (range ∷ ranges) =
    (leb range.first i && ltb i (range.first + range.count)) || covered i ranges

-- A run that has begun lies behind `previous` and before `index`.
abbrev Opens : ℕ → ℕ → Option ℕ → Type 0
Opens previous index none = previous ≤ index
Opens previous index (some first) = (previous ≤ first) × (first < index)

abbrev opened : Option ℕ → ℕ
opened none = 0
opened (some first) = 1

abbrev inside : Option ℕ → ℕ → ℕ → Bool
inside none i index = false
inside (some first) i index = leb first i && ltb i index

pub at_most : {a b c : ℕ} → a ≤ b → b ≤ c → a ≤ c
at_most h k = omega (arith, h, k)

pub ranges_valid-cons :
    (previous : ℕ) (range : FileAckRange) (ranges : List FileAckRange)
    → 1 ≤ range.count
    → range.first + range.count ≤ file_transfer_max_chunks
    → previous ≤ range.first
    → ranges_valid (range.first + range.count) ranges ≡ true
    → ranges_valid previous (range ∷ ranges) ≡ true
unfolding ranges_valid
ranges_valid-cons previous range ranges h k l m = ground arith

pub ranges_from-valid :
    (room index previous limit : ℕ) (run : Option ℕ) (bits : List Bool)
    → Opens previous index run
    → index + length bits ≤ limit
    → limit ≤ file_transfer_max_chunks
    → ranges_valid previous (ranges_from room index run bits) ≡ true
unfolding ranges_from ranges_valid
ranges_from-valid room index previous limit none [] h k l = refl
ranges_from-valid room index previous limit none (false ∷ bits) h k l =
    ranges_from-valid room (suc index) previous limit none bits (omega (arith, h))
      (omega (arith, k)) l
ranges_from-valid zero index previous limit none (true ∷ bits) h k l = refl
ranges_from-valid (suc room) index previous limit none (true ∷ bits) h k l =
    ranges_from-valid room (suc index) previous limit (some index) bits (h, omega (arith, h))
      (omega (arith, k)) l
ranges_from-valid room index previous limit (some first) [] h k l =
    ranges_valid-cons previous (record { first = first; count = index - first }) []
      (omega (arith, h)) (at_most (omega (arith, h, k)) l) h.0 refl
ranges_from-valid room index previous limit (some first) (true ∷ bits) h k l =
    ranges_from-valid room (suc index) previous limit (some first) bits (h.0, omega (arith, h))
      (omega (arith, k)) l
ranges_from-valid room index previous limit (some first) (false ∷ bits) h k l =
    ranges_valid-cons previous (record { first = first; count = index - first })
      (ranges_from room (suc index) none bits) (omega (arith, h)) (at_most (omega (arith, h, k)) l)
      h.0
      (ranges_from-valid room (suc index) (first + (index - first)) limit none bits
        (omega (arith, h)) (omega (arith, k)) l)

pub ranges_from-length :
    (room index : ℕ) (run : Option ℕ) (bits : List Bool)
    → length (ranges_from room index run bits) ≤ room + opened run
unfolding ranges_from
ranges_from-length room index none [] = omega arith
ranges_from-length room index none (false ∷ bits) =
    omega (arith, ranges_from-length room (suc index) none bits)
ranges_from-length zero index none (true ∷ bits) = omega arith
ranges_from-length (suc room) index none (true ∷ bits) =
    omega (arith, ranges_from-length room (suc index) (some index) bits)
ranges_from-length room index (some first) [] = omega arith
ranges_from-length room index (some first) (true ∷ bits) =
    omega (arith, ranges_from-length room (suc index) (some first) bits)
ranges_from-length room index (some first) (false ∷ bits) =
    omega (arith, ranges_from-length room (suc index) none bits)

Nat-cases : (n : ℕ) → (n ≡ 0) ⊎ ((m : ℕ) × (n ≡ suc m))
Nat-cases zero = inl refl
Nat-cases (suc m) = inr (m, refl)

-- The flag at a place that is counted from `index`.
bit_behind_first :
    (i index : ℕ) (b : Bool) (bits : List Bool)
    → bit (i - index) (b ∷ bits) ≡ (if leb i index then b else bit (i - suc index) bits)
unfolding bit
bit_behind_first i index b bits = elim (Nat-cases (i - index)) [
  | inl e ↦ rw e (ground arith)
  | inr (n, e) ↦ rw e (ground (arith, same_place n e))
]
  where
    same_place : (n : ℕ) → i - index ≡ suc n → i - suc index ≡ n
    same_place n e = omega arith

-- What is covered was in the run that had begun, or is a flag that is set.
pub ranges_from-covered :
    (room index i : ℕ) (run : Option ℕ) (bits : List Bool)
    → Opens 0 index run
    → covered i (ranges_from room index run bits) ≡ true
    → (inside run i index || (leb index i && bit (i - index) bits)) ≡ true
unfolding ranges_from covered
ranges_from-covered room index i none [] h k = ground arith
ranges_from-covered room index i none (false ∷ bits) h k = ground (
  arith,
  ranges_from-covered room (suc index) i none bits (omega arith) k,
  bit_behind_first i index false bits,
)
ranges_from-covered zero index i none (true ∷ bits) h k = ground arith
ranges_from-covered (suc room) index i none (true ∷ bits) h k = ground (
  arith,
  ranges_from-covered room (suc index) i (some index) bits (omega arith, omega arith) k,
  bit_behind_first i index true bits,
)
ranges_from-covered room index i (some first) [] h k = ground arith
ranges_from-covered room index i (some first) (true ∷ bits) h k = ground (
  arith,
  ranges_from-covered room (suc index) i (some first) bits (h.0, omega arith) k,
  bit_behind_first i index true bits,
)
ranges_from-covered room index i (some first) (false ∷ bits) h k = ground (
  arith,
  ranges_from-covered room (suc index) i none bits (omega arith),
  bit_behind_first i index false bits,
)

-- When not all of the room is used, every flag that is set is covered.
pub ranges_from-covers :
    (room index i : ℕ) (run : Option ℕ) (bits : List Bool)
    → Opens 0 index run
    → length (ranges_from room index run bits) < room + opened run
    → (inside run i index || (leb index i && bit (i - index) bits)) ≡ true
    → covered i (ranges_from room index run bits) ≡ true
unfolding ranges_from covered
ranges_from-covers room index i none [] h k l = ground (arith, bit_behind (i - index) [])
ranges_from-covers room index i none (false ∷ bits) h k l = ground (
  arith,
  ranges_from-covers room (suc index) i none bits (omega arith) k,
  bit_behind_first i index false bits,
)
ranges_from-covers zero index i none (true ∷ bits) h k l = ground arith
ranges_from-covers (suc room) index i none (true ∷ bits) h k l = ground (
  arith,
  ranges_from-covers room (suc index) i (some index) bits (omega arith, omega arith) (omega arith),
  bit_behind_first i index true bits,
)
ranges_from-covers room index i (some first) [] h k l = ground (arith, bit_behind (i - index) [])
ranges_from-covers room index i (some first) (true ∷ bits) h k l = ground (
  arith,
  ranges_from-covers room (suc index) i (some first) bits (h.0, omega arith) k,
  bit_behind_first i index true bits,
)
ranges_from-covers room index i (some first) (false ∷ bits) h k l = ground (
  arith,
  ranges_from-covers room (suc index) i none bits (omega arith) (omega arith),
  bit_behind_first i index false bits,
)
