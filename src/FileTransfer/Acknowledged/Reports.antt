-- ===== src/FileTransfer/Acknowledged/Reports.antt =====
-- What FileChunkTracker::acknowledged_ranges of src/file/transfer.cpp reports of a tracker.
use aegis.Prelude.{
  ℕ, zero, suc, ◌+◌, ◌-◌, ◌^◌, ◌<◌, ◌≤◌, Bool, true, Option, none, some, List, [], ◌∷◌, ◌++◌,
  length, drop, arith, ◌≡◌, ◌≢◌, refl, ltb, ◌||◌, length-append, length-drop, Bool-cases, inl, inr,
  ◌⊎◌, ap, ◌∙◌, append-nil,
}
use aegis.FileTransfer.{file_transfer_max_chunks}
use aegis.FileTransfer.Tracker.{
  FileChunkTracker, FileAckRange, bit, leading_run, received, ranges_from, run_start, prefix_ranges,
  focus_range, acknowledged_ranges,
}
use aegis.FileTransfer.Tracker.Bits.{leading_run-set, leading_run-le, bit_behind}
use aegis.FileTransfer.Tracker.Invariant.{IsTracker}
use aegis.FileTransfer.Codec.{file_ack_max_ranges, ranges_valid}
use aegis.FileTransfer.Codec.Acks.{IsAck}
use aegis.FileTransfer.Acknowledged.{
  covered, at_most, ranges_valid-cons, ranges_from-valid, ranges_from-length, ranges_from-covered,
  ranges_from-covers,
}

gapless-le : (t : FileChunkTracker) → IsTracker t → t.contiguous_received ≤ length t.received_bits
gapless-le t v = omega (arith, v.gapless, leading_run-le t.received_bits)

gapless-bit :
    (i : ℕ) (t : FileChunkTracker)
    → IsTracker t
    → i < t.contiguous_received
    → bit i t.received_bits ≡ true
gapless-bit i t v h = leading_run-set i t.received_bits (omega (arith, h, v.gapless))

bit-drop : (n i : ℕ) (bits : List Bool) → n ≤ i → bit (i - n) (drop n bits) ≡ bit i bits
unfolding bit
bit-drop zero i bits h = ap (λ k. bit k bits) (omega arith)
bit-drop (suc n) i [] h = bit_behind (i - suc n) [] (omega arith)
bit-drop (suc n) (suc i) (b ∷ bits) h =
    ap (λ k. bit k (drop n bits)) less ∙ bit-drop n i bits (omega arith)
  where
    less : suc i - suc n ≡ i - n
    less = omega arith
bit-drop (suc n) zero (b ∷ bits) h = ground arith

covered-append :
    (i : ℕ) (xs ys : List FileAckRange) → covered i (xs ++ ys) ≡ (covered i xs || covered i ys)
unfolding covered
covered-append i [] ys = refl
covered-append i (x ∷ xs) ys = ground (arith, covered-append i xs ys)

covered-prefix_ranges :
    (i : ℕ) (t : FileChunkTracker) → covered i (prefix_ranges t) ≡ ltb i t.contiguous_received
unfolding covered prefix_ranges
covered-prefix_ranges i t = ground arith

zero_add : (n : ℕ) → 0 + n ≡ n
zero_add n = omega arith

-- Ranges in order behind the gapless prefix are in order with it.
prefix_ranges-valid :
    (t : FileChunkTracker) (ranges : List FileAckRange)
    → t.contiguous_received ≤ file_transfer_max_chunks
    → ranges_valid t.contiguous_received ranges ≡ true
    → ranges_valid 0 (prefix_ranges t ++ ranges) ≡ true
unfolding prefix_ranges
prefix_ranges-valid t ranges h k = elim (Bool-cases (ltb 0 t.contiguous_received)) [
  | inl e ↦ rw e (
      ranges_valid-cons 0 (record { first = 0; count = t.contiguous_received }) ranges
        (ground arith) (at_most (omega arith) h) (omega arith)
        (ap (λ n. ranges_valid n ranges) (zero_add t.contiguous_received) ∙ k))
  | inr e ↦ rw e (ap (λ n. ranges_valid n ranges) (ground arith) ∙ k)
]

prefix_ranges-length : (t : FileChunkTracker) → length (prefix_ranges t) ≤ 1
unfolding prefix_ranges
prefix_ranges-length t = ground arith

ranges_valid-nil : (n : ℕ) → ranges_valid n [] ≡ true
unfolding ranges_valid
ranges_valid-nil n = refl

-- Without a focus.
abbrev unfocused : ℕ → FileChunkTracker → List FileAckRange
unfocused maximum t =
    ranges_from (suc maximum - length (prefix_ranges t)) t.contiguous_received none
      (drop t.contiguous_received t.received_bits)

unfocused-valid :
    (maximum : ℕ) (t : FileChunkTracker)
    → IsTracker t
    → ranges_valid t.contiguous_received (unfocused maximum t) ≡ true
unfocused-valid maximum t v =
    ranges_from-valid (suc maximum - length (prefix_ranges t)) t.contiguous_received
      t.contiguous_received (length t.received_bits) none
      (drop t.contiguous_received t.received_bits) (omega arith)
      (omega (arith, length-drop t.contiguous_received t.received_bits, gapless-le t v)) v.bounded

-- The run around a chunk.
run_start-le : (c n : ℕ) (bits : List Bool) → run_start c bits n ≤ n
unfolding run_start
run_start-le c zero bits = omega arith
run_start-le c (suc n) bits = ground (arith, run_start-le c n bits)

run_start-ge : (c n : ℕ) (bits : List Bool) → c ≤ n → c ≤ run_start c bits n
unfolding run_start
run_start-ge c zero bits h = h
run_start-ge c (suc n) bits h = ground (arith, run_start-ge c n bits)

run_start-set : (c n i : ℕ) (bits : List Bool) → run_start c bits n ≤ i → i < n → bit i bits ≡ true
unfolding run_start
run_start-set c zero i bits h k = ground arith
run_start-set c (suc n) i bits h k = ground (arith, run_start-set c n i bits)

focus_range-valid :
    (focus : ℕ) (t : FileChunkTracker)
    → IsTracker t
    → focus < length t.received_bits
    → t.contiguous_received ≤ focus
    → ranges_valid t.contiguous_received (focus_range focus t ∷ []) ≡ true
unfolding focus_range
focus_range-valid focus t v h k =
    let start = run_start t.contiguous_received t.received_bits focus in
    let run = leading_run (drop (suc focus) t.received_bits) in
    let fits = leading_run-le (drop (suc focus) t.received_bits) in
    let lower = run_start-le t.contiguous_received focus t.received_bits in
    ranges_valid-cons t.contiguous_received (focus_range focus t) []
      (positive start run focus lower)
      (at_most
        (ends start run focus (length t.received_bits) lower
          (omega (arith, fits, h, length-drop (suc focus) t.received_bits)))
        v.bounded)
      (run_start-ge t.contiguous_received focus t.received_bits k) (ranges_valid-nil _)
  where
    positive : (start run focus : ℕ) → start ≤ focus → 1 ≤ suc focus + run - start
    positive start run focus h = omega arith

    ends :
        (start run focus size : ℕ)
        → start ≤ focus
        → suc focus + run ≤ size
        → start + (suc focus + run - start) ≤ size
    ends start run focus size h k = omega arith

-- A chunk that is covered by the run around a chunk is set.
focus_range-covered :
    (i focus : ℕ) (t : FileChunkTracker)
    → bit focus t.received_bits ≡ true
    → covered i (focus_range focus t ∷ []) ≡ true
    → bit i t.received_bits ≡ true
unfolding focus_range covered
focus_range-covered i focus t h k = ground (
  arith,
  run_start-le t.contiguous_received focus t.received_bits,
  run_start-set t.contiguous_received focus i t.received_bits,
  leading_run-set (i - suc focus) (drop (suc focus) t.received_bits),
  bit-drop (suc focus) i t.received_bits,
)

-- The reports: with a focus, the gapless prefix, and behind it the run around the focus or nothing.
acknowledged-cases :
    (focus maximum : ℕ) (t : FileChunkTracker)
    → (acknowledged_ranges (some focus) (suc maximum) t ≡ prefix_ranges t)
      ⊎ ((acknowledged_ranges (some focus) (suc maximum) t
            ≡ prefix_ranges t ++ (focus_range focus t ∷ []))
          × (focus < length t.received_bits)
          × (bit focus t.received_bits ≡ true)
          × (t.contiguous_received ≤ focus)
          × (length (prefix_ranges t) ≤ maximum))
unfolding acknowledged_ranges
acknowledged-cases focus maximum t = ground arith

acknowledged-valid :
    (focus : Option ℕ) (maximum : ℕ) (t : FileChunkTracker)
    → IsTracker t
    → ranges_valid 0 (acknowledged_ranges focus maximum t) ≡ true
unfolding acknowledged_ranges
acknowledged-valid focus zero t v = (ranges_valid-nil _)
acknowledged-valid none (suc maximum) t v =
    prefix_ranges-valid t (unfocused maximum t) (at_most (gapless-le t v) v.bounded)
      (unfocused-valid maximum t v)
acknowledged-valid (some focus) (suc maximum) t v =
    let whole = at_most (gapless-le t v) v.bounded in
    elim (acknowledged-cases focus maximum t) [
      | inl e ↦
          rw (e, ← append-nil (prefix_ranges t))
            (prefix_ranges-valid t [] whole (ranges_valid-nil _))
      | inr (e, below, set, behind, few) ↦ rw e (
          prefix_ranges-valid t (focus_range focus t ∷ []) whole
            (focus_range-valid focus t v below behind))
    ]

acknowledged-length :
    (focus : Option ℕ) (maximum : ℕ) (t : FileChunkTracker)
    → length (acknowledged_ranges focus maximum t) ≤ maximum
unfolding acknowledged_ranges
acknowledged-length focus zero t = omega arith
acknowledged-length none (suc maximum) t = omega (
  arith,
  length-append (prefix_ranges t) (unfocused maximum t),
  prefix_ranges-length t,
  ranges_from-length (suc maximum - length (prefix_ranges t)) t.contiguous_received none
      (drop t.contiguous_received t.received_bits),
)
acknowledged-length (some focus) (suc maximum) t = elim (acknowledged-cases focus maximum t) [
  | inl e ↦ rw e (omega (arith, prefix_ranges-length t))
  | inr (e, below, set, behind, few) ↦
      rw e (omega (arith, few, length-append (prefix_ranges t) (focus_range focus t ∷ [])))
]

-- What a tracker reports, with or without a focus and for at most 32 ranges, is accepted by
-- serialize_file_ack: the ranges are few enough, not empty, in order and inside the largest file.
pub acknowledged_ranges-IsAck :
    (focus : Option ℕ) (maximum transfer_id : ℕ) (header_received : Bool) (t : FileChunkTracker)
    → IsTracker t
    → maximum ≤ file_ack_max_ranges
    → transfer_id < 2 ^ 64
    → transfer_id ≢ 0
    → IsAck (record {
      transfer_id = transfer_id;
      header_received = header_received;
      ranges = acknowledged_ranges focus maximum t;
    })
acknowledged_ranges-IsAck focus maximum transfer_id header_received t v few fits used = record {
  id_fits = fits;
  id_used = used;
  few = at_most (acknowledged-length focus maximum t) few;
  ordered = acknowledged-valid focus maximum t v;
}

received-bit : (i : ℕ) (t : FileChunkTracker) → received i t ≡ bit i t.received_bits
unfolding received
received-bit i t = ground (arith, bit_behind i t.received_bits)

unfocused-covered :
    (i maximum : ℕ) (t : FileChunkTracker)
    → covered i (unfocused maximum t) ≡ true
    → bit i t.received_bits ≡ true
unfocused-covered i maximum t h = ground (
  arith,
  ranges_from-covered (suc maximum - length (prefix_ranges t)) t.contiguous_received i none
      (drop t.contiguous_received t.received_bits) (omega arith) h,
  bit-drop t.contiguous_received i t.received_bits,
)

covered-bit :
    (i : ℕ) (focus : Option ℕ) (maximum : ℕ) (t : FileChunkTracker)
    → IsTracker t
    → covered i (acknowledged_ranges focus maximum t) ≡ true
    → bit i t.received_bits ≡ true
unfolding acknowledged_ranges covered
covered-bit i focus zero t v h = ground arith
covered-bit i none (suc maximum) t v h = ground (
  arith,
  covered-append i (prefix_ranges t) (unfocused maximum t),
  covered-prefix_ranges i t,
  gapless-bit i t v,
  unfocused-covered i maximum t,
)
covered-bit i (some focus) (suc maximum) t v h = elim (acknowledged-cases focus maximum t) [
  | inl e ↦ ground (arith, ap (covered i) e, covered-prefix_ranges i t, gapless-bit i t v)
  | inr (e, below, set, behind, few) ↦ ground (
    arith,
    ap (covered i) e,
    covered-append i (prefix_ranges t) (focus_range focus t ∷ []),
    covered-prefix_ranges i t,
    gapless-bit i t v,
    focus_range-covered i focus t set,
  )
]

-- Every chunk that lies in a reported range has arrived.
pub covered-received :
    (i : ℕ) (focus : Option ℕ) (maximum : ℕ) (t : FileChunkTracker)
    → IsTracker t
    → covered i (acknowledged_ranges focus maximum t) ≡ true
    → received i t ≡ true
covered-received i focus maximum t v h = received-bit i t ∙ covered-bit i focus maximum t v h

-- A report without a focus that does not use all of its ranges covers every chunk that has arrived.
pub received-covered :
    (i maximum : ℕ) (t : FileChunkTracker)
    → IsTracker t
    → received i t ≡ true
    → length (acknowledged_ranges none maximum t) < maximum
    → covered i (acknowledged_ranges none maximum t) ≡ true
unfolding acknowledged_ranges
received-covered i zero t v h k = ground arith
received-covered i (suc maximum) t v h k = ground (
  arith,
  received-bit i t,
  prefix_ranges-length t,
  length-append (prefix_ranges t) (unfocused maximum t),
  covered-append i (prefix_ranges t) (unfocused maximum t),
  covered-prefix_ranges i t,
  bit-drop t.contiguous_received i t.received_bits,
  ranges_from-covers (suc maximum - length (prefix_ranges t)) t.contiguous_received i none
      (drop t.contiguous_received t.received_bits) (omega arith),
)
