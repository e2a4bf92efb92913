-- ===== src/FileTransfer/Tracker/Invariant.antt =====
-- FileChunkTracker counts what it holds, whatever is done to it.
use aegis.Prelude.{
  ℕ, zero, suc, ◌≤◌, ◌<◌, true, false, List, [], ◌∷◌, length, replicate, arith, ◌≡◌, ◌↔◌, refl, ltb,
  ◌==◌, sym, ◌∙◌, length-replicate, ◌&&◌, ◌||◌,
}
use aegis.FileTransfer.{file_transfer_max_chunks}
use aegis.FileTransfer.Tracker.{
  FileChunkTracker, accepted, new_tracker, bit, set_bit, leading_run, reset, record_chunk, remove,
  received, complete,
}
use aegis.FileTransfer.Tracker.Bits.{
  count_set, length-set_bit, bit-set_bit, count_set-set, count_set-clear, count_set-none,
  count_set-all, all-count_set, leading_run-resume, leading_run-grows, leading_run-clear,
  set_bit-set_bit,
}

pub record IsTracker (t : FileChunkTracker) : Type 0 where
  pub counted : t.received_count ≡ count_set t.received_bits
  pub gapless : t.contiguous_received ≡ leading_run t.received_bits
  pub bounded : length t.received_bits ≤ file_transfer_max_chunks

leading_run-replicate : (n : ℕ) → leading_run (replicate n false) ≡ 0
unfolding leading_run
leading_run-replicate zero = refl
leading_run-replicate (suc n) = refl

reset-IsTracker : (total : ℕ) (t : FileChunkTracker) → IsTracker t → IsTracker (reset total t).1
unfolding reset
reset-IsTracker total t v =
    ground
      (arith, v, count_set-none total, leading_run-replicate total, length-replicate total false)

record_chunk-IsTracker :
    (index : ℕ) (t : FileChunkTracker) → IsTracker t → IsTracker (record_chunk index t).1
unfolding record_chunk
record_chunk-IsTracker index t v = ground (
  arith,
  v,
  count_set-set index t.received_bits,
  length-set_bit index true t.received_bits,
  leading_run-resume t.contiguous_received (set_bit index true t.received_bits),
  leading_run-grows index t.received_bits,
)

remove-IsTracker : (index : ℕ) (t : FileChunkTracker) → IsTracker t → IsTracker (remove index t).1
unfolding remove
remove-IsTracker index t v = ground (
  arith,
  v,
  count_set-clear index t.received_bits,
  length-set_bit index false t.received_bits,
  leading_run-clear index t.received_bits,
)

-- The calls that change a tracker.
pub data TrackerCall : Type 0 where
  call_reset call_record call_remove : ℕ → TrackerCall

unfoldable pub run_calls : List TrackerCall → FileChunkTracker → FileChunkTracker
unfolding reset record_chunk remove
run_calls [] t = t
run_calls (call_reset total ∷ calls) t = run_calls calls (reset total t).1
run_calls (call_record index ∷ calls) t = run_calls calls (record_chunk index t).1
run_calls (call_remove index ∷ calls) t = run_calls calls (remove index t).1

run_calls-keeps :
    (calls : List TrackerCall) (t : FileChunkTracker) → IsTracker t → IsTracker (run_calls calls t)
unfolding run_calls
run_calls-keeps [] t v = v
run_calls-keeps (call_reset total ∷ calls) t v =
    run_calls-keeps calls (reset total t).1 (reset-IsTracker total t v)
run_calls-keeps (call_record index ∷ calls) t v =
    run_calls-keeps calls (record_chunk index t).1 (record_chunk-IsTracker index t v)
run_calls-keeps (call_remove index ∷ calls) t v =
    run_calls-keeps calls (remove index t).1 (remove-IsTracker index t v)

new_tracker-IsTracker : IsTracker new_tracker
unfolding count_set leading_run
new_tracker-IsTracker = record { counted = refl; gapless = refl; bounded = omega arith }

-- After any calls of reset, record and remove on a new tracker, its count is the number of chunks
-- that it holds, its gapless prefix ends at the first chunk that is missing, and it has at most
-- FILE_TRANSFER_MAX_CHUNKS chunks.
pub run_calls-IsTracker : (calls : List TrackerCall) → IsTracker (run_calls calls new_tracker)
run_calls-IsTracker calls = run_calls-keeps calls new_tracker new_tracker-IsTracker

complete-counted :
    (t : FileChunkTracker)
    → complete t ≡ true
    → (1 ≤ length t.received_bits) × (t.received_count ≡ length t.received_bits)
unfolding complete
complete-counted t h = ground arith

counted-complete :
    (t : FileChunkTracker)
    → 1 ≤ length t.received_bits
    → t.received_count ≡ length t.received_bits
    → complete t ≡ true
unfolding complete
counted-complete t h k = ground arith

received_iff :
    (index : ℕ) (t : FileChunkTracker)
    → index < length t.received_bits
    → received index t ≡ bit index t.received_bits
unfolding received
received_iff index t h = ground arith

-- A tracker that counts what it holds is complete exactly when it has chunks and holds all of them.
pub complete_iff :
    (t : FileChunkTracker)
    → IsTracker t
    → (complete t ≡ true) ↔ (
        (1 ≤ length t.received_bits)
        × ((index : ℕ) → index < length t.received_bits → received index t ≡ true))
complete_iff t v = (
  λ h.
      let (some_chunks, all) = complete-counted t h in
      (
        some_chunks,
        λ index below.
            received_iff index t below
            ∙ count_set-all t.received_bits (sym v.counted ∙ all) index below,
      ),
  λ h. counted-complete t h.0 (
      v.counted
      ∙ all-count_set t.received_bits
          (λ index below. sym (received_iff index t below) ∙ h.1 index below)),
)

-- After a call of record, a chunk is held if it was held before, or if it is the one that was
-- recorded and lies in the file.
pub received-record_chunk :
    (i index : ℕ) (t : FileChunkTracker)
    → received i (record_chunk index t).1
      ≡ (received i t || (index == i && ltb index (length t.received_bits)))
unfolding received record_chunk
received-record_chunk i index t =
    ground
      (arith, length-set_bit index true t.received_bits, bit-set_bit i index true t.received_bits)

-- When a chunk is accepted, removing it gives back the tracker as it was: the set of chunks, the
-- count and the end of the gapless prefix.
pub remove-record_chunk :
    (index : ℕ) (t : FileChunkTracker)
    → IsTracker t
    → (record_chunk index t).0 ≡ accepted
    → remove index (record_chunk index t).1 ≡ (true, t)
unfolding record_chunk remove
remove-record_chunk index t v h = ground (
  arith,
  v,
  length-set_bit index true t.received_bits,
  bit-set_bit index index true t.received_bits,
  set_bit-set_bit index t.received_bits,
  leading_run-resume t.contiguous_received (set_bit index true t.received_bits),
  leading_run-grows index t.received_bits,
  leading_run-clear index (set_bit index true t.received_bits),
)
