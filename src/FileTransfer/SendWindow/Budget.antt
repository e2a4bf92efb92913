-- ===== src/FileTransfer/SendWindow/Budget.antt =====
-- How often FileSendWindow of src/file/transfer.cpp sends, and that it does not stop in between.
use aegis.Prelude.{
  ℕ, zero, suc, ◌+◌, ◌-◌, ◌*◌, ◌<◌, ◌≤◌, min, ◌||◌, List, [], ◌∷◌, length, ltb, leb, ◌==◌, arith,
  ◌≡◌, refl, ap, ◌∙◌, length-append, Bool-cases, inl, inr, ◌⊎◌,
}
use aegis.Prelude.Maps.{Map, find, IsSorted, sum, sum-insert, sum-erase}
use native.Mathlib.Nat.{suc-mul}
use aegis.FileTransfer.Tracker.{FileAckRange, bit}
use aegis.FileTransfer.Acknowledged.{at_most}
use aegis.FileTransfer.Codec.{FileTransferAck}
use aegis.FileTransfer.SendWindow.{
  FileSendWindow, InFlightChunk, poll, poll_header, poll_chunks, retransmit, emplace, fill,
  acknowledge_chunk, acknowledge_range, acknowledge_ranges, acknowledge_header, acknowledge,
  nothing,
}
use aegis.FileTransfer.SendWindow.Invariant.{
  IsWindow, retransmitted-IsWindow, skipped-IsWindow, sent-IsWindow,
}
use aegis.FileTransfer.SendWindow.Keeps.{
  SameChunks, poll_header-SameChunks, acknowledge_header-SameChunks, observe_chunk-SameChunks,
  SameChunks-IsWindow, acknowledge_chunk-IsWindow, acknowledge_chunk-total, nothing_left,
  clamped_range-IsWindow,
}

-- How often a chunk that is in flight may still be sent.
abbrev tries_left : ℕ → InFlightChunk → ℕ
tries_left limit chunk = limit - chunk.retransmissions

-- How many chunks may still be sent: each that has not been started `limit + 1` times, and each
-- that is in flight as often as it has retries left.
abbrev pub chunks_left : FileSendWindow → ℕ
chunks_left w =
    (w.total_chunks - w.next_chunk) * suc w.config.retry_limit
    + sum (tries_left w.config.retry_limit) w.in_flight

retransmit-sum :
    (rto limit now : ℕ) (m : Map InFlightChunk)
    → let (gave_up, again, rest) = retransmit rto limit now m in
      length again + sum (tries_left limit) rest ≤ sum (tries_left limit) m
unfolding retransmit sum
retransmit-sum rto limit now [] = omega arith
retransmit-sum rto limit now ((index, chunk) ∷ m) = ground (arith, retransmit-sum rto limit now m)

emplace-sum :
    (limit index now : ℕ) (m : Map InFlightChunk)
    → IsSorted m
    → sum (tries_left limit) (emplace index now m) ≤ sum (tries_left limit) m + limit
unfolding emplace
emplace-sum limit index now m s =
    ground (
      arith,
      sum-insert (tries_left limit) index (record { sent_at = now; retransmissions = 0 }) m s,
    )

one_less :
    (total next limit : ℕ)
    → next < total
    → (total - next) * suc limit ≡ suc limit + (total - suc next) * suc limit
one_less total next limit h =
    ap (λ n. n * suc limit) {x = total - next} {y = suc (total - suc next)} (omega arith)
    ∙ omega (arith, suc-mul (total - suc next) (suc limit))

fill-chunks_left :
    (left now : ℕ) (w : FileSendWindow)
    → IsWindow w
    → left + w.next_chunk ≤ w.total_chunks
    → length (fill left now w).0 + chunks_left (fill left now w).1 ≤ chunks_left w
unfolding fill
fill-chunks_left zero now w v h = omega arith
fill-chunks_left (suc left) now w v h =
    elim (Bool-cases (ltb (length w.in_flight) w.config.window_size)) [
      | inr e ↦ rw e (omega arith)
      | inl e ↦ elim (Bool-cases (bit w.next_chunk w.acknowledged)) [
        | inl k ↦
            rw (e, k)
              (omega (
                arith,
                one_less w.total_chunks w.next_chunk w.config.retry_limit (omega (arith, h)),
                fill-chunks_left left now (record w { next_chunk = suc w.next_chunk })
                    (skipped-IsWindow w v (omega (arith, h)) k) (omega (arith, h)),
              ))
        | inr k ↦
            rw (e, k)
              (omega (
                arith,
                one_less w.total_chunks w.next_chunk w.config.retry_limit (omega (arith, h)),
                emplace-sum w.config.retry_limit w.next_chunk now w.in_flight v.sorted,
                fill-chunks_left left now
                    (record w {
                      next_chunk = suc w.next_chunk;
                      in_flight = emplace w.next_chunk now w.in_flight;
                    })
                    (sent-IsWindow now w v (omega (arith, h)) k (ground (arith, e)))
                    (omega (arith, h)),
              ))
      ]
    ]

SameChunks-chunks_left : {w u : FileSendWindow} → SameChunks w u → chunks_left u ≡ chunks_left w
SameChunks-chunks_left s = rw (s.same_total, s.same_next, s.same_config, s.same_in_flight) refl

pub poll_chunks-chunks_left :
    (now : ℕ) (w : FileSendWindow)
    → IsWindow w
    → length (poll_chunks now w).0.chunks + chunks_left (poll_chunks now w).1 ≤ chunks_left w
unfolding poll_chunks
poll_chunks-chunks_left now w v =
    let again = retransmit w.rto w.config.retry_limit now w.in_flight in
    elim (Bool-cases (retransmit w.rto w.config.retry_limit now w.in_flight).0) [
      | inl e ↦ rw e (omega (arith, retransmit-sum w.rto w.config.retry_limit now w.in_flight))
      | inr e ↦ rw e (
          omega (
            arith,
            retransmit-sum w.rto w.config.retry_limit now w.in_flight,
            length-append again.1
                (fill (w.total_chunks - w.next_chunk) now (record w { in_flight = again.2 })).0,
            fill-chunks_left (w.total_chunks - w.next_chunk) now (record w { in_flight = again.2 })
                (retransmitted-IsWindow now w v) (omega (arith, v.within)),
          ))
    ]

poll_header-no_chunks : (now : ℕ) (w : FileSendWindow) → (poll_header now w).0.chunks ≡ []
unfolding poll_header
poll_header-no_chunks now w = ground arith

poll-cases :
    (now : ℕ) (w : FileSendWindow)
    → (poll now w ≡ (nothing, w))
      ⊎ (poll now w ≡ poll_header now w)
      ⊎ (poll now w ≡ poll_chunks now w)
unfolding poll
poll-cases now w = ground arith

pub poll-chunks_left :
    (now : ℕ) (w : FileSendWindow)
    → IsWindow w
    → length (poll now w).0.chunks + chunks_left (poll now w).1 ≤ chunks_left w
poll-chunks_left now w v = elim (poll-cases now w) [
  | inl e ↦ rw e (omega arith)
  | inr (inl e) ↦ rw e (
      omega (
        arith,
        ap length (poll_header-no_chunks now w),
        SameChunks-chunks_left (poll_header-SameChunks now w),
      ))
  | inr (inr e) ↦ rw e (poll_chunks-chunks_left now w v)
]

acknowledge_chunk-chunks_left :
    (index now : ℕ) (w : FileSendWindow)
    → IsWindow w
    → chunks_left (acknowledge_chunk index now w) ≤ chunks_left w
unfolding acknowledge_chunk
acknowledge_chunk-chunks_left index now w v = elim (Bool-cases (bit index w.acknowledged)) [
  | inl e ↦ rw e (omega arith)
  | inr e ↦
      let same = observe_chunk-SameChunks (find index w.in_flight) now w in
      rw (e, same.same_total, same.same_next, same.same_config, same.same_in_flight)
        (omega (arith, sum-erase (tries_left w.config.retry_limit) index w.in_flight v.sorted))
]

acknowledge_range-chunks_left :
    (left index now : ℕ) (w : FileSendWindow)
    → IsWindow w
    → left + index ≤ w.total_chunks
    → chunks_left (acknowledge_range left index now w) ≤ chunks_left w
unfolding acknowledge_range
acknowledge_range-chunks_left zero index now w v h = omega arith
acknowledge_range-chunks_left (suc left) index now w v h =
    at_most
      (acknowledge_range-chunks_left left (suc index) now (acknowledge_chunk index now w)
        (acknowledge_chunk-IsWindow index now w v (omega (arith, h)))
        (omega (arith, h, acknowledge_chunk-total index now w)))
      (acknowledge_chunk-chunks_left index now w v)

clamped_range-chunks_left :
    (range : FileAckRange) (now : ℕ) (w : FileSendWindow)
    → IsWindow w
    → chunks_left (
        acknowledge_range
          (min (range.first + range.count) w.total_chunks - range.first)
          range.first
          now
          w)
      ≤ chunks_left w
unfolding acknowledge_range
clamped_range-chunks_left range now w v =
    elim (Bool-cases (leb range.first (min (range.first + range.count) w.total_chunks))) [
      | inl e ↦
          acknowledge_range-chunks_left
            (min (range.first + range.count) w.total_chunks - range.first) range.first now w v
            (ground (arith, e))
      | inr e ↦ rw (nothing_left range w.total_chunks e) (omega arith)
    ]

acknowledge_ranges-chunks_left :
    (ranges : List FileAckRange) (now : ℕ) (w : FileSendWindow)
    → IsWindow w
    → chunks_left (acknowledge_ranges ranges now w) ≤ chunks_left w
unfolding acknowledge_ranges
acknowledge_ranges-chunks_left [] now w v = omega arith
acknowledge_ranges-chunks_left (range ∷ ranges) now w v =
    at_most (acknowledge_ranges-chunks_left ranges now _ (clamped_range-IsWindow range now w v))
      (clamped_range-chunks_left range now w v)

pub acknowledge-chunks_left :
    (ack : FileTransferAck) (now : ℕ) (w : FileSendWindow)
    → IsWindow w
    → chunks_left (acknowledge ack now w) ≤ chunks_left w
unfolding acknowledge
acknowledge-chunks_left ack now w v = elim (Bool-cases (w.failed || w.total_chunks == 0)) [
  | inl e ↦ rw e (omega arith)
  | inr e ↦ rw e (
      at_most
        (acknowledge_ranges-chunks_left ack.ranges now (acknowledge_header ack now w)
          (SameChunks-IsWindow (acknowledge_header-SameChunks ack now w) v))
        (omega (arith, SameChunks-chunks_left (acknowledge_header-SameChunks ack now w))))
]
