-- ===== src/FileTransfer/SendWindow/Progress.antt =====
-- A transfer of src/file/transfer.cpp sends no more than its retries allow, and does not stall.
use aegis.Prelude.{
  ℕ, zero, suc, ◌+◌, ◌-◌, ◌*◌, ◌≤◌, Bool, true, false, List, [], ◌∷◌, length, arith, ◌≡◌, ◌≢◌, refl,
  ap, ◌∙◌, inl, inr, ◌⊎◌, All,
}
use aegis.Prelude.Maps.{Map, find, has, sum}
use aegis.FileTransfer.Tracker.Bits.{all-count_set}
use aegis.FileTransfer.SendWindow.{
  FileSendWindow, InFlightChunk, reset, poll, poll_chunks, retransmit, emplace, fill, cancel,
  complete,
}
use aegis.FileTransfer.SendWindow.Invariant.{IsWindow, retransmitted-IsWindow}
use aegis.FileTransfer.SendWindow.Keeps.{
  WindowCall, call, call_reset, call_poll, call_acknowledge, call_cancel, call-IsWindow,
  fill-IsWindow, reset-IsWindow,
}
use aegis.FileTransfer.SendWindow.Budget.{chunks_left, poll-chunks_left, acknowledge-chunks_left}

-- A call inside one transfer.
abbrev pub is_inside : WindowCall → Bool
is_inside (call_reset total now) = false
is_inside _ = true

-- How many chunks a call hands over for sending.
unfoldable pub sent_by : WindowCall → FileSendWindow → ℕ
unfolding poll
sent_by (call_poll now) w = length (poll now w).0.chunks
sent_by _ w = 0

unfoldable pub sent_in : List WindowCall → FileSendWindow → ℕ
unfolding sent_by call
sent_in [] w = 0
sent_in (c ∷ calls) w = sent_by c w + sent_in calls (call c w)

call-chunks_left :
    (c : WindowCall) (w : FileSendWindow)
    → IsWindow w
    → is_inside c ≡ true
    → sent_by c w + chunks_left (call c w) ≤ chunks_left w
unfolding call cancel sent_by
call-chunks_left (call_reset total now) w v h = ground arith
call-chunks_left (call_poll now) w v h = poll-chunks_left now w v
call-chunks_left (call_acknowledge ack now) w v h =
    omega (arith, acknowledge-chunks_left ack now w v)
call-chunks_left call_cancel w v h = omega arith

sent_in-le :
    (calls : List WindowCall) (w : FileSendWindow)
    → IsWindow w
    → All (λ c. is_inside c ≡ true) calls
    → sent_in calls w ≤ chunks_left w
unfolding sent_in
sent_in-le [] w v h = omega arith
sent_in-le (c ∷ calls) w v h =
    omega (arith, call-chunks_left c w v h.0, sent_in-le calls (call c w) (call-IsWindow c w v) h.1)

reset-chunks_left :
    (total now : ℕ) (w u : FileSendWindow)
    → reset total now w ≡ (true, u)
    → chunks_left u ≡ total * suc w.config.retry_limit
unfolding reset sum
reset-chunks_left total now w u h = ground arith

-- Once a window is reset for a transfer, no calls of poll, acknowledge and cancel, whatever the
-- times and the acknowledgements, send more chunks in all than `retry_limit + 1` for each chunk of
-- the file: the sending ends.
pub sent_in-bounded :
    (total now : ℕ) (w u : FileSendWindow) (calls : List WindowCall)
    → IsWindow w
    → reset total now w ≡ (true, u)
    → All (λ c. is_inside c ≡ true) calls
    → sent_in calls u ≤ total * suc w.config.retry_limit
sent_in-bounded total now w u calls v h inside = omega (
  arith,
  reset-chunks_left total now w u h,
  sent_in-le calls u (rw⁻¹ (ap (λ r. r.1) h) (reset-IsWindow total now w v)) inside,
)

-- The loop that fills the window stops when the window is full or nothing is left to start.
fill-full :
    (left now : ℕ) (w : FileSendWindow)
    → left + w.next_chunk ≡ w.total_chunks
    → let u = (fill left now w).1 in
      (w.config.window_size ≤ length u.in_flight) ⊎ (u.next_chunk ≡ w.total_chunks)
unfolding fill
fill-full zero now w h = inr (omega (arith, h))
fill-full (suc left) now w h = ground (
  arith,
  h,
  fill-full left now (record w { next_chunk = suc w.next_chunk }),
  fill-full left now (record w {
    next_chunk = suc w.next_chunk;
    in_flight = emplace w.next_chunk now w.in_flight;
  }),
)

fill-acknowledged :
    (left now : ℕ) (w : FileSendWindow)
    → let u = (fill left now w).1 in
      (u.acknowledged_count ≡ w.acknowledged_count) × (u.total_chunks ≡ w.total_chunks)
unfolding fill
fill-acknowledged zero now w = (refl, refl)
fill-acknowledged (suc left) now w = ground (
  arith,
  fill-acknowledged left now (record w { next_chunk = suc w.next_chunk }),
  fill-acknowledged left now (record w {
    next_chunk = suc w.next_chunk;
    in_flight = emplace w.next_chunk now w.in_flight;
  }),
)

has-empty : (i : ℕ) (m : Map InFlightChunk) → length m ≡ 0 → has i m ≡ false
unfolding find
has-empty i [] h = refl
has-empty i (x ∷ m) h = ground arith

-- When everything is started and nothing is in flight, everything is acknowledged.
all_acknowledged :
    (w : FileSendWindow)
    → IsWindow w
    → w.next_chunk ≡ w.total_chunks
    → length w.in_flight ≡ 0
    → w.acknowledged_count ≡ w.total_chunks
all_acknowledged w v h k =
    v.counted
    ∙ all-count_set w.acknowledged (λ i below.
      ground
        (arith, v.accounted i (omega (arith, below, h, v.all_flags)), has-empty i w.in_flight k))
    ∙ v.all_flags

poll-poll_chunks :
    (now : ℕ) (w : FileSendWindow)
    → w.failed ≡ false
    → complete w ≡ false
    → 1 ≤ w.total_chunks
    → w.header_received ≡ true
    → poll now w ≡ poll_chunks now w
unfolding poll
poll-poll_chunks now w f c t h = ground arith

-- The result of a poll after the header: it gave up, or it is that of the loop that fills.
poll_chunks-cases :
    (now : ℕ) (w : FileSendWindow)
    → let again = record w {
      in_flight = (retransmit w.rto w.config.retry_limit now w.in_flight).2;
    } in
      ((poll_chunks now w).1.failed ≡ true)
      ⊎ ((poll_chunks now w).1 ≡ (fill (w.total_chunks - w.next_chunk) now again).1)
unfolding poll_chunks
poll_chunks-cases now w = ground arith

fill-config : (left now : ℕ) (w : FileSendWindow) → (fill left now w).1.config ≡ w.config
unfolding fill
fill-config zero now w = refl
fill-config (suc left) now w = ground (
  arith,
  fill-config left now (record w { next_chunk = suc w.next_chunk }),
  fill-config left now (record w {
    next_chunk = suc w.next_chunk;
    in_flight = emplace w.next_chunk now w.in_flight;
  }),
)

not_complete :
    (w : FileSendWindow)
    → complete w ≡ false
    → 1 ≤ w.total_chunks
    → w.acknowledged_count ≢ w.total_chunks
unfolding complete
not_complete w h k = ground arith

filled-waits :
    (now : ℕ) (w : FileSendWindow)
    → IsWindow w
    → 1 ≤ w.config.window_size
    → w.acknowledged_count ≢ w.total_chunks
    → 1 ≤ length (fill (w.total_chunks - w.next_chunk) now w).1.in_flight
filled-waits now w v h k =
    let left = w.total_chunks - w.next_chunk in
    let same = fill-acknowledged left now w in
    ground (
      arith,
      v.within,
      fill-full left now w,
      same,
      all_acknowledged (fill left now w).1 (fill-IsWindow left now w v (omega (arith, v.within))),
    )

-- A poll after the header was confirmed, of a transfer that is neither failed nor complete and has
-- a window of at least one chunk, gives the transfer up or leaves a chunk in flight: a transfer
-- always has something that will be acknowledged or time out.
pub poll-waits :
    (now : ℕ) (w : FileSendWindow)
    → IsWindow w
    → 1 ≤ w.config.window_size
    → w.failed ≡ false
    → complete w ≡ false
    → 1 ≤ w.total_chunks
    → w.header_received ≡ true
    → ((poll now w).1.failed ≡ true) ⊎ (1 ≤ length (poll now w).1.in_flight)
poll-waits now w v size fail comp total header =
    rw (poll-poll_chunks now w fail comp total header) (elim (poll_chunks-cases now w) [
      | inl e ↦ inl e
      | inr e ↦ inr (
          rw e
            (filled-waits now _ (retransmitted-IsWindow now w v) size (not_complete w comp total)))
    ])
