-- ===== src/FileTransfer/SendWindow/Keeps.antt =====
-- Every call on FileSendWindow of src/file/transfer.cpp keeps what its state promises.
use aegis.Prelude.{
  ℕ, zero, suc, ◌+◌, ◌-◌, ◌<◌, ◌≤◌, min, true, false, Option, none, some, List, [], ◌∷◌, length,
  replicate, ltb, leb, ◌==◌, arith, ◌≡◌, refl, ap, ◌∙◌, sym, length-replicate, Bool-cases, inl, inr,
}
use aegis.Prelude.Maps.{find, erase, find-erase, erase_if-Above, length-erase_if}
use aegis.FileTransfer.Tracker.{FileAckRange, bit, set_bit}
use aegis.FileTransfer.Tracker.Bits.{
  count_set, length-set_bit, bit-set_bit, count_set-set, count_set-none,
}
use aegis.FileTransfer.Codec.{FileTransferAck}
use aegis.FileTransfer.SendWindow.{
  FileSendWindow, FileSendWindowConfig, InFlightChunk, construct, reset, poll, poll_header,
  poll_chunks, retransmit, emplace, fill, observe_rtt, observe_chunk, observe_header,
  acknowledge_chunk, acknowledge_range, acknowledge_ranges, acknowledge_header, acknowledge, cancel,
}
use aegis.FileTransfer.SendWindow.Invariant.{
  IsWindow, retransmitted-IsWindow, skipped-IsWindow, sent-IsWindow,
}

-- Two windows that differ in no more than their timers and flags.
pub record SameChunks (w u : FileSendWindow) : Type 0 where
  pub same_in_flight : u.in_flight ≡ w.in_flight
  pub same_flags : u.acknowledged ≡ w.acknowledged
  pub same_next : u.next_chunk ≡ w.next_chunk
  pub same_count : u.acknowledged_count ≡ w.acknowledged_count
  pub same_total : u.total_chunks ≡ w.total_chunks
  pub same_config : u.config ≡ w.config

pub SameChunks-IsWindow : {w u : FileSendWindow} → SameChunks w u → IsWindow w → IsWindow u
SameChunks-IsWindow s v = record {
  sorted = rw s.same_in_flight v.sorted;
  unacknowledged = rw (s.same_in_flight, s.same_flags) v.unacknowledged;
  started = rw (s.same_in_flight, s.same_next) v.started;
  accounted = rw (s.same_in_flight, s.same_flags, s.same_next) v.accounted;
  counted = rw (s.same_count, s.same_flags) v.counted;
  all_flags = rw (s.same_flags, s.same_total) v.all_flags;
  within = rw (s.same_next, s.same_total) v.within;
  room = rw (s.same_in_flight, s.same_config) v.room;
}

pub fill-IsWindow :
    (left now : ℕ) (w : FileSendWindow)
    → IsWindow w
    → left + w.next_chunk ≤ w.total_chunks
    → IsWindow (fill left now w).1
unfolding fill
fill-IsWindow zero now w v h = v
fill-IsWindow (suc left) now w v h =
    elim (Bool-cases (ltb (length w.in_flight) w.config.window_size)) [
      | inr e ↦ rw e v
      | inl e ↦ elim (Bool-cases (bit w.next_chunk w.acknowledged)) [
        | inl k ↦
            rw (e, k)
              (fill-IsWindow left now (record w { next_chunk = suc w.next_chunk })
                (skipped-IsWindow w v (omega (arith, h)) k) (omega (arith, h)))
        | inr k ↦
            rw (e, k)
              (fill-IsWindow left now
                (record w {
                  next_chunk = suc w.next_chunk;
                  in_flight = emplace w.next_chunk now w.in_flight;
                })
                (sent-IsWindow now w v (omega (arith, h)) k (ground (arith, e))) (omega (arith, h)))
      ]
    ]

pub poll_header-SameChunks : (now : ℕ) (w : FileSendWindow) → SameChunks w (poll_header now w).1
unfolding poll_header
poll_header-SameChunks now w = ground arith

pub poll_chunks-IsWindow :
    (now : ℕ) (w : FileSendWindow) → IsWindow w → IsWindow (poll_chunks now w).1
unfolding poll_chunks
poll_chunks-IsWindow now w v =
    let again = retransmitted-IsWindow now w v in
    elim (Bool-cases (retransmit w.rto w.config.retry_limit now w.in_flight).0) [
      | inl e ↦ rw e (
          SameChunks-IsWindow
            (record {
              same_in_flight = refl;
              same_flags = refl;
              same_next = refl;
              same_count = refl;
              same_total = refl;
              same_config = refl;
            })
            again)
      | inr e ↦
          rw e (fill-IsWindow (w.total_chunks - w.next_chunk) now _ again (omega (arith, v.within)))
    ]

pub poll-IsWindow : (now : ℕ) (w : FileSendWindow) → IsWindow w → IsWindow (poll now w).1
unfolding poll
poll-IsWindow now w v =
    ground
      (arith, v, poll_chunks-IsWindow now w v, SameChunks-IsWindow (poll_header-SameChunks now w) v)

observe_rtt-SameChunks : (sample : ℕ) (w : FileSendWindow) → SameChunks w (observe_rtt sample w)
unfolding observe_rtt
observe_rtt-SameChunks sample w = record {
  same_in_flight = refl;
  same_flags = refl;
  same_next = refl;
  same_count = refl;
  same_total = refl;
  same_config = refl;
}

pub observe_chunk-SameChunks :
    (chunk : Option InFlightChunk) (now : ℕ) (w : FileSendWindow)
    → SameChunks w (observe_chunk chunk now w)
unfolding observe_chunk observe_rtt
observe_chunk-SameChunks none now w = ground arith
observe_chunk-SameChunks (some chunk) now w = ground arith

pub acknowledge_header-SameChunks :
    (ack : FileTransferAck) (now : ℕ) (w : FileSendWindow)
    → SameChunks w (acknowledge_header ack now w)
unfolding acknowledge_header observe_header observe_rtt
acknowledge_header-SameChunks ack now w = ground arith

-- A chunk of the file that is acknowledged for the first time.
counted_chunk :
    (index : ℕ) (w u : FileSendWindow)
    → IsWindow w
    → SameChunks w u
    → index < w.total_chunks
    → bit index w.acknowledged ≡ false
    → IsWindow (record u {
      acknowledged = set_bit index true u.acknowledged;
      acknowledged_count = suc u.acknowledged_count;
      in_flight = erase index u.in_flight;
    })
counted_chunk index w u v s h k =
    let now_in = SameChunks-IsWindow s v in
    let flag = ap (bit index) s.same_flags ∙ k in
    let fits : index < length u.acknowledged = omega (arith, h, now_in.all_flags, s.same_total) in
    record {
      sorted = erase_if-Above 0 (λ j _. j == index) u.in_flight now_in.sorted;
      unacknowledged = λ i j. ground (
        arith,
        now_in.unacknowledged i,
        find-erase index i u.in_flight,
        bit-set_bit i index true u.acknowledged fits,
        j,
      );
      started = λ i j. ground (arith, now_in.started i, find-erase index i u.in_flight, j);
      accounted = λ i j. ground (
        arith,
        now_in.accounted i j,
        find-erase index i u.in_flight,
        bit-set_bit i index true u.acknowledged fits,
        j,
      );
      counted = ap suc now_in.counted ∙ sym (count_set-set index u.acknowledged fits flag);
      all_flags = length-set_bit index true u.acknowledged ∙ now_in.all_flags;
      within = now_in.within;
      room =
          omega (
            arith,
            now_in.room,
            length-erase_if {V = InFlightChunk} (λ j _. j == index) u.in_flight,
          );
    }

pub acknowledge_chunk-IsWindow :
    (index now : ℕ) (w : FileSendWindow)
    → IsWindow w
    → index < w.total_chunks
    → IsWindow (acknowledge_chunk index now w)
unfolding acknowledge_chunk
acknowledge_chunk-IsWindow index now w v h = elim (Bool-cases (bit index w.acknowledged)) [
  | inl e ↦ rw e v
  | inr e ↦ rw e (
      counted_chunk index w (observe_chunk (find index w.in_flight) now w) v
        (observe_chunk-SameChunks (find index w.in_flight) now w) h e)
]

pub acknowledge_chunk-total :
    (index now : ℕ) (w : FileSendWindow)
    → (acknowledge_chunk index now w).total_chunks ≡ w.total_chunks
unfolding acknowledge_chunk
acknowledge_chunk-total index now w =
    ground (arith, (observe_chunk-SameChunks (find index w.in_flight) now w).same_total)

acknowledge_range-IsWindow :
    (left index now : ℕ) (w : FileSendWindow)
    → IsWindow w
    → left + index ≤ w.total_chunks
    → IsWindow (acknowledge_range left index now w)
      × ((acknowledge_range left index now w).total_chunks ≡ w.total_chunks)
unfolding acknowledge_range
acknowledge_range-IsWindow zero index now w v h = (v, refl)
acknowledge_range-IsWindow (suc left) index now w v h =
    let next =
      acknowledge_range-IsWindow left (suc index) now (acknowledge_chunk index now w)
        (acknowledge_chunk-IsWindow index now w v (omega (arith, h)))
        (omega (arith, h, acknowledge_chunk-total index now w)) in
    (next.0, next.1 ∙ acknowledge_chunk-total index now w)

-- A range that begins behind the end of the file has no chunks left.
pub nothing_left :
    (range : FileAckRange) (total : ℕ)
    → leb range.first (min (range.first + range.count) total) ≡ false
    → min (range.first + range.count) total - range.first ≡ 0
nothing_left range total e = ground arith

pub clamped_range-IsWindow :
    (range : FileAckRange) (now : ℕ) (w : FileSendWindow)
    → IsWindow w
    → IsWindow (
        acknowledge_range
          (min (range.first + range.count) w.total_chunks - range.first)
          range.first
          now
          w)
unfolding acknowledge_range
clamped_range-IsWindow range now w v =
    elim (Bool-cases (leb range.first (min (range.first + range.count) w.total_chunks))) [
      | inl e ↦
          (acknowledge_range-IsWindow (min (range.first + range.count) w.total_chunks - range.first)
            range.first now w v (ground (arith, e))).0
      | inr e ↦ rw (nothing_left range w.total_chunks e) v
    ]

acknowledge_ranges-IsWindow :
    (ranges : List FileAckRange) (now : ℕ) (w : FileSendWindow)
    → IsWindow w
    → IsWindow (acknowledge_ranges ranges now w)
unfolding acknowledge_ranges
acknowledge_ranges-IsWindow [] now w v = v
acknowledge_ranges-IsWindow (range ∷ ranges) now w v =
    acknowledge_ranges-IsWindow ranges now _ (clamped_range-IsWindow range now w v)

pub acknowledge-IsWindow :
    (ack : FileTransferAck) (now : ℕ) (w : FileSendWindow)
    → IsWindow w
    → IsWindow (acknowledge ack now w)
unfolding acknowledge
acknowledge-IsWindow ack now w v = ground (
  arith,
  v,
  acknowledge_ranges-IsWindow ack.ranges now (acknowledge_header ack now w)
      (SameChunks-IsWindow (acknowledge_header-SameChunks ack now w) v),
)

bit-replicate : (i n : ℕ) → bit i (replicate n false) ≡ false
unfolding bit
bit-replicate i zero = refl
bit-replicate zero (suc n) = refl
bit-replicate (suc i) (suc n) = bit-replicate i n

fresh-IsWindow :
    (w : FileSendWindow)
    → w.in_flight ≡ []
    → w.next_chunk ≡ 0
    → w.acknowledged_count ≡ 0
    → w.acknowledged ≡ replicate w.total_chunks false
    → IsWindow w
unfolding find count_set
fresh-IsWindow w e f g h = record {
  sorted = rw e tt;
  unacknowledged = λ i j. ground (arith, e, j);
  started = λ i j. ground (arith, e, j);
  accounted = λ i j. ground (arith, f, j);
  counted = g ∙ sym (ap count_set h ∙ count_set-none w.total_chunks);
  all_flags = ap length h ∙ length-replicate w.total_chunks false;
  within = omega (arith, f);
  room = rw e (omega arith);
}

pub reset-IsWindow :
    (total now : ℕ) (w : FileSendWindow) → IsWindow w → IsWindow (reset total now w).1
unfolding reset
reset-IsWindow total now w v = ground (
  arith,
  v,
  fresh-IsWindow
      (record {
        config = w.config;
        total_chunks = total;
        next_chunk = 0;
        acknowledged_count = 0;
        header_sent = false;
        header_received = false;
        failed = false;
        header_retransmissions = 0;
        header_sent_at = now;
        rto = w.config.initial_rto;
        in_flight = [];
        acknowledged = replicate total false;
      })
      refl refl refl refl,
)

-- The calls on a window.
pub data WindowCall : Type 0 where
  call_reset : ℕ → ℕ → WindowCall
  call_poll : ℕ → WindowCall
  call_acknowledge : FileTransferAck → ℕ → WindowCall
  call_cancel : WindowCall

unfoldable pub call : WindowCall → FileSendWindow → FileSendWindow
unfolding reset poll acknowledge cancel
call (call_reset total now) w = (reset total now w).1
call (call_poll now) w = (poll now w).1
call (call_acknowledge ack now) w = acknowledge ack now w
call call_cancel w = cancel w

unfoldable pub run_calls : List WindowCall → FileSendWindow → FileSendWindow
unfolding call
run_calls [] w = w
run_calls (c ∷ calls) w = run_calls calls (call c w)

pub call-IsWindow : (c : WindowCall) (w : FileSendWindow) → IsWindow w → IsWindow (call c w)
unfolding call cancel
call-IsWindow (call_reset total now) w v = reset-IsWindow total now w v
call-IsWindow (call_poll now) w v = poll-IsWindow now w v
call-IsWindow (call_acknowledge ack now) w v = acknowledge-IsWindow ack now w v
call-IsWindow call_cancel w v =
    SameChunks-IsWindow
      (record {
        same_in_flight = refl;
        same_flags = refl;
        same_next = refl;
        same_count = refl;
        same_total = refl;
        same_config = refl;
      })
      v

run_calls-from :
    (calls : List WindowCall) (w : FileSendWindow) → IsWindow w → IsWindow (run_calls calls w)
unfolding run_calls
run_calls-from [] w v = v
run_calls-from (c ∷ calls) w v = run_calls-from calls (call c w) (call-IsWindow c w v)

pub construct-IsWindow : (config : FileSendWindowConfig) → IsWindow (construct config)
unfolding construct
construct-IsWindow config = fresh-IsWindow _ refl refl refl refl

-- After any calls of reset, poll, acknowledge and cancel on a new window: no more chunks are in
-- flight than the window has room for, each of them has been started and is not acknowledged, every
-- chunk that has been started is in flight or acknowledged, and the count is that of the chunks
-- acknowledged.
pub run_calls-IsWindow :
    (config : FileSendWindowConfig) (calls : List WindowCall)
    → IsWindow (run_calls calls (construct config))
run_calls-IsWindow config calls =
    run_calls-from calls (construct config) (construct-IsWindow config)
