-- ===== src/FileTransfer/SendWindow/Invariant.antt =====
-- What FileSendWindow of src/file/transfer.cpp keeps true of itself.
use aegis.Prelude.{
  ℕ, suc, ◌<◌, ◌≤◌, true, false, ◌||◌, [], ◌∷◌, length, ◌==◌, arith, ◌≡◌, refl, ap, ◌∙◌, sym,
}
use aegis.Prelude.Maps.{Map, find, has, Above, IsSorted, find-insert, insert-Above, length-insert}
use aegis.FileTransfer.Tracker.{bit}
use aegis.FileTransfer.Tracker.Bits.{count_set}
use aegis.FileTransfer.SendWindow.{FileSendWindow, InFlightChunk, retransmit, emplace}

-- Each chunk before `next_chunk` is acknowledged or in flight, and only those are in flight that
-- are not acknowledged.
pub record IsWindow (w : FileSendWindow) : Type 0 where
  pub sorted : IsSorted w.in_flight
  pub unacknowledged : (i : ℕ) → has i w.in_flight ≡ true → bit i w.acknowledged ≡ false
  pub started : (i : ℕ) → has i w.in_flight ≡ true → i < w.next_chunk
  pub accounted : (i : ℕ) → i < w.next_chunk → (bit i w.acknowledged || has i w.in_flight) ≡ true
  pub counted : w.acknowledged_count ≡ count_set w.acknowledged
  pub all_flags : length w.acknowledged ≡ w.total_chunks
  pub within : w.next_chunk ≤ w.total_chunks
  pub room : length w.in_flight ≤ w.config.window_size

-- The loop of retransmissions keeps the chunks that are in flight.
retransmit-has :
    (rto limit now i : ℕ) (m : Map InFlightChunk) → has i (retransmit rto limit now m).2 ≡ has i m
unfolding retransmit find
retransmit-has rto limit now i [] = refl
retransmit-has rto limit now i ((j, c) ∷ m) = ground (arith, retransmit-has rto limit now i m)

retransmit-Above :
    (rto limit now lo : ℕ) (m : Map InFlightChunk)
    → Above lo m
    → Above lo (retransmit rto limit now m).2
unfolding retransmit
retransmit-Above rto limit now lo [] s = tt
retransmit-Above rto limit now lo ((j, c) ∷ m) s =
    ground (arith, retransmit-Above rto limit now (suc j) m)

length-retransmit :
    (rto limit now : ℕ) (m : Map InFlightChunk) → length (retransmit rto limit now m).2 ≡ length m
unfolding retransmit
length-retransmit rto limit now [] = refl
length-retransmit rto limit now ((j, c) ∷ m) = ground (arith, length-retransmit rto limit now m)

pub retransmitted-IsWindow :
    (now : ℕ) (w : FileSendWindow)
    → IsWindow w
    → IsWindow (record w { in_flight = (retransmit w.rto w.config.retry_limit now w.in_flight).2 })
retransmitted-IsWindow now w v =
    let same = retransmit-has w.rto w.config.retry_limit now in
    record {
      sorted = retransmit-Above w.rto w.config.retry_limit now 0 w.in_flight v.sorted;
      unacknowledged = λ i h. v.unacknowledged i (sym (same i w.in_flight) ∙ h);
      started = λ i h. v.started i (sym (same i w.in_flight) ∙ h);
      accounted = λ i h. ap (λ b. bit i w.acknowledged || b) (same i w.in_flight) ∙ v.accounted i h;
      counted = v.counted;
      all_flags = v.all_flags;
      within = v.within;
      room = omega (arith, v.room, length-retransmit w.rto w.config.retry_limit now w.in_flight);
    }

pub skipped-IsWindow :
    (w : FileSendWindow)
    → IsWindow w
    → w.next_chunk < w.total_chunks
    → bit w.next_chunk w.acknowledged ≡ true
    → IsWindow (record w { next_chunk = suc w.next_chunk })
skipped-IsWindow w v h k = record {
  sorted = v.sorted;
  unacknowledged = v.unacknowledged;
  started = λ i j. omega (arith, v.started i j);
  accounted = λ i j. ground (arith, v.accounted i, k);
  counted = v.counted;
  all_flags = v.all_flags;
  within = omega (arith, h);
  room = v.room;
}

has-emplace :
    (i index now : ℕ) (m : Map InFlightChunk)
    → has i (emplace index now m) ≡ (index == i || has i m)
unfolding emplace
has-emplace i index now m =
    ground (arith, find-insert index i (record { sent_at = now; retransmissions = 0 }) m)

emplace-Above :
    (index now : ℕ) (m : Map InFlightChunk) → IsSorted m → IsSorted (emplace index now m)
unfolding emplace
emplace-Above index now m s =
    ground (
      arith,
      insert-Above 0 index (record { sent_at = now; retransmissions = 0 }) m (omega arith) s,
    )

length-emplace :
    (index now : ℕ) (m : Map InFlightChunk)
    → IsSorted m
    → length (emplace index now m) ≤ suc (length m)
unfolding emplace
length-emplace index now m s =
    ground (arith, length-insert index (record { sent_at = now; retransmissions = 0 }) m s)

pub sent-IsWindow :
    (now : ℕ) (w : FileSendWindow)
    → IsWindow w
    → w.next_chunk < w.total_chunks
    → bit w.next_chunk w.acknowledged ≡ false
    → length w.in_flight < w.config.window_size
    → IsWindow (record w {
      next_chunk = suc w.next_chunk;
      in_flight = emplace w.next_chunk now w.in_flight;
    })
sent-IsWindow now w v h k l = record {
  sorted = emplace-Above w.next_chunk now w.in_flight v.sorted;
  unacknowledged =
      λ i j. ground (arith, has-emplace i w.next_chunk now w.in_flight, v.unacknowledged i, k, j);
  started = λ i j. ground (arith, has-emplace i w.next_chunk now w.in_flight, v.started i, j);
  accounted = λ i j. ground (arith, has-emplace i w.next_chunk now w.in_flight, v.accounted i, j);
  counted = v.counted;
  all_flags = v.all_flags;
  within = omega (arith, h);
  room = omega (arith, l, length-emplace w.next_chunk now w.in_flight v.sorted);
}
