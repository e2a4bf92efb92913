-- ===== src/FileTransfer/SendWindow.antt =====
-- FileSendWindow of src/file/transfer.cpp: which chunks of a file are on their way. A time is a
-- number of nanoseconds of the steady clock; the time-outs are milliseconds, and none is below 0. A
-- difference of times is 0 where the program's is below 0: `reset` makes every time-out positive, so
-- both are below the time-out, and both are raised to the least one.
pub mod Invariant
pub mod Keeps
pub mod Budget
pub mod Progress
mod Tests
use aegis.Prelude.{
  ℕ, zero, suc, ◌+◌, ◌-◌, ◌*◌, ◌/◌, min, Bool, true, false, ◌&&◌, ◌||◌, not, Option, none, some,
  List, [], ◌∷◌, ◌++◌, length, replicate, ltb, leb, ◌==◌, if◌then◌else◌,
}
use aegis.Prelude.Maps.{Map, find, insert, erase, has}
use aegis.FileTransfer.{file_transfer_max_chunks}
use aegis.FileTransfer.Tracker.{FileAckRange, bit, set_bit}
use aegis.FileTransfer.Codec.{FileTransferAck}

pub record FileSendAction : Type 0 where
  pub send_header : Bool
  pub chunks : List ℕ

pub record FileSendWindowConfig : Type 0 where
  pub window_size : ℕ
  pub retry_limit : ℕ
  pub initial_rto : ℕ
  pub minimum_rto : ℕ
  pub maximum_rto : ℕ

pub record InFlightChunk : Type 0 where
  pub sent_at : ℕ
  pub retransmissions : ℕ

pub record FileSendWindow : Type 0 where
  pub config : FileSendWindowConfig
  pub total_chunks : ℕ
  pub next_chunk : ℕ
  pub acknowledged_count : ℕ
  pub header_sent : Bool
  pub header_received : Bool
  pub failed : Bool
  pub header_retransmissions : ℕ
  pub header_sent_at : ℕ
  pub rto : ℕ
  pub in_flight : Map InFlightChunk
  pub acknowledged : List Bool

abbrev pub default_config : FileSendWindowConfig
default_config = record {
  window_size = 32;
  retry_limit = 5;
  initial_rto = 250;
  minimum_rto = 100;
  maximum_rto = 2000;
}

unfoldable construct : FileSendWindowConfig → FileSendWindow
construct config = record {
  config = config;
  total_chunks = 0;
  next_chunk = 0;
  acknowledged_count = 0;
  header_sent = false;
  header_received = false;
  failed = false;
  header_retransmissions = 0;
  header_sent_at = 0;
  rto = config.initial_rto;
  in_flight = [];
  acknowledged = [];
}

unfoldable reset : ℕ → ℕ → FileSendWindow → Bool × FileSendWindow
reset total_chunks now w =
    if total_chunks == 0
      || ltb file_transfer_max_chunks total_chunks
      || w.config.window_size == 0
      || w.config.retry_limit == 0
      || w.config.minimum_rto == 0
      || ltb w.config.initial_rto w.config.minimum_rto
      || ltb w.config.maximum_rto w.config.initial_rto
    then (false, w)
    else (
      true,
      record {
        config = w.config;
        total_chunks = total_chunks;
        next_chunk = 0;
        acknowledged_count = 0;
        header_sent = false;
        header_received = false;
        failed = false;
        header_retransmissions = 0;
        header_sent_at = now;
        rto = w.config.initial_rto;
        in_flight = [];
        acknowledged = replicate total_chunks false;
      },
    )

unfoldable complete : FileSendWindow → Bool
complete w = not (w.total_chunks == 0) && w.acknowledged_count == w.total_chunks

abbrev nanoseconds_of : ℕ → ℕ
nanoseconds_of milliseconds = milliseconds * 1000000

-- `now - sent_at >= rto_`.
unfoldable is_overdue : ℕ → ℕ → ℕ → Bool
is_overdue rto sent_at now = leb (nanoseconds_of rto) (now - sent_at)

abbrev pub nothing : FileSendAction
nothing = record { send_header = false; chunks = [] }

abbrev the_header : FileSendAction
the_header = record { send_header = true; chunks = [] }

-- Before the receiver has confirmed the header.
unfoldable poll_header : ℕ → FileSendWindow → FileSendAction × FileSendWindow
poll_header now w =
    if not w.header_sent
    then (the_header, record w { header_sent = true; header_sent_at = now })
    else if not (is_overdue w.rto w.header_sent_at now)
    then (nothing, w)
    else if leb w.config.retry_limit w.header_retransmissions
    then (nothing, record w { failed = true })
    else (
      the_header,
      record w { header_retransmissions = suc w.header_retransmissions; header_sent_at = now },
    )

-- The loop over what is in flight. It stops at a chunk that has used all its retries: the first
-- result is whether it did.
unfoldable retransmit : ℕ → ℕ → ℕ → Map InFlightChunk → Bool × List ℕ × Map InFlightChunk
retransmit rto limit now [] = (false, [], [])
retransmit rto limit now ((index, chunk) ∷ in_flight) =
    let rest = retransmit rto limit now in_flight in
    if not (is_overdue rto chunk.sent_at now)
    then (rest.0, rest.1, (index, chunk) ∷ rest.2)
    else if leb limit chunk.retransmissions
    then (true, [], (index, chunk) ∷ in_flight)
    else (
      rest.0,
      index ∷ rest.1,
      (index, record { sent_at = now; retransmissions = suc chunk.retransmissions }) ∷ rest.2,
    )

-- `in_flight_.emplace(index, …)`, which leaves an entry that is there.
unfoldable emplace : ℕ → ℕ → Map InFlightChunk → Map InFlightChunk
emplace index now in_flight =
    if has index in_flight
    then in_flight
    else insert index (record { sent_at = now; retransmissions = 0 }) in_flight

-- The loop that fills the window, with the number of chunks from `next_chunk_` to the end.
unfoldable fill : ℕ → ℕ → FileSendWindow → List ℕ × FileSendWindow
fill zero now w = ([], w)
fill (suc left) now w =
    let skipped = fill left now (record w { next_chunk = suc w.next_chunk }) in
    let sent = fill left now (record w {
      next_chunk = suc w.next_chunk;
      in_flight = emplace w.next_chunk now w.in_flight;
    }) in
    if not (ltb (length w.in_flight) w.config.window_size)
    then ([], w)
    else if bit w.next_chunk w.acknowledged
    then skipped
    else (w.next_chunk ∷ sent.0, sent.1)

-- After the receiver has confirmed the header.
unfoldable poll_chunks : ℕ → FileSendWindow → FileSendAction × FileSendWindow
poll_chunks now w =
    let (gave_up, again, in_flight) = retransmit w.rto w.config.retry_limit now w.in_flight in
    let sent = fill (w.total_chunks - w.next_chunk) now (record w { in_flight = in_flight }) in
    if gave_up
    then (nothing, record w { in_flight = in_flight; failed = true })
    else (record { send_header = false; chunks = again ++ sent.0 }, sent.1)

unfoldable poll : ℕ → FileSendWindow → FileSendAction × FileSendWindow
poll now w =
    if w.failed || complete w || w.total_chunks == 0
    then (nothing, w)
    else if not w.header_received
    then poll_header now w
    else poll_chunks now w

-- `duration_cast<milliseconds>(sample) * 2`, between the two limits.
unfoldable observe_rtt : ℕ → FileSendWindow → FileSendWindow
observe_rtt sample w =
    let measured = sample / 1000000 * 2 in
    let measured = if ltb measured w.config.minimum_rto then w.config.minimum_rto else measured in
    let measured = if ltb w.config.maximum_rto measured then w.config.maximum_rto else measured in
    record w { rto = measured }

unfoldable observe_chunk : Option InFlightChunk → ℕ → FileSendWindow → FileSendWindow
observe_chunk none now w = w
observe_chunk (some chunk) now w =
    if chunk.retransmissions == 0 then observe_rtt (now - chunk.sent_at) w else w

-- One chunk of a range.
unfoldable acknowledge_chunk : ℕ → ℕ → FileSendWindow → FileSendWindow
acknowledge_chunk index now w =
    if bit index w.acknowledged
    then w
    else let w = observe_chunk (find index w.in_flight) now w in
      record w {
        acknowledged = set_bit index true w.acknowledged;
        acknowledged_count = suc w.acknowledged_count;
        in_flight = erase index w.in_flight;
      }

-- The chunks of a range, with the number of those up to its end.
unfoldable acknowledge_range : ℕ → ℕ → ℕ → FileSendWindow → FileSendWindow
acknowledge_range zero index now w = w
acknowledge_range (suc left) index now w =
    acknowledge_range left (suc index) now (acknowledge_chunk index now w)

unfoldable acknowledge_ranges : List FileAckRange → ℕ → FileSendWindow → FileSendWindow
acknowledge_ranges [] now w = w
acknowledge_ranges (range ∷ ranges) now w =
    let end = min (range.first + range.count) w.total_chunks in
    acknowledge_ranges ranges now (acknowledge_range (end - range.first) range.first now w)

-- A header that was sent once gives a measurement.
unfoldable observe_header : ℕ → FileSendWindow → FileSendWindow
observe_header now w =
    if w.header_sent && w.header_retransmissions == 0
    then observe_rtt (now - w.header_sent_at) w
    else w

unfoldable acknowledge_header : FileTransferAck → ℕ → FileSendWindow → FileSendWindow
acknowledge_header ack now w =
    if ack.header_received && not w.header_received
    then record (observe_header now w) { header_received = true }
    else w

unfoldable acknowledge : FileTransferAck → ℕ → FileSendWindow → FileSendWindow
acknowledge ack now w =
    if w.failed || w.total_chunks == 0
    then w
    else acknowledge_ranges ack.ranges now (acknowledge_header ack now w)

unfoldable cancel : FileSendWindow → FileSendWindow
cancel w = record w { failed = true }
