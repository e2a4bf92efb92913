-- ===== src/FileTransfer/SendWindow/Tests.antt =====
-- A window of two chunks for a file of three, in the code of src/file/transfer.cpp.
use aegis.Prelude.{◌*◌, ◌≤◌, true, List, [], ◌∷◌, length, arith, ◌≡◌, ◌⊎◌, refl}
use aegis.Prelude.Maps.{find, insert, erase_if}
use aegis.FileTransfer.Tracker.{bit, set_bit}
use aegis.FileTransfer.Codec.{FileTransferAck}
use aegis.FileTransfer.SendWindow.{
  FileSendWindow, FileSendWindowConfig, construct, reset, poll, poll_header, poll_chunks,
  retransmit, emplace, fill, is_overdue, observe_rtt, observe_chunk, observe_header,
  acknowledge_chunk, acknowledge_range, acknowledge_ranges, acknowledge_header, acknowledge,
  complete,
}
use aegis.FileTransfer.SendWindow.Invariant.{IsWindow}
use aegis.FileTransfer.SendWindow.Keeps.{
  WindowCall, call, call_reset, call_poll, call_acknowledge, run_calls, run_calls-IsWindow,
}
use aegis.FileTransfer.SendWindow.Progress.{sent_by, sent_in, sent_in-bounded, poll-waits}

abbrev config : FileSendWindowConfig
config = record {
  window_size = 2;
  retry_limit = 5;
  initial_rto = 250;
  minimum_rto = 100;
  maximum_rto = 2000;
}

abbrev header_ack : FileTransferAck
header_ack = record { transfer_id = 7; header_received = true; ranges = [] }

abbrev chunk_ack : FileTransferAck
chunk_ack = record {
  transfer_id = 7;
  header_received = true;
  ranges = record { first = 1; count = 1 } ∷ [];
}

-- The header, its confirmation, two chunks, the second of them acknowledged, and the third.
abbrev calls : List WindowCall
calls =
    call_poll 0
    ∷ call_acknowledge header_ack 40000000
    ∷ call_poll 50000000
    ∷ call_acknowledge chunk_ack 90000000
    ∷ call_poll 95000000
    ∷ []

abbrev started : FileSendWindow
started = run_calls (call_reset 3 0 ∷ []) (construct config)

-- Four transmissions of a chunk would be one too many.
sent_three : sent_in calls started ≡ 3
unfolding run_calls sent_in sent_by call construct reset poll poll_header poll_chunks retransmit
    emplace fill is_overdue observe_rtt observe_chunk observe_header acknowledge_chunk
    acknowledge_range acknowledge_ranges acknowledge_header acknowledge complete bit set_bit find
    insert erase_if
sent_three = refl

run_calls-IsWindow_example : IsWindow (run_calls (call_reset 3 0 ∷ calls) (construct config))
run_calls-IsWindow_example = run_calls-IsWindow config (call_reset 3 0 ∷ calls)

sent_in-bounded_example : sent_in calls (reset 3 0 (construct config)).1 ≤ 3 * 6
unfolding construct reset run_calls
sent_in-bounded_example =
    sent_in-bounded 3 0 (construct config) (reset 3 0 (construct config)).1 calls
      (run_calls-IsWindow config []) refl (refl, (refl, (refl, (refl, (refl, tt)))))

abbrev confirmed : FileSendWindow
confirmed =
    run_calls (call_reset 3 0 ∷ call_poll 0 ∷ call_acknowledge header_ack 40000000 ∷ [])
      (construct config)

poll-waits_example :
    ((poll 50000000 confirmed).1.failed ≡ true) ⊎ (1 ≤ length (poll 50000000 confirmed).1.in_flight)
unfolding run_calls call construct reset poll poll_header is_overdue observe_rtt observe_header
    acknowledge_ranges acknowledge_header acknowledge complete
poll-waits_example =
    poll-waits 50000000 confirmed
      (run_calls-IsWindow config
        (call_reset 3 0 ∷ call_poll 0 ∷ call_acknowledge header_ack 40000000 ∷ []))
      (omega arith) refl refl (omega arith) refl
