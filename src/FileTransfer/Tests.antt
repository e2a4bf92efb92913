-- ===== src/FileTransfer/Tests.antt =====
-- A file of three chunks, sent and received by the code of src/file/transfer.cpp.
use aegis.Prelude.{
  ℕ, ◌^◌, ◌<◌, ◌≤◌, true, false, none, some, List, [], ◌∷◌, replicate, ◌>>=◌, arith, ◌≡◌, ◌↔◌, refl,
  codes,
}
use aegis.FileTransfer.{
  FileTransferHeader, FileTransferChunk, ascii_iequals, stem_of, is_reserved_windows_name, back,
  is_forbidden, none_forbidden, is_safe_file_name, last_part, sanitize_file_name,
  file_transfer_chunk_count, is_valid_file_header, is_valid_file_chunk, expected_size,
  is_valid_file_chunk_for_header, file_transfer_max_chunk_size,
}
use aegis.FileTransfer.Names.{IsPlain, sanitize_file_name_lem}
use aegis.FileTransfer.Sizes.{bytes_before, bytes_before-total}
use aegis.FileTransfer.Tracker.{
  FileChunkTracker, FileAckRange, new_tracker, bit, set_bit, leading_run, reset, record_chunk,
  remove, received, complete, ranges_from, run_start, prefix_ranges, focus_range,
  acknowledged_ranges,
}
use aegis.FileTransfer.Tracker.Invariant.{
  IsTracker, TrackerCall, call_reset, call_record, call_remove, run_calls, run_calls-IsTracker,
  complete_iff,
}
use aegis.FileTransfer.Codec.{
  FileTransferAck, serialize_file_header, deserialize_file_header, serialize_file_chunk,
  deserialize_file_chunk, serialize_file_ack, deserialize_file_ack,
}
use aegis.FileTransfer.Codec.RoundTrip.{
  IsHeader, deserialize-serialize_header, deserialize-serialize_chunk,
}
use aegis.FileTransfer.Codec.Acks.{IsAck, deserialize-serialize_ack}
use aegis.FileTransfer.Acknowledged.{covered}
use aegis.FileTransfer.Acknowledged.Reports.{
  acknowledged_ranges-IsAck, covered-received, received-covered,
}

abbrev header : FileTransferHeader
header = record {
  transfer_id = 7;
  file_size = 1200;
  chunk_size = 512;
  total_chunks = 3;
  content_hash = replicate 32 9;
  filename = codes "notes.txt";
}

abbrev last_chunk : FileTransferChunk
last_chunk = record { transfer_id = 7; chunk_index = 2; data_bytes = replicate 176 1 }

notes_safe : is_safe_file_name (codes "notes.txt") ≡ true
unfolding is_safe_file_name ascii_iequals stem_of is_reserved_windows_name back is_forbidden
    none_forbidden
notes_safe = refl

device_refused : is_safe_file_name (codes "com1.txt") ≡ false
unfolding is_safe_file_name ascii_iequals stem_of is_reserved_windows_name back is_forbidden
    none_forbidden
device_refused = refl

traversal_cut : sanitize_file_name (codes "../up/notes.txt") ≡ some (codes "notes.txt")
unfolding sanitize_file_name last_part is_safe_file_name ascii_iequals stem_of
    is_reserved_windows_name back is_forbidden none_forbidden
traversal_cut = refl

header_valid : is_valid_file_header header ≡ true
unfolding is_valid_file_header file_transfer_chunk_count is_safe_file_name ascii_iequals stem_of
    is_reserved_windows_name back is_forbidden none_forbidden
header_valid = refl

last_fits : is_valid_file_chunk_for_header header last_chunk ≡ true
unfolding is_valid_file_chunk_for_header expected_size is_valid_file_chunk is_valid_file_header
    file_transfer_chunk_count is_safe_file_name ascii_iequals stem_of is_reserved_windows_name back
    is_forbidden none_forbidden
last_fits = refl

sanitize_file_name_lem_example :
    (is_safe_file_name (codes "notes.txt") ≡ true)
    × IsPlain (codes "notes.txt")
    × (sanitize_file_name (codes "notes.txt") ≡ some (codes "notes.txt"))
sanitize_file_name_lem_example =
    sanitize_file_name_lem (codes "../up/notes.txt") (codes "notes.txt") traversal_cut

bytes_before-total_example :
    (bytes_before header 3 ≡ 1200)
    × (3 ≤ 2 ^ 21)
    × ((index : ℕ) → index < 3 → expected_size header index ≤ file_transfer_max_chunk_size)
bytes_before-total_example = bytes_before-total header header_valid

-- The first and the last chunk have arrived, and chunk 1 arrived and was removed.
abbrev calls : List TrackerCall
calls = call_reset 3 ∷ call_record 2 ∷ call_record 1 ∷ call_record 0 ∷ call_remove 1 ∷ []

abbrev partly_received : FileChunkTracker
partly_received = record {
  received_bits = true ∷ false ∷ true ∷ [];
  received_count = 2;
  contiguous_received = 1;
}

calls_run : run_calls calls new_tracker ≡ partly_received
unfolding run_calls reset record_chunk remove bit set_bit leading_run
calls_run = refl

partly-IsTracker : IsTracker partly_received
partly-IsTracker = rw⁻¹ calls_run (run_calls-IsTracker calls)

run_calls-IsTracker_example : IsTracker (run_calls calls new_tracker)
run_calls-IsTracker_example = run_calls-IsTracker calls

complete_iff_example :
    (complete partly_received ≡ true)
    ↔ ((1 ≤ 3) × ((index : ℕ) → index < 3 → received index partly_received ≡ true))
unfolding complete
complete_iff_example = complete_iff partly_received partly-IsTracker

abbrev reported : List FileAckRange
reported = record { first = 0; count = 1 } ∷ record { first = 2; count = 1 } ∷ []

ranges_reported : acknowledged_ranges none 32 partly_received ≡ reported
unfolding acknowledged_ranges prefix_ranges ranges_from
ranges_reported = refl

focus_reported : acknowledged_ranges (some 2) 32 partly_received ≡ reported
unfolding acknowledged_ranges prefix_ranges focus_range run_start bit leading_run
focus_reported = refl

acknowledged_ranges-IsAck_example : IsAck (record {
  transfer_id = 7;
  header_received = true;
  ranges = acknowledged_ranges (some 2) 32 partly_received;
})
acknowledged_ranges-IsAck_example =
    acknowledged_ranges-IsAck (some 2) 32 7 true partly_received partly-IsTracker (omega arith)
      (omega arith) (omega arith)

covered-received_example : received 2 partly_received ≡ true
unfolding covered acknowledged_ranges prefix_ranges ranges_from
covered-received_example = covered-received 2 none 32 partly_received partly-IsTracker refl

received-covered_example : covered 2 (acknowledged_ranges none 32 partly_received) ≡ true
unfolding received bit acknowledged_ranges prefix_ranges ranges_from
received-covered_example = received-covered 2 32 partly_received partly-IsTracker refl (omega arith)

header-IsHeader : IsHeader header
header-IsHeader = record { id_fits = omega arith; hash_size = refl; accepted = header_valid }

deserialize-serialize_header_example :
    (serialize_file_header header >>= deserialize_file_header) ≡ some header
unfolding serialize_file_header deserialize_file_header
deserialize-serialize_header_example = deserialize-serialize_header header header-IsHeader

deserialize-serialize_chunk_example :
    (serialize_file_chunk last_chunk >>= deserialize_file_chunk) ≡ some last_chunk
unfolding serialize_file_chunk deserialize_file_chunk is_valid_file_chunk
deserialize-serialize_chunk_example = deserialize-serialize_chunk last_chunk (omega arith) refl

abbrev ack : FileTransferAck
ack = record { transfer_id = 7; header_received = true; ranges = reported }

deserialize-serialize_ack_example : (serialize_file_ack ack >>= deserialize_file_ack) ≡ some ack
unfolding serialize_file_ack deserialize_file_ack
deserialize-serialize_ack_example =
    deserialize-serialize_ack ack (rw⁻¹ focus_reported acknowledged_ranges-IsAck_example)
