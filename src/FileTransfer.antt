-- ===== src/FileTransfer.antt =====
-- src/file/transfer.cpp and include/aegis/file/transfer.hpp: the names, sizes and headers of file
-- transfers, and how many transfers are admitted. A name is the list of its bytes.
mod Names
mod Sizes
pub mod Tracker
pub mod Codec
pub mod Acknowledged
pub mod SendWindow
mod Tests
use aegis.Prelude.{
  ℕ, suc, ◌+◌, ◌-◌, ◌*◌, ◌/◌, min, Bool, true, false, ◌&&◌, ◌||◌, not, Option, none, some, List, [],
  ◌∷◌, length, take, drop, ltb, leb, ◌==◌, if◌then◌else◌, list_eq, codes,
}
use aegis.Header.{session_max_logical_payload_size}

abbrev file_chunk_fixed_size : ℕ
file_chunk_fixed_size = 16

abbrev file_transfer_max_name_bytes : ℕ
file_transfer_max_name_bytes = 255

abbrev pub file_transfer_min_chunk_size : ℕ
file_transfer_min_chunk_size = 512

abbrev pub file_transfer_max_chunk_size : ℕ
file_transfer_max_chunk_size = session_max_logical_payload_size - file_chunk_fixed_size

abbrev pub file_transfer_max_file_size : ℕ
file_transfer_max_file_size = 1024 * 1024 * 1024

abbrev pub file_transfer_max_chunks : ℕ
file_transfer_max_chunks =
    (file_transfer_max_file_size + file_transfer_min_chunk_size - 1) / file_transfer_min_chunk_size

abbrev pub file_transfer_max_active_per_peer : ℕ
file_transfer_max_active_per_peer = 4

abbrev pub file_transfer_max_active_global : ℕ
file_transfer_max_active_global = 32

abbrev pub file_transfer_max_reserved_per_peer : ℕ
file_transfer_max_reserved_per_peer = 2 * file_transfer_max_file_size

abbrev pub file_transfer_max_reserved_global : ℕ
file_transfer_max_reserved_global = 8 * file_transfer_max_file_size

-- Five minutes, in nanoseconds.
abbrev file_transfer_idle_timeout : ℕ
file_transfer_idle_timeout = 5 * 60 * 1000000000

pub record FileTransferHeader : Type 0 where
  pub transfer_id : ℕ
  pub file_size : ℕ
  pub chunk_size : ℕ
  pub total_chunks : ℕ
  pub content_hash : List ℕ
  pub filename : List ℕ

pub record FileTransferChunk : Type 0 where
  pub transfer_id : ℕ
  pub chunk_index : ℕ
  pub data_bytes : List ℕ

abbrev ascii_upper : ℕ → ℕ
ascii_upper value = if leb 97 value && leb value 122 then value - 32 else value

unfoldable ascii_iequals : List ℕ → List ℕ → Bool
ascii_iequals [] [] = true
ascii_iequals [] (y ∷ ys) = false
ascii_iequals (x ∷ xs) [] = false
ascii_iequals (x ∷ xs) (y ∷ ys) = ascii_upper x == y && ascii_iequals xs ys

-- `filename.substr(0, filename.find('.'))`.
unfoldable stem_of : List ℕ → List ℕ
stem_of [] = []
stem_of (c ∷ cs) = if c == 46 then [] else c ∷ stem_of cs

-- The digit behind COM or LPT.
abbrev is_device_digit : List ℕ → Bool
is_device_digit (c ∷ []) = leb 49 c && leb c 57
is_device_digit _ = false

unfoldable is_reserved_windows_name : List ℕ → Bool
is_reserved_windows_name filename =
    let stem = stem_of filename in
    ascii_iequals stem (codes "CON")
    || ascii_iequals stem (codes "PRN")
    || ascii_iequals stem (codes "AUX")
    || ascii_iequals stem (codes "NUL")
    || ascii_iequals stem (codes "CONIN$")
    || ascii_iequals stem (codes "CONOUT$")
    || (length stem == 4
        && is_device_digit (drop 3 stem)
        && (ascii_iequals (take 3 stem) (codes "COM") || ascii_iequals (take 3 stem) (codes "LPT")))

-- `filename.back()`; the name is not empty.
unfoldable back : List ℕ → ℕ
back [] = 0
back (c ∷ []) = c
back (c ∷ d ∷ cs) = back (d ∷ cs)

-- Control bytes and `"*/:<>?\|`.
unfoldable is_forbidden : ℕ → Bool
is_forbidden value =
    ltb value 32
    || value == 127
    || value == 34
    || value == 42
    || value == 47
    || value == 58
    || value == 60
    || value == 62
    || value == 63
    || value == 92
    || value == 124

unfoldable none_forbidden : List ℕ → Bool
none_forbidden [] = true
none_forbidden (c ∷ cs) = if is_forbidden c then false else none_forbidden cs

unfoldable is_safe_file_name : List ℕ → Bool
is_safe_file_name filename =
    if length filename == 0
      || ltb file_transfer_max_name_bytes (length filename)
      || list_eq filename (codes ".")
      || list_eq filename (codes "..")
      || back filename == 46
      || back filename == 32
      || is_reserved_windows_name filename
    then false
    else none_forbidden filename

abbrev pub is_separator : ℕ → Bool
is_separator c = c == 47 || c == 92

-- What follows the last separator, or everything.
unfoldable last_part : List ℕ → List ℕ → List ℕ
last_part suffix [] = suffix
last_part suffix (c ∷ cs) = if is_separator c then last_part cs cs else last_part suffix cs

unfoldable sanitize_file_name : List ℕ → Option (List ℕ)
sanitize_file_name path =
    let filename = last_part path path in
    if not (is_safe_file_name filename) then none else some filename

unfoldable file_chunk_size_for_overlay_mtu : ℕ → Option ℕ
file_chunk_size_for_overlay_mtu overlay_mtu =
    let payload_budget = min overlay_mtu session_max_logical_payload_size in
    if ltb payload_budget (file_chunk_fixed_size + file_transfer_min_chunk_size)
    then none
    else some (payload_budget - file_chunk_fixed_size)

unfoldable file_transfer_chunk_count : ℕ → ℕ → ℕ
file_transfer_chunk_count file_size chunk_size =
    if ltb file_transfer_max_file_size file_size
      || ltb chunk_size file_transfer_min_chunk_size
      || ltb file_transfer_max_chunk_size chunk_size
    then 0
    else if file_size == 0
    then 1
    else 1 + (file_size - 1) / chunk_size

unfoldable is_valid_file_header : FileTransferHeader → Bool
is_valid_file_header header =
    let expected_chunks = file_transfer_chunk_count header.file_size header.chunk_size in
    not (header.transfer_id == 0)
    && not (expected_chunks == 0)
    && header.total_chunks == expected_chunks
    && is_safe_file_name header.filename

unfoldable is_valid_file_chunk : FileTransferChunk → Bool
is_valid_file_chunk chunk =
    not (chunk.transfer_id == 0)
    && ltb chunk.chunk_index file_transfer_max_chunks
    && leb (length chunk.data_bytes) file_transfer_max_chunk_size

-- The size that a chunk of a header must have.
unfoldable expected_size : FileTransferHeader → ℕ → ℕ
expected_size header chunk_index =
    if suc chunk_index == header.total_chunks
    then header.file_size - chunk_index * header.chunk_size
    else header.chunk_size

unfoldable is_valid_file_chunk_for_header : FileTransferHeader → FileTransferChunk → Bool
is_valid_file_chunk_for_header header chunk =
    if not (is_valid_file_header header)
      || not (is_valid_file_chunk chunk)
      || not (chunk.transfer_id == header.transfer_id)
      || leb header.total_chunks chunk.chunk_index
    then false
    else length chunk.data_bytes == expected_size header chunk.chunk_index

-- The two differences do not go below 0, because a request is at most one file.
unfoldable file_transfer_admission_allowed : ℕ → ℕ → ℕ → ℕ → ℕ → Bool
file_transfer_admission_allowed peer_count peer_bytes global_count global_bytes requested_bytes =
    if ltb file_transfer_max_file_size requested_bytes
      || leb file_transfer_max_active_per_peer peer_count
      || leb file_transfer_max_active_global global_count
    then false
    else if ltb (file_transfer_max_reserved_per_peer - requested_bytes) peer_bytes
        || ltb (file_transfer_max_reserved_global - requested_bytes) global_bytes
    then false
    else true

-- Times are in nanoseconds.
unfoldable file_transfer_idle_expired : ℕ → ℕ → Bool
file_transfer_idle_expired last_activity now =
    leb last_activity now && leb file_transfer_idle_timeout (now - last_activity)
