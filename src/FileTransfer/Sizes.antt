-- ===== src/FileTransfer/Sizes.antt =====
-- The sizes in src/file/transfer.cpp: the chunks of a file and the memory that is reserved.
use aegis.Prelude.{
  ℕ, zero, suc, ◌+◌, ◌*◌, ◌-◌, ◌/◌, ◌^◌, ◌≤◌, ◌<◌, true, Option, none, some, ◌≡◌, ◌≢◌, ◌⊎◌, ◌↔◌,
  arith, inl, inr, ◌∙◌, ap,
}
use native.Mathlib.Nat.{div-add-mod', mod-lt, mul-le-mul_left, suc-mul}
use aegis.FileTransfer.{
  FileTransferHeader, is_valid_file_header, file_chunk_size_for_overlay_mtu,
  file_transfer_chunk_count, expected_size, file_transfer_min_chunk_size,
  file_transfer_max_chunk_size, file_transfer_max_chunks, file_transfer_max_file_size,
  file_transfer_max_active_per_peer, file_transfer_max_active_global,
  file_transfer_max_reserved_per_peer, file_transfer_max_reserved_global,
  file_transfer_admission_allowed,
}
use aegis.Header.{session_max_logical_payload_size}

-- The sizes that the first chunks of a header must have, added up.
unfoldable pub bytes_before : FileTransferHeader → ℕ → ℕ
bytes_before header zero = 0
bytes_before header (suc index) = bytes_before header index + expected_size header index

bytes_before_last :
    (header : FileTransferHeader) (index : ℕ)
    → index < header.total_chunks
    → bytes_before header index ≡ index * header.chunk_size
unfolding expected_size bytes_before
bytes_before_last header zero h = omega arith
bytes_before_last header (suc index) h = ground (arith, bytes_before_last header index)

quotient_bounds : (n d : ℕ) → 1 ≤ d → (n / d * d ≤ n) × (n < n / d * d + d)
quotient_bounds n d h = omega (arith, div-add-mod' n d, mod-lt n h)

-- What a valid header says of its sizes.
pub record IsSized (header : FileTransferHeader) : Type 0 where
  pub some_chunks : 1 ≤ header.total_chunks
  pub chunks_bounded : header.total_chunks ≤ file_transfer_max_chunks
  pub size_bounded : header.file_size ≤ file_transfer_max_file_size
  pub chunk_large : file_transfer_min_chunk_size ≤ header.chunk_size
  pub chunk_small : header.chunk_size ≤ file_transfer_max_chunk_size
  pub last_fits : header.file_size ≤ header.total_chunks * header.chunk_size
  pub last_used : (header.total_chunks - 1) * header.chunk_size ≤ header.file_size

-- The same of a count that is written as a successor.
sized :
    (header : FileTransferHeader) (q : ℕ)
    → header.total_chunks ≡ suc q
    → header.file_size ≤ file_transfer_max_file_size
    → file_transfer_min_chunk_size ≤ header.chunk_size
    → header.chunk_size ≤ file_transfer_max_chunk_size
    → suc q ≤ file_transfer_max_chunks
    → header.file_size ≤ suc q * header.chunk_size
    → q * header.chunk_size ≤ header.file_size
    → IsSized header
sized header q e size low high few last before = record {
  some_chunks = omega arith;
  chunks_bounded = omega arith;
  size_bounded = size;
  chunk_large = low;
  chunk_small = high;
  last_fits = rw e last;
  last_used = rw (e, less_one) before;
}
  where
    less_one : suc q - 1 ≡ q
    less_one = omega arith

-- The two forms that a count other than 0 has.
file_transfer_chunk_count-cases :
    (file_size chunk_size : ℕ)
    → file_transfer_chunk_count file_size chunk_size ≢ 0
    → (file_size ≤ file_transfer_max_file_size)
      × (file_transfer_min_chunk_size ≤ chunk_size)
      × (chunk_size ≤ file_transfer_max_chunk_size)
      × (((file_size ≡ 0) × (file_transfer_chunk_count file_size chunk_size ≡ 1))
          ⊎ ((1 ≤ file_size)
              × (file_transfer_chunk_count file_size chunk_size
                  ≡ suc ((file_size - 1) / chunk_size))))
unfolding file_transfer_chunk_count
file_transfer_chunk_count-cases file_size chunk_size h = ground arith

is_valid_file_header-total :
    (header : FileTransferHeader)
    → is_valid_file_header header ≡ true
    → (header.total_chunks ≡ file_transfer_chunk_count header.file_size header.chunk_size)
      × (file_transfer_chunk_count header.file_size header.chunk_size ≢ 0)
unfolding is_valid_file_header
is_valid_file_header-total header h = ground arith

-- A count of chunks that is one more than a quotient.
rounded_up :
    (size chunk q : ℕ)
    → 1 ≤ size
    → size ≤ file_transfer_max_file_size
    → file_transfer_min_chunk_size ≤ chunk
    → q * chunk ≤ size - 1
    → size - 1 < q * chunk + chunk
    → (suc q ≤ file_transfer_max_chunks) × (size ≤ suc q * chunk) × (q * chunk ≤ size)
rounded_up size chunk q h k l below above = omega (arith, mul-le-mul_left q l, suc-mul q chunk)

pub is_valid_file_header-IsSized :
    (header : FileTransferHeader) → is_valid_file_header header ≡ true → IsSized header
is_valid_file_header-IsSized header h =
    let (total, used) = is_valid_file_header-total header h in
    let (size, low, high, cases) =
      file_transfer_chunk_count-cases header.file_size header.chunk_size used in
    elim cases [
      | inl (zero_size, one) ↦
          sized header 0 (total ∙ one) size low high (omega arith) (omega arith) (omega arith)
      | inr (positive, count) ↦
          let bounds = quotient_bounds (header.file_size - 1) header.chunk_size (omega arith) in
          let (few, last, before) =
            rounded_up header.file_size header.chunk_size
              ((header.file_size - 1) / header.chunk_size) positive size low bounds.0 bounds.1 in
          sized header ((header.file_size - 1) / header.chunk_size) (total ∙ count) size low high
            few last (before)
    ]

bytes_before_all :
    (header : FileTransferHeader) (q : ℕ)
    → header.total_chunks ≡ suc q
    → q * header.chunk_size ≤ header.file_size
    → bytes_before header (suc q) ≡ header.file_size
unfolding bytes_before expected_size
bytes_before_all header q e h = rw (bytes_before_last header q (omega arith)) (ground arith)

expected_size-le :
    (header : FileTransferHeader) (index : ℕ)
    → IsSized header
    → index < header.total_chunks
    → expected_size header index ≤ header.chunk_size
unfolding expected_size
expected_size-le header index sizes h =
    ground (arith, sizes.last_fits, suc-mul index header.chunk_size)

-- The sizes that a valid header fixes for its chunks add up to the size of the file; there are at
-- most 2 ^ 21 chunks, and none of them is larger than a payload has room for.
pub bytes_before-total :
    (header : FileTransferHeader)
    → is_valid_file_header header ≡ true
    → (bytes_before header header.total_chunks ≡ header.file_size)
      × (header.total_chunks ≤ 2 ^ 21)
      × ((index : ℕ)
          → index < header.total_chunks
          → expected_size header index ≤ file_transfer_max_chunk_size)
bytes_before-total header h =
    let sizes = is_valid_file_header-IsSized header h in
    (
      ap (bytes_before header) total_is
          ∙ bytes_before_all header (header.total_chunks - 1) total_is sizes.last_used,
      sizes.chunks_bounded,
      λ index below. omega (arith, expected_size-le header index sizes below, sizes.chunk_small),
    )
  where
    total_is : header.total_chunks ≡ suc (header.total_chunks - 1)
    total_is = omega (arith, (is_valid_file_header-IsSized header h).some_chunks)

-- A chunk of this size, with its 16 bytes in front, fits an MTU and a payload.
abbrev pub FitsMtu : ℕ → Option ℕ → Type 0
FitsMtu overlay_mtu none = overlay_mtu < 16 + file_transfer_min_chunk_size
FitsMtu overlay_mtu (some size) =
    (file_transfer_min_chunk_size ≤ size)
    × (size ≤ file_transfer_max_chunk_size)
    × (16 + size ≤ overlay_mtu)
    × (16 + size ≤ session_max_logical_payload_size)

-- The chunk size that is taken from an MTU lies between the two limits, and a chunk of that size
-- with its 16 bytes in front fits the MTU and a payload; only an MTU below 528 bytes gives none.
pub file_chunk_size-fits :
    (overlay_mtu : ℕ) → FitsMtu overlay_mtu (file_chunk_size_for_overlay_mtu overlay_mtu)
unfolding file_chunk_size_for_overlay_mtu
file_chunk_size-fits overlay_mtu = ground arith

-- A transfer that is admitted is at most one file large, and with it the peer and the whole node
-- stay within their numbers of transfers and of reserved bytes; and whatever fits is admitted.
pub admission_allowed_iff :
    (peer_count peer_bytes global_count global_bytes requested_bytes : ℕ)
    → (file_transfer_admission_allowed peer_count peer_bytes global_count global_bytes
          requested_bytes
        ≡ true)
      ↔ ((requested_bytes ≤ file_transfer_max_file_size)
          × (suc peer_count ≤ file_transfer_max_active_per_peer)
          × (suc global_count ≤ file_transfer_max_active_global)
          × (peer_bytes + requested_bytes ≤ file_transfer_max_reserved_per_peer)
          × (global_bytes + requested_bytes ≤ file_transfer_max_reserved_global))
unfolding file_transfer_admission_allowed
admission_allowed_iff peer_count peer_bytes global_count global_bytes requested_bytes = ground arith
