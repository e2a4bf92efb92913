-- ===== src/Header/Padding.antt =====
-- The padded size of a session payload: `session_padded_plaintext_size`, against the overhead that
-- include/aegis/packet/header.hpp promises.
use aegis.Prelude.{ℕ, ◌+◌, ◌%◌, ◌≤◌, ◌<◌, true, arith, ◌≡◌, ◌⊎◌, inl, inr}
use aegis.Header.{
  is_supported_session_padding_bucket, session_frame_overhead, session_padded_plaintext_size,
  session_max_payload_size, session_max_logical_payload_size,
}

pub IsBucket-cases :
    (b : ℕ)
    → is_supported_session_padding_bucket b ≡ true
    → (b ≡ 32) ⊎ (b ≡ 64) ⊎ (b ≡ 128) ⊎ (b ≡ 256)
unfolding is_supported_session_padding_bucket
IsBucket-cases b h = ground arith

pub record IsBucketed (n b : ℕ) : Type 0 where
  pub whole_buckets : session_padded_plaintext_size n b % b ≡ 0
  pub holds_payload : n + 4 ≤ session_padded_plaintext_size n b
  pub tight : session_padded_plaintext_size n b < n + 4 + b

at_32-IsBucketed : (n : ℕ) → IsBucketed n 32
unfolding session_padded_plaintext_size
at_32-IsBucketed n = omega arith

at_64-IsBucketed : (n : ℕ) → IsBucketed n 64
unfolding session_padded_plaintext_size
at_64-IsBucketed n = omega arith

at_128-IsBucketed : (n : ℕ) → IsBucketed n 128
unfolding session_padded_plaintext_size
at_128-IsBucketed n = omega arith

at_256-IsBucketed : (n : ℕ) → IsBucketed n 256
unfolding session_padded_plaintext_size
at_256-IsBucketed n = omega arith

-- For every bucket size that is supported: whole buckets, room for the length prefix and the
-- payload, and less than one bucket of padding.
pub session_padded_plaintext_size-IsBucketed :
    (n b : ℕ) → is_supported_session_padding_bucket b ≡ true → IsBucketed n b
session_padded_plaintext_size-IsBucketed n b h = elim (IsBucket-cases b h) [
  | inl e ↦ rw e (at_32-IsBucketed n)
  | inr (inl e) ↦ rw e (at_64-IsBucketed n)
  | inr (inr (inl e)) ↦ rw e (at_128-IsBucketed n)
  | inr (inr (inr e)) ↦ rw e (at_256-IsBucketed n)
]

record Sized (n b : ℕ) : Type 0 where
  framed : 16 + 12 + session_padded_plaintext_size n b + 16 ≤ n + session_frame_overhead b
  fits :
      n ≤ session_max_logical_payload_size
      → session_padded_plaintext_size n b ≤ session_max_payload_size

sized : (n b : ℕ) → is_supported_session_padding_bucket b ≡ true → Sized n b
unfolding session_padded_plaintext_size session_frame_overhead
sized n b h = elim (IsBucket-cases b h) [
  | inl e ↦ rw e (omega arith)
  | inr (inl e) ↦ rw e (omega arith)
  | inr (inr (inl e)) ↦ rw e (omega arith)
  | inr (inr (inr e)) ↦ rw e (omega arith)
]

-- For every bucket size that is supported, a frame (the header, the nonce, the padded payload and
-- the tag) is longer than its payload by `session_frame_overhead` at most.
pub frame-le-overhead :
    (n b : ℕ)
    → is_supported_session_padding_bucket b ≡ true
    → 16 + 12 + session_padded_plaintext_size n b + 16 ≤ n + session_frame_overhead b
frame-le-overhead n b h = (sized n b h).framed

-- For every bucket size that is supported, a logical payload within its limit is padded to a payload within its limit.
pub padded-le-max :
    (n b : ℕ)
    → is_supported_session_padding_bucket b ≡ true
    → n ≤ session_max_logical_payload_size
    → session_padded_plaintext_size n b ≤ session_max_payload_size
padded-le-max n b h = (sized n b h).fits
