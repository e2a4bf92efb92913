-- ===== src/Packet/Checksum.antt =====
-- What the checksum of src/packet/packet.cpp detects.
use aegis.Prelude.{
  ℕ, suc, zero, ◌+◌, ◌*◌, ◌%◌, ◌^◌, ◌≤◌, ◌<◌, none, some, List, [], ◌∷◌, ◌++◌, length, take,
  length-take, arith, ◌≡◌, ◌≢◌, refl, ap, sym, ◌⊎◌, inl, inr, All, Option-cases,
}
use aegis.Packet.{sum_words, fold, ip_checksum, IpPacket, header_length, parse}

abbrev pub IsBytes : List ℕ → Type 0
IsBytes bytes = All (λ b. b < 2 ^ 8) bytes

take-IsBytes : (n : ℕ) (bytes : List ℕ) → IsBytes bytes → IsBytes (take n bytes)
take-IsBytes zero bytes h = tt
take-IsBytes (suc n) [] h = tt
take-IsBytes (suc n) (b ∷ bytes) h = (h.0, take-IsBytes n bytes h.1)

sum_words_le : (bytes : List ℕ) → IsBytes bytes → sum_words bytes ≤ 2 ^ 16 * length bytes
unfolding sum_words
sum_words_le [] h = omega arith
sum_words_le (a ∷ []) h = omega (arith, h.0)
sum_words_le (a ∷ b ∷ bytes) h = omega (arith, h.0, h.1.0, sum_words_le bytes h.1.1)

-- The fuel is enough: after two turns nothing is left to carry, whatever 32-bit sum there was.
fold_done : (sum : ℕ) → sum < 2 ^ 32 → fold 2 sum < 2 ^ 16
fold_done sum h = ground arith

-- The fold keeps the sum modulo 2^16 - 1.
checksum_divides :
    (bytes : List ℕ)
    → sum_words bytes < 2 ^ 32
    → ip_checksum bytes ≡ 0xffff
    → sum_words bytes % 65535 ≡ 0
unfolding ip_checksum
checksum_divides bytes h e = ground arith

sum_words_changed :
    (front back : List ℕ) (x y : ℕ)
    → (sum_words (front ++ (x ∷ back)) + y ≡ sum_words (front ++ (y ∷ back)) + x)
      ⊎ (sum_words (front ++ (x ∷ back)) + y * 2 ^ 8 ≡ sum_words (front ++ (y ∷ back)) + x * 2 ^ 8)
unfolding sum_words
sum_words_changed [] [] x y = inl (omega arith)
sum_words_changed [] (b ∷ back) x y = inl (omega arith)
sum_words_changed (a ∷ []) back x y = inr (omega arith)
sum_words_changed (a ∷ b ∷ front) back x y = ground (arith, sum_words_changed front back x y)

take_changed :
    (n : ℕ) (front back : List ℕ) (x y : ℕ)
    → length front < n
    → (rest : List ℕ) × (take n (front ++ (x ∷ back)) ≡ front ++ (x ∷ rest))
      × (take n (front ++ (y ∷ back)) ≡ front ++ (y ∷ rest))
take_changed zero front back x y h = absurd (omega arith)
take_changed (suc n) [] back x y h = (take n back, refl, refl)
take_changed (suc n) (a ∷ front) back x y h =
    let (rest, e, f) = take_changed n front back x y (omega arith) in
    (rest, ap (λ bytes. a ∷ bytes) e, ap (λ bytes. a ∷ bytes) f)

-- Two lists of bytes that differ in one byte do not have the same sum.
changed_differs :
    (front back : List ℕ) (x y : ℕ)
    → x < 2 ^ 8
    → y < 2 ^ 8
    → x ≢ y
    → sum_words (front ++ (x ∷ back)) % 65535 ≡ 0
    → sum_words (front ++ (y ∷ back)) % 65535 ≢ 0
changed_differs front back x y hx hy ne e f = ground (arith, sum_words_changed front back x y)

parse_checked :
    (bytes : List ℕ) {p : IpPacket}
    → parse bytes ≡ some p
    → ip_checksum (take (header_length bytes) bytes) ≡ 0xffff
unfolding parse
parse_checked bytes e = ground arith

header_divides :
    (bytes : List ℕ) {p : IpPacket}
    → IsBytes bytes
    → parse bytes ≡ some p
    → sum_words (take (header_length bytes) bytes) % 65535 ≡ 0
header_divides bytes b e =
    let header = take (header_length bytes) bytes in
    checksum_divides header
      (omega (
        arith,
        sum_words_le header (take-IsBytes (header_length bytes) bytes b),
        length-take (header_length bytes) bytes,
      ))
      (parse_checked bytes e)

changed-IsBytes :
    (front back : List ℕ) (x y : ℕ)
    → IsBytes (front ++ (x ∷ back))
    → y < 2 ^ 8
    → (x < 2 ^ 8) × IsBytes (front ++ (y ∷ back))
changed-IsBytes [] back x y h k = (h.0, (k, h.1))
changed-IsBytes (a ∷ front) back x y h k =
    let (small, rest) = changed-IsBytes front back x y h.1 k in (small, (h.0, rest))

-- Of two buffers of bytes that differ in one byte of the header behind the first, one at most parses.
pub parse_corrupted :
    (first new old : ℕ) (front back : List ℕ) {p : IpPacket}
    → IsBytes (first ∷ front ++ (old ∷ back))
    → new < 2 ^ 8
    → new ≢ old
    → suc (length front) < header_length (first ∷ front ++ (old ∷ back))
    → parse (first ∷ front ++ (old ∷ back)) ≡ some p
    → parse (first ∷ front ++ (new ∷ back)) ≡ none
parse_corrupted first new old front back {p} b h ne within e =
    elim (Option-cases (parse (first ∷ front ++ (new ∷ back)))) [
      | inl none_parsed ↦ none_parsed
      | inr (q, f) ↦
          let size = header_length (first ∷ []) in
          let (small, changed) = changed-IsBytes (first ∷ front) back old new b h in
          let (rest, old_header, new_header) =
            take_changed size (first ∷ front) back old new within in
          absurd (
            changed_differs (first ∷ front) rest old new small h (λ same. ne (sym same))
              (rw⁻¹ old_header (header_divides (first ∷ front ++ (old ∷ back)) b e))
              (rw⁻¹ new_header (header_divides (first ∷ front ++ (new ∷ back)) changed f)))
    ]
