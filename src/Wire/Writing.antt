-- ===== src/Wire/Writing.antt =====
-- A chain of writes that fills a buffer exactly, and a chain of reads over what was written.
use aegis.Prelude.{
  ℕ, zero, suc, ◌+◌, ◌-◌, ◌^◌, ◌<◌, ◌≤◌, true, Option, some, List, [], ◌∷◌, ◌++◌, length, drop,
  replicate, arith, ◌≡◌, refl, sym, ap, ◌∙◌, length-append, length-drop, length-replicate,
  append_assoc, append-nil, ◌>>=◌,
}
use aegis.Wire.{
  whole, finished, WireWriter, writer, write_bytes, read_u8, read_u16, read_u32, read_u64, u8_bytes,
  u16_bytes, u32_bytes, u64_bytes,
}
use aegis.Wire.Cursor.{
  at, read_field, write_bytes-prefix, u16-u16_bytes, u32-u32_bytes, u64-u64_bytes,
}

drop-nil : (n : ℕ) → drop {A = ℕ} n [] ≡ []
drop-nil zero = refl
drop-nil (suc n) = refl

drop-drop : (m n : ℕ) (xs : List ℕ) → drop n (drop m xs) ≡ drop (m + n) xs
drop-drop zero n xs = ap (λ k. drop k xs) (omega arith)
drop-drop (suc m) n [] = drop-nil n ∙ sym (drop-nil (suc m + n))
drop-drop (suc m) n (x ∷ xs) = drop-drop m n xs ∙ ap (λ k. drop k (x ∷ xs)) suc_out
  where
    suc_out : suc (m + n) ≡ suc m + n
    suc_out = omega arith

abbrev pub joined : List (List ℕ) → List ℕ
joined [] = []
joined (field ∷ fields) = field ++ joined fields

-- The fields written one after another, and then the rest of the work.
abbrev pub write_then :
    List (List ℕ) → (WireWriter → Option (List ℕ)) → WireWriter → Option (List ℕ)
write_then [] rest w = rest w
write_then (field ∷ fields) rest w = write_bytes field w >>= λ w. write_then fields rest w

-- A buffer that is filled up to some point.
abbrev pub filled : List ℕ → List ℕ → WireWriter
filled done room = record { bytes = done ++ room; offset = length done }

pub write_then-filled :
    (fields : List (List ℕ)) (rest : WireWriter → Option (List ℕ)) (done room : List ℕ)
    → length (joined fields) ≤ length room
    → write_then fields rest (filled done room)
      ≡ rest (filled (done ++ joined fields) (drop (length (joined fields)) room))
write_then-filled [] rest done room h = ap (λ d. rest (filled d room)) (sym (append-nil done))
write_then-filled (field ∷ fields) rest done room h =
    rw
      (write_bytes-prefix done field room (length room - length field)
        (omega (arith, length-append field (joined fields))))
      (rw
        (write_then-filled fields rest (done ++ field) (drop (length field) room)
          (omega (arith, length-append field (joined fields), length-drop (length field) room)))
        (rw
          (
            drop-drop (length field) (length (joined fields)) room,
            append_assoc done field (joined fields),
            length-append field (joined fields),
          )
          refl))

length-nil : (xs : List ℕ) → length xs ≡ 0 → xs ≡ []
length-nil [] h = refl
length-nil (x ∷ xs) h = ground arith

whole-filled : (done room : List ℕ) → room ≡ [] → whole (filled done room) ≡ some done
whole-filled done room e = ap (λ r. whole (filled done r)) e ∙ ground (arith, append-nil done)

pub write_then-whole :
    (fields : List (List ℕ)) (n : ℕ)
    → length (joined fields) ≡ n
    → write_then fields whole (writer (replicate n 0)) ≡ some (joined fields)
write_then-whole fields n h =
    rw
      (write_then-filled fields whole [] (replicate n 0)
        (omega (arith, length-replicate {A = ℕ} n 0)))
      (whole-filled (joined fields) (drop (length (joined fields)) (replicate n 0)) (
        length-nil _ (
          omega (
            arith,
            length-drop {A = ℕ} (length (joined fields)) (replicate n 0),
            length-replicate {A = ℕ} n 0,
          ))))

pub read_u64-at :
    (front rest : List ℕ) (v : ℕ)
    → v < 2 ^ 64
    → read_u64 (at front (u64_bytes v ++ rest)) ≡ (some v, at (front ++ u64_bytes v) rest)
unfolding read_u64
read_u64-at front rest v h =
    rw (read_field 8 front (u64_bytes v) rest refl)
      (ap (λ n. (some n, at (front ++ u64_bytes v) rest)) (u64-u64_bytes v h))

pub read_u32-at :
    (front rest : List ℕ) (v : ℕ)
    → v < 2 ^ 32
    → read_u32 (at front (u32_bytes v ++ rest)) ≡ (some v, at (front ++ u32_bytes v) rest)
unfolding read_u32
read_u32-at front rest v h =
    rw (read_field 4 front (u32_bytes v) rest refl)
      (ap (λ n. (some n, at (front ++ u32_bytes v) rest)) (u32-u32_bytes v h))

pub read_u16-at :
    (front rest : List ℕ) (v : ℕ)
    → v < 2 ^ 16
    → read_u16 (at front (u16_bytes v ++ rest)) ≡ (some v, at (front ++ u16_bytes v) rest)
unfolding read_u16
read_u16-at front rest v h =
    rw (read_field 2 front (u16_bytes v) rest refl)
      (ap (λ n. (some n, at (front ++ u16_bytes v) rest)) (u16-u16_bytes v h))

pub read_u8-at :
    (front rest : List ℕ) (v : ℕ)
    → read_u8 (at front (u8_bytes v ++ rest)) ≡ (some v, at (front ++ u8_bytes v) rest)
unfolding read_u8
read_u8-at front rest v =
    rw (read_field 1 front (u8_bytes v) rest refl)
      (ap (λ n. (some n, at (front ++ u8_bytes v) rest)) (omega arith))

pub finished-at : (front : List ℕ) → finished (at front []) ≡ true
finished-at front = ground (arith, append-nil front)
