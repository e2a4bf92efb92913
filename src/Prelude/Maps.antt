-- ===== src/Prelude/Maps.antt =====
-- `std::map` with numbers for keys: the entries in ascending order of their keys. Identifiers such
-- as a NodeID are the number that their bytes spell, so the order of keys is the program's.
use Prim.Native.Nat.{ℕ, suc, ◌+◌, ◌≤◌, ◌<◌}
use mathlib.Core.Path.{◌≡◌, refl}
use mathlib.Core.Bool.{Bool, true}
use mathlib.Core.List.{List, [], ◌∷◌}
use mathlib.Core.Option.{Option, none, some}
use native.Mathlib.Omega.{arith}
use aegis.Prelude.Tests.{ltb, ◌==◌, if◌then◌else◌, is_some}
use aegis.Prelude.Lists.{length}

abbrev pub Map {ℓ} : Type ℓ → Type ℓ
Map V = List (ℕ × V)

module _ {ℓ} {V : Type ℓ} where
  -- `find`, with `none` for `end()`.
  unfoldable pub find : ℕ → Map V → Option V
  find k [] = none
  find k ((j, v) ∷ m) = if j == k then some v else find k m

  -- `map[k] = v`.
  unfoldable pub insert : ℕ → V → Map V → Map V
  insert k v [] = (k, v) ∷ []
  insert k v ((j, w) ∷ m) =
      if j == k then (k, v) ∷ m else if ltb k j then (k, v) ∷ (j, w) ∷ m else (j, w) ∷ insert k v m

  -- The loop that erases the entries that meet a test.
  unfoldable pub erase_if : (ℕ → V → Bool) → Map V → Map V
  erase_if p [] = []
  erase_if p ((j, v) ∷ m) = if p j v then erase_if p m else (j, v) ∷ erase_if p m

  abbrev pub erase : ℕ → Map V → Map V
  erase k = erase_if λ j _. j == k

  -- The first entry, in the order of keys, that meets a test.
  unfoldable pub find_if : (ℕ → V → Bool) → Map V → Option (ℕ × V)
  find_if p [] = none
  find_if p ((j, v) ∷ m) = if p j v then some (j, v) else find_if p m

  abbrev pub has : ℕ → Map V → Bool
  has k m = is_some (find k m)

  -- Every key lies above `lo`, and they ascend.
  abbrev pub Above : ℕ → Map V → Type 0
  Above lo [] = Unit {0}
  Above lo ((j, v) ∷ m) = (lo ≤ j) × Above (suc j) m

  abbrev pub IsSorted : Map V → Type 0
  IsSorted m = Above 0 m

  pub find-insert :
      (k j : ℕ) (v : V) (m : Map V) → find j (insert k v m) ≡ (if k == j then some v else find j m)
  unfolding find insert
  find-insert k j v [] = refl
  find-insert k j v ((i, w) ∷ m) = ground (arith, find-insert k j v m)

  pub find-erase : (k j : ℕ) (m : Map V) → find j (erase k m) ≡ (if k == j then none else find j m)
  unfolding find erase_if
  find-erase k j [] = ground arith
  find-erase k j ((i, w) ∷ m) = ground (arith, find-erase k j m)

  pub find_below : (k lo : ℕ) (m : Map V) → Above lo m → k < lo → find k m ≡ none
  unfolding find
  find_below k lo [] s h = refl
  find_below k lo ((j, v) ∷ m) s h = ground (arith, find_below k (suc j) m)

  Above-mono : (lo hi : ℕ) (m : Map V) → lo ≤ hi → Above hi m → Above lo m
  Above-mono lo hi [] h s = tt
  Above-mono lo hi ((j, v) ∷ m) h s = (omega arith, s.1)

  pub insert-Above : (lo k : ℕ) (v : V) (m : Map V) → lo ≤ k → Above lo m → Above lo (insert k v m)
  unfolding insert
  insert-Above lo k v [] h s = (h, tt)
  insert-Above lo k v ((j, w) ∷ m) h s = ground (arith, insert-Above (suc j) k v m)

  pub erase_if-Above :
      (lo : ℕ) (p : ℕ → V → Bool) (m : Map V) → Above lo m → Above lo (erase_if p m)
  unfolding erase_if
  erase_if-Above lo p [] s = tt
  erase_if-Above lo p ((j, v) ∷ m) s =
      ground (arith, erase_if-Above (suc j) p m, Above-mono lo (suc j) (erase_if p m))

  -- What survives the erasing loop is what was there and does not meet the test.
  abbrev pub unless : (ℕ → V → Bool) → ℕ → Option V → Option V
  unless p k none = none
  unless p k (some v) = if p k v then none else some v

  find-erase_if_at :
      (p : ℕ → V → Bool) (k lo : ℕ) (m : Map V)
      → Above lo m
      → find k (erase_if p m) ≡ unless p k (find k m)
  unfolding find erase_if
  find-erase_if_at p k lo [] s = refl
  find-erase_if_at p k lo ((j, v) ∷ m) s =
      ground (arith, find-erase_if_at p k (suc j) m, find_below k (suc j) m)

  pub find-erase_if :
      (p : ℕ → V → Bool) (k : ℕ) (m : Map V)
      → IsSorted m
      → find k (erase_if p m) ≡ unless p k (find k m)
  find-erase_if p k m s = find-erase_if_at p k 0 m s

  pub length-erase_if : (p : ℕ → V → Bool) (m : Map V) → length (erase_if p m) ≤ length m
  unfolding erase_if
  length-erase_if p [] = omega arith
  length-erase_if p ((j, v) ∷ m) = ground (arith, length-erase_if p m)

  length-insert_at :
      (lo k : ℕ) (v : V) (m : Map V)
      → Above lo m
      → length (insert k v m) ≡ (if has k m then length m else suc (length m))
  unfolding insert find
  length-insert_at lo k v [] s = refl
  length-insert_at lo k v ((j, w) ∷ m) s =
      ground (arith, length-insert_at (suc j) k v m, find_below k (suc j) m)

  pub length-insert :
      (k : ℕ) (v : V) (m : Map V)
      → IsSorted m
      → length (insert k v m) ≡ (if has k m then length m else suc (length m))
  length-insert k v m s = length-insert_at 0 k v m s

  pub find_if-find :
      (p : ℕ → V → Bool) (lo k : ℕ) (v : V) (m : Map V)
      → Above lo m
      → find_if p m ≡ some (k, v)
      → (find k m ≡ some v) × (p k v ≡ true) × (lo ≤ k)
  unfolding find_if find
  find_if-find p lo k v [] s e = cc
  find_if-find p lo k v ((j, w) ∷ m) s e = ground (arith, find_if-find p (suc j) k v m)

  -- A sum over the values, and how one value's change moves it.
  unfoldable pub sum : (V → ℕ) → Map V → ℕ
  sum f [] = 0
  sum f ((j, v) ∷ m) = f v + sum f m

  abbrev pub at_or_zero : (V → ℕ) → Option V → ℕ
  at_or_zero f none = 0
  at_or_zero f (some v) = f v

  sum-insert_at :
      (f : V → ℕ) (lo k : ℕ) (v : V) (m : Map V)
      → Above lo m
      → sum f (insert k v m) + at_or_zero f (find k m) ≡ sum f m + f v
  unfolding sum insert find
  sum-insert_at f lo k v [] s = omega arith
  sum-insert_at f lo k v ((j, w) ∷ m) s =
      ground (arith, sum-insert_at f (suc j) k v m, find_below k (suc j) m)

  pub sum-insert :
      (f : V → ℕ) (k : ℕ) (v : V) (m : Map V)
      → IsSorted m
      → sum f (insert k v m) + at_or_zero f (find k m) ≡ sum f m + f v
  sum-insert f k v m s = sum-insert_at f 0 k v m s

  erase_below : (k lo : ℕ) (m : Map V) → Above lo m → k < lo → erase k m ≡ m
  unfolding erase_if
  erase_below k lo [] s h = refl
  erase_below k lo ((j, v) ∷ m) s h = ground (arith, erase_below k (suc j) m)

  sum-erase_at :
      (f : V → ℕ) (lo k : ℕ) (m : Map V)
      → Above lo m
      → sum f (erase k m) + at_or_zero f (find k m) ≡ sum f m
  unfolding sum erase_if find
  sum-erase_at f lo k [] s = omega arith
  sum-erase_at f lo k ((j, v) ∷ m) s =
      ground (arith, sum-erase_at f (suc j) k m, erase_below k (suc j) m)

  pub sum-erase :
      (f : V → ℕ) (k : ℕ) (m : Map V)
      → IsSorted m
      → sum f (erase k m) + at_or_zero f (find k m) ≡ sum f m
  sum-erase f k m s = sum-erase_at f 0 k m s

  length-erase_at :
      (lo k : ℕ) (m : Map V)
      → Above lo m
      → length m ≡ (if has k m then suc (length (erase k m)) else length (erase k m))
  unfolding erase_if find
  length-erase_at lo k [] s = refl
  length-erase_at lo k ((j, v) ∷ m) s =
      ground (arith, length-erase_at (suc j) k m, find_below k (suc j) m, erase_below k (suc j) m)

  pub length-erase :
      (k : ℕ) (m : Map V)
      → IsSorted m
      → length m ≡ (if has k m then suc (length (erase k m)) else length (erase k m))
  length-erase k m s = length-erase_at 0 k m s
