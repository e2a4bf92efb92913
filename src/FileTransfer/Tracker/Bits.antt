-- ===== src/FileTransfer/Tracker/Bits.antt =====
-- Lists of flags, one for each chunk: what the loops over them find.
use aegis.Prelude.{
  ℕ, zero, suc, ◌+◌, ◌≤◌, ◌<◌, Bool, true, false, List, [], ◌∷◌, length, drop, replicate, arith,
  ◌≡◌, refl, ap, ◌==◌, if◌then◌else◌,
}
use aegis.FileTransfer.Tracker.{bit, set_bit, leading_run}

unfoldable pub count_set : List Bool → ℕ
count_set [] = 0
count_set (b ∷ bits) = (if b then 1 else 0) + count_set bits

pub length-set_bit :
    (index : ℕ) (value : Bool) (bits : List Bool) → length (set_bit index value bits) ≡ length bits
unfolding set_bit
length-set_bit index value [] = refl
length-set_bit zero value (b ∷ bits) = refl
length-set_bit (suc index) value (b ∷ bits) = ap suc (length-set_bit index value bits)

pub bit-set_bit :
    (i index : ℕ) (value : Bool) (bits : List Bool)
    → index < length bits
    → bit i (set_bit index value bits) ≡ (if index == i then value else bit i bits)
unfolding set_bit bit
bit-set_bit i index value [] h = ground arith
bit-set_bit zero zero value (b ∷ bits) h = refl
bit-set_bit (suc i) zero value (b ∷ bits) h = ground arith
bit-set_bit zero (suc index) value (b ∷ bits) h = ground arith
bit-set_bit (suc i) (suc index) value (b ∷ bits) h = ground (arith, bit-set_bit i index value bits)

pub bit_behind : (i : ℕ) (bits : List Bool) → length bits ≤ i → bit i bits ≡ false
unfolding bit
bit_behind i [] h = refl
bit_behind zero (b ∷ bits) h = ground arith
bit_behind (suc i) (b ∷ bits) h = bit_behind i bits (omega arith)

pub count_set-set :
    (index : ℕ) (bits : List Bool)
    → index < length bits
    → bit index bits ≡ false
    → count_set (set_bit index true bits) ≡ suc (count_set bits)
unfolding count_set set_bit bit
count_set-set index [] h k = ground arith
count_set-set zero (b ∷ bits) h k = ground arith
count_set-set (suc index) (b ∷ bits) h k = omega (arith, count_set-set index bits (omega arith) k)

pub count_set-clear :
    (index : ℕ) (bits : List Bool)
    → bit index bits ≡ true
    → suc (count_set (set_bit index false bits)) ≡ count_set bits
unfolding count_set set_bit bit
count_set-clear index [] k = ground arith
count_set-clear zero (b ∷ bits) k = ground arith
count_set-clear (suc index) (b ∷ bits) k = omega (arith, count_set-clear index bits k)

pub count_set-none : (n : ℕ) → count_set (replicate n false) ≡ 0
unfolding count_set
count_set-none zero = refl
count_set-none (suc n) = omega (arith, count_set-none n)

pub count_set-le : (bits : List Bool) → count_set bits ≤ length bits
unfolding count_set
count_set-le [] = omega arith
count_set-le (b ∷ bits) = ground (arith, count_set-le bits)

-- All are set exactly when as many are set as there are.
pub count_set-all :
    (bits : List Bool)
    → count_set bits ≡ length bits
    → (i : ℕ) → i < length bits
    → bit i bits ≡ true
unfolding count_set bit
count_set-all [] e i h = ground arith
count_set-all (b ∷ bits) e zero h = ground (arith, count_set-le bits)
count_set-all (b ∷ bits) e (suc i) h =
    count_set-all bits (ground (arith, count_set-le bits)) i (omega arith)

pub all-count_set :
    (bits : List Bool)
    → ((i : ℕ) → i < length bits → bit i bits ≡ true)
    → count_set bits ≡ length bits
unfolding count_set bit
all-count_set [] h = refl
all-count_set (b ∷ bits) h =
    ground (arith, all-count_set bits (λ i k. h (suc i) (omega arith)), h 0 (omega arith))

pub leading_run-le : (bits : List Bool) → leading_run bits ≤ length bits
unfolding leading_run
leading_run-le [] = omega arith
leading_run-le (false ∷ bits) = omega arith
leading_run-le (true ∷ bits) = omega (arith, leading_run-le bits)

pub leading_run-set : (i : ℕ) (bits : List Bool) → i < leading_run bits → bit i bits ≡ true
unfolding leading_run bit
leading_run-set i [] h = ground arith
leading_run-set i (false ∷ bits) h = ground arith
leading_run-set zero (true ∷ bits) h = refl
leading_run-set (suc i) (true ∷ bits) h = leading_run-set i bits (omega arith)

pub leading_run-end : (bits : List Bool) → bit (leading_run bits) bits ≡ false
unfolding leading_run bit
leading_run-end [] = refl
leading_run-end (false ∷ bits) = refl
leading_run-end (true ∷ bits) = leading_run-end bits

-- The loop gets as far from any place of the run.
pub leading_run-resume :
    (n : ℕ) (bits : List Bool)
    → n ≤ leading_run bits
    → n + leading_run (drop n bits) ≡ leading_run bits
unfolding leading_run
leading_run-resume zero bits h = omega arith
leading_run-resume (suc n) [] h = omega arith
leading_run-resume (suc n) (false ∷ bits) h = omega arith
leading_run-resume (suc n) (true ∷ bits) h = omega (arith, leading_run-resume n bits (omega arith))

pub leading_run-grows :
    (index : ℕ) (bits : List Bool) → leading_run bits ≤ leading_run (set_bit index true bits)
unfolding leading_run set_bit
leading_run-grows index [] = omega arith
leading_run-grows zero (b ∷ bits) = ground arith
leading_run-grows (suc index) (false ∷ bits) = omega arith
leading_run-grows (suc index) (true ∷ bits) = omega (arith, leading_run-grows index bits)

-- A flag behind the run does not change it.
pub leading_run-clear :
    (index : ℕ) (bits : List Bool)
    → leading_run bits ≤ index
    → leading_run (set_bit index false bits) ≡ leading_run bits
unfolding leading_run set_bit
leading_run-clear index [] h = refl
leading_run-clear zero (b ∷ bits) h = ground arith
leading_run-clear (suc index) (false ∷ bits) h = refl
leading_run-clear (suc index) (true ∷ bits) h = ap suc (leading_run-clear index bits (omega arith))

-- A flag that is set and cleared again.
pub set_bit-set_bit :
    (index : ℕ) (bits : List Bool)
    → bit index bits ≡ false
    → set_bit index false (set_bit index true bits) ≡ bits
unfolding set_bit bit
set_bit-set_bit index [] h = refl
set_bit-set_bit zero (b ∷ bits) h = ground arith
set_bit-set_bit (suc index) (b ∷ bits) h = ap (◌∷◌ b) (set_bit-set_bit index bits h)
