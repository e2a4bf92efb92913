-- ===== src/Prelude/Durations.antt =====
-- `std::chrono` times and durations. A time point of the steady clock is a number of ticks since
-- the clock's start; a duration may be negative.
use Prim.Native.Nat.{ℕ, suc, ◌+◌, ◌-◌}

-- `negsuc n` is -(n + 1).
pub data ℤ : Type 0 where
  pos : ℕ → ℤ
  negsuc : ℕ → ℤ

-- `std::max(d, zero())`.
abbrev pub at_least_zero : ℤ → ℕ
at_least_zero (pos n) = n
at_least_zero (negsuc n) = 0

-- `now + d`. No time lies before the clock's start.
abbrev pub after : ℕ → ℤ → ℕ
after now (pos n) = now + n
after now (negsuc n) = now - suc n
