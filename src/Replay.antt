-- ===== src/Replay.antt =====
-- The anti-replay window of a session: `check_replay` and `update_replay` of
-- src/session/session.cpp over the fields `recv_last` and `recv_window` of `SessionState`.
pub mod Spec
pub mod History
mod Tests
use aegis.Prelude.{
  ℕ, ◌+◌, ◌-◌, ◌%◌, ◌^◌, Bool, true, false, ◌&&◌, not, Option, none, some, List, [], ◌∷◌, ltb, leb,
  ◌==◌, if◌then◌else◌, ◌>>=◌,
}

abbrev pub replay_bits : ℕ
replay_bits = 2048

-- `std::bitset<2048>`; positions from 2048 on are never looked at.
abbrev pub Bitset : Type 0
Bitset = ℕ → Bool

-- `test` throws `out_of_range` past the end: `none`.
abbrev pub test : Bitset → ℕ → Option Bool
test w i = if ltb i replay_bits then some (w i) else none

-- `set` throws as `test` does.
abbrev pub set : Bitset → ℕ → Option Bitset
set w i = if ltb i replay_bits then some (λ j. if j == i then true else w j) else none

-- `<<=`: a bit moves up by `k`, and zeros come in from below.
abbrev pub shift_left : Bitset → ℕ → Bitset
shift_left w k = λ i. if ltb i k then false else w (i - k)

abbrev pub no_bits : Bitset
no_bits = λ i. false

pub record ReplayState : Type 0 where
  pub recv_last : ℕ
  pub recv_window : Bitset

-- A new session.
abbrev pub fresh : ReplayState
fresh = record { recv_last = 0; recv_window = no_bits }

-- `uint64_t` addition.
abbrev pub add64 : ℕ → ℕ → ℕ
add64 a b = (a + b) % 2 ^ 64

-- `none` is an exception of `test`. The subtractions are guarded and do not wrap.
unfoldable pub check_replay : ReplayState → ℕ → Option Bool
check_replay s seq =
    if leb replay_bits s.recv_last && leb seq (s.recv_last - replay_bits)
    then some false
    else if ltb s.recv_last seq
    then some true
    else if leb (add64 seq replay_bits) s.recv_last
    then some false
    else (test s.recv_window (s.recv_last - seq) >>= λ seen. some (not seen))

-- The window moved up to `seq`, if `seq` is ahead of it.
unfoldable pub advance : ReplayState → ℕ → ReplayState
advance s seq =
    if ltb s.recv_last seq
    then record {
      recv_last = seq;
      recv_window =
          if ltb (seq - s.recv_last) replay_bits
          then shift_left s.recv_window (seq - s.recv_last)
          else no_bits;
    }
    else s

unfoldable pub update_replay : ReplayState → ℕ → Option ReplayState
unfolding advance
update_replay s seq = do
  w ← set (advance s seq).recv_window ((advance s seq).recv_last - seq)
  some (record { recv_last = (advance s seq).recv_last; recv_window = w })

-- What `decrypt_message` does with the numbers of authentic packets: the check, then the update.
-- The flags tell which packets were let through, first packet first.
unfoldable pub receive : ReplayState → ℕ → Option (Bool × ReplayState)
unfolding check_replay update_replay
receive s seq = check_replay s seq >>= λ fresh_seq.
    if fresh_seq then (update_replay s seq >>= λ s'. some (true, s')) else some (false, s)

-- A stream of packets. An exception ends it.
unfoldable pub receive_all : ReplayState → List ℕ → Option (List Bool × ReplayState)
receive_all s [] = some ([], s)
receive_all s (seq ∷ seqs) =
    receive s seq >>= λ r. (receive_all r.1 seqs >>= λ rest. some (r.0 ∷ rest.0, rest.1))
