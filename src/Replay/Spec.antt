-- ===== src/Replay/Spec.antt =====
-- The window against a history: a session that keeps every sequence number that it let through,
-- and lets a number through if it is new and less than 2048 behind the highest one.
use aegis.Prelude.{
  ℕ, ◌+◌, ◌-◌, ◌^◌, ◌≤◌, ◌<◌, max, Bool, true, false, ◌&&◌, not, Option, some, List, [], ◌∷◌, ltb,
  ◌==◌, if◌then◌else◌, contains, arith, ◌≡◌, refl, All, Bool-cases, inl, inr,
}
use aegis.Replay.{
  ReplayState, fresh, replay_bits, check_replay, update_replay, advance, receive, receive_all,
}

-- The highest number of a history, 0 for none.
abbrev pub highest : List ℕ → ℕ
highest [] = 0
highest (x ∷ xs) = max x (highest xs)

abbrev pub admits : List ℕ → ℕ → Bool
admits history seq = ltb (highest history) (seq + replay_bits) && not (contains seq history)

-- The specification's answer and its new history.
abbrev pub admit : List ℕ → ℕ → Bool × List ℕ
admit history seq = if admits history seq then (true, seq ∷ history) else (false, history)

abbrev pub admit_all : List ℕ → List ℕ → List Bool
admit_all history [] = []
admit_all history (seq ∷ seqs) = (admit history seq).0 ∷ admit_all (admit history seq).1 seqs

-- The window stands for a history.
pub record Tracks (s : ReplayState) (history : List ℕ) : Type 0 where
  pub last : s.recv_last ≡ highest history
  pub bits :
      (seq : ℕ)
      → seq ≤ s.recv_last
      → s.recv_last < seq + replay_bits
      → s.recv_window (s.recv_last - seq) ≡ contains seq history

pub fresh-Tracks : Tracks fresh []
fresh-Tracks = record { last = refl; bits = λ seq h k. refl }

-- No number of a history is above its highest.
contains-le-highest :
    (seq : ℕ) (history : List ℕ) → contains seq history ≡ true → seq ≤ highest history
contains-le-highest seq [] h = cc
contains-le-highest seq (x ∷ xs) h = ground (arith, contains-le-highest seq xs)

-- For a window that stands for a history, the check answers for every 32-bit number as the
-- specification does, and never throws.
pub check_replay-admits :
    {s : ReplayState} {history : List ℕ} (seq : ℕ)
    → Tracks s history
    → seq < 2 ^ 32
    → check_replay s seq ≡ some (admits history seq)
unfolding check_replay
check_replay-admits {s} {history} seq t h =
    ground (arith, t.last, t.bits seq, contains-le-highest seq history)

-- Numbers above the highest were never let through.
contains_above : (seq : ℕ) (history : List ℕ) → highest history < seq → contains seq history ≡ false
contains_above seq [] h = refl
contains_above seq (x ∷ xs) h = ground (arith, contains_above seq xs)

-- Moving the window up keeps the bits of the numbers that it still covers.
advance-last : (s : ReplayState) (seq : ℕ) → (advance s seq).recv_last ≡ max seq s.recv_last
unfolding advance
advance-last s seq = ground arith

advance-bits :
    {s : ReplayState} {history : List ℕ} (seq q : ℕ)
    → Tracks s history
    → q ≤ (advance s seq).recv_last
    → (advance s seq).recv_last < q + replay_bits
    → (advance s seq).recv_window ((advance s seq).recv_last - q) ≡ contains q history
unfolding advance
advance-bits {s} {history} seq q t h k = ground (arith, t.last, t.bits q, contains_above q history)

-- The window after `update_replay`.
abbrev marked : ReplayState → ℕ → ReplayState
marked s seq = record {
  recv_last = (advance s seq).recv_last;
  recv_window =
      λ j. if j == (advance s seq).recv_last - seq then true else (advance s seq).recv_window j;
}

update-marked :
    (s : ReplayState) (seq : ℕ)
    → s.recv_last < seq + replay_bits
    → update_replay s seq ≡ some (marked s seq)
unfolding update_replay
update-marked s seq h = ground (arith, advance-last s seq)

marked-Tracks :
    {s : ReplayState} {history : List ℕ} (seq : ℕ)
    → Tracks s history
    → Tracks (marked s seq) (seq ∷ history)
marked-Tracks {s} {history} seq t = record {
  last = omega (arith, advance-last s seq, t.last);
  bits = λ q h k. ground (arith, advance-last s seq, advance-bits seq q t);
}

-- One packet: the code answers as the specification does, and stays in step.
abbrev pub Step : List ℕ → ℕ → Option (Bool × ReplayState) → Type 0
Step history seq r =
    (s' : ReplayState) × (r ≡ some ((admit history seq).0, s')) × Tracks s' (admit history seq).1

pub receive-Step :
    {s : ReplayState} {history : List ℕ} (seq : ℕ)
    → Tracks s history
    → seq < 2 ^ 32
    → Step history seq (receive s seq)
unfolding receive
receive-Step {s} {history} seq t h = elim (Bool-cases (admits history seq)) [
  | inl e ↦
      rw (e, check_replay-admits seq t h, e, update-marked s seq (ground (arith, t.last)))
        (marked s seq, refl, marked-Tracks seq t)
  | inr e ↦ rw (e, check_replay-admits seq t h, e) (s, refl, t)
]

-- A whole stream of 32-bit numbers, from a window that stands for a history: no exception, and the
-- answers of the specification, which remembers every number.
pub receive_all-admit_all :
    (seqs : List ℕ) {s : ReplayState} {history : List ℕ}
    → Tracks s history
    → All (λ seq. seq < 2 ^ 32) seqs
    → (s' : ReplayState) × (receive_all s seqs ≡ some (admit_all history seqs, s'))
unfolding receive_all
receive_all-admit_all [] {s} t h = (s, refl)
receive_all-admit_all (seq ∷ seqs) {s} {history} t h =
    let (s1, e1, t1) = receive-Step seq t h.0 in
    let (s2, e2) = receive_all-admit_all seqs t1 h.1 in (s2, rw (e1, e2))
