-- ===== src/Replay/History.antt =====
-- Which packets of a stream get past the window of src/session/session.cpp.
use aegis.Prelude.{
  ℕ, ◌^◌, ◌<◌, Bool, true, false, some, List, [], ◌∷◌, contains, IsDistinct, arith, ◌≡◌, refl, All,
  Bool-cases, inl, inr,
}
use aegis.Replay.{ReplayState, fresh, receive_all}
use aegis.Replay.Spec.{admits, admit_all, fresh-Tracks, receive_all-admit_all}

-- The numbers that were let through, in the order of arrival.
abbrev pub accepted : List ℕ → List Bool → List ℕ
accepted [] flags = []
accepted (seq ∷ seqs) [] = []
accepted (seq ∷ seqs) (true ∷ flags) = seq ∷ accepted seqs flags
accepted (seq ∷ seqs) (false ∷ flags) = accepted seqs flags

-- What the history holds is not let through again.
admit_all-new :
    (history seqs : List ℕ) (q : ℕ)
    → contains q history ≡ true
    → contains q (accepted seqs (admit_all history seqs)) ≡ false
admit_all-new history [] q h = refl
admit_all-new history (seq ∷ seqs) q h = elim (Bool-cases (admits history seq)) [
  | inl e ↦ rw e (ground (arith, admit_all-new (seq ∷ history) seqs q))
  | inr e ↦ rw e (admit_all-new history seqs q h)
]

admit_all-IsDistinct : (history seqs : List ℕ) → IsDistinct (accepted seqs (admit_all history seqs))
admit_all-IsDistinct history [] = tt
admit_all-IsDistinct history (seq ∷ seqs) = elim (Bool-cases (admits history seq)) [
  | inl e ↦ rw e (
    ground (arith, admit_all-new (seq ∷ history) seqs seq),
    admit_all-IsDistinct (seq ∷ history) seqs,
  )
  | inr e ↦ rw e (admit_all-IsDistinct history seqs)
]

-- For a stream of 32-bit numbers to a new session: however packets are reordered or repeated, a session lets each sequence number through at most
-- once, and its window is never read or written out of range.
pub no_replay :
    (seqs : List ℕ)
    → All (λ seq. seq < 2 ^ 32) seqs
    → (flags : List Bool) × (s : ReplayState) × (receive_all fresh seqs ≡ some (flags, s))
      × IsDistinct (accepted seqs flags)
no_replay seqs h =
    let (s, e) = receive_all-admit_all seqs fresh-Tracks h in
    (admit_all [] seqs, s, e, admit_all-IsDistinct [] seqs)
