-- ===== src/Replay/Tests.antt =====
-- The anti-replay window of src/session/session.cpp at small inputs.
use aegis.Prelude.{ℕ, Bool, true, false, some, List, [], ◌∷◌, ◌≡◌, refl, arith, IsDistinct}
use aegis.Replay.{ReplayState, fresh, receive, receive_all}
use aegis.Replay.Spec.{Step, admit_all, fresh-Tracks, receive-Step, receive_all-admit_all}
use aegis.Replay.History.{accepted, no_replay}

-- Out of order, repeated, ahead by more than the window, and too old.
abbrev stream : List ℕ
stream = 5 ∷ 3 ∷ 5 ∷ 3000 ∷ 900 ∷ 952 ∷ 953 ∷ 953 ∷ []

abbrev answers : List Bool
answers = true ∷ true ∷ false ∷ true ∷ false ∷ false ∷ true ∷ false ∷ []

admit_all-stream : admit_all [] stream ≡ answers
admit_all-stream = refl

receive_all_example : (s : ReplayState) × (receive_all fresh stream ≡ some (answers, s))
receive_all_example = receive_all-admit_all stream fresh-Tracks (omega arith)

receive_example : Step [] 9 (receive fresh 9)
receive_example = receive-Step 9 fresh-Tracks (omega arith)

no_replay_example :
    (flags : List Bool) × (s : ReplayState) × (receive_all fresh stream ≡ some (flags, s))
    × IsDistinct (accepted stream flags)
no_replay_example = no_replay stream (omega arith)
