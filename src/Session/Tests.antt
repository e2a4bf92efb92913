-- ===== src/Session/Tests.antt =====
-- Concrete managers of src/session/session.cpp, and what the theorems say of them.
use aegis.Prelude.{
  ℕ, ◌^◌, true, false, Option, some, List, [], ◌∷◌, ◌++◌, length-replicate, length, replicate,
  arith, ◌≡◌, refl, inr, is_some,
}
use aegis.Prelude.Maps.{find, insert, erase, erase_if, find_if}
use aegis.Header.{
  is_supported_session_padding_bucket, session_padded_plaintext_size, serialize_packet_header,
}
use aegis.Wire.{write_bytes}
use aegis.Replay.{fresh}
use aegis.Session.{
  PendingInitiator, purge_retired_locked, SessionState, SessionManager, SessionCapacityLimits,
  construct, create_session, remove_session, find_session_locked, find_session_by_id_locked,
  purge_incomplete_handshakes_locked, purge_handshake_replays_locked, supersede,
}
use aegis.Replay.Spec.{fresh-Tracks, receive-Step}
use aegis.Session.Invariant.{IsConsistent, construct-IsConsistent}
use aegis.Session.Create.{IsFree}
use aegis.Session.Lookup.{find-superseded}
use aegis.Session.Collision.{IsCalling, resolve_collision-one_answers, screen_init-seen}
use aegis.Session.Handshake.{
  Noise, Identity, store_initiator, screen_init, resolve_collision, commit_init,
}
use aegis.Session.Message.{
  Aead, encrypt_message, decrypt_message, write_payload, pad, seal, make_nonce,
}
use aegis.Session.Message.RoundTrip.{IsAead, Receives, decrypt-encrypt}
use aegis.Session.Message.Sending.{encrypt_message-some, make_nonce-injective}
use aegis.Session.Steps.{Step, Run, Run-IsConsistent}

abbrev caps : SessionCapacityLimits
caps = record { active = 2; retired = 1; pending = 2 }

abbrev start : SessionManager ℕ
start = construct caps

start-IsConsistent : IsConsistent start
start-IsConsistent = construct-IsConsistent caps

-- A session with the peer 9, and the other side's with the peer 4.
abbrev alice : SessionManager ℕ
alice = (commit_init 9 77 (11, 22) 1000 start).1

abbrev bob : SessionManager ℕ
bob = (commit_init 4 77 (22, 11) 1000 start).1

abbrev noise : Noise ℕ
noise = record {
  create_initiator = λ key remote prologue drawn. some 0;
  create_responder = λ key prologue drawn. some 0;
  write_message = λ h. some (replicate 96 7, h);
  read_message = λ h message. some h;
  remote_static_public_key = λ h. some 5;
  split = λ h. some (1, 2);
  hash_public_key = λ key. key;
  transcript_hash = λ message. some (length message);
}

abbrev identity : Identity
identity = record { private_key = 3; node_id = 4; network_id = replicate 32 1 }

abbrev aead : Aead
aead = record {
  encrypt = λ key nonce text about. some (text, replicate 16 0);
  decrypt = λ key nonce cipher tag about. some cipher;
}

aead-IsAead : IsAead aead
aead-IsAead = record {
  opens = λ key nonce text about cipher tag e. cc;
  sizes = λ key nonce text about cipher tag e. ground (arith, e);
}

abbrev random : ℕ → Option (List ℕ)
random k = some (replicate k 5)

abbrev text : Option (List ℕ)
text = some (1 ∷ 2 ∷ 3 ∷ [])

start-IsFree : IsFree 9 77 start
unfolding construct find
start-IsFree = record {
  not_active = refl;
  not_retired = refl;
  not_pending = refl;
  room = inr (omega arith);
}

-- A run: a session is created, a call is stored, a message is sent, the peer is removed.
Run-IsConsistent_example : IsConsistent (
    remove_session 9
      (encrypt_message aead random 32 9 2 text 3 0
        (store_initiator 5 8 80 0 1001 (commit_init 9 77 (11, 22) 1000 start).1).1).1)
Run-IsConsistent_example =
    Run-IsConsistent {noise = noise} {identity = identity} {aead = aead} caps (
      Run.then_step
        (Run.then_step
          (Run.then_step (Run.then_step Run.started (Step.committing 9 77 (11, 22) 1000))
            (Step.storing 5 8 80 0 1001))
          (Step.sending random 32 9 2 text 3 0))
        (Step.removing 9))

abbrev alice_session : SessionState
alice_session = record {
  id = 77;
  send_key = 11;
  recv_key = 22;
  send_seq = 0;
  replay = fresh;
  peer_id = 9;
  established = true;
  initiated_locally = false;
  established_at = 1000;
}

abbrev bob_session : SessionState
bob_session = record {
  id = 77;
  send_key = 22;
  recv_key = 11;
  send_seq = 0;
  replay = fresh;
  peer_id = 4;
  established = true;
  initiated_locally = false;
  established_at = 1000;
}

alice_holds : find_session_locked 9 alice ≡ some alice_session
unfolding construct find insert erase_if commit_init create_session supersede find_session_locked
    purge_incomplete_handshakes_locked
alice_holds = refl

bob_holds : find_session_by_id_locked 77 bob ≡ some bob_session
unfolding construct find insert erase_if commit_init create_session supersede
    find_session_by_id_locked purge_incomplete_handshakes_locked
bob_holds = refl

bob-Receives : Receives alice_session bob
bob-Receives =
    let (window, accepted, tracked) = receive-Step 0 fresh-Tracks (omega arith) in
    record {
      receiver = bob_session;
      found = bob_holds;
      same_key = refl;
      window = window;
      in_window = accepted;
    }

-- Header, nonce, payload with its lengths and padding, tag.
abbrev frame : List ℕ
frame =
    (2 ∷ 2 ∷ 0 ∷ 0 ∷ 0 ∷ 0 ∷ 0 ∷ 77 ∷ 0 ∷ 0 ∷ 0 ∷ 0 ∷ 0 ∷ 0 ∷ 0 ∷ 32 ∷ [])
    ++ ((0 ∷ 0 ∷ 0 ∷ 77 ∷ replicate 8 0)
        ++ ((0 ∷ 3 ∷ 0 ∷ 32 ∷ 1 ∷ 2 ∷ 3 ∷ replicate 25 5) ++ replicate 16 0))

frame_sent : (encrypt_message aead random 32 9 2 text 3 0 alice).0 ≡ some frame
unfolding construct find insert erase_if commit_init create_session supersede find_session_locked
    purge_incomplete_handshakes_locked encrypt_message write_payload pad seal make_nonce write_bytes
    serialize_packet_header is_supported_session_padding_bucket session_padded_plaintext_size
frame_sent = refl

decrypt-encrypt_example :
    (decrypt_message aead frame bob).0 ≡ some (record { packet_type = 2; payload = 1 ∷ 2 ∷ 3 ∷ [] })
decrypt-encrypt_example =
    decrypt-encrypt aead random 32 9 2 text 3 0 alice bob aead-IsAead
      (λ k bytes e. ground (arith, length-replicate {A = ℕ} k 5, e)) alice_holds bob-Receives
      (omega arith) (omega arith) (omega arith) (omega arith) refl (omega arith) frame_sent

encrypt_message-some_example : is_some (encrypt_message aead random 64 9 2 text 3 0 alice).0 ≡ true
unfolding is_supported_session_padding_bucket
encrypt_message-some_example =
    encrypt_message-some aead random 64 9 2 text 3 0 alice (λ key nonce plain about. refl)
      (λ k. refl) alice_holds refl refl (omega arith)

abbrev seventh : ℕ
seventh = 7

abbrev far : ℕ
far = 2 ^ 40

make_nonce-injective_example : (seventh ≡ seventh) × (far ≡ far)
make_nonce-injective_example =
    make_nonce-injective seventh far seventh far (omega arith) (omega arith) (omega arith)
      (omega arith) refl

alice-IsConsistent : IsConsistent alice
alice-IsConsistent =
    Run-IsConsistent {noise = noise} {identity = identity} {aead = aead} caps
      (Run.then_step Run.started (Step.committing 9 77 (11, 22) 1000))

find-superseded_example :
    find_session_by_id_locked 77
      (purge_retired_locked 11999 (create_session 9 78 (1, 2) true 2000 alice))
    ≡ some alice_session
unfolding commit_init find purge_incomplete_handshakes_locked construct erase_if create_session
find-superseded_example =
    find-superseded 9 78 (1, 2) true 2000 11999 alice-IsConsistent alice_holds (omega arith)
      (omega arith)

-- The nodes 4 and 9 call each other.
abbrev four : SessionManager ℕ
four = (store_initiator 5 9 90 0 100 start).1

abbrev nine : SessionManager ℕ
nine = (store_initiator 6 4 40 0 100 start).1

abbrev call_of : ℕ → ℕ → PendingInitiator ℕ
call_of peer static = record {
  expected_peer_id = peer;
  expected_peer_static = static;
  handshake = 0;
  expires = 15100;
}

four_calls : IsCalling 1 9 5 200 four
unfolding construct find insert erase_if find_if store_initiator purge_incomplete_handshakes_locked
    purge_handshake_replays_locked
four_calls = record { call = call_of 9 90; calling = refl; unseen = refl; room = inr (omega arith) }

nine_calls : IsCalling 2 4 6 200 nine
unfolding construct find insert erase_if find_if store_initiator purge_incomplete_handshakes_locked
    purge_handshake_replays_locked
nine_calls = record { call = call_of 4 40; calling = refl; unseen = refl; room = inr (omega arith) }

resolve_collision-one_answers_example :
    ((resolve_collision 1 4 9 200 four).0 ≡ false)
    × ((resolve_collision 1 4 9 200 four).1.pending_initiators
        ≡ (purge_incomplete_handshakes_locked 200 four).pending_initiators)
    × ((resolve_collision 2 9 4 200 nine).0 ≡ true)
    × ((resolve_collision 2 9 4 200 nine).1.pending_initiators
        ≡ erase 6 (purge_incomplete_handshakes_locked 200 nine).pending_initiators)
resolve_collision-one_answers_example =
    resolve_collision-one_answers 4 9 1 2 5 6 200 200 four nine (omega arith) four_calls nine_calls

nine_answers : (resolve_collision 2 9 4 200 nine).0 ≡ true
unfolding construct find insert erase_if find_if store_initiator resolve_collision
    purge_incomplete_handshakes_locked purge_handshake_replays_locked
nine_answers = refl

screen_init-seen_example : (screen_init 2 8 300 (resolve_collision 2 9 4 200 nine).1).0 ≡ false
unfolding construct store_initiator purge_incomplete_handshakes_locked find erase_if
screen_init-seen_example = screen_init-seen 2 9 4 8 200 300 nine tt nine_answers (omega arith)
