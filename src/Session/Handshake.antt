-- ===== src/Session/Handshake.antt =====
-- The three handshake handlers of src/session/session.cpp. `handle_handshake_init` takes the
-- manager's mutex three times and lets it go in between: each locked part is a function here, and
-- the Noise computations stand between them. What src/session/noise_ik.cpp and the hashes of
-- OpenSSL compute is a parameter.
use aegis.Prelude.{
  ℕ, ◌+◌, Bool, true, false, ◌&&◌, ◌||◌, not, Option, none, some, List, length, ltb, leb, ◌==◌,
  if◌then◌else◌, is_some, list_eq, ◌>>=◌, ◌>>◌, guard,
}
use aegis.Prelude.Maps.{find, find_if, insert, erase, has}
use aegis.HandshakeV2.{
  HandshakeV2InitFrame, HandshakeV2ResponseFrame, serialize_handshake_v2_init,
  parse_handshake_v2_init, serialize_handshake_v2_response, parse_handshake_v2_response,
  make_handshake_v2_prologue, handshake_v2_init_noise_size, handshake_v2_response_noise_size,
}
use aegis.Session.{
  SessionState, PendingInitiator, SessionManager, purge_incomplete_handshakes_locked,
  purge_handshake_replays_locked, create_session,
}

-- `NoiseIkHandshake`, `hash_public_key` and `transcript_hash`. A handshake is changed by each
-- message; a message comes with the handshake behind it. The number that the creators take last is
-- what the random source draws.
pub record Noise (H : Type 0) : Type 0 where
  pub create_initiator : ℕ → ℕ → List ℕ → ℕ → Option H
  pub create_responder : ℕ → List ℕ → ℕ → Option H
  pub write_message : H → Option (List ℕ × H)
  pub read_message : H → List ℕ → Option H
  pub remote_static_public_key : H → Option ℕ
  pub split : H → Option (ℕ × ℕ)
  pub hash_public_key : ℕ → ℕ
  pub transcript_hash : List ℕ → Option ℕ

-- The fields of `Identity` that the handlers read.
pub record Identity : Type 0 where
  pub private_key : ℕ
  pub node_id : ℕ
  pub network_id : List ℕ

abbrev pub initiated_here : Option SessionState → Bool
initiated_here none = false
initiated_here (some session) = session.established && session.initiated_locally

abbrev pub answered_there : Option SessionState → Bool
answered_there none = false
answered_there (some session) = session.established && not session.initiated_locally

module _ {H : Type 0} where
  -- An id that any session or handshake has.
  abbrev pub in_use : ℕ → SessionManager H → Bool
  in_use id m = has id m.session_to_peer || has id m.retired || has id m.pending_initiators

  -- The locked part of `create_handshake_init`.
  unfoldable pub store_initiator : ℕ → ℕ → ℕ → H → ℕ → SessionManager H → Bool × SessionManager H
  store_initiator session_id expected_peer_id expected_peer_static handshake now m =
      let m' = purge_incomplete_handshakes_locked now m in
      if in_use session_id m'
      then (false, m')
      else if leb m'.capacity.pending (length m'.pending_initiators)
      then (false, m')
      else (
        true,
        record m' {
          pending_initiators =
              insert session_id
                (record {
                  expected_peer_id = expected_peer_id;
                  expected_peer_static = expected_peer_static;
                  handshake = handshake;
                  expires = now + m'.handshake_timeout;
                })
                m'.pending_initiators;
        },
      )

  -- The first locked part of `handle_handshake_init`: a message seen before, or an id in use.
  unfoldable pub screen_init : ℕ → ℕ → ℕ → SessionManager H → Bool × SessionManager H
  screen_init replay_key session_id now m =
      let m' = purge_handshake_replays_locked now (purge_incomplete_handshakes_locked now m) in
      (not (has replay_key m'.handshake_replays || in_use session_id m'), m')

  abbrev pub erase_found : Option (ℕ × PendingInitiator H) → SessionManager H → SessionManager H
  erase_found none m = m
  erase_found (some (id, p)) m = record m { pending_initiators = erase id m.pending_initiators }

  -- The second locked part: the message is marked as seen, and of two handshakes that cross, the
  -- one of the smaller NodeID goes on.
  unfoldable pub resolve_collision : ℕ → ℕ → ℕ → ℕ → SessionManager H → Bool × SessionManager H
  resolve_collision replay_key node_id peer_id now m =
      let m1 = purge_handshake_replays_locked now (purge_incomplete_handshakes_locked now m) in
      let m2 = record m1 {
        handshake_replays = insert replay_key (now + m1.handshake_replay_ttl) m1.handshake_replays;
      } in
      let pending = find_if (λ id p. p.expected_peer_id == peer_id) m2.pending_initiators in
      let active = find peer_id m2.sessions in
      let m3 = erase_found pending m2 in
      if has replay_key m1.handshake_replays
      then (false, m1)
      else if ltb node_id peer_id
      then (if is_some pending || initiated_here active
          then (false, m2)
          else (not (not (is_some active) && leb m2.capacity.active (length m2.sessions)), m2))
      else (not (not (is_some active) && leb m2.capacity.active (length m2.sessions)), m3)

  -- The third locked part: the session is created, if its id is still free and there is room.
  unfoldable pub commit_init : ℕ → ℕ → ℕ × ℕ → ℕ → SessionManager H → Bool × SessionManager H
  commit_init peer_id session_id keys now m =
      let m' = purge_incomplete_handshakes_locked now m in
      if in_use session_id m'
      then (false, m')
      else if not (has peer_id m'.sessions) && leb m'.capacity.active (length m'.sessions)
      then (false, m')
      else (true, create_session peer_id session_id keys false now m')

  -- The lock of `handle_handshake_resp` behind the reading of the Noise message: `remote` and
  -- `keys` are what the handshake says of the peer, `node_id` is our own.
  unfoldable pub commit_response :
      ℕ → PendingInitiator H → ℕ × ℕ → ℕ → ℕ → SessionManager H → Bool × SessionManager H
  commit_response session_id state keys node_id now m =
      let active = find state.expected_peer_id m.sessions in
      if answered_there active && ltb state.expected_peer_id node_id
      then (false, m)
      else if not (is_some active) && leb m.capacity.active (length m.sessions)
      then (false, m)
      else (true, create_session state.expected_peer_id session_id keys true now m)

-- The handlers whole, with no other thread between their parts. A clock reading belongs to each
-- locked part.
module _ {H : Type 0} (noise : Noise H) (identity : Identity) where
  -- What `create_handshake_init` computes before it locks: the handshake and the frame.
  unfoldable pub prepare_init : ℕ → ℕ → ℕ → ℕ → Option (H × List ℕ)
  prepare_init session_id expected_peer_id expected_peer_static drawn = do
    guard (
        not (session_id == 0)
        && not (expected_peer_static == 0)
        && expected_peer_id == noise.hash_public_key expected_peer_static)
    prologue ← make_handshake_v2_prologue identity.network_id session_id
    handshake ← noise.create_initiator identity.private_key expected_peer_static prologue drawn
    written ← noise.write_message handshake
    guard (length written.0 == handshake_v2_init_noise_size)
    encoded ← serialize_handshake_v2_init (record {
      session_id = session_id;
      network_id = identity.network_id;
      noise_message = written.0;
    })
    some (written.1, encoded)

  abbrev keep_initiator :
      ℕ → ℕ → ℕ → Option (H × List ℕ) → ℕ → SessionManager H → Option (List ℕ) × SessionManager H
  keep_initiator session_id peer_id peer_static none now m = (none, m)
  keep_initiator session_id peer_id peer_static (some (handshake, encoded)) now m =
      let (stored, m') = store_initiator session_id peer_id peer_static handshake now m in
      (if stored then some encoded else none, m')

  unfoldable pub create_handshake_init :
      ℕ → ℕ → ℕ → ℕ → ℕ → SessionManager H → Option (List ℕ) × SessionManager H
  create_handshake_init session_id expected_peer_id expected_peer_static drawn now m =
      keep_initiator session_id expected_peer_id expected_peer_static
        (prepare_init session_id expected_peer_id expected_peer_static drawn) now m

  -- The checks of `handle_handshake_init` before it locks: the frame and its hash.
  unfoldable pub open_init : List ℕ → ℕ → Option (HandshakeV2InitFrame × ℕ)
  open_init message outer_session_id = do
    frame ← parse_handshake_v2_init message
    guard (frame.session_id == outer_session_id && list_eq frame.network_id identity.network_id)
    replay_key ← noise.transcript_hash message
    some (frame, replay_key)

  -- Between the first two locks: the handshake behind the message, and the peer's key.
  unfoldable pub read_init : HandshakeV2InitFrame → ℕ → Option (H × ℕ)
  read_init frame drawn = do
    prologue ← make_handshake_v2_prologue identity.network_id frame.session_id
    handshake ← noise.create_responder identity.private_key prologue drawn
    handshake ← noise.read_message handshake frame.noise_message
    peer_static ← noise.remote_static_public_key handshake
    guard (not (peer_static == 0))
    some (handshake, peer_static)

  -- Between the last two: the answer and the session's keys.
  unfoldable pub answer_init : HandshakeV2InitFrame → H → Option (List ℕ × (ℕ × ℕ))
  answer_init frame handshake = do
    written ← noise.write_message handshake
    guard (length written.0 == handshake_v2_response_noise_size)
    keys ← noise.split written.1
    encoded ←
        serialize_handshake_v2_response
          (record { session_id = frame.session_id; noise_message = written.0 })
    some (encoded, keys)

  abbrev finish_init :
      HandshakeV2InitFrame
      → ℕ
      → Option (List ℕ × (ℕ × ℕ))
      → ℕ
      → SessionManager H
      → Option (List ℕ × ℕ) × SessionManager H
  finish_init frame peer_id none now m = (none, m)
  finish_init frame peer_id (some (encoded, keys)) now m =
      let (created, m') = commit_init peer_id frame.session_id keys now m in
      (if created then some (encoded, peer_id) else none, m')

  abbrev settle_init :
      HandshakeV2InitFrame × ℕ
      → Option (H × ℕ)
      → ℕ × ℕ
      → SessionManager H
      → Option (List ℕ × ℕ) × SessionManager H
  settle_init (frame, replay_key) none nows m = (none, m)
  settle_init (frame, replay_key) (some (handshake, peer_static)) (now2, now3) m =
      let peer_id = noise.hash_public_key peer_static in
      let (goes_on, m') = resolve_collision replay_key identity.node_id peer_id now2 m in
      if goes_on
      then finish_init frame peer_id (answer_init frame handshake) now3 m'
      else (none, m')

  abbrev screened_init :
      Option (HandshakeV2InitFrame × ℕ)
      → ℕ
      → ℕ × ℕ × ℕ
      → SessionManager H
      → Option (List ℕ × ℕ) × SessionManager H
  screened_init none drawn nows m = (none, m)
  screened_init (some (frame, replay_key)) drawn (now1, now2, now3) m =
      let (fresh, m') = screen_init replay_key frame.session_id now1 m in
      if fresh
      then settle_init (frame, replay_key) (read_init frame drawn) (now2, now3) m'
      else (none, m')

  -- The answer's frame and the peer's NodeID.
  unfoldable pub handle_handshake_init :
      List ℕ → ℕ → ℕ → ℕ × ℕ × ℕ → SessionManager H → Option (List ℕ × ℕ) × SessionManager H
  handle_handshake_init message outer_session_id drawn nows m =
      screened_init (open_init message outer_session_id) drawn nows m

  -- What the response says of the peer: the keys, if it is the peer that was asked.
  unfoldable pub read_response :
      Option HandshakeV2ResponseFrame → ℕ → PendingInitiator H → Option (ℕ × ℕ)
  read_response frame session_id state = do
    frame ← frame
    guard (frame.session_id == session_id)
    handshake ← noise.read_message state.handshake frame.noise_message
    remote ← noise.remote_static_public_key handshake
    guard (
        remote == state.expected_peer_static
        && noise.hash_public_key remote == state.expected_peer_id)
    noise.split handshake

  abbrev accept_response :
      ℕ → PendingInitiator H → Option (ℕ × ℕ) → ℕ → SessionManager H → Bool × SessionManager H
  accept_response session_id state none now m = (false, m)
  accept_response session_id state (some keys) now m =
      commit_response session_id state keys identity.node_id now m

  -- The handshake in progress is used up, whatever comes of it.
  abbrev settle_response :
      Option HandshakeV2ResponseFrame
      → ℕ
      → Option (PendingInitiator H)
      → ℕ
      → SessionManager H
      → Bool × SessionManager H
  settle_response frame session_id none now m = (false, m)
  settle_response frame session_id (some state) now m =
      accept_response session_id state (read_response frame session_id state) now
        (record m { pending_initiators = erase session_id m.pending_initiators })

  unfoldable pub handle_handshake_resp : List ℕ → ℕ → ℕ → SessionManager H → Bool × SessionManager H
  handle_handshake_resp message session_id now m =
      let m' = purge_incomplete_handshakes_locked now m in
      settle_response (parse_handshake_v2_response message) session_id
        (find session_id m'.pending_initiators) now m'
