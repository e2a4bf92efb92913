-- ===== src/Session.antt =====
-- src/session/session.cpp and include/aegis/session/session.hpp: the sessions that a node holds
-- with its peers. A NodeID, a key and a hash are the number that their bytes spell; a time is a
-- number of milliseconds. Each function here runs under the manager's mutex.
pub mod Handshake
pub mod Message
pub mod Invariant
pub mod Retire
pub mod Create
pub mod Collision
pub mod Lookup
pub mod Steps
mod Tests
use aegis.Prelude.{
  ℕ, ◌≡◌, Bool, true, false, ◌&&◌, ◌||◌, not, Option, none, some, List, [], ◌∷◌, length, ltb, leb,
  ◌==◌, if◌then◌else◌, is_some,
}
use aegis.Prelude.Maps.{Map, find, insert, erase, erase_if, has}
use aegis.Prelude.Durations.{ℤ, pos, at_least_zero, after}
use aegis.Replay.{ReplayState, fresh}

pub record SessionState : Type 0 where
  pub id : ℕ
  pub send_key : ℕ
  pub recv_key : ℕ
  pub send_seq : ℕ
  -- `recv_last` and `recv_window`.
  pub replay : ReplayState
  pub peer_id : ℕ
  pub established : Bool
  pub initiated_locally : Bool
  pub established_at : ℕ

-- What the members of `SessionState` start as.
abbrev pub new_session : SessionState
new_session = record {
  id = 0;
  send_key = 0;
  recv_key = 0;
  send_seq = 0;
  replay = fresh;
  peer_id = 0;
  established = false;
  initiated_locally = false;
  established_at = 0;
}

pub record SessionSnapshot : Type 0 where
  pub id : ℕ
  pub peer_id : ℕ
  pub established : Bool
  pub initiated_locally : Bool
  pub established_at : ℕ

pub record RetiredSession : Type 0 where
  pub session : SessionState
  pub expires : ℕ

-- `H` is the type of a Noise handshake in progress.
pub record PendingInitiator (H : Type 0) : Type 0 where
  pub expected_peer_id : ℕ
  pub expected_peer_static : ℕ
  pub handshake : H
  pub expires : ℕ

pub record SessionCapacityLimits : Type 0 where
  pub active : ℕ
  pub retired : ℕ
  pub pending : ℕ

pub record SessionManager (H : Type 0) : Type 0 where
  pub capacity : SessionCapacityLimits
  pub sessions : Map SessionState
  pub session_to_peer : Map ℕ
  pub retired_grace : ℤ
  pub retired : Map RetiredSession
  pub handshake_timeout : ℕ
  pub pending_initiators : Map (PendingInitiator H)
  pub handshake_replay_ttl : ℕ
  pub handshake_replays : Map ℕ

module _ {H : Type 0} where
  unfoldable pub construct : SessionCapacityLimits → SessionManager H
  construct capacity = record {
    capacity = capacity;
    sessions = [];
    session_to_peer = [];
    retired_grace = pos 10000;
    retired = [];
    handshake_timeout = 15000;
    pending_initiators = [];
    handshake_replay_ttl = 120000;
    handshake_replays = [];
  }

  unfoldable pub purge_retired_locked : ℕ → SessionManager H → SessionManager H
  purge_retired_locked now m = record m { retired = erase_if (λ id r. leb r.expires now) m.retired }

  unfoldable pub purge_incomplete_handshakes_locked : ℕ → SessionManager H → SessionManager H
  purge_incomplete_handshakes_locked now m = record m {
    pending_initiators = erase_if (λ id p. leb p.expires now) m.pending_initiators;
  }

  unfoldable pub purge_handshake_replays_locked : ℕ → SessionManager H → SessionManager H
  purge_handshake_replays_locked now m = record m {
    handshake_replays = erase_if (λ key expires. leb expires now) m.handshake_replays;
  }

  unfoldable pub set_retired_grace : ℤ → SessionManager H → SessionManager H
  set_retired_grace grace m = record m { retired_grace = grace }

  unfoldable pub set_handshake_timeout : ℤ → ℕ → SessionManager H → SessionManager H
  unfolding purge_incomplete_handshakes_locked
  set_handshake_timeout timeout now m =
      purge_incomplete_handshakes_locked now
        (record m { handshake_timeout = at_least_zero timeout })

  unfoldable pub set_handshake_replay_ttl : ℤ → ℕ → SessionManager H → SessionManager H
  unfolding purge_handshake_replays_locked
  set_handshake_replay_ttl ttl now m =
      purge_handshake_replays_locked now (record m { handshake_replay_ttl = at_least_zero ttl })

-- The order by which `min_element` picks a victim: the sooner to expire, then the smaller id.
abbrev pub sooner : ℕ × RetiredSession → ℕ × RetiredSession → Bool
sooner (i, r) (j, s) = if r.expires == s.expires then ltb i j else ltb r.expires s.expires

abbrev pub min_element : ℕ × RetiredSession → Map RetiredSession → ℕ × RetiredSession
min_element best [] = best
min_element best (entry ∷ m) = min_element (if sooner entry best then entry else best) m

-- The retired sessions without the victim.
unfoldable pub evict : Map RetiredSession → Map RetiredSession
evict [] = []
evict (entry ∷ m) = erase (min_element entry m).0 (entry ∷ m)

-- What `try_emplace` gives: the session that is there, or a new one.
abbrev pub or_new : Option SessionState → SessionState
or_new none = new_session
or_new (some session) = session

-- A session that may be used, of those found.
abbrev pub if_established : Option SessionState → Option SessionState
if_established none = none
if_established (some session) = if session.established then some session else none

abbrev pub retired_session : Option RetiredSession → Option SessionState
retired_session none = none
retired_session (some r) = if_established (some r.session)

abbrev pub snapshot : SessionState → SessionSnapshot
snapshot session = record {
  id = session.id;
  peer_id = session.peer_id;
  established = session.established;
  initiated_locally = session.initiated_locally;
  established_at = session.established_at;
}

abbrev pub snapshot_of : Option SessionState → Option SessionSnapshot
snapshot_of none = none
snapshot_of (some session) = some (snapshot session)

abbrev pub or_else : Option SessionState → Option SessionState → Option SessionState
or_else none other = other
or_else (some session) other = some session

module _ {H : Type 0} where
  -- The changes of `retire_session_locked` behind the purge.
  unfoldable pub store_retired : SessionState → ℕ → SessionManager H → SessionManager H
  unfolding evict
  store_retired session now m = if m.capacity.retired == 0 then m else record m {
    retired =
        insert session.id (record { session = session; expires = after now m.retired_grace })
          (if not (has session.id m.retired) && leb m.capacity.retired (length m.retired)
            then evict m.retired
            else m.retired);
  }

  unfoldable pub retire_session_locked : SessionState → ℕ → SessionManager H → SessionManager H
  unfolding store_retired purge_retired_locked
  retire_session_locked session now m = store_retired session now (purge_retired_locked now m)

  abbrev pub detach : ℕ → SessionManager H → SessionManager H
  detach id m = record m { session_to_peer = erase id m.session_to_peer }

  -- The first part of `create_session`: the established session of the peer is superseded.
  unfoldable pub supersede : Option SessionState → ℕ → SessionManager H → SessionManager H
  supersede none now m = m
  supersede (some session) now m =
      if session.established then detach session.id (retire_session_locked session now m) else m

  -- `create_session` with `install_noise_keys` on the session that it returns, as both callers
  -- have it. One clock reading stands for the two that it takes.
  unfoldable pub create_session : ℕ → ℕ → ℕ × ℕ → Bool → ℕ → SessionManager H → SessionManager H
  unfolding supersede
  create_session peer_id session_id (send_key, recv_key) initiated_locally now m =
      let m' = supersede (find peer_id m.sessions) now m in
      record m' {
        sessions =
            insert peer_id
              (record (or_new (find peer_id m.sessions)) {
                peer_id = peer_id;
                id = session_id;
                send_seq = 0;
                replay = fresh;
                send_key = send_key;
                recv_key = recv_key;
                established_at = now;
                established = true;
                initiated_locally = initiated_locally;
              })
              m'.sessions;
        session_to_peer = insert session_id peer_id m'.session_to_peer;
      }

  unfoldable pub find_session_locked : ℕ → SessionManager H → Option SessionState
  find_session_locked peer_id m = if_established (find peer_id m.sessions)

  -- An id of an active session leads to its peer's session; any other to the retired ones.
  abbrev pub by_id : Option ℕ → ℕ → SessionManager H → Option SessionState
  by_id none session_id m = retired_session (find session_id m.retired)
  by_id (some peer_id) session_id m = if_established (find peer_id m.sessions)

  unfoldable pub find_session_by_id_locked : ℕ → SessionManager H → Option SessionState
  find_session_by_id_locked session_id m = by_id (find session_id m.session_to_peer) session_id m

  unfoldable pub get_session : ℕ → SessionManager H → Option SessionSnapshot
  unfolding find_session_locked
  get_session peer_id m = snapshot_of (find_session_locked peer_id m)

  abbrev routed_session : Option ℕ → SessionManager H → Option SessionState
  routed_session none m = none
  routed_session (some peer_id) m = if_established (find peer_id m.sessions)

  -- Unlike `find_session_by_id_locked`, it goes on to the retired sessions where the active one is
  -- not established.
  unfoldable pub get_session_by_id : ℕ → SessionManager H → Option SessionSnapshot
  get_session_by_id session_id m = snapshot_of (
      or_else (routed_session (find session_id m.session_to_peer) m)
        (retired_session (find session_id m.retired)))

  unfoldable pub active_session_count : SessionManager H → ℕ
  active_session_count m = length m.sessions

  unfoldable pub retired_session_count : SessionManager H → ℕ
  retired_session_count m = length m.retired

  unfoldable pub pending_handshake_count : SessionManager H → ℕ
  pending_handshake_count m = length m.pending_initiators

  -- The part of `remove_session` for an active session.
  unfoldable pub drop_active : Option SessionState → ℕ → SessionManager H → SessionManager H
  drop_active none peer_id m = m
  drop_active (some session) peer_id m = record m {
    session_to_peer = erase session.id m.session_to_peer;
    retired = erase session.id m.retired;
    sessions = erase peer_id m.sessions;
  }

  unfoldable pub remove_session : ℕ → SessionManager H → SessionManager H
  unfolding drop_active
  remove_session peer_id m =
      let m' = drop_active (find peer_id m.sessions) peer_id m in
      record m' {
        retired = erase_if (λ id r. r.session.peer_id == peer_id) m'.retired;
        pending_initiators = erase_if (λ id p. p.expected_peer_id == peer_id) m'.pending_initiators;
      }
