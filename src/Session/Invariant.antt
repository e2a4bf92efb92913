-- ===== src/Session/Invariant.antt =====
-- When a `SessionManager` of src/session/session.cpp is consistent.
use aegis.Prelude.{ℕ, ◌≤◌, true, none, some, length, arith, ◌≡◌}
use aegis.Prelude.Maps.{Map, find, IsSorted}
use aegis.Session.{
  SessionState, RetiredSession, PendingInitiator, SessionManager, SessionCapacityLimits, construct,
}

-- The session of a peer is established under the peer's own NodeID, and its id leads back to it.
pub record IsActive (to_peer : Map ℕ) (peer : ℕ) (s : SessionState) : Type 0 where
  pub named : s.peer_id ≡ peer
  pub established : s.established ≡ true
  pub routed : find s.id to_peer ≡ some peer

pub record IsConsistent {H : Type 0} (m : SessionManager H) : Type 0 where
  pub sessions_sorted : IsSorted m.sessions
  pub routes_sorted : IsSorted m.session_to_peer
  pub retired_sorted : IsSorted m.retired
  pub pending_sorted : IsSorted m.pending_initiators
  pub active :
      (peer : ℕ) (s : SessionState)
      → find peer m.sessions ≡ some s
      → IsActive m.session_to_peer peer s
  -- Every id that leads to a peer is the id of that peer's session.
  pub owned :
      (id peer : ℕ)
      → find id m.session_to_peer ≡ some peer
      → (s : SessionState) × (find peer m.sessions ≡ some s) × (s.id ≡ id)
  -- A retired session is kept under its own id, which no active session has.
  pub retired_apart :
      (id : ℕ) (r : RetiredSession)
      → find id m.retired ≡ some r
      → (r.session.id ≡ id) × (r.session.established ≡ true) × (find id m.session_to_peer ≡ none)
  -- Nor has a handshake in progress the id of an active or a retired session.
  pub pending_apart :
      (id : ℕ) (p : PendingInitiator H)
      → find id m.pending_initiators ≡ some p
      → (find id m.session_to_peer ≡ none) × (find id m.retired ≡ none)
  pub active_bounded : length m.sessions ≤ m.capacity.active
  pub retired_bounded : length m.retired ≤ m.capacity.retired
  pub pending_bounded : length m.pending_initiators ≤ m.capacity.pending

pub construct-IsConsistent :
    {H : Type 0} (capacity : SessionCapacityLimits) → IsConsistent {H = H} (construct capacity)
unfolding construct find
construct-IsConsistent capacity = record {
  sessions_sorted = tt;
  routes_sorted = tt;
  retired_sorted = tt;
  pending_sorted = tt;
  active = λ peer s e. cc;
  owned = λ id peer e. cc;
  retired_apart = λ id r e. cc;
  pending_apart = λ id p e. cc;
  active_bounded = omega arith;
  retired_bounded = omega arith;
  pending_bounded = omega arith;
}
