-- ===== src/Session/Create.antt =====
-- `create_session` of src/session/session.cpp: a new session of a peer, and the retirement of the
-- one that it supersedes.
use aegis.Prelude.{
  ℕ, ◌≤◌, ◌<◌, Bool, true, none, some, length, ◌==◌, arith, ◌≡◌, refl, sym, ◌⊎◌, inl, inr,
  Bool-cases, Option-cases, ◌≢◌,
}
use aegis.Prelude.Maps.{
  Map, find, insert, erase, has, IsSorted, erase_if-Above, find-erase, find-insert, insert-Above,
  length-insert,
}
use aegis.Replay.{fresh}
use aegis.Session.{
  SessionState, RetiredSession, PendingInitiator, SessionManager, supersede, create_session,
  find_session_locked, find_session_by_id_locked, or_new,
}
use aegis.Session.Invariant.{IsActive, IsConsistent}
use aegis.Session.Retire.{retire-Retires}

-- No session and no handshake has the id, and there is room for a session of the peer.
pub record IsFree {H : Type 0} (peer id : ℕ) (m : SessionManager H) : Type 0 where
  pub not_active : find id m.session_to_peer ≡ none
  pub not_retired : find id m.retired ≡ none
  pub not_pending : find id m.pending_initiators ≡ none
  pub room : (has peer m.sessions ≡ true) ⊎ (length m.sessions < m.capacity.active)

-- What superseding leaves: the ids of the peer's former session lead nowhere, and the retired
-- sessions are those that were there and that session.
record Supersedes {H : Type 0} (peer : ℕ) (m : SessionManager H) (routes : Map ℕ)
    (kept : Map RetiredSession) : Type 0 where
  routes_sorted : IsSorted routes
  routes_kept :
      (id other : ℕ)
      → find id routes ≡ some other
      → (find id m.session_to_peer ≡ some other) × (other ≢ peer)
  others_kept :
      (id other : ℕ)
      → find id m.session_to_peer ≡ some other
      → other ≢ peer
      → find id routes ≡ some other
  kept_sorted : IsSorted kept
  kept_bounded : length kept ≤ m.capacity.retired
  origin :
      (id : ℕ) (r : RetiredSession)
      → find id kept ≡ some r
      → (r.session.id ≡ id)
        × (r.session.established ≡ true)
        × (find id routes ≡ none)
        × ((find id m.session_to_peer ≡ some peer) ⊎ (find id m.retired ≡ some r))

supersede-Supersedes :
    {H : Type 0} (peer now : ℕ) {m : SessionManager H}
    → IsConsistent m
    → (routes : Map ℕ) × (kept : Map RetiredSession) × (supersede (find peer m.sessions) now m
        ≡ record m { session_to_peer = routes; retired = kept })
      × Supersedes peer m routes kept
unfolding supersede
supersede-Supersedes peer now {m} c = elim (Option-cases (find peer m.sessions)) [
  | inl e ↦ (
    m.session_to_peer,
    m.retired,
    rw e,
    record {
      routes_sorted = c.routes_sorted;
      routes_kept =
          λ id other f. let (s, g, h) = c.owned id other f in (f, λ same. ground (arith, g));
      others_kept = λ id other f ne. f;
      kept_sorted = c.retired_sorted;
      kept_bounded = c.retired_bounded;
      origin = λ id r f. let (i, est, apart) = c.retired_apart id r f in (i, est, apart, inr f);
    },
  )
  | inr (s, e) ↦
      let a = c.active peer s e in
      let (kept, f, r) = retire-Retires s now c in
      (
        erase s.id m.session_to_peer,
        kept,
        rw e (ground (arith, f, a.established)),
        record {
          routes_sorted = erase_if-Above 0 _ m.session_to_peer c.routes_sorted;
          routes_kept = λ id other g.
              let old : find id m.session_to_peer ≡ some other =
                ground (arith, find-erase s.id id m.session_to_peer) in
              let (t, held, named) = c.owned id other old in
              (old, λ same. ground (arith, find-erase s.id id m.session_to_peer, held));
          others_kept =
              λ id other g ne. ground (arith, find-erase s.id id m.session_to_peer, a.routed);
          kept_sorted = r.sorted;
          kept_bounded = r.bounded;
          origin = λ id entry g. elim (r.origin id entry g) [
            | inl (same, t) ↦ (
              ground (arith, t),
              ground (arith, t, a.established),
              ground (arith, find-erase s.id id m.session_to_peer),
              inl (ground (arith, a.routed)),
            )
            | inr old ↦
                let (i, est, apart) = c.retired_apart id entry old in
                (i, est, ground (arith, find-erase s.id id m.session_to_peer), inr old)
          ];
        },
      )
]

module _ {H : Type 0} (peer id : ℕ) (keys : ℕ × ℕ) (local : Bool) (now : ℕ)
    (m : SessionManager H) where
  -- The session that is put in, and the manager with it.
  abbrev put_in : SessionState
  put_in = record (or_new (find peer m.sessions)) {
    peer_id = peer;
    id = id;
    send_seq = 0;
    replay = fresh;
    send_key = keys.0;
    recv_key = keys.1;
    established_at = now;
    established = true;
    initiated_locally = local;
  }

  abbrev with_put_in : Map ℕ → Map RetiredSession → SessionManager H
  with_put_in routes kept = record m {
    sessions = insert peer put_in m.sessions;
    session_to_peer = insert id peer routes;
    retired = kept;
  }

module _ {H : Type 0} (peer id : ℕ) (keys : ℕ × ℕ) (local : Bool) (now : ℕ) (m : SessionManager H)
    (c : IsConsistent m) (free : IsFree peer id m) (routes : Map ℕ) (kept : Map RetiredSession)
    (sup : Supersedes peer m routes kept) where
  abbrev installed : SessionState
  installed = put_in peer id keys local now m

  abbrev with_session : SessionManager H
  with_session = with_put_in peer id keys local now m routes kept

  routes_free : find id routes ≡ none
  routes_free = elim (Option-cases (find id routes)) [
    | inl e ↦ e
    | inr (other, e) ↦ absurd (ground (arith, sup.routes_kept id other e, free.not_active))
  ]

  fresh-IsActive :
      (p : ℕ) (s : SessionState)
      → s ≡ installed
      → peer ≡ p
      → IsActive with_session.session_to_peer p s
  fresh-IsActive p s e same = record {
    named = ground (arith, e);
    established = ground (arith, e);
    routed = ground (arith, e, find-insert id s.id peer routes);
  }

  other-IsActive :
      (p : ℕ) (s : SessionState)
      → find p m.sessions ≡ some s
      → peer ≢ p
      → IsActive with_session.session_to_peer p s
  other-IsActive p s e ne =
      let a = c.active p s e in
      record {
        named = a.named;
        established = a.established;
        routed = ground (
          arith,
          find-insert id s.id peer routes,
          free.not_active,
          a.routed,
          sup.others_kept s.id p a.routed (λ same. ne (sym same)),
        );
      }

  with_session-IsActive :
      (p : ℕ) (s : SessionState)
      → find p with_session.sessions ≡ some s
      → IsActive with_session.session_to_peer p s
  with_session-IsActive p s e = elim (Bool-cases (peer == p)) [
    | inl h ↦
        fresh-IsActive p s (ground (arith, find-insert peer p installed m.sessions)) (ground arith)
    | inr h ↦
        other-IsActive p s (ground (arith, find-insert peer p installed m.sessions)) (ground arith)
  ]

  with_session-owned :
      (i p : ℕ)
      → find i with_session.session_to_peer ≡ some p
      → (s : SessionState) × (find p with_session.sessions ≡ some s) × (s.id ≡ i)
  with_session-owned i p e = elim (Bool-cases (id == i)) [
    | inl h ↦ (
      installed,
      ground (arith, find-insert id i peer routes, find-insert peer p installed m.sessions),
      ground arith,
    )
    | inr h ↦
        let old : find i routes ≡ some p = ground (arith, find-insert id i peer routes) in
        let (before, ne) = sup.routes_kept i p old in
        let (s, held, named) = c.owned i p before in
        (s, ground (arith, find-insert peer p installed m.sessions, held, ne), named)
  ]

  with_session-retired :
      (i : ℕ) (r : RetiredSession)
      → find i kept ≡ some r
      → (r.session.id ≡ i)
        × (r.session.established ≡ true)
        × (find i with_session.session_to_peer ≡ none)
  with_session-retired i r e =
      let (named, est, apart, old) = sup.origin i r e in
      (named, est, ground (arith, find-insert id i peer routes, old, apart, free))

  with_session-pending :
      (i : ℕ) (p : PendingInitiator H)
      → find i m.pending_initiators ≡ some p
      → (find i with_session.session_to_peer ≡ none) × (find i kept ≡ none)
  with_session-pending i p e =
      let (routes_apart, retired_apart) = c.pending_apart i p e in
      (
        elim (Option-cases (find i routes)) [
          | inl f ↦ ground (arith, find-insert id i peer routes, free.not_pending, f)
          | inr (q, f) ↦ absurd (ground (arith, sup.routes_kept i q f))
        ],
        elim (Option-cases (find i kept)) [
          | inl f ↦ f
          | inr (r, f) ↦ absurd (ground (arith, sup.origin i r f))
        ],
      )

  with_session-IsConsistent : IsConsistent with_session
  with_session-IsConsistent = record {
    sessions_sorted = insert-Above 0 peer installed m.sessions (omega arith) c.sessions_sorted;
    routes_sorted = insert-Above 0 id peer routes (omega arith) sup.routes_sorted;
    retired_sorted = sup.kept_sorted;
    pending_sorted = c.pending_sorted;
    active = with_session-IsActive;
    owned = with_session-owned;
    retired_apart = with_session-retired;
    pending_apart = with_session-pending;
    active_bounded = ground (
      arith,
      length-insert peer installed m.sessions c.sessions_sorted,
      c.active_bounded,
      free.room,
    );
    retired_bounded = sup.kept_bounded;
    pending_bounded = c.pending_bounded;
  }

-- A consistent manager stays so when a session is put in under a free id: the peer's former session
-- is retired, and no id is shared.
pub create_session-IsConsistent :
    {H : Type 0} {m : SessionManager H} (peer id : ℕ) (keys : ℕ × ℕ) (local : Bool) (now : ℕ)
    → IsConsistent m
    → IsFree peer id m
    → IsConsistent (create_session peer id keys local now m)
unfolding create_session
create_session-IsConsistent {H} {m} peer id keys local now c free =
    let (routes, kept, e, sup) = supersede-Supersedes peer now c in
    rw e (with_session-IsConsistent peer id keys local now m c free routes kept sup)

-- In a consistent manager, `create_session` leaves the peer with one session that is found by the
-- peer and by the new id, has that id, counts from 0 and has an empty replay window.
pub find-create_session :
    {H : Type 0} {m : SessionManager H} (peer id : ℕ) (keys : ℕ × ℕ) (local : Bool) (now : ℕ)
    → IsConsistent m
    → (s : SessionState) × (find_session_locked peer (create_session peer id keys local now m)
        ≡ some s)
      × (find_session_by_id_locked id (create_session peer id keys local now m) ≡ some s)
      × (s.id ≡ id)
      × (s.send_seq ≡ 0)
      × (s.replay ≡ fresh)
unfolding create_session find_session_locked find_session_by_id_locked
find-create_session {H} {m} peer id keys local now c =
    let (routes, kept, e, sup) = supersede-Supersedes peer now c in
    let s = put_in peer id keys local now m in
    (
      s,
      ground (arith, e, find-insert peer peer s m.sessions),
      ground (arith, e, find-insert peer peer s m.sessions, find-insert id id peer routes),
      refl,
      refl,
      refl,
    )
