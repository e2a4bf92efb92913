-- ===== src/Session/Steps/Locked.antt =====
-- The locked parts of the handlers of src/session/session.cpp, one by one.
use aegis.Prelude.{
  ℕ, List, ◌+◌, ◌<◌, Bool, true, false, ◌&&◌, ◌||◌, not, Option, none, some, length, ltb, leb, ◌==◌,
  is_some, arith, ◌≡◌, refl, ◌⊎◌, inl, inr, Bool-cases, Option-cases,
}
use aegis.Prelude.Maps.{
  Map, find, find_if, insert, erase, has, find-insert, insert-Above, length-insert, find-erase,
  erase_if-Above, length-erase_if,
}
use aegis.HandshakeV2.{parse_handshake_v2_response}
use aegis.Prelude.Durations.{ℤ}
use aegis.Prelude.Durations.{ℤ}
use aegis.Session.{
  SessionState, RetiredSession, PendingInitiator, SessionManager,
  purge_incomplete_handshakes_locked, purge_handshake_replays_locked, remove_session, drop_active,
}
use aegis.Session.Invariant.{IsConsistent}
use aegis.Session.Retire.{
  IsSubmap, erase_if-IsSubmap, same-IsSubmap, shrink-IsConsistent, purge_incomplete-IsConsistent,
}
use aegis.Session.Create.{create_session-IsConsistent}
use aegis.Session.Handshake.{
  Noise, Identity, in_use, store_initiator, screen_init, resolve_collision, erase_found,
  initiated_here, answered_there, commit_init, commit_response, handle_handshake_resp,
  read_response,
}

-- The settings and the replay cache are no part of what is to be consistent.
pub replays-IsConsistent :
    {H : Type 0} {m : SessionManager H} (replays : Map ℕ)
    → IsConsistent m
    → IsConsistent (record m { handshake_replays = replays })
replays-IsConsistent replays c = record {
  sessions_sorted = c.sessions_sorted;
  routes_sorted = c.routes_sorted;
  retired_sorted = c.retired_sorted;
  pending_sorted = c.pending_sorted;
  active = c.active;
  owned = c.owned;
  retired_apart = c.retired_apart;
  pending_apart = c.pending_apart;
  active_bounded = c.active_bounded;
  retired_bounded = c.retired_bounded;
  pending_bounded = c.pending_bounded;
}

-- The durations that may be set take no part in it either.
pub settings-IsConsistent :
    {H : Type 0} {m : SessionManager H} (grace : ℤ) (timeout ttl : ℕ)
    → IsConsistent m
    → IsConsistent (record m {
      retired_grace = grace;
      handshake_timeout = timeout;
      handshake_replay_ttl = ttl;
    })
settings-IsConsistent grace timeout ttl c = record {
  sessions_sorted = c.sessions_sorted;
  routes_sorted = c.routes_sorted;
  retired_sorted = c.retired_sorted;
  pending_sorted = c.pending_sorted;
  active = c.active;
  owned = c.owned;
  retired_apart = c.retired_apart;
  pending_apart = c.pending_apart;
  active_bounded = c.active_bounded;
  retired_bounded = c.retired_bounded;
  pending_bounded = c.pending_bounded;
}

pub purge_replays-IsConsistent :
    {H : Type 0} {m : SessionManager H} (now : ℕ)
    → IsConsistent m
    → IsConsistent (purge_handshake_replays_locked now m)
unfolding purge_handshake_replays_locked
purge_replays-IsConsistent now c = replays-IsConsistent _ c

-- An id that is not in use is free in all three maps.
free_id :
    {H : Type 0} (id : ℕ) (m : SessionManager H)
    → in_use id m ≡ false
    → (find id m.session_to_peer ≡ none)
      × (find id m.retired ≡ none)
      × (find id m.pending_initiators ≡ none)
free_id id m h = ground (
  arith,
  Option-cases (find id m.session_to_peer),
  Option-cases (find id m.retired),
  Option-cases (find id m.pending_initiators),
)

-- A handshake put in under a free id, with room for it.
insert_pending-IsConsistent :
    {H : Type 0} {m : SessionManager H} (id : ℕ) (p : PendingInitiator H)
    → IsConsistent m
    → in_use id m ≡ false
    → length m.pending_initiators < m.capacity.pending
    → IsConsistent (record m { pending_initiators = insert id p m.pending_initiators })
insert_pending-IsConsistent {H} {m} id p c h room = record {
  sessions_sorted = c.sessions_sorted;
  routes_sorted = c.routes_sorted;
  retired_sorted = c.retired_sorted;
  pending_sorted = insert-Above 0 id p m.pending_initiators (omega arith) c.pending_sorted;
  active = c.active;
  owned = c.owned;
  retired_apart = c.retired_apart;
  pending_apart = λ i q e.
      ground (arith, find-insert id i p m.pending_initiators, free_id id m h, c.pending_apart i q);
  active_bounded = c.active_bounded;
  retired_bounded = c.retired_bounded;
  pending_bounded =
      ground (arith, length-insert id p m.pending_initiators c.pending_sorted, c.pending_bounded);
}

pub store_initiator-IsConsistent :
    {H : Type 0} {m : SessionManager H} (id peer static : ℕ) (handshake : H) (now : ℕ)
    → IsConsistent m
    → IsConsistent (store_initiator id peer static handshake now m).1
unfolding store_initiator
store_initiator-IsConsistent {H} {m} id peer static handshake now c =
    let m' = purge_incomplete_handshakes_locked now m in
    let c' = purge_incomplete-IsConsistent now c in
    elim (Bool-cases (in_use id m')) [
      | inl e ↦ rw e c'
      | inr e ↦ elim (Bool-cases (leb m'.capacity.pending (length m'.pending_initiators))) [
        | inl f ↦ rw (e, f) c'
        | inr f ↦ rw (e, f) (insert_pending-IsConsistent id _ c' e (ground arith))
      ]
    ]

-- Dropping handshakes in progress.
fewer_pending-IsConsistent :
    {H : Type 0} {m : SessionManager H} (pending : Map (PendingInitiator H))
    → IsConsistent m
    → IsSubmap pending m.pending_initiators
    → IsConsistent (record m { pending_initiators = pending })
fewer_pending-IsConsistent {H} {m} pending c sub =
    shrink-IsConsistent m.retired pending c (same-IsSubmap m.retired c.retired_sorted) sub

pub screen_init-IsConsistent :
    {H : Type 0} {m : SessionManager H} (key id now : ℕ)
    → IsConsistent m
    → IsConsistent (screen_init key id now m).1
unfolding screen_init
screen_init-IsConsistent key id now c =
    purge_replays-IsConsistent now (purge_incomplete-IsConsistent now c)

erase_found-IsConsistent :
    {H : Type 0} {m : SessionManager H} (found : Option (ℕ × PendingInitiator H))
    → IsConsistent m
    → IsConsistent (erase_found found m)
erase_found-IsConsistent none c = c
erase_found-IsConsistent {H} {m} (some (id, p)) c =
    fewer_pending-IsConsistent _ c (erase_if-IsSubmap _ m.pending_initiators c.pending_sorted)

pub resolve_collision-IsConsistent :
    {H : Type 0} {m : SessionManager H} (key node peer now : ℕ)
    → IsConsistent m
    → IsConsistent (resolve_collision key node peer now m).1
unfolding resolve_collision
resolve_collision-IsConsistent {H} {m} key node peer now c =
    let m1 = purge_handshake_replays_locked now (purge_incomplete_handshakes_locked now m) in
    let c1 = purge_replays-IsConsistent now (purge_incomplete-IsConsistent now c) in
    let replays = insert key (now + m1.handshake_replay_ttl) m1.handshake_replays in
    let m2 = record m1 { handshake_replays = replays } in
    let c2 = replays-IsConsistent replays c1 in
    let pending =
      find_if (λ id (p : PendingInitiator H). p.expected_peer_id == peer) m2.pending_initiators in
    let c3 = erase_found-IsConsistent pending c2 in
    elim (Bool-cases (has key m1.handshake_replays)) [
      | inl e ↦ rw e c1
      | inr e ↦ elim (Bool-cases (ltb node peer)) [
        | inl f ↦ elim (Bool-cases (is_some pending || initiated_here (find peer m2.sessions))) [
          | inl g ↦ rw (e, f, g) c2
          | inr g ↦ rw (e, f, g) c2
        ]
        | inr f ↦ rw (e, f) c3
      ]
    ]

room_for :
    (known : Bool) (cap size : ℕ)
    → (not known && leb cap size) ≡ false
    → (known ≡ true) ⊎ (size < cap)
room_for true cap size h = inl refl
room_for false cap size h = inr (ground arith)

pub commit_init-IsConsistent :
    {H : Type 0} {m : SessionManager H} (peer id : ℕ) (keys : ℕ × ℕ) (now : ℕ)
    → IsConsistent m
    → IsConsistent (commit_init peer id keys now m).1
unfolding commit_init
commit_init-IsConsistent {H} {m} peer id keys now c =
    let m' = purge_incomplete_handshakes_locked now m in
    let c' = purge_incomplete-IsConsistent now c in
    elim (Bool-cases (in_use id m')) [
      | inl e ↦ rw e c'
      | inr e ↦
          elim (Bool-cases
            (not (has peer m'.sessions) && leb m'.capacity.active (length m'.sessions))) [
              | inl f ↦ rw (e, f) c'
              | inr f ↦
                  let (active, retired, pending) = free_id id m' e in
                  rw (e, f)
                    (create_session-IsConsistent peer id keys false now c' (record {
                      not_active = active;
                      not_retired = retired;
                      not_pending = pending;
                      room =
                          room_for (has peer m'.sessions) m'.capacity.active (length m'.sessions) f;
                    }))
            ]
    ]

-- The id of the handshake that is used up is free.
pub commit_response-IsConsistent :
    {H : Type 0} {m : SessionManager H} (id : ℕ) (state : PendingInitiator H) (keys : ℕ × ℕ)
    (node now : ℕ)
    → IsConsistent m
    → in_use id m ≡ false
    → IsConsistent (commit_response id state keys node now m).1
unfolding commit_response
commit_response-IsConsistent {H} {m} id state keys node now c h =
    let peer = state.expected_peer_id in
    elim (Bool-cases (answered_there (find peer m.sessions) && ltb peer node)) [
      | inl e ↦ rw e c
      | inr e ↦
          elim (Bool-cases
            (not (has peer m.sessions) && leb m.capacity.active (length m.sessions))) [
              | inl f ↦ rw (e, f) c
              | inr f ↦
                  let (active, retired, pending) = free_id id m h in
                  rw (e, f)
                    (create_session-IsConsistent peer id keys true now c (record {
                      not_active = active;
                      not_retired = retired;
                      not_pending = pending;
                      room = room_for (has peer m.sessions) m.capacity.active (length m.sessions) f;
                    }))
            ]
    ]

pub handle_handshake_resp-IsConsistent :
    {H : Type 0} {m : SessionManager H} (noise : Noise H) (identity : Identity) (message : List ℕ)
    (id now : ℕ)
    → IsConsistent m
    → IsConsistent (handle_handshake_resp noise identity message id now m).1
unfolding handle_handshake_resp
handle_handshake_resp-IsConsistent {H} {m} noise identity message id now c =
    let m' = purge_incomplete_handshakes_locked now m in
    let c' = purge_incomplete-IsConsistent now c in
    elim (Option-cases (find id m'.pending_initiators)) [
      | inl e ↦ rw e c'
      | inr (state, e) ↦
          let used = record m' { pending_initiators = erase id m'.pending_initiators } in
          let c2 =
            fewer_pending-IsConsistent (erase id m'.pending_initiators) c'
              (erase_if-IsSubmap _ m'.pending_initiators c'.pending_sorted) in
          let free : in_use id used ≡ false =
            ground (arith, c'.pending_apart id state e, find-erase id id m'.pending_initiators) in
          elim (Option-cases
            (read_response noise identity (parse_handshake_v2_response message) id state)) [
              | inl f ↦ rw (e, f) c2
              | inr (keys, f) ↦
                  rw (e, f)
                    (commit_response-IsConsistent id state keys identity.node_id now c2 free)
            ]
    ]

-- The active session of a peer goes together with its id.
pub drop_active-IsConsistent :
    {H : Type 0} {m : SessionManager H} (peer : ℕ)
    → IsConsistent m
    → IsConsistent (drop_active (find peer m.sessions) peer m)
unfolding drop_active
drop_active-IsConsistent {H} {m} peer c = elim (Option-cases (find peer m.sessions)) [
  | inl e ↦ rw e c
  | inr (s, e) ↦
      let a = c.active peer s e in
      let retired =
        erase_if-IsSubmap (λ j (r : RetiredSession). j == s.id) m.retired c.retired_sorted in
      rw e (record {
        sessions_sorted = erase_if-Above 0 _ m.sessions c.sessions_sorted;
        routes_sorted = erase_if-Above 0 _ m.session_to_peer c.routes_sorted;
        retired_sorted = retired.sorted;
        pending_sorted = c.pending_sorted;
        active = λ p t f.
            let other : find p m.sessions ≡ some t = ground (arith, find-erase peer p m.sessions) in
            let b = c.active p t other in
            record {
              named = b.named;
              established = b.established;
              routed = ground (
                arith,
                find-erase s.id t.id m.session_to_peer,
                find-erase peer p m.sessions,
                a.routed,
                b.routed,
              );
            };
        owned = λ id p f.
            let other : find id m.session_to_peer ≡ some p =
              ground (arith, find-erase s.id id m.session_to_peer) in
            let (t, held, named) = c.owned id p other in
            (
              t,
              ground (
                arith,
                find-erase peer p m.sessions,
                find-erase s.id id m.session_to_peer,
                held,
                named,
              ),
              named,
            );
        retired_apart = λ id r f.
            let (named, est, apart) = c.retired_apart id r (retired.within id r f) in
            (named, est, ground (arith, find-erase s.id id m.session_to_peer));
        pending_apart = λ id p f.
            let (routes, apart) = c.pending_apart id p f in
            (
              ground (arith, find-erase s.id id m.session_to_peer),
              ground (arith, find-erase s.id id m.retired),
            );
        active_bounded = omega (
          arith,
          length-erase_if (λ j (t : SessionState). j == peer) m.sessions,
          c.active_bounded,
        );
        retired_bounded = omega (arith, retired.shorter, c.retired_bounded);
        pending_bounded = c.pending_bounded;
      })
]

pub remove_session-IsConsistent :
    {H : Type 0} {m : SessionManager H} (peer : ℕ)
    → IsConsistent m
    → IsConsistent (remove_session peer m)
unfolding remove_session
remove_session-IsConsistent {H} {m} peer c =
    let c' = drop_active-IsConsistent peer c in
    shrink-IsConsistent _ _ c'
      (erase_if-IsSubmap _ (drop_active (find peer m.sessions) peer m).retired c'.retired_sorted)
      (erase_if-IsSubmap _ (drop_active (find peer m.sessions) peer m).pending_initiators
        c'.pending_sorted)
