-- ===== src/Session/Collision.antt =====
-- `handle_handshake_init` of src/session/session.cpp where two nodes call each other at once, and
-- where a message comes again.
use aegis.Prelude.{ℕ, ◌+◌, ◌<◌, true, false, some, length, leb, ◌==◌, arith, ◌≡◌, ◌⊎◌, Option-cases}
use aegis.Prelude.Maps.{
  Map, find_if, insert, erase, erase_if, has, IsSorted, find-insert, find-erase_if, insert-Above,
  erase_if-Above,
}
use aegis.Session.{
  PendingInitiator, SessionManager, purge_incomplete_handshakes_locked,
  purge_handshake_replays_locked,
}
use aegis.Session.Handshake.{resolve_collision, screen_init}

-- The manager, at a time, has a call to the peer under way, the first with that session id, has not
-- seen the message, and could hold the peer's session.
pub record IsCalling {H : Type 0} (key peer id now : ℕ) (m : SessionManager H) : Type 0 where
  pub call : PendingInitiator H
  pub calling :
      find_if
        (λ i (p : PendingInitiator H). p.expected_peer_id == peer)
        (purge_incomplete_handshakes_locked now m).pending_initiators
      ≡ some (id, call)
  pub unseen : has key (purge_handshake_replays_locked now m).handshake_replays ≡ false
  pub room : (has peer m.sessions ≡ true) ⊎ (length m.sessions < m.capacity.active)

-- Of two nodes that each have a call to the other under way, have room for the session and see the
-- other's message for the first time, the second locked part of `handle_handshake_init` refuses the
-- message at the node of the smaller NodeID, which keeps the calls that have not expired, and
-- lets it through at the other, which drops its own call and no other of those.
pub resolve_collision-one_answers :
    {H K : Type 0} (a b key key' id id' now now' : ℕ) (m : SessionManager H) (n : SessionManager K)
    → a < b
    → IsCalling key b id now m
    → IsCalling key' a id' now' n
    → ((resolve_collision key a b now m).0 ≡ false)
      × ((resolve_collision key a b now m).1.pending_initiators
          ≡ (purge_incomplete_handshakes_locked now m).pending_initiators)
      × ((resolve_collision key' b a now' n).0 ≡ true)
      × ((resolve_collision key' b a now' n).1.pending_initiators
          ≡ erase id' (purge_incomplete_handshakes_locked now' n).pending_initiators)
unfolding resolve_collision purge_incomplete_handshakes_locked purge_handshake_replays_locked
resolve_collision-one_answers a b key key' id id' now now' m n h c d = (
  ground (arith, c.calling, c.unseen),
  ground (arith, c.calling, c.unseen),
  ground (arith, d.calling, d.unseen, d.room),
  ground (arith, d.calling, d.unseen, d.room),
)

kept_replay :
    (key expires now later : ℕ) (replays : Map ℕ)
    → IsSorted replays
    → later < expires
    → has key
        (erase_if (λ k e. leb e later) (insert key expires (erase_if (λ k e. leb e now) replays)))
      ≡ true
kept_replay key expires now later replays s h =
    let seen = erase_if (λ k e. leb e now) replays in
    ground (
      arith,
      find-erase_if (λ k e. leb e later) key (insert key expires seen)
          (insert-Above 0 key expires seen (omega arith) (erase_if-Above 0 _ replays s)),
      find-insert key key expires seen,
    )

-- A message that the second locked part has let through is screened out by the first locked part,
-- whatever its session id, until its record expires; the replay records are sorted by key.
pub screen_init-seen :
    {H : Type 0} (key node peer id now later : ℕ) (m : SessionManager H)
    → IsSorted m.handshake_replays
    → (resolve_collision key node peer now m).0 ≡ true
    → later < now + m.handshake_replay_ttl
    → (screen_init key id later (resolve_collision key node peer now m).1).0 ≡ false
unfolding resolve_collision screen_init purge_incomplete_handshakes_locked
    purge_handshake_replays_locked
screen_init-seen key node peer id now later m s e h =
    let calls = erase_if (λ i (p : PendingInitiator _). leb p.expires now) m.pending_initiators in
    let kept = kept_replay key (now + m.handshake_replay_ttl) now later m.handshake_replays s h in
    ground (
      arith,
      kept,
      Option-cases (find_if (λ i (p : PendingInitiator _). p.expected_peer_id == peer) calls),
    )
