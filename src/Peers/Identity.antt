-- ===== src/Peers/Identity.antt =====
-- What the functions of src/peer/peer.cpp keep of a peer's identity.
use aegis.Prelude.{
  ℕ, Bool, true, ◌&&◌, not, Option, none, some, List, [], ◌∷◌, length, leb, ◌==◌, arith, ◌≡◌, ◌≢◌,
  refl, ◌∙◌, sym, Bool-cases, Option-cases, inl, inr,
}
use aegis.Prelude.Maps.{find, find-insert}
use aegis.Peers.{
  Peer, PeerManager, merged, new_peer, upsert_found, upsert, change, at_endpoint, alive, mark_seen,
  mark_hole_punched, mark_connecting, mark_dead, update_endpoint, set_candidates,
  set_endpoint_candidates, refused,
}
use aegis.Candidates.{EndpointCandidate}

-- A later record of a peer has the same id, the same key if there was one, and is trusted if the
-- earlier was.
pub record Succeeds (p q : Peer) : Type 0 where
  pub same_id : q.node_id ≡ p.node_id
  pub same_key : p.public_key ≢ 0 → q.public_key ≡ p.public_key
  pub still_trusted : p.trusted ≡ true → q.trusted ≡ true

-- The calls that the network causes.
pub data PeerCall : Type 0 where
  call_upsert : ℕ → ℕ → Option ℕ → Bool → ℕ → PeerCall
  call_seen : ℕ → Option ℕ → ℕ → PeerCall
  call_punched : ℕ → ℕ → ℕ → PeerCall
  call_connecting : ℕ → PeerCall
  call_dead : ℕ → PeerCall
  call_endpoint : ℕ → ℕ → ℕ → PeerCall
  call_candidates : ℕ → List EndpointCandidate → PeerCall

unfoldable pub call : PeerCall → PeerManager → PeerManager
unfolding upsert mark_seen mark_hole_punched mark_connecting mark_dead update_endpoint
    set_endpoint_candidates
call (call_upsert id key endpoint trusted now) m = (upsert id key endpoint trusted now m).1
call (call_seen id endpoint now) m = mark_seen id endpoint now m
call (call_punched id endpoint now) m = mark_hole_punched id endpoint now m
call (call_connecting id) m = mark_connecting id m
call (call_dead id) m = mark_dead id m
call (call_endpoint id endpoint now) m = update_endpoint id endpoint now m
call (call_candidates id candidates) m = (set_endpoint_candidates id candidates m).1

unfoldable pub run_calls : List PeerCall → PeerManager → PeerManager
unfolding call
run_calls [] m = m
run_calls (c ∷ calls) m = run_calls calls (call c m)

abbrev pub Later : Peer → Option Peer → Type 0
Later p o = (q : Peer) × (o ≡ some q) × Succeeds p q

Succeeds-refl : (p : Peer) → Succeeds p p
Succeeds-refl p = record { same_id = refl; same_key = λ h. refl; still_trusted = λ h. h }

-- A change of one peer that keeps its identity.
change-Later :
    (f : Peer → Peer) (id i : ℕ) (m : PeerManager) (p : Peer)
    → ((q : Peer) → Succeeds q (f q))
    → find i m.peers ≡ some p
    → Later p (find i (change f (find id m.peers) id m).peers)
unfolding change
change-Later f id i m p k h = elim (Option-cases (find id m.peers)) [
  | inl n ↦ rw n (p, h, Succeeds-refl p)
  | inr (r, n) ↦ rw n (elim (Bool-cases (id == i)) [
    | inl e ↦ (f p, ground (arith, find-insert id i (f r) m.peers, n, h, e), k p)
    | inr e ↦ (p, ground (arith, find-insert id i (f r) m.peers, h, e), Succeeds-refl p)
  ])
]

merged-Succeeds :
    (p : Peer) (key : ℕ) (endpoint : Option ℕ) (trusted : Bool)
    → Succeeds p (merged p key endpoint trusted)
unfolding merged
merged-Succeeds p key endpoint trusted = record {
  same_id = refl;
  same_key = λ h. ground (arith, h);
  still_trusted = λ h. ground (arith, h);
}

alive-Succeeds :
    (now : ℕ) (endpoint : Option ℕ) (p : Peer) → Succeeds p (alive now (at_endpoint endpoint p))
unfolding alive at_endpoint
alive-Succeeds now none p = record { same_id = refl; same_key = λ h. refl; still_trusted = λ h. h }
alive-Succeeds now (some endpoint) p = record {
  same_id = refl;
  same_key = λ h. refl;
  still_trusted = λ h. h;
}

upsert_found-Later :
    (id i key now : ℕ) (endpoint : Option ℕ) (trusted : Bool) (m : PeerManager) (p : Peer)
    → find i m.peers ≡ some p
    → Later p (find i (upsert_found (find id m.peers) id key endpoint trusted now m).1.peers)
unfolding upsert_found
upsert_found-Later id i key now endpoint trusted m p h = elim (Option-cases (find id m.peers)) [
  | inl n ↦ rw n (elim (Bool-cases (leb m.max_peers (length m.peers))) [
    | inl e ↦ rw e (p, h, Succeeds-refl p)
    | inr e ↦ rw e (
      p,
      ground (arith, find-insert id i (new_peer id key endpoint trusted now) m.peers, n, h),
      Succeeds-refl p,
    )
  ])
  | inr (r, n) ↦
      rw n
        (elim (Bool-cases
          (not (r.public_key == 0) && not (key == 0) && not (r.public_key == key))) [
            | inl e ↦ rw e (p, h, Succeeds-refl p)
            | inr e ↦ rw e (elim (Bool-cases (id == i)) [
              | inl k ↦ (
                merged p key endpoint trusted,
                ground (arith, find-insert id i (merged r key endpoint trusted) m.peers, n, h, k),
                merged-Succeeds p key endpoint trusted,
              )
              | inr k ↦ (
                p,
                ground (arith, find-insert id i (merged r key endpoint trusted) m.peers, h, k),
                Succeeds-refl p,
              )
            ])
          ])
]

set_endpoint_candidates-Later :
    (id i : ℕ) (candidates : List EndpointCandidate) (m : PeerManager) (p : Peer)
    → find i m.peers ≡ some p
    → Later p (find i (set_endpoint_candidates id candidates m).1.peers)
unfolding set_endpoint_candidates set_candidates
set_endpoint_candidates-Later id i candidates m p h =
    let given : Peer → Peer = λ q. record q { endpoint_candidates = candidates } in
    elim (Option-cases (find id m.peers)) [
      | inl n ↦ (p, ground (arith, n, h), Succeeds-refl p)
      | inr (r, n) ↦ elim (Bool-cases (refused candidates)) [
        | inl e ↦ rw e (p, h, Succeeds-refl p)
        | inr e ↦
            rw (e, n)
              (elim (Bool-cases (id == i)) [
                | inl k ↦ (
                  given p,
                  ground (arith, find-insert id i (given r) m.peers, n, h, k),
                  record { same_id = refl; same_key = λ z. refl; still_trusted = λ z. z },
                )
                | inr k ↦
                    (p, ground (arith, find-insert id i (given r) m.peers, h, k), Succeeds-refl p)
              ])
      ]
    ]

call-Later :
    (c : PeerCall) (i : ℕ) (m : PeerManager) (p : Peer)
    → find i m.peers ≡ some p
    → Later p (find i (call c m).peers)
unfolding call upsert mark_seen mark_hole_punched mark_connecting mark_dead update_endpoint alive
call-Later (call_upsert id key endpoint trusted now) i m p h =
    upsert_found-Later id i key now endpoint trusted m p h
call-Later (call_seen id endpoint now) i m p h =
    change-Later _ id i m p (alive-Succeeds now endpoint) h
call-Later (call_punched id endpoint now) i m p h =
    change-Later _ id i m p
      (λ q. record { same_id = refl; same_key = λ e. refl; still_trusted = λ e. e }) h
call-Later (call_connecting id) i m p h =
    change-Later _ id i m p
      (λ q. record { same_id = refl; same_key = λ e. refl; still_trusted = λ e. e }) h
call-Later (call_dead id) i m p h =
    change-Later _ id i m p
      (λ q. record { same_id = refl; same_key = λ e. refl; still_trusted = λ e. e }) h
call-Later (call_endpoint id endpoint now) i m p h =
    change-Later _ id i m p
      (λ q. record { same_id = refl; same_key = λ e. refl; still_trusted = λ e. e }) h
call-Later (call_candidates id candidates) i m p h =
    set_endpoint_candidates-Later id i candidates m p h

Succeeds-Later : (p q : Peer) (o : Option Peer) → Succeeds p q → Later q o → Later p o
Succeeds-Later p q o s (r, found, t) = (
  r,
  found,
  record {
    same_id = t.same_id ∙ s.same_id;
    same_key = λ h. t.same_key (λ z. h (sym (s.same_key h) ∙ z)) ∙ s.same_key h;
    still_trusted = λ h. t.still_trusted (s.still_trusted h);
  },
)

-- A peer that is known stays known through any calls that the network causes (every function that
-- changes peers but adding a whole record and removing a peer): its id and its key, once it has
-- one, never change, and its trust is never taken away.
pub run_calls-Later :
    (calls : List PeerCall) (i : ℕ) (m : PeerManager) (p : Peer)
    → find i m.peers ≡ some p
    → Later p (find i (run_calls calls m).peers)
unfolding run_calls
run_calls-Later [] i m p h = (p, h, Succeeds-refl p)
run_calls-Later (c ∷ calls) i m p h =
    let (q, found, s) = call-Later c i m p h in
    Succeeds-Later p q _ s (run_calls-Later calls i (call c m) q found)
