-- ===== src/Session/Lookup.antt =====
-- Which sessions `find_session_by_id_locked` of src/session/session.cpp finds after a session was
-- superseded, and after a peer was removed.
use aegis.Prelude.{
  ℕ, Bool, true, none, some, ◌==◌, arith, ◌≡◌, ◌≢◌, refl, Option-cases, inl, inr, ltb, leb,
  if◌then◌else◌, sym, ap, ◌∙◌,
}
use aegis.Prelude.Maps.{Map, find, erase, find-insert, find-erase, find-erase_if}
use aegis.Prelude.Durations.{after}
use aegis.Session.{
  SessionState, RetiredSession, SessionManager, create_session, supersede, retire_session_locked,
  store_retired, purge_retired_locked, evict, drop_active, remove_session, find_session_locked,
  find_session_by_id_locked, get_session_by_id, snapshot_of,
}
use aegis.Session.Invariant.{IsConsistent}
use aegis.Session.Retire.{retire-Retires}
use aegis.Session.Steps.Locked.{drop_active-IsConsistent, remove_session-IsConsistent}

-- Retiring keeps the session, if any retired session may be kept.
store_retired-kept :
    {H : Type 0} (s : SessionState) (now : ℕ) (m : SessionManager H)
    → m.capacity.retired ≢ 0
    → find s.id (store_retired s now m).retired
      ≡ some (record { session = s; expires = after now m.retired_grace })
unfolding store_retired
store_retired-kept s now m room =
    ground
      (arith, find-insert s.id s.id entry (evict m.retired), find-insert s.id s.id entry m.retired)
  where
    entry : RetiredSession
    entry = record { session = s; expires = after now m.retired_grace }

retire_session_locked-kept :
    {H : Type 0} (s : SessionState) (now : ℕ) (m : SessionManager H)
    → m.capacity.retired ≢ 0
    → find s.id (retire_session_locked s now m).retired
      ≡ some (record { session = s; expires = after now m.retired_grace })
unfolding retire_session_locked purge_retired_locked
retire_session_locked-kept s now m room = store_retired-kept s now (purge_retired_locked now m) room

supersede_established :
    {H : Type 0} (s : SessionState) (now : ℕ) (m : SessionManager H) (kept : Map RetiredSession)
    → s.established ≡ true
    → retire_session_locked s now m ≡ record m { retired = kept }
    → supersede (some s) now m
      ≡ record m { session_to_peer = erase s.id m.session_to_peer; retired = kept }
unfolding supersede
supersede_established s now m kept h e = ground (arith, h, e)

-- In a consistent manager whose capacity for retired sessions is not 0, the session that a new one
-- with another id supersedes is still found under its id after a purge at a time before the grace
-- for retired sessions is over, and is not found after a purge from then on.
pub find-superseded :
    {H : Type 0} {m : SessionManager H} (peer id : ℕ) (keys : ℕ × ℕ) (local : Bool) (now later : ℕ)
    {s : SessionState}
    → IsConsistent m
    → find_session_locked peer m ≡ some s
    → s.id ≢ id
    → m.capacity.retired ≢ 0
    → find_session_by_id_locked s.id
        (purge_retired_locked later (create_session peer id keys local now m))
      ≡ (if ltb later (after now m.retired_grace) then some s else none)
unfolding create_session find_session_locked find_session_by_id_locked purge_retired_locked
find-superseded {H} {m} peer id keys local now later {s} c held ne room =
    let s_held : find peer m.sessions ≡ some s =
      ground (arith, Option-cases (find peer m.sessions)) in
    let a = c.active peer s s_held in
    let (kept, e, r) = retire-Retires s now c in
    let entry : find s.id kept
        ≡ some (record { session = s; expires = after now m.retired_grace }) =
      sym (ap (λ n. find s.id n.retired) e) ∙ retire_session_locked-kept s now m room in
    rw (s_held, supersede_established s now m kept a.established e)
      (ground (
        arith,
        a.established,
        entry,
        find-erase_if (λ i (q : RetiredSession). leb q.expires later) s.id kept r.sorted,
        find-insert id s.id peer (erase s.id m.session_to_peer),
        find-erase s.id s.id m.session_to_peer,
      ))

remove-no_session :
    {H : Type 0} (peer : ℕ) (m : SessionManager H)
    → find peer (remove_session peer m).sessions ≡ none
unfolding remove_session
remove-no_session peer m = elim (Option-cases (find peer m.sessions)) [
  | inl e ↦ ground arith
  | inr (s, e) ↦ ground (arith, find-erase peer peer m.sessions)
]

remove-no_retired :
    {H : Type 0} {m : SessionManager H} (peer id : ℕ) (r : RetiredSession)
    → IsConsistent m
    → find id (remove_session peer m).retired ≡ some r
    → r.session.peer_id ≢ peer
unfolding remove_session
remove-no_retired {H} {m} peer id r c e =
    let before = (drop_active (find peer m.sessions) peer m).retired in
    ground (
      arith,
      find-erase_if (λ i (q : RetiredSession). q.session.peer_id == peer) id before
          (drop_active-IsConsistent peer c).retired_sorted,
      Option-cases (find id before),
    )

-- After a peer is removed from a consistent manager no session of it is found, by its NodeID or by any id.
pub remove_session-forgets :
    {H : Type 0} {m : SessionManager H} (peer : ℕ)
    → IsConsistent m
    → (find_session_locked peer (remove_session peer m) ≡ none)
      × ((id : ℕ) (s : SessionState)
          → find_session_by_id_locked id (remove_session peer m) ≡ some s
          → s.peer_id ≢ peer)
unfolding find_session_locked find_session_by_id_locked
remove_session-forgets {H} {m} peer c =
    let n = remove_session peer m in
    let after_removal = remove_session-IsConsistent peer c in
    (
      ground (arith, remove-no_session peer m),
      λ id s e same. elim (Option-cases (find id n.session_to_peer)) [
        | inr (p, f) ↦ elim (Option-cases (find p n.sessions)) [
          | inl g ↦ absurd (ground arith)
          | inr (t, g) ↦
              let a = after_removal.active p t g in
              absurd (ground (arith, a.named, remove-no_session peer m))
        ]
        | inl f ↦ elim (Option-cases (find id n.retired)) [
          | inl g ↦ absurd (ground arith)
          | inr (r, g) ↦ absurd (ground (arith, remove-no_retired peer id r c g))
        ]
      ],
    )

-- In a consistent manager, `get_session_by_id` shows the session that `decrypt_message` would use,
-- though the two look for it in different ways.
pub get_session_by_id-find :
    {H : Type 0} {m : SessionManager H} (id : ℕ)
    → IsConsistent m
    → get_session_by_id id m ≡ snapshot_of (find_session_by_id_locked id m)
unfolding get_session_by_id find_session_by_id_locked
get_session_by_id-find {H} {m} id c = elim (Option-cases (find id m.session_to_peer)) [
  | inl e ↦ rw e refl
  | inr (peer, e) ↦
      let (s, held, named) = c.owned id peer e in
      let a = c.active peer s held in rw (e, held, a.established) refl
]
