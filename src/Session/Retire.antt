-- ===== src/Session/Retire.antt =====
-- The retired sessions of src/session/session.cpp: purging, eviction at capacity, retirement.
use aegis.Prelude.{
  ℕ, suc, ◌≤◌, ◌<◌, Bool, true, false, ◌||◌, not, ◌&&◌, none, some, [], ◌∷◌, length, leb, ◌==◌,
  arith, ◌≡◌, refl, ◌⊎◌, inl, inr, Bool-cases, Option-cases, ==_iff,
}
use aegis.Prelude.Maps.{
  Map, find, insert, erase_if, has, IsSorted, find-erase_if, erase_if-Above, length-erase_if,
  length-erase, find-insert, insert-Above, length-insert,
}
use aegis.Prelude.Durations.{after}
use aegis.Session.{
  SessionState, RetiredSession, PendingInitiator, SessionManager, purge_retired_locked,
  purge_incomplete_handshakes_locked, min_element, evict, store_retired, retire_session_locked,
}
use aegis.Session.Invariant.{IsConsistent}

-- One map holds no more than another.
pub record IsSubmap {V : Type 0} (m n : Map V) : Type 0 where
  pub sorted : IsSorted m
  pub shorter : length m ≤ length n
  pub within : (k : ℕ) (v : V) → find k m ≡ some v → find k n ≡ some v

pub erase_if-IsSubmap :
    {V : Type 0} (p : ℕ → V → Bool) (m : Map V) → IsSorted m → IsSubmap (erase_if p m) m
erase_if-IsSubmap p m s = record {
  sorted = erase_if-Above 0 p m s;
  shorter = length-erase_if p m;
  within = λ k v e. ground (arith, find-erase_if p k m s, Option-cases (find k m));
}

pub same-IsSubmap : {V : Type 0} (m : Map V) → IsSorted m → IsSubmap m m
same-IsSubmap m s = record { sorted = s; shorter = omega arith; within = λ k v e. e }

none_of_submap :
    {V : Type 0} {m n : Map V} (k : ℕ) → IsSubmap m n → find k n ≡ none → find k m ≡ none
none_of_submap {V} {m} {n} k h e = elim (Option-cases (find k m)) [
  | inl f ↦ f
  | inr (v, f) ↦ absurd (ground (arith, h.within k v))
]

-- Dropping retired sessions and handshakes in progress leaves a consistent manager.
pub shrink-IsConsistent :
    {H : Type 0} {m : SessionManager H} (retired : Map RetiredSession)
    (pending : Map (PendingInitiator H))
    → IsConsistent m
    → IsSubmap retired m.retired
    → IsSubmap pending m.pending_initiators
    → IsConsistent (record m { retired = retired; pending_initiators = pending })
shrink-IsConsistent {H} {m} retired pending c r p = record {
  sessions_sorted = c.sessions_sorted;
  routes_sorted = c.routes_sorted;
  retired_sorted = r.sorted;
  pending_sorted = p.sorted;
  active = c.active;
  owned = c.owned;
  retired_apart = λ id s e. c.retired_apart id s (r.within id s e);
  pending_apart = λ id s e.
      let (routes, apart) = c.pending_apart id s (p.within id s e) in
      (routes, none_of_submap id r apart);
  active_bounded = c.active_bounded;
  retired_bounded = omega (arith, r.shorter, c.retired_bounded);
  pending_bounded = omega (arith, p.shorter, c.pending_bounded);
}

pub purge_retired-IsConsistent :
    {H : Type 0} {m : SessionManager H} (now : ℕ)
    → IsConsistent m
    → IsConsistent (purge_retired_locked now m)
unfolding purge_retired_locked
purge_retired-IsConsistent {H} {m} now c =
    shrink-IsConsistent _ _ c (erase_if-IsSubmap _ m.retired c.retired_sorted)
      (same-IsSubmap m.pending_initiators c.pending_sorted)

pub purge_incomplete-IsConsistent :
    {H : Type 0} {m : SessionManager H} (now : ℕ)
    → IsConsistent m
    → IsConsistent (purge_incomplete_handshakes_locked now m)
unfolding purge_incomplete_handshakes_locked
purge_incomplete-IsConsistent {H} {m} now c =
    shrink-IsConsistent _ _ c (same-IsSubmap m.retired c.retired_sorted)
      (erase_if-IsSubmap _ m.pending_initiators c.pending_sorted)

-- The entry that `min_element` picks is one of the entries.
min_element-has :
    (best : ℕ × RetiredSession) (m : Map RetiredSession)
    → (((min_element best m).0 == best.0) || has (min_element best m).0 m) ≡ true
unfolding find
min_element-has best [] = ground arith
min_element-has best (entry ∷ m) = ground (arith, min_element-has entry m, min_element-has best m)

-- Eviction makes room for one, and drops nothing but the victim.
pub evict-IsSubmap : (m : Map RetiredSession) → IsSorted m → IsSubmap (evict m) m
unfolding evict
evict-IsSubmap [] s = same-IsSubmap [] s
evict-IsSubmap (entry ∷ m) s = erase_if-IsSubmap _ (entry ∷ m) s

pub length-evict :
    (m : Map RetiredSession) → IsSorted m → 0 < length m → suc (length (evict m)) ≡ length m
unfolding evict find
length-evict [] s h = absurd (omega arith)
length-evict (entry ∷ m) s h =
    ground (arith, min_element-has entry m, length-erase (min_element entry m).0 (entry ∷ m) s)

-- What `retire_session_locked` makes of the retired sessions: those that were there, less some, and
-- the session that is retired.
pub record Retires (s : SessionState) (cap : ℕ) (before kept : Map RetiredSession) : Type 0 where
  pub sorted : IsSorted kept
  pub bounded : length kept ≤ cap
  pub origin :
      (id : ℕ) (r : RetiredSession)
      → find id kept ≡ some r
      → ((id ≡ s.id) × (r.session ≡ s)) ⊎ (find id before ≡ some r)

insert-Retires :
    (s : SessionState) (cap expires : ℕ) (before room : Map RetiredSession)
    → IsSubmap room before
    → length before ≤ cap
    → (has s.id room ≡ true) ⊎ (length room < cap)
    → Retires s cap before (insert s.id (record { session = s; expires = expires }) room)
insert-Retires s cap expires before room sub h fits = record {
  sorted = insert-Above 0 s.id _ room (omega arith) sub.sorted;
  bounded = ground (
    arith,
    length-insert s.id (record { session = s; expires = expires }) room sub.sorted,
    sub.shorter,
  );
  origin = λ id r e. ground (
    arith,
    find-insert s.id id (record { session = s; expires = expires }) room,
    sub.within id r,
    ==_iff s.id id,
  );
}

shrink-Retires :
    (s : SessionState) (cap : ℕ) (before kept : Map RetiredSession)
    → IsSubmap kept before
    → length before ≤ cap
    → Retires s cap before kept
shrink-Retires s cap before kept sub h = record {
  sorted = sub.sorted;
  bounded = omega (arith, sub.shorter);
  origin = λ id r e. inr (sub.within id r e);
}

room_left :
    (known : Bool) (cap size : ℕ)
    → (not known && leb cap size) ≡ false
    → (known ≡ true) ⊎ (size < cap)
room_left true cap size h = inl refl
room_left false cap size h = inr (ground arith)

store_retired-Retires :
    {H : Type 0} (s : SessionState) (now : ℕ) (m : SessionManager H)
    → IsSorted m.retired
    → length m.retired ≤ m.capacity.retired
    → (kept : Map RetiredSession) × (store_retired s now m ≡ record m { retired = kept })
      × Retires s m.capacity.retired m.retired kept
unfolding store_retired
store_retired-Retires s now m sorted h = elim (Bool-cases (m.capacity.retired == 0)) [
  | inl e ↦ (m.retired, rw e, shrink-Retires s _ _ _ (same-IsSubmap m.retired sorted) h)
  | inr e ↦
      elim (Bool-cases (not (has s.id m.retired) && leb m.capacity.retired (length m.retired))) [
        | inl f ↦ (
          insert s.id entry (evict m.retired),
          rw (e, f),
          insert-Retires s _ entry.expires m.retired (evict m.retired)
              (evict-IsSubmap m.retired sorted) h
              (inr (ground (arith, length-evict m.retired sorted))),
        )
        | inr f ↦ (
          insert s.id entry m.retired,
          rw (e, f),
          insert-Retires s _ entry.expires m.retired m.retired (same-IsSubmap m.retired sorted) h
              (room_left (has s.id m.retired) m.capacity.retired (length m.retired) f),
        )
      ]
]
  where
    entry : RetiredSession
    entry = record { session = s; expires = after now m.retired_grace }

pub retire-Retires :
    {H : Type 0} (s : SessionState) (now : ℕ) {m : SessionManager H}
    → IsConsistent m
    → (kept : Map RetiredSession) × (retire_session_locked s now m ≡ record m { retired = kept })
      × Retires s m.capacity.retired m.retired kept
unfolding retire_session_locked purge_retired_locked
retire-Retires s now {m} c =
    let purged = erase_if (λ id r. leb r.expires now) m.retired in
    let sub =
      erase_if-IsSubmap (λ id (r : RetiredSession). leb r.expires now) m.retired c.retired_sorted in
    let (kept, e, r) =
      store_retired-Retires s now (record m { retired = purged }) sub.sorted
        (omega (arith, sub.shorter, c.retired_bounded)) in
    (
      kept,
      e,
      record {
        sorted = r.sorted;
        bounded = r.bounded;
        origin = λ id entry f. elim (r.origin id entry f) [
          | inl same ↦ inl same
          | inr old ↦ inr (sub.within id entry old)
        ];
      },
    )
