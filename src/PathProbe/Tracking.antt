-- ===== src/PathProbe/Tracking.antt =====
-- The probes that wait for an answer in src/routing/path_probe.cpp.
use aegis.Prelude.{
  ℕ, ◌+◌, ◌-◌, ◌≤◌, ◌<◌, Bool, true, none, some, length, ◌==◌, if◌then◌else◌, arith, ◌≡◌,
  Option-cases,
}
use aegis.Prelude.Maps.{
  find, insert, erase_if, IsSorted, find-insert, find-erase, find-erase_if, insert-Above,
  erase_if-Above, length-insert, length-erase_if,
}
use aegis.Prelude.Durations.{pos}
use aegis.PathProbe.{
  PathProbeTarget, Pending, PathProbeTracker, timed_out, begin, acknowledge, expire, cancel,
}

-- No more probes wait than the maximum.
pub record IsBounded (t : PathProbeTracker) : Type 0 where
  pub sorted : IsSorted t.pending
  pub bounded : length t.pending ≤ t.maximum

-- A probe that was begun is answered by its destination in time, once: the answer gives the target
-- and the time that has passed, and the same answer again gives nothing.
pub acknowledge-begin :
    (id now later n : ℕ) (target : PathProbeTarget) (t : PathProbeTracker)
    → t.timeout ≡ pos n
    → (begin id target now t).0 ≡ true
    → now ≤ later
    → later < now + n
    → let t1 = (begin id target now t).1 in
      let first = acknowledge id target.destination target.route_sequence later t1 in
      (first.0 ≡ some (record { target = target; rtt = later - now }))
      × ((acknowledge id target.destination target.route_sequence later first.1).0 ≡ none)
unfolding begin acknowledge
acknowledge-begin id now later n target t e b h k = ground (
  arith,
  find-insert id id (record { target = target; sent_at = now }) t.pending,
  find-erase id id (insert id (record { target = target; sent_at = now }) t.pending),
)

-- No probe that has timed out waits after `expire`, and every other probe does.
pub find-expire :
    (now id : ℕ) (t : PathProbeTracker) (p : Pending)
    → IsBounded t
    → find id t.pending ≡ some p
    → find id (expire now t).1.pending
      ≡ (if timed_out t.timeout p.sent_at now then none else some p)
unfolding expire
find-expire now id t p v e = ground (
  arith,
  find-erase_if (λ i (q : Pending). timed_out t.timeout q.sent_at now) id t.pending v.sorted,
)

fewer-IsBounded :
    (p : ℕ → Pending → Bool) (t : PathProbeTracker)
    → IsBounded t
    → IsBounded (record t { pending = erase_if p t.pending })
fewer-IsBounded p t v = record {
  sorted = erase_if-Above 0 p t.pending v.sorted;
  bounded = omega (arith, length-erase_if p t.pending, v.bounded);
}

begin-IsBounded :
    (id now : ℕ) (target : PathProbeTarget) (t : PathProbeTracker)
    → IsBounded t
    → IsBounded (begin id target now t).1
unfolding begin
begin-IsBounded id now target t v =
    let entry : Pending = record { target = target; sent_at = now } in
    let s = insert-Above 0 id entry t.pending (omega arith) v.sorted in
    record {
      sorted = ground (arith, s, v.sorted);
      bounded = ground (arith, length-insert id entry t.pending v.sorted, v.bounded);
    }

acknowledge-IsBounded :
    (id responder sequence now : ℕ) (t : PathProbeTracker)
    → IsBounded t
    → IsBounded (acknowledge id responder sequence now t).1
unfolding acknowledge
acknowledge-IsBounded id responder sequence now t v =
    let w = fewer-IsBounded (λ j (p : Pending). j == id) t v in
    record {
      sorted = ground (arith, w.sorted, v.sorted, Option-cases (find id t.pending));
      bounded = ground (arith, w.bounded, v.bounded, Option-cases (find id t.pending));
    }

-- Beginning, answering, expiring and cancelling keep a tracker that is within its maximum so,
-- whatever their arguments and outcomes.
pub Step-IsBounded :
    (id responder sequence now : ℕ) (target : PathProbeTarget) (t : PathProbeTracker)
    → IsBounded t
    → IsBounded (begin id target now t).1
      × IsBounded (acknowledge id responder sequence now t).1
      × IsBounded (expire now t).1
      × IsBounded (cancel id t)
unfolding expire cancel
Step-IsBounded id responder sequence now target t v = (
  begin-IsBounded id now target t v,
  acknowledge-IsBounded id responder sequence now t v,
  fewer-IsBounded _ t v,
  fewer-IsBounded _ t v,
)
