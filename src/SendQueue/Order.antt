-- ===== src/SendQueue/Order.antt =====
-- The order in which `BasicBoundedSendQueue::pop` of include/aegis/transport/send_queue.hpp hands
-- datagrams out.
use aegis.Prelude.{
  ℕ, true, ◌&&◌, none, some, List, [], ◌∷◌, ◌++◌, ◌==◌, if◌then◌else◌, arith, ◌≡◌, refl, inl, inr,
  List-cases,
}
use aegis.SendQueue.{
  SendPriority, data_priority, control_priority, SendQueue, select, lane_of, is_empty, pop,
  QueuedDatagram,
}
use aegis.SendQueue.Invariant.{IsClassValid, IsValid}
use aegis.SendQueue.Lanes.{same}
use aegis.SendQueue.Pop.{popped-IsValid, items-popped, active-popped, pop-cases}

-- `pop` keeps a well-formed queue well formed.
pub pop-IsValid : {q : SendQueue} → IsValid q → IsValid (pop q).1
pop-IsValid {q} v = elim (pop-cases v) [
  | inl (c, d, e) ↦ rw e v
  | inr (p, k, active, d, rest, t) ↦ rw t.result (popped-IsValid k d rest p active v t.turn t.lane)
]

-- A kind of traffic with no peer in its round has nothing queued.
idle_lane :
    {q : SendQueue} (p : SendPriority) (k : ℕ)
    → IsClassValid p q
    → select p q.active ≡ []
    → (lane_of p k q).items ≡ []
idle_lane {q} p k v e = ground (arith, v.served k, List-cases (lane_of p k q).items)

-- A `pop` of a well-formed queue comes back empty only when no peer has anything queued.
pub pop-none :
    {q : SendQueue} (p : SendPriority) (k : ℕ)
    → IsValid q
    → (pop q).0 ≡ none
    → (lane_of p k q).items ≡ []
pop-none {q} p k v h = elim (pop-cases v) [
  | inl (c, d, e) ↦ idle p c d
  | inr (r, j, active, d, rest, t) ↦ ground (arith, t.result)
]
  where
    idle :
        (p : SendPriority)
        → q.active.control_class ≡ []
        → q.active.data_class ≡ []
        → (lane_of p k q).items ≡ []
    idle data_priority c d = idle_lane data_priority k (v.classes data_priority) d
    idle control_priority c d = idle_lane control_priority k (v.classes control_priority) c

-- What a `pop` of a well-formed queue hands out is the oldest datagram of its peer's lane, and every
-- other lane is as it was.
pub pop_oldest :
    {q : SendQueue} {d : QueuedDatagram} (r : SendPriority) (j : ℕ)
    → IsValid q
    → (pop q).0 ≡ some d
    → (lane_of r j q).items ≡ (
        if d.peer_key == j && same d.priority r
        then d.bytes ∷ (lane_of r j (pop q).1).items
        else (lane_of r j (pop q).1).items)
pop_oldest {q} {d} r j v h = elim (pop-cases v) [
  | inl (c, e, f) ↦ ground (arith, f)
  | inr (p, k, active, first, rest, t) ↦
      ground (arith, t.result, t.lane, items-popped q k first rest p r active j)
]

-- From a well-formed queue, data goes out only when no control datagram waits, for any peer.
pub pop_control_first :
    {q : SendQueue} {d : QueuedDatagram} (k : ℕ)
    → IsValid q
    → (pop q).0 ≡ some d
    → d.priority ≡ data_priority
    → (lane_of control_priority k q).items ≡ []
pop_control_first {q} {d} k v h e = elim (pop-cases v) [
  | inl (c, f, g) ↦ ground (arith, g)
  | inr (data_priority, j, active, first, rest, t) ↦
      idle_lane control_priority k (v.classes control_priority) t.goes
  | inr (control_priority, j, active, first, rest, t) ↦ ground (arith, t.result)
]

same_self : (p : SendPriority) → same p p ≡ true
same_self data_priority = refl
same_self control_priority = refl

-- In a well-formed queue the peers of a kind take turns: the peer that was served goes from the
-- front of the round to its end, or leaves it with nothing left to send.
pub pop_rotates :
    {q : SendQueue} {d : QueuedDatagram}
    → IsValid q
    → (pop q).0 ≡ some d
    → (active : List ℕ) × (select d.priority q.active ≡ d.peer_key ∷ active)
      × (select d.priority (pop q).1.active ≡ (
          if is_empty (lane_of d.priority d.peer_key (pop q).1).items
          then active
          else active ++ d.peer_key ∷ []))
pop_rotates {q} {d} v h = elim (pop-cases v) [
  | inl (c, e, f) ↦ absurd (ground (arith, f))
  | inr (p, k, active, first, rest, t) ↦ (
    active,
    ground (arith, t.result, t.turn),
    ground (
      arith,
      t.result,
      same_self p,
      active-popped q k first rest p p active,
      items-popped q k first rest p p active k,
    ),
  )
]
