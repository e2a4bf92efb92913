-- ===== src/SendQueue/Lanes.antt =====
-- What an update of one lane of one peer does to all the lanes of the send queue.
use aegis.Prelude.{
  ℕ, ◌+◌, Bool, true, false, ◌&&◌, ◌==◌, if◌then◌else◌, arith, ◌≡◌, refl, Option-cases, Bool-cases,
  inl, inr,
}
use aegis.Prelude.Maps.{
  Map, find, insert, find-insert, find-erase, sum, sum-insert, sum-erase, IsSorted, erase_if-Above,
  insert-Above,
}
use aegis.SendQueue.{
  SendPriority, data_priority, control_priority, PerClass, PeerQueue, QueueLane, select, update,
  or_empty, both, empty_lane, put_peer,
}
use aegis.SendQueue.Invariant.{vacant, total, items_in, bytes_in}

abbrev pub same : SendPriority → SendPriority → Bool
same data_priority data_priority = true
same control_priority control_priority = true
same _ _ = false

pub select-update :
    {A : Type 0} (p r : SendPriority) (a : A) (c : PerClass A)
    → select r (update p a c) ≡ (if same p r then a else select r c)
select-update data_priority data_priority a c = refl
select-update data_priority control_priority a c = refl
select-update control_priority data_priority a c = refl
select-update control_priority control_priority a c = refl

pub select-both : {A : Type 0} (r : SendPriority) (a : A) → select r (both a) ≡ a
select-both data_priority a = refl
select-both control_priority a = refl

-- The lane of a peer in a map.
abbrev pub lane_at : SendPriority → ℕ → Map PeerQueue → QueueLane
lane_at r j m = select r (or_empty (find j m))

pub lane-insert :
    (p r : SendPriority) (k j : ℕ) (lane : QueueLane) (m : Map PeerQueue)
    → lane_at r j (insert k (update p lane (or_empty (find k m))) m)
      ≡ (if k == j && same p r then lane else lane_at r j m)
lane-insert p r k j lane m = ground (
  arith,
  find-insert k j (update p lane (or_empty (find k m))) m,
  select-update p r lane (or_empty (find k m)),
)

-- The same for `pop`, which erases a peer with nothing left; the bytes of what it erases are 0.
pub items-put :
    (p r : SendPriority) (k j : ℕ) (lane : QueueLane) (m : Map PeerQueue)
    → (lane_at r j (put_peer k (update p lane (or_empty (find k m))) m)).items
      ≡ (if k == j && same p r then lane.items else (lane_at r j m).items)
items-put data_priority data_priority k j lane m =
    let peer = update data_priority lane (or_empty (find k m)) in
    ground (arith, find-insert k j peer m, find-erase k j m)
items-put p r k j lane m =
    let peer = update p lane (or_empty (find k m)) in
    ground (arith, find-insert k j peer m, find-erase k j m)

-- A lane's count of bytes is that of its datagrams.
abbrev pub IsCounted : QueueLane → Type 0
IsCounted lane = lane.bytes ≡ total lane.items

pub put-IsCounted :
    (p r : SendPriority) (k j : ℕ) (lane : QueueLane) (m : Map PeerQueue)
    → IsCounted lane
    → IsCounted (lane_at r j m)
    → IsCounted (lane_at r j (put_peer k (update p lane (or_empty (find k m))) m))
put-IsCounted data_priority data_priority k j lane m c d =
    let peer = update data_priority lane (or_empty (find k m)) in
    ground (arith, find-insert k j peer m, find-erase k j m)
put-IsCounted p r k j lane m c d =
    let peer = update p lane (or_empty (find k m)) in
    ground (arith, find-insert k j peer m, find-erase k j m)

-- The sums over the peers, for a quantity that is 0 at a peer with nothing queued.
module _ (f : PeerQueue → ℕ) (zero_at_empty : f (both empty_lane) ≡ 0) where
  pub sum-insert_peer :
      (k : ℕ) (peer : PeerQueue) (m : Map PeerQueue)
      → IsSorted m
      → sum f (insert k peer m) + f (or_empty (find k m)) ≡ sum f m + f peer
  sum-insert_peer k peer m s = ground (arith, sum-insert f k peer m s, Option-cases (find k m))

  pub sum-put_peer :
      (k : ℕ) (peer : PeerQueue) (m : Map PeerQueue)
      → IsSorted m
      → (vacant peer ≡ true → f peer ≡ 0)
      → sum f (put_peer k peer m) + f (or_empty (find k m)) ≡ sum f m + f peer
  sum-put_peer k peer m s z =
      ground (arith, sum-insert f k peer m s, sum-erase f k m s, Option-cases (find k m))

pub put_peer-IsSorted :
    (k : ℕ) (peer : PeerQueue) (m : Map PeerQueue) → IsSorted m → IsSorted (put_peer k peer m)
put_peer-IsSorted k peer m s = elim (Bool-cases (vacant peer)) [
  | inl e ↦ rw e (erase_if-Above 0 _ m s)
  | inr e ↦ rw e (insert-Above 0 k peer m (omega arith) s)
]

pub same_class : (p r : SendPriority) → same p r ≡ true → p ≡ r
same_class data_priority data_priority e = refl
same_class data_priority control_priority e = cc
same_class control_priority data_priority e = cc
same_class control_priority control_priority e = refl

pub items_zero : (r : SendPriority) → items_in r (both empty_lane) ≡ 0
items_zero data_priority = refl
items_zero r = refl

pub bytes_zero : (r : SendPriority) → bytes_in r (both empty_lane) ≡ 0
bytes_zero data_priority = refl
bytes_zero r = refl
