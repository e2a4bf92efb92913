-- ===== src/SendQueue/Enqueue.antt =====
-- `enqueue` of include/aegis/transport/send_queue.hpp keeps the queue well formed and appends to
-- one lane.
use aegis.Prelude.{
  ℕ, ◌+◌, ◌≤◌, ◌<◌, false, ◌&&◌, not, Option, some, List, [], ◌∷◌, ◌++◌, length, length-append,
  contains, contains-append, append-IsDistinct, ◌==◌, if◌then◌else◌, arith, ◌≡◌, refl, inl, inr,
  add_size, length-first_bytes, Readable, first_bytes, null_with_bytes, ◌⊎◌, ◌≢◌,
}
use aegis.Prelude.Maps.{find, sum, IsSorted, insert-Above, find-insert}
use aegis.SendQueue.{
  SendPriority, data_priority, PeerQueue, QueueLane, SendQueue, select, update, or_empty, lane_of,
  is_empty, queued, admission, append_datagram, enqueue, both, empty_lane,
}
use aegis.SendQueue.Invariant.{total-append, items_in, bytes_in, vacant, IsClassValid, IsValid}
use aegis.SendQueue.Lanes.{
  same, select-update, lane-insert, sum-insert_peer, same_class, items_zero, bytes_zero,
}

-- The lane after the append.
abbrev pub longer : SendQueue → ℕ → List ℕ → SendPriority → QueueLane
longer q k d p = record {
  items = (lane_of p k q).items ++ d ∷ [];
  bytes = add_size (lane_of p k q).bytes (length d);
}

pub lane-append :
    (q : SendQueue) (k : ℕ) (d : List ℕ) (p r : SendPriority) (j : ℕ)
    → lane_of r j (append_datagram k d p q)
      ≡ (if k == j && same p r then longer q k d p else lane_of r j q)
unfolding append_datagram
lane-append q k d p r j = lane-insert p r k j (longer q k d p) q.peers

-- What the checks of `enqueue` leave.
pub record Admitted (k len : ℕ) (p : SendPriority) (q : SendQueue) : Type 0 where
  pub peer_items : length (lane_of p k q).items < (select p q.limits).max_items_per_peer
  pub peer_bytes : (lane_of p k q).bytes + len ≤ (select p q.limits).max_bytes_per_peer
  pub global_items : (select p q.totals).items < (select p q.limits).max_items_global
  pub global_bytes : (select p q.totals).bytes + len ≤ (select p q.limits).max_bytes_global

-- The wrapping subtractions of the checks are exact.
pub admission-Admitted :
    {q : SendQueue} (k len : ℕ) (p : SendPriority)
    → IsClassValid p q
    → admission k len p q ≡ queued
    → Admitted k len p q
unfolding admission
admission-Admitted {q} k len p v e =
    ground (arith, v.peer_items k, v.peer_bytes k, v.global_items, v.global_bytes, v.fits)

active-append :
    (q : SendQueue) (k : ℕ) (d : List ℕ) (p r : SendPriority)
    → select r (append_datagram k d p q).active ≡ (
        if same p r && is_empty (lane_of p k q).items
        then select p q.active ++ k ∷ []
        else select r q.active)
unfolding append_datagram
active-append q k d data_priority data_priority = ground arith
active-append q k d p r = ground arith

totals-append :
    (q : SendQueue) (k : ℕ) (d : List ℕ) (p r : SendPriority)
    → let totals = select p q.totals in
      select r (append_datagram k d p q).totals ≡ (
        if same p r
        then record { items = add_size totals.items 1; bytes = add_size totals.bytes (length d) }
        else select r q.totals)
unfolding append_datagram
totals-append q k d p r =
    select-update p r
      (record {
        items = add_size (select p q.totals).items 1;
        bytes = add_size (select p q.totals).bytes (length d);
      })
      q.totals

limits-append :
    (q : SendQueue) (k : ℕ) (d : List ℕ) (p : SendPriority)
    → (append_datagram k d p q).limits ≡ q.limits
unfolding append_datagram
limits-append q k d p = refl

-- What the datagram adds to a sum over the peers.
sum-append :
    (q : SendQueue) (k : ℕ) (d : List ℕ) (p : SendPriority) (f : PeerQueue → ℕ)
    → f (both empty_lane) ≡ 0
    → IsSorted q.peers
    → sum f (append_datagram k d p q).peers + f (or_empty (find k q.peers))
      ≡ sum f q.peers + f (update p (longer q k d p) (or_empty (find k q.peers)))
unfolding append_datagram
sum-append q k d p f z s = sum-insert_peer f z k _ q.peers s

-- The queue after an admitted datagram, seen from the traffic of kind `r`.
module _ (q : SendQueue) (k : ℕ) (d : List ℕ) (p r : SendPriority) (w : IsClassValid p q)
    (v : IsClassValid r q) (sorted : IsSorted q.peers) (a : Admitted k (length d) p q) where
  append-served :
      (j : ℕ)
      → contains j (select r (append_datagram k d p q).active)
        ≡ not (is_empty (lane_of r j (append_datagram k d p q)).items)
  append-served j = ground (
    arith,
    active-append q k d p r,
    lane-append q k d p r j,
    v.served j,
    w.served k,
    contains-append j (select p q.active) (k ∷ []),
  )

  append-IsClassValid : IsClassValid r (append_datagram k d p q)
  append-IsClassValid = record {
    distinct = ground (
      arith,
      active-append q k d p r,
      w.served k,
      append-IsDistinct (select p q.active) k,
      w.distinct,
      v.distinct,
    );
    served = append-served;
    counted = λ j. ground (
      arith,
      lane-append q k d p r j,
      v.counted j,
      w.counted k,
      w.fits,
      a.peer_bytes,
      total-append (lane_of p k q).items (d ∷ []),
    );
    total_items = ground (
      arith,
      totals-append q k d p r,
      v.total_items,
      same_class p r,
      w.fits,
      a.global_items,
      length-append (lane_of p k q).items (d ∷ []),
      sum-append q k d p (items_in r) (items_zero r) sorted,
      select-update p r (longer q k d p) (or_empty (find k q.peers)),
    );
    total_bytes = ground (
      arith,
      totals-append q k d p r,
      v.total_bytes,
      same_class p r,
      w.fits,
      a.global_bytes,
      a.peer_bytes,
      sum-append q k d p (bytes_in r) (bytes_zero r) sorted,
      select-update p r (longer q k d p) (or_empty (find k q.peers)),
    );
    peer_items = λ j. ground (
      arith,
      lane-append q k d p r j,
      v.peer_items j,
      a.peer_items,
      same_class p r,
      length-append (lane_of p k q).items (d ∷ []),
      limits-append q k d p,
    );
    peer_bytes = λ j. ground (
      arith,
      lane-append q k d p r j,
      v.peer_bytes j,
      a.peer_bytes,
      w.fits,
      same_class p r,
      limits-append q k d p,
    );
    global_items = ground (
      arith,
      totals-append q k d p r,
      v.global_items,
      a.global_items,
      w.fits,
      same_class p r,
      limits-append q k d p,
    );
    global_bytes = ground (
      arith,
      totals-append q k d p r,
      v.global_bytes,
      a.global_bytes,
      w.fits,
      same_class p r,
      limits-append q k d p,
    );
    fits = rw limits-append v.fits;
  }

append-IsSorted :
    (q : SendQueue) (k : ℕ) (d : List ℕ) (p : SendPriority)
    → IsSorted q.peers
    → IsSorted (append_datagram k d p q).peers
unfolding append_datagram
append-IsSorted q k d p s = insert-Above 0 k _ q.peers (omega arith) s

not_empty-append : (xs : List (List ℕ)) (d : List ℕ) → is_empty (xs ++ d ∷ []) ≡ false
not_empty-append [] d = refl
not_empty-append (x ∷ xs) d = refl

append_occupied :
    (q : SendQueue) (k : ℕ) (d : List ℕ) (p : SendPriority) (j : ℕ) (peer : PeerQueue)
    → ((i : ℕ) (other : PeerQueue) → find i q.peers ≡ some other → vacant other ≡ false)
    → find j (append_datagram k d p q).peers ≡ some peer
    → vacant peer ≡ false
unfolding append_datagram
append_occupied q k d data_priority j peer o e =
    let changed = update data_priority (longer q k d data_priority) (or_empty (find k q.peers)) in
    ground (
      arith,
      find-insert k j changed q.peers,
      o j peer,
      not_empty-append (lane_of data_priority k q).items d,
    )
append_occupied q k d p j peer o e =
    let changed = update p (longer q k d p) (or_empty (find k q.peers)) in
    ground
      (arith, find-insert k j changed q.peers, o j peer, not_empty-append (lane_of p k q).items d)

append-IsValid :
    {q : SendQueue} (k : ℕ) (d : List ℕ) (p : SendPriority)
    → IsValid q
    → Admitted k (length d) p q
    → IsValid (append_datagram k d p q)
append-IsValid {q} k d p v a = record {
  sorted = append-IsSorted q k d p v.sorted;
  classes = λ r. append-IsClassValid q k d p r (v.classes p) (v.classes r) v.sorted a;
  occupied = λ j peer e. append_occupied q k d p j peer v.occupied e;
}

-- `enqueue` either queues the datagram, having passed its checks, or changes nothing.
pub enqueue-cases :
    {q : SendQueue} (k : ℕ) (buffer : Option (List ℕ)) (len : ℕ) (p : SendPriority)
    → ((null_with_bytes buffer len ≡ false)
        × (admission k len p q ≡ queued)
        × (enqueue k buffer len p q ≡ (queued, append_datagram k (first_bytes buffer len) p q)))
      ⊎ (((enqueue k buffer len p q).0 ≢ queued) × ((enqueue k buffer len p q).1 ≡ q))
unfolding enqueue
enqueue-cases {q} k buffer len p = ground arith

-- `enqueue` keeps a well-formed queue well formed, whatever readable buffer it is given.
pub enqueue-IsValid :
    {q : SendQueue} (k : ℕ) (buffer : Option (List ℕ)) (len : ℕ) (p : SendPriority)
    → Readable buffer len
    → IsValid q
    → IsValid (enqueue k buffer len p q).1
enqueue-IsValid {q} k buffer len p h v = elim (enqueue-cases {q = q} k buffer len p) [
  | inl (n, a, e) ↦
      let size = length-first_bytes buffer len h n in
      rw e (
        append-IsValid k (first_bytes buffer len) p v
          (rw size (admission-Admitted k len p (v.classes p) a)))
  | inr (n, e) ↦ rw e v
]

-- A datagram that is queued stands behind what its lane held, and every other lane is as it was.
pub enqueue_appends :
    (q : SendQueue) (k : ℕ) (buffer : Option (List ℕ)) (len : ℕ) (p r : SendPriority) (j : ℕ)
    → (enqueue k buffer len p q).0 ≡ queued
    → (lane_of r j (enqueue k buffer len p q).1).items ≡ (
        if k == j && same p r
        then (lane_of p k q).items ++ first_bytes buffer len ∷ []
        else (lane_of r j q).items)
enqueue_appends q k buffer len p r j h = elim (enqueue-cases {q = q} k buffer len p) [
  | inl (n, a, e) ↦ rw e (ground (arith, lane-append q k (first_bytes buffer len) p r j))
  | inr (n, e) ↦ absurd (n h)
]
