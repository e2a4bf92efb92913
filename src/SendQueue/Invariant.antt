-- ===== src/SendQueue/Invariant.antt =====
-- When a `BasicBoundedSendQueue` of include/aegis/transport/send_queue.hpp is well formed.
use aegis.Prelude.{
  ℕ, ◌+◌, ◌^◌, ◌≤◌, ◌<◌, Bool, false, ◌&&◌, not, some, List, [], ◌∷◌, ◌++◌, length, contains,
  IsDistinct, arith, ◌≡◌, refl,
}
use aegis.Prelude.Maps.{find, sum, IsSorted}
use aegis.SendQueue.{
  SendPriority, data_priority, control_priority, PeerQueue, SendQueue, SendQueueClassLimits, select,
  lane_of, is_empty, PerClass, construct,
}

-- The bytes of the queued datagrams.
abbrev pub total : List (List ℕ) → ℕ
total [] = 0
total (d ∷ ds) = length d + total ds

pub total-append : (xs ys : List (List ℕ)) → total (xs ++ ys) ≡ total xs + total ys
total-append [] ys = omega arith
total-append (x ∷ xs) ys = omega (arith, total-append xs ys)

abbrev pub items_in : SendPriority → PeerQueue → ℕ
items_in p peer = length (select p peer).items

abbrev pub bytes_in : SendPriority → PeerQueue → ℕ
bytes_in p peer = (select p peer).bytes

abbrev pub vacant : PeerQueue → Bool
vacant peer = is_empty peer.control_class.items && is_empty peer.data_class.items

-- `size_t` holds the limits.
pub record Fits (limits : SendQueueClassLimits) : Type 0 where
  pub peer_items : limits.max_items_per_peer < 2 ^ 64
  pub peer_bytes : limits.max_bytes_per_peer < 2 ^ 64
  pub global_items : limits.max_items_global < 2 ^ 64
  pub global_bytes : limits.max_bytes_global < 2 ^ 64

-- One kind of traffic: the peers in its round are those with something queued, each once; the
-- counters are the true sums; the limits hold for each peer and over all of them.
pub record IsClassValid (p : SendPriority) (q : SendQueue) : Type 0 where
  pub distinct : IsDistinct (select p q.active)
  pub served : (k : ℕ) → contains k (select p q.active) ≡ not (is_empty (lane_of p k q).items)
  pub counted : (k : ℕ) → (lane_of p k q).bytes ≡ total (lane_of p k q).items
  pub total_items : (select p q.totals).items ≡ sum (items_in p) q.peers
  pub total_bytes : (select p q.totals).bytes ≡ sum (bytes_in p) q.peers
  pub peer_items : (k : ℕ) → length (lane_of p k q).items ≤ (select p q.limits).max_items_per_peer
  pub peer_bytes : (k : ℕ) → (lane_of p k q).bytes ≤ (select p q.limits).max_bytes_per_peer
  pub global_items : (select p q.totals).items ≤ (select p q.limits).max_items_global
  pub global_bytes : (select p q.totals).bytes ≤ (select p q.limits).max_bytes_global
  pub fits : Fits (select p q.limits)

-- And no peer is kept with nothing queued.
pub record IsValid (q : SendQueue) : Type 0 where
  pub sorted : IsSorted q.peers
  pub classes : (p : SendPriority) → IsClassValid p q
  pub occupied : (k : ℕ) (peer : PeerQueue) → find k q.peers ≡ some peer → vacant peer ≡ false

-- A new queue whose limits fit `size_t` is well formed.
pub construct-IsValid :
    (limits : PerClass SendQueueClassLimits)
    → ((p : SendPriority) → Fits (select p limits))
    → IsValid (construct limits)
unfolding construct find sum
construct-IsValid limits f = record {
  sorted = tt;
  classes = empty_class;
  occupied = λ k peer e. cc;
}
  where
    empty_class : (p : SendPriority) → IsClassValid p (construct limits)
    empty_class data_priority = record {
      distinct = tt;
      served = λ k. refl;
      counted = λ k. refl;
      total_items = refl;
      total_bytes = refl;
      peer_items = λ k. omega arith;
      peer_bytes = λ k. omega arith;
      global_items = omega arith;
      global_bytes = omega arith;
      fits = f data_priority;
    }
    empty_class control_priority = record {
      distinct = tt;
      served = λ k. refl;
      counted = λ k. refl;
      total_items = refl;
      total_bytes = refl;
      peer_items = λ k. omega arith;
      peer_bytes = λ k. omega arith;
      global_items = omega arith;
      global_bytes = omega arith;
      fits = f control_priority;
    }
