-- ===== src/SendQueue.antt =====
-- include/aegis/transport/send_queue.hpp: `BasicBoundedSendQueue`, the bounded control and data
-- queues in front of the socket. A peer key is a number; the order of the keys is not observed.
pub mod Invariant
pub mod Lanes
pub mod Enqueue
pub mod Pop
pub mod Order
mod Tests
use aegis.Prelude.{
  ℕ, ◌+◌, ◌-◌, ◌*◌, ◌≤◌, Bool, true, false, ◌&&◌, Option, none, some, List, [], ◌∷◌, ◌++◌, length,
  take, ltb, leb, ◌==◌, if◌then◌else◌, not, add_size, sub_size, null_with_bytes, first_bytes,
}
use aegis.Prelude.Maps.{Map, find, insert, erase}

pub record SendQueueClassLimits : Type 0 where
  pub max_items_per_peer : ℕ
  pub max_bytes_per_peer : ℕ
  pub max_items_global : ℕ
  pub max_bytes_global : ℕ

-- Each field that the source doubles for the two kinds of traffic is a pair here.
pub record PerClass (A : Type 0) : Type 0 where
  pub data_class : A
  pub control_class : A

pub data SendPriority : Type 0 where
  data_priority control_priority : SendPriority

-- The ternaries on the priority: the field that a priority selects, and an update of it.
abbrev pub select : {A : Type 0} → SendPriority → PerClass A → A
select data_priority c = c.data_class
select control_priority c = c.control_class

abbrev pub update : {A : Type 0} → SendPriority → A → PerClass A → PerClass A
update data_priority a c = record c { data_class = a }
update control_priority a c = record c { control_class = a }

pub data SendQueueResult : Type 0 where
  queued invalid per_peer_item_limit per_peer_byte_limit global_item_limit global_byte_limit :
      SendQueueResult

pub record QueuedDatagram : Type 0 where
  pub peer_key : ℕ
  pub priority : SendPriority
  pub bytes : List ℕ

pub record QueueLane : Type 0 where
  pub items : List (List ℕ)
  pub bytes : ℕ

abbrev pub PeerQueue : Type 0
PeerQueue = PerClass QueueLane

-- Items and bytes queued, over all peers.
pub record Totals : Type 0 where
  pub items : ℕ
  pub bytes : ℕ

pub record SendQueue : Type 0 where
  pub limits : PerClass SendQueueClassLimits
  pub peers : Map PeerQueue
  pub active : PerClass (List ℕ)
  pub totals : PerClass Totals

abbrev pub both : {A : Type 0} → A → PerClass A
both a = record { data_class = a; control_class = a }

abbrev pub empty_lane : QueueLane
empty_lane = record { items = []; bytes = 0 }

abbrev pub empty_totals : Totals
empty_totals = record { items = 0; bytes = 0 }

unfoldable pub construct : PerClass SendQueueClassLimits → SendQueue
construct limits = record {
  limits = limits;
  peers = [];
  active = both [];
  totals = both empty_totals;
}

abbrev pub is_empty {ℓ} : {A : Type ℓ} → List A → Bool
is_empty [] = true
is_empty (x ∷ xs) = false

abbrev pub valid_class : SendQueueClassLimits → Bool
valid_class limits =
    ltb 0 limits.max_items_per_peer
    && ltb 0 limits.max_bytes_per_peer
    && ltb 0 limits.max_items_global
    && ltb 0 limits.max_bytes_global

abbrev pub valid_limits : SendQueue → Bool
valid_limits q = valid_class q.limits.control_class && valid_class q.limits.data_class

-- A peer's queues, empty ones for a peer that has none.
abbrev pub or_empty : Option PeerQueue → PeerQueue
or_empty none = both empty_lane
or_empty (some peer) = peer

abbrev pub lane_of : SendPriority → ℕ → SendQueue → QueueLane
lane_of priority k q = select priority (or_empty (find k q.peers))

-- The checks of `enqueue` before anything changes.
unfoldable pub admission : ℕ → ℕ → SendPriority → SendQueue → SendQueueResult
admission peer_key len priority q =
    let lane = lane_of priority peer_key q in
    let class_limits = select priority q.limits in
    let totals = select priority q.totals in
    if leb class_limits.max_items_per_peer (length lane.items)
    then per_peer_item_limit
    else if ltb (sub_size class_limits.max_bytes_per_peer lane.bytes) len
    then per_peer_byte_limit
    else if leb class_limits.max_items_global totals.items
    then global_item_limit
    else if ltb (sub_size class_limits.max_bytes_global totals.bytes) len
    then global_byte_limit
    else queued

-- The changes of `enqueue`.
unfoldable pub append_datagram : ℕ → List ℕ → SendPriority → SendQueue → SendQueue
append_datagram peer_key datagram priority q =
    let peer = or_empty (find peer_key q.peers) in
    let lane = select priority peer in
    let totals = select priority q.totals in
    let active = select priority q.active in
    record q {
      active =
          update priority (if is_empty lane.items then active ++ peer_key ∷ [] else active)
            q.active;
      peers =
          insert peer_key
            (update priority
              (record {
                items = lane.items ++ datagram ∷ [];
                bytes = add_size lane.bytes (length datagram);
              })
              peer)
            q.peers;
      totals =
          update priority
            (record {
              items = add_size totals.items 1;
              bytes = add_size totals.bytes (length datagram);
            })
            q.totals;
    }

unfoldable pub enqueue :
    ℕ → Option (List ℕ) → ℕ → SendPriority → SendQueue → SendQueueResult × SendQueue
unfolding admission append_datagram
enqueue peer_key buffer len priority q =
    if null_with_bytes buffer len
    then (invalid, q)
    else if valid_limits q
    then elim (admission peer_key len priority q) [
      | queued ↦ (queued, append_datagram peer_key (first_bytes buffer len) priority q)
      | refused ↦ (refused, q)
    ]
    else (invalid, q)

-- The peer is erased once both of its lanes are empty.
abbrev pub put_peer : ℕ → PeerQueue → Map PeerQueue → Map PeerQueue
put_peer k peer m =
    if is_empty peer.control_class.items && is_empty peer.data_class.items
    then erase k m
    else insert k peer m

-- The changes of the private `pop` once a datagram is at hand; `active` has lost its front.
abbrev pub take_datagram :
    ℕ → List ℕ → List (List ℕ) → SendPriority → PeerQueue → List ℕ → SendQueue → SendQueue
take_datagram peer_key datagram rest priority peer active q =
    let lane = select priority peer in
    let totals = select priority q.totals in
    record q {
      active = update priority (if is_empty rest then active else active ++ peer_key ∷ []) q.active;
      peers =
          put_peer peer_key
            (update priority
              (record { items = rest; bytes = sub_size lane.bytes (length datagram) }) peer)
            q.peers;
      totals =
          update priority
            (record {
              items = sub_size totals.items 1;
              bytes = sub_size totals.bytes (length datagram);
            })
            q.totals;
    }

pop_lane :
    ℕ
    → List (List ℕ)
    → SendPriority
    → PeerQueue
    → List ℕ
    → SendQueue
    → Option QueuedDatagram × SendQueue
pop_lane peer_key [] priority peer active q =
    (none, record q { active = update priority active q.active })
pop_lane peer_key (datagram ∷ rest) priority peer active q = (
  some (record { peer_key = peer_key; priority = priority; bytes = datagram }),
  take_datagram peer_key datagram rest priority peer active q,
)

pop_peer :
    ℕ → Option PeerQueue → SendPriority → List ℕ → SendQueue → Option QueuedDatagram × SendQueue
unfolding pop_lane
pop_peer peer_key none priority active q =
    (none, record q { active = update priority active q.active })
pop_peer peer_key (some peer) priority active q =
    pop_lane peer_key (select priority peer).items priority peer active q

-- The private `pop`. `front` of an empty queue is undefined; the caller rules it out.
pub pop_front : SendPriority → List ℕ → SendQueue → Option QueuedDatagram × SendQueue
unfolding pop_peer
pop_front priority [] q = (none, q)
pop_front priority (peer_key ∷ active) q =
    pop_peer peer_key (find peer_key q.peers) priority active q

abbrev pub pop_class : SendPriority → SendQueue → Option QueuedDatagram × SendQueue
pop_class priority q = pop_front priority (select priority q.active) q

unfoldable pub pop : SendQueue → Option QueuedDatagram × SendQueue
unfolding pop_front
pop q =
    if is_empty q.active.control_class
    then if is_empty q.active.data_class then (none, q) else pop_class data_priority q
    else pop_class control_priority q

unfoldable pub clear : SendQueue → SendQueue
clear q = record q { peers = []; active = both []; totals = both empty_totals }

unfoldable pub size : SendQueue → ℕ
size q = add_size q.totals.control_class.items q.totals.data_class.items

unfoldable pub bytes : SendQueue → ℕ
bytes q = add_size q.totals.control_class.bytes q.totals.data_class.bytes

unfoldable pub control_size : SendQueue → ℕ
control_size q = q.totals.control_class.items

unfoldable pub data_size : SendQueue → ℕ
data_size q = q.totals.data_class.items

unfoldable pub peer_count : SendQueue → ℕ
peer_count q = length q.peers

-- The limits of a queue that is given none.
abbrev pub default_data_limits : SendQueueClassLimits
default_data_limits = record {
  max_items_per_peer = 48;
  max_bytes_per_peer = 192 * 1024;
  max_items_global = 768;
  max_bytes_global = 3 * 1024 * 1024;
}

abbrev pub default_control_limits : SendQueueClassLimits
default_control_limits = record {
  max_items_per_peer = 16;
  max_bytes_per_peer = 64 * 1024;
  max_items_global = 256;
  max_bytes_global = 1024 * 1024;
}
