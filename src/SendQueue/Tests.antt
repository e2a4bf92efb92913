-- ===== src/SendQueue/Tests.antt =====
-- The send queue of include/aegis/transport/send_queue.hpp at small inputs.
use aegis.Prelude.{ℕ, some, List, [], ◌∷◌, ◌++◌, ◌≡◌, refl, arith, if◌then◌else◌}
use aegis.Prelude.Maps.{find, insert}
use aegis.SendQueue.{
  PerClass, default_data_limits, default_control_limits, SendPriority, data_priority,
  control_priority, SendQueue, SendQueueClassLimits, both, construct, enqueue, pop, select, lane_of,
  per_peer_item_limit, QueuedDatagram, is_empty,
}
use aegis.SendQueue.Invariant.{IsValid, construct-IsValid, Fits}
use aegis.SendQueue.Enqueue.{enqueue-IsValid}
use aegis.SendQueue.Order.{pop-IsValid, pop_oldest, pop_control_first, pop_rotates}

abbrev small : SendQueueClassLimits
small = record {
  max_items_per_peer = 2;
  max_bytes_per_peer = 100;
  max_items_global = 3;
  max_bytes_global = 150;
}

small-Fits : (p : SendPriority) → Fits (select p (both small))
small-Fits data_priority = omega arith
small-Fits control_priority = omega arith

start-IsValid : IsValid (construct (both small))
start-IsValid = construct-IsValid (both small) small-Fits

-- Peer 7 queues a data packet, then peer 4 two.
one : SendQueue
one = (enqueue 7 (some (1 ∷ 2 ∷ [])) 2 data_priority (construct (both small))).1

two : SendQueue
unfolding one
two = (enqueue 4 (some (3 ∷ [])) 1 data_priority one).1

three : SendQueue
unfolding two
three = (enqueue 4 (some (5 ∷ [])) 1 data_priority two).1

one-IsValid : IsValid one
unfolding one
one-IsValid = enqueue-IsValid 7 (some (1 ∷ 2 ∷ [])) 2 data_priority (omega arith) start-IsValid

two-IsValid : IsValid two
unfolding two
two-IsValid = enqueue-IsValid 4 (some (3 ∷ [])) 1 data_priority (omega arith) one-IsValid

three-IsValid : IsValid three
unfolding three
three-IsValid = enqueue-IsValid 4 (some (5 ∷ [])) 1 data_priority (omega arith) two-IsValid

-- The third packet of a peer is one too many.
fourth_refused : (enqueue 4 (some (6 ∷ [])) 1 data_priority three).0 ≡ per_peer_item_limit
unfolding three enqueue construct find insert
fourth_refused = refl

abbrev defaults : PerClass SendQueueClassLimits
defaults = record { data_class = default_data_limits; control_class = default_control_limits }

defaults-Fits : (p : SendPriority) → Fits (select p defaults)
defaults-Fits data_priority = record {
  peer_items = omega arith;
  peer_bytes = omega arith;
  global_items = omega arith;
  global_bytes = omega arith;
}
defaults-Fits control_priority = record {
  peer_items = omega arith;
  peer_bytes = omega arith;
  global_items = omega arith;
  global_bytes = omega arith;
}

enqueue-IsValid_example : IsValid (enqueue 4 (some (6 ∷ [])) 1 control_priority three).1
enqueue-IsValid_example =
    enqueue-IsValid 4 (some (6 ∷ [])) 1 control_priority (omega arith) three-IsValid

pop-IsValid_example : IsValid (pop three).1
pop-IsValid_example = pop-IsValid three-IsValid

abbrev first_out : QueuedDatagram
first_out = record { peer_key = 7; priority = data_priority; bytes = 1 ∷ 2 ∷ [] }

pop_oldest_example :
    (lane_of data_priority 7 three).items
    ≡ (1 ∷ 2 ∷ []) ∷ (lane_of data_priority 7 (pop three).1).items
unfolding three enqueue construct find insert pop
pop_oldest_example = pop_oldest {d = first_out} data_priority 7 three-IsValid refl

pop_control_first_example : (lane_of control_priority 7 three).items ≡ []
unfolding three enqueue construct find insert pop
pop_control_first_example = pop_control_first {d = first_out} 7 three-IsValid refl refl

pop_rotates_example :
    (active : List ℕ) × (select data_priority three.active ≡ 7 ∷ active)
    × (select data_priority (pop three).1.active ≡ (
        if is_empty (lane_of data_priority 7 (pop three).1).items
        then active
        else active ++ 7 ∷ []))
unfolding three enqueue construct find insert pop
pop_rotates_example = pop_rotates {d = first_out} three-IsValid refl
