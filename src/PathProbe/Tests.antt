-- ===== src/PathProbe/Tests.antt =====
-- A probe of src/routing/path_probe.cpp and its answer.
use aegis.Prelude.{◌-◌, true, none, some, arith, ◌≡◌, refl}
use aegis.Prelude.Durations.{pos}
use aegis.Prelude.Maps.{find}
use aegis.PathProbe.{PathProbeTarget, PathProbeTracker, construct, begin, acknowledge, holds_target}
use aegis.PathProbe.Tracking.{IsBounded, acknowledge-begin, Step-IsBounded}

abbrev target : PathProbeTarget
target = record {
  destination = 3;
  next_hop = 4;
  prefix = 5;
  prefix_length = 24;
  route_sequence = 6;
}

abbrev idle : PathProbeTracker
idle = construct 2 (pos 100)

idle-IsBounded : IsBounded idle
unfolding construct
idle-IsBounded = record { sorted = tt; bounded = omega arith }

begun : (begin 9 target 1000 idle).0 ≡ true
unfolding construct begin find holds_target
begun = refl

acknowledge-begin_example :
    let t1 = (begin 9 target 1000 idle).1 in
    let first = acknowledge 9 3 6 1040 t1 in
    (first.0 ≡ some (record { target = target; rtt = 1040 - 1000 }))
    × ((acknowledge 9 3 6 1040 first.1).0 ≡ none)
unfolding construct
acknowledge-begin_example =
    acknowledge-begin 9 1000 1040 100 target idle refl begun (omega arith) (omega arith)

abbrev waiting : PathProbeTracker
waiting = (begin 9 target 1000 idle).1

waiting-IsBounded : IsBounded waiting
waiting-IsBounded = (Step-IsBounded 9 3 6 1000 target idle idle-IsBounded).0
