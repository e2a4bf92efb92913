-- ===== src/Routing/Tests.antt =====
-- A table of src/routing/routing.cpp with a direct route and two relay routes.
use aegis.Prelude.{◌+◌, true, false, none, some, List, [], ◌∷◌, ◌≡◌, ◌⊎◌, refl, ltb, length, All}
use aegis.Prelude.Durations.{pos}
use aegis.IpAddress.{
  from_ipv4, same_address, masked, clear_from, canonicalize, make_prefix, same_start,
  prefix_contains,
}
use aegis.IpAddress.Prefixes.{prefix_contains-make_prefix}
use aegis.Routing.{
  Route, Probing, ProbedRoute, RoutingEngine, construct, direct, relay, add_route, find_route,
  record_probe_failure, record_probe_success, no_repeats, front, back, relay_path, acceptable_path,
  candidate_of, acceptable_metadata, same_candidate, change_first, refresh, count_prefix,
  add_candidate, is_probed, change_probed, probe_lost, usable, beats, find_best,
  route_probe_hold_down,
}
use aegis.Routing.Search.{IsRoute, IsIn, IsPreferred, find_route-longest}
use aegis.Routing.Table.{IsStored, IsTable}
use aegis.Routing.Keeps.{RoutingCall, call_add, call, run_calls, run_calls-IsTable}
use aegis.Routing.Probes.{probed_route, success-failure}

abbrev unprobed : Probing
unprobed = record {
  last_probe_sent_at = none;
  last_probe_validated_at = none;
  last_probe_rtt = none;
  probe_failed = false;
  consecutive_probe_failures = 0;
  probe_hold_down_until = none;
}

-- 10.1.2.3 in the first place, with host bits that are cleared.
abbrev direct_route : Route
direct_route = record {
  prefix = from_ipv4 167838211;
  prefix_length = 16;
  type = direct;
  next_hop = 5;
  destination = 5;
  path = 5 ∷ [];
  origin = 0;
  advertiser = 0;
  sequence_number = 1;
  lease = pos 90;
  metric = 0;
  validated_at = 0;
  probing = unprobed;
}

abbrev relay_route : Route
relay_route = record direct_route {
  prefix_length = 24;
  type = relay;
  next_hop = 6;
  destination = 7;
  path = 6 ∷ 7 ∷ [];
}

abbrev calls : List RoutingCall
calls = call_add direct_route ∷ call_add relay_route ∷ []

abbrev engine : RoutingEngine
engine = run_calls calls (construct 10)

both_stored : length engine.table ≡ 2
unfolding run_calls call add_route candidate_of acceptable_path relay_path front back no_repeats
    acceptable_metadata same_candidate change_first refresh count_prefix add_candidate make_prefix
    canonicalize clear_from masked same_address
both_stored = refl

longest_answers :
    (found : Route) × (find_route (from_ipv4 167838311) engine ≡ some found)
    × (found.destination ≡ 7)
unfolding run_calls call add_route candidate_of acceptable_path relay_path front back no_repeats
    acceptable_metadata same_candidate change_first refresh count_prefix add_candidate make_prefix
    canonicalize clear_from masked same_address find_route find_best usable beats prefix_contains
    same_start
longest_answers = (_, refl, refl)

run_calls-IsTable_example : IsTable (run_calls calls (construct 10))
run_calls-IsTable_example = run_calls-IsTable 10 calls

shapes : (table : List Route) → All IsStored table → All IsRoute table
shapes [] h = tt
shapes (r ∷ table) h = (h.0.shape, shapes table h.1)

find_route-longest_example :
    ((find_route (from_ipv4 167838311) engine ≡ none)
      × All (λ s. usable (from_ipv4 167838311) s ≡ false) engine.table)
    ⊎ ((r : Route) × (find_route (from_ipv4 167838311) engine ≡ some r)
        × IsIn r engine.table
        × (usable (from_ipv4 167838311) r ≡ true)
        × All (λ s. usable (from_ipv4 167838311) s ≡ true → IsPreferred r s) engine.table)
find_route-longest_example =
    find_route-longest (from_ipv4 167838311) engine
      (shapes engine.table (run_calls-IsTable 10 calls).stored_routes)

abbrev probed : ProbedRoute
probed = record {
  destination = 7;
  next_hop = 6;
  prefix = from_ipv4 167838211;
  prefix_length = 24;
  sequence = 1;
}

success-failure_example :
    let after_failure = (record_probe_failure probed 1000 engine).1 in
    let (recorded, after_success) = record_probe_success probed 2000 (pos 500) after_failure in
    (recorded ≡ true)
    × ((r : Route) × (probed_route probed after_success.table ≡ some r)
        × (r.probing.probe_failed ≡ ltb 2000 (1000 + route_probe_hold_down)))
unfolding run_calls call add_route candidate_of acceptable_path relay_path front back no_repeats
    acceptable_metadata same_candidate change_first refresh count_prefix add_candidate make_prefix
    canonicalize clear_from masked same_address record_probe_failure change_probed is_probed
    probe_lost
success-failure_example = success-failure probed 1000 2000 500 engine refl

prefix_contains-make_prefix_example :
    prefix_contains (from_ipv4 167838311) (make_prefix (from_ipv4 167838211) 24)
    ≡ same_address
        (make_prefix (from_ipv4 167838211) 24).address
        (make_prefix (from_ipv4 167838311) 24).address
prefix_contains-make_prefix_example =
    prefix_contains-make_prefix (from_ipv4 167838211) (from_ipv4 167838311) 24 refl refl refl
