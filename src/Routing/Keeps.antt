-- ===== src/Routing/Keeps.antt =====
-- Every operation of src/routing/routing.cpp keeps what the table promises.
use aegis.Prelude.{
  ℕ, ◌<◌, true, ◌||◌, not, some, List, [], ◌∷◌, ◌++◌, length, ◌==◌, arith, ◌≡◌, inl, inr, refl,
  Bool-cases, Option-cases, length-append,
}
use aegis.Prelude.Durations.{ℤ, pos, negsuc}
use aegis.IpAddress.{IpAddress}
use aegis.Routing.{
  Route, Probing, ProbedRoute, RoutingEngine, construct, is_direct, is_relay, same_prefix,
  same_candidate, change_first, refresh, count_prefix, add_candidate, add_route, candidate_of,
  acceptable_path, acceptable_metadata, valid_prefix_length, remove_route,
  remove_older_learned_routes, expire_learned_routes, is_probed, change_probed, mark_probe_sent,
  record_probe_success, record_probe_failure, clear, relay_path, routing_max_candidates_per_prefix,
}
use aegis.Routing.Table.{
  IsStored, IsTable, change_first-All, change_first-length, change_first-count, erased-IsTable,
  count_prefix-append, count_prefix-same, append-All, candidate_of-IsStored, same_prefix_sound,
}

refresh-IsStored : (c r : Route) → IsStored c → IsStored (refresh c r)
unfolding refresh acceptable_path acceptable_metadata relay_path
refresh-IsStored c r v = elim (Bool-cases (c.sequence_number == r.sequence_number)) [
  | inl e ↦ rw e (record {
    shape = record { known = v.shape.known; whole_path = v.shape.whole_path };
    prefix_valid = v.prefix_valid;
    canonical = v.canonical;
    metadata = v.metadata;
  })
  | inr e ↦ rw e v
]

same_candidate-prefix : (c r : Route) → same_candidate c r ≡ true → same_prefix r c ≡ true
unfolding same_candidate
same_candidate-prefix c r h = ground arith

refresh-prefix :
    (c r x : Route) → same_candidate c r ≡ true → same_prefix (refresh c r) x ≡ same_prefix r x
unfolding refresh
refresh-prefix c r x h =
    let (prefixes, lengths) = same_prefix_sound r c (same_candidate-prefix c r h) in
    ground (arith, prefixes, lengths)

replaced-IsTable :
    (c : Route) (e : RoutingEngine) (changed : List Route)
    → IsTable e
    → IsStored c
    → change_first (same_candidate c) (refresh c) e.table ≡ some changed
    → IsTable (record e { table = changed })
replaced-IsTable c e changed v s h = record {
  stored_routes =
      change_first-All {P = IsStored} (same_candidate c) (refresh c) e.table changed
        (λ r _ _. refresh-IsStored c r s) v.stored_routes h;
  few_routes =
      omega
        (arith, change_first-length (same_candidate c) (refresh c) e.table changed h, v.few_routes);
  few_candidates = λ x. omega (
    arith,
    change_first-count x (same_candidate c) (refresh c) e.table changed
        (λ r k. refresh-prefix c r x k) h,
    v.few_candidates x,
  );
}

appended-IsTable :
    (c : Route) (e : RoutingEngine)
    → IsTable e
    → IsStored c
    → length e.table < e.max_routes
    → count_prefix c e.table < routing_max_candidates_per_prefix
    → IsTable (record e { table = e.table ++ c ∷ [] })
appended-IsTable c e v s h k = record {
  stored_routes = append-All IsStored c e.table v.stored_routes s;
  few_routes = omega (arith, length-append e.table (c ∷ []), h);
  few_candidates = λ x. ground (
    arith,
    count_prefix-append x c e.table,
    count_prefix-same x c e.table,
    v.few_candidates x,
    k,
  );
}

add_candidate-IsTable :
    (c : Route) (e : RoutingEngine)
    → IsTable e
    → IsStored c
    → IsTable (add_candidate (change_first (same_candidate c) (refresh c) e.table) c e).1
unfolding add_candidate
add_candidate-IsTable c e v s =
    elim (Option-cases (change_first (same_candidate c) (refresh c) e.table)) [
      | inl n ↦ rw n (ground (arith, v, appended-IsTable c e v s))
      | inr (changed, n) ↦ rw n (replaced-IsTable c e changed v s n)
    ]

add_route-IsTable : (route : Route) (e : RoutingEngine) → IsTable e → IsTable (add_route route e).1
unfolding add_route
add_route-IsTable route e v =
    elim (Bool-cases (
      not (valid_prefix_length route.prefix route.prefix_length)
      || not (is_direct route.type || is_relay route.type)
      || not (acceptable_path route)
      || not (acceptable_metadata (candidate_of route)))) [
        | inl k ↦ rw k v
        | inr k ↦ rw k (
            add_candidate-IsTable (candidate_of route) e v (
              candidate_of-IsStored route (ground (arith, k)) (ground (arith, k))
                (ground (arith, k)) (ground (arith, k))))
      ]

reprobed-IsStored : (r : Route) (p : Probing) → IsStored r → IsStored (record r { probing = p })
unfolding acceptable_path acceptable_metadata relay_path
reprobed-IsStored r p v = record {
  shape = record { known = v.shape.known; whole_path = v.shape.whole_path };
  prefix_valid = v.prefix_valid;
  canonical = v.canonical;
  metadata = v.metadata;
}

reprobed-IsTable :
    (probed : ProbedRoute) (f : Probing → Probing) (e : RoutingEngine) (changed : List Route)
    → IsTable e
    → change_first (is_probed probed) (λ route. record route { probing = f route.probing }) e.table
      ≡ some changed
    → IsTable (record e { table = changed })
reprobed-IsTable probed f e changed v h = record {
  stored_routes =
      change_first-All {P = IsStored} (is_probed probed)
        (λ route. record route { probing = f route.probing }) e.table changed
        (λ r k _. reprobed-IsStored r (f r.probing) k) v.stored_routes h;
  few_routes = omega (
    arith,
    change_first-length (is_probed probed) (λ route. record route { probing = f route.probing })
        e.table changed h,
    v.few_routes,
  );
  few_candidates = λ x. omega (
    arith,
    change_first-count x (is_probed probed) (λ route. record route { probing = f route.probing })
        e.table changed (λ r k. refl) h,
    v.few_candidates x,
  );
}

change_probed-IsTable :
    (probed : ProbedRoute) (f : Probing → Probing) (e : RoutingEngine)
    → IsTable e
    → IsTable (change_probed probed f e).1
unfolding change_probed
change_probed-IsTable probed f e v =
    elim (Bool-cases (valid_prefix_length probed.prefix probed.prefix_length)) [
      | inr k ↦ rw k v
      | inl k ↦
          rw k
            (elim (Option-cases (
              change_first (is_probed probed) (λ route. record route { probing = f route.probing })
                e.table)) [
                  | inl n ↦ rw n v
                  | inr (changed, n) ↦ rw n (reprobed-IsTable probed f e changed v n)
                ])
    ]

-- The calls that change the table.
pub data RoutingCall : Type 0 where
  call_add : Route → RoutingCall
  call_remove : ℕ → RoutingCall
  call_remove_older : ℕ → IpAddress → ℕ → ℕ → RoutingCall
  call_expire : ℕ → RoutingCall
  call_sent : ProbedRoute → ℕ → RoutingCall
  call_success : ProbedRoute → ℕ → ℤ → RoutingCall
  call_failure : ProbedRoute → ℕ → RoutingCall
  call_clear : RoutingCall

unfoldable pub call : RoutingCall → RoutingEngine → RoutingEngine
unfolding add_route remove_route remove_older_learned_routes expire_learned_routes mark_probe_sent
    record_probe_success record_probe_failure clear
call (call_add route) e = (add_route route e).1
call (call_remove peer_id) e = remove_route peer_id e
call (call_remove_older origin prefix length sequence) e =
    (remove_older_learned_routes origin prefix length sequence e).1
call (call_expire now) e = (expire_learned_routes now e).1
call (call_sent probed now) e = (mark_probe_sent probed now e).1
call (call_success probed now rtt) e = (record_probe_success probed now rtt e).1
call (call_failure probed now) e = (record_probe_failure probed now e).1
call call_clear e = clear e

unfoldable pub run_calls : List RoutingCall → RoutingEngine → RoutingEngine
unfolding call
run_calls [] e = e
run_calls (c ∷ calls) e = run_calls calls (call c e)

remove_older-IsTable :
    (origin : ℕ) (prefix : IpAddress) (length sequence : ℕ) (e : RoutingEngine)
    → IsTable e
    → IsTable (remove_older_learned_routes origin prefix length sequence e).1
unfolding remove_older_learned_routes
remove_older-IsTable origin prefix length sequence e v =
    elim (Bool-cases (valid_prefix_length prefix length)) [
      | inl k ↦ rw k (erased-IsTable _ e v)
      | inr k ↦ rw k v
    ]

empty-IsTable : (max_routes : ℕ) → IsTable (construct max_routes)
unfolding count_prefix
empty-IsTable max_routes = record {
  stored_routes = tt;
  few_routes = omega arith;
  few_candidates = λ c. omega arith;
}

pub call-IsTable : (c : RoutingCall) (e : RoutingEngine) → IsTable e → IsTable (call c e)
unfolding call remove_route expire_learned_routes mark_probe_sent record_probe_success
    record_probe_failure clear
call-IsTable (call_add route) e v = add_route-IsTable route e v
call-IsTable (call_remove peer_id) e v = erased-IsTable _ e v
call-IsTable (call_remove_older origin prefix length sequence) e v =
    remove_older-IsTable origin prefix length sequence e v
call-IsTable (call_expire now) e v = erased-IsTable _ e v
call-IsTable (call_sent probed now) e v = change_probed-IsTable probed _ e v
call-IsTable (call_success probed now (pos rtt)) e v = change_probed-IsTable probed _ e v
call-IsTable (call_success probed now (negsuc rtt)) e v = v
call-IsTable (call_failure probed now) e v = change_probed-IsTable probed _ e v
call-IsTable call_clear e v = empty-IsTable e.max_routes

run_calls-from :
    (calls : List RoutingCall) (e : RoutingEngine) → IsTable e → IsTable (run_calls calls e)
unfolding run_calls
run_calls-from [] e v = v
run_calls-from (c ∷ calls) e v = run_calls-from calls (call c e) (call-IsTable c e v)

-- After any calls on a new table: it has no more routes than its limit and at most 8 candidates for
-- any prefix, and each route is direct or has a path from its next hop to its destination that
-- repeats no hop, with a canonical prefix of a valid length and metadata inside their limits.
pub run_calls-IsTable :
    (max_routes : ℕ) (calls : List RoutingCall) → IsTable (run_calls calls (construct max_routes))
run_calls-IsTable max_routes calls =
    run_calls-from calls (construct max_routes) (empty-IsTable max_routes)
