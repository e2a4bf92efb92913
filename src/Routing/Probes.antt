-- ===== src/Routing/Probes.antt =====
-- What the probes of src/routing/routing.cpp do to a route.
use aegis.Prelude.{
  ℕ, ◌+◌, true, false, Option, none, some, List, [], ◌∷◌, ltb, if◌then◌else◌, arith, ◌≡◌, inl, inr,
  refl, Bool-cases, Option-cases, ◌>>=◌, ap,
}
use aegis.Prelude.Durations.{pos}
use aegis.Routing.{
  Route, Probing, ProbedRoute, RoutingEngine, change_first, is_probed, change_probed,
  valid_prefix_length, record_probe_success, record_probe_failure, probe_succeeded, probe_lost,
  route_probe_hold_down,
}

-- The first route that a probe is about.
unfoldable pub probed_route : ProbedRoute → List Route → Option Route
probed_route probed [] = none
probed_route probed (r ∷ table) = if is_probed probed r then some r else probed_route probed table

abbrev reprobed : (Probing → Probing) → Route → Route
reprobed f route = record route { probing = f route.probing }

-- The change finds the route, and the changed route is found again.
change_first-probed :
    (probed : ProbedRoute) (f : Probing → Probing) (table : List Route) (r : Route)
    → probed_route probed table ≡ some r
    → (changed : List Route) × (change_first (is_probed probed) (reprobed f) table ≡ some changed)
      × (probed_route probed changed ≡ some (reprobed f r))
unfolding change_first probed_route is_probed
change_first-probed probed f [] r h = cc
change_first-probed probed f (s ∷ table) r h = elim (Bool-cases (is_probed probed s)) [
  | inl k ↦
      (reprobed f s ∷ table, rw k refl, rw k (ap (λ o. o >>= λ q. some (reprobed f q)) (found k)))
  | inr k ↦
      let (changed, done, found_again) = change_first-probed probed f table r (later k) in
      (s ∷ changed, rw (k, done) refl, rw k found_again)
]
  where
    found : is_probed probed s ≡ true → some s ≡ some r
    found k = ground (arith, k, h)

    later : is_probed probed s ≡ false → probed_route probed table ≡ some r
    later k = ground (arith, k, h)

change_first-none :
    (probed : ProbedRoute) (f : Probing → Probing) (table : List Route)
    → probed_route probed table ≡ none
    → change_first (is_probed probed) (reprobed f) table ≡ none
unfolding change_first probed_route
change_first-none probed f [] h = refl
change_first-none probed f (s ∷ table) h = ground (arith, h, change_first-none probed f table)

change_probed-found :
    (probed : ProbedRoute) (f : Probing → Probing) (e : RoutingEngine) (r : Route)
    → valid_prefix_length probed.prefix probed.prefix_length ≡ true
    → probed_route probed e.table ≡ some r
    → ((change_probed probed f e).0 ≡ true)
      × (probed_route probed (change_probed probed f e).1.table ≡ some (reprobed f r))
unfolding change_probed
change_probed-found probed f e r v h =
    let (changed, done, found) = change_first-probed probed f e.table r h in
    rw (v, done) (refl, found)

change_probed-changes :
    (probed : ProbedRoute) (f : Probing → Probing) (e : RoutingEngine)
    → (change_probed probed f e).0 ≡ true
    → (valid_prefix_length probed.prefix probed.prefix_length ≡ true)
      × ((r : Route) × (probed_route probed e.table ≡ some r))
unfolding change_probed
change_probed-changes probed f e h = elim (Option-cases (probed_route probed e.table)) [
  | inl n ↦ ground (arith, h, change_first-none probed f e.table n)
  | inr (r, n) ↦ (ground (arith, h), (r, n))
]

probe_succeeded-probe_lost :
    (now rtt failed_at : ℕ) (p : Probing)
    → (probe_succeeded now rtt (probe_lost failed_at p)).probe_failed
      ≡ ltb now (failed_at + route_probe_hold_down)
unfolding probe_succeeded probe_lost
probe_succeeded-probe_lost now rtt failed_at p = ground arith

-- When a failure was recorded and then a success, the route that the probes are about is still
-- suppressed exactly when the 30 seconds of its hold-down had not passed by then.
pub success-failure :
    (probed : ProbedRoute) (failed_at now rtt : ℕ) (e : RoutingEngine)
    → (record_probe_failure probed failed_at e).0 ≡ true
    → let after_failure = (record_probe_failure probed failed_at e).1 in
      let (recorded, after_success) = record_probe_success probed now (pos rtt) after_failure in
      (recorded ≡ true)
      × ((r : Route) × (probed_route probed after_success.table ≡ some r)
          × (r.probing.probe_failed ≡ ltb now (failed_at + route_probe_hold_down)))
unfolding record_probe_failure record_probe_success
success-failure probed failed_at now rtt e h =
    let (valid, (r, found)) = change_probed-changes probed (probe_lost failed_at) e h in
    let (_, lost) = change_probed-found probed (probe_lost failed_at) e r valid found in
    let (recorded, again) =
      change_probed-found probed (probe_succeeded now rtt)
        (change_probed probed (probe_lost failed_at) e).1 (reprobed (probe_lost failed_at) r) valid
        lost in
    (
      recorded,
      (reprobed (probe_succeeded now rtt) (reprobed (probe_lost failed_at) r), again, held r),
    )
  where
    held :
        (r : Route)
        → (probe_succeeded now rtt (probe_lost failed_at r.probing)).probe_failed
          ≡ ltb now (failed_at + route_probe_hold_down)
    held r = probe_succeeded-probe_lost now rtt failed_at r.probing
