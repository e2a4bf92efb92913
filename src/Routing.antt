-- ===== src/Routing.antt =====
-- src/routing/routing.cpp and include/aegis/routing/routing.hpp: the table of routes. A time is a
-- number of nanoseconds of the steady clock; a NodeId is a number, and 0 is the empty one.
mod Search
mod Table
mod Keeps
mod Probes
mod Tests
use aegis.Prelude.{
  ◌%◌, ℕ, zero, suc, ◌+◌, ◌-◌, ◌*◌, ◌/◌, ◌^◌, Bool, true, false, ◌&&◌, ◌||◌, not, Option, none,
  some, List, [], ◌∷◌, ◌++◌, length, leb, ltb, ◌==◌, ◌>>=◌, if◌then◌else◌, contains,
}
use aegis.Prelude.Durations.{ℤ, pos, negsuc}
use aegis.IpAddress.{
  IpAddress, IpPrefix, valid, same_address, make_prefix, prefix_contains, bit_width, valid_family,
}

pub data NextHopType : Type 0 where
  direct relay unknown : NextHopType

abbrev pub is_direct : NextHopType → Bool
is_direct direct = true
is_direct _ = false

abbrev pub is_relay : NextHopType → Bool
is_relay relay = true
is_relay _ = false

abbrev pub same_type : NextHopType → NextHopType → Bool
same_type direct b = is_direct b
same_type relay b = is_relay b
same_type unknown unknown = true
same_type unknown _ = false

-- What the probes of a route have shown.
pub record Probing : Type 0 where
  pub last_probe_sent_at : Option ℕ
  pub last_probe_validated_at : Option ℕ
  pub last_probe_rtt : Option ℕ
  pub probe_failed : Bool
  pub consecutive_probe_failures : ℕ
  pub probe_hold_down_until : Option ℕ

-- The lease is a number of seconds.
pub record Route : Type 0 where
  pub prefix : IpAddress
  pub prefix_length : ℕ
  pub type : NextHopType
  pub next_hop : ℕ
  pub destination : ℕ
  pub path : List ℕ
  pub origin : ℕ
  pub advertiser : ℕ
  pub sequence_number : ℕ
  pub lease : ℤ
  pub metric : ℕ
  pub validated_at : ℕ
  pub probing : Probing

abbrev pub routing_max_candidates_per_prefix : ℕ
routing_max_candidates_per_prefix = 8

abbrev pub route_max_lease : ℕ
route_max_lease = 600

abbrev pub route_max_metric : ℕ
route_max_metric = 1000000

abbrev pub route_probe_hold_down : ℕ
route_probe_hold_down = 30 * 1000000000

pub record RoutingEngine : Type 0 where
  pub table : List Route
  pub max_routes : ℕ

abbrev pub construct : ℕ → RoutingEngine
construct max_routes = record { table = []; max_routes = max_routes }

abbrev pub valid_prefix_length : IpAddress → ℕ → Bool
valid_prefix_length prefix length = valid_family prefix && leb length (bit_width prefix)

abbrev pub canonical_prefix : IpAddress → ℕ → IpAddress
canonical_prefix prefix length = (make_prefix prefix (length % 2 ^ 8)).address

abbrev lease_over : ℤ → ℕ → Bool
lease_over (pos seconds) elapsed = leb (seconds * 1000000000) elapsed
lease_over (negsuc n) elapsed = true

unfoldable learned_route_lease_expired : ℕ → Route → Bool
learned_route_lease_expired now route =
    is_relay route.type
    && leb route.validated_at now
    && lease_over route.lease (now - route.validated_at)

-- The loop that puts the hops into a set, until one is there already.
unfoldable no_repeats : List ℕ → List ℕ → Bool
no_repeats seen [] = true
no_repeats seen (hop ∷ path) = if contains hop seen then false else no_repeats (hop ∷ seen) path

-- `path.front()` and `path.back()`, of a path that is not empty.
unfoldable front : List ℕ → ℕ
front [] = 0
front (hop ∷ path) = hop

unfoldable back : List ℕ → ℕ
back [] = 0
back (hop ∷ []) = hop
back (hop ∷ next ∷ path) = back (next ∷ path)

-- The path of a relay route leads from the next hop to the destination, and does not repeat a hop.
unfoldable relay_path : Route → Bool
relay_path route =
    not (ltb (length route.path) 2)
    && front route.path == route.next_hop
    && back route.path == route.destination
    && no_repeats [] route.path

unfoldable acceptable_path : Route → Bool
acceptable_path route =
    if is_relay route.type
    then not (route.next_hop == route.destination) && relay_path route
    else (route.next_hop == route.destination)
      && (length route.path == 1)
      && (front route.path == route.destination)

-- The route that is stored: its prefix canonical, its origin and its advertiser filled in.
unfoldable candidate_of : Route → Route
candidate_of route = record route {
  prefix = canonical_prefix route.prefix route.prefix_length;
  origin = if route.origin == 0 then route.destination else route.origin;
  advertiser = if route.advertiser == 0 then route.next_hop else route.advertiser;
}

abbrev allowed_lease : ℤ → Bool
allowed_lease (pos seconds) = ltb 0 seconds && leb seconds route_max_lease
allowed_lease (negsuc n) = false

unfoldable acceptable_metadata : Route → Bool
acceptable_metadata route =
    not (route.sequence_number == 0)
    && allowed_lease route.lease
    && leb route.metric route_max_metric

abbrev pub same_prefix : Route → Route → Bool
same_prefix a b = same_address a.prefix b.prefix && a.prefix_length == b.prefix_length

unfoldable same_candidate : Route → Route → Bool
same_candidate candidate r =
    same_prefix r candidate
    && same_type r.type candidate.type
    && r.next_hop == candidate.next_hop
    && r.destination == candidate.destination

-- The first route that meets a test is changed; `none` when there is none.
unfoldable change_first : (Route → Bool) → (Route → Route) → List Route → Option (List Route)
change_first p f [] = none
change_first p f (r ∷ table) =
    let rest = change_first p f table in
    if p r then some (f r ∷ table) else (rest >>= λ t. some (r ∷ t))

-- A refreshed candidate keeps what the probes of the same announcement have shown.
unfoldable refresh : Route → Route → Route
refresh candidate existing =
    if candidate.sequence_number == existing.sequence_number
    then record candidate { probing = existing.probing }
    else candidate

unfoldable count_prefix : Route → List Route → ℕ
count_prefix candidate [] = 0
count_prefix candidate (r ∷ table) =
    (if same_prefix r candidate then 1 else 0) + count_prefix candidate table

unfoldable add_candidate : Option (List Route) → Route → RoutingEngine → Bool × RoutingEngine
add_candidate (some table) candidate e = (true, record e { table = table })
add_candidate none candidate e =
    if leb e.max_routes (length e.table)
      || leb routing_max_candidates_per_prefix (count_prefix candidate e.table)
    then (false, e)
    else (true, record e { table = e.table ++ candidate ∷ [] })

unfoldable add_route : Route → RoutingEngine → Bool × RoutingEngine
add_route route e =
    let candidate = candidate_of route in
    if not (valid_prefix_length route.prefix route.prefix_length)
      || not (is_direct route.type || is_relay route.type)
      || not (acceptable_path route)
      || not (acceptable_metadata candidate)
    then (false, e)
    else add_candidate (change_first (same_candidate candidate) (refresh candidate) e.table)
        candidate e

-- The loop of `std::erase_if`.
unfoldable erase_routes : (Route → Bool) → List Route → List Route
erase_routes p [] = []
erase_routes p (r ∷ table) = let rest = erase_routes p table in if p r then rest else r ∷ rest

unfoldable remove_route : ℕ → RoutingEngine → RoutingEngine
remove_route peer_id e = record e {
  table = erase_routes (λ r. r.destination == peer_id || r.next_hop == peer_id) e.table;
}

abbrev older_learned : ℕ → IpAddress → ℕ → ℕ → Route → Bool
older_learned origin canonical prefix_length minimum_sequence route =
    is_relay route.type
    && route.origin == origin
    && same_address route.prefix canonical
    && route.prefix_length == prefix_length
    && ltb route.sequence_number minimum_sequence

unfoldable remove_older_learned_routes : ℕ → IpAddress → ℕ → ℕ → RoutingEngine → ℕ × RoutingEngine
remove_older_learned_routes origin prefix prefix_length minimum_sequence e =
    let canonical = canonical_prefix prefix prefix_length in
    let table =
      erase_routes (older_learned origin canonical prefix_length minimum_sequence) e.table in
    if not (valid_prefix_length prefix prefix_length)
    then (0, e)
    else (length e.table - length table, record e { table = table })

unfoldable expire_learned_routes : ℕ → RoutingEngine → ℕ × RoutingEngine
expire_learned_routes now e =
    let table = erase_routes (learned_route_lease_expired now) e.table in
    (length e.table - length table, record e { table = table })

-- The route that a probe measured.
pub record ProbedRoute : Type 0 where
  pub destination : ℕ
  pub next_hop : ℕ
  pub prefix : IpAddress
  pub prefix_length : ℕ
  pub sequence : ℕ

unfoldable is_probed : ProbedRoute → Route → Bool
is_probed probed candidate =
    candidate.destination == probed.destination
    && candidate.next_hop == probed.next_hop
    && same_address candidate.prefix (canonical_prefix probed.prefix probed.prefix_length)
    && candidate.prefix_length == probed.prefix_length
    && candidate.sequence_number == probed.sequence

abbrev stored : Option (List Route) → RoutingEngine → Bool × RoutingEngine
stored none e = (false, e)
stored (some table) e = (true, record e { table = table })

unfoldable change_probed : ProbedRoute → (Probing → Probing) → RoutingEngine → Bool × RoutingEngine
change_probed probed f e =
    if not (valid_prefix_length probed.prefix probed.prefix_length)
    then (false, e)
    else stored
        (change_first (is_probed probed) (λ route. record route { probing = f route.probing })
          e.table)
        e

unfoldable mark_probe_sent : ProbedRoute → ℕ → RoutingEngine → Bool × RoutingEngine
mark_probe_sent probed now e =
    change_probed probed (λ p. record p { last_probe_sent_at = some now }) e

abbrev pub hold_down_over : Option ℕ → ℕ → Bool
hold_down_over none now = false
hold_down_over (some until) now = leb until now

unfoldable probe_succeeded : ℕ → ℕ → Probing → Probing
probe_succeeded now rtt p =
    let p = record p {
      last_probe_validated_at = some now;
      last_probe_rtt = some (rtt / 1000000);
    } in
    if not p.probe_failed || hold_down_over p.probe_hold_down_until now
    then record p {
      probe_failed = false;
      consecutive_probe_failures = 0;
      probe_hold_down_until = none;
    }
    else p

unfoldable record_probe_success : ProbedRoute → ℕ → ℤ → RoutingEngine → Bool × RoutingEngine
record_probe_success probed now (pos rtt) e = change_probed probed (probe_succeeded now rtt) e
record_probe_success probed now (negsuc rtt) e = (false, e)

unfoldable probe_lost : ℕ → Probing → Probing
probe_lost now p = record p {
  probe_failed = true;
  consecutive_probe_failures =
      if ltb p.consecutive_probe_failures (2 ^ 32 - 1)
      then suc p.consecutive_probe_failures
      else p.consecutive_probe_failures;
  probe_hold_down_until = some (now + route_probe_hold_down);
}

unfoldable record_probe_failure : ProbedRoute → ℕ → RoutingEngine → Bool × RoutingEngine
record_probe_failure probed now e = change_probed probed (probe_lost now) e

unfoldable clear : RoutingEngine → RoutingEngine
clear e = record e { table = [] }

-- A route that is not failed and whose prefix contains the address.
unfoldable usable : IpAddress → Route → Bool
usable dest_ip route =
    not route.probing.probe_failed
    && prefix_contains dest_ip (make_prefix route.prefix (route.prefix_length % 2 ^ 8))

-- Whether a route takes the place of the best one so far.
unfoldable beats : Route → Route → Bool
beats route best =
    if ltb best.prefix_length route.prefix_length
    then true
    else if route.prefix_length == best.prefix_length
    then (if is_direct route.type && is_relay best.type
        then true
        else is_relay route.type
          && is_relay best.type
          && ltb (length route.path) (length best.path))
    else false

abbrev better : Option Route → Route → Option Route
better none route = some route
better (some best) route = if beats route best then some route else some best

unfoldable find_best : IpAddress → Option Route → List Route → Option Route
find_best dest_ip best [] = best
find_best dest_ip best (route ∷ table) =
    find_best dest_ip (if usable dest_ip route then better best route else best) table

-- The path of a relay route is looked at again.
abbrev checked : Option Route → Option Route
checked none = none
checked (some best) = if is_relay best.type && not (relay_path best) then none else some best

unfoldable find_route : IpAddress → RoutingEngine → Option Route
find_route dest_ip e = checked (find_best dest_ip none e.table)

abbrev destination_of : Route → Option ℕ
destination_of route = some route.destination

unfoldable find_peer : IpAddress → RoutingEngine → Option ℕ
find_peer dest_ip e = find_route dest_ip e >>= destination_of

abbrev next_hop_of : Route → Option ℕ
next_hop_of route = some route.next_hop

unfoldable find_next_hop : IpAddress → RoutingEngine → Option ℕ
find_next_hop dest_ip e = find_route dest_ip e >>= next_hop_of

unfoldable size : RoutingEngine → ℕ
size e = length e.table

unfoldable routes_to : ℕ → List Route → List Route
routes_to dest [] = []
routes_to dest (r ∷ table) =
    let rest = routes_to dest table in if r.destination == dest then r ∷ rest else rest
