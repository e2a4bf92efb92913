-- ===== src/Routing/Table.antt =====
-- The table of src/routing/routing.cpp keeps its limits, and its routes stay well-formed.
use aegis.Prelude.{
  ◌%◌, ◌^◌, ◌+◌, ◌≤◌, Bool, true, false, ◌||◌, some, List, [], ◌∷◌, ◌++◌, length, if◌then◌else◌,
  arith, ◌≡◌, inl, inr, refl, All, Bool-cases, Option-cases,
}
use aegis.IpAddress.Prefixes.{make_prefix-address, same_address_sound}
use aegis.Routing.{
  Route, RoutingEngine, is_direct, is_relay, same_prefix, change_first, count_prefix, candidate_of,
  acceptable_path, acceptable_metadata, valid_prefix_length, canonical_prefix, erase_routes,
  relay_path, routing_max_candidates_per_prefix,
}
use aegis.Routing.Search.{IsRoute}

-- A route as it is stored.
pub record IsStored (r : Route) : Type 0 where
  pub shape : IsRoute r
  pub prefix_valid : valid_prefix_length r.prefix r.prefix_length ≡ true
  pub canonical : canonical_prefix r.prefix r.prefix_length ≡ r.prefix
  pub metadata : acceptable_metadata r ≡ true

pub record IsTable (e : RoutingEngine) : Type 0 where
  pub stored_routes : All IsStored e.table
  pub few_routes : length e.table ≤ e.max_routes
  pub few_candidates : (c : Route) → count_prefix c e.table ≤ routing_max_candidates_per_prefix

pub same_prefix_sound :
    (a b : Route)
    → same_prefix a b ≡ true
    → (a.prefix ≡ b.prefix) × (a.prefix_length ≡ b.prefix_length)
same_prefix_sound a b h = ground (arith, same_address_sound a.prefix b.prefix)

-- Changing the first route that meets a test.
pub change_first-All :
    {P : Route → Type 0} (p : Route → Bool) (f : Route → Route) (table changed : List Route)
    → ((r : Route) → P r → p r ≡ true → P (f r))
    → All P table
    → change_first p f table ≡ some changed
    → All P changed
unfolding change_first
change_first-All p f [] changed k h e = cc
change_first-All p f (r ∷ table) changed k h e = elim (Bool-cases (p r)) [
  | inl t ↦ rw⁻¹ (changed_here t) (k r h.0 t, h.1)
  | inr t ↦ elim (Option-cases (change_first p f table)) [
    | inl n ↦ cc
    | inr (rest, n) ↦ rw⁻¹ (changed_later rest t n) (h.0, change_first-All p f table rest k h.1 n)
  ]
]
  where
    changed_here : p r ≡ true → f r ∷ table ≡ changed
    changed_here t = ground (arith, e)

    changed_later :
        (rest : List Route) → p r ≡ false → change_first p f table ≡ some rest → r ∷ rest ≡ changed
    changed_later rest t n = ground (arith, e)

pub change_first-length :
    (p : Route → Bool) (f : Route → Route) (table changed : List Route)
    → change_first p f table ≡ some changed
    → length changed ≡ length table
unfolding change_first
change_first-length p f [] changed e = cc
change_first-length p f (r ∷ table) changed e = elim (Option-cases (change_first p f table)) [
  | inl n ↦ ground (arith, n, e)
  | inr (rest, n) ↦ ground (arith, n, e, change_first-length p f table rest n)
]

pub change_first-count :
    (c : Route) (p : Route → Bool) (f : Route → Route) (table changed : List Route)
    → ((r : Route) → p r ≡ true → same_prefix (f r) c ≡ same_prefix r c)
    → change_first p f table ≡ some changed
    → count_prefix c changed ≡ count_prefix c table
unfolding change_first count_prefix
change_first-count c p f [] changed k e = cc
change_first-count c p f (r ∷ table) changed k e = elim (Option-cases (change_first p f table)) [
  | inl n ↦ ground (arith, n, e, k r)
  | inr (rest, n) ↦ ground (arith, n, e, k r, change_first-count c p f table rest k n)
]

-- Erasing routes.
erase_routes-All :
    (P : Route → Type 0) (p : Route → Bool) (table : List Route)
    → All P table
    → All P (erase_routes p table)
unfolding erase_routes
erase_routes-All P p [] h = tt
erase_routes-All P p (r ∷ table) h = elim (Bool-cases (p r)) [
  | inl e ↦ rw e (erase_routes-All P p table h.1)
  | inr e ↦ rw e (h.0, erase_routes-All P p table h.1)
]

length-erase_routes :
    (p : Route → Bool) (table : List Route) → length (erase_routes p table) ≤ length table
unfolding erase_routes
length-erase_routes p [] = omega arith
length-erase_routes p (r ∷ table) = ground (arith, length-erase_routes p table)

count_prefix-erase_routes :
    (c : Route) (p : Route → Bool) (table : List Route)
    → count_prefix c (erase_routes p table) ≤ count_prefix c table
unfolding erase_routes count_prefix
count_prefix-erase_routes c p [] = omega arith
count_prefix-erase_routes c p (r ∷ table) = ground (arith, count_prefix-erase_routes c p table)

pub erased-IsTable :
    (p : Route → Bool) (e : RoutingEngine)
    → IsTable e
    → IsTable (record e { table = erase_routes p e.table })
erased-IsTable p e v = record {
  stored_routes = erase_routes-All IsStored p e.table v.stored_routes;
  few_routes = omega (arith, length-erase_routes p e.table, v.few_routes);
  few_candidates = λ c. omega (arith, count_prefix-erase_routes c p e.table, v.few_candidates c);
}

pub count_prefix-append :
    (c r : Route) (table : List Route)
    → count_prefix c (table ++ r ∷ []) ≡ count_prefix c table + (if same_prefix r c then 1 else 0)
unfolding count_prefix
count_prefix-append c r [] = omega arith
count_prefix-append c r (s ∷ table) = omega (arith, count_prefix-append c r table)

-- Routes of one prefix count the same.
pub count_prefix-same :
    (c r : Route) (table : List Route)
    → same_prefix r c ≡ true
    → count_prefix c table ≡ count_prefix r table
unfolding count_prefix
count_prefix-same c r [] h = refl
count_prefix-same c r (s ∷ table) h =
    let (prefixes, lengths) = same_prefix_sound r c h in
    ground (arith, prefixes, lengths, count_prefix-same c r table h)

pub append-All :
    (P : Route → Type 0) (r : Route) (table : List Route)
    → All P table
    → P r
    → All P (table ++ r ∷ [])
append-All P r [] h k = (k, tt)
append-All P r (s ∷ table) h k = (h.0, append-All P r table h.1 k)

-- The stored form of an acceptable route.
pub candidate_of-IsStored :
    (route : Route)
    → valid_prefix_length route.prefix route.prefix_length ≡ true
    → (is_direct route.type || is_relay route.type) ≡ true
    → acceptable_path route ≡ true
    → acceptable_metadata (candidate_of route) ≡ true
    → IsStored (candidate_of route)
unfolding candidate_of acceptable_path relay_path
candidate_of-IsStored route h k l m = record {
  shape = record { known = k; whole_path = l };
  prefix_valid =
      ground (arith, h, (make_prefix-address route.prefix (route.prefix_length % 2 ^ 8)).1);
  canonical = (make_prefix-address route.prefix (route.prefix_length % 2 ^ 8)).0;
  metadata = m;
}
