-- ===== src/Routing/Search.antt =====
-- The route that find_route of src/routing/routing.cpp answers.
use aegis.Prelude.{
  ◌≤◌, true, false, ◌&&◌, ◌||◌, none, some, List, [], ◌∷◌, length, arith, ◌≡◌, ◌⊎◌, inl, inr, refl,
  All, Bool-cases, ◌∙◌, ap,
}
use aegis.IpAddress.{IpAddress}
use aegis.Routing.{
  NextHopType, direct, relay, unknown, is_direct, is_relay, Route, RoutingEngine, usable, beats,
  find_best, checked, find_route, acceptable_path,
}

-- A route of the table.
abbrev pub IsIn : Route → List Route → Type 0
IsIn r [] = ⊥
IsIn r (s ∷ table) = (r ≡ s) ⊎ IsIn r table

-- A route is direct, or it is a relay route whose path is whole.
pub record IsRoute (r : Route) : Type 0 where
  pub known : (is_direct r.type || is_relay r.type) ≡ true
  pub whole_path : acceptable_path r ≡ true

direct-relay : (t : NextHopType) → (is_direct t && is_relay t) ≡ false
direct-relay direct = refl
direct-relay relay = refl
direct-relay unknown = refl

beats-irreflexive : (r : Route) → beats r r ≡ false
unfolding beats
beats-irreflexive r = ground (arith, direct-relay r.type)

-- What does not beat a route does not beat one that beats it.
beats-step :
    (x best route : Route)
    → IsRoute x
    → IsRoute best
    → IsRoute route
    → beats x best ≡ false
    → beats route best ≡ true
    → beats x route ≡ false
unfolding beats
beats-step x best route hx hb hr h k = ground (
  arith,
  hx.known,
  hb.known,
  hr.known,
  direct-relay x.type,
  direct-relay best.type,
  direct-relay route.type,
)

-- The loop from a best route on: what it answers, and what does not beat the answer.
find_best-some :
    (dest : IpAddress) (best : Route) (table : List Route)
    → IsRoute best
    → All IsRoute table
    → (r : Route) × (find_best dest (some best) table ≡ some r)
      × IsRoute r
      × ((r ≡ best) ⊎ (IsIn r table × (usable dest r ≡ true)))
      × ((x : Route) → IsRoute x → beats x best ≡ false → beats x r ≡ false)
      × All (λ s. usable dest s ≡ true → beats s r ≡ false) table
unfolding find_best
find_best-some dest best [] hb h = (best, refl, hb, inl refl, (λ x hx k. k), tt)
find_best-some dest best (s ∷ table) hb h = elim (Bool-cases (usable dest s)) [
  | inr e ↦
      let (r, found, known, place, kept, others) = find_best-some dest best table hb h.1 in
      (
        r,
        rw e found,
        known,
        elim place [ inl p ↦ inl p | inr p ↦ inr (inr p.0, p.1) ],
        kept,
        ((λ u. cc), others),
      )
  | inl e ↦ elim (Bool-cases (beats s best)) [
    | inl k ↦
        let (r, found, known, place, kept, others) = find_best-some dest s table h.0 h.1 in
        (
          r,
          rw (e, k) found,
          known,
          elim place [ inl p ↦ inr (inl p, ap (usable dest) p ∙ e) | inr p ↦ inr (inr p.0, p.1) ],
          (λ x hx j. kept x hx (beats-step x best s hx hb h.0 j k)),
          ((λ u. kept s h.0 (beats-irreflexive s)), others),
        )
    | inr k ↦
        let (r, found, known, place, kept, others) = find_best-some dest best table hb h.1 in
        (
          r,
          rw (e, k) found,
          known,
          elim place [ inl p ↦ inl p | inr p ↦ inr (inr p.0, p.1) ],
          kept,
          ((λ u. kept s h.0 k), others),
        )
  ]
]

-- From no best route on.
find_best-none :
    (dest : IpAddress) (table : List Route)
    → All IsRoute table
    → ((find_best dest none table ≡ none) × All (λ s. usable dest s ≡ false) table)
      ⊎ ((r : Route) × (find_best dest none table ≡ some r)
          × IsRoute r
          × IsIn r table
          × (usable dest r ≡ true)
          × All (λ s. usable dest s ≡ true → beats s r ≡ false) table)
unfolding find_best
find_best-none dest [] h = inl (refl, tt)
find_best-none dest (s ∷ table) h = elim (Bool-cases (usable dest s)) [
  | inl e ↦
      let (r, found, known, place, kept, others) = find_best-some dest s table h.0 h.1 in
      inr (
        r,
        rw e found,
        known,
        elim place [ inl p ↦ inl p | inr p ↦ inr p.0 ],
        elim place [ inl p ↦ ap (usable dest) p ∙ e | inr p ↦ p.1 ],
        ((λ u. kept s h.0 (beats-irreflexive s)), others),
      )
  | inr e ↦ elim (find_best-none dest table h.1) [
    | inl (nothing, all) ↦ inl (rw e nothing, (e, all))
    | inr (r, found, known, place, fits, others) ↦
        inr (r, rw e found, known, inr place, fits, ((λ u. cc), others))
  ]
]

checked-IsRoute : (r : Route) → IsRoute r → checked (some r) ≡ some r
unfolding acceptable_path
checked-IsRoute r v = ground (arith, v.whole_path)

-- How the answer compares with another route of the table that could be used: its prefix is as
-- long; among prefixes of one length a direct route comes first, and then the shortest relay path.
pub record IsPreferred (r s : Route) : Type 0 where
  pub longest : s.prefix_length ≤ r.prefix_length
  pub direct_first :
      s.prefix_length ≡ r.prefix_length → is_direct s.type ≡ true → is_direct r.type ≡ true
  pub shortest :
      s.prefix_length ≡ r.prefix_length
      → is_relay s.type ≡ true
      → is_relay r.type ≡ true
      → length r.path ≤ length s.path

beats-IsPreferred : (r s : Route) → IsRoute r → IsRoute s → beats s r ≡ false → IsPreferred r s
unfolding beats
beats-IsPreferred r s v u h = record {
  longest = ground arith;
  direct_first = λ e k. ground (arith, v.known, direct-relay s.type);
  shortest = λ e k l. ground (arith, direct-relay s.type, direct-relay r.type);
}

IsPreferred-All :
    (dest : IpAddress) (r : Route) (table : List Route)
    → IsRoute r
    → All IsRoute table
    → All (λ s. usable dest s ≡ true → beats s r ≡ false) table
    → All (λ s. usable dest s ≡ true → IsPreferred r s) table
IsPreferred-All dest r [] v h k = tt
IsPreferred-All dest r (s ∷ table) v h k =
    (λ u. beats-IsPreferred r s v h.0 (k.0 u), IsPreferred-All dest r table v h.1 k.1)

-- In a table of well-formed routes, find_route answers nothing exactly when no route that has not
-- failed covers the address; otherwise it answers a route of the table that has not failed and
-- covers the address, and that is preferred to every other such route.
pub find_route-longest :
    (dest : IpAddress) (e : RoutingEngine)
    → All IsRoute e.table
    → ((find_route dest e ≡ none) × All (λ s. usable dest s ≡ false) e.table)
      ⊎ ((r : Route) × (find_route dest e ≡ some r)
          × IsIn r e.table
          × (usable dest r ≡ true)
          × All (λ s. usable dest s ≡ true → IsPreferred r s) e.table)
unfolding find_route
find_route-longest dest e h = elim (find_best-none dest e.table h) [
  | inl (nothing, all) ↦ inl (ap checked nothing, all)
  | inr (r, found, known, place, fits, others) ↦ inr (
    r,
    ap checked found ∙ checked-IsRoute r known,
    place,
    fits,
    IsPreferred-All dest r e.table known h others,
  )
]
