-- ===== src/SendQueue/Pop.antt =====
-- `pop` of include/aegis/transport/send_queue.hpp: control traffic first, the peers of a kind in
-- turn, each peer's datagrams in the order in which they were queued.
use aegis.Prelude.{
  ℕ, ◌≤◌, true, false, ◌&&◌, not, none, some, List, [], ◌∷◌, ◌++◌, length, contains,
  contains-append, append-IsDistinct, ◌==◌, if◌then◌else◌, arith, ◌≡◌, Bool-cases, inl, inr,
  sub_size, ◌⊎◌, Option-cases, List-cases, ◌∙◌,
}
use aegis.Prelude.Maps.{find, sum, IsSorted, find-insert, find-erase}
use aegis.SendQueue.{
  SendPriority, data_priority, control_priority, PeerQueue, QueueLane, SendQueue, select, update,
  or_empty, lane_of, is_empty, take_datagram, pop_front, pop_class, pop, empty_lane,
}
use aegis.SendQueue.Invariant.{items_in, bytes_in, vacant, IsClassValid, IsValid}
use aegis.SendQueue.Lanes.{
  same, select-update, items-put, put-IsCounted, sum-put_peer, put_peer-IsSorted, same_class,
  IsCounted, items_zero, bytes_zero, select-both,
}

-- The queue after the datagram `d` of the peer `k` is taken.
abbrev pub popped : ℕ → List ℕ → List (List ℕ) → SendPriority → List ℕ → SendQueue → SendQueue
popped k d rest p active q = take_datagram k d rest p (or_empty (find k q.peers)) active q

-- With a peer in the round, `pop` returns the first datagram of the first peer.
pop_front-popped :
    {p : SendPriority} {k : ℕ} {active : List ℕ} {q : SendQueue}
    → IsClassValid p q
    → select p q.active ≡ k ∷ active
    → (d : List ℕ) × (rest : List (List ℕ)) × ((lane_of p k q).items ≡ d ∷ rest)
      × (pop_class p q
          ≡ (some (record { peer_key = k; priority = p; bytes = d }), popped k d rest p active q))
unfolding pop_front
pop_front-popped {p} {k} {active} {q} v e = elim (List-cases (lane_of p k q).items) [
  | inl z ↦ absurd (ground (arith, v.served k))
  | inr (d, rest, z) ↦ (
    d,
    rest,
    z,
    elim (Option-cases (find k q.peers)) [
      | inl f ↦ absurd (ground (arith, select-both p empty_lane))
      | inr (peer, f) ↦ ground arith
    ],
  )
]

-- The lane after its first datagram is taken.
abbrev shorter : SendQueue → ℕ → List ℕ → List (List ℕ) → SendPriority → QueueLane
shorter q k d rest p = record { items = rest; bytes = sub_size (lane_of p k q).bytes (length d) }

vacant_items : (r : SendPriority) (peer : PeerQueue) → vacant peer ≡ true → items_in r peer ≡ 0
vacant_items data_priority peer h =
    ground (arith, List-cases peer.data_class.items, List-cases peer.control_class.items)
vacant_items r peer h =
    ground (arith, List-cases peer.data_class.items, List-cases peer.control_class.items)

vacant_bytes :
    (r : SendPriority) (peer : PeerQueue)
    → IsCounted (select r peer)
    → vacant peer ≡ true
    → bytes_in r peer ≡ 0
vacant_bytes data_priority peer c h =
    ground (arith, List-cases peer.data_class.items, List-cases peer.control_class.items)
vacant_bytes r peer c h =
    ground (arith, List-cases peer.data_class.items, List-cases peer.control_class.items)

module _ (q : SendQueue) (k : ℕ) (d : List ℕ) (rest : List (List ℕ)) (p r : SendPriority)
    (active : List ℕ) where
  pub items-popped :
      (j : ℕ)
      → (lane_of r j (popped k d rest p active q)).items
        ≡ (if k == j && same p r then rest else (lane_of r j q).items)
  items-popped j = items-put p r k j (shorter q k d rest p) q.peers

  pub active-popped :
      select r (popped k d rest p active q).active
      ≡ (if same p r then if is_empty rest then active else active ++ k ∷ [] else select r q.active)
  active-popped = select-update p r _ q.active

  totals-popped :
      let totals = select p q.totals in
      select r (popped k d rest p active q).totals ≡ (
        if same p r
        then record { items = sub_size totals.items 1; bytes = sub_size totals.bytes (length d) }
        else select r q.totals)
  totals-popped = select-update p r _ q.totals

  module _ (w : IsClassValid p q) (v : IsClassValid r q) (sorted : IsSorted q.peers)
      (turn : select p q.active ≡ k ∷ active) (lane : (lane_of p k q).items ≡ d ∷ rest) where
    shorter-IsCounted : IsCounted (shorter q k d rest p)
    shorter-IsCounted = ground (arith, w.counted k, w.peer_bytes k, w.fits)

    popped-served :
        (j : ℕ)
        → contains j (select r (popped k d rest p active q).active)
          ≡ not (is_empty (lane_of r j (popped k d rest p active q)).items)
    popped-served j = ground (
      arith,
      active-popped,
      items-popped j,
      v.served j,
      w.served j,
      same_class p r,
      w.distinct,
      contains-append j active (k ∷ []),
    )

    popped-IsCounted : (j : ℕ) → IsCounted (lane_of r j (popped k d rest p active q))
    popped-IsCounted j =
        put-IsCounted p r k j (shorter q k d rest p) q.peers shorter-IsCounted (v.counted j)

    peer_after : PeerQueue
    peer_after = update p (shorter q k d rest p) (or_empty (find k q.peers))

    peer_after-IsCounted : IsCounted (select r peer_after)
    unfolding peer_after
    peer_after-IsCounted = ground (
      arith,
      select-update p r (shorter q k d rest p) (or_empty (find k q.peers)),
      shorter-IsCounted,
      v.counted k,
    )

    -- The counters stay the sums over the peers, and do not grow.
    popped_items :
        let after = popped k d rest p active q in
        ((select r after.totals).items ≡ sum (items_in r) after.peers)
        × ((select r after.totals).items ≤ (select r q.totals).items)
    unfolding peer_after
    popped_items = ground (
      arith,
      totals-popped,
      same_class p r,
      v.total_items,
      v.global_items,
      v.fits,
      select-update p r (shorter q k d rest p) (or_empty (find k q.peers)),
      sum-put_peer (items_in r) (items_zero r) k peer_after q.peers sorted
          (vacant_items r peer_after),
    )

    popped_bytes :
        let after = popped k d rest p active q in
        ((select r after.totals).bytes ≡ sum (bytes_in r) after.peers)
        × ((select r after.totals).bytes ≤ (select r q.totals).bytes)
    unfolding peer_after
    popped_bytes = ground (
      arith,
      totals-popped,
      same_class p r,
      v.total_bytes,
      v.global_bytes,
      v.fits,
      w.counted k,
      w.peer_bytes k,
      w.fits,
      shorter-IsCounted,
      select-update p r (shorter q k d rest p) (or_empty (find k q.peers)),
      sum-put_peer (bytes_in r) (bytes_zero r) k peer_after q.peers sorted
          (vacant_bytes r peer_after peer_after-IsCounted),
    )

    popped-IsClassValid : IsClassValid r (popped k d rest p active q)
    popped-IsClassValid = record {
      distinct = ground (arith, active-popped, append-IsDistinct active k, w.distinct, v.distinct);
      served = popped-served;
      counted = popped-IsCounted;
      total_items = popped_items.0;
      total_bytes = popped_bytes.0;
      peer_items =
          λ j. ground (arith, items-popped j, v.peer_items j, w.peer_items k, same_class p r);
      peer_bytes = λ j. ground (
        arith,
        popped-IsCounted j,
        items-popped j,
        v.counted j,
        v.peer_bytes j,
        w.counted k,
        w.peer_bytes k,
        same_class p r,
      );
      global_items = omega (arith, popped_items, v.global_items);
      global_bytes = omega (arith, popped_bytes, v.global_bytes);
      fits = v.fits;
    }

popped_occupied :
    (q : SendQueue) (k : ℕ) (d : List ℕ) (rest : List (List ℕ)) (p : SendPriority) (active : List ℕ)
    (j : ℕ) (peer : PeerQueue)
    → ((i : ℕ) (other : PeerQueue) → find i q.peers ≡ some other → vacant other ≡ false)
    → find j (popped k d rest p active q).peers ≡ some peer
    → vacant peer ≡ false
popped_occupied q k d rest p active j peer o e =
    let after = update p (shorter q k d rest p) (or_empty (find k q.peers)) in
    elim (Bool-cases (vacant after)) [
      | inl h ↦ ground (arith, rw h at e, find-erase k j q.peers, o j peer)
      | inr h ↦ ground (arith, rw h at e, find-insert k j after q.peers, o j peer)
    ]

pub popped-IsValid :
    {q : SendQueue} (k : ℕ) (d : List ℕ) (rest : List (List ℕ)) (p : SendPriority) (active : List ℕ)
    → IsValid q
    → select p q.active ≡ k ∷ active
    → (lane_of p k q).items ≡ d ∷ rest
    → IsValid (popped k d rest p active q)
popped-IsValid {q} k d rest p active v turn lane = record {
  sorted =
      put_peer-IsSorted k (update p (shorter q k d rest p) (or_empty (find k q.peers))) q.peers
        v.sorted;
  classes =
      λ r. popped-IsClassValid q k d rest p r active (v.classes p) (v.classes r) v.sorted turn lane;
  occupied = λ j peer e. popped_occupied q k d rest p active j peer v.occupied e;
}

-- Control traffic goes first.
abbrev pub Goes : SendPriority → SendQueue → Type 0
Goes data_priority q = q.active.control_class ≡ []
Goes control_priority q = Unit {0}

-- A call of `pop` that takes the datagram `d` of the peer `k`.
pub record Takes (q : SendQueue) (p : SendPriority) (k : ℕ) (active : List ℕ) (d : List ℕ)
    (rest : List (List ℕ)) : Type 0 where
  pub goes : Goes p q
  pub turn : select p q.active ≡ k ∷ active
  pub lane : (lane_of p k q).items ≡ d ∷ rest
  pub result :
      pop q ≡ (some (record { peer_key = k; priority = p; bytes = d }), popped k d rest p active q)

abbrev pub IsIdle : SendQueue → Type 0
IsIdle q = (q.active.control_class ≡ []) × (q.active.data_class ≡ []) × (pop q ≡ (none, q))

pop-Takes :
    {q : SendQueue} (p : SendPriority) (k : ℕ) (active : List ℕ)
    → IsValid q
    → Goes p q
    → select p q.active ≡ k ∷ active
    → pop q ≡ pop_class p q
    → (d : List ℕ) × (rest : List (List ℕ)) × Takes q p k active d rest
pop-Takes {q} p k active v g turn e =
    let (d, rest, lane, result) = pop_front-popped (v.classes p) turn in
    (d, rest, record { goes = g; turn = turn; lane = lane; result = e ∙ result })

pub pop-cases :
    {q : SendQueue}
    → IsValid q
    → IsIdle q
      ⊎ ((p : SendPriority) × (k : ℕ) × (active : List ℕ) × (d : List ℕ) × (rest : List (List ℕ))
          × Takes q p k active d rest)
pop-cases {q} v = elim (List-cases q.active.control_class) [
  | inl c ↦ elim (List-cases q.active.data_class) [
    | inl e ↦ inl (c, e, unfold pop in rw (c, e))
    | inr (k, active, e) ↦
        let (d, rest, t) = pop-Takes data_priority k active v c e (unfold pop in rw (c, e)) in
        inr (data_priority, k, active, d, rest, t)
  ]
  | inr (k, active, e) ↦
      let (d, rest, t) = pop-Takes control_priority k active v tt e (unfold pop in rw e) in
      inr (control_priority, k, active, d, rest, t)
]
