-- ===== src/RateLimiter/Bounds.antt =====
-- The limits that src/transport/handshake_rate_limiter.cpp holds to.
use aegis.Prelude.{
  ℕ, suc, ◌+◌, ◌≤◌, ◌<◌, Bool, true, false, ◌||◌, Option, none, some, List, [], ◌∷◌, length, ltb,
  leb, ◌==◌, if◌then◌else◌, arith, ◌≡◌, refl, Bool-cases, Option-cases, inl, inr, All,
}
use aegis.Prelude.Maps.{
  find, has, IsSorted, find-insert, find-erase_if, insert-Above, erase_if-Above, length-insert,
  length-erase_if,
}
use aegis.RateLimiter.{
  HandshakeRateLimitConfig, Endpoint, Bucket, HandshakeRateLimiter, construct, expired,
  reset_global_if_expired, purge_expired_sources, source_key, admit, count_source, allow, allow_all,
}

-- No limit is passed, and no more was counted for a source than over all of its window.
pub record IsBounded (l : HandshakeRateLimiter) : Type 0 where
  pub sorted : IsSorted l.sources
  pub tracked : length l.sources ≤ l.config.max_sources
  pub per_source :
      (key : ℕ) (b : Bucket) → find key l.sources ≡ some b → b.count ≤ l.config.per_source_limit
  pub global : l.global_count ≤ l.config.global_limit

-- A new limiter is within its limits.
pub construct-IsBounded :
    (config : HandshakeRateLimitConfig) (now : ℕ) → IsBounded (construct config now)
unfolding construct find
construct-IsBounded config now = record {
  sorted = tt;
  tracked = omega arith;
  per_source = λ key b e. cc;
  global = omega arith;
}

reset-IsBounded :
    {l : HandshakeRateLimiter} (now : ℕ) → IsBounded l → IsBounded (reset_global_if_expired now l)
unfolding reset_global_if_expired
reset-IsBounded {l} now v = elim (Bool-cases (expired l.window l.global_window_start now)) [
  | inl e ↦ rw e (record {
    sorted = v.sorted;
    tracked = v.tracked;
    per_source = v.per_source;
    global = omega arith;
  })
  | inr e ↦ rw e v
]

purge-IsBounded :
    {l : HandshakeRateLimiter} (now : ℕ) → IsBounded l → IsBounded (purge_expired_sources now l)
unfolding purge_expired_sources
purge-IsBounded {l} now v =
    let drop_it = λ (key : ℕ) (b : Bucket). expired l.window b.window_start now in
    record {
      sorted = erase_if-Above 0 drop_it l.sources v.sorted;
      tracked = omega (arith, length-erase_if drop_it l.sources, v.tracked);
      per_source = λ key b e. v.per_source key b (
          ground (
            arith,
            find-erase_if drop_it key l.sources v.sorted,
            Option-cases (find key l.sources),
          ));
      global = v.global;
    }

count_source-IsBounded :
    {l : HandshakeRateLimiter} (key : ℕ) (b : Bucket)
    → IsBounded l
    → b.count < l.config.per_source_limit
    → l.global_count < l.config.global_limit
    → (has key l.sources || ltb (length l.sources) l.config.max_sources) ≡ true
    → IsBounded (count_source key b l)
count_source-IsBounded {l} key b v h k room =
    let b' : Bucket = record b { count = suc b.count } in
    record {
      sorted = insert-Above 0 key b' l.sources (omega arith) v.sorted;
      tracked = ground (arith, length-insert key b' l.sources v.sorted, v.tracked);
      per_source = λ j c e. elim (Bool-cases (key == j)) [
        | inl f ↦ ground (arith, find-insert key j b' l.sources)
        | inr f ↦ v.per_source j c (ground (arith, find-insert key j b' l.sources))
      ];
      global = omega arith;
    }

-- A limit of 0 for sources would refuse all of them, so a new source asks for a positive one.
admit-IsBounded :
    {l : HandshakeRateLimiter} (key now : ℕ) (found : Option Bucket)
    → IsBounded l
    → found ≡ find key l.sources
    → 0 < l.config.per_source_limit
    → IsBounded (admit key found now l).1
unfolding admit
admit-IsBounded {l} key now (some b) v e h =
    elim (Bool-cases
      (leb l.config.per_source_limit b.count || leb l.config.global_limit l.global_count)) [
        | inl f ↦ rw f v
        | inr f ↦
            rw f (count_source-IsBounded key b v (ground arith) (ground arith) (ground (arith, e)))
      ]
admit-IsBounded {l} key now none v e h =
    elim (Bool-cases
      (leb l.config.global_limit l.global_count || leb l.config.max_sources (length l.sources))) [
        | inl f ↦ rw f v
        | inr f ↦ rw f (count_source-IsBounded key _ v h (ground arith) (ground (arith, e)))
      ]

same_config :
    (now : ℕ) (l : HandshakeRateLimiter)
    → (purge_expired_sources now (reset_global_if_expired now l)).config ≡ l.config
unfolding purge_expired_sources reset_global_if_expired
same_config now l = ground arith

-- `allow` keeps a limiter whose limit per source is not 0 within its limits: of the sources that it
-- tracks, of what each of them had in its window, and of what all had in theirs.
pub allow-IsBounded :
    {l : HandshakeRateLimiter} (source : Endpoint) (now : ℕ)
    → IsBounded l
    → 0 < l.config.per_source_limit
    → IsBounded (allow source now l).1
unfolding allow
allow-IsBounded {l} source now v h =
    let purged = purge_expired_sources now (reset_global_if_expired now l) in
    admit-IsBounded (source_key source) now (find (source_key source) purged.sources)
      (purge-IsBounded now (reset-IsBounded now v)) refl (ground (arith, h, same_config now l))

-- What one call changes while the window over all sources lasts.
record IsCounted (allowed : Bool) (l after : HandshakeRateLimiter) : Type 0 where
  config : after.config ≡ l.config
  window : after.window ≡ l.window
  start : after.global_window_start ≡ l.global_window_start
  count : after.global_count ≡ (if allowed then suc l.global_count else l.global_count)

admit-IsCounted :
    (key now : ℕ) (found : Option Bucket) (l : HandshakeRateLimiter)
    → IsCounted (admit key found now l).0 l (admit key found now l).1
unfolding admit
admit-IsCounted key now (some b) l =
    elim (Bool-cases
      (leb l.config.per_source_limit b.count || leb l.config.global_limit l.global_count)) [
        | inl f ↦ rw f (record { config = refl; window = refl; start = refl; count = refl })
        | inr f ↦ rw f (record { config = refl; window = refl; start = refl; count = refl })
      ]
admit-IsCounted key now none l =
    elim (Bool-cases
      (leb l.config.global_limit l.global_count || leb l.config.max_sources (length l.sources))) [
        | inl f ↦ rw f (record { config = refl; window = refl; start = refl; count = refl })
        | inr f ↦ rw f (record { config = refl; window = refl; start = refl; count = refl })
      ]

allow-IsCounted :
    (source : Endpoint) (now : ℕ) (l : HandshakeRateLimiter)
    → expired l.window l.global_window_start now ≡ false
    → IsCounted (allow source now l).0 l (allow source now l).1
unfolding allow reset_global_if_expired purge_expired_sources
allow-IsCounted source now l h = rw h (
    let purged = purge_expired_sources now l in
    let c =
      admit-IsCounted (source_key source) now (find (source_key source) purged.sources) purged in
    record { config = c.config; window = c.window; start = c.start; count = c.count })

-- From a limiter within its limits, whose limit per source is not 0: of the calls that fall into one
-- window over all sources, however many there are and wherever they come from, no more are allowed
-- than the global limit leaves.
pub allow_all-le_global :
    (calls : List (Endpoint × ℕ)) (l : HandshakeRateLimiter)
    → IsBounded l
    → 0 < l.config.per_source_limit
    → All (λ call. expired l.window l.global_window_start call.1 ≡ false) calls
    → (allow_all calls l).0 + l.global_count ≤ l.config.global_limit
unfolding allow_all
allow_all-le_global [] l v h in_window = omega (arith, v.global)
allow_all-le_global ((source, now) ∷ calls) l v h in_window =
    let next = (allow source now l).1 in
    let c = allow-IsCounted source now l in_window.0 in
    let rest =
      allow_all-le_global calls next (allow-IsBounded source now v h) (rw (c.config) h)
        (rw (c.window, c.start) in_window.1) in
    ground (arith, rest, c.count, c.config)
