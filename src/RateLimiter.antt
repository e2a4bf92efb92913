-- ===== src/RateLimiter.antt =====
-- src/transport/handshake_rate_limiter.cpp and include/aegis/transport/handshake_rate_limiter.hpp:
-- how many handshakes may be processed in a window of time, per source and over all sources. A time
-- is a number of milliseconds.
pub mod Bounds
mod Tests
use aegis.Prelude.{
  ℕ, suc, ◌+◌, ◌-◌, ◌*◌, ◌/◌, ◌^◌, Bool, true, false, ◌||◌, Option, none, some, List, [], ◌∷◌,
  length, ltb, leb, ◌==◌, if◌then◌else◌,
}
use aegis.Prelude.Maps.{Map, find, insert, erase_if}
use aegis.Prelude.Durations.{ℤ, pos, negsuc}

pub record HandshakeRateLimitConfig : Type 0 where
  pub per_source_limit : ℕ
  pub global_limit : ℕ
  pub max_sources : ℕ
  pub window : ℤ

-- The part of an `Endpoint` that the limiter reads: the family, and the number that the 16 bytes of
-- the address spell.
pub record Endpoint : Type 0 where
  pub family : ℕ
  pub address : ℕ

pub record Bucket : Type 0 where
  pub window_start : ℕ
  pub count : ℕ

pub record HandshakeRateLimiter : Type 0 where
  pub config : HandshakeRateLimitConfig
  -- The window, which the constructor makes positive.
  pub window : ℕ
  pub global_window_start : ℕ
  pub global_count : ℕ
  pub sources : Map Bucket

abbrev pub positive_window : ℤ → ℕ
positive_window (pos n) = if n == 0 then 1 else n
positive_window (negsuc n) = 1

unfoldable pub construct : HandshakeRateLimitConfig → ℕ → HandshakeRateLimiter
construct config now = record {
  config = config;
  window = positive_window config.window;
  global_window_start = now;
  global_count = 0;
  sources = [];
}

abbrev pub expired : ℕ → ℕ → ℕ → Bool
expired window start now = ltb now start || leb window (now - start)

unfoldable pub reset_global_if_expired : ℕ → HandshakeRateLimiter → HandshakeRateLimiter
reset_global_if_expired now l =
    if expired l.window l.global_window_start now
    then record l { global_window_start = now; global_count = 0 }
    else l

unfoldable pub purge_expired_sources : ℕ → HandshakeRateLimiter → HandshakeRateLimiter
purge_expired_sources now l = record l {
  sources = erase_if (λ key b. expired l.window b.window_start now) l.sources;
}

abbrev pub ipv6 : ℕ
ipv6 = 6

-- A pair of the family and the address, as one number. Of an IPv6 address the last 8 bytes are
-- cleared.
unfoldable pub source_key : Endpoint → ℕ
source_key source =
    source.family * 2 ^ 128
    + (if source.family == ipv6 then source.address / 2 ^ 64 * 2 ^ 64 else source.address)

-- One more for a source. A count is below a limit of type `size_t`, so it does not wrap.
abbrev pub count_source : ℕ → Bucket → HandshakeRateLimiter → HandshakeRateLimiter
count_source key bucket l = record l {
  global_count = suc l.global_count;
  sources = insert key (record bucket { count = suc bucket.count }) l.sources;
}

-- `allow` behind the purges, with the bucket that is found.
unfoldable pub admit : ℕ → Option Bucket → ℕ → HandshakeRateLimiter → Bool × HandshakeRateLimiter
admit key (some bucket) now l =
    if leb l.config.per_source_limit bucket.count || leb l.config.global_limit l.global_count
    then (false, l)
    else (true, count_source key bucket l)
admit key none now l =
    if leb l.config.global_limit l.global_count || leb l.config.max_sources (length l.sources)
    then (false, l)
    else (true, count_source key (record { window_start = now; count = 0 }) l)

unfoldable pub allow : Endpoint → ℕ → HandshakeRateLimiter → Bool × HandshakeRateLimiter
unfolding admit
allow source now l =
    let l' = purge_expired_sources now (reset_global_if_expired now l) in
    let key = source_key source in admit key (find key l'.sources) now l'

unfoldable pub tracked_sources : HandshakeRateLimiter → ℕ
tracked_sources l = length l.sources

-- A sequence of calls, and how many of them were allowed.
unfoldable pub allow_all : List (Endpoint × ℕ) → HandshakeRateLimiter → ℕ × HandshakeRateLimiter
allow_all [] l = (0, l)
allow_all ((source, now) ∷ calls) l =
    let (allowed, l') = allow source now l in
    let (count, l'') = allow_all calls l' in (if allowed then suc count else count, l'')
