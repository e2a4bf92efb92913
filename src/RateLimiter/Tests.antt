-- ===== src/RateLimiter/Tests.antt =====
-- A limiter of src/transport/handshake_rate_limiter.cpp with small limits.
use aegis.Prelude.{ℕ, ◌+◌, ◌≤◌, List, [], ◌∷◌, arith, ◌≡◌, refl}
use aegis.Prelude.Durations.{pos}
use aegis.Prelude.Maps.{find, insert, erase_if}
use aegis.RateLimiter.{
  HandshakeRateLimitConfig, Endpoint, HandshakeRateLimiter, construct, allow, allow_all, admit,
  source_key, purge_expired_sources, reset_global_if_expired,
}
use aegis.RateLimiter.Bounds.{construct-IsBounded, allow_all-le_global}

abbrev config : HandshakeRateLimitConfig
config = record { per_source_limit = 2; global_limit = 3; max_sources = 2; window = pos 1000 }

abbrev start : HandshakeRateLimiter
start = construct config 100

abbrev host : ℕ → Endpoint
host n = record { family = 4; address = n }

-- Two of one source, then one of each of two others: the last is a source too many.
abbrev calls : List (Endpoint × ℕ)
calls = (host 1, 100) ∷ (host 1, 200) ∷ (host 1, 300) ∷ (host 2, 400) ∷ (host 3, 500) ∷ []

three_allowed : (allow_all calls start).0 ≡ 3
unfolding allow_all allow admit source_key purge_expired_sources reset_global_if_expired construct
    find insert erase_if
three_allowed = refl

allow_all-le_global_example :
    (allow_all calls start).0 + start.global_count ≤ start.config.global_limit
unfolding construct
allow_all-le_global_example =
    allow_all-le_global calls start (construct-IsBounded config 100) (omega arith)
      (refl, (refl, (refl, (refl, (refl, tt)))))
