-- ===== src/Candidates.antt =====
-- src/protocol/endpoint_candidate.cpp and include/aegis/net/endpoint.hpp: the test that a candidate
-- endpoint of a peer has to pass. The messages that carry candidates are not modelled.
use aegis.Prelude.{
  ℕ, ◌/◌, ◌%◌, ◌^◌, Bool, true, false, ◌&&◌, ◌||◌, not, List, [], ◌∷◌, take, ◌==◌, ◌-◌,
}
use aegis.IpAddress.{IpAddress, bit_width, ipv4_value, same_address}

-- The port is in network byte order.
pub record Endpoint : Type 0 where
  pub address : IpAddress
  pub port : ℕ

-- The type is the number of the enumeration, 1 to 3; a cast can make others.
pub record EndpointCandidate : Type 0 where
  pub candidate_type : ℕ
  pub endpoint : Endpoint
  pub priority : ℕ

abbrev pub endpoint_candidate_max_count : ℕ
endpoint_candidate_max_count = 8

abbrev all_zero : List ℕ → Bool
all_zero [] = true
all_zero (byte ∷ bytes) = byte == 0 && all_zero bytes

abbrev unspecified : Endpoint → Bool
unspecified endpoint = all_zero (take (bit_width endpoint.address / 8) endpoint.address.bytes)

abbrev equal_endpoints : Endpoint → Endpoint → Bool
equal_endpoints a b = same_address a.address b.address && a.port == b.port

abbrev known_type : ℕ → Bool
known_type candidate_type = candidate_type == 1 || candidate_type == 2 || candidate_type == 3

-- The upper four bits of a 32-bit address are 14 for the multicast addresses.
unfoldable pub valid_endpoint_candidate : EndpointCandidate → Bool
valid_endpoint_candidate candidate =
    let ip = ipv4_value candidate.endpoint.address in
    known_type candidate.candidate_type
    && candidate.endpoint.address.family == 4
    && not (unspecified candidate.endpoint)
    && not (candidate.endpoint.port == 0)
    && not (candidate.priority == 0)
    && not (ip == 2 ^ 32 - 1)
    && not (ip / 2 ^ 28 % 16 == 14)

abbrev is_seen : Endpoint → List Endpoint → Bool
is_seen endpoint [] = false
is_seen endpoint (other ∷ seen) = equal_endpoints endpoint other || is_seen endpoint seen

-- The loop over the candidates: every one is valid, and no endpoint comes twice or is in the set.
unfoldable pub acceptable_candidates : List Endpoint → List EndpointCandidate → Bool
acceptable_candidates seen [] = true
acceptable_candidates seen (candidate ∷ candidates) =
    valid_endpoint_candidate candidate
    && not (is_seen candidate.endpoint seen)
    && acceptable_candidates (candidate.endpoint ∷ seen) candidates
