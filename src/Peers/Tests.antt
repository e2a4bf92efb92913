-- ===== src/Peers/Tests.antt =====
-- A peer of src/peer/peer.cpp that is met under two keys.
use aegis.Prelude.{true, false, none, some, [], ◌∷◌, List, ◌≡◌, refl}
use aegis.Prelude.Maps.{find, insert}
use aegis.IpAddress.{from_ipv4, ipv4_value, same_address}
use aegis.Wire.{u32_bytes, big_endian}
use aegis.Candidates.{EndpointCandidate, valid_endpoint_candidate, acceptable_candidates}
use aegis.Peers.{
  PeerManager, construct, new_peer, upsert, upsert_found, identity_conflict, set_candidates,
  set_endpoint_candidates,
}
use aegis.Peers.Identity.{
  PeerCall, call_upsert, call_seen, call_dead, call_candidates, run_calls, Later, run_calls-Later,
}

abbrev manager : PeerManager
manager = (upsert 5 77 none true 100 (construct 2)).1

-- 10.0.0.1 and 224.0.0.1.
abbrev host : EndpointCandidate
host = record {
  candidate_type = 1;
  endpoint = record { address = from_ipv4 167772161; port = 80 };
  priority = 7;
}

abbrev multicast : EndpointCandidate
multicast = record {
  candidate_type = 1;
  endpoint = record { address = from_ipv4 3758096385; port = 80 };
  priority = 7;
}

abbrev calls : List PeerCall
calls =
    call_upsert 5 78 (some 9) false 200
    ∷ call_seen 5 (some 9) 300
    ∷ call_candidates 5 (host ∷ [])
    ∷ call_dead 5
    ∷ []

other_key_refused : (upsert 5 78 none false 200 manager).0 ≡ identity_conflict
unfolding upsert upsert_found find insert
other_key_refused = refl

host_taken : (set_endpoint_candidates 5 (host ∷ []) manager).0 ≡ true
unfolding set_endpoint_candidates set_candidates acceptable_candidates valid_endpoint_candidate
    ipv4_value u32_bytes big_endian upsert upsert_found find insert
host_taken = refl

twice_refused : (set_endpoint_candidates 5 (host ∷ host ∷ []) manager).0 ≡ false
unfolding set_endpoint_candidates set_candidates acceptable_candidates valid_endpoint_candidate
    ipv4_value u32_bytes big_endian same_address
twice_refused = refl

multicast_refused : (set_endpoint_candidates 5 (multicast ∷ []) manager).0 ≡ false
unfolding set_endpoint_candidates set_candidates acceptable_candidates valid_endpoint_candidate
    ipv4_value u32_bytes big_endian
multicast_refused = refl

run_calls-Later_example :
    Later (new_peer 5 77 none true 100) (find 5 (run_calls calls manager).peers)
unfolding upsert upsert_found find insert
run_calls-Later_example = run_calls-Later calls 5 manager (new_peer 5 77 none true 100) refl
