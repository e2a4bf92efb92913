-- ===== src/Peers.antt =====
-- src/peer/peer.cpp and include/aegis/peer/peer.hpp: what is known of each peer. An endpoint is the
-- number that its family, address and port spell, but that of a candidate, which keeps its bytes; the
-- empty key is 0. A clock reading is a number of nanoseconds, 0 for none; the two intervals are
-- milliseconds, and none is below 0. The functions that set the intervals are not modelled.
mod Identity
mod Tests
use aegis.Prelude.{
  ℕ, suc, ◌+◌, ◌-◌, ◌/◌, ◌%◌, ◌^◌, Bool, true, false, ◌&&◌, ◌||◌, not, Option, none, some, List, [],
  ◌∷◌, length, leb, ltb, ◌==◌, if◌then◌else◌, is_some,
}
use aegis.Prelude.Maps.{Map, find, insert, erase, has}
use aegis.Candidates.{EndpointCandidate, endpoint_candidate_max_count, acceptable_candidates}

pub data PeerState : Type 0 where
  unseen discovering connecting established dead : PeerState

abbrev pub is_established : PeerState → Bool
is_established established = true
is_established _ = false

abbrev pub is_dead : PeerState → Bool
is_dead dead = true
is_dead _ = false

pub data PeerPath : Type 0 where
  no_path direct hole_punched : PeerPath

abbrev pub is_no_path : PeerPath → Bool
is_no_path no_path = true
is_no_path _ = false

pub data PeerUpsertResult : Type 0 where
  inserted updated identity_bound identity_conflict capacity_rejected : PeerUpsertResult

pub record Peer : Type 0 where
  pub node_id : ℕ
  pub public_key : ℕ
  pub endpoint : Option ℕ
  pub endpoint_candidates : List EndpointCandidate
  pub state : PeerState
  pub path : PeerPath
  pub created_at : ℕ
  pub last_seen : ℕ
  pub last_keepalive : ℕ
  pub connected_since : ℕ
  pub connect_attempts : ℕ
  pub trusted : Bool

pub record PeerManager : Type 0 where
  pub peers : Map Peer
  pub max_peers : ℕ
  pub keepalive_interval : ℕ
  pub dead_timeout : ℕ

abbrev pub construct : ℕ → PeerManager
construct max_peers = record {
  peers = [];
  max_peers = max_peers;
  keepalive_interval = 25000;
  dead_timeout = 180000;
}

abbrev or_else : Option ℕ → Option ℕ → Option ℕ
or_else none old = old
or_else (some endpoint) old = some endpoint

-- What an accepted update leaves of a peer.
unfoldable merged : Peer → ℕ → Option ℕ → Bool → Peer
merged peer public_key endpoint trusted = record peer {
  public_key =
      if peer.public_key == 0 && not (public_key == 0) then public_key else peer.public_key;
  endpoint = or_else endpoint peer.endpoint;
  trusted = peer.trusted || trusted;
}

abbrev pub new_peer : ℕ → ℕ → Option ℕ → Bool → ℕ → Peer
new_peer node_id public_key endpoint trusted now = record {
  node_id = node_id;
  public_key = public_key;
  endpoint = endpoint;
  endpoint_candidates = [];
  state = unseen;
  path = no_path;
  created_at = now;
  last_seen = 0;
  last_keepalive = 0;
  connected_since = 0;
  connect_attempts = 0;
  trusted = trusted;
}

unfoldable upsert_found :
    Option Peer → ℕ → ℕ → Option ℕ → Bool → ℕ → PeerManager → PeerUpsertResult × PeerManager
upsert_found (some peer) node_id public_key endpoint trusted now m =
    if not (peer.public_key == 0) && not (public_key == 0) && not (peer.public_key == public_key)
    then (identity_conflict, m)
    else (
      if peer.public_key == 0 && not (public_key == 0) then identity_bound else updated,
      record m { peers = insert node_id (merged peer public_key endpoint trusted) m.peers },
    )
upsert_found none node_id public_key endpoint trusted now m =
    if leb m.max_peers (length m.peers) then (capacity_rejected, m) else (
      inserted,
      record m {
        peers = insert node_id (new_peer node_id public_key endpoint trusted now) m.peers;
      },
    )

unfoldable upsert : ℕ → ℕ → Option ℕ → Bool → ℕ → PeerManager → PeerUpsertResult × PeerManager
upsert node_id public_key endpoint trusted now m =
    upsert_found (find node_id m.peers) node_id public_key endpoint trusted now m

unfoldable add_peer : Peer → PeerManager → Bool × PeerManager
add_peer peer m =
    if not (has peer.node_id m.peers) && leb m.max_peers (length m.peers)
    then (false, m)
    else (true, record m { peers = insert peer.node_id peer m.peers })

unfoldable remove_peer : ℕ → PeerManager → PeerManager
remove_peer node_id m = record m { peers = erase node_id m.peers }

unfoldable get_peer : ℕ → PeerManager → Option Peer
get_peer node_id m = find node_id m.peers

-- What the functions below do: a peer that is known is changed.
unfoldable change : (Peer → Peer) → Option Peer → ℕ → PeerManager → PeerManager
change f none node_id m = m
change f (some peer) node_id m = record m { peers = insert node_id (f peer) m.peers }

abbrev same_endpoint : Option ℕ → ℕ → Bool
same_endpoint none endpoint = false
same_endpoint (some old) endpoint = old == endpoint

unfoldable at_endpoint : Option ℕ → Peer → Peer
at_endpoint none peer = peer
at_endpoint (some endpoint) peer = record peer {
  endpoint = some endpoint;
  path =
      if not (same_endpoint peer.endpoint endpoint) || is_no_path peer.path
      then direct
      else peer.path;
}

-- A valid packet came from the peer.
unfoldable alive : ℕ → Peer → Peer
alive now peer = record peer {
  connected_since = if is_established peer.state then peer.connected_since else now;
  last_keepalive = now;
  last_seen = now;
  state = established;
}

unfoldable mark_seen : ℕ → Option ℕ → ℕ → PeerManager → PeerManager
mark_seen node_id endpoint now m =
    change (λ peer. alive now (at_endpoint endpoint peer)) (find node_id m.peers) node_id m

unfoldable mark_hole_punched : ℕ → ℕ → ℕ → PeerManager → PeerManager
mark_hole_punched node_id endpoint now m =
    change (λ peer. alive now (record peer { endpoint = some endpoint; path = hole_punched }))
      (find node_id m.peers) node_id m

unfoldable mark_connecting : ℕ → PeerManager → PeerManager
mark_connecting node_id m =
    change
      (λ peer. record peer {
        state = connecting;
        connect_attempts = suc peer.connect_attempts % 2 ^ 32;
      })
      (find node_id m.peers) node_id m

unfoldable mark_dead : ℕ → PeerManager → PeerManager
mark_dead node_id m =
    change (λ peer. record peer { state = dead; path = no_path }) (find node_id m.peers) node_id m

unfoldable update_endpoint : ℕ → ℕ → ℕ → PeerManager → PeerManager
update_endpoint node_id endpoint now m =
    change
      (λ peer. record peer {
        path = if same_endpoint peer.endpoint endpoint then peer.path else no_path;
        endpoint = some endpoint;
        last_seen = now;
      })
      (find node_id m.peers) node_id m

unfoldable set_candidates :
    Option Peer → ℕ → List EndpointCandidate → PeerManager → Bool × PeerManager
set_candidates none node_id candidates m = (false, m)
set_candidates (some peer) node_id candidates m = (
  true,
  record m { peers = insert node_id (record peer { endpoint_candidates = candidates }) m.peers },
)

-- None, too many, one that is not valid, or one endpoint twice.
abbrev pub refused : List EndpointCandidate → Bool
refused candidates =
    length candidates == 0
    || ltb endpoint_candidate_max_count (length candidates)
    || not (acceptable_candidates [] candidates)

unfoldable set_endpoint_candidates : ℕ → List EndpointCandidate → PeerManager → Bool × PeerManager
set_endpoint_candidates node_id candidates m =
    if refused candidates
    then (false, m)
    else set_candidates (find node_id m.peers) node_id candidates m

abbrev is_stale : ℕ → ℕ → Peer → Bool
is_stale dead_timeout now peer =
    let reference = if peer.last_seen == 0 then peer.created_at else peer.last_seen in
    not (is_dead peer.state) && leb dead_timeout ((now - reference) / 1000000)

abbrev needs_keepalive : ℕ → ℕ → Peer → Bool
needs_keepalive keepalive_interval now peer =
    is_established peer.state && leb keepalive_interval ((now - peer.last_keepalive) / 1000000)

-- The loop that collects the peers that meet a test.
unfoldable select_peers : (Peer → Bool) → Map Peer → List Peer
select_peers p [] = []
select_peers p ((id, peer) ∷ peers) =
    let rest = select_peers p peers in if p peer then peer ∷ rest else rest

unfoldable stale_peers : ℕ → PeerManager → List Peer
stale_peers now m = select_peers (is_stale m.dead_timeout now) m.peers

unfoldable peers_needing_keepalive : ℕ → PeerManager → List Peer
peers_needing_keepalive now m = select_peers (needs_keepalive m.keepalive_interval now) m.peers
