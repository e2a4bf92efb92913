-- ===== src/Onion/Tests.antt =====
-- A packet through two hops with src/packet/relay.cpp. The cipher of the test leaves the text as it
-- is, and its secrets are sums of keys.
use aegis.Prelude.{
  ℕ, ◌+◌, ◌*◌, ◌≤◌, some, List, [], ◌∷◌, ◌++◌, length, replicate, arith, ◌≡◌, refl, ap, is_some,
  true,
}
use native.Mathlib.Nat.{add_comm}
use aegis.Prelude.{Option, length-replicate}
use aegis.Prelude.Maps.{find, insert}
use aegis.Replay.{fresh}
use aegis.Header.{
  is_supported_session_padding_bucket, session_frame_overhead, session_max_padding_for_bucket,
}
use aegis.Session.{
  SessionCapacityLimits, SessionManager, SessionState, construct, create_session, supersede,
  find_session_locked,
}
use aegis.Session.Message.{Aead, encrypt_message}
use aegis.Session.Message.Size.{IsReady}
use aegis.Mtu.{safe_overlay_mtu, wire_overhead_for_route_depth, outer_ipv4_udp_overhead}
use aegis.Mtu.Bounds.{Carries, relayed_route, safe_overlay_mtu-fits}
use aegis.Session.Message.RoundTrip.{IsAead}
use aegis.Onion.{
  KeyAgreement, build_onion, onion_max_hops, no_node, wrap_layers, wrap_layer, layer_plaintext,
  layer_key, seal_layer, layer_blob, make_nonce,
}
use aegis.Wire.{write_bytes}
use aegis.Onion.RoundTrip.{IsAgreement}
use aegis.Onion.Path.{peel_all, peel_all-build_onion}
use aegis.Onion.Built.{IsTotal, build_onion-some}

abbrev plain : Aead
plain = record {
  encrypt = λ key nonce text about. some (text, replicate 16 0);
  decrypt = λ key nonce cipher tag about. some cipher;
}

abbrev sums : KeyAgreement
sums = record { derive = λ a b. some ((a + b) ∷ []); sha256 = λ text. some (length text) }

abbrev same_key : ℕ → ℕ
same_key priv = priv

plain-IsAead : IsAead plain
plain-IsAead = record {
  opens = λ key nonce text about cipher tag h. ground (arith, h);
  sizes = λ key nonce text about cipher tag h. ground (arith, h);
}

sums-IsAgreement : IsAgreement sums same_key
sums-IsAgreement = record { agrees = λ a b. ap (λ n. some (n ∷ [])) (add_comm a b) }

sums-IsTotal : IsTotal plain sums
sums-IsTotal = record {
  derives = λ a b. (_, refl);
  hashes = λ text. (_, refl);
  encrypts = λ key nonce text. (_, _, refl);
}

abbrev path : List (List ℕ)
path = replicate 32 3 ∷ replicate 32 4 ∷ []

build_onion-some_example :
    is_some (build_onion plain sums 9 path (3 ∷ 4 ∷ []) 0 (69 ∷ 0 ∷ [])) ≡ true
build_onion-some_example =
    build_onion-some plain sums 9 0 path (3 ∷ 4 ∷ []) (69 ∷ 0 ∷ []) sums-IsTotal plain-IsAead
      (refl, (refl, tt)) (omega arith) (omega arith) refl (omega arith)

abbrev onion : List ℕ
onion =
    make_nonce 1 0
    ++ (replicate 32 4
        ++ (make_nonce 0 1 ++ (no_node ++ (69 ∷ 0 ∷ replicate 16 0)))
        ++ replicate 16 0)

onion_built : build_onion plain sums 9 path (3 ∷ 4 ∷ []) 0 (69 ∷ 0 ∷ []) ≡ some (onion, 2)
unfolding build_onion wrap_layers wrap_layer layer_plaintext layer_key seal_layer layer_blob
    make_nonce write_bytes
onion_built = refl

peel_all-build_onion_example :
    (peel_all plain sums 9 (3 ∷ 4 ∷ []) onion ≡ some (replicate 32 4 ∷ no_node ∷ [], 69 ∷ 0 ∷ []))
    × (2 ≤ onion_max_hops)
    × (length onion ≡ 2 + 60 * 2)
peel_all-build_onion_example =
    peel_all-build_onion plain sums same_key 9 0 2 path (3 ∷ 4 ∷ []) onion (69 ∷ 0 ∷ [])
      plain-IsAead sums-IsAgreement (refl, (refl, tt)) refl onion_built

-- The same packet on its way to the first hop, over a network of 1500 bytes.
abbrev caps : SessionCapacityLimits
caps = record { active = 2; retired = 1; pending = 2 }

abbrev manager : SessionManager ℕ
manager = create_session 3 77 (11, 22) true 1000 (construct caps)

abbrev session : SessionState
session = record {
  id = 77;
  send_key = 11;
  recv_key = 22;
  send_seq = 0;
  replay = fresh;
  peer_id = 3;
  established = true;
  initiated_locally = true;
  established_at = 1000;
}

session_held : find_session_locked 3 manager ≡ some session
unfolding find_session_locked create_session supersede construct find insert
session_held = refl

abbrev random : ℕ → Option (List ℕ)
random k = some (replicate k 5)

random-IsReady : IsReady plain random
random-IsReady = record {
  sizes = plain-IsAead;
  encrypts = λ key nonce text about. refl;
  draws = λ k. refl;
  fills = λ k bytes h. ground (arith, h, length-replicate {A = ℕ} k 5);
}

-- The source, the kind and the onion.
abbrev relayed : List ℕ
relayed = replicate 32 9 ++ (1 ∷ onion)

relayed-Carries : Carries plain sums 2 2 (length relayed)
unfolding make_nonce
relayed-Carries =
    relayed_route 9 0 2 path (3 ∷ 4 ∷ []) (69 ∷ 0 ∷ []) onion (omega arith) refl (refl, (refl, tt))
      refl onion_built refl

two_hops : safe_overlay_mtu 1500 2 64 ≡ some 1208
unfolding safe_overlay_mtu wire_overhead_for_route_depth is_supported_session_padding_bucket
    session_frame_overhead session_max_padding_for_bucket
two_hops = refl

safe_overlay_mtu-fits_example :
    (frame : List ℕ) × ((encrypt_message plain random 64 3 3
        (some relayed)
        (length relayed)
        1
        manager).0
      ≡ some frame)
    × (outer_ipv4_udp_overhead + length frame ≤ 1500)
unfolding make_nonce
safe_overlay_mtu-fits_example =
    safe_overlay_mtu-fits plain sums random 1500 2 64 3 3 (some relayed) 2 (length relayed) 1
      manager random-IsReady two_hops (omega arith) relayed-Carries (omega arith) refl (omega arith)
      session_held
