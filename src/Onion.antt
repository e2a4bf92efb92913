-- ===== src/Onion.antt =====
-- src/packet/relay.cpp and include/aegis/packet/relay.hpp: the layers around a packet, one for each
-- hop of a path. A NodeId is its 32 bytes here, a key is a number. What OpenSSL computes is the
-- parameters `Aead` and `KeyAgreement`.
pub mod RoundTrip
pub mod Path
pub mod Size
pub mod Built
mod Tests
use aegis.Prelude.{
  ℕ, zero, suc, ◌+◌, ◌-◌, ◌/◌, ◌%◌, ◌^◌, Bool, true, false, ◌&&◌, ◌||◌, not, Option, none, some,
  List, [], ◌∷◌, ◌++◌, length, replicate, leb, ltb, ◌==◌, ◌>>=◌, ◌>>◌, guard, if◌then◌else◌, codes,
}
use aegis.Wire.{
  reader, finished, remaining, read_bytes, writer, write_bytes, whole, byte_of, u32_bytes,
}
use aegis.Session.Message.{Aead}

-- `x25519_derive_shared_secret` of a private and a public key, and SHA-256.
pub record KeyAgreement : Type 0 where
  pub derive : ℕ → ℕ → Option (List ℕ)
  pub sha256 : List ℕ → Option ℕ

abbrev onion_next_hop_size : ℕ
onion_next_hop_size = 32

abbrev onion_nonce_size : ℕ
onion_nonce_size = 12

abbrev onion_tag_size : ℕ
onion_tag_size = 16

abbrev onion_overhead : ℕ
onion_overhead = onion_nonce_size + onion_tag_size + onion_next_hop_size

abbrev pub onion_max_hops : ℕ
onion_max_hops = 8

abbrev pub no_node : List ℕ
no_node = replicate onion_next_hop_size 0

unfoldable layer_key : KeyAgreement → ℕ → ℕ → Option ℕ
layer_key keys my_priv hop_pub = do
  shared ← keys.derive my_priv hop_pub
  keys.sha256 (codes "aegis-onion-v1" ++ shared)

-- The counter, least significant byte first, and the number of the layer.
unfoldable make_nonce : ℕ → ℕ → List ℕ
make_nonce counter layer =
    byte_of counter
    ∷ byte_of (counter / 2 ^ 8)
    ∷ byte_of (counter / 2 ^ 16)
    ∷ byte_of (counter / 2 ^ 24)
    ∷ byte_of (counter / 2 ^ 32)
    ∷ byte_of (counter / 2 ^ 40)
    ∷ byte_of (counter / 2 ^ 48)
    ∷ byte_of (counter / 2 ^ 56)
    ∷ u32_bytes layer

-- `g_onion_counter.fetch_add(1)`.
abbrev pub next_counter : ℕ → ℕ
next_counter counter = suc counter % 2 ^ 64

unfoldable layer_plaintext : List ℕ → List ℕ → Option (List ℕ)
layer_plaintext next_hop inner = do
  w ← write_bytes next_hop (writer (replicate (onion_next_hop_size + length inner) 0))
  w ← write_bytes inner w
  whole w

unfoldable layer_blob : List ℕ → List ℕ → List ℕ → Option (List ℕ)
layer_blob nonce cipher tag = do
  w ← write_bytes nonce (writer (replicate (onion_nonce_size + length cipher + onion_tag_size) 0))
  w ← write_bytes cipher w
  w ← write_bytes tag w
  whole w

-- What is done with a nonce of a layer.
unfoldable seal_layer : Aead → ℕ → List ℕ → List ℕ → Option (List ℕ)
seal_layer aead key nonce plaintext = do
  (cipher, tag) ← aead.encrypt key nonce plaintext []
  layer_blob nonce cipher tag

-- One turn of the loop, with the counter before and after it.
unfoldable wrap_layer : Aead → KeyAgreement → ℕ → ℕ → ℕ → List ℕ → ℕ → List ℕ → Option (List ℕ × ℕ)
wrap_layer aead keys my_priv hop_pub layer next_hop counter inner = do
  plaintext ← layer_plaintext next_hop inner
  key ← layer_key keys my_priv hop_pub
  blob ← seal_layer aead key (make_nonce counter layer) plaintext
  some (blob, next_counter counter)

-- The hop behind a place of the path, or the empty NodeId behind the last.
abbrev pub hop_after : List (List ℕ) → List ℕ
hop_after [] = no_node
hop_after (hop ∷ path) = hop

-- The loop, from the last hop of the path to the first. The two lists are as long as each other.
unfoldable wrap_layers :
    Aead → KeyAgreement → ℕ → ℕ → List (List ℕ) → List ℕ → ℕ → List ℕ → Option (List ℕ × ℕ)
wrap_layers aead keys my_priv layer [] _ counter inner = some (inner, counter)
wrap_layers aead keys my_priv layer (hop ∷ path) [] counter inner = some (inner, counter)
wrap_layers aead keys my_priv layer (hop ∷ path) (hop_pub ∷ pubs) counter inner = do
  (blob, counter) ← wrap_layers aead keys my_priv (suc layer) path pubs counter inner
  wrap_layer aead keys my_priv hop_pub layer (hop_after path) counter blob

-- The packet pointer is that of a buffer, so it is not null. An onion that is not built is `none`,
-- whatever the counter is then.
pub build_onion :
    Aead → KeyAgreement → ℕ → List (List ℕ) → List ℕ → ℕ → List ℕ → Option (List ℕ × ℕ)
build_onion aead keys my_priv path path_pubkeys counter packet =
    if length path == 0
      || not (length path == length path_pubkeys)
      || ltb onion_max_hops (length path)
    then none
    else if length packet == 0
    then none
    else wrap_layers aead keys my_priv 0 path path_pubkeys counter packet

pub record PeeledOnion : Type 0 where
  pub next_hop : List ℕ
  pub inner : List ℕ

-- The text of a layer is the next hop and what is inside.
unfoldable open_plaintext : List ℕ → Option PeeledOnion
open_plaintext plaintext =
    let (next_hop, r) = read_bytes onion_next_hop_size (reader plaintext) in
    let (inner, r) = read_bytes (remaining r) r in
    do
      next_hop ← next_hop
      inner ← inner
      guard (finished r)
      some (record { next_hop = next_hop; inner = inner })

unfoldable open_layer : Aead → KeyAgreement → ℕ → ℕ → List ℕ → List ℕ → List ℕ → Option PeeledOnion
open_layer aead keys my_priv source_public_key nonce cipher tag = do
  key ← layer_key keys my_priv source_public_key
  plaintext ← aead.decrypt key nonce cipher tag []
  open_plaintext plaintext

unfoldable peel_onion : Aead → KeyAgreement → ℕ → ℕ → List ℕ → Option PeeledOnion
peel_onion aead keys my_priv source_public_key blob =
    let ct_len = length blob - onion_nonce_size - onion_tag_size in
    let (nonce, r) = read_bytes onion_nonce_size (reader blob) in
    let (cipher, r) = read_bytes ct_len r in
    let (tag, r) = read_bytes onion_tag_size r in
    if ltb (length blob) onion_overhead then none else do
      nonce ← nonce
      cipher ← cipher
      tag ← tag
      guard (finished r)
      open_layer aead keys my_priv source_public_key nonce cipher tag
