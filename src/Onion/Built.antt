-- ===== src/Onion/Built.antt =====
-- When the code of src/packet/relay.cpp does build an onion.
use aegis.Prelude.{
  ℕ, suc, ◌≤◌, some, List, [], ◌∷◌, ◌++◌, length, arith, ◌≡◌, refl, ap, All, is_some, true, codes,
}
use aegis.Session.Message.{Aead}
use aegis.Session.Message.RoundTrip.{IsAead}
use aegis.Onion.{
  KeyAgreement, next_counter, layer_key, make_nonce, seal_layer, wrap_layer, hop_after, wrap_layers,
  build_onion, onion_max_hops,
}
use aegis.Onion.RoundTrip.{layer_plaintext_lem, layer_blob_lem, length-make_nonce}
use aegis.Onion.Path.{hop_after-size}

-- No call of OpenSSL fails.
pub record IsTotal (aead : Aead) (keys : KeyAgreement) : Type 0 where
  pub derives : (a b : ℕ) → (shared : List ℕ) × (keys.derive a b ≡ some shared)
  pub hashes : (text : List ℕ) → (digest : ℕ) × (keys.sha256 text ≡ some digest)
  pub encrypts :
      (key : ℕ) (nonce text : List ℕ)
      → (cipher tag : List ℕ) × (aead.encrypt key nonce text [] ≡ some (cipher, tag))

layer_key-some :
    (aead : Aead) (keys : KeyAgreement) (priv pub_key : ℕ)
    → IsTotal aead keys
    → (key : ℕ) × (layer_key keys priv pub_key ≡ some key)
unfolding layer_key
layer_key-some aead keys priv pub_key t =
    let (shared, e) = t.derives priv pub_key in
    let (digest, k) = t.hashes (codes "aegis-onion-v1" ++ shared) in (digest, rw e k)

seal_layer-some :
    (aead : Aead) (keys : KeyAgreement) (key : ℕ) (nonce text : List ℕ)
    → IsTotal aead keys
    → IsAead aead
    → length nonce ≡ 12
    → (blob : List ℕ) × (seal_layer aead key nonce text ≡ some blob)
unfolding seal_layer
seal_layer-some aead keys key nonce text t v h =
    let (cipher, tag, e) = t.encrypts key nonce text in
    (
      nonce ++ (cipher ++ tag),
      rw e (layer_blob_lem nonce cipher tag h (v.sizes key nonce text [] cipher tag e).1),
    )

wrap_layer-some :
    (aead : Aead) (keys : KeyAgreement) (priv pub_key layer counter : ℕ) (next_hop inner : List ℕ)
    → IsTotal aead keys
    → IsAead aead
    → length next_hop ≡ 32
    → (blob : List ℕ) × (after : ℕ) × (wrap_layer aead keys priv pub_key layer next_hop counter
          inner
        ≡ some (blob, after))
unfolding wrap_layer
wrap_layer-some aead keys priv pub_key layer counter next_hop inner t v h =
    let (key, e) = layer_key-some aead keys priv pub_key t in
    let (blob, k) =
      seal_layer-some aead keys key (make_nonce counter layer) (next_hop ++ inner) t v
        (length-make_nonce counter layer) in
    (blob, next_counter counter, rw (layer_plaintext_lem next_hop inner h, e, k) refl)

wrap_layers-some :
    (aead : Aead) (keys : KeyAgreement) (priv layer counter : ℕ) (path : List (List ℕ))
    (pubs packet : List ℕ)
    → IsTotal aead keys
    → IsAead aead
    → All (λ hop. length hop ≡ 32) path
    → (blob : List ℕ) × (after : ℕ) × (wrap_layers aead keys priv layer path pubs counter packet
        ≡ some (blob, after))
unfolding wrap_layers
wrap_layers-some aead keys priv layer counter [] pubs packet t v h = (packet, counter, refl)
wrap_layers-some aead keys priv layer counter (hop ∷ path) [] packet t v h = (packet, counter, refl)
wrap_layers-some aead keys priv layer counter (hop ∷ path) (hop_pub ∷ pubs) packet t v h =
    let (inner, between, e) =
      wrap_layers-some aead keys priv (suc layer) counter path pubs packet t v h.1 in
    let (blob, after, k) =
      wrap_layer-some aead keys priv hop_pub layer between (hop_after path) inner t v
        (hop_after-size path h.1) in
    (blob, after, rw e k)

pub build_onion-result :
    (aead : Aead) (keys : KeyAgreement) (priv counter : ℕ) (path : List (List ℕ))
    (pubs packet : List ℕ)
    → IsTotal aead keys
    → IsAead aead
    → All (λ hop. length hop ≡ 32) path
    → 1 ≤ length path
    → length path ≤ onion_max_hops
    → length path ≡ length pubs
    → 1 ≤ length packet
    → (blob : List ℕ) × (after : ℕ) × (build_onion aead keys priv path pubs counter packet
        ≡ some (blob, after))
unfolding build_onion
build_onion-result aead keys priv counter path pubs packet t v h some_hops few same used =
    let (blob, after, e) = wrap_layers-some aead keys priv 0 counter path pubs packet t v h in
    (blob, after, ground (arith, e, some_hops, few, same, used))

-- When no call of OpenSSL fails, an onion is built for every packet that is not empty and every path
-- of 1 to 8 hops, each a 32-byte NodeId with a public key.
pub build_onion-some :
    (aead : Aead) (keys : KeyAgreement) (priv counter : ℕ) (path : List (List ℕ))
    (pubs packet : List ℕ)
    → IsTotal aead keys
    → IsAead aead
    → All (λ hop. length hop ≡ 32) path
    → 1 ≤ length path
    → length path ≤ onion_max_hops
    → length path ≡ length pubs
    → 1 ≤ length packet
    → is_some (build_onion aead keys priv path pubs counter packet) ≡ true
build_onion-some aead keys priv counter path pubs packet t v h some_hops few same used =
    ap is_some
      (build_onion-result aead keys priv counter path pubs packet t v h some_hops few same used).2
