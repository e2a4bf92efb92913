-- ===== src/Onion/Size.antt =====
-- How long an onion of src/packet/relay.cpp is.
use aegis.Prelude.{
  ℕ, suc, ◌+◌, ◌*◌, ◌≤◌, some, List, [], ◌∷◌, ◌++◌, length, arith, ◌≡◌, All, length-append,
}
use aegis.Session.Message.{Aead}
use aegis.Session.Message.RoundTrip.{IsAead}
use aegis.Onion.{
  KeyAgreement, make_nonce, wrap_layer, hop_after, wrap_layers, build_onion, onion_max_hops,
}
use aegis.Onion.RoundTrip.{length-make_nonce}
use aegis.Onion.Path.{
  wrap_layer-parts, seal_layer-parts, wrap_layers-rest, hop_after-size, build_onion-layers,
}

length-wrap_layer :
    (aead : Aead) (keys : KeyAgreement) (priv pub_key layer counter after : ℕ)
    (next_hop inner blob : List ℕ)
    → IsAead aead
    → length next_hop ≡ 32
    → wrap_layer aead keys priv pub_key layer next_hop counter inner ≡ some (blob, after)
    → length blob ≡ length inner + 60
length-wrap_layer aead keys priv pub_key layer counter after next_hop inner blob v h e =
    let (key, shared, sealed) =
      wrap_layer-parts aead keys priv pub_key layer counter after next_hop inner blob h e in
    let nonce = make_nonce counter layer in
    let size = length-make_nonce counter layer in
    let (cipher, tag, encrypted, parts) =
      seal_layer-parts aead key nonce (next_hop ++ inner) blob v size sealed in
    let sizes = v.sizes key nonce (next_hop ++ inner) [] cipher tag encrypted in
    rw⁻¹ parts (
      omega (
        arith,
        h,
        size,
        sizes.0,
        sizes.1,
        length-append nonce (cipher ++ tag),
        length-append cipher tag,
        length-append next_hop inner,
      ))

length-wrap_layers :
    (aead : Aead) (keys : KeyAgreement) (priv layer counter after : ℕ) (path : List (List ℕ))
    (pubs blob packet : List ℕ)
    → IsAead aead
    → All (λ hop. length hop ≡ 32) path
    → length path ≡ length pubs
    → wrap_layers aead keys priv layer path pubs counter packet ≡ some (blob, after)
    → length blob ≡ length packet + 60 * length path
unfolding wrap_layers
length-wrap_layers aead keys priv layer counter after [] [] blob packet v h k e = ground (arith, e)
length-wrap_layers aead keys priv layer counter after [] (x ∷ pubs) blob packet v h k e =
    ground (arith, k)
length-wrap_layers aead keys priv layer counter after (hop ∷ path) [] blob packet v h k e =
    ground (arith, k)
length-wrap_layers aead keys priv layer counter after (hop ∷ path) (hop_pub ∷ pubs) blob packet v h
      k e =
    let (inner, between, rest, wrapped) =
      wrap_layers-rest aead keys priv layer hop_pub counter after hop blob packet pubs path e in
    let size =
      length-wrap_layers aead keys priv (suc layer) counter between path pubs inner packet v h.1
        (omega (arith, k)) rest in
    let longer =
      length-wrap_layer aead keys priv hop_pub layer between after (hop_after path) inner blob v
        (hop_after-size path h.1) wrapped in
    omega (arith, size, longer)

-- An onion is 60 bytes longer than its packet for each hop of the path, of at most 8.
pub length-build_onion :
    (aead : Aead) (keys : KeyAgreement) (priv counter after : ℕ) (path : List (List ℕ))
    (pubs blob packet : List ℕ)
    → IsAead aead
    → All (λ hop. length hop ≡ 32) path
    → build_onion aead keys priv path pubs counter packet ≡ some (blob, after)
    → (length blob ≡ length packet + 60 * length path) × (length path ≤ onion_max_hops)
length-build_onion aead keys priv counter after path pubs blob packet v h e =
    let (layers, same, few) =
      build_onion-layers aead keys priv counter after path pubs blob packet e in
    (length-wrap_layers aead keys priv 0 counter after path pubs blob packet v h same layers, few)
