-- ===== src/Onion/Path.antt =====
-- Building an onion with src/packet/relay.cpp and peeling it at every hop of its path.
use aegis.Prelude.{
  ℕ, suc, ◌+◌, ◌*◌, ◌≤◌, Option, some, List, [], ◌∷◌, ◌++◌, length, ◌>>=◌, arith, ◌≡◌, refl, sym,
  ◌∙◌, All, length-append, Option-cases, inl, inr,
}
use aegis.Session.Message.{Aead}
use aegis.Session.Message.RoundTrip.{IsAead}
use aegis.Onion.{
  KeyAgreement, layer_key, make_nonce, seal_layer, wrap_layer, hop_after, wrap_layers, build_onion,
  open_layer, peel_onion, onion_max_hops,
}
use aegis.Onion.RoundTrip.{
  IsAgreement, layer_plaintext_lem, layer_blob_lem, open_plaintext_lem, peel_onion_lem,
  length-make_nonce,
}

-- The sender and a hop derive the same key of a layer.
layer_key-agrees :
    (keys : KeyAgreement) (public_of : ℕ → ℕ) (a b : ℕ)
    → IsAgreement keys public_of
    → layer_key keys a (public_of b) ≡ layer_key keys b (public_of a)
unfolding layer_key
layer_key-agrees keys public_of a b v = rw (v.agrees a b) refl

-- A sealed layer, taken apart.
pub seal_layer-parts :
    (aead : Aead) (key : ℕ) (nonce plaintext blob : List ℕ)
    → IsAead aead
    → length nonce ≡ 12
    → seal_layer aead key nonce plaintext ≡ some blob
    → (cipher tag : List ℕ) × (aead.encrypt key nonce plaintext [] ≡ some (cipher, tag))
      × (nonce ++ (cipher ++ tag) ≡ blob)
unfolding seal_layer
seal_layer-parts aead key nonce plaintext blob v h e =
    elim (Option-cases (aead.encrypt key nonce plaintext [])) [
      | inl n ↦ ground (arith, n, e)
      | inr ((cipher, tag), n) ↦
          let sizes = v.sizes key nonce plaintext [] cipher tag n in
          (cipher, tag, n, ground (arith, n, e, layer_blob_lem nonce cipher tag h sizes.1))
    ]

-- A layer, taken apart.
pub wrap_layer-parts :
    (aead : Aead) (keys : KeyAgreement) (priv pub_key layer counter after : ℕ)
    (next_hop inner blob : List ℕ)
    → length next_hop ≡ 32
    → wrap_layer aead keys priv pub_key layer next_hop counter inner ≡ some (blob, after)
    → (key : ℕ) × (layer_key keys priv pub_key ≡ some key)
      × (seal_layer aead key (make_nonce counter layer) (next_hop ++ inner) ≡ some blob)
unfolding wrap_layer
wrap_layer-parts aead keys priv pub_key layer counter after next_hop inner blob h e =
    elim (Option-cases (layer_key keys priv pub_key)) [
      | inl n ↦ ground (arith, n, e, layer_plaintext_lem next_hop inner h)
      | inr (key, n) ↦
          elim (Option-cases (seal_layer aead key (make_nonce counter layer) (next_hop ++ inner))) [
            | inl m ↦ ground (arith, n, m, e, layer_plaintext_lem next_hop inner h)
            | inr (sealed, m) ↦
                (key, n, ground (arith, n, m, e, layer_plaintext_lem next_hop inner h))
          ]
    ]

open_layer_lem :
    (aead : Aead) (keys : KeyAgreement) (priv source key : ℕ)
    (nonce cipher tag next_hop inner : List ℕ)
    → length next_hop ≡ 32
    → layer_key keys priv source ≡ some key
    → aead.decrypt key nonce cipher tag [] ≡ some (next_hop ++ inner)
    → open_layer aead keys priv source nonce cipher tag
      ≡ some (record { next_hop = next_hop; inner = inner })
unfolding open_layer
open_layer_lem aead keys priv source key nonce cipher tag next_hop inner h k d =
    rw (k, d) (open_plaintext_lem next_hop inner h)

-- The hop that a layer was made for opens it, and the layer is 60 bytes longer than what is inside.
peel-wrap_layer :
    (aead : Aead) (keys : KeyAgreement) (public_of : ℕ → ℕ) (priv hop_priv layer counter after : ℕ)
    (next_hop inner blob : List ℕ)
    → IsAead aead
    → IsAgreement keys public_of
    → length next_hop ≡ 32
    → wrap_layer aead keys priv (public_of hop_priv) layer next_hop counter inner
      ≡ some (blob, after)
    → (peel_onion aead keys hop_priv (public_of priv) blob
        ≡ some (record { next_hop = next_hop; inner = inner }))
      × (length blob ≡ length inner + 60)
peel-wrap_layer aead keys public_of priv hop_priv layer counter after next_hop inner blob v u h e =
    let (key, shared, sealed) =
      wrap_layer-parts aead keys priv (public_of hop_priv) layer counter after next_hop inner blob h
        e in
    let nonce = make_nonce counter layer in
    let size = length-make_nonce counter layer in
    let (cipher, tag, encrypted, parts) =
      seal_layer-parts aead key nonce (next_hop ++ inner) blob v size sealed in
    let sizes = v.sizes key nonce (next_hop ++ inner) [] cipher tag encrypted in
    (
      rw⁻¹ parts (
          peel_onion_lem aead keys hop_priv (public_of priv) nonce cipher tag size sizes.1
            (omega (arith, h, sizes.0, length-append next_hop inner))
          ∙ open_layer_lem aead keys hop_priv (public_of priv) key nonce cipher tag next_hop inner h
              (sym (layer_key-agrees keys public_of priv hop_priv u) ∙ shared)
              (v.opens key nonce (next_hop ++ inner) [] cipher tag encrypted)),
      rw⁻¹ parts (
          omega (
            arith,
            h,
            size,
            sizes.0,
            sizes.1,
            length-append nonce (cipher ++ tag),
            length-append cipher tag,
            length-append next_hop inner,
          )),
    )

abbrev pub public_keys : (ℕ → ℕ) → List ℕ → List ℕ
public_keys public_of [] = []
public_keys public_of (priv ∷ privs) = public_of priv ∷ public_keys public_of privs

-- The hop that each hop of a path is told.
abbrev pub hops_told : List (List ℕ) → List (List ℕ)
hops_told [] = []
hops_told (hop ∷ path) = hop_after path ∷ hops_told path

-- An onion peeled by one hop after another, each with its private key: the hops that they were
-- told, and what is left.
unfoldable pub peel_all :
    Aead → KeyAgreement → ℕ → List ℕ → List ℕ → Option (List (List ℕ) × List ℕ)
unfolding peel_onion
peel_all aead keys source [] blob = some ([], blob)
peel_all aead keys source (priv ∷ privs) blob = do
  peeled ← peel_onion aead keys priv source blob
  (told, packet) ← peel_all aead keys source privs peeled.inner
  some (peeled.next_hop ∷ told, packet)

pub hop_after-size :
    (path : List (List ℕ)) → All (λ hop. length hop ≡ 32) path → length (hop_after path) ≡ 32
hop_after-size [] h = refl
hop_after-size (hop ∷ path) h = h.0

peel_all-step :
    (aead : Aead) (keys : KeyAgreement) (source priv : ℕ)
    (privs blob next_hop inner packet : List ℕ) (told : List (List ℕ))
    → peel_onion aead keys priv source blob ≡ some (record { next_hop = next_hop; inner = inner })
    → peel_all aead keys source privs inner ≡ some (told, packet)
    → peel_all aead keys source (priv ∷ privs) blob ≡ some (next_hop ∷ told, packet)
unfolding peel_all
peel_all-step aead keys source priv privs blob next_hop inner packet told h k = rw (h, k) refl

pub wrap_layers-rest :
    (aead : Aead) (keys : KeyAgreement) (priv layer hop_pub counter after : ℕ)
    (hop blob packet pubs : List ℕ) (path : List (List ℕ))
    → wrap_layers aead keys priv layer (hop ∷ path) (hop_pub ∷ pubs) counter packet
      ≡ some (blob, after)
    → (inner : List ℕ) × (between : ℕ) × (wrap_layers aead keys priv
          (suc layer)
          path
          pubs
          counter
          packet
        ≡ some (inner, between))
      × (wrap_layer aead keys priv hop_pub layer (hop_after path) between inner
          ≡ some (blob, after))
unfolding wrap_layers
wrap_layers-rest aead keys priv layer hop_pub counter after hop blob packet pubs path e =
    elim (Option-cases (wrap_layers aead keys priv (suc layer) path pubs counter packet)) [
      | inl n ↦ ground (arith, n, e)
      | inr ((inner, between), n) ↦ (inner, between, n, ground (arith, n, e))
    ]

peel_all-wrap_layers :
    (aead : Aead) (keys : KeyAgreement) (public_of : ℕ → ℕ) (priv layer counter after : ℕ)
    (path : List (List ℕ)) (privs blob packet : List ℕ)
    → IsAead aead
    → IsAgreement keys public_of
    → All (λ hop. length hop ≡ 32) path
    → length privs ≡ length path
    → wrap_layers aead keys priv layer path (public_keys public_of privs) counter packet
      ≡ some (blob, after)
    → (peel_all aead keys (public_of priv) privs blob ≡ some (hops_told path, packet))
      × (length blob ≡ length packet + 60 * length path)
unfolding wrap_layers peel_all
peel_all-wrap_layers aead keys public_of priv layer counter after [] [] blob packet v u h k e =
    ground (arith, e)
peel_all-wrap_layers aead keys public_of priv layer counter after [] (x ∷ privs) blob packet v u h k
      e =
    ground (arith, k)
peel_all-wrap_layers aead keys public_of priv layer counter after (hop ∷ path) [] blob packet v u h
      k e =
    ground (arith, k)
peel_all-wrap_layers aead keys public_of priv layer counter after (hop ∷ path) (hop_priv ∷ privs)
      blob packet v u h k e =
    let (inner, between, rest, wrapped) =
      wrap_layers-rest aead keys priv layer (public_of hop_priv) counter after hop blob packet
        (public_keys public_of privs) path e in
    let (told, size) =
      peel_all-wrap_layers aead keys public_of priv (suc layer) counter between path privs inner
        packet v u h.1 (omega (arith, k)) rest in
    let (peeled, longer) =
      peel-wrap_layer aead keys public_of priv hop_priv layer between after (hop_after path) inner
        blob v u (hop_after-size path h.1) wrapped in
    (
      peel_all-step aead keys (public_of priv) hop_priv privs blob (hop_after path) inner packet
          (hops_told path) peeled told,
      omega (arith, size, longer),
    )

pub build_onion-layers :
    (aead : Aead) (keys : KeyAgreement) (priv counter after : ℕ) (path : List (List ℕ))
    (pubs blob packet : List ℕ)
    → build_onion aead keys priv path pubs counter packet ≡ some (blob, after)
    → wrap_layers aead keys priv 0 path pubs counter packet ≡ some (blob, after)
      × (length path ≡ length pubs)
      × (length path ≤ onion_max_hops)
unfolding build_onion
build_onion-layers aead keys priv counter after path pubs blob packet e = ground (arith, e)

-- With an AEAD that decrypts what it encrypts and a key agreement: when an onion is built from the
-- public keys of the hops of a path of 32-byte NodeIds, then peeling it at one hop after another
-- tells each the next hop of the path, tells the last that it is the destination, and leaves the
-- packet there. There are at most 8 hops, and the onion is 60 bytes longer for each of them.
pub peel_all-build_onion :
    (aead : Aead) (keys : KeyAgreement) (public_of : ℕ → ℕ) (priv counter after : ℕ)
    (path : List (List ℕ)) (privs blob packet : List ℕ)
    → IsAead aead
    → IsAgreement keys public_of
    → All (λ hop. length hop ≡ 32) path
    → length privs ≡ length path
    → build_onion aead keys priv path (public_keys public_of privs) counter packet
      ≡ some (blob, after)
    → (peel_all aead keys (public_of priv) privs blob ≡ some (hops_told path, packet))
      × (length path ≤ onion_max_hops)
      × (length blob ≡ length packet + 60 * length path)
peel_all-build_onion aead keys public_of priv counter after path privs blob packet v u h k e =
    let (layers, _, few) =
      build_onion-layers aead keys priv counter after path (public_keys public_of privs) blob packet
        e in
    let (told, size) =
      peel_all-wrap_layers aead keys public_of priv 0 counter after path privs blob packet v u h k
        layers in
    (told, few, size)
