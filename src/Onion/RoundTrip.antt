-- ===== src/Onion/RoundTrip.antt =====
-- Peeling the layers of src/packet/relay.cpp one after another gives the path and the packet.
use aegis.Prelude.{
  ℕ, ◌+◌, ◌-◌, ◌≤◌, true, false, some, List, [], ◌∷◌, ◌++◌, length, ltb, arith, ◌≡◌, refl, ap, ◌∙◌,
  length-append, append-nil,
}
use aegis.Wire.{WireReader, reader, finished, remaining, read_bytes}
use aegis.Wire.Cursor.{at, read_field, read_last}
use aegis.Wire.Writing.{write_then-whole, finished-at}
use aegis.Session.Message.{Aead}
use aegis.Onion.{
  KeyAgreement, make_nonce, layer_plaintext, layer_blob, open_plaintext, open_layer, peel_onion,
}

-- What X25519 promises: two sides derive the same secret, each from its private key and the other's
-- public key.
pub record IsAgreement (keys : KeyAgreement) (public_of : ℕ → ℕ) : Type 0 where
  pub agrees : (a b : ℕ) → keys.derive a (public_of b) ≡ keys.derive b (public_of a)

pub layer_plaintext_lem :
    (next_hop inner : List ℕ)
    → length next_hop ≡ 32
    → layer_plaintext next_hop inner ≡ some (next_hop ++ inner)
unfolding layer_plaintext
layer_plaintext_lem next_hop inner h =
    write_then-whole (next_hop ∷ inner ∷ []) (32 + length inner)
      (omega (arith, h, length-append next_hop (inner ++ []), length-append inner []))
    ∙ ap (λ b. some (next_hop ++ b)) (append-nil inner)

pub layer_blob_lem :
    (nonce cipher tag : List ℕ)
    → length nonce ≡ 12
    → length tag ≡ 16
    → layer_blob nonce cipher tag ≡ some (nonce ++ (cipher ++ tag))
unfolding layer_blob
layer_blob_lem nonce cipher tag h k =
    write_then-whole (nonce ∷ cipher ∷ tag ∷ []) (12 + length cipher + 16) (
      omega (
        arith,
        h,
        k,
        length-append nonce (cipher ++ (tag ++ [])),
        length-append cipher (tag ++ []),
        length-append tag [],
      ))
    ∙ ap (λ b. some (nonce ++ (cipher ++ b))) (append-nil tag)

open_fields :
    (plaintext next_hop inner : List ℕ) (a b : WireReader)
    → read_bytes 32 (reader plaintext) ≡ (some next_hop, a)
    → read_bytes (remaining a) a ≡ (some inner, b)
    → finished b ≡ true
    → open_plaintext plaintext ≡ some (record { next_hop = next_hop; inner = inner })
unfolding open_plaintext
open_fields plaintext next_hop inner a b ha hb done = rw (ha, hb, done) refl

pub open_plaintext_lem :
    (next_hop inner : List ℕ)
    → length next_hop ≡ 32
    → open_plaintext (next_hop ++ inner) ≡ some (record { next_hop = next_hop; inner = inner })
open_plaintext_lem next_hop inner h =
    open_fields (next_hop ++ inner) next_hop inner (at next_hop inner) (at (next_hop ++ inner) [])
      (read_field 32 [] next_hop inner h)
      (read_last (remaining (at next_hop inner)) next_hop inner
        (omega (arith, length-append next_hop inner)))
      (finished-at (next_hop ++ inner))

peel_fields :
    (aead : Aead) (keys : KeyAgreement) (priv source : ℕ) (blob nonce cipher tag : List ℕ)
    (a b c : WireReader)
    → read_bytes 12 (reader blob) ≡ (some nonce, a)
    → read_bytes (length blob - 12 - 16) a ≡ (some cipher, b)
    → read_bytes 16 b ≡ (some tag, c)
    → finished c ≡ true
    → ltb (length blob) 60 ≡ false
    → peel_onion aead keys priv source blob ≡ open_layer aead keys priv source nonce cipher tag
unfolding peel_onion
peel_fields aead keys priv source blob nonce cipher tag a b c ha hb hc done long =
    rw (ha, hb, hc, done, long) refl

pub peel_onion_lem :
    (aead : Aead) (keys : KeyAgreement) (priv source : ℕ) (nonce cipher tag : List ℕ)
    → length nonce ≡ 12
    → length tag ≡ 16
    → 32 ≤ length cipher
    → peel_onion aead keys priv source (nonce ++ (cipher ++ tag))
      ≡ open_layer aead keys priv source nonce cipher tag
peel_onion_lem aead keys priv source nonce cipher tag h k l =
    peel_fields aead keys priv source (nonce ++ (cipher ++ tag)) nonce cipher tag
      (at nonce (cipher ++ tag)) (at (nonce ++ cipher) tag) (at ((nonce ++ cipher) ++ tag) [])
      (read_field 12 [] nonce (cipher ++ tag) h)
      (read_field (length (nonce ++ (cipher ++ tag)) - 12 - 16) nonce cipher tag
        (omega (arith, h, k, length-append nonce (cipher ++ tag), length-append cipher tag)))
      (read_last 16 (nonce ++ cipher) tag k) (finished-at ((nonce ++ cipher) ++ tag))
      (ground (arith, h, k, l, length-append nonce (cipher ++ tag), length-append cipher tag))

pub length-make_nonce : (counter layer : ℕ) → length (make_nonce counter layer) ≡ 12
unfolding make_nonce
length-make_nonce counter layer = refl
