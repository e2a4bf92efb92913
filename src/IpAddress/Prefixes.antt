-- ===== src/IpAddress/Prefixes.antt =====
-- What a prefix of include/aegis/net/ip_address.hpp contains.
use aegis.Prelude.{
  ℕ, zero, suc, ◌-◌, ◌*◌, ◌/◌, ◌%◌, ◌^◌, ◌≤◌, true, List, [], ◌∷◌, length, replicate, list_eq,
  arith, ◌≡◌, refl, ap, length-replicate,
}
use native.Mathlib.Nat.{mul-div_cancel}
use aegis.IpAddress.{
  IpAddress, valid, same_address, masked, clear_from, canonicalize, make_prefix, same_start,
  prefix_contains,
}

power_positive : (n : ℕ) → 1 ≤ 2 ^ n
power_positive zero = omega arith
power_positive (suc n) = omega (arith, power_positive n)

masked-masked : (bits byte : ℕ) → masked bits (masked bits byte) ≡ masked bits byte
unfolding masked
masked-masked bits byte =
    ap (λ q. q * 2 ^ (8 - bits))
      (mul-div_cancel (byte / 2 ^ (8 - bits)) (power_positive (8 - bits)))

list_eq_refl : (xs : List ℕ) → list_eq xs xs ≡ true
list_eq_refl [] = refl
list_eq_refl (x ∷ xs) = ground (arith, list_eq_refl xs)

pub clear_from-clear_from :
    (full remaining : ℕ) (bytes : List ℕ)
    → clear_from full remaining (clear_from full remaining bytes) ≡ clear_from full remaining bytes
unfolding clear_from
clear_from-clear_from full remaining [] = refl
clear_from-clear_from zero remaining (b ∷ bytes) =
    ground (arith, masked-masked remaining b, length-replicate {A = ℕ} (length bytes) 0)
clear_from-clear_from (suc full) remaining (b ∷ bytes) =
    ap (◌∷◌ b) (clear_from-clear_from full remaining bytes)

same_start-list_eq :
    (full remaining : ℕ) (xs ys : List ℕ)
    → length xs ≡ length ys
    → same_start full remaining (clear_from full remaining xs) ys
      ≡ list_eq (clear_from full remaining xs) (clear_from full remaining ys)
unfolding same_start clear_from
same_start-list_eq zero remaining [] [] h = refl
same_start-list_eq (suc full) remaining [] [] h = refl
same_start-list_eq full remaining [] (b ∷ ys) h = ground arith
same_start-list_eq full remaining (a ∷ xs) [] h = ground arith
same_start-list_eq zero remaining (a ∷ xs) (b ∷ ys) h = ground (
  arith,
  masked-masked remaining a,
  list_eq_refl (replicate (length ys) 0),
  ap (λ n. replicate {A = ℕ} n 0) {x = length xs} {y = length ys} (omega (arith, h)),
)
same_start-list_eq (suc full) remaining (a ∷ xs) (b ∷ ys) h =
    ground (arith, same_start-list_eq full remaining xs ys (omega (arith, h)))

-- A prefix contains an address of its family exactly when both have the same canonical prefix: what
-- the bytewise comparison of `contains` answers is equality of the addresses with their host bits
-- cleared.
pub prefix_contains-make_prefix :
    (network candidate : IpAddress) (bits : ℕ)
    → length network.bytes ≡ length candidate.bytes
    → candidate.family ≡ network.family
    → valid (record { address = network; prefix_bits = bits }) ≡ true
    → prefix_contains candidate (make_prefix network bits)
      ≡ same_address (make_prefix network bits).address (make_prefix candidate bits).address
unfolding prefix_contains make_prefix canonicalize same_address
prefix_contains-make_prefix network candidate bits h k v =
    ground (arith, k, v, same_start-list_eq (bits / 8) (bits % 8) network.bytes candidate.bytes h)

-- Clearing the host bits again changes nothing, and keeps the family.
pub make_prefix-address :
    (network : IpAddress) (bits : ℕ)
    → ((make_prefix (make_prefix network bits).address bits).address
        ≡ (make_prefix network bits).address)
      × ((make_prefix network bits).address.family ≡ network.family)
unfolding make_prefix canonicalize
make_prefix-address network bits =
    ground (arith, clear_from-clear_from (bits / 8) (bits % 8) network.bytes)

pub list_eq_sound : (xs ys : List ℕ) → list_eq xs ys ≡ true → xs ≡ ys
list_eq_sound [] [] h = refl
list_eq_sound [] (y ∷ ys) h = ground arith
list_eq_sound (x ∷ xs) [] h = ground arith
list_eq_sound (x ∷ xs) (y ∷ ys) h = ground (arith, list_eq_sound xs ys)

pub same_address_sound : (a b : IpAddress) → same_address a b ≡ true → a ≡ b
unfolding same_address
same_address_sound a b h = ground (arith, list_eq_sound a.bytes b.bytes)
