-- ===== src/IpAddress.antt =====
-- include/aegis/net/ip_address.hpp: addresses of both families and prefixes of them. The 16 bytes of
-- an address are a list; the text forms are not modelled.
pub mod Prefixes
use aegis.Prelude.{
  ℕ, zero, suc, ◌+◌, ◌-◌, ◌*◌, ◌/◌, ◌%◌, ◌^◌, Bool, true, false, ◌&&◌, ◌||◌, not, List, [], ◌∷◌,
  ◌++◌, length, replicate, take, leb, ltb, ◌==◌, if◌then◌else◌, list_eq,
}
use aegis.Wire.{u32_bytes, big_endian}

-- The family is the number of the enumeration, 4 or 6; a cast can make others.
pub record IpAddress : Type 0 where
  pub family : ℕ
  pub bytes : List ℕ

abbrev pub no_address : IpAddress
no_address = record { family = 4; bytes = replicate 16 0 }

abbrev pub from_ipv4 : ℕ → IpAddress
from_ipv4 network_order = record { family = 4; bytes = u32_bytes network_order ++ replicate 12 0 }

abbrev pub from_ipv6 : List ℕ → IpAddress
from_ipv6 value = record { family = 6; bytes = value }

abbrev pub valid_family : IpAddress → Bool
valid_family address = address.family == 4 || address.family == 6

abbrev pub bit_width : IpAddress → ℕ
bit_width address = if address.family == 4 then 32 else if address.family == 6 then 128 else 0

unfoldable pub ipv4_value : IpAddress → ℕ
ipv4_value address = if not (address.family == 4) then 0 else big_endian 0 (take 4 address.bytes)

-- `operator==`.
unfoldable pub same_address : IpAddress → IpAddress → Bool
same_address a b = a.family == b.family && list_eq a.bytes b.bytes

pub record IpPrefix : Type 0 where
  pub address : IpAddress
  pub prefix_bits : ℕ

abbrev pub valid : IpPrefix → Bool
valid p = valid_family p.address && leb p.prefix_bits (bit_width p.address)

-- `byte & (0xff << (8 - bits))`, of a byte and of 1 to 7 bits: the bits behind those are cleared.
unfoldable pub masked : ℕ → ℕ → ℕ
masked bits byte = byte / 2 ^ (8 - bits) * 2 ^ (8 - bits)

-- The bytes from a place on are cleared, but for some bits of the first of them.
unfoldable pub clear_from : ℕ → ℕ → List ℕ → List ℕ
clear_from full_bytes remaining_bits [] = []
clear_from zero remaining_bits (byte ∷ bytes) =
    (if remaining_bits == 0 then 0 else masked remaining_bits byte) ∷ replicate (length bytes) 0
clear_from (suc full_bytes) remaining_bits (byte ∷ bytes) =
    byte ∷ clear_from full_bytes remaining_bits bytes

unfoldable pub canonicalize : IpPrefix → IpPrefix
canonicalize p = if ltb (bit_width p.address) p.prefix_bits then p else record {
  address = record {
    family = p.address.family;
    bytes = clear_from (p.prefix_bits / 8) (p.prefix_bits % 8) p.address.bytes;
  };
  prefix_bits = p.prefix_bits;
}

-- The constructor.
unfoldable pub make_prefix : IpAddress → ℕ → IpPrefix
make_prefix network prefix_length =
    canonicalize (record { address = network; prefix_bits = prefix_length })

unfoldable pub same_start : ℕ → ℕ → List ℕ → List ℕ → Bool
same_start zero remaining_bits (a ∷ xs) (b ∷ ys) =
    if remaining_bits == 0 then true else masked remaining_bits a == masked remaining_bits b
same_start (suc full_bytes) remaining_bits (a ∷ xs) (b ∷ ys) =
    a == b && same_start full_bytes remaining_bits xs ys
same_start _ remaining_bits _ _ = true

unfoldable pub prefix_contains : IpAddress → IpPrefix → Bool
prefix_contains candidate p =
    if not (valid p) || not (candidate.family == p.address.family)
    then false
    else same_start (p.prefix_bits / 8) (p.prefix_bits % 8) p.address.bytes candidate.bytes
