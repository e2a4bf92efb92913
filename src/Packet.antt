-- ===== src/Packet.antt =====
-- src/packet/packet.cpp and include/aegis/packet/packet.hpp: the check of an inner IPv4 packet. The
-- sum of the checksum is that of a little-endian machine.
pub mod Checksum
mod Tests
use aegis.Prelude.{
  ℕ, zero, suc, ◌+◌, ◌-◌, ◌*◌, ◌/◌, ◌%◌, ◌^◌, Bool, true, false, ◌||◌, not, Option, none, some,
  List, [], ◌∷◌, length, take, drop, ltb, ◌==◌, ◌>>=◌, ◌>>◌, guard, if◌then◌else◌,
}
use aegis.Wire.{big_endian}

-- The sum of 16-bit words, and of the last byte where the length is odd. A `uint32_t` holds the sum
-- of the 60 bytes at most that `parse` asks for.
unfoldable pub sum_words : List ℕ → ℕ
sum_words [] = 0
sum_words (a ∷ []) = a
sum_words (a ∷ b ∷ bytes) = a + b * 2 ^ 8 + sum_words bytes

-- One turn of the loop that adds the carries.
abbrev pub fold_once : ℕ → ℕ
fold_once sum = sum % 2 ^ 16 + sum / 2 ^ 16

abbrev pub fold : ℕ → ℕ → ℕ
fold zero sum = sum
fold (suc fuel) sum =
    let folded = fold fuel (fold_once sum) in if sum / 2 ^ 16 == 0 then sum else folded

-- Two turns are enough for any `uint32_t`.
unfoldable pub ip_checksum : List ℕ → ℕ
unfolding sum_words
ip_checksum bytes = fold 2 (sum_words bytes) % 2 ^ 16

-- `payload` is what the pointer and the length show.
pub record IpPacket : Type 0 where
  pub version_ihl : ℕ
  pub dscp_ecn : ℕ
  pub total_length : ℕ
  pub identification : ℕ
  pub flags_fragment_offset : ℕ
  pub ttl : ℕ
  pub protocol : ℕ
  pub header_checksum : ℕ
  pub source_ip : ℕ
  pub dest_ip : ℕ
  pub payload : List ℕ

-- `size` bytes from an offset, most significant first.
abbrev pub field : ℕ → ℕ → List ℕ → ℕ
field offset size bytes = big_endian 0 (take size (drop offset bytes))

abbrev pub header_length : List ℕ → ℕ
header_length bytes = field 0 1 bytes % 16 * 4

unfoldable pub parse : List ℕ → Option IpPacket
parse bytes = do
  guard (not (ltb (length bytes) 20))
  guard (field 0 1 bytes / 2 ^ 4 == 4)
  guard (not (ltb (field 0 1 bytes % 16) 5))
  guard (not (ltb (length bytes) (header_length bytes)))
  guard (not (ltb (field 2 2 bytes) (header_length bytes) || ltb (length bytes) (field 2 2 bytes)))
  guard (ip_checksum (take (header_length bytes) bytes) == 0xffff)
  some (record {
    version_ihl = field 0 1 bytes;
    dscp_ecn = field 1 1 bytes;
    total_length = field 2 2 bytes;
    identification = field 4 2 bytes;
    flags_fragment_offset = field 6 2 bytes;
    ttl = field 8 1 bytes;
    protocol = field 9 1 bytes;
    header_checksum = field 10 2 bytes;
    source_ip = field 12 4 bytes;
    dest_ip = field 16 4 bytes;
    payload = take (field 2 2 bytes - header_length bytes) (drop (header_length bytes) bytes);
  })

pub data InnerPacketStatus : Type 0 where
  valid invalid oversize : InnerPacketStatus

abbrev pub whole : ℕ → Option IpPacket → InnerPacketStatus
whole len none = invalid
whole len (some packet) = if packet.total_length == len then valid else invalid

-- `none` is the null pointer, with a length all the same.
unfoldable pub validate_inner_ipv4_packet : Option (List ℕ) → ℕ → ℕ → InnerPacketStatus
validate_inner_ipv4_packet none len mtu = if ltb mtu len then oversize else invalid
validate_inner_ipv4_packet (some buffer) len mtu =
    if ltb mtu len then oversize else whole len (parse (take len buffer))
