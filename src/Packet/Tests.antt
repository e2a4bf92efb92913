-- ===== src/Packet/Tests.antt =====
-- A UDP header without data, as src/packet/packet.cpp reads it.
use aegis.Prelude.{ℕ, some, none, List, [], ◌∷◌, ◌++◌, arith, ◌≡◌, refl}
use aegis.Packet.{
  IpPacket, parse, valid, invalid, validate_inner_ipv4_packet, ip_checksum, sum_words,
}
use aegis.Packet.Checksum.{IsBytes, parse_corrupted}

abbrev behind : List ℕ
behind = 17 ∷ 102 ∷ 215 ∷ 10 ∷ 0 ∷ 0 ∷ 1 ∷ 10 ∷ 0 ∷ 0 ∷ 2 ∷ []

abbrev datagram : List ℕ
datagram = 69 ∷ 0 ∷ 0 ∷ 20 ∷ 0 ∷ 0 ∷ 0 ∷ 0 ∷ 64 ∷ behind

datagram-IsBytes : IsBytes datagram
datagram-IsBytes = ground arith

abbrev expected : IpPacket
expected = record {
  version_ihl = 69;
  dscp_ecn = 0;
  total_length = 20;
  identification = 0;
  flags_fragment_offset = 0;
  ttl = 64;
  protocol = 17;
  header_checksum = 26327;
  source_ip = 167772161;
  dest_ip = 167772162;
  payload = [];
}

parsed : parse datagram ≡ some expected
unfolding parse ip_checksum sum_words
parsed = refl

accepted : validate_inner_ipv4_packet (some datagram) 20 1361 ≡ valid
unfolding validate_inner_ipv4_packet parse ip_checksum sum_words
accepted = refl

-- A byte behind the packet is one too many.
trailing_byte : validate_inner_ipv4_packet (some (datagram ++ 0 ∷ [])) 21 1361 ≡ invalid
unfolding validate_inner_ipv4_packet parse ip_checksum sum_words
trailing_byte = refl

-- The time to live is 63 in place of 64.
parse_corrupted_example : parse (69 ∷ (0 ∷ 0 ∷ 20 ∷ 0 ∷ 0 ∷ 0 ∷ 0 ∷ []) ++ (63 ∷ behind)) ≡ none
parse_corrupted_example =
    parse_corrupted 69 63 64 (0 ∷ 0 ∷ 20 ∷ 0 ∷ 0 ∷ 0 ∷ 0 ∷ []) behind {p = expected}
      datagram-IsBytes (omega arith) (omega arith) (omega arith) parsed
