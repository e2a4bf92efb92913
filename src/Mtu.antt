-- ===== src/Mtu.antt =====
-- include/aegis/packet/mtu.hpp: how much room the physical network leaves for an inner packet.
pub mod Bounds
mod Tests
use aegis.Prelude.{
  ℕ, ◌+◌, ◌-◌, ◌*◌, ◌^◌, Bool, true, false, ◌||◌, not, Option, none, some, ltb, ◌>>=◌,
  if◌then◌else◌, add_size,
}
use aegis.Header.{is_supported_session_padding_bucket, session_frame_overhead}

abbrev pub direct_route_depth : ℕ
direct_route_depth = 1

abbrev pub minimum_ipv4_mtu : ℕ
minimum_ipv4_mtu = 576

abbrev pub maximum_ipv4_mtu : ℕ
maximum_ipv4_mtu = 65535

abbrev pub outer_ipv4_udp_overhead : ℕ
outer_ipv4_udp_overhead = 20 + 8

-- A NodeID and the kind of the content.
abbrev pub relay_source_overhead : ℕ
relay_source_overhead = 32 + 1

abbrev pub onion_max_hops : ℕ
onion_max_hops = 8

abbrev pub onion_overhead : ℕ
onion_overhead = 12 + 16 + 32

-- The sums are far below `size_t`.
unfoldable pub wire_overhead_for_route_depth : ℕ → ℕ → Option ℕ
wire_overhead_for_route_depth route_depth padding_bucket_size =
    if ltb route_depth direct_route_depth
      || ltb onion_max_hops route_depth
      || not (is_supported_session_padding_bucket padding_bucket_size)
    then none
    else some (
        outer_ipv4_udp_overhead
        + session_frame_overhead padding_bucket_size
        + (if ltb direct_route_depth route_depth
            then relay_source_overhead + route_depth * onion_overhead
            else 0))

unfoldable pub safe_overlay_mtu : ℕ → ℕ → ℕ → Option ℕ
safe_overlay_mtu underlay_mtu route_depth padding_bucket_size =
    if ltb maximum_ipv4_mtu underlay_mtu
    then none
    else (wire_overhead_for_route_depth route_depth padding_bucket_size >>= λ overhead.
        if ltb underlay_mtu (overhead + minimum_ipv4_mtu)
        then none
        else some (underlay_mtu - overhead))
