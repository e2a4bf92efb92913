-- ===== src/Mtu/Tests.antt =====
-- The usual network of 1500 bytes, under include/aegis/packet/mtu.hpp.
use aegis.Prelude.{some, ◌≡◌, refl}
use aegis.Header.{
  is_supported_session_padding_bucket, session_frame_overhead, session_max_padding_for_bucket,
}
use aegis.Mtu.{wire_overhead_for_route_depth, safe_overlay_mtu}

direct : safe_overlay_mtu 1500 1 64 ≡ some 1361
unfolding safe_overlay_mtu wire_overhead_for_route_depth is_supported_session_padding_bucket
    session_frame_overhead session_max_padding_for_bucket
direct = refl

relayed : safe_overlay_mtu 1500 3 64 ≡ some 1148
unfolding safe_overlay_mtu wire_overhead_for_route_depth is_supported_session_padding_bucket
    session_frame_overhead session_max_padding_for_bucket
relayed = refl
