-- ===== src/Mtu/Bounds.antt =====
-- What include/aegis/packet/mtu.hpp promises of the sizes of frames on the physical network.
use aegis.Prelude.{
  ℕ, ◌+◌, ◌*◌, ◌≤◌, true, false, some, Option, List, ltb, if◌then◌else◌, arith, ◌≡◌, Bool-cases,
  inl, inr, length, All, null_with_bytes, Readable,
}
use aegis.Header.{
  is_supported_session_padding_bucket, session_padded_plaintext_size,
  session_max_logical_payload_size,
}
use aegis.Header.Padding.{frame-le-overhead}
use aegis.Session.{SessionManager, SessionState, find_session_locked}
use aegis.Session.Message.{Aead, encrypt_message}
use aegis.Session.Message.RoundTrip.{IsAead}
use aegis.Session.Message.Size.{IsReady, encrypt_message-frame}
use aegis.Onion.{KeyAgreement, build_onion}
use aegis.Onion.Size.{length-build_onion}
use aegis.Mtu.{
  wire_overhead_for_route_depth, safe_overlay_mtu, relay_source_overhead, onion_overhead,
  outer_ipv4_udp_overhead,
}

-- What a session is given to carry an inner packet of a size along a route of a depth: the packet
-- itself on a direct route; on a longer one the source, the kind and an onion of the packet, with a
-- layer for each peer of the path.
pub data Carries (aead : Aead) (keys : KeyAgreement) (depth size len : ℕ) : Type 0 where
  direct_route : depth ≡ 1 → len ≡ size → Carries aead keys depth size len
  relayed_route :
      (priv counter after : ℕ) (path : List (List ℕ)) (pubs packet onion : List ℕ)
      → 2 ≤ depth
      → length path ≡ depth
      → All (λ hop. length hop ≡ 32) path
      → length packet ≡ size
      → build_onion aead keys priv path pubs counter packet ≡ some (onion, after)
      → len ≡ relay_source_overhead + length onion
      → Carries aead keys depth size len

abbrev session_payload : ℕ → ℕ → ℕ
session_payload size route_depth =
    if ltb 1 route_depth then size + relay_source_overhead + route_depth * onion_overhead else size

Carries-size :
    (aead : Aead) (keys : KeyAgreement) (depth size len : ℕ)
    → IsAead aead
    → Carries aead keys depth size len
    → len ≡ session_payload size depth
Carries-size aead keys depth size len v (direct_route h k) = ground (arith, h, k)
Carries-size aead keys depth size len v
      (relayed_route priv counter after path pubs packet onion deep same hops sized built whole) =
    let (longer, few) =
      length-build_onion aead keys priv counter after path pubs onion packet v hops built in
    ground (arith, longer, deep, same, sized, whole)

framed-le-underlay :
    (underlay depth bucket size : ℕ) {mtu : ℕ}
    → safe_overlay_mtu underlay depth bucket ≡ some mtu
    → size ≤ mtu
    → (is_supported_session_padding_bucket bucket ≡ true)
      × (outer_ipv4_udp_overhead
            + (28 + session_padded_plaintext_size (session_payload size depth) bucket + 16)
          ≤ underlay)
unfolding safe_overlay_mtu wire_overhead_for_route_depth
framed-le-underlay underlay depth bucket size {mtu} e h =
    elim (Bool-cases (is_supported_session_padding_bucket bucket)) [
      | inl f ↦ ground (arith, f, frame-le-overhead (session_payload size depth) bucket f)
      | inr f ↦ absurd (ground arith)
    ]

-- With an AEAD and a random source that do not fail, where `safe_overlay_mtu` gives a size for a
-- route: an inner packet up to it, as it is on a direct route and in its onion on a longer one, is
-- encrypted to a frame that fits the underlay with its IPv4 and UDP headers, if what the session is
-- given to carry it is not above the limit of a session's payload.
pub safe_overlay_mtu-fits :
    {H : Type 0} (aead : Aead) (keys : KeyAgreement) (random : ℕ → Option (List ℕ))
    (underlay depth bucket peer type : ℕ) (buffer : Option (List ℕ)) (size len flags : ℕ)
    (m : SessionManager H) {mtu : ℕ} {s : SessionState}
    → IsReady aead random
    → safe_overlay_mtu underlay depth bucket ≡ some mtu
    → size ≤ mtu
    → Carries aead keys depth size len
    → len ≤ session_max_logical_payload_size
    → null_with_bytes buffer len ≡ false
    → Readable buffer len
    → find_session_locked peer m ≡ some s
    → (frame : List ℕ) × ((encrypt_message aead random bucket peer type buffer len flags m).0
        ≡ some frame)
      × (outer_ipv4_udp_overhead + length frame ≤ underlay)
safe_overlay_mtu-fits aead keys random underlay depth bucket peer type buffer size len flags m {mtu}
      {s} r e h carried short given readable held =
    let (supported, fits) = framed-le-underlay underlay depth bucket size e h in
    let (frame, sent, framed) =
      encrypt_message-frame aead random bucket peer type buffer len flags m r held given readable
        supported short in
    let same = Carries-size aead keys depth size len r.sizes carried in
    (frame, sent, rw framed (rw same fits))

-- A route that is longer leaves no more room.
pub safe_overlay_mtu-antitone :
    (underlay depth deeper bucket : ℕ) {mtu mtu' : ℕ}
    → depth ≤ deeper
    → safe_overlay_mtu underlay depth bucket ≡ some mtu
    → safe_overlay_mtu underlay deeper bucket ≡ some mtu'
    → mtu' ≤ mtu
unfolding safe_overlay_mtu wire_overhead_for_route_depth
safe_overlay_mtu-antitone underlay depth deeper bucket h e f = ground arith
