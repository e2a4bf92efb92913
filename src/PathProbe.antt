-- ===== src/PathProbe.antt =====
-- src/routing/path_probe.cpp and include/aegis/routing/path_probe.hpp: the messages by which a route
-- is measured, and the probes that wait for an answer. Times and durations are numbers of ticks.
pub mod Tracking
pub mod RoundTrip
mod Tests
use aegis.Prelude.{
  ℕ, ◌+◌, ◌-◌, Bool, true, false, ◌&&◌, ◌||◌, not, Option, none, some, List, [], ◌∷◌, length,
  replicate, ltb, leb, ◌==◌, ◌>>=◌, ◌>>◌, guard, if◌then◌else◌,
}
use aegis.Prelude.Maps.{Map, find, insert, erase, erase_if, has}
use aegis.Prelude.Durations.{ℤ, pos, negsuc}
use aegis.Wire.{
  reader, finished, read_u8, read_u16, read_u64, writer, full, write_u8, write_u16, write_u64,
}

abbrev pub path_probe_wire_size : ℕ
path_probe_wire_size = 20

pub data PathProbeKind : Type 0 where
  challenge response : PathProbeKind

abbrev pub kind_byte : PathProbeKind → ℕ
kind_byte challenge = 1
kind_byte response = 2

pub record PathProbeMessage : Type 0 where
  pub kind : PathProbeKind
  pub probe_id : ℕ
  pub route_sequence : ℕ

-- A kind is one of the two, so the check of it does not fail.
unfoldable pub serialize_path_probe : PathProbeMessage → Option (List ℕ)
serialize_path_probe probe = do
  guard (not (probe.probe_id == 0) && not (probe.route_sequence == 0))
  w ← write_u8 1 (writer (replicate path_probe_wire_size 0))
  w ← write_u8 (kind_byte probe.kind) w
  w ← write_u16 0 w
  w ← write_u64 probe.probe_id w
  w ← write_u64 probe.route_sequence w
  guard (full w)
  some w.bytes

abbrev pub kind_of : ℕ → Option PathProbeKind
kind_of byte = if byte == 1 then some challenge else if byte == 2 then some response else none

unfoldable pub deserialize_path_probe : List ℕ → Option PathProbeMessage
deserialize_path_probe payload =
    let (version, r) = read_u8 (reader payload) in
    let (kind, r) = read_u8 r in
    let (reserved, r) = read_u16 r in
    let (probe_id, r) = read_u64 r in
    let (route_sequence, r) = read_u64 r in
    do
      version ← version
      kind ← kind
      reserved ← reserved
      probe_id ← probe_id
      route_sequence ← route_sequence
      guard (finished r && version == 1 && reserved == 0)
      kind ← kind_of kind
      guard (not (probe_id == 0) && not (route_sequence == 0))
      some (record { kind = kind; probe_id = probe_id; route_sequence = route_sequence })

-- A prefix is the number that the family and the bytes of the address spell.
pub record PathProbeTarget : Type 0 where
  pub destination : ℕ
  pub next_hop : ℕ
  pub prefix : ℕ
  pub prefix_length : ℕ
  pub route_sequence : ℕ

abbrev pub same_target : PathProbeTarget → PathProbeTarget → Bool
same_target a b =
    a.destination == b.destination
    && a.next_hop == b.next_hop
    && a.prefix == b.prefix
    && a.prefix_length == b.prefix_length
    && a.route_sequence == b.route_sequence

pub record PathProbeObservation : Type 0 where
  pub target : PathProbeTarget
  pub rtt : ℕ

pub record Pending : Type 0 where
  pub target : PathProbeTarget
  pub sent_at : ℕ

pub record PathProbeTracker : Type 0 where
  pub maximum : ℕ
  pub timeout : ℤ
  pub pending : Map Pending

unfoldable pub construct : ℕ → ℤ → PathProbeTracker
construct maximum timeout = record { maximum = maximum; timeout = timeout; pending = [] }

abbrev pub is_positive : ℤ → Bool
is_positive (pos n) = ltb 0 n
is_positive (negsuc n) = false

-- `now >= sent_at && now - sent_at >= timeout`.
abbrev pub timed_out : ℤ → ℕ → ℕ → Bool
timed_out (pos n) sent_at now = leb sent_at now && leb n (now - sent_at)
timed_out (negsuc n) sent_at now = leb sent_at now

-- The loops over what is pending.
unfoldable pub holds_target : PathProbeTarget → Map Pending → Bool
holds_target target [] = false
holds_target target ((id, p) ∷ m) = same_target p.target target || holds_target target m

unfoldable pub contains_target : PathProbeTarget → PathProbeTracker → Bool
unfolding holds_target
contains_target target t = holds_target target t.pending

unfoldable pub begin : ℕ → PathProbeTarget → ℕ → PathProbeTracker → Bool × PathProbeTracker
begin probe_id target now t =
    if probe_id == 0 || target.route_sequence == 0 || t.maximum == 0 || not (is_positive t.timeout)
    then (false, t)
    else if leb t.maximum (length t.pending) || has probe_id t.pending
    then (false, t)
    else if holds_target target t.pending
    then (false, t)
    else (
      true,
      record t { pending = insert probe_id (record { target = target; sent_at = now }) t.pending },
    )

unfoldable pub acknowledge_found :
    ℕ
    → Option Pending
    → ℕ
    → ℕ
    → ℕ
    → PathProbeTracker
    → Option PathProbeObservation × PathProbeTracker
acknowledge_found probe_id none responder route_sequence now t = (none, t)
acknowledge_found probe_id (some p) responder route_sequence now t =
    if not (p.target.destination == responder)
      || not (p.target.route_sequence == route_sequence)
      || ltb now p.sent_at
      || timed_out t.timeout p.sent_at now
    then (none, t)
    else (
      some (record { target = p.target; rtt = now - p.sent_at }),
      record t { pending = erase probe_id t.pending },
    )

unfoldable pub acknowledge :
    ℕ → ℕ → ℕ → ℕ → PathProbeTracker → Option PathProbeObservation × PathProbeTracker
unfolding acknowledge_found
acknowledge probe_id responder route_sequence now t =
    acknowledge_found probe_id (find probe_id t.pending) responder route_sequence now t

unfoldable pub expired_targets : ℤ → ℕ → Map Pending → List PathProbeTarget
expired_targets timeout now [] = []
expired_targets timeout now ((id, p) ∷ m) =
    let rest = expired_targets timeout now m in
    if timed_out timeout p.sent_at now then p.target ∷ rest else rest

unfoldable pub expire : ℕ → PathProbeTracker → List PathProbeTarget × PathProbeTracker
expire now t = (
  expired_targets t.timeout now t.pending,
  record t { pending = erase_if (λ id p. timed_out t.timeout p.sent_at now) t.pending },
)

unfoldable pub cancel : ℕ → PathProbeTracker → PathProbeTracker
cancel probe_id t = record t { pending = erase probe_id t.pending }

unfoldable pub reset : PathProbeTracker → PathProbeTracker
reset t = record t { pending = [] }

unfoldable pub size : PathProbeTracker → ℕ
size t = length t.pending
