-- ===== src/PathProbe/RoundTrip.antt =====
-- The messages of src/routing/path_probe.cpp read back as they were written.
use aegis.Prelude.{ℕ, ◌^◌, ◌<◌, some, List, ◌∷◌, ◌++◌, ◌>>=◌, arith, ◌≡◌, ◌≢◌}
use aegis.Wire.{read_u8, read_u16, read_u64, read_bytes, write_bytes, u64_bytes}
use aegis.Wire.Cursor.{u64-u64_bytes}
use aegis.PathProbe.{PathProbeMessage, kind_byte, serialize_path_probe, deserialize_path_probe}

-- The values that are sent.
pub record IsProbe (p : PathProbeMessage) : Type 0 where
  pub id_fits : p.probe_id < 2 ^ 64
  pub id_used : p.probe_id ≢ 0
  pub sequence_fits : p.route_sequence < 2 ^ 64
  pub sequence_used : p.route_sequence ≢ 0

abbrev pub probe_bytes : PathProbeMessage → List ℕ
probe_bytes p = 1 ∷ kind_byte p.kind ∷ 0 ∷ 0 ∷ (u64_bytes p.probe_id ++ u64_bytes p.route_sequence)

serialize-probe_bytes :
    (p : PathProbeMessage) → IsProbe p → serialize_path_probe p ≡ some (probe_bytes p)
unfolding serialize_path_probe write_bytes
serialize-probe_bytes p v = ground (arith, v)

deserialize-probe_bytes :
    (p : PathProbeMessage) → IsProbe p → deserialize_path_probe (probe_bytes p) ≡ some p
unfolding deserialize_path_probe read_u8 read_u16 read_u64 read_bytes
deserialize-probe_bytes p v =
    ground
      (arith, v, u64-u64_bytes p.probe_id v.id_fits, u64-u64_bytes p.route_sequence v.sequence_fits)

-- A probe whose id and sequence number fit 64 bits and are not 0 is written, and reads back.
pub deserialize-serialize :
    (p : PathProbeMessage)
    → IsProbe p
    → (serialize_path_probe p >>= deserialize_path_probe) ≡ some p
deserialize-serialize p v = rw (serialize-probe_bytes p v) (deserialize-probe_bytes p v)
