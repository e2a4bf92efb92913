-- ===== src/Session/Steps/Messages.antt =====
-- `encrypt_message` and `decrypt_message` of src/session/session.cpp against the manager's
-- consistency: they change a session's counters in place.
use aegis.Prelude.{
  ℕ, ◌-◌, ◌^◌, not, ◌||◌, ltb, null_with_bytes, first_bytes, Option, none, some, List, ◌==◌, arith,
  ◌≡◌, refl, Bool-cases, Option-cases, inl, inr,
}
use aegis.Prelude.Maps.{find, find-insert, insert-Above, length-insert}
use aegis.Wire.{WireWriter}
use aegis.Header.{
  PacketHeader, session_max_payload_size, session_max_logical_payload_size,
  is_supported_session_padding_bucket, session_padded_plaintext_size,
}
use aegis.Replay.{check_replay, update_replay}
use aegis.Session.{
  SessionState, RetiredSession, SessionManager, find_session_locked, find_session_by_id_locked,
}
use aegis.Session.Invariant.{IsConsistent}
use aegis.Session.Message.{
  Aead, encrypt_message, decrypt_message, pad, count_sent, put_session, put_retired, put_by_id,
  send_payload, accept, open_frame, open_payload, write_payload,
}

-- The same session as far as the maps are concerned.
record IsUpdate (s t : SessionState) : Type 0 where
  same_id : t.id ≡ s.id
  same_peer : t.peer_id ≡ s.peer_id
  same_established : t.established ≡ s.established

put_session-IsConsistent :
    {H : Type 0} {m : SessionManager H} (peer : ℕ) {s t : SessionState}
    → IsConsistent m
    → find peer m.sessions ≡ some s
    → IsUpdate s t
    → IsConsistent (put_session peer t m)
put_session-IsConsistent {H} {m} peer {s} {t} c e u = record {
  sessions_sorted = insert-Above 0 peer t m.sessions (omega arith) c.sessions_sorted;
  routes_sorted = c.routes_sorted;
  retired_sorted = c.retired_sorted;
  pending_sorted = c.pending_sorted;
  active = λ p q f. elim (Bool-cases (peer == p)) [
    | inl h ↦
        let a = c.active peer s e in
        record {
          named = ground (arith, find-insert peer p t m.sessions, a.named, u);
          established = ground (arith, find-insert peer p t m.sessions, a.established, u);
          routed = ground (arith, find-insert peer p t m.sessions, a.routed, u);
        }
    | inr h ↦ c.active p q (ground (arith, find-insert peer p t m.sessions))
  ];
  owned = λ id p f.
      let (q, held, named) = c.owned id p f in
      elim (Bool-cases (peer == p)) [
        | inl h ↦
            (t, ground (arith, find-insert peer p t m.sessions), ground (arith, u, held, named))
        | inr h ↦ (q, ground (arith, find-insert peer p t m.sessions, held), named)
      ];
  retired_apart = c.retired_apart;
  pending_apart = c.pending_apart;
  active_bounded =
      ground (arith, length-insert peer t m.sessions c.sessions_sorted, c.active_bounded);
  retired_bounded = c.retired_bounded;
  pending_bounded = c.pending_bounded;
}

put_retired-IsConsistent :
    {H : Type 0} {m : SessionManager H} (id : ℕ) {r : RetiredSession} {t : SessionState}
    → IsConsistent m
    → find id m.retired ≡ some r
    → IsUpdate r.session t
    → IsConsistent (put_retired id t (some r) m)
put_retired-IsConsistent {H} {m} id {r} {t} c e u = record {
  sessions_sorted = c.sessions_sorted;
  routes_sorted = c.routes_sorted;
  retired_sorted = insert-Above 0 id kept m.retired (omega arith) c.retired_sorted;
  pending_sorted = c.pending_sorted;
  active = c.active;
  owned = c.owned;
  retired_apart = λ i q f. elim (Bool-cases (id == i)) [
    | inl h ↦ ground (arith, find-insert id i kept m.retired, c.retired_apart id r e, u)
    | inr h ↦ c.retired_apart i q (ground (arith, find-insert id i kept m.retired))
  ];
  pending_apart = λ i p f. ground (arith, find-insert id i kept m.retired, c.pending_apart i p f);
  active_bounded = c.active_bounded;
  retired_bounded =
      ground (arith, length-insert id kept m.retired c.retired_sorted, c.retired_bounded);
  pending_bounded = c.pending_bounded;
}
  where
    kept : RetiredSession
    kept = record r { session = t }

found_active :
    {H : Type 0} (m : SessionManager H) (peer : ℕ) {s : SessionState}
    → find_session_locked peer m ≡ some s
    → find peer m.sessions ≡ some s
unfolding find_session_locked
found_active {H} m peer e = ground (arith, Option-cases (find peer m.sessions))

send_payload-IsConsistent :
    {H : Type 0} {m : SessionManager H} (aead : Aead) (random : ℕ → Option (List ℕ))
    (peer type flags : ℕ) (written : Option WireWriter)
    → IsConsistent m
    → IsConsistent (send_payload aead random peer type flags written m).1
send_payload-IsConsistent aead random peer type flags none c = c
send_payload-IsConsistent {H} {m} aead random peer type flags (some w) c =
    elim (Option-cases (find_session_locked peer m)) [
      | inl e ↦ rw e c
      | inr (s, e) ↦ elim (Option-cases (pad random w)) [
        | inl f ↦ rw (e, f) c
        | inr (payload, f) ↦
            rw (e, f)
              (put_session-IsConsistent peer {t = count_sent s} c (found_active m peer e)
                (record { same_id = refl; same_peer = refl; same_established = refl }))
      ]
    ]

-- Sending keeps a consistent manager so, whatever the outcome.
pub encrypt_message-IsConsistent :
    {H : Type 0} {m : SessionManager H} (aead : Aead) (random : ℕ → Option (List ℕ))
    (bucket peer type : ℕ) (buffer : Option (List ℕ)) (len flags : ℕ)
    → IsConsistent m
    → IsConsistent (encrypt_message aead random bucket peer type buffer len flags m).1
unfolding encrypt_message
encrypt_message-IsConsistent {H} {m} aead random bucket peer type buffer len flags c =
    let sent =
      send_payload-IsConsistent aead random peer type flags
        (write_payload bucket (first_bytes buffer len)) c in
    elim (Bool-cases (
      null_with_bytes buffer len
      || not (is_supported_session_padding_bucket bucket)
      || ltb session_max_logical_payload_size len
      || ltb (2 ^ 32 - 1) len)) [
        | inl e ↦ rw e c
        | inr e ↦
            elim (Bool-cases
              (ltb session_max_payload_size (session_padded_plaintext_size len bucket))) [
                | inl f ↦ rw (e, f) c
                | inr f ↦ rw (e, f) sent
              ]
      ]

put_by_id-IsConsistent :
    {H : Type 0} (m : SessionManager H) (id : ℕ) {s t : SessionState}
    → IsConsistent m
    → find_session_by_id_locked id m ≡ some s
    → IsUpdate s t
    → IsConsistent (put_by_id id t (find id m.session_to_peer) m)
unfolding find_session_by_id_locked
put_by_id-IsConsistent m id {s} {t} c e u = elim (Option-cases (find id m.session_to_peer)) [
  | inr (peer, f) ↦
      rw f (put_session-IsConsistent peer c (ground (arith, Option-cases (find peer m.sessions))) u)
  | inl f ↦ elim (Option-cases (find id m.retired)) [
    | inl g ↦ rw (f, g) c
    | inr (r, g) ↦
        let same : r.session ≡ s = ground arith in
        rw (f, g) (put_retired-IsConsistent id c g (rw same u))
  ]
]

accept-IsUpdate :
    (aead : Aead) (s t : SessionState) (header : PacketHeader) (frame bytes : List ℕ)
    → accept aead s header frame ≡ some (t, bytes)
    → IsUpdate s t
unfolding accept
accept-IsUpdate aead s t header frame bytes e =
    elim (Option-cases (check_replay s.replay header.sequence_number)) [
      | inl f ↦ absurd (ground arith)
      | inr (fresh, f) ↦ elim (Option-cases (open_payload aead s header frame)) [
        | inl g ↦ absurd (ground (arith, Bool-cases fresh))
        | inr (text, g) ↦ elim (Option-cases (update_replay s.replay header.sequence_number)) [
          | inl h ↦ absurd (ground (arith, Bool-cases fresh))
          | inr (replay, h) ↦ record {
            same_id = ground (arith, Bool-cases fresh);
            same_peer = ground (arith, Bool-cases fresh);
            same_established = ground (arith, Bool-cases fresh);
          }
        ]
      ]
    ]

-- So does receiving.
pub decrypt_message-IsConsistent :
    {H : Type 0} {m : SessionManager H} (aead : Aead) (frame : List ℕ)
    → IsConsistent m
    → IsConsistent (decrypt_message aead frame m).1
unfolding decrypt_message
decrypt_message-IsConsistent {H} {m} aead frame c = elim (Option-cases (open_frame frame)) [
  | inl e ↦ rw e c
  | inr (header, e) ↦ elim (Option-cases (find_session_by_id_locked header.session_id m)) [
    | inl f ↦ rw (e, f) c
    | inr (s, f) ↦ elim (Option-cases (accept aead s header frame)) [
      | inl g ↦ rw (e, f, g) c
      | inr ((t, bytes), g) ↦
          rw (e, f, g)
            (put_by_id-IsConsistent m header.session_id c f
              (accept-IsUpdate aead s t header frame bytes g))
    ]
  ]
]
