-- ===== src/Session/Steps.antt =====
-- The manager of src/session/session.cpp over time. Threads meet only at the manager's mutex, so a
-- run of the program is a sequence of the locked parts, of any threads, in any order: a handler's
-- parts may stand apart, with other handlers' parts between them.
pub mod Locked
pub mod Messages
use aegis.Prelude.{ℕ, ◌≤◌, Bool, Option, some, none, List, ◌≡◌, refl, length}
use aegis.Prelude.Durations.{ℤ, at_least_zero}
use aegis.Session.{
  SessionManager, SessionCapacityLimits, construct, purge_retired_locked, set_retired_grace,
  set_handshake_timeout, set_handshake_replay_ttl, remove_session,
}
use aegis.Session.Invariant.{IsConsistent, construct-IsConsistent}
use aegis.Session.Retire.{purge_retired-IsConsistent, purge_incomplete-IsConsistent}
use aegis.Session.Handshake.{
  Noise, Identity, store_initiator, screen_init, resolve_collision, commit_init,
  handle_handshake_resp,
}
use aegis.Session.Message.{Aead, encrypt_message, decrypt_message}
use Locked.{
  store_initiator-IsConsistent, screen_init-IsConsistent, resolve_collision-IsConsistent,
  commit_init-IsConsistent, handle_handshake_resp-IsConsistent, remove_session-IsConsistent,
  purge_replays-IsConsistent, settings-IsConsistent,
}
use Messages.{encrypt_message-IsConsistent, decrypt_message-IsConsistent}

-- One locked part of any handler, with any arguments, whatever its outcome. The message handlers
-- run under one lock but for what they compute from their arguments alone.
pub data Step {H : Type 0} (noise : Noise H) (identity : Identity) (aead : Aead)
    : SessionManager H → SessionManager H → Type 0 where
  purging :
      (now : ℕ) {m : SessionManager H} → Step noise identity aead m (purge_retired_locked now m)
  setting_grace :
      (grace : ℤ) {m : SessionManager H} → Step noise identity aead m (set_retired_grace grace m)
  setting_timeout :
      (timeout : ℤ) (now : ℕ) {m : SessionManager H}
      → Step noise identity aead m (set_handshake_timeout timeout now m)
  setting_ttl :
      (ttl : ℤ) (now : ℕ) {m : SessionManager H}
      → Step noise identity aead m (set_handshake_replay_ttl ttl now m)
  removing : (peer : ℕ) {m : SessionManager H} → Step noise identity aead m (remove_session peer m)
  storing :
      (id peer static : ℕ) (handshake : H) (now : ℕ) {m : SessionManager H}
      → Step noise identity aead m (store_initiator id peer static handshake now m).1
  screening :
      (key id now : ℕ) {m : SessionManager H}
      → Step noise identity aead m (screen_init key id now m).1
  resolving :
      (key peer now : ℕ) {m : SessionManager H}
      → Step noise identity aead m (resolve_collision key identity.node_id peer now m).1
  committing :
      (peer id : ℕ) (keys : ℕ × ℕ) (now : ℕ) {m : SessionManager H}
      → Step noise identity aead m (commit_init peer id keys now m).1
  responding :
      (message : List ℕ) (id now : ℕ) {m : SessionManager H}
      → Step noise identity aead m (handle_handshake_resp noise identity message id now m).1
  sending :
      (random : ℕ → Option (List ℕ)) (bucket peer type : ℕ) (buffer : Option (List ℕ))
      (len flags : ℕ) {m : SessionManager H}
      → Step noise identity aead m
          (encrypt_message aead random bucket peer type buffer len flags m).1
  receiving :
      (frame : List ℕ) {m : SessionManager H}
      → Step noise identity aead m (decrypt_message aead frame m).1

-- What a run leads to from a manager.
pub data Run {H : Type 0} (noise : Noise H) (identity : Identity) (aead : Aead)
    (start : SessionManager H) : SessionManager H → Type 0 where
  started : Run noise identity aead start start
  then_step :
      {m n : SessionManager H}
      → Run noise identity aead start m
      → Step noise identity aead m n
      → Run noise identity aead start n

Step-IsConsistent :
    {H : Type 0} {noise : Noise H} {identity : Identity} {aead : Aead} {m n : SessionManager H}
    → Step noise identity aead m n
    → IsConsistent m
    → IsConsistent n
unfolding set_retired_grace set_handshake_timeout set_handshake_replay_ttl
Step-IsConsistent (purging now) c = purge_retired-IsConsistent now c
Step-IsConsistent {m = m} (setting_grace grace) c =
    settings-IsConsistent grace m.handshake_timeout m.handshake_replay_ttl c
Step-IsConsistent {m = m} (setting_timeout timeout now) c =
    purge_incomplete-IsConsistent now
      (settings-IsConsistent m.retired_grace (at_least_zero timeout) m.handshake_replay_ttl c)
Step-IsConsistent {m = m} (setting_ttl ttl now) c =
    purge_replays-IsConsistent now
      (settings-IsConsistent m.retired_grace m.handshake_timeout (at_least_zero ttl) c)
Step-IsConsistent (removing peer) c = remove_session-IsConsistent peer c
Step-IsConsistent (storing id peer static handshake now) c =
    store_initiator-IsConsistent id peer static handshake now c
Step-IsConsistent (screening key id now) c = screen_init-IsConsistent key id now c
Step-IsConsistent (resolving key peer now) c = resolve_collision-IsConsistent key _ peer now c
Step-IsConsistent (committing peer id keys now) c = commit_init-IsConsistent peer id keys now c
Step-IsConsistent (responding message id now) c =
    handle_handshake_resp-IsConsistent _ _ message id now c
Step-IsConsistent (sending random bucket peer type buffer len flags) c =
    encrypt_message-IsConsistent _ random bucket peer type buffer len flags c
Step-IsConsistent (receiving frame) c = decrypt_message-IsConsistent _ frame c

-- Whatever the threads do, in any order, from a new manager on: the manager is consistent. No two
-- sessions or handshakes share an id, each id leads back to its session, and none of the three maps
-- passes its capacity.
pub Run-IsConsistent :
    {H : Type 0} {noise : Noise H} {identity : Identity} {aead : Aead}
    (capacity : SessionCapacityLimits) {m : SessionManager H}
    → Run noise identity aead (construct capacity) m
    → IsConsistent m
Run-IsConsistent capacity started = construct-IsConsistent capacity
Run-IsConsistent capacity (then_step run step) =
    Step-IsConsistent step (Run-IsConsistent capacity run)
