-- ===== src/Runtime/Launch.antt =====
-- crates/agsv-runtime/src/store.rs: the recoverable steps of a launch.
use text.Mathlib.Text.{◌==◌ as str_eq}
use agent_supervisor.Common.{
  String, ℕ, ◌==◌, List, [], Bool, true, false, not, ◌&&◌, Option, none, some, ◌∷◌, if◌then◌else◌,
}
use agent_supervisor.Common.Lists.{find}
use agent_supervisor.Common.Result.{ok, err, ok_or, fail_if, ◌>>=◌, ◌>>◌}
use agent_supervisor.Runtime.Table.{I64, text_is, update_where}
use agent_supervisor.Runtime.Types.{
  PathBuf, to_string_lossy, SessionHandle, DaemonLease, LaunchIntent, LaunchIntentState,
  AuditDetail, RuntimeError,
}
use agent_supervisor.Runtime.Store.{
  Store, Tx, LaunchRow, append_audit, validate_daemon_in_transaction,
}

-- `WHERE workspace_id = ?1 AND idempotency_key = ?2`
abbrev pub has_key : String → String → LaunchRow → Bool
has_key workspace key r =
    str_eq r.intent.workspace_id workspace && str_eq r.intent.idempotency_key key

abbrev pub row_intent : Option LaunchRow → Option LaunchIntent
row_intent none = none
row_intent (some r) = some r.intent

unfoldable pub launch_intent : Store → String → String → Option LaunchIntent
launch_intent s workspace key = row_intent (find (has_key workspace key) s.launch_intents)

abbrev pub same_bytes : List ℕ → List ℕ → Bool
same_bytes [] [] = true
same_bytes [] (c ∷ cs) = false
same_bytes (b ∷ bs) [] = false
same_bytes (b ∷ bs) (c ∷ cs) = b == c && same_bytes bs cs

-- A path is never equal to one that is Unicode where it is not.
abbrev pub same_path : PathBuf → PathBuf → Bool
same_path (PathBuf.unicode a) (PathBuf.unicode b) = str_eq a b
same_path (PathBuf.unicode a) (PathBuf.bytes c t) = false
same_path (PathBuf.bytes c t) (PathBuf.unicode b) = false
same_path (PathBuf.bytes c t) (PathBuf.bytes d u) = same_bytes c d

unfoldable pub same_launch_intent : LaunchIntent → LaunchIntent → Bool
same_launch_intent existing proposed =
    str_eq existing.actor_id proposed.actor_id
    && str_eq existing.spec_fingerprint proposed.spec_fingerprint
    && same_path existing.canonical_working_directory proposed.canonical_working_directory
    && str_eq existing.backend proposed.backend
    && str_eq existing.session_name proposed.session_name

-- The row that is inserted, as it is read back: whatever state is proposed, it is written as
-- prepared, and the directory is written as text.
abbrev pub prepared_row : LaunchIntent → I64 → LaunchRow
prepared_row intent now = record {
  intent = record intent {
    state = LaunchIntentState.prepared;
    canonical_working_directory =
        PathBuf.unicode (to_string_lossy intent.canonical_working_directory);
  };
  created_at_ms = now;
  updated_at_ms = now;
}

-- After the key was looked up: a launch of that key already, or a new one.
abbrev pub prepare_new : Option LaunchIntent → LaunchIntent → I64 → Tx LaunchIntent
prepare_new (some existing) intent now s =
    if same_launch_intent existing intent
    then ok (existing, s)
    else err (RuntimeError.idempotency_conflict intent.idempotency_key)
prepare_new none intent now s = do
  let stored =
      append_audit intent.workspace_id "launch_intent" intent.idempotency_key "prepared"
        (AuditDetail.fingerprint intent.spec_fingerprint) now
        (record s { launch_intents = prepared_row intent now ∷ s.launch_intents })
  prepared ←
      ok_or (launch_intent stored intent.workspace_id intent.idempotency_key)
        (RuntimeError.not_found "launch intent" intent.idempotency_key)
  ok (prepared, stored)

unfoldable pub prepare_launch : DaemonLease → LaunchIntent → I64 → Tx LaunchIntent
prepare_launch daemon intent now s = do
  fail_if (not (str_eq daemon.workspace_id intent.workspace_id)) RuntimeError.unauthorized
  validate_daemon_in_transaction s daemon now
  prepare_new (launch_intent s intent.workspace_id intent.idempotency_key) intent now s

abbrev pub is_checkpointed : LaunchIntentState → Bool
is_checkpointed LaunchIntentState.prepared = false
is_checkpointed LaunchIntentState.checkpointed = true
is_checkpointed LaunchIntentState.launched = true
is_checkpointed LaunchIntentState.attached = true

abbrev pub checkpoint_row : String → I64 → LaunchRow → LaunchRow
checkpoint_row token now r = record r {
  intent = record r.intent { state = LaunchIntentState.checkpointed; resume_token = some token };
  updated_at_ms = now;
}

-- A step of a launch that was taken before: the same one again changes nothing, another one is a
-- conflict. A step that was not taken gives `stored`.
abbrev pub repeated : Bool → Bool → String → Store → Tx (Unit {0})
repeated true true key stored s = ok (tt, s)
repeated true false key stored s = err (RuntimeError.idempotency_conflict key)
repeated false same key stored s = ok (tt, stored)

unfoldable pub checkpoint_launch : DaemonLease → String → String → I64 → Tx (Unit {0})
checkpoint_launch daemon key token now s = do
  validate_daemon_in_transaction s daemon now
  existing ←
      ok_or (launch_intent s daemon.workspace_id key) (RuntimeError.not_found "launch intent" key)
  let stored =
      append_audit daemon.workspace_id "launch_intent" key "checkpointed"
        (AuditDetail.text "backend launch checkpoint persisted") now
        (record s {
          launch_intents =
              update_where (has_key daemon.workspace_id key) (checkpoint_row token now)
                s.launch_intents;
        })
  repeated (is_checkpointed existing.state) (text_is existing.resume_token token) key stored s

abbrev pub is_launched : LaunchIntentState → Bool
is_launched LaunchIntentState.prepared = false
is_launched LaunchIntentState.checkpointed = false
is_launched LaunchIntentState.launched = true
is_launched LaunchIntentState.attached = true

abbrev pub same_token : Option String → Option String → Bool
same_token none none = true
same_token none (some b) = false
same_token (some a) none = false
same_token (some a) (some b) = str_eq a b

abbrev pub launched_row : SessionHandle → I64 → LaunchRow → LaunchRow
launched_row session now r = record r {
  intent = record r.intent {
    state = LaunchIntentState.launched;
    session_external_id = some session.external_id;
    resume_token = session.resume_token;
  };
  updated_at_ms = now;
}

unfoldable pub record_launch_result : DaemonLease → String → SessionHandle → I64 → Tx (Unit {0})
record_launch_result daemon key session now s = do
  validate_daemon_in_transaction s daemon now
  existing ←
      ok_or (launch_intent s daemon.workspace_id key) (RuntimeError.not_found "launch intent" key)
  fail_if (not (str_eq existing.backend session.backend)) RuntimeError.invalid_state
  let stored =
      append_audit daemon.workspace_id "launch_intent" key "launched"
        (AuditDetail.backend session.backend) now
        (record s {
          launch_intents =
              update_where (has_key daemon.workspace_id key) (launched_row session now)
                s.launch_intents;
        })
  let same =
      text_is existing.session_external_id session.external_id
      && same_token existing.resume_token session.resume_token
  repeated (is_launched existing.state) same key stored s
