-- ===== src/Runtime/Store.antt =====
-- crates/agsv-runtime/src/store.rs: the tables, and the queries and checks that the operations
-- share. A transaction that fails is dropped, and SQLite rolls it back: an operation gives its
-- value with the tables that it commits, or an error.
use text.Mathlib.Text.{◌==◌ as str_eq}
use agent_supervisor.Common.{
  String, ℕ, ◌+◌, Bool, true, false, not, ◌&&◌, ◌||◌, Option, none, some, List, [], ◌∷◌, ◌++◌, ltb,
  leb, ◌==◌,
}
use agent_supervisor.Common.Lists.{length, any, find}
use agent_supervisor.Common.Result.{Result, ok, ok_or, fail_if, ◌>>=◌, ◌>>◌}
use agent_supervisor.Runtime.Table.{I64, i64_zero}
use agent_supervisor.Runtime.Types.{
  ActorRole, ActorState, SessionHandle, ActorRecord, DaemonLease, LaunchIntent, MessageRecord,
  AuditDetail, AuditEvent, RuntimeError,
}

pub record DaemonRow : Type 0 where
  pub lease : DaemonLease
  pub heartbeat_at_ms : I64

pub record ActorRow : Type 0 where
  pub workspace_id : String
  pub actor_id : String
  pub team_id : Option String
  pub role : ActorRole
  pub state : ActorState
  pub actor_epoch : I64
  pub backend : String
  pub session_external_id : Option String
  pub session_resume_token : Option String
  pub heartbeat_at_ms : I64
  pub lease_until_ms : I64

pub record PrimaryRow : Type 0 where
  pub workspace_id : String
  pub actor_id : String
  pub actor_epoch : I64
  pub fencing_epoch : I64
  pub lease_until_ms : I64

pub record LaunchRow : Type 0 where
  pub intent : LaunchIntent
  pub created_at_ms : I64
  pub updated_at_ms : I64

pub record Store : Type 0 where
  pub daemon_leases : List DaemonRow
  pub actors : List ActorRow
  pub primary_leases : List PrimaryRow
  pub messages : List MessageRecord
  pub launch_intents : List LaunchRow
  pub audit_events : List AuditEvent

abbrev pub Tx : Type 0 → Type 0
Tx A = Store → Result RuntimeError (A × Store)

unfoldable pub require_positive_ttl : I64 → Result RuntimeError (Unit {0})
require_positive_ttl ttl = fail_if (leb ttl i64_zero) RuntimeError.invalid_state

-- `sequence` is the table's AUTOINCREMENT key, and no event is deleted.
unfoldable pub append_audit : String → String → String → String → AuditDetail → I64 → Store → Store
append_audit workspace entity_kind entity_id event_type detail at s = record s {
  audit_events =
      s.audit_events
      ++ record {
        sequence = length s.audit_events + 1;
        workspace_id = workspace;
        entity_kind = entity_kind;
        entity_id = entity_id;
        event_type = event_type;
        detail = detail;
        created_at_ms = at;
      }
        ∷ [];
}

-- `WHERE workspace_id = ?1 AND actor_id = ?2`
abbrev pub is_actor : String → String → ActorRow → Bool
is_actor workspace actor r = str_eq r.workspace_id workspace && str_eq r.actor_id actor

session_of : ActorRow → Option SessionHandle
session_of r = elim r.session_external_id [
  | none ↦ none
  | some id ↦
      some (record { backend = r.backend; external_id = id; resume_token = r.session_resume_token })
]

-- `actor_from_raw`: the role and the state are kept as what their texts are read as.
unfoldable pub actor_from_raw : ActorRow → ActorRecord
unfolding session_of
actor_from_raw r = record {
  workspace_id = r.workspace_id;
  actor_id = r.actor_id;
  team_id = r.team_id;
  role = r.role;
  state = r.state;
  actor_epoch = r.actor_epoch;
  backend = r.backend;
  session = session_of r;
  heartbeat_at_ms = r.heartbeat_at_ms;
  lease_until_ms = r.lease_until_ms;
}

unfoldable pub actor_by_id : Store → String → String → Option ActorRecord
actor_by_id s workspace actor = elim (find (is_actor workspace actor) s.actors) [
  | none ↦ none
  | some r ↦ some (actor_from_raw r)
]

abbrev pub is_online : ActorState → Bool
is_online ActorState.online = true
is_online _ = false

-- The actor of a current, online and unexpired generation.
unfoldable pub active_actor : Store → String → String → I64 → I64 → Result RuntimeError ActorRecord
active_actor s workspace id epoch now = do
  actor ← ok_or (actor_by_id s workspace id) (RuntimeError.not_found "actor" id)
  fail_if
      (not (actor.actor_epoch == epoch)
        || not (is_online actor.state)
        || leb actor.lease_until_ms now)
      (RuntimeError.stale_epoch "actor" id)
  ok actor

-- `WHERE workspace_id = … AND instance_id = … AND fencing_epoch = … AND lease_until_ms > now`
abbrev pub holds : DaemonLease → I64 → DaemonRow → Bool
holds lease now r =
    str_eq r.lease.workspace_id lease.workspace_id
    && str_eq r.lease.instance_id lease.instance_id
    && r.lease.fencing_epoch == lease.fencing_epoch
    && ltb now r.lease.lease_until_ms

unfoldable pub validate_daemon_in_transaction :
    Store → DaemonLease → I64 → Result RuntimeError (Unit {0})
validate_daemon_in_transaction s lease now =
    fail_if (not (any (holds lease now) s.daemon_leases))
      (RuntimeError.stale_epoch "daemon" lease.instance_id)

abbrev pub validate_daemon_option :
    Store → Option DaemonLease → I64 → Result RuntimeError (Unit {0})
validate_daemon_option s none now = ok tt
validate_daemon_option s (some lease) now = validate_daemon_in_transaction s lease now

unfoldable pub ensure_epoch_update : ℕ → String → String → Result RuntimeError (Unit {0})
ensure_epoch_update updated kind id =
    fail_if (not (updated == 1)) (RuntimeError.stale_epoch kind id)
