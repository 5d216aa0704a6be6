-- ===== src/Runtime/Types.antt =====
-- crates/agsv-runtime/src/types.rs: records, states and errors. The sentence for people that an
-- error carries is left out.
use agent_supervisor.Common.{String, Option, List, ℕ}
use agent_supervisor.Runtime.Table.{I64}

pub data ActorRole : Type 0 where
  primary implementation : ActorRole

pub data ActorState : Type 0 where
  starting online offline stopped : ActorState

pub data LaunchIntentState : Type 0 where
  prepared checkpointed launched attached : LaunchIntentState

-- `std::path::PathBuf`, in the normal form in which `canonicalize` gives it: a path that is Unicode
-- is its text, and of another one the model holds the bytes and what `to_string_lossy` makes of them.
pub data PathBuf : Type 0 where
  unicode : String → PathBuf
  bytes : List ℕ → String → PathBuf

abbrev pub to_string_lossy : PathBuf → String
to_string_lossy (PathBuf.unicode t) = t
to_string_lossy (PathBuf.bytes b t) = t

pub record SessionHandle : Type 0 where
  pub backend : String
  pub external_id : String
  pub resume_token : Option String

pub record ActorRecord : Type 0 where
  pub workspace_id : String
  pub actor_id : String
  pub team_id : Option String
  pub role : ActorRole
  pub state : ActorState
  pub actor_epoch : I64
  pub backend : String
  pub session : Option SessionHandle
  pub heartbeat_at_ms : I64
  pub lease_until_ms : I64

pub record SenderContext : Type 0 where
  pub actor_id : String
  pub actor_epoch : I64
  pub primary_fencing_epoch : Option I64

pub record DaemonLease : Type 0 where
  pub workspace_id : String
  pub instance_id : String
  pub fencing_epoch : I64
  pub lease_until_ms : I64

pub record PrimaryLease : Type 0 where
  pub workspace_id : String
  pub actor_id : String
  pub actor_epoch : I64
  pub fencing_epoch : I64
  pub lease_until_ms : I64

pub record LaunchIntent : Type 0 where
  pub workspace_id : String
  pub actor_id : String
  pub idempotency_key : String
  pub spec_fingerprint : String
  pub canonical_working_directory : PathBuf
  pub backend : String
  pub session_name : String
  pub state : LaunchIntentState
  pub resume_token : Option String
  pub session_external_id : Option String

pub record NewMessage : Type 0 where
  pub workspace_id : String
  pub message_id : String
  pub idempotency_key : String
  pub sender_actor_id : String
  pub recipient_actor_id : Option String
  pub recipient_team_id : Option String
  pub kind : String
  pub payload : List ℕ
  pub available_at_ms : I64
  pub created_at_ms : I64

pub record MessageRecord : Type 0 where
  pub workspace_id : String
  pub message_id : String
  pub idempotency_key : String
  pub sender_actor_id : String
  pub sender_actor_epoch : I64
  pub primary_fencing_epoch : Option I64
  pub recipient_actor_id : Option String
  pub recipient_team_id : Option String
  pub kind : String
  pub payload : List ℕ
  pub available_at_ms : I64
  pub claimed_by_actor_id : Option String
  pub claimant_actor_epoch : Option I64
  pub delivery_epoch : I64
  pub attempts : I64
  pub claim_until_ms : Option I64
  pub acknowledged_at_ms : Option I64
  pub last_error : Option String
  pub created_at_ms : I64

pub record ClaimedMessage : Type 0 where
  pub message : MessageRecord
  pub delivery_epoch : I64

-- The text that the audit's `detail` is formatted from.
pub data AuditDetail : Type 0 where
  fencing_epoch : I64 → AuditDetail
  actor_epoch : I64 → AuditDetail
  backend : String → AuditDetail
  fingerprint : String → AuditDetail
  kind : String → AuditDetail
  actor : String → AuditDetail
  reconciled : ℕ → ℕ → AuditDetail
  text : String → AuditDetail

pub record AuditEvent : Type 0 where
  pub sequence : ℕ
  pub workspace_id : String
  pub entity_kind : String
  pub entity_id : String
  pub event_type : String
  pub detail : AuditDetail
  pub created_at_ms : I64

-- What is told apart of the codes of `rusqlite`.
pub data ErrorCode : Type 0 where
  database_busy database_locked constraint_violation another : ErrorCode

-- `not_found` and `stale_epoch` name an entity by its kind and its id; `sqlite` is a failure of
-- the database, with its code where it has one.
pub data RuntimeError : Type 0 where
  sqlite : Option ErrorCode → RuntimeError
  session : RuntimeError
  not_found : String → String → RuntimeError
  lease_held : String → I64 → RuntimeError
  stale_epoch : String → String → RuntimeError
  idempotency_conflict : String → RuntimeError
  unauthorized : RuntimeError
  backend_not_registered : String → RuntimeError
  workspace_scope : RuntimeError
  schema_version : RuntimeError
  invalid_state : RuntimeError
  corrupt : RuntimeError
  poisoned : RuntimeError
