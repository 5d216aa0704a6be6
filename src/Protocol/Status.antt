-- ===== src/Protocol/Status.antt =====
-- crates/agsv-protocol/src/model.rs: the lifecycle states of actors, teams, requests and runs.
use agent_supervisor.Common.{Bool, true, false}

pub data ActorStatus : Type 0 where
  starting healthy stale revoked stopped : ActorStatus

pub data TeamStatus : Type 0 where
  active paused closing closed retired : TeamStatus

-- `opened` is `Open`.
pub data RequestStatus : Type 0 where
  opened assigned in_progress blocked candidate_ready : RequestStatus
  changes_requested accepted integration_authorized cancelled completed : RequestStatus

pub data RunStatus : Type 0 where
  pending active paused blocked awaiting_review : RunStatus
  revision_requested accepted authorized cancelled completed : RunStatus

unfoldable pub ActorStatus-discrete : Discrete ActorStatus
ActorStatus-discrete = hlevel

unfoldable pub TeamStatus-discrete : Discrete TeamStatus
TeamStatus-discrete = hlevel

unfoldable pub RequestStatus-discrete : Discrete RequestStatus
RequestStatus-discrete = hlevel

-- Whether no further protocol transition is allowed.
abbrev pub is_terminal : RequestStatus → Bool
is_terminal RequestStatus.cancelled = true
is_terminal RequestStatus.completed = true
is_terminal _ = false

-- Whether a request prevents its owning team from closing.
abbrev pub request_blocks_team_close : RequestStatus → Bool
request_blocks_team_close RequestStatus.accepted = false
request_blocks_team_close RequestStatus.integration_authorized = false
request_blocks_team_close RequestStatus.cancelled = false
request_blocks_team_close RequestStatus.completed = false
request_blocks_team_close _ = true

abbrev pub actor_is_healthy : ActorStatus → Bool
actor_is_healthy ActorStatus.healthy = true
actor_is_healthy _ = false

-- `matches!(status, Revoked | Stopped)`
abbrev pub actor_is_gone : ActorStatus → Bool
actor_is_gone ActorStatus.revoked = true
actor_is_gone ActorStatus.stopped = true
actor_is_gone _ = false

abbrev pub actor_is_revoked : ActorStatus → Bool
actor_is_revoked ActorStatus.revoked = true
actor_is_revoked _ = false

abbrev pub actor_is_stopped : ActorStatus → Bool
actor_is_stopped ActorStatus.stopped = true
actor_is_stopped _ = false

abbrev pub team_is_active : TeamStatus → Bool
team_is_active TeamStatus.active = true
team_is_active _ = false

-- `matches!(status, Closed | Retired)`
abbrev pub team_is_over : TeamStatus → Bool
team_is_over TeamStatus.closed = true
team_is_over TeamStatus.retired = true
team_is_over _ = false
