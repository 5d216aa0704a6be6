-- ===== src/Core/Error.antt =====
-- crates/agsv-core/src/error.rs. The text of `Unauthorized` and the like is kept; the state that
-- `InvalidTransition` prints is left out.
use agent_supervisor.Common.{ℕ, String, Option}
use agent_supervisor.Common.Result.{Result}
use agent_supervisor.Protocol.Ids.{WorkspaceId, TeamId, ActorId, RunId, RequestId, GitSha, Epoch}
use agent_supervisor.Protocol.Validation.{ValidationError}

-- `panicked` stands for a panic of `expect`, which the source does not have as an error value.
-- Where a variant has an expected and an actual value, they stand in this order.
pub data CoreError : Type 0 where
  validation : ValidationError → CoreError
  wrong_workspace : WorkspaceId → WorkspaceId → CoreError
  duplicate_message_conflict no_active_primary wrong_team wrong_request_context : CoreError
  not_assigned_actor wrong_target candidate_must_change decision_mismatch : CoreError
  unknown_handoff unknown_message ack_not_authorized : CoreError
  duplicate_acknowledgement_conflict epoch_exhausted : CoreError
  unknown_actor actor_not_healthy not_active_primary : ActorId → CoreError
  stale_actor_epoch stale_primary_epoch stale_policy_revision : Epoch → Epoch → CoreError
  unknown_team : TeamId → CoreError
  stale_team_epoch : Epoch → Option Epoch → CoreError
  unknown_request : RequestId → CoreError
  unknown_run : RunId → CoreError
  stale_assignment_epoch : Epoch → Option Epoch → CoreError
  unauthorized already_exists : String → CoreError
  invalid_transition : String → String → CoreError
  candidate_mismatch : Option GitSha → GitSha → CoreError
  quota_exceeded : String → ℕ → CoreError
  invalid_snapshot : String → String → CoreError
  panicked : String → CoreError

abbrev pub CoreResult {ℓ} : Type ℓ → Type ℓ
CoreResult A = Result CoreError A
