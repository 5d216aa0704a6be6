-- ===== src/Protocol/Actor.antt =====
-- crates/agsv-protocol/src/model.rs: actors, teams, their profiles and the capabilities that
-- authorize.
use text.Mathlib.Text.{◌==◌ as str_eq}
use agent_supervisor.Common.{
  ℕ, String, Bool, false, ◌||◌, Option, none, some, List, ltb, ℕ_discrete,
}
use agent_supervisor.Common.Lists.{length, any}
use agent_supervisor.Common.Result.{Result, ok, err, map_err, fail_if, ◌>>◌}
use agent_supervisor.Protocol.Ids.{
  WorkspaceId, TeamId, ActorId, ActorProfileName, TeamProfileName, AssignmentPolicyId, Epoch,
  TimestampMillis,
}
use agent_supervisor.Protocol.Status.{ActorStatus, TeamStatus}
use agent_supervisor.Protocol.Validation.{
  ValidationError, ValidationCode, validation_error, at, validate_count, max_actor_capabilities,
  is_blank, has_outer_whitespace, has_control, byte_length, String-discrete,
}

pub record ActorRef : Type 0 where
  pub actor_id : ActorId
  pub actor_epoch : Epoch

pub data ActorRole : Type 0 where
  primary implementation : ActorRole
  custom : String → ActorRole

pub record ActorProfileSnapshot : Type 0 where
  pub name : ActorProfileName
  pub capabilities : List String

pub record TeamProfileSnapshot : Type 0 where
  pub name : TeamProfileName
  pub actor_profile : ActorProfileName
  pub desired_instances : ℕ
  pub assignment_policy : AssignmentPolicyId

pub record Actor : Type 0 where
  pub actor_id : ActorId
  pub workspace_id : WorkspaceId
  pub team_id : Option TeamId
  pub role : ActorRole
  pub profile : Option ActorProfileSnapshot
  pub epoch : Epoch
  pub status : ActorStatus
  pub last_heartbeat_at : Option TimestampMillis

pub record Team : Type 0 where
  pub team_id : TeamId
  pub workspace_id : WorkspaceId
  pub epoch : Epoch
  pub status : TeamStatus
  pub actors : List ActorId
  pub profile : Option TeamProfileSnapshot

unfoldable pub ActorRef-discrete : Discrete ActorRef
ActorRef-discrete = hlevel ℕ_discrete

unfoldable pub ActorRole-discrete : Discrete ActorRole
ActorRole-discrete = hlevel String-discrete

unfoldable pub ActorProfile-discrete : Discrete (Option ActorProfileSnapshot)
ActorProfile-discrete = hlevel (ℕ_discrete, String-discrete)

unfoldable pub TeamProfile-discrete : Discrete (Option TeamProfileSnapshot)
TeamProfile-discrete = hlevel ℕ_discrete

unfoldable pub OptionId-discrete : Discrete (Option ℕ)
OptionId-discrete = hlevel ℕ_discrete

abbrev pub human_facing_primary : String
human_facing_primary = "human_facing_primary"

abbrev pub implementation_execution : String
implementation_execution = "implementation_execution"

-- The fenced reference that envelopes carry.
abbrev pub actor_ref : Actor → ActorRef
actor_ref a = record { actor_id = a.actor_id; actor_epoch = a.epoch }

-- The mapping of the two roles of v0.1, for an actor with no profile.
legacy_capability : ActorRole → String → Bool
legacy_capability ActorRole.primary capability = str_eq capability human_facing_primary
legacy_capability ActorRole.implementation capability = str_eq capability implementation_execution
legacy_capability (ActorRole.custom r) capability = false

capability_of : Option ActorProfileSnapshot → ActorRole → String → Bool
capability_of none role capability = legacy_capability role capability
capability_of (some p) role capability = any (λ c. str_eq c capability) p.capabilities

-- `Actor::has_capability`
unfoldable pub has_capability : Actor → String → Bool
unfolding capability_of legacy_capability
has_capability a capability = capability_of a.profile a.role capability

role_text : ActorRole → String
role_text ActorRole.primary = "primary"
role_text ActorRole.implementation = "implementation"
role_text (ActorRole.custom value) = value

validate_actor_role : String → Result ValidationError (Unit {0})
unfolding byte_length is_blank has_outer_whitespace has_control
validate_actor_role value = do
  fail_if (is_blank value) (validation_error "actor_role" ValidationCode.required)
  fail_if (ltb 128 (byte_length value)) (validation_error "actor_role" ValidationCode.out_of_range)
  fail_if (has_outer_whitespace value || has_control value)
      (validation_error "actor_role" ValidationCode.invalid_format)

is_custom_legacy : ActorRole → Bool
is_custom_legacy (ActorRole.custom value) = str_eq value "primary" || str_eq value "implementation"
is_custom_legacy _ = false

validate_role : ActorRole → Result ValidationError (Unit {0})
unfolding role_text validate_actor_role is_custom_legacy
validate_role role = do
  validate_actor_role (role_text role)
  fail_if (is_custom_legacy role) (validation_error "actor_role" ValidationCode.inconsistent)

validate_profile : ActorProfileSnapshot → Result ValidationError (Unit {0})
unfolding validate_count
validate_profile p = validate_count "capabilities" (length p.capabilities) max_actor_capabilities

-- With no profile only the two legacy roles stand, each on its side of a team.
validate_placement :
    Option ActorProfileSnapshot → ActorRole → Option TeamId → Result ValidationError (Unit {0})
unfolding validate_profile
validate_placement (some p) role team = map_err (at "profile") (validate_profile p)
validate_placement none ActorRole.primary none = ok tt
validate_placement none ActorRole.primary (some t) =
    err (validation_error "team_id" ValidationCode.inconsistent)
validate_placement none ActorRole.implementation (some t) = ok tt
validate_placement none ActorRole.implementation none =
    err (validation_error "team_id" ValidationCode.required)
validate_placement none (ActorRole.custom r) team =
    err (validation_error "profile" ValidationCode.required)

-- `Actor::validate`
unfoldable pub validate_actor : Actor → Result ValidationError (Unit {0})
unfolding validate_role validate_placement
validate_actor a = do
  map_err (at "role") (validate_role a.role)
  validate_placement a.profile a.role a.team_id

-- `TeamProfileSnapshot::validate`
unfoldable pub validate_team_profile : TeamProfileSnapshot → Result ValidationError (Unit {0})
validate_team_profile p =
    fail_if (ltb 1024 p.desired_instances)
      (validation_error "desired_instances" ValidationCode.out_of_range)
