-- ===== src/Core/Restore/Reviews.antt =====
-- crates/agsv-core/src/supervisor.rs: the candidate, the decision and the authorization of a request
-- that is read back.
use agent_supervisor.Common.{
  Bool, true, false, not, ◌&&◌, ◌||◌, Option, none, some, List, [], ◌∷◌, ◌-◌, ltb, ◌==◌, is_some,
  is_some_and, is_none_or, eqb, if◌then◌else◌,
}
use agent_supervisor.Common.Lists.{length}
use agent_supervisor.Common.Maps.{Map, nat_key, lookup, contains_key}
use agent_supervisor.Common.Result.{ok, ok_or, fail_if, ◌>>=◌, ◌>>◌}
use agent_supervisor.Protocol.Ids.{TeamId, ActorId, ActorProfileName, RequestId, Epoch, checked_add}
use agent_supervisor.Protocol.Status.{RequestStatus}
use agent_supervisor.Protocol.Actor.{
  ActorRef, ActorProfileSnapshot, Actor, Team, OptionId-discrete, has_capability,
  human_facing_primary, implementation_execution,
}
use agent_supervisor.Protocol.Work.{
  Candidate, ReviewDecisionRef, IntegrationAuthorization, Request, OptionCandidate-discrete,
  is_accepted,
}
use agent_supervisor.Core.Error.{CoreError, CoreResult}

abbrev pub request_metrics_are_legacy_default : Request → Bool
request_metrics_are_legacy_default q =
    q.rejection_count == 0 && q.fix_cycle_depth == 0 && length q.candidate_history == 0

abbrev pub profile_name : Option ActorProfileSnapshot → Option ActorProfileName
profile_name none = none
profile_name (some p) = some p.name

abbrev pub created_by_other : Option ActorProfileName → Option ActorProfileSnapshot → Bool
created_by_other none profile = false
created_by_other (some name) profile =
    not (eqb OptionId-discrete (profile_name profile) (some name))

unfoldable pub validate_candidate_provenance :
    RequestId → Candidate → Map ActorId Actor → Map TeamId Team → CoreResult (Unit {0})
validate_candidate_provenance request c actors teams = do
  fail_if (not (c.request_id == request) || not (contains_key c.team_id teams))
      (CoreError.invalid_snapshot "candidate" "candidate request or team reference is inconsistent")
  creator ←
      ok_or (lookup c.created_by.actor_id actors)
        (CoreError.invalid_snapshot "candidate.created_by" "candidate creator is missing")
  fail_if
      (not (has_capability creator implementation_execution)
        || not (eqb OptionId-discrete creator.team_id (some c.team_id))
        || ltb creator.epoch c.created_by.actor_epoch)
      (CoreError.invalid_snapshot "candidate.created_by" "candidate creator is inconsistent")
  fail_if (created_by_other c.created_by_profile creator.profile) (
      CoreError.invalid_snapshot "candidate.created_by_profile"
        "candidate creator profile is inconsistent")

unfoldable pub validate_history :
    RequestId → List Candidate → Map ActorId Actor → Map TeamId Team → CoreResult (Unit {0})
validate_history request [] actors teams = ok tt
validate_history request (c ∷ cs) actors teams = do
  validate_candidate_provenance request c actors teams
  validate_history request cs actors teams

-- `.last()`
abbrev pub last : List Candidate → Option Candidate
last [] = none
last (c ∷ []) = some c
last (c ∷ (d ∷ cs)) = last (d ∷ cs)

-- `.windows(2).any(…)`
abbrev pub repeats_commit : List Candidate → Bool
repeats_commit [] = false
repeats_commit (c ∷ []) = false
repeats_commit (c ∷ (d ∷ cs)) = c.sha == d.sha || repeats_commit (d ∷ cs)

abbrev pub requires_candidate : RequestStatus → Bool
requires_candidate RequestStatus.candidate_ready = true
requires_candidate RequestStatus.changes_requested = true
requires_candidate RequestStatus.accepted = true
requires_candidate RequestStatus.integration_authorized = true
requires_candidate RequestStatus.completed = true
requires_candidate _ = false

abbrev pub is_rejection : ReviewDecisionRef → Bool
is_rejection d = not (is_accepted d.verdict)

-- The metrics of a request whose candidates were counted.
abbrev pub validate_metrics :
    Request → Candidate → Map ActorId Actor → Map TeamId Team → CoreResult (Unit {0})
validate_metrics q c actors teams = do
  fail_if (length q.candidate_history == 0)
      (CoreError.invalid_snapshot "candidate_history" "instrumented candidate history is empty")
  fail_if (not (eqb OptionCandidate-discrete (last q.candidate_history) (some c))) (
      CoreError.invalid_snapshot "candidate_history"
        "candidate history does not end at the current candidate")
  validate_history q.request_id q.candidate_history actors teams
  fail_if (repeats_commit q.candidate_history) (
      CoreError.invalid_snapshot "candidate_history"
        "successive rejected candidates must use different commits")
  let depth = length q.candidate_history - 1
  fail_if (not (q.fix_cycle_depth == depth)) (
      CoreError.invalid_snapshot "fix_cycle_depth"
        "fix-cycle depth does not match candidate history")
  expected ←
      ok_or (checked_add depth (if is_some_and q.decision is_rejection then 1 else 0))
        CoreError.epoch_exhausted
  fail_if (not (q.rejection_count == expected)) (
      CoreError.invalid_snapshot "rejection_count"
        "rejection count does not match candidate review history")

abbrev pub validate_candidate_of :
    Option Candidate → Request → Map ActorId Actor → Map TeamId Team → CoreResult (Unit {0})
validate_candidate_of none q actors teams = do
  fail_if
      (is_some q.decision
        || is_some q.integration_authorization
        || not (request_metrics_are_legacy_default q))
      (CoreError.invalid_snapshot "candidate"
        "review state or outcome metrics exist without a candidate")
  fail_if (requires_candidate q.status)
      (CoreError.invalid_snapshot "candidate" "request state requires a candidate")
validate_candidate_of (some c) q actors teams = do
  validate_candidate_provenance q.request_id c actors teams
  let metrics = validate_metrics q c actors teams
  if request_metrics_are_legacy_default q then ok tt else metrics

unfoldable pub validate_request_candidate :
    Request → Map ActorId Actor → Map TeamId Team → CoreResult (Unit {0})
validate_request_candidate q actors teams = validate_candidate_of q.candidate q actors teams

unfoldable pub validate_primary_history_ref : ActorRef → Map ActorId Actor → CoreResult (Unit {0})
validate_primary_history_ref r actors =
    fail_if
      (not (
        is_some_and (lookup r.actor_id actors)
          (λ a. has_capability a human_facing_primary && not (is_some a.team_id))))
      (CoreError.invalid_snapshot "reviewer" "historical Primary actor is missing")

abbrev pub validate_decision :
    Option ReviewDecisionRef → Epoch → Request → Map ActorId Actor → CoreResult (Unit {0})
validate_decision none policy q actors = ok tt
validate_decision (some d) policy q actors = do
  fail_if (not (d.policy_revision == policy)) (
      CoreError.invalid_snapshot "decision.policy_revision"
        "current decision was issued under another policy revision")
  fail_if (not (eqb OptionCandidate-discrete q.candidate (some d.candidate))) (
      CoreError.invalid_snapshot "decision.candidate"
        "decision does not bind the current exact candidate")
  validate_primary_history_ref d.reviewer actors

abbrev pub validate_authorization :
    Option IntegrationAuthorization → Request → Map ActorId Actor → CoreResult (Unit {0})
validate_authorization none q actors = ok tt
validate_authorization (some z) q actors = do
  fail_if
      (not (eqb OptionCandidate-discrete q.candidate (some z.candidate))
        || is_none_or q.decision (λ d. not (d.decision_id == z.decision_id) || is_rejection d))
      (CoreError.invalid_snapshot "integration_authorization"
        "authorization does not bind the accepted current candidate")
  validate_primary_history_ref z.authorized_by actors

-- The decision and the authorization that a status goes with.
abbrev pub review_shape :
    RequestStatus → Option ReviewDecisionRef → Option IntegrationAuthorization → Bool
review_shape RequestStatus.candidate_ready decision authorization =
    not (is_some decision) && not (is_some authorization)
review_shape RequestStatus.changes_requested decision authorization =
    is_some_and decision is_rejection && not (is_some authorization)
review_shape RequestStatus.accepted decision authorization =
    is_some_and decision (λ d. is_accepted d.verdict) && not (is_some authorization)
review_shape RequestStatus.integration_authorized decision authorization =
    is_some_and decision (λ d. is_accepted d.verdict) && is_some authorization
review_shape RequestStatus.completed decision authorization =
    is_some_and decision (λ d. is_accepted d.verdict) && is_some authorization
review_shape _ decision authorization = true

unfoldable pub validate_status_review_shape : Request → CoreResult (Unit {0})
validate_status_review_shape q =
    fail_if (not (review_shape q.status q.decision q.integration_authorization)) (
      CoreError.invalid_snapshot "status"
        "request status contradicts its review or authorization state")

unfoldable pub validate_request_review_state :
    Epoch → Request → Map ActorId Actor → CoreResult (Unit {0})
validate_request_review_state policy q actors = do
  validate_decision q.decision policy q actors
  validate_authorization q.integration_authorization q actors
  validate_status_review_shape q
