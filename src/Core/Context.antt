-- ===== src/Core/Context.antt =====
-- crates/agsv-core/src/supervisor.rs: the checks that the message handlers share: who sends, to
-- whom, about which request, under which fences.
use agent_supervisor.Common.{
  ℕ, String, Bool, true, false, not, ◌&&◌, ◌||◌, Option, none, some, ltb, ◌==◌, is_some,
  is_some_and, if◌then◌else◌, eqb, and_then,
}
use agent_supervisor.Common.Maps.{nat_key, lookup}
use agent_supervisor.Common.Result.{ok, ok_or, fail_if, ◌>>=◌, ◌>>◌}
use agent_supervisor.Protocol.Ids.{TeamId, ActorId, RunId, RequestId, Epoch}
use agent_supervisor.Protocol.Status.{
  TeamStatus, request_blocks_team_close, actor_is_healthy, team_is_active,
}
use agent_supervisor.Protocol.Actor.{
  Actor, Team, OptionId-discrete, ActorRef-discrete, actor_ref, has_capability,
  human_facing_primary, implementation_execution,
}
use agent_supervisor.Protocol.Work.{Candidate, OptionCandidate-discrete, Request}
use agent_supervisor.Protocol.Message.{Message}
use agent_supervisor.Protocol.Envelope.{Envelope, MessageTarget, MessageTarget-discrete}
use agent_supervisor.Core.Error.{CoreError, CoreResult}
use agent_supervisor.Core.State.{Supervisor, is_active_primary, current_actor, ensure_known_team}

unfoldable pub require_primary : Supervisor → Actor → String → CoreResult (Unit {0})
require_primary s actor action =
    fail_if
      (not (
        has_capability actor human_facing_primary
        && not (is_some actor.team_id)
        && is_active_primary s actor.actor_id))
      (CoreError.unauthorized action)

unfoldable pub require_implementation : Actor → String → CoreResult (Unit {0})
require_implementation actor action =
    fail_if (not (has_capability actor implementation_execution)) (CoreError.unauthorized action)

unfoldable pub require_consultation_requester : Supervisor → Actor → CoreResult (Unit {0})
unfolding require_primary
require_consultation_requester s actor =
    if is_some actor.team_id && has_capability actor implementation_execution
    then ok tt
    else require_primary s actor "request consultation"

unfoldable pub context_ids : Envelope → CoreResult (RequestId × RunId)
context_ids e = do
  request ← ok_or e.request_id CoreError.wrong_request_context
  run ← ok_or e.run_id CoreError.wrong_request_context
  ok (request, run)

-- `Some(id) == other`, for optional identifiers and fences.
abbrev pub is_id : Option ℕ → ℕ → Bool
is_id found id = is_some_and found (λ x. x == id)

-- The envelope's team is the request's, in its generation unless the request is live; an
-- acceptance of a handoff comes from the team that takes over.
team_matches : Envelope → Message → Request → Bool
team_matches e (Message.handoff_acceptance a) q =
    q.team_id == a.from_team_id && is_id e.team_id a.to_team_id
team_matches e _ q =
    is_id e.team_id q.team_id
    && (request_blocks_team_close q.status || is_id e.team_epoch q.team_epoch)

-- The request that an envelope names, with its run and its team checked.
unfoldable pub request_context : Supervisor → Envelope → CoreResult Request
unfolding context_ids team_matches
request_context s e = do
  (request_id, run_id) ← context_ids e
  request ← ok_or (lookup request_id s.requests) (CoreError.unknown_request request_id)
  fail_if (not (request.run_id == run_id)) CoreError.wrong_request_context
  run ← ok_or (lookup run_id s.runs) (CoreError.unknown_run run_id)
  fail_if (not (run.request_id == request_id)) CoreError.wrong_request_context
  fail_if (not (team_matches e e.message request)) CoreError.wrong_team
  ok request

-- `candidate.map(|c| c.sha)`
abbrev pub sha_of : Option Candidate → Option ℕ
sha_of none = none
sha_of (some c) = some c.sha

unfoldable pub ensure_candidate : Request → Candidate → CoreResult (Unit {0})
ensure_candidate q c =
    fail_if (not (eqb OptionCandidate-discrete q.candidate (some c)))
      (CoreError.candidate_mismatch (sha_of q.candidate) c.sha)

unfoldable pub ensure_current_assignment : Supervisor → Envelope → Actor → CoreResult (Unit {0})
unfolding request_context
ensure_current_assignment s e actor = do
  request ← request_context s e
  assignment ← ok_or request.assignment CoreError.not_assigned_actor
  fail_if (not (is_id e.assignment_epoch assignment.epoch))
      (CoreError.stale_assignment_epoch assignment.epoch e.assignment_epoch)
  fail_if (not (eqb ActorRef-discrete assignment.actor (actor_ref actor)))
      CoreError.not_assigned_actor

abbrev target_is_primary : MessageTarget → Bool
target_is_primary MessageTarget.primary = true
target_is_primary _ = false

unfoldable pub require_primary_target : MessageTarget → CoreResult (Unit {0})
require_primary_target target = fail_if (not (target_is_primary target)) CoreError.wrong_target

-- The target is the assigned actor or its team.
targets_assignee : MessageTarget → ActorId → TeamId → Bool
targets_assignee (MessageTarget.actor id) actor team = id == actor
targets_assignee (MessageTarget.team id) actor team = id == team
targets_assignee MessageTarget.primary actor team = false
targets_assignee MessageTarget.workspace actor team = false

unfoldable pub ensure_assignee_target : Supervisor → Envelope → CoreResult (Unit {0})
unfolding request_context targets_assignee
ensure_assignee_target s e = do
  request ← request_context s e
  assignment ← ok_or request.assignment CoreError.not_assigned_actor
  fail_if (not (targets_assignee e.target assignment.actor.actor_id request.team_id))
      CoreError.wrong_target

unfoldable pub ensure_active_target_team :
    Supervisor → TeamId → MessageTarget → CoreResult (Unit {0})
unfolding ensure_known_team
ensure_active_target_team s team target = do
  t ← ensure_known_team s team
  fail_if (not (team_is_active t.status)) (CoreError.unauthorized "target inactive team")
  fail_if (not (eqb MessageTarget-discrete target (MessageTarget.team team))) CoreError.wrong_target

-- The generation of a request that is past its review and whose team has moved on.
historical_epoch : Supervisor → Envelope → TeamId → Team → Option Epoch
historical_epoch s e team t = and_then e.request_id (λ id. and_then (lookup id s.requests) (λ q.
    if q.team_id == team && not (request_blocks_team_close q.status) && ltb q.team_epoch t.epoch
    then some q.team_epoch
    else none))

-- `matches!(status, Paused | Closed | Retired)`
abbrev pub team_is_silent : TeamStatus → Bool
team_is_silent TeamStatus.paused = true
team_is_silent TeamStatus.closed = true
team_is_silent TeamStatus.retired = true
team_is_silent _ = false

unfoldable pub authorize_team :
    Supervisor → Envelope → Actor → Option TeamId → CoreResult (Unit {0})
unfolding historical_epoch
authorize_team s e actor none = ok tt
authorize_team s e actor (some team) = do
  t ← ok_or (lookup team s.teams) (CoreError.unknown_team team)
  let historical =
      not (is_some actor.team_id)
      && eqb OptionId-discrete (historical_epoch s e team t) e.team_epoch
      && is_some_and e.team_epoch (λ epoch. ltb epoch t.epoch)
  fail_if (not (is_id e.team_epoch t.epoch) && not historical)
      (CoreError.stale_team_epoch t.epoch e.team_epoch)
  fail_if (is_some actor.team_id && team_is_silent t.status)
      (CoreError.unauthorized "message from inactive team")

-- The fences of an envelope against the current state; the sender comes back.
unfoldable pub authorize_envelope : Supervisor → Envelope → CoreResult Actor
unfolding current_actor authorize_team
authorize_envelope s e = do
  fail_if (not (e.policy_revision == s.policy_revision))
      (CoreError.stale_policy_revision s.policy_revision e.policy_revision)
  fail_if (not (e.primary_epoch == s.primary_epoch))
      (CoreError.stale_primary_epoch s.primary_epoch e.primary_epoch)
  actor ← current_actor s e.sender
  fail_if (not (actor_is_healthy actor.status)) (CoreError.actor_not_healthy actor.actor_id)
  fail_if (is_some actor.team_id && not (eqb OptionId-discrete actor.team_id e.team_id))
      CoreError.wrong_team
  authorize_team s e actor e.team_id
  ok actor
