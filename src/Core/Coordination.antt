-- ===== src/Core/Coordination.antt =====
-- crates/agsv-core/src/supervisor.rs: the messages that only have to be allowed: consultations,
-- directives, dependencies, conflicts and fix requests.
use agent_supervisor.Common.{
  Bool, true, false, not, ◌&&◌, ◌||◌, Option, none, some, ◌==◌, is_some, is_some_and, if◌then◌else◌,
  eqb,
}
use agent_supervisor.Common.Lists.{find_map}
use agent_supervisor.Common.Maps.{nat_key, lookup, values}
use agent_supervisor.Common.Result.{ok, err, ok_or, fail_if, ◌>>=◌, ◌>>◌}
use agent_supervisor.Protocol.Ids.{TeamId, MessageId}
use agent_supervisor.Protocol.Status.{
  TeamStatus, RequestStatus, RequestStatus-discrete, actor_is_gone,
}
use agent_supervisor.Protocol.Actor.{Actor, has_capability, human_facing_primary}
use agent_supervisor.Protocol.Work.{is_accepted}
use agent_supervisor.Protocol.Message.{
  ConsultationRequest, ConsultationResponse, DependencyNotice, ConflictNotice, FixRequest,
}
use agent_supervisor.Protocol.Envelope.{
  EnvelopeHeader, Envelope, MessageTarget, MessageTarget-discrete,
}
use agent_supervisor.Protocol.Delivery.{CausalMessage}
use agent_supervisor.Core.Error.{CoreError, CoreResult}
use agent_supervisor.Core.State.{Supervisor, DeliveryRecord, ensure_known_team}
use agent_supervisor.Core.Mailbox.{is_empty}
use agent_supervisor.Core.Recipients.{directive_team_recipients}
use agent_supervisor.Core.Context.{
  require_primary, require_implementation, require_consultation_requester, is_id, request_context,
  ensure_candidate, ensure_current_assignment, ensure_assignee_target, ensure_active_target_team,
}

unfoldable pub apply_consultation_request :
    Supervisor → Envelope → Actor → ConsultationRequest → CoreResult (Unit {0})
unfolding require_consultation_requester ensure_active_target_team
apply_consultation_request s e actor c = do
  require_consultation_requester s actor
  fail_if (not (c.consultation_id == e.message_id)) CoreError.wrong_request_context
  fail_if (is_id actor.team_id c.target_team_id) CoreError.wrong_team
  ensure_active_target_team s c.target_team_id e.target

-- `matches!(status, Active | Paused)`
abbrev is_directable : TeamStatus → Bool
is_directable TeamStatus.active = true
is_directable TeamStatus.paused = true
is_directable _ = false

-- The target of a directive is the team or one of its standing actors.
directive_target : Supervisor → TeamId → MessageTarget → CoreResult (Unit {0})
unfolding directive_team_recipients
directive_target s team (MessageTarget.team id) =
    if id == team
    then (do
      recipients ← directive_team_recipients s team
      fail_if (is_empty recipients) CoreError.wrong_target)
    else err CoreError.wrong_target
directive_target s team (MessageTarget.actor id) = do
  target ← ok_or (lookup id s.actors) (CoreError.unknown_actor id)
  fail_if (not (is_id target.team_id team && not (actor_is_gone target.status)))
      CoreError.wrong_target
directive_target s team MessageTarget.primary = err CoreError.wrong_target
directive_target s team MessageTarget.workspace = err CoreError.wrong_target

unfoldable pub apply_primary_directive : Supervisor → Envelope → Actor → CoreResult (Unit {0})
unfolding require_primary ensure_known_team ensure_assignee_target directive_target
apply_primary_directive s e actor = do
  require_primary s actor "issue Primary directive"
  fail_if (is_some e.assignment_epoch)
      (CoreError.unauthorized "Primary directive must not carry an executor assignment fence")
  team ← ok_or e.team_id CoreError.wrong_team
  t ← ensure_known_team s team
  fail_if (not (is_directable t.status)) (CoreError.unauthorized "direct inactive team")
  fail_if (is_some_and t.profile (λ p. p.desired_instances == 0))
      (CoreError.unauthorized "direct zero-capacity team")
  if is_some e.request_id then ensure_assignee_target s e else ok tt
  directive_target s team e.target

-- The accepted consultation of an id, with its sender's header.
consulted_team : MessageId → CausalMessage → Option TeamId
consulted_team id (CausalMessage.consultation_request c team) = if c == id then some team else none
consulted_team id _ = none

abbrev consultation_of : MessageId → DeliveryRecord → Option (EnvelopeHeader × TeamId)
consultation_of id d = elim (consulted_team id d.causal) [
  | none ↦ none
  | some team ↦ some (d.envelope, team)
]

-- The answer goes to the Primary if it asked, and else to the actor that asked.
abbrev expected_target : Supervisor → EnvelopeHeader → MessageTarget
expected_target s h =
    if is_some_and (lookup h.sender.actor_id s.actors)
      (λ a. has_capability a human_facing_primary && not (is_some a.team_id))
    then MessageTarget.primary
    else MessageTarget.actor h.sender.actor_id

unfoldable pub apply_consultation_response :
    Supervisor → Envelope → Actor → ConsultationResponse → CoreResult (Unit {0})
unfolding require_implementation consulted_team
apply_consultation_response s e actor r = do
  require_implementation actor "answer consultation"
  fail_if (not (is_id actor.team_id r.responding_team_id)) CoreError.wrong_team
  (header, team) ←
      ok_or (find_map (consultation_of r.consultation_id) (values s.mailbox))
        CoreError.unknown_message
  fail_if (not (team == r.responding_team_id)) CoreError.wrong_team
  fail_if (not (eqb MessageTarget-discrete e.target (expected_target s header)))
      CoreError.wrong_target

unfoldable pub apply_dependency_notice :
    Supervisor → Envelope → Actor → DependencyNotice → CoreResult (Unit {0})
unfolding require_implementation ensure_current_assignment request_context ensure_active_target_team
apply_dependency_notice s e actor n = do
  require_implementation actor "declare dependency"
  ensure_current_assignment s e actor
  blocked ← request_context s e
  fail_if (not (blocked.request_id == n.blocked_request_id)) CoreError.wrong_request_context
  dependency ←
      ok_or (lookup n.depends_on_request_id s.requests)
        (CoreError.unknown_request n.depends_on_request_id)
  fail_if (not (dependency.team_id == n.provider_team_id)) CoreError.wrong_team
  ensure_active_target_team s n.provider_team_id e.target

unfoldable pub apply_conflict_notice :
    Supervisor → Envelope → Actor → ConflictNotice → CoreResult (Unit {0})
unfolding require_implementation ensure_active_target_team
apply_conflict_notice s e actor n = do
  require_implementation actor "report conflict"
  team ← ok_or actor.team_id CoreError.wrong_team
  fail_if (team == n.other_team_id) CoreError.wrong_team
  ensure_active_target_team s n.other_team_id e.target

unfoldable pub apply_fix_request :
    Supervisor → Envelope → Actor → FixRequest → CoreResult (Unit {0})
unfolding require_primary ensure_assignee_target request_context ensure_candidate
apply_fix_request s e actor fix = do
  require_primary s actor "request fixes"
  ensure_assignee_target s e
  request ← request_context s e
  ensure_candidate request fix.candidate
  decision ← ok_or request.decision CoreError.decision_mismatch
  fail_if
      (not (decision.decision_id == fix.decision_id)
        || is_accepted decision.verdict
        || not (eqb RequestStatus-discrete request.status RequestStatus.changes_requested))
      CoreError.decision_mismatch
