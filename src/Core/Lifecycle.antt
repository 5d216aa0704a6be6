-- ===== src/Core/Lifecycle.antt =====
-- crates/agsv-core/src/supervisor.rs: the creation of a request with its run, and the messages that
-- move both along their state machines.
use agent_supervisor.Common.{not, ◌||◌, none, some, [], leb, ◌==◌, is_some, eqb}
use agent_supervisor.Common.Lists.{length}
use agent_supervisor.Common.Maps.{nat_key, lookup, contains_key, insert, update, retain}
use agent_supervisor.Common.Result.{ok, err, ok_or, fail_if}
use agent_supervisor.Common.Exec.{lift, get, modify, ◌>>=◌, ◌>>◌}
use agent_supervisor.Protocol.Ids.{ActorId, RunId, RequestId, Epoch, initial}
use agent_supervisor.Protocol.Validation.{max_domain_entities}
use agent_supervisor.Protocol.Status.{RequestStatus, RunStatus, actor_is_healthy, team_is_active}
use agent_supervisor.Protocol.Actor.{
  Actor, ActorRef-discrete, actor_ref, has_capability, implementation_execution,
}
use agent_supervisor.Protocol.Work.{
  Assignment, RequestSpecificationRef, IntegrationAuthorization, is_accepted,
}
use agent_supervisor.Protocol.Message.{RunControlAction, IntegrationComplete}
use agent_supervisor.Protocol.Envelope.{Envelope, MessageTarget}
use agent_supervisor.Core.Error.{CoreError, CoreResult}
use agent_supervisor.Core.Transitions.{RequestEvent, RunEvent, transition_request, transition_run}
use agent_supervisor.Core.State.{Supervisor, PendingHandoff, Action, ensure_known_team}
use agent_supervisor.Core.Registry.{quota}
use agent_supervisor.Core.Context.{
  require_primary, is_id, context_ids, request_context, ensure_candidate, ensure_assignee_target,
}

-- Both writes of a transition: the statuses of a request and of its run.
abbrev pub write_statuses : RequestId → RequestStatus → RunId → RunStatus → Supervisor → Supervisor
write_statuses request next_request run next_run s = record s {
  requests = update request (λ q. record q { status = next_request }) s.requests;
  runs = update run (λ r. record r { status = next_run }) s.runs;
}

unfoldable pub transition_context : Envelope → RequestEvent → RunEvent → Action Unit
unfolding request_context transition_request transition_run
transition_context e request_event run_event = do
  s ← get
  request ← lift (request_context s e)
  next_request ← lift (transition_request request.status request_event)
  run ← lift (ok_or (lookup request.run_id s.runs) (CoreError.unknown_run request.run_id))
  next_run ← lift (transition_run run.status run_event)
  modify (write_statuses request.request_id next_request request.run_id next_run)

-- `handoffs.retain(|p| p.offer.request_id != request)`
abbrev pub drop_handoffs : RequestId → Supervisor → Supervisor
drop_handoffs request s = record s {
  handoffs = retain (λ (p : PendingHandoff). not (p.offer.request_id == request)) s.handoffs;
}

-- A request and its run under a team's fence.
abbrev pub write_team_epoch : RequestId → RunId → Epoch → Supervisor → Supervisor
write_team_epoch request run epoch s = record s {
  requests = update request (λ q. record q { team_epoch = epoch }) s.requests;
  runs = update run (λ r. record r { team_epoch = epoch }) s.runs;
}

unfoldable pub apply_cancellation : Envelope → Actor → Action Unit
unfolding require_primary ensure_assignee_target transition_context
apply_cancellation e actor = do
  s ← get
  lift (require_primary s actor "cancel request")
  lift (ensure_assignee_target s e)
  epoch ← lift (ok_or e.team_epoch CoreError.wrong_team)
  request_id ← lift (ok_or e.request_id CoreError.wrong_request_context)
  request ← lift (ok_or (lookup request_id s.requests) (CoreError.unknown_request request_id))
  transition_context e RequestEvent.cancel RunEvent.cancel
  modify (write_team_epoch request_id request.run_id epoch)
  modify (drop_handoffs request_id)

-- A pause leaves the request's status alone.
abbrev controlled_request : RunControlAction → RequestStatus → CoreResult RequestStatus
controlled_request RunControlAction.pause status = ok status
controlled_request RunControlAction.resume status = transition_request status RequestEvent.start

abbrev control_event : RunControlAction → RunEvent
control_event RunControlAction.pause = RunEvent.pause
control_event RunControlAction.resume = RunEvent.resume

unfoldable pub apply_run_control : Envelope → Actor → RunControlAction → Action Unit
unfolding require_primary ensure_assignee_target request_context transition_request transition_run
apply_run_control e actor action = do
  s ← get
  lift (require_primary s actor "control run")
  lift (ensure_assignee_target s e)
  lift (
      fail_if (is_some e.assignment_epoch)
        (CoreError.unauthorized "Primary run control cannot carry an executor assignment fence"))
  request ← lift (request_context s e)
  next_request ← lift (controlled_request action request.status)
  run ← lift (ok_or (lookup request.run_id s.runs) (CoreError.unknown_run request.run_id))
  next_run ← lift (transition_run run.status (control_event action))
  modify (write_statuses request.request_id next_request request.run_id next_run)

unfoldable pub apply_integration_complete : Envelope → Actor → IntegrationComplete → Action Unit
unfolding require_primary ensure_assignee_target request_context ensure_candidate transition_context
apply_integration_complete e actor complete = do
  s ← get
  lift (require_primary s actor "report integration complete")
  lift (ensure_assignee_target s e)
  request ← lift (request_context s e)
  lift (ensure_candidate request complete.candidate)
  authorization ← lift (ok_or request.integration_authorization CoreError.decision_mismatch)
  lift (
      fail_if (not (authorization.decision_id == complete.decision_id)) CoreError.decision_mismatch)
  transition_context e RequestEvent.complete RunEvent.complete

unfoldable pub apply_integration_authorization :
    Envelope → Actor → IntegrationAuthorization → Action Unit
unfolding request_context ensure_candidate transition_request transition_run
apply_integration_authorization e actor authorization = do
  s ← get
  lift (
      fail_if (not (eqb ActorRef-discrete authorization.authorized_by (actor_ref actor)))
        (CoreError.unauthorized "integration authorization identity"))
  request ← lift (request_context s e)
  lift (ensure_candidate request authorization.candidate)
  decision ← lift (ok_or request.decision CoreError.decision_mismatch)
  lift (
      fail_if
        (not (decision.decision_id == authorization.decision_id)
          || not (is_accepted decision.verdict))
        CoreError.decision_mismatch)
  next_request ← lift (transition_request request.status RequestEvent.authorize_integration)
  run ← lift (ok_or (lookup request.run_id s.runs) (CoreError.unknown_run request.run_id))
  next_run ← lift (transition_run run.status RunEvent.authorize_integration)
  modify (λ t. record t {
    requests =
        update request.request_id
          (λ q. record q { status = next_request; integration_authorization = some authorization })
          t.requests;
    runs = update request.run_id (λ r. record r { status = next_run }) t.runs;
  })

-- The actor that a new request is addressed to.
target_actor : MessageTarget → CoreResult ActorId
target_actor (MessageTarget.actor id) = ok id
target_actor _ = err CoreError.wrong_target

unfoldable pub apply_implementation_request :
    Envelope → Actor → RequestSpecificationRef → Action Unit
unfolding require_primary context_ids ensure_known_team target_actor transition_request
    transition_run
apply_implementation_request e actor specification = do
  s ← get
  lift (require_primary s actor "create implementation request")
  (request_id, run_id) ← lift (context_ids e)
  lift (
      fail_if
        (leb max_domain_entities (length s.requests) || leb max_domain_entities (length s.runs))
        (quota "requests or runs" max_domain_entities))
  lift (
      fail_if (contains_key request_id s.requests || contains_key run_id s.runs)
        (CoreError.already_exists "request or run"))
  team_id ← lift (ok_or e.team_id CoreError.wrong_team)
  team ← lift (ensure_known_team s team_id)
  lift (
      fail_if (not (team_is_active team.status))
        (CoreError.unauthorized "assign work to inactive team"))
  target_id ← lift (target_actor e.target)
  target ← lift (ok_or (lookup target_id s.actors) (CoreError.unknown_actor target_id))
  lift (
      fail_if
        (not (has_capability target implementation_execution)
          || not (is_id target.team_id team_id)
          || not (actor_is_healthy target.status))
        (CoreError.unauthorized "assign request to target actor"))
  lift (
      fail_if (is_some e.assignment_epoch)
        (CoreError.stale_assignment_epoch initial e.assignment_epoch))
  let assignment : Assignment = record { actor = actor_ref target; epoch = initial }
  team_epoch ← lift (ok_or e.team_epoch CoreError.wrong_team)
  status ← lift (transition_request RequestStatus.opened RequestEvent.assign)
  run_status ← lift (transition_run RunStatus.pending RunEvent.start)
  modify (λ t. record t {
    requests =
        insert request_id
          (record {
            request_id = request_id;
            workspace_id = t.workspace_id;
            team_id = team_id;
            team_epoch = team_epoch;
            run_id = run_id;
            specification = specification;
            status = status;
            assignment = some assignment;
            candidate = none;
            decision = none;
            integration_authorization = none;
            rejection_count = 0;
            fix_cycle_depth = 0;
            candidate_history = [];
          })
          t.requests;
    runs =
        insert run_id
          (record {
            run_id = run_id;
            workspace_id = t.workspace_id;
            team_id = team_id;
            team_epoch = team_epoch;
            request_id = request_id;
            status = run_status;
            assignment = some assignment;
          })
          t.runs;
  })
