-- ===== src/Core/Transitions.antt =====
-- crates/agsv-core/src/transitions.rs: the state machines of requests, runs, actors and teams.
pub mod Pairing
pub mod Journey
use agent_supervisor.Common.{String}
use agent_supervisor.Common.Result.{ok, err}
use agent_supervisor.Protocol.Status.{ActorStatus, TeamStatus, RequestStatus, RunStatus}
use agent_supervisor.Core.Error.{CoreResult, invalid_transition}

pub data RequestEvent : Type 0 where
  assign start block submit_candidate reject_candidate accept_candidate : RequestEvent
  authorize_integration complete cancel : RequestEvent

pub data RunEvent : Type 0 where
  start pause resume block submit_candidate reject_candidate accept_candidate : RunEvent
  authorize_integration complete cancel : RunEvent

pub request_event_name : RequestEvent → String
request_event_name RequestEvent.assign = "assign"
request_event_name RequestEvent.start = "start"
request_event_name RequestEvent.block = "block"
request_event_name RequestEvent.submit_candidate = "submit_candidate"
request_event_name RequestEvent.reject_candidate = "reject_candidate"
request_event_name RequestEvent.accept_candidate = "accept_candidate"
request_event_name RequestEvent.authorize_integration = "authorize_integration"
request_event_name RequestEvent.complete = "complete"
request_event_name RequestEvent.cancel = "cancel"

unfoldable pub run_event_name : RunEvent → String
run_event_name RunEvent.start = "start"
run_event_name RunEvent.pause = "pause"
run_event_name RunEvent.resume = "resume"
run_event_name RunEvent.block = "block"
run_event_name RunEvent.submit_candidate = "submit_candidate"
run_event_name RunEvent.reject_candidate = "reject_candidate"
run_event_name RunEvent.accept_candidate = "accept_candidate"
run_event_name RunEvent.authorize_integration = "authorize_integration"
run_event_name RunEvent.complete = "complete"
run_event_name RunEvent.cancel = "cancel"

abbrev invalid : RequestEvent → CoreResult RequestStatus
invalid event = err (invalid_transition "request" (request_event_name event))

unfoldable pub transition_request : RequestStatus → RequestEvent → CoreResult RequestStatus
transition_request RequestStatus.opened RequestEvent.assign = ok RequestStatus.assigned
transition_request RequestStatus.assigned RequestEvent.assign = ok RequestStatus.assigned
transition_request RequestStatus.assigned RequestEvent.start = ok RequestStatus.in_progress
transition_request RequestStatus.in_progress RequestEvent.start = ok RequestStatus.in_progress
transition_request RequestStatus.blocked RequestEvent.start = ok RequestStatus.in_progress
transition_request RequestStatus.changes_requested RequestEvent.start = ok RequestStatus.in_progress
transition_request RequestStatus.assigned RequestEvent.block = ok RequestStatus.blocked
transition_request RequestStatus.in_progress RequestEvent.block = ok RequestStatus.blocked
transition_request RequestStatus.blocked RequestEvent.block = ok RequestStatus.blocked
transition_request RequestStatus.changes_requested RequestEvent.block = ok RequestStatus.blocked
transition_request RequestStatus.assigned RequestEvent.submit_candidate =
    ok RequestStatus.candidate_ready
transition_request RequestStatus.in_progress RequestEvent.submit_candidate =
    ok RequestStatus.candidate_ready
transition_request RequestStatus.blocked RequestEvent.submit_candidate =
    ok RequestStatus.candidate_ready
transition_request RequestStatus.changes_requested RequestEvent.submit_candidate =
    ok RequestStatus.candidate_ready
transition_request RequestStatus.candidate_ready RequestEvent.submit_candidate =
    ok RequestStatus.candidate_ready
transition_request RequestStatus.candidate_ready RequestEvent.reject_candidate =
    ok RequestStatus.changes_requested
transition_request RequestStatus.changes_requested RequestEvent.reject_candidate =
    ok RequestStatus.changes_requested
transition_request RequestStatus.candidate_ready RequestEvent.accept_candidate =
    ok RequestStatus.accepted
transition_request RequestStatus.accepted RequestEvent.accept_candidate = ok RequestStatus.accepted
transition_request RequestStatus.accepted RequestEvent.authorize_integration =
    ok RequestStatus.integration_authorized
transition_request RequestStatus.integration_authorized RequestEvent.authorize_integration =
    ok RequestStatus.integration_authorized
transition_request RequestStatus.integration_authorized RequestEvent.complete =
    ok RequestStatus.completed
transition_request RequestStatus.completed RequestEvent.complete = ok RequestStatus.completed
transition_request RequestStatus.cancelled RequestEvent.cancel = ok RequestStatus.cancelled
transition_request RequestStatus.completed RequestEvent.cancel = invalid RequestEvent.cancel
transition_request state RequestEvent.cancel = ok RequestStatus.cancelled
transition_request current event = invalid event

abbrev invalid_run : RunEvent → CoreResult RunStatus
invalid_run event = err (invalid_transition "run" (run_event_name event))

unfoldable pub transition_run : RunStatus → RunEvent → CoreResult RunStatus
transition_run RunStatus.pending RunEvent.start = ok RunStatus.active
transition_run RunStatus.active RunEvent.start = ok RunStatus.active
transition_run RunStatus.paused RunEvent.resume = ok RunStatus.active
transition_run RunStatus.blocked RunEvent.resume = ok RunStatus.active
transition_run RunStatus.revision_requested RunEvent.resume = ok RunStatus.active
transition_run RunStatus.active RunEvent.resume = ok RunStatus.active
transition_run RunStatus.active RunEvent.pause = ok RunStatus.paused
transition_run RunStatus.paused RunEvent.pause = ok RunStatus.paused
transition_run RunStatus.active RunEvent.block = ok RunStatus.blocked
transition_run RunStatus.blocked RunEvent.block = ok RunStatus.blocked
transition_run RunStatus.active RunEvent.submit_candidate = ok RunStatus.awaiting_review
transition_run RunStatus.blocked RunEvent.submit_candidate = ok RunStatus.awaiting_review
transition_run RunStatus.awaiting_review RunEvent.submit_candidate = ok RunStatus.awaiting_review
transition_run RunStatus.revision_requested RunEvent.submit_candidate = ok RunStatus.awaiting_review
transition_run RunStatus.awaiting_review RunEvent.reject_candidate = ok RunStatus.revision_requested
transition_run RunStatus.revision_requested RunEvent.reject_candidate =
    ok RunStatus.revision_requested
transition_run RunStatus.awaiting_review RunEvent.accept_candidate = ok RunStatus.accepted
transition_run RunStatus.accepted RunEvent.accept_candidate = ok RunStatus.accepted
transition_run RunStatus.accepted RunEvent.authorize_integration = ok RunStatus.authorized
transition_run RunStatus.authorized RunEvent.authorize_integration = ok RunStatus.authorized
transition_run RunStatus.authorized RunEvent.complete = ok RunStatus.completed
transition_run RunStatus.completed RunEvent.complete = ok RunStatus.completed
transition_run RunStatus.cancelled RunEvent.cancel = ok RunStatus.cancelled
transition_run RunStatus.completed RunEvent.cancel = invalid_run RunEvent.cancel
transition_run state RunEvent.cancel = ok RunStatus.cancelled
transition_run current event = invalid_run event

pub actor_status_name : ActorStatus → String
actor_status_name ActorStatus.starting = "starting"
actor_status_name ActorStatus.healthy = "healthy"
actor_status_name ActorStatus.stale = "stale"
actor_status_name ActorStatus.revoked = "revoked"
actor_status_name ActorStatus.stopped = "stopped"

unfoldable pub transition_actor : ActorStatus → ActorStatus → CoreResult ActorStatus
transition_actor ActorStatus.starting ActorStatus.starting = ok ActorStatus.starting
transition_actor ActorStatus.healthy ActorStatus.healthy = ok ActorStatus.healthy
transition_actor ActorStatus.stale ActorStatus.stale = ok ActorStatus.stale
transition_actor ActorStatus.revoked ActorStatus.revoked = ok ActorStatus.revoked
transition_actor ActorStatus.stopped ActorStatus.stopped = ok ActorStatus.stopped
transition_actor ActorStatus.starting ActorStatus.healthy = ok ActorStatus.healthy
transition_actor ActorStatus.starting ActorStatus.revoked = ok ActorStatus.revoked
transition_actor ActorStatus.starting ActorStatus.stopped = ok ActorStatus.stopped
transition_actor ActorStatus.stale ActorStatus.healthy = ok ActorStatus.healthy
transition_actor ActorStatus.stale ActorStatus.revoked = ok ActorStatus.revoked
transition_actor ActorStatus.stale ActorStatus.stopped = ok ActorStatus.stopped
transition_actor ActorStatus.healthy ActorStatus.stale = ok ActorStatus.stale
transition_actor ActorStatus.healthy ActorStatus.revoked = ok ActorStatus.revoked
transition_actor ActorStatus.healthy ActorStatus.stopped = ok ActorStatus.stopped
transition_actor ActorStatus.revoked ActorStatus.stopped = ok ActorStatus.stopped
transition_actor current next = err (invalid_transition "actor" (actor_status_name next))

pub team_status_name : TeamStatus → String
team_status_name TeamStatus.active = "active"
team_status_name TeamStatus.paused = "paused"
team_status_name TeamStatus.closing = "closing"
team_status_name TeamStatus.closed = "closed"
team_status_name TeamStatus.retired = "retired"

unfoldable pub transition_team : TeamStatus → TeamStatus → CoreResult TeamStatus
transition_team TeamStatus.active TeamStatus.active = ok TeamStatus.active
transition_team TeamStatus.paused TeamStatus.paused = ok TeamStatus.paused
transition_team TeamStatus.closing TeamStatus.closing = ok TeamStatus.closing
transition_team TeamStatus.closed TeamStatus.closed = ok TeamStatus.closed
transition_team TeamStatus.retired TeamStatus.retired = ok TeamStatus.retired
transition_team TeamStatus.active TeamStatus.paused = ok TeamStatus.paused
transition_team TeamStatus.active TeamStatus.closing = ok TeamStatus.closing
transition_team TeamStatus.paused TeamStatus.active = ok TeamStatus.active
transition_team TeamStatus.paused TeamStatus.closing = ok TeamStatus.closing
transition_team TeamStatus.closing TeamStatus.closed = ok TeamStatus.closed
transition_team current next = err (invalid_transition "team" (team_status_name next))
