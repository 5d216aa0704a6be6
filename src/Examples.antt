-- ===== src/Examples.antt =====
-- A small workspace with one Primary, one team and one executor, and runs of the operations on it.
use agent_supervisor.Common.{◌≡◌, subst, refl, true, none, some, [], ◌∷◌, arith, ◌⊎◌}
use agent_supervisor.Common.Result.{ok, err}
use agent_supervisor.Common.Maps.{nat_key, lookup}
use agent_supervisor.Common.Exec.{continue}
use agent_supervisor.Common.Returns.{Returns}
use agent_supervisor.Protocol.Ids.{ActorId}
use agent_supervisor.Protocol.Status.{ActorStatus, TeamStatus, RequestStatus, RunStatus}
use agent_supervisor.Protocol.Actor.{ActorRole, Actor, Team, has_capability}
use agent_supervisor.Protocol.Message.{Message}
use agent_supervisor.Protocol.Payload.{validate_message}
use agent_supervisor.Protocol.Envelope.{Envelope, MessageTarget, validate_envelope}
use agent_supervisor.Protocol.Delivery.{Acknowledgement}
use agent_supervisor.Core.Error.{CoreError, invalid_transition}
use agent_supervisor.Core.Transitions.{
  RequestEvent, RunEvent, transition_request, transition_run, run_event_name,
}
use agent_supervisor.Core.Transitions.Pairing.{
  Paired, run_status_matches_request, Paired-matches, Paired-refused,
}
use agent_supervisor.Core.Transitions.Journey.{live, live_terminal, live-completed, IsSubsequence}
use agent_supervisor.Core.State.{Supervisor, Codec, new, healthy_actor}
use agent_supervisor.Core.Context.{authorize_envelope}
use agent_supervisor.Core.Recipients.{delivery_recipient_plan}
use agent_supervisor.Core.Coordination.{apply_primary_directive}
use agent_supervisor.Core.Dispatch.{apply_message, check_context, handle}
use agent_supervisor.Core.Audit.{ensure_audit_capacity}
use agent_supervisor.Protocol.Ids.{RequestId}
use agent_supervisor.Protocol.Message.{RunControlAction}
use agent_supervisor.Protocol.Work.{
  Request, Run, Candidate, ReviewVerdict, ReviewDecisionRef, IntegrationAuthorization,
}
use agent_supervisor.Core.Lifecycle.{
  transition_context, apply_run_control, apply_integration_authorization,
}
use agent_supervisor.Core.Review.{apply_candidate, apply_review}
use agent_supervisor.Core.Links.{
  Link, Linked, transition_context-Linked, apply_candidate-Linked, apply_review-Linked,
  apply_run_control-Linked, apply_integration_authorization-Linked,
}
use agent_supervisor.Core.Frame.{Frame, apply_message-Frame}
use agent_supervisor.Core.Registry.{activate_primary, set_actor_status}
use agent_supervisor.Core.Registry.Fence.{Fenced, activate_primary-Fenced, set_actor_status-Fenced}
use agent_supervisor.Core.Registry.Lease.{Leased, activate_primary-Leased, set_actor_status-Leased}
use agent_supervisor.Core.Apply.{
  ApplyOutcome, apply, accept, validate_envelope_quota, digest_message, plan_or_refuse,
}
use agent_supervisor.Core.Accept.{apply-rolls_back}
use agent_supervisor.Core.Accept.Retry.{Copy, apply-retry}
use agent_supervisor.Core.Accept.Once.{Traffic, apply-once}
use agent_supervisor.Core.Accept.Authority.{Authority, applied-Authority}
use agent_supervisor.Core.Accept.Recorded.{Audited, Posted, applied-Audited, applied-Posted}
use agent_supervisor.Core.Acknowledge.{AckOutcome, acknowledge}
use agent_supervisor.Core.Acknowledge.Receipt.{acknowledge-rolls_back}

-- A codec for which every message is short, and has the digest 0.
abbrev pub codec : Codec
codec = record {
  envelope_bytes = λ e. some 100;
  message_digest = λ m. some 0;
  audit_digest = λ a. a.sequence;
}

abbrev pub lead : Actor
lead = healthy_actor 1 1 none ActorRole.primary none 1

abbrev pub worker : Actor
worker = healthy_actor 1 2 (some 7) ActorRole.implementation none 1

abbrev pub crew : Team
crew = record {
  team_id = 7;
  workspace_id = 1;
  epoch = 1;
  status = TeamStatus.active;
  actors = 2 ∷ [];
  profile = none;
}

abbrev pub workspace : Supervisor
unfolding new
workspace = record (new 1 1) {
  active_primary = some 1;
  actors = (1, lead) ∷ (2, worker) ∷ [];
  teams = (7, crew) ∷ [];
}

-- The Primary directs the executor.
abbrev pub order : Envelope
order = record {
  header = record {
    version = 1;
    message_id = 10;
    workspace_id = 1;
    sender = record { actor_id = 1; actor_epoch = 1 };
    target = MessageTarget.actor 2;
    team_id = some 7;
    run_id = none;
    request_id = none;
    policy_revision = 1;
    primary_epoch = 1;
    team_epoch = some 1;
    assignment_epoch = none;
    sent_at = 5;
  };
  message = Message.directive (record { decision = "go"; rationale = "now" });
}

abbrev pub ordered : Supervisor
ordered = (apply codec order workspace).1

accepts : apply codec order workspace ≡ (ok ApplyOutcome.applied, ordered)
unfolding apply continue validate_envelope_quota validate_envelope validate_message workspace
    digest_message lookup accept ensure_audit_capacity authorize_envelope plan_or_refuse
    delivery_recipient_plan apply_message check_context handle apply_primary_directive
    has_capability
accepts = refl

repeats : apply codec order ordered ≡ (ok ApplyOutcome.duplicate, ordered)
repeats = apply-retry codec order workspace ordered accepts

apply-retry_example : apply codec order ordered ≡ (ok ApplyOutcome.duplicate, ordered)
apply-retry_example = apply-retry codec order workspace ordered accepts

-- The executor answers, and the order comes again.
abbrev answer : Acknowledgement
answer = record {
  message_id = 10;
  workspace_id = 1;
  actor = record { actor_id = 2; actor_epoch = 1 };
  acknowledged_at = 6;
}

abbrev answered : Supervisor
answered = (acknowledge codec answer ordered).1

answers : acknowledge codec answer ordered ≡ (ok AckOutcome.acknowledged, answered)
unfolding apply continue validate_envelope_quota validate_envelope validate_message workspace
    digest_message lookup accept ensure_audit_capacity authorize_envelope plan_or_refuse
    delivery_recipient_plan apply_message check_context handle apply_primary_directive
    has_capability acknowledge agent_supervisor.Core.Apply.record_accepted
    agent_supervisor.Core.Observe.record_accepted_message_observability
    agent_supervisor.Core.Mailbox.retire_fully_acknowledged agent_supervisor.Core.Audit.append_audit
    agent_supervisor.Core.Observe.observe_accepted agent_supervisor.Common.Maps.map_values
    agent_supervisor.Common.Maps.insert agent_supervisor.Common.Maps.set_insert
    agent_supervisor.Common.Maps.contains_key
    agent_supervisor.Core.Waivers.initial_undeliverable_recipients agent_supervisor.Common.eqb
    agent_supervisor.Protocol.Actor.ActorRef-discrete agent_supervisor.Common.ℕ_discrete
    agent_supervisor.Common.Maps.contains agent_supervisor.Core.Recipients.target_matches
answers = refl

repeats_later : apply codec order answered ≡ (ok ApplyOutcome.duplicate, answered)
unfolding apply continue validate_envelope_quota validate_envelope validate_message workspace
    digest_message lookup accept ensure_audit_capacity authorize_envelope plan_or_refuse
    delivery_recipient_plan apply_message check_context handle apply_primary_directive
    has_capability acknowledge agent_supervisor.Core.Apply.record_accepted
    agent_supervisor.Core.Observe.record_accepted_message_observability
    agent_supervisor.Core.Mailbox.retire_fully_acknowledged agent_supervisor.Core.Audit.append_audit
    agent_supervisor.Core.Observe.observe_accepted agent_supervisor.Common.Maps.map_values
    agent_supervisor.Common.Maps.insert agent_supervisor.Common.Maps.set_insert
    agent_supervisor.Common.Maps.contains_key
    agent_supervisor.Core.Waivers.initial_undeliverable_recipients agent_supervisor.Common.eqb
    agent_supervisor.Protocol.Actor.ActorRef-discrete agent_supervisor.Common.ℕ_discrete
    agent_supervisor.Common.Maps.contains agent_supervisor.Core.Recipients.target_matches
    agent_supervisor.Core.Acknowledge.record_ack agent_supervisor.Common.Maps.update
    agent_supervisor.Core.Mailbox.retire_delivery agent_supervisor.Core.Apply.classify_retry
    agent_supervisor.Core.Apply.is_same_message
    agent_supervisor.Protocol.Envelope.EnvelopeHeader-discrete
    agent_supervisor.Protocol.Kind.MessageKind-discrete
    agent_supervisor.Protocol.Delivery.CausalMessage-discrete
    agent_supervisor.Core.Observe.record_activity
repeats_later = refl

apply-once_example : Copy codec order order ApplyOutcome.duplicate answered answered
apply-once_example =
    apply-once codec order order workspace ordered answered answered ApplyOutcome.duplicate accepts
      (Traffic.acknowledging answer (Traffic.applying order Traffic.quiet repeats) answers) refl
      repeats_later

applied-Authority_example : (sender : Actor) × Authority order workspace sender
applied-Authority_example = applied-Authority codec order workspace ordered accepts

applied-Audited_example : Audited codec workspace ordered
applied-Audited_example = applied-Audited codec order workspace ordered accepts

applied-Posted_example : Posted order workspace ordered
applied-Posted_example = applied-Posted codec order workspace ordered accepts

-- The same order of an earlier Primary.
abbrev pub stale_order : Envelope
stale_order = record order { header = record order.header { primary_epoch = 3 } }

refuses : apply codec stale_order workspace ≡ (err (CoreError.stale_primary_epoch 1 3), workspace)
unfolding apply continue validate_envelope_quota validate_envelope validate_message workspace
    digest_message lookup accept ensure_audit_capacity authorize_envelope
refuses = refl

apply-rolls_back_example : workspace ≡ workspace
apply-rolls_back_example =
    apply-rolls_back codec stale_order workspace workspace (CoreError.stale_primary_epoch 1 3)
      refuses

apply_message-Frame_example :
    Returns workspace (λ u t. Frame workspace t) (apply_message order lead 0 workspace)
apply_message-Frame_example = apply_message-Frame order lead 0 workspace refl

-- An answer to a message that nobody sent.
abbrev pub lost_answer : Acknowledgement
lost_answer = record {
  workspace_id = 1;
  message_id = 99;
  actor = record { actor_id = 2; actor_epoch = 1 };
  acknowledged_at = 6;
}

refuses_answer :
    acknowledge codec lost_answer workspace ≡ (err CoreError.unknown_message, workspace)
unfolding acknowledge continue workspace lookup
refuses_answer = refl

acknowledge-rolls_back_example : workspace ≡ workspace
acknowledge-rolls_back_example =
    acknowledge-rolls_back codec lost_answer workspace workspace CoreError.unknown_message
      refuses_answer

-- The lease of the workspace.
workspace-Keyed : (id : ActorId) (a : Actor) → lookup id workspace.actors ≡ some a → a.actor_id ≡ id
unfolding workspace lookup
workspace-Keyed id a h = ground arith

workspace-Leased : Leased workspace
unfolding workspace lookup has_capability
workspace-Leased = record { keyed = workspace-Keyed; held = λ id h. (lead, ground arith, refl) }

activate_primary-Leased_example :
    Returns workspace (λ r t. Leased t) (activate_primary 3 ActorRole.primary none workspace)
activate_primary-Leased_example =
    activate_primary-Leased 3 ActorRole.primary none workspace workspace-Leased

set_actor_status-Leased_example :
    Returns workspace
      (λ u t. Leased t)
      (set_actor_status (record { actor_id = 1; actor_epoch = 1 }) ActorStatus.stale workspace)
set_actor_status-Leased_example =
    set_actor_status-Leased (record { actor_id = 1; actor_epoch = 1 }) ActorStatus.stale workspace
      workspace-Leased

-- A candidate arrives after a rejection.
Paired-matches_example :
    run_status_matches_request RunStatus.awaiting_review RequestStatus.candidate_ready ≡ true
unfolding transition_request transition_run run_event_name
Paired-matches_example =
    Paired-matches Paired.candidate RequestStatus.changes_requested RequestStatus.candidate_ready
      RunStatus.revision_requested RunStatus.awaiting_review refl refl refl

-- A blocker arrives after a rejection.
Paired-refused_example :
    (RunStatus.revision_requested ≡ RunStatus.paused)
    ⊎ ((RequestStatus.changes_requested ≡ RequestStatus.changes_requested)
        × (RunEvent.block ≡ RunEvent.block))
unfolding transition_request transition_run run_event_name
Paired-refused_example =
    Paired-refused Paired.blocker RequestStatus.changes_requested RequestStatus.blocked
      RunStatus.revision_requested (invalid_transition "run" "block") refl refl refl

-- The shortest way to completion.
live-completed_example :
    IsSubsequence
      (RequestEvent.assign ∷ RequestEvent.submit_candidate ∷ RequestEvent.accept_candidate
        ∷ RequestEvent.authorize_integration ∷ RequestEvent.complete ∷ [])
      (RequestEvent.assign ∷ RequestEvent.start ∷ RequestEvent.submit_candidate
        ∷ RequestEvent.accept_candidate ∷ RequestEvent.authorize_integration ∷ RequestEvent.complete
        ∷ [])
unfolding live transition_request
live-completed_example =
    live-completed
      (RequestEvent.assign ∷ RequestEvent.start ∷ RequestEvent.submit_candidate
        ∷ RequestEvent.accept_candidate ∷ RequestEvent.authorize_integration ∷ RequestEvent.complete
        ∷ [])
      refl

live_terminal_example :
    live RequestStatus.cancelled (RequestEvent.start ∷ RequestEvent.complete ∷ [])
    ≡ RequestStatus.cancelled
live_terminal_example =
    live_terminal RequestStatus.cancelled (RequestEvent.start ∷ RequestEvent.complete ∷ []) refl

-- A request in progress and its run.
abbrev pub busy_request : Request
busy_request = record {
  request_id = 20;
  workspace_id = 1;
  team_id = 7;
  team_epoch = 1;
  run_id = 30;
  specification = record { message_id = 5; payload_digest = 0; base_sha = 4 };
  status = RequestStatus.in_progress;
  assignment = some (record { actor = record { actor_id = 2; actor_epoch = 1 }; epoch = 1 });
  candidate = none;
  decision = none;
  integration_authorization = none;
  rejection_count = 0;
  fix_cycle_depth = 0;
  candidate_history = [];
}

abbrev pub busy_run : Run
busy_run = record {
  run_id = 30;
  workspace_id = 1;
  team_id = 7;
  team_epoch = 1;
  request_id = 20;
  status = RunStatus.active;
  assignment = some (record { actor = record { actor_id = 2; actor_epoch = 1 }; epoch = 1 });
}

abbrev pub busy : Supervisor
unfolding workspace
busy = record workspace { requests = (20, busy_request) ∷ []; runs = (30, busy_run) ∷ [] }

the_busy_one :
    (id : RequestId) (q : Request)
    → lookup id ((20, busy_request) ∷ []) ≡ some q
    → (20 ≡ id) × (busy_request ≡ q)
unfolding lookup
the_busy_one id q h = ground arith

busy-Link : Link ((30, busy_run) ∷ []) 20 busy_request
unfolding lookup
busy-Link = record { run = busy_run; found = refl; back = refl; own = refl; matches = refl }

busy-Linked : Linked busy.requests busy.runs
unfolding busy
busy-Linked id q h =
    let (there, it) = the_busy_one id q h in
    subst (λ x. Link ((30, busy_run) ∷ []) x q) there
      (subst (λ x. Link ((30, busy_run) ∷ []) 20 x) it busy-Link)

-- A message of the executor about the request.
abbrev pub report : Envelope
report = record {
  header = record order.header {
    message_id = 11;
    sender = record { actor_id = 2; actor_epoch = 1 };
    target = MessageTarget.primary;
    run_id = some 30;
    request_id = some 20;
    assignment_epoch = some 1;
  };
  message =
      Message.progress (record { summary = "half"; percent_complete = some 50; evidence = [] });
}

abbrev pub commit : Candidate
commit = record {
  request_id = 20;
  team_id = 7;
  sha = 8;
  created_by = record { actor_id = 2; actor_epoch = 1 };
  created_by_profile = none;
}

abbrev pub rejection : ReviewDecisionRef
rejection = record {
  message_id = 12;
  payload_digest = 0;
  decision_id = 3;
  candidate = commit;
  verdict = ReviewVerdict.rejected;
  reviewer = record { actor_id = 1; actor_epoch = 1 };
  policy_revision = 1;
}

abbrev pub permission : IntegrationAuthorization
permission = record {
  decision_id = 3;
  candidate = commit;
  authorized_by = record { actor_id = 1; actor_epoch = 1 };
}

transition_context-Linked_example :
    Returns busy
      (λ u t. Linked t.requests t.runs)
      (transition_context report RequestEvent.start RunEvent.resume busy)
transition_context-Linked_example =
    transition_context-Linked Paired.progress report busy busy-Linked

apply_candidate-Linked_example :
    Returns busy (λ u t. Linked t.requests t.runs) (apply_candidate report worker commit busy)
apply_candidate-Linked_example = apply_candidate-Linked report worker commit busy busy-Linked

apply_review-Linked_example :
    Returns busy (λ u t. Linked t.requests t.runs) (apply_review report lead rejection busy)
apply_review-Linked_example = apply_review-Linked report lead rejection busy busy-Linked

apply_run_control-Linked_example :
    Returns busy
      (λ u t. Linked t.requests t.runs)
      (apply_run_control report lead RunControlAction.pause busy)
apply_run_control-Linked_example =
    apply_run_control-Linked report lead RunControlAction.pause busy busy-Linked

apply_integration_authorization-Linked_example :
    Returns busy
      (λ u t. Linked t.requests t.runs)
      (apply_integration_authorization report lead permission busy)
apply_integration_authorization-Linked_example =
    apply_integration_authorization-Linked report lead permission busy busy-Linked

activate_primary-Fenced_example :
    Returns workspace
      (λ r t. Fenced workspace t)
      (activate_primary 3 ActorRole.primary none workspace)
activate_primary-Fenced_example = activate_primary-Fenced 3 ActorRole.primary none workspace

set_actor_status-Fenced_example :
    Returns workspace
      (λ u t. Fenced workspace t)
      (set_actor_status (record { actor_id = 1; actor_epoch = 1 }) ActorStatus.stale workspace)
set_actor_status-Fenced_example =
    set_actor_status-Fenced (record { actor_id = 1; actor_epoch = 1 }) ActorStatus.stale workspace
