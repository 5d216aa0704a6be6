-- ===== src/Core/Dispatch.antt =====
-- crates/agsv-core/src/supervisor.rs: the facts kept of a message, and the handler of each kind.
use agent_supervisor.Common.{not, ◌&&◌, is_some, if◌then◌else◌}
use agent_supervisor.Common.Result.{ok, err}
use agent_supervisor.Common.Exec.{lift, asks, ◌>>=◌, ◌>>◌}
use agent_supervisor.Protocol.Ids.{MessageId, PayloadDigest}
use agent_supervisor.Protocol.Actor.{Actor}
use agent_supervisor.Protocol.Work.{RequestSpecificationRef, ReviewDecisionRef, HandoffOfferRef}
use agent_supervisor.Protocol.Message.{Message, ImplementationRequest, ReviewDecision, HandoffOffer}
use agent_supervisor.Protocol.Kind.{is_implementation_request}
use agent_supervisor.Protocol.Envelope.{Envelope}
use agent_supervisor.Protocol.Delivery.{CausalMessage}
use agent_supervisor.Core.Error.{CoreResult}
use agent_supervisor.Core.Transitions.{RequestEvent, RunEvent}
use agent_supervisor.Core.State.{Supervisor, Action}
use agent_supervisor.Core.Context.{
  require_primary, require_implementation, require_primary_target, request_context,
  ensure_candidate, ensure_current_assignment, ensure_assignee_target,
}
use agent_supervisor.Core.Coordination.{
  apply_consultation_request, apply_primary_directive, apply_consultation_response,
  apply_dependency_notice, apply_conflict_notice, apply_fix_request,
}
use agent_supervisor.Core.Lifecycle.{
  transition_context, apply_cancellation, apply_run_control, apply_integration_complete,
  apply_integration_authorization, apply_implementation_request,
}
use agent_supervisor.Core.Review.{apply_candidate, apply_review}
use agent_supervisor.Core.Handoff.{apply_handoff_offer, apply_handoff_acceptance}

abbrev specification_of :
    MessageId → PayloadDigest → ImplementationRequest → RequestSpecificationRef
specification_of id digest v = record {
  message_id = id;
  payload_digest = digest;
  base_sha = v.base_sha;
}

abbrev decision_of : MessageId → PayloadDigest → ReviewDecision → ReviewDecisionRef
decision_of id digest v = record {
  message_id = id;
  payload_digest = digest;
  decision_id = v.decision_id;
  candidate = v.candidate;
  verdict = v.verdict;
  reviewer = v.reviewer;
  policy_revision = v.policy_revision;
}

abbrev offer_of : MessageId → PayloadDigest → HandoffOffer → HandoffOfferRef
offer_of id digest v = record {
  message_id = id;
  payload_digest = digest;
  handoff_id = v.handoff_id;
  request_id = v.request_id;
  from_team_id = v.from_team_id;
  to_team_id = v.to_team_id;
  candidate = v.candidate;
}

unfoldable pub causal_message : MessageId → PayloadDigest → Message → CausalMessage
causal_message id digest (Message.implementation_request v) =
    CausalMessage.implementation_request v.base_sha v.base_source
causal_message id digest (Message.progress v) = CausalMessage.progress
causal_message id digest (Message.blocker v) = CausalMessage.blocker
causal_message id digest (Message.candidate_ready v) = CausalMessage.candidate_ready v.candidate
causal_message id digest (Message.review_decision v) =
    CausalMessage.review_decision (decision_of id digest v)
causal_message id digest (Message.fix_request v) =
    CausalMessage.fix_request v.decision_id v.candidate
causal_message id digest (Message.qa_result v) = CausalMessage.qa_result v.candidate v.outcome
causal_message id digest (Message.integration_authorization v) =
    CausalMessage.integration_authorization v
causal_message id digest (Message.cancellation reason) = CausalMessage.cancellation
causal_message id digest (Message.run_control action) = CausalMessage.run_control action
causal_message id digest (Message.directive v) = CausalMessage.directive
causal_message id digest (Message.consultation_request v) =
    CausalMessage.consultation_request v.consultation_id v.target_team_id
causal_message id digest (Message.consultation_response v) =
    CausalMessage.consultation_response v.consultation_id v.responding_team_id
causal_message id digest (Message.dependency_notice v) =
    CausalMessage.dependency_notice v.blocked_request_id v.depends_on_request_id v.provider_team_id
causal_message id digest (Message.conflict_notice v) = CausalMessage.conflict_notice v.other_team_id
causal_message id digest (Message.handoff_offer v) =
    CausalMessage.handoff_offer (offer_of id digest v)
causal_message id digest (Message.handoff_acceptance v) = CausalMessage.handoff_acceptance v
causal_message id digest (Message.integration_complete v) =
    CausalMessage.integration_complete v.decision_id v.candidate

-- The match of `apply_message`.
unfoldable pub handle : Envelope → Actor → PayloadDigest → Message → Action Unit
handle e actor digest (Message.implementation_request v) =
    apply_implementation_request e actor (specification_of e.message_id digest v)
handle e actor digest (Message.progress v) = do
  lift (require_implementation actor "report progress")
  lift (require_primary_target e.target)
  asks (λ s. ensure_current_assignment s e actor)
  transition_context e RequestEvent.start RunEvent.resume
handle e actor digest (Message.blocker v) = do
  lift (require_implementation actor "report blocker")
  lift (require_primary_target e.target)
  asks (λ s. ensure_current_assignment s e actor)
  transition_context e RequestEvent.block RunEvent.block
handle e actor digest (Message.candidate_ready v) = do
  lift (require_implementation actor "submit candidate")
  lift (require_primary_target e.target)
  asks (λ s. ensure_current_assignment s e actor)
  apply_candidate e actor v.candidate
handle e actor digest (Message.review_decision v) = do
  asks (λ s. require_primary s actor "submit review decision")
  apply_review e actor (decision_of e.message_id digest v)
handle e actor digest (Message.fix_request v) = asks (λ s. apply_fix_request s e actor v)
handle e actor digest (Message.qa_result v) = do
  lift (require_implementation actor "report QA")
  lift (require_primary_target e.target)
  asks (λ s. ensure_current_assignment s e actor)
  request ← asks (λ s. request_context s e)
  lift (ensure_candidate request v.candidate)
handle e actor digest (Message.integration_authorization v) = do
  asks (λ s. require_primary s actor "authorize integration")
  asks (λ s. ensure_assignee_target s e)
  apply_integration_authorization e actor v
handle e actor digest (Message.cancellation reason) = apply_cancellation e actor
handle e actor digest (Message.run_control action) = apply_run_control e actor action
handle e actor digest (Message.directive v) = asks (λ s. apply_primary_directive s e actor)
handle e actor digest (Message.consultation_request v) =
    asks (λ s. apply_consultation_request s e actor v)
handle e actor digest (Message.consultation_response v) =
    asks (λ s. apply_consultation_response s e actor v)
handle e actor digest (Message.dependency_notice v) =
    asks (λ s. apply_dependency_notice s e actor v)
handle e actor digest (Message.conflict_notice v) = asks (λ s. apply_conflict_notice s e actor v)
handle e actor digest (Message.handoff_offer v) = do
  lift (require_implementation actor "offer handoff")
  asks (λ s. ensure_current_assignment s e actor)
  apply_handoff_offer e actor (offer_of e.message_id digest v)
handle e actor digest (Message.handoff_acceptance v) = do
  lift (require_implementation actor "accept handoff")
  apply_handoff_acceptance e actor v
handle e actor digest (Message.integration_complete v) = apply_integration_complete e actor v

-- A message about a request, other than the one that creates it, needs the request's context.
unfoldable pub check_context : Supervisor → Envelope → CoreResult (Unit {0})
check_context s e =
    if is_some e.request_id && not (is_implementation_request e.message)
    then elim (request_context s e) [ ok q ↦ ok tt | err x ↦ err x ]
    else ok tt

unfoldable pub apply_message : Envelope → Actor → PayloadDigest → Action Unit
apply_message e actor digest = do asks (λ s. check_context s e); handle e actor digest e.message
