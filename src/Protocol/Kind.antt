-- ===== src/Protocol/Kind.antt =====
-- crates/agsv-protocol/src/model.rs: `MessageKind`, its disposition when a team closes, and the
-- context and the candidate of a message.
use agent_supervisor.Common.{Bool, true, false, Option, none, some}
use agent_supervisor.Protocol.Work.{Candidate}
use agent_supervisor.Protocol.Message.{Message}

pub data MessageKind : Type 0 where
  implementation_request progress blocker candidate_ready review_decision : MessageKind
  fix_request qa_result integration_authorization cancellation run_control : MessageKind
  directive consultation_request consultation_response dependency_notice : MessageKind
  conflict_notice handoff_offer handoff_acceptance integration_complete : MessageKind

pub data TeamCloseDeliveryDisposition : Type 0 where
  obsolete_outcome request_lifecycle action_required : TeamCloseDeliveryDisposition

unfoldable pub MessageKind-discrete : Discrete MessageKind
MessageKind-discrete = hlevel

abbrev pub team_close_disposition : MessageKind → TeamCloseDeliveryDisposition
team_close_disposition MessageKind.progress = TeamCloseDeliveryDisposition.obsolete_outcome
team_close_disposition MessageKind.blocker = TeamCloseDeliveryDisposition.obsolete_outcome
team_close_disposition MessageKind.candidate_ready = TeamCloseDeliveryDisposition.obsolete_outcome
team_close_disposition MessageKind.review_decision = TeamCloseDeliveryDisposition.obsolete_outcome
team_close_disposition MessageKind.qa_result = TeamCloseDeliveryDisposition.obsolete_outcome
team_close_disposition MessageKind.integration_authorization =
    TeamCloseDeliveryDisposition.obsolete_outcome
team_close_disposition MessageKind.cancellation = TeamCloseDeliveryDisposition.obsolete_outcome
team_close_disposition MessageKind.consultation_response =
    TeamCloseDeliveryDisposition.obsolete_outcome
team_close_disposition MessageKind.handoff_acceptance =
    TeamCloseDeliveryDisposition.obsolete_outcome
team_close_disposition MessageKind.integration_complete =
    TeamCloseDeliveryDisposition.obsolete_outcome
team_close_disposition MessageKind.implementation_request =
    TeamCloseDeliveryDisposition.request_lifecycle
team_close_disposition MessageKind.fix_request = TeamCloseDeliveryDisposition.request_lifecycle
team_close_disposition MessageKind.run_control = TeamCloseDeliveryDisposition.request_lifecycle
team_close_disposition MessageKind.directive = TeamCloseDeliveryDisposition.action_required
team_close_disposition MessageKind.consultation_request =
    TeamCloseDeliveryDisposition.action_required
team_close_disposition MessageKind.dependency_notice = TeamCloseDeliveryDisposition.action_required
team_close_disposition MessageKind.conflict_notice = TeamCloseDeliveryDisposition.action_required
team_close_disposition MessageKind.handoff_offer = TeamCloseDeliveryDisposition.action_required

abbrev pub is_obsolete_outcome : TeamCloseDeliveryDisposition → Bool
is_obsolete_outcome TeamCloseDeliveryDisposition.obsolete_outcome = true
is_obsolete_outcome _ = false

abbrev pub is_request_lifecycle : TeamCloseDeliveryDisposition → Bool
is_request_lifecycle TeamCloseDeliveryDisposition.request_lifecycle = true
is_request_lifecycle _ = false

-- `Message::kind`
abbrev pub kind_of : Message → MessageKind
kind_of (Message.implementation_request _) = MessageKind.implementation_request
kind_of (Message.progress _) = MessageKind.progress
kind_of (Message.blocker _) = MessageKind.blocker
kind_of (Message.candidate_ready _) = MessageKind.candidate_ready
kind_of (Message.review_decision _) = MessageKind.review_decision
kind_of (Message.fix_request _) = MessageKind.fix_request
kind_of (Message.qa_result _) = MessageKind.qa_result
kind_of (Message.integration_authorization _) = MessageKind.integration_authorization
kind_of (Message.cancellation _) = MessageKind.cancellation
kind_of (Message.run_control _) = MessageKind.run_control
kind_of (Message.directive _) = MessageKind.directive
kind_of (Message.consultation_request _) = MessageKind.consultation_request
kind_of (Message.consultation_response _) = MessageKind.consultation_response
kind_of (Message.dependency_notice _) = MessageKind.dependency_notice
kind_of (Message.conflict_notice _) = MessageKind.conflict_notice
kind_of (Message.handoff_offer _) = MessageKind.handoff_offer
kind_of (Message.handoff_acceptance _) = MessageKind.handoff_acceptance
kind_of (Message.integration_complete _) = MessageKind.integration_complete

-- Whether the message needs a request and a run beside it.
abbrev pub requires_request_context : Message → Bool
requires_request_context (Message.directive _) = false
requires_request_context (Message.consultation_request _) = false
requires_request_context (Message.consultation_response _) = false
requires_request_context (Message.conflict_notice _) = false
requires_request_context _ = true

-- `Message::candidate`
abbrev pub candidate_of : Message → Option Candidate
candidate_of (Message.candidate_ready v) = some v.candidate
candidate_of (Message.review_decision v) = some v.candidate
candidate_of (Message.fix_request v) = some v.candidate
candidate_of (Message.qa_result v) = some v.candidate
candidate_of (Message.integration_authorization v) = some v.candidate
candidate_of (Message.integration_complete v) = some v.candidate
candidate_of (Message.handoff_offer v) = v.candidate
candidate_of _ = none

abbrev pub is_directive : Message → Bool
is_directive (Message.directive _) = true
is_directive _ = false

abbrev pub is_implementation_request : Message → Bool
is_implementation_request (Message.implementation_request _) = true
is_implementation_request _ = false

abbrev pub kind_is_implementation_request : MessageKind → Bool
kind_is_implementation_request MessageKind.implementation_request = true
kind_is_implementation_request _ = false
