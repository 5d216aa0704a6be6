-- ===== src/Protocol/Message.antt =====
-- crates/agsv-protocol/src/model.rs: the typed messages, their kinds, and what a kind means when a
-- team closes.
use agent_supervisor.Common.{ℕ, String, Bool, Option, List}
use agent_supervisor.Protocol.Ids.{
  TeamId, RequestId, MessageId, DecisionId, EvidenceId, HandoffId, GitSha, Epoch,
}
use agent_supervisor.Protocol.Actor.{ActorRef}
use agent_supervisor.Protocol.Work.{Candidate, ReviewVerdict, IntegrationAuthorization}

pub data EvidenceKind : Type 0 where
  git test review artifact log other : EvidenceKind

pub data DigestAlgorithm : Type 0 where
  sha256 blake3 : DigestAlgorithm

pub record EvidenceDigest : Type 0 where
  pub algorithm : DigestAlgorithm
  pub value : String

pub record Evidence : Type 0 where
  pub evidence_id : EvidenceId
  pub kind : EvidenceKind
  pub digest : EvidenceDigest
  pub reference : String
  pub summary : String

pub data RequestBaseSource : Type 0 where
  declared derived : RequestBaseSource

pub record ImplementationRequest : Type 0 where
  pub title : String
  pub instructions : String
  pub base_sha : GitSha
  pub base_source : RequestBaseSource
  pub acceptance_criteria : List String
  pub evidence_requirements : List EvidenceKind

pub record ProgressUpdate : Type 0 where
  pub summary : String
  pub percent_complete : Option ℕ
  pub evidence : List Evidence

pub record BlockerNotice : Type 0 where
  pub summary : String
  pub needs_primary : Bool
  pub evidence : List Evidence

pub record CandidateReady : Type 0 where
  pub candidate : Candidate
  pub summary : String
  pub evidence : List Evidence

pub record ReviewDecision : Type 0 where
  pub decision_id : DecisionId
  pub candidate : Candidate
  pub verdict : ReviewVerdict
  pub reviewer : ActorRef
  pub policy_revision : Epoch
  pub rationale : String
  pub evidence : List Evidence

pub record FixRequest : Type 0 where
  pub decision_id : DecisionId
  pub candidate : Candidate
  pub instructions : String

pub data QaOutcome : Type 0 where
  passed failed : QaOutcome

pub record QaResult : Type 0 where
  pub candidate : Candidate
  pub outcome : QaOutcome
  pub summary : String
  pub evidence : List Evidence

pub data RunControlAction : Type 0 where
  pause resume : RunControlAction

pub record PrimaryDirective : Type 0 where
  pub decision : String
  pub rationale : String

pub record ConsultationRequest : Type 0 where
  pub consultation_id : MessageId
  pub target_team_id : TeamId
  pub subject : String
  pub question : String
  pub evidence : List Evidence

pub record ConsultationResponse : Type 0 where
  pub consultation_id : MessageId
  pub responding_team_id : TeamId
  pub response : String
  pub evidence : List Evidence

pub record DependencyNotice : Type 0 where
  pub blocked_request_id : RequestId
  pub depends_on_request_id : RequestId
  pub provider_team_id : TeamId
  pub description : String

pub record ConflictNotice : Type 0 where
  pub other_team_id : TeamId
  pub resources : List String
  pub description : String

pub record HandoffOffer : Type 0 where
  pub handoff_id : HandoffId
  pub request_id : RequestId
  pub from_team_id : TeamId
  pub to_team_id : TeamId
  pub candidate : Option Candidate
  pub reason : String

pub record HandoffAcceptance : Type 0 where
  pub handoff_id : HandoffId
  pub request_id : RequestId
  pub from_team_id : TeamId
  pub to_team_id : TeamId
  pub accepted_by : ActorRef

pub record IntegrationComplete : Type 0 where
  pub decision_id : DecisionId
  pub candidate : Candidate
  pub evidence : List Evidence

-- `cancellation` holds the reason, `run_control` the action.
pub data Message : Type 0 where
  implementation_request : ImplementationRequest → Message
  progress : ProgressUpdate → Message
  blocker : BlockerNotice → Message
  candidate_ready : CandidateReady → Message
  review_decision : ReviewDecision → Message
  fix_request : FixRequest → Message
  qa_result : QaResult → Message
  integration_authorization : IntegrationAuthorization → Message
  cancellation : String → Message
  run_control : RunControlAction → Message
  directive : PrimaryDirective → Message
  consultation_request : ConsultationRequest → Message
  consultation_response : ConsultationResponse → Message
  dependency_notice : DependencyNotice → Message
  conflict_notice : ConflictNotice → Message
  handoff_offer : HandoffOffer → Message
  handoff_acceptance : HandoffAcceptance → Message
  integration_complete : IntegrationComplete → Message
