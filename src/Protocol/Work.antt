-- ===== src/Protocol/Work.antt =====
-- crates/agsv-protocol/src/model.rs: assignments, candidates, review facts, requests and runs.
use agent_supervisor.Common.{ℕ, Bool, Option, List, ℕ_discrete}
use agent_supervisor.Protocol.Ids.{
  WorkspaceId, TeamId, ActorProfileName, RunId, RequestId, MessageId, DecisionId, HandoffId, GitSha,
  PayloadDigest, Epoch,
}
use agent_supervisor.Protocol.Status.{RequestStatus, RunStatus}
use agent_supervisor.Protocol.Actor.{ActorRef}

pub record Assignment : Type 0 where
  pub actor : ActorRef
  pub epoch : Epoch

pub record Candidate : Type 0 where
  pub request_id : RequestId
  pub team_id : TeamId
  pub sha : GitSha
  pub created_by : ActorRef
  pub created_by_profile : Option ActorProfileName

pub data ReviewVerdict : Type 0 where
  accepted rejected : ReviewVerdict

pub record RequestSpecificationRef : Type 0 where
  pub message_id : MessageId
  pub payload_digest : PayloadDigest
  pub base_sha : GitSha

pub record ReviewDecisionRef : Type 0 where
  pub message_id : MessageId
  pub payload_digest : PayloadDigest
  pub decision_id : DecisionId
  pub candidate : Candidate
  pub verdict : ReviewVerdict
  pub reviewer : ActorRef
  pub policy_revision : Epoch

pub record IntegrationAuthorization : Type 0 where
  pub decision_id : DecisionId
  pub candidate : Candidate
  pub authorized_by : ActorRef

pub record HandoffOfferRef : Type 0 where
  pub message_id : MessageId
  pub payload_digest : PayloadDigest
  pub handoff_id : HandoffId
  pub request_id : RequestId
  pub from_team_id : TeamId
  pub to_team_id : TeamId
  pub candidate : Option Candidate

pub record Request : Type 0 where
  pub request_id : RequestId
  pub workspace_id : WorkspaceId
  pub team_id : TeamId
  pub team_epoch : Epoch
  pub run_id : RunId
  pub specification : RequestSpecificationRef
  pub status : RequestStatus
  pub assignment : Option Assignment
  pub candidate : Option Candidate
  pub decision : Option ReviewDecisionRef
  pub integration_authorization : Option IntegrationAuthorization
  pub rejection_count : ℕ
  pub fix_cycle_depth : ℕ
  pub candidate_history : List Candidate

pub record Run : Type 0 where
  pub run_id : RunId
  pub workspace_id : WorkspaceId
  pub team_id : TeamId
  pub team_epoch : Epoch
  pub request_id : RequestId
  pub status : RunStatus
  pub assignment : Option Assignment

unfoldable pub Candidate-discrete : Discrete Candidate
Candidate-discrete = hlevel ℕ_discrete

unfoldable pub OptionCandidate-discrete : Discrete (Option Candidate)
OptionCandidate-discrete = hlevel ℕ_discrete

abbrev pub is_accepted : ReviewVerdict → Bool
is_accepted ReviewVerdict.accepted = Bool.true
is_accepted ReviewVerdict.rejected = Bool.false
