-- ===== src/Protocol/Delivery.antt =====
-- crates/agsv-protocol/src/model.rs: recipients, retirement, acknowledgements, the facts kept of a
-- message, audit events and the history checkpoint.
use agent_supervisor.Common.{
  ℕ, Bool, true, false, ◌&&◌, Option, ltb, ◌==◌, if◌then◌else◌, ◌≡◌, ◌↔◌, arith, ℕ_discrete,
}
use agent_supervisor.Common.Maps.{Key}
use agent_supervisor.Protocol.Ids.{
  WorkspaceId, TeamId, ActorId, RequestId, MessageId, DecisionId, GitSha, PayloadDigest, Epoch,
  TimestampMillis,
}
use agent_supervisor.Protocol.Actor.{ActorRef}
use agent_supervisor.Protocol.Work.{
  Candidate, ReviewDecisionRef, IntegrationAuthorization, HandoffOfferRef,
}
use agent_supervisor.Protocol.Message.{
  RequestBaseSource, QaOutcome, RunControlAction, HandoffAcceptance,
}
use agent_supervisor.Protocol.Kind.{MessageKind}

pub record ActorDeliveryRecipient : Type 0 where
  pub actor : ActorRef
  pub team_epoch : Epoch

pub data DeliveryRecipient : Type 0 where
  primary : DeliveryRecipient
  actor : ActorDeliveryRecipient → DeliveryRecipient

-- The derived order: `Primary` first, then by actor id, actor epoch and team epoch.
abbrev recipient_lt : DeliveryRecipient → DeliveryRecipient → Bool
recipient_lt DeliveryRecipient.primary DeliveryRecipient.primary = false
recipient_lt DeliveryRecipient.primary (DeliveryRecipient.actor b) = true
recipient_lt (DeliveryRecipient.actor a) DeliveryRecipient.primary = false
recipient_lt (DeliveryRecipient.actor a) (DeliveryRecipient.actor b) =
    if a.actor.actor_id == b.actor.actor_id
    then if a.actor.actor_epoch == b.actor.actor_epoch
      then ltb a.team_epoch b.team_epoch
      else ltb a.actor.actor_epoch b.actor.actor_epoch
    else ltb a.actor.actor_id b.actor.actor_id

abbrev recipient_eq : DeliveryRecipient → DeliveryRecipient → Bool
recipient_eq DeliveryRecipient.primary DeliveryRecipient.primary = true
recipient_eq DeliveryRecipient.primary (DeliveryRecipient.actor b) = false
recipient_eq (DeliveryRecipient.actor a) DeliveryRecipient.primary = false
recipient_eq (DeliveryRecipient.actor a) (DeliveryRecipient.actor b) =
    a.actor.actor_id == b.actor.actor_id
    && a.actor.actor_epoch == b.actor.actor_epoch
    && a.team_epoch == b.team_epoch

pub recipient_eq_iff : (a b : DeliveryRecipient) → (recipient_eq a b ≡ true) ↔ (a ≡ b)
recipient_eq_iff DeliveryRecipient.primary DeliveryRecipient.primary = ground arith
recipient_eq_iff DeliveryRecipient.primary (DeliveryRecipient.actor b) = ground arith
recipient_eq_iff (DeliveryRecipient.actor a) DeliveryRecipient.primary = ground arith
recipient_eq_iff (DeliveryRecipient.actor a) (DeliveryRecipient.actor b) = ground arith

instance abbrev pub recipient_key : Key DeliveryRecipient
recipient_key = record { lt = recipient_lt; eq = recipient_eq; eq_iff = recipient_eq_iff }

pub data DeliveryRetirementReason : Type 0 where
  team_closed : TeamId → Epoch → DeliveryRetirementReason
  team_generation_superseded : TeamId → Epoch → DeliveryRetirementReason

pub record Acknowledgement : Type 0 where
  pub workspace_id : WorkspaceId
  pub message_id : MessageId
  pub actor : ActorRef
  pub acknowledged_at : TimestampMillis

unfoldable pub Acknowledgement-discrete : Discrete Acknowledgement
Acknowledgement-discrete = hlevel ℕ_discrete

-- The text-free facts of an accepted message.
pub data CausalMessage : Type 0 where
  implementation_request : GitSha → RequestBaseSource → CausalMessage
  progress blocker cancellation directive : CausalMessage
  candidate_ready : Candidate → CausalMessage
  review_decision : ReviewDecisionRef → CausalMessage
  fix_request : DecisionId → Candidate → CausalMessage
  qa_result : Candidate → QaOutcome → CausalMessage
  integration_authorization : IntegrationAuthorization → CausalMessage
  run_control : RunControlAction → CausalMessage
  consultation_request : MessageId → TeamId → CausalMessage
  consultation_response : MessageId → TeamId → CausalMessage
  dependency_notice : RequestId → RequestId → TeamId → CausalMessage
  conflict_notice : TeamId → CausalMessage
  handoff_offer : HandoffOfferRef → CausalMessage
  handoff_acceptance : HandoffAcceptance → CausalMessage
  integration_complete : DecisionId → Candidate → CausalMessage

unfoldable pub CausalMessage-discrete : Discrete CausalMessage
CausalMessage-discrete = hlevel ℕ_discrete

pub data AuditEventKind : Type 0 where
  message_accepted : MessageId → MessageKind → Option PayloadDigest → AuditEventKind
  message_acknowledged : MessageId → ActorId → AuditEventKind

pub record AuditEvent : Type 0 where
  pub sequence : ℕ
  pub occurred_at : TimestampMillis
  pub team_id : Option TeamId
  pub team_epoch : Option Epoch
  pub kind : AuditEventKind

pub record HistoryCheckpoint : Type 0 where
  pub audit_event_count : ℕ
  pub audit_head_sha256 : Option PayloadDigest
  pub archived_delivery_count : ℕ
  pub archived_request_count : ℕ
  pub archived_run_count : ℕ
  pub archived_audit_event_count : ℕ
  pub archive_commit_count : ℕ
  pub archive_head_sha256 : Option PayloadDigest
