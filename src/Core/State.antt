-- ===== src/Core/State.antt =====
-- crates/agsv-core/src/supervisor.rs: the state of the aggregate, and the reads that the
-- operations share.
use agent_supervisor.Common.{
  ℕ, Bool, true, not, ◌&&◌, Option, none, some, List, [], ◌∷◌, ltb, ◌==◌, is_some_and,
  if◌then◌else◌, ◌≡◌, ◌↔◌, arith, ◌++◌,
}
use agent_supervisor.Common.Maps.{Map, Key, nat_key, lookup, set_insert, contains}
use agent_supervisor.Common.Result.{ok, ok_or, fail_if, ◌>>=◌, ◌>>◌}
use agent_supervisor.Common.Exec.{Exec}
use agent_supervisor.Protocol.Ids.{
  WorkspaceId, TeamId, ActorId, RunId, RequestId, MessageId, HandoffId, PayloadDigest, Epoch,
  initial, checked_next,
}
use agent_supervisor.Protocol.Actor.{ActorRef, ActorRole, ActorProfileSnapshot, Actor, Team}
use agent_supervisor.Protocol.Status.{ActorStatus}
use agent_supervisor.Protocol.Work.{HandoffOfferRef, Request, Run}
use agent_supervisor.Protocol.Message.{Message}
use agent_supervisor.Protocol.Kind.{MessageKind}
use agent_supervisor.Protocol.Envelope.{EnvelopeHeader, Envelope}
use agent_supervisor.Protocol.Delivery.{
  DeliveryRecipient, DeliveryRetirementReason, Acknowledgement, CausalMessage, AuditEvent,
  HistoryCheckpoint,
}
use agent_supervisor.Core.Error.{CoreError, CoreResult}

pub record DeliveryRecord : Type 0 where
  pub envelope : EnvelopeHeader
  pub message_kind : MessageKind
  pub payload_digest : PayloadDigest
  pub causal : CausalMessage
  pub required_recipients : List DeliveryRecipient
  pub acknowledgements : Map DeliveryRecipient Acknowledgement
  pub undeliverable_recipients : Map DeliveryRecipient DeliveryRetirementReason
  pub retirement_reason : Option DeliveryRetirementReason
  pub retired : Bool

pub record PendingHandoff : Type 0 where
  pub offer : HandoffOfferRef
  pub offered_by : ActorRef
  pub assignment_epoch : Epoch

pub record PendingBulkContent : Type 0 where
  pub message_id : MessageId
  pub payload_digest : PayloadDigest
  pub message : Message

pub record ActorGenerationAnchor : Type 0 where
  pub actor : ActorRef
  pub team_id : Option TeamId
  pub team_epoch : Option Epoch

pub record CompletedAssignmentCredit : Type 0 where
  pub request_id : RequestId
  pub actor : ActorRef
  pub team_id : TeamId
  pub team_epoch : Epoch

pub record PendingObservability : Type 0 where
  pub activity_team_ids : List TeamId
  pub epoch_roll_team_ids : List TeamId
  pub actor_generation_keys : List ActorRef
  pub actor_generation_anchors : List ActorGenerationAnchor
  pub completed_assignments : List CompletedAssignmentCredit

-- A hash chain's length and head, which the aggregate carries unchanged.
pub record ChainCheckpoint : Type 0 where
  pub count : ℕ
  pub head_sha256 : Option PayloadDigest

pub record Supervisor : Type 0 where
  pub workspace_id : WorkspaceId
  pub policy_revision : Epoch
  pub primary_epoch : Epoch
  pub active_primary : Option ActorId
  pub actors : Map ActorId Actor
  pub teams : Map TeamId Team
  pub requests : Map RequestId Request
  pub runs : Map RunId Run
  pub mailbox : Map MessageId DeliveryRecord
  pub handoffs : Map HandoffId PendingHandoff
  pub audit : List AuditEvent
  pub history_checkpoint : HistoryCheckpoint
  pub observability_checkpoint : ChainCheckpoint
  pub team_generation_checkpoint : ChainCheckpoint
  pub pending_bulk_content : List PendingBulkContent
  pub nonterminal_request_counts : Map TeamId ℕ
  pub pending_observability : PendingObservability

abbrev pub Action : Type 0 → Type 0
Action A = Exec Supervisor CoreError A

-- serde_json and sha2, which the aggregate calls: the length of an envelope's encoding and the
-- digest of a message's, where they encode, and the digest of an audit event.
pub record Codec : Type 0 where
  pub envelope_bytes : Envelope → Option ℕ
  pub message_digest : Message → Option PayloadDigest
  pub audit_digest : AuditEvent → PayloadDigest

unfoldable pub new : WorkspaceId → Epoch → Supervisor
new workspace policy = record {
  workspace_id = workspace;
  policy_revision = policy;
  primary_epoch = initial;
  active_primary = none;
  actors = [];
  teams = [];
  requests = [];
  runs = [];
  mailbox = [];
  handoffs = [];
  audit = [];
  history_checkpoint = record {
    audit_event_count = 0;
    audit_head_sha256 = none;
    archived_delivery_count = 0;
    archived_request_count = 0;
    archived_run_count = 0;
    archived_audit_event_count = 0;
    archive_commit_count = 0;
    archive_head_sha256 = none;
  };
  observability_checkpoint = record { count = 0; head_sha256 = none };
  team_generation_checkpoint = record { count = 0; head_sha256 = none };
  pending_bulk_content = [];
  nonterminal_request_counts = [];
  pending_observability = record {
    activity_team_ids = [];
    epoch_roll_team_ids = [];
    actor_generation_keys = [];
    actor_generation_anchors = [];
    completed_assignments = [];
  };
}

abbrev ref_eq : ActorRef → ActorRef → Bool
ref_eq a b = a.actor_id == b.actor_id && a.actor_epoch == b.actor_epoch

pub ref_eq_iff : (a b : ActorRef) → (ref_eq a b ≡ true) ↔ (a ≡ b)
ref_eq_iff a b = ground arith

abbrev ref_lt : ActorRef → ActorRef → Bool
ref_lt a b =
    if a.actor_id == b.actor_id then ltb a.actor_epoch b.actor_epoch else ltb a.actor_id b.actor_id

instance abbrev pub ref_key : Key ActorRef
ref_key = record { lt = ref_lt; eq = ref_eq; eq_iff = ref_eq_iff }

-- `self.active_primary.as_ref() == Some(id)`
abbrev pub is_active_primary : Supervisor → ActorId → Bool
is_active_primary s id = is_some_and s.active_primary (λ p. p == id)

-- The actor of a reference, if the reference names its current generation.
unfoldable pub current_actor : Supervisor → ActorRef → CoreResult Actor
current_actor s r = do
  actor ← ok_or (lookup r.actor_id s.actors) (CoreError.unknown_actor r.actor_id)
  fail_if (not (actor.epoch == r.actor_epoch))
      (CoreError.stale_actor_epoch actor.epoch r.actor_epoch)
  ok actor

unfoldable pub ensure_known_team : Supervisor → TeamId → CoreResult Team
ensure_known_team s id = ok_or (lookup id s.teams) (CoreError.unknown_team id)

next_epoch_of : Option Actor → CoreResult Epoch
next_epoch_of none = ok initial
next_epoch_of (some actor) = ok_or (checked_next actor.epoch) CoreError.epoch_exhausted

unfoldable pub next_actor_epoch : Supervisor → ActorId → CoreResult Epoch
unfolding next_epoch_of
next_actor_epoch s id = next_epoch_of (lookup id s.actors)

unfoldable pub mark_team_activity : TeamId → Supervisor → Supervisor
mark_team_activity team s = record s {
  pending_observability = record s.pending_observability {
    activity_team_ids = set_insert team s.pending_observability.activity_team_ids;
  };
}

team_epoch_of : Supervisor → Option TeamId → Option Epoch
team_epoch_of s none = none
team_epoch_of s (some team) = elim (lookup team s.teams) [ none ↦ none | some t ↦ some t.epoch ]

-- A generation is announced once.
unfoldable pub record_actor_generation_anchor : ActorRef → Option TeamId → Supervisor → Supervisor
unfolding team_epoch_of
record_actor_generation_anchor actor team s =
    if contains actor s.pending_observability.actor_generation_keys then s else record s {
      pending_observability = record s.pending_observability {
        actor_generation_keys = set_insert actor s.pending_observability.actor_generation_keys;
        actor_generation_anchors =
            s.pending_observability.actor_generation_anchors
            ++ record { actor = actor; team_id = team; team_epoch = team_epoch_of s team } ∷ [];
      };
    }

-- A generation that starts healthy.
abbrev pub healthy_actor :
    WorkspaceId → ActorId → Option TeamId → ActorRole → Option ActorProfileSnapshot → Epoch → Actor
healthy_actor workspace id team role profile epoch = record {
  actor_id = id;
  workspace_id = workspace;
  team_id = team;
  role = role;
  profile = profile;
  epoch = epoch;
  status = ActorStatus.healthy;
  last_heartbeat_at = none;
}
