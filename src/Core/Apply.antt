-- ===== src/Core/Apply.antt =====
-- crates/agsv-core/src/supervisor.rs: `Supervisor::apply`, the acceptance of a message, and the
-- classification of a retry against an archived row.
use agent_supervisor.Common.{
  Bool, not, ◌&&◌, Option, none, some, List, [], ◌∷◌, ◌++◌, leb, ltb, ◌==◌, is_some, if◌then◌else◌,
  eqb,
}
use agent_supervisor.Common.Lists.{length}
use agent_supervisor.Common.Maps.{nat_key, lookup, insert, set_insert}
use agent_supervisor.Common.Result.{ok, err, ok_or, fail_if, map_err}
use agent_supervisor.Common.Exec.{pure, lift, gets, get, modify, ◌>>=◌, ◌>>◌}
use agent_supervisor.Protocol.Ids.{PayloadDigest}
use agent_supervisor.Protocol.Validation.{max_deliveries, max_frame_bytes}
use agent_supervisor.Protocol.Actor.{Actor}
use agent_supervisor.Protocol.Message.{Message}
use agent_supervisor.Protocol.Kind.{
  MessageKind, MessageKind-discrete, kind_of, team_close_disposition, is_request_lifecycle,
  kind_is_implementation_request,
}
use agent_supervisor.Protocol.Envelope.{
  EnvelopeHeader, Envelope, EnvelopeHeader-discrete, validate_envelope,
}
use agent_supervisor.Protocol.Delivery.{
  DeliveryRecipient, DeliveryRetirementReason, CausalMessage, AuditEventKind,
  CausalMessage-discrete, recipient_key,
}
use agent_supervisor.Core.Error.{CoreError, CoreResult}
use agent_supervisor.Core.State.{Supervisor, DeliveryRecord, Action, Codec}
use agent_supervisor.Core.Mailbox.{message_requires_team_action, retire_fully_acknowledged}
use agent_supervisor.Core.Registry.{quota}
use agent_supervisor.Core.Context.{authorize_envelope}
use agent_supervisor.Core.Recipients.{DeliveryRecipientPlan, delivery_recipient_plan}
use agent_supervisor.Core.Waivers.{
  initial_undeliverable_recipients, recipients_include_inactive_team,
}
use agent_supervisor.Core.Dispatch.{causal_message, apply_message}
use agent_supervisor.Core.Audit.{ensure_audit_capacity, append_audit}
use agent_supervisor.Core.Observe.{
  AcceptedMessageObservability, request_state_for_observability, observe_accepted,
  record_accepted_message_observability,
}

pub data ApplyOutcome : Type 0 where
  applied duplicate : ApplyOutcome

unfoldable pub validate_envelope_quota : Codec → Envelope → CoreResult (Unit {0})
validate_envelope_quota codec e = elim (codec.envelope_bytes e) [
  | none ↦ err (quota "serialized envelope bytes" max_frame_bytes)
  | some n ↦ fail_if (ltb max_frame_bytes n) (quota "serialized envelope bytes" max_frame_bytes)
]

unfoldable pub digest_message : Codec → Message → CoreResult PayloadDigest
digest_message codec m =
    ok_or (codec.message_digest m) (quota "serialized message bytes" max_frame_bytes)

-- The facts that two copies of one message agree on.
unfoldable pub is_same_message :
    EnvelopeHeader → MessageKind → PayloadDigest → CausalMessage → Envelope → PayloadDigest → Bool
unfolding causal_message
is_same_message header kind digest causal e incoming =
    eqb EnvelopeHeader-discrete header e.header
    && eqb MessageKind-discrete kind (kind_of e.message)
    && digest == incoming
    && eqb CausalMessage-discrete causal (causal_message e.message_id incoming e.message)

unfoldable pub classify_retry : DeliveryRecord → Envelope → PayloadDigest → CoreResult ApplyOutcome
classify_retry d e digest =
    if is_same_message d.envelope d.message_kind d.payload_digest d.causal e digest
    then ok ApplyOutcome.duplicate
    else err CoreError.duplicate_message_conflict

-- Where no recipient can be planned the handler is run on a copy, and its refusal comes first.
unfoldable pub plan_or_refuse :
    Supervisor → Envelope → Actor → PayloadDigest → CoreResult DeliveryRecipientPlan
plan_or_refuse s e sender digest = elim (delivery_recipient_plan s e) [
  | ok plan ↦ ok plan
  | err refusal ↦ elim (apply_message e sender digest s).0 [
    | ok done ↦ err refusal
    | err first ↦ err first
  ]
]

abbrev pub required_of : DeliveryRecipientPlan → List DeliveryRecipient
required_of (DeliveryRecipientPlan.recipients first rest) = set_insert first rest
required_of (DeliveryRecipientPlan.retired reason) = []

abbrev pub reason_of : DeliveryRecipientPlan → Option DeliveryRetirementReason
reason_of (DeliveryRecipientPlan.recipients first rest) = none
reason_of (DeliveryRecipientPlan.retired reason) = some reason

-- A message that asks a closing or closed team to act on a live request.
abbrev reaches_inactive_team : Supervisor → Envelope → List DeliveryRecipient → Bool
reaches_inactive_team s e required =
    is_request_lifecycle (team_close_disposition (kind_of e.message))
    && not (kind_is_implementation_request (kind_of e.message))
    && message_requires_team_action s.requests (kind_of e.message) e.request_id
    && recipients_include_inactive_team s required

abbrev pub delivery_of :
    Supervisor
    → Envelope
    → PayloadDigest
    → List DeliveryRecipient
    → Option DeliveryRetirementReason
    → DeliveryRecord
delivery_of s e digest required reason = record {
  envelope = e.header;
  message_kind = kind_of e.message;
  payload_digest = digest;
  causal = causal_message e.message_id digest e.message;
  required_recipients = required;
  acknowledgements = [];
  undeliverable_recipients =
      initial_undeliverable_recipients s reason (kind_of e.message) e.request_id required;
  retirement_reason = reason;
  retired = is_some reason;
}

-- What an accepted message writes beside its handler.
unfoldable pub record_accepted :
    Codec
    → Envelope
    → PayloadDigest
    → List DeliveryRecipient
    → Option DeliveryRetirementReason
    → AcceptedMessageObservability
    → Supervisor
    → Supervisor
record_accepted codec e digest required reason observability s =
    let s1 = record s {
      mailbox = insert e.message_id (delivery_of s e digest required reason) s.mailbox;
      pending_bulk_content =
          s.pending_bulk_content
          ++ record { message_id = e.message_id; payload_digest = digest; message = e.message }
            ∷ [];
    } in
    let s2 =
      append_audit codec e.sent_at e.team_id e.team_epoch
        (AuditEventKind.message_accepted e.message_id (kind_of e.message) (some digest)) s1 in
    record_accepted_message_observability observability (retire_fully_acknowledged s2)

-- The acceptance of a message that is not in the mailbox.
unfoldable pub accept : Codec → Envelope → PayloadDigest → Action ApplyOutcome
accept codec e digest = do
  s ← get
  lift (fail_if (leb max_deliveries (length s.mailbox)) (quota "deliveries" max_deliveries))
  let before = request_state_for_observability s e
  lift (ensure_audit_capacity s)
  sender ← lift (authorize_envelope s e)
  plan ← lift (plan_or_refuse s e sender digest)
  lift (
      fail_if (reaches_inactive_team s e (required_of plan))
        (CoreError.unauthorized "deliver action-requiring message to a closing or closed team"))
  apply_message e sender digest
  observability ← gets (λ t. (observe_accepted e.header (required_of plan) before t).0)
  modify (λ t. (observe_accepted e.header (required_of plan) before t).1)
  modify (record_accepted codec e digest (required_of plan) (reason_of plan) observability)
  pure ApplyOutcome.applied

-- A message of the mailbox is classified, and any other is accepted or refused.
abbrev pub settle : Codec → Envelope → PayloadDigest → Option DeliveryRecord → Action ApplyOutcome
settle codec e digest (some existing) = lift (classify_retry existing e digest)
settle codec e digest none = accept codec e digest

unfoldable pub apply : Codec → Envelope → Action ApplyOutcome
apply codec e = do
  lift (validate_envelope_quota codec e)
  lift (map_err CoreError.validation (validate_envelope e))
  s ← get
  lift (
      fail_if (not (e.workspace_id == s.workspace_id))
        (CoreError.wrong_workspace s.workspace_id e.workspace_id))
  digest ← lift (digest_message codec e.message)
  settle codec e digest (lookup e.message_id s.mailbox)
