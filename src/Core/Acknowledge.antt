-- ===== src/Core/Acknowledge.antt =====
-- crates/agsv-core/src/supervisor.rs: acknowledgements, and what an actor's inbox holds.
pub mod Receipt
use agent_supervisor.Common.{
  Bool, false, not, ◌&&◌, Option, none, some, List, [], leb, ◌==◌, is_some_and, if◌then◌else◌, eqb,
  map,
}
use agent_supervisor.Common.Lists.{length, any, filter}
use agent_supervisor.Common.Maps.{
  nat_key, lookup, contains_key, insert, update, values, contains, set_insert,
}
use agent_supervisor.Common.Result.{ok, err, ok_or, fail_if}
use agent_supervisor.Common.Exec.{pure, lift, get, modify, ◌>>=◌, ◌>>◌}
use agent_supervisor.Protocol.Ids.{TeamId, ActorId, RequestId, MessageId}
use agent_supervisor.Protocol.Validation.{max_acknowledgements}
use agent_supervisor.Protocol.Status.{actor_is_healthy}
use agent_supervisor.Protocol.Actor.{ActorRef, Actor, Team}
use agent_supervisor.Protocol.Kind.{team_close_disposition, is_request_lifecycle}
use agent_supervisor.Protocol.Envelope.{EnvelopeHeader}
use agent_supervisor.Protocol.Delivery.{
  DeliveryRecipient, Acknowledgement, AuditEventKind, Acknowledgement-discrete, recipient_key,
}
use agent_supervisor.Core.Error.{CoreError, CoreResult}
use agent_supervisor.Core.State.{Supervisor, DeliveryRecord, Action, Codec, current_actor}
use agent_supervisor.Core.Mailbox.{
  message_requires_team_action, is_resolved, retire_fully_acknowledged,
}
use agent_supervisor.Core.Registry.{quota}
use agent_supervisor.Core.Recipients.{
  target_matches, historical_recipient_for_actor, current_recipient_for_actor,
}
use agent_supervisor.Core.Audit.{ensure_audit_capacity, append_audit}
use agent_supervisor.Core.Observe.{
  delivery_references_historical_request, delivery_activity_teams, record_activity,
}

pub data AckOutcome : Type 0 where
  acknowledged duplicate : AckOutcome

-- The recipient may still answer.
abbrev pub is_open_to : Supervisor → DeliveryRecord → Actor → DeliveryRecipient → Bool
is_open_to s d actor r =
    not d.retired
    && contains r d.required_recipients
    && not (contains_key r d.undeliverable_recipients)
    && target_matches s d.envelope.target actor

abbrev ack_activity : Supervisor → DeliveryRecord → Actor → List TeamId
ack_activity s d actor =
    let teams = delivery_activity_teams s d.envelope [] in
    if delivery_references_historical_request s d.envelope
    then teams
    else elim actor.team_id [ none ↦ teams | some id ↦ set_insert id teams ]

-- The writes of a new acknowledgement.
unfoldable pub record_ack :
    Codec
    → Acknowledgement
    → DeliveryRecipient
    → EnvelopeHeader
    → List TeamId
    → Supervisor
    → Supervisor
record_ack codec a recipient h teams s =
    let s1 = record s {
      mailbox =
          update a.message_id
            (λ d. record d { acknowledgements = insert recipient a d.acknowledgements }) s.mailbox;
    } in
    let s2 =
      append_audit codec a.acknowledged_at h.team_id h.team_epoch
        (AuditEventKind.message_acknowledged a.message_id a.actor.actor_id) s1 in
    record_activity teams (retire_fully_acknowledged s2)

unfoldable pub new_ack : Codec → Acknowledgement → DeliveryRecord → Action AckOutcome
unfolding current_actor current_recipient_for_actor
new_ack codec a d = do
  s ← get
  actor ← lift (current_actor s a.actor)
  recipient ← lift (
      ok_or (current_recipient_for_actor s d.envelope.target d.required_recipients actor)
        CoreError.ack_not_authorized)
  lift (fail_if (not (actor_is_healthy actor.status)) (CoreError.actor_not_healthy actor.actor_id))
  lift (fail_if (not (is_open_to s d actor recipient)) CoreError.ack_not_authorized)
  lift (
      fail_if (leb max_acknowledgements (length d.acknowledgements))
        (quota "acknowledgements" max_acknowledgements))
  lift (ensure_audit_capacity s)
  modify (record_ack codec a recipient d.envelope (ack_activity s d actor))
  pure AckOutcome.acknowledged

unfoldable pub classify_ack : Acknowledgement → Acknowledgement → CoreResult AckOutcome
classify_ack existing a =
    if eqb Acknowledgement-discrete existing a
    then ok AckOutcome.duplicate
    else err CoreError.duplicate_acknowledgement_conflict

-- A recipient that has answered is compared, and any other may answer now.
abbrev pub settle_ack :
    Codec → Acknowledgement → DeliveryRecord → Option Acknowledgement → Action AckOutcome
settle_ack codec a d (some existing) = lift (classify_ack existing a)
settle_ack codec a d none = new_ack codec a d

unfoldable pub acknowledge : Codec → Acknowledgement → Action AckOutcome
unfolding historical_recipient_for_actor new_ack classify_ack
acknowledge codec a = do
  s ← get
  lift (
      fail_if (not (a.workspace_id == s.workspace_id))
        (CoreError.wrong_workspace s.workspace_id a.workspace_id))
  d ← lift (ok_or (lookup a.message_id s.mailbox) CoreError.unknown_message)
  historical ← lift (
      ok_or (historical_recipient_for_actor s d.envelope.target d.required_recipients a.actor)
        CoreError.ack_not_authorized)
  settle_ack codec a d (lookup historical d.acknowledgements)

-- The deliveries that wait for an actor.
abbrev pub waits_for : Supervisor → Actor → DeliveryRecord → Bool
waits_for s actor d =
    is_some_and (current_recipient_for_actor s d.envelope.target d.required_recipients actor)
      (λ r. is_open_to s d actor r && not (contains_key r d.acknowledgements))

unfoldable pub unacknowledged_message_ids_for : ActorRef → Action (List MessageId)
unfolding current_actor
unacknowledged_message_ids_for r = do
  s ← get
  actor ← lift (current_actor s r)
  lift (fail_if (not (actor_is_healthy actor.status)) (CoreError.actor_not_healthy actor.actor_id))
  pure (
      map (λ (d : DeliveryRecord). d.envelope.message_id)
        (filter (waits_for s actor) (values s.mailbox)))

-- A recipient of the logical actor that is not resolved.
abbrev pub open_for : (ActorId → Bool) → DeliveryRecord → DeliveryRecipient → Bool
open_for test d DeliveryRecipient.primary = false
open_for test d (DeliveryRecipient.actor a) =
    test a.actor.actor_id && not (is_resolved d (DeliveryRecipient.actor a))

unfoldable pub pending_acknowledgement_message_ids_for : Supervisor → ActorId → List MessageId
pending_acknowledgement_message_ids_for s id =
    map (λ (d : DeliveryRecord). d.envelope.message_id)
      (filter
        (λ (d : DeliveryRecord).
          not d.retired && any (open_for (λ member. member == id) d) d.required_recipients)
        (values s.mailbox))

-- The deliveries that keep a team from closing; those of deferred requests are left to them.
abbrev pub blocks_close : Supervisor → Team → List RequestId → DeliveryRecord → Bool
blocks_close s team deferred d =
    not d.retired
    && message_requires_team_action s.requests d.message_kind d.envelope.request_id
    && not (
        is_request_lifecycle (team_close_disposition d.message_kind)
        && is_some_and d.envelope.request_id (λ id. contains id deferred))
    && any (open_for (λ id. any (λ member. member == id) team.actors) d) d.required_recipients

unfoldable pub team_close_blocking_message_ids :
    Supervisor → TeamId → List RequestId → List MessageId
team_close_blocking_message_ids s id deferred = elim (lookup id s.teams) [
  | none ↦ []
  | some team ↦
      map (λ (d : DeliveryRecord). d.envelope.message_id)
        (filter (blocks_close s team deferred) (values s.mailbox))
]
