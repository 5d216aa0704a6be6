-- ===== src/Core/Mailbox.antt =====
-- crates/agsv-core/src/supervisor.rs: what becomes of accepted deliveries when recipients answer,
-- teams close, and generations are superseded.
use agent_supervisor.Common.{
  Bool, true, false, not, ◌&&◌, ◌||◌, Option, some, List, [], ◌∷◌, leb, ◌==◌, is_some_and,
  is_none_or, if◌then◌else◌, map, and_then,
}
use agent_supervisor.Common.Lists.{any, all, filter}
use agent_supervisor.Common.Maps.{
  Map, nat_key, lookup, contains_key, insert, map_values, values, contains,
}
use agent_supervisor.Common.Result.{fail_if}
use agent_supervisor.Common.Exec.{pure, lift, get, modify, ◌>>=◌, ◌>>◌}
use agent_supervisor.Protocol.Ids.{TeamId, ActorId, RequestId, MessageId, Epoch}
use agent_supervisor.Protocol.Status.{
  TeamStatus, is_terminal, request_blocks_team_close, team_is_over,
}
use agent_supervisor.Protocol.Actor.{Actor, Team}
use agent_supervisor.Protocol.Work.{Request}
use agent_supervisor.Protocol.Kind.{
  MessageKind, TeamCloseDeliveryDisposition, team_close_disposition,
}
use agent_supervisor.Protocol.Delivery.{DeliveryRecipient, DeliveryRetirementReason, recipient_key}
use agent_supervisor.Core.Error.{CoreError}
use agent_supervisor.Core.State.{
  DeliveryRecord, Supervisor, Action, ensure_known_team, mark_team_activity,
}

action_by_disposition :
    TeamCloseDeliveryDisposition → Map RequestId Request → Option RequestId → Bool
action_by_disposition TeamCloseDeliveryDisposition.obsolete_outcome requests request = false
action_by_disposition TeamCloseDeliveryDisposition.action_required requests request = true
action_by_disposition TeamCloseDeliveryDisposition.request_lifecycle requests request =
    is_none_or (and_then request (λ id. lookup id requests))
      (λ r. request_blocks_team_close r.status)

-- Whether the team that receives the message still has to act on it.
unfoldable pub message_requires_team_action :
    Map RequestId Request → MessageKind → Option RequestId → Bool
unfolding action_by_disposition
message_requires_team_action requests kind request =
    action_by_disposition (team_close_disposition kind) requests request

-- The recipient has acknowledged the delivery or has been waived.
abbrev pub is_resolved : DeliveryRecord → DeliveryRecipient → Bool
is_resolved d r = contains_key r d.acknowledgements || contains_key r d.undeliverable_recipients

abbrev pub is_empty {ℓ} : {A : Type ℓ} → List A → Bool
is_empty [] = true
is_empty (x ∷ xs) = false

-- Every recipient is resolved, and the request is over or somebody was waived.
unfoldable pub is_retirable : Map RequestId Request → DeliveryRecord → Bool
is_retirable requests d =
    not (is_empty d.required_recipients)
    && all (is_resolved d) d.required_recipients
    && (is_none_or d.envelope.request_id
          (λ id. is_some_and (lookup id requests) (λ r. is_terminal r.status))
        || not (is_empty d.undeliverable_recipients))

unfoldable pub retire_delivery : Map RequestId Request → DeliveryRecord → DeliveryRecord
unfolding is_retirable
retire_delivery requests d =
    if not d.retired && is_retirable requests d then record d { retired = true } else d

unfoldable pub retire_fully_acknowledged : Supervisor → Supervisor
unfolding retire_delivery
retire_fully_acknowledged s = record s {
  mailbox = map_values (retire_delivery s.requests) s.mailbox;
}

-- The logical actors that belong to a team, from the actors' side.
abbrev pub team_actor_ids : Supervisor → TeamId → List ActorId
team_actor_ids s team =
    map (λ (a : Actor). a.actor_id)
      (filter (λ (a : Actor). is_some_and a.team_id (λ t. t == team)) (values s.actors))

-- Waive `r` unless it has a disposition already (`entry().or_insert_with()`).
abbrev waive : DeliveryRetirementReason → DeliveryRecipient → DeliveryRecord → DeliveryRecord
waive reason r d =
    if contains_key r d.undeliverable_recipients
    then d
    else record d { undeliverable_recipients = insert r reason d.undeliverable_recipients }

waive_all :
    (DeliveryRecipient → Bool)
    → DeliveryRetirementReason
    → List DeliveryRecipient
    → DeliveryRecord
    → DeliveryRecord
waive_all test reason [] d = d
waive_all test reason (r ∷ rs) d =
    let rest = waive_all test reason rs d in if test r then waive reason r rest else rest

-- A required recipient of the generation that a replacement ends, not yet acknowledged.
abbrev is_superseded : List ActorId → Epoch → DeliveryRecord → DeliveryRecipient → Bool
is_superseded members previous d DeliveryRecipient.primary = false
is_superseded members previous d (DeliveryRecipient.actor a) =
    a.team_epoch == previous
    && contains a.actor.actor_id members
    && not (contains_key (DeliveryRecipient.actor a) d.acknowledgements)

-- The mailbox loop of `replace_implementation_inner`.
unfoldable pub supersede_generation : TeamId → Epoch → Supervisor → Supervisor
unfolding waive_all
supersede_generation team previous s =
    let members = team_actor_ids s team in
    let reason = DeliveryRetirementReason.team_generation_superseded team previous in
    record s {
      mailbox =
          map_values
            (λ d.
              if d.retired
              then d
              else waive_all (is_superseded members previous d) reason d.required_recipients d)
            s.mailbox;
    }

-- `insert` of a disposition, over one that is there.
supersede_recipients :
    TeamId → Epoch → List ActorId → List DeliveryRecipient → DeliveryRecord → DeliveryRecord
supersede_recipients team previous members [] d = d
supersede_recipients team previous members (DeliveryRecipient.primary ∷ rs) d =
    supersede_recipients team previous members rs d
supersede_recipients team previous members (DeliveryRecipient.actor a ∷ rs) d =
    supersede_recipients team previous members rs (
      if leb a.team_epoch previous
        && contains a.actor.actor_id members
        && not (contains_key (DeliveryRecipient.actor a) d.acknowledgements)
      then record d {
        undeliverable_recipients =
            insert (DeliveryRecipient.actor a)
              (DeliveryRetirementReason.team_generation_superseded team a.team_epoch)
              d.undeliverable_recipients;
      }
      else d)

supersede_reason :
    TeamId → Epoch → Option DeliveryRetirementReason → Option DeliveryRetirementReason
supersede_reason team previous (some (DeliveryRetirementReason.team_closed t e)) =
    if t == team && leb e previous
    then some (DeliveryRetirementReason.team_generation_superseded team previous)
    else some (DeliveryRetirementReason.team_closed t e)
supersede_reason team previous reason = reason

abbrev supersede_delivery : TeamId → Epoch → List ActorId → DeliveryRecord → DeliveryRecord
supersede_delivery team previous members d =
    let e = supersede_recipients team previous members d.required_recipients d in
    record e { retirement_reason = supersede_reason team previous e.retirement_reason }

unfoldable pub supersede_terminal_team_delivery_history : TeamId → Epoch → Supervisor → Supervisor
unfolding supersede_recipients supersede_reason retire_fully_acknowledged
supersede_terminal_team_delivery_history team previous s =
    let members = team_actor_ids s team in
    retire_fully_acknowledged
      (record s { mailbox = map_values (supersede_delivery team previous members) s.mailbox })

-- The reason for which a recipient of a closing team is waived.
abbrev pub closing_reason : TeamId → Epoch → Epoch → DeliveryRetirementReason
closing_reason team closing epoch =
    if epoch == closing
    then DeliveryRetirementReason.team_closed team closing
    else DeliveryRetirementReason.team_generation_superseded team epoch

close_recipients : TeamId → Team → List DeliveryRecipient → DeliveryRecord → DeliveryRecord
close_recipients id team [] d = d
close_recipients id team (DeliveryRecipient.primary ∷ rs) d = close_recipients id team rs d
close_recipients id team (DeliveryRecipient.actor a ∷ rs) d = close_recipients id team rs (
    if any (λ member. member == a.actor.actor_id) team.actors
      && not (is_resolved d (DeliveryRecipient.actor a))
    then record d {
      undeliverable_recipients =
          insert (DeliveryRecipient.actor a) (closing_reason id team.epoch a.team_epoch)
            d.undeliverable_recipients;
    }
    else d)

-- The delivery is changed: some recipient of the team is neither acknowledged nor waived.
abbrev has_open_recipient : Team → DeliveryRecord → Bool
has_open_recipient team d =
    any
      (λ r. elim r [
        | DeliveryRecipient.primary ↦ false
        | DeliveryRecipient.actor a ↦
            any (λ member. member == a.actor.actor_id) team.actors
            && not (is_resolved d (DeliveryRecipient.actor a))
      ])
      d.required_recipients

abbrev is_closable : Map RequestId Request → DeliveryRecord → Bool
is_closable requests d =
    not d.retired
    && not (message_requires_team_action requests d.message_kind d.envelope.request_id)

abbrev close_delivery : Map RequestId Request → TeamId → Team → DeliveryRecord → DeliveryRecord
close_delivery requests id team d =
    if is_closable requests d then close_recipients id team d.required_recipients d else d

abbrev pub is_ending : TeamStatus → Bool
is_ending TeamStatus.closing = true
is_ending status = team_is_over status

-- Waive the unread recipients of a team that ends, and return the messages that this changed.
unfoldable pub retire_obsolete_team_recipients : TeamId → Action (List MessageId)
unfolding ensure_known_team message_requires_team_action close_recipients retire_fully_acknowledged
    mark_team_activity
retire_obsolete_team_recipients id = do
  s ← get
  team ← lift (ensure_known_team s id)
  lift (
      fail_if (not (is_ending team.status))
        (CoreError.unauthorized "retire delivery recipients for a team that is not closing"))
  let affected =
      map (λ (d : DeliveryRecord). d.envelope.message_id)
        (filter (λ d. is_closable s.requests d && has_open_recipient team d) (values s.mailbox))
  modify (λ t. record t { mailbox = map_values (close_delivery t.requests id team) t.mailbox })
  modify retire_fully_acknowledged
  modify (λ t. if is_empty affected then t else mark_team_activity id t)
  pure affected
