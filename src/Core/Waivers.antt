-- ===== src/Core/Waivers.antt =====
-- crates/agsv-core/src/supervisor.rs: recipients of an accepted message whose team is over or has
-- moved on, and that are waived from the start.
use agent_supervisor.Common.{
  Bool, true, false, not, ◌&&◌, ◌||◌, Option, none, some, List, [], ◌∷◌, ltb, is_some, is_some_and,
  if◌then◌else◌, and_then,
}
use agent_supervisor.Common.Lists.{any}
use agent_supervisor.Common.Maps.{Map, nat_key, lookup, insert}
use agent_supervisor.Protocol.Ids.{RequestId, TeamId}
use agent_supervisor.Protocol.Status.{TeamStatus, request_blocks_team_close, team_is_over}
use agent_supervisor.Protocol.Actor.{Team}
use agent_supervisor.Protocol.Work.{Request}
use agent_supervisor.Protocol.Kind.{MessageKind}
use agent_supervisor.Protocol.Delivery.{
  ActorDeliveryRecipient, DeliveryRecipient, DeliveryRetirementReason, recipient_key,
}
use agent_supervisor.Core.State.{Supervisor}
use agent_supervisor.Core.Mailbox.{message_requires_team_action, closing_reason}

abbrev pub Waivers : Type 0
Waivers = Map DeliveryRecipient DeliveryRetirementReason

-- The team of a recipient, through its actor.
abbrev recipient_team : Supervisor → ActorDeliveryRecipient → Option (TeamId × Team)
recipient_team s a =
    and_then (lookup a.actor.actor_id s.actors)
      (λ actor. and_then actor.team_id (λ id. and_then (lookup id s.teams) (λ t. some (id, t))))

closed_waiver : Supervisor → ActorDeliveryRecipient → Option DeliveryRetirementReason
closed_waiver s a = elim (recipient_team s a) [
  | none ↦ none
  | some (id, t) ↦
      if team_is_over t.status then some (closing_reason id t.epoch a.team_epoch) else none
]

abbrev waived : DeliveryRecipient → Option DeliveryRetirementReason → Waivers → Waivers
waived r none m = m
waived r (some reason) m = insert r reason m

unfoldable pub closed_team_recipients : Supervisor → List DeliveryRecipient → Waivers
unfolding closed_waiver
closed_team_recipients s [] = []
closed_team_recipients s (DeliveryRecipient.primary ∷ rs) = closed_team_recipients s rs
closed_team_recipients s (DeliveryRecipient.actor a ∷ rs) =
    waived (DeliveryRecipient.actor a) (closed_waiver s a) (closed_team_recipients s rs)

-- All recipients but the Primary, for one reason.
all_actors : DeliveryRetirementReason → List DeliveryRecipient → Waivers
all_actors reason [] = []
all_actors reason (DeliveryRecipient.primary ∷ rs) = all_actors reason rs
all_actors reason (DeliveryRecipient.actor a ∷ rs) =
    insert (DeliveryRecipient.actor a) reason (all_actors reason rs)

-- The request, where its generation of the team is over and it no longer holds the team.
abbrev past_request : Supervisor → Option RequestId → Option Request
past_request s request = and_then (and_then request (λ id. lookup id s.requests)) (λ q.
    if is_some_and (lookup q.team_id s.teams)
      (λ t. ltb q.team_epoch t.epoch && not (request_blocks_team_close q.status))
    then some q
    else none)

unfoldable pub initial_undeliverable_recipients :
    Supervisor
    → Option DeliveryRetirementReason
    → MessageKind
    → Option RequestId
    → List DeliveryRecipient
    → Waivers
unfolding closed_team_recipients all_actors message_requires_team_action
initial_undeliverable_recipients s reason kind request required =
    if is_some reason || message_requires_team_action s.requests kind request
    then []
    else elim (past_request s request) [
      | some q ↦
          all_actors (DeliveryRetirementReason.team_generation_superseded q.team_id q.team_epoch)
            required
      | none ↦ closed_team_recipients s required
    ]

abbrev is_closing_or_closed : TeamStatus → Bool
is_closing_or_closed TeamStatus.closing = true
is_closing_or_closed TeamStatus.closed = true
is_closing_or_closed _ = false

unfoldable pub recipients_include_inactive_team : Supervisor → List DeliveryRecipient → Bool
recipients_include_inactive_team s required =
    any
      (λ r. elim r [
        | DeliveryRecipient.primary ↦ false
        | DeliveryRecipient.actor a ↦
            is_some_and
              (and_then (lookup a.actor.actor_id s.actors)
                (λ actor. and_then actor.team_id (λ id. lookup id s.teams)))
              (λ t. is_closing_or_closed t.status)
      ])
      required
