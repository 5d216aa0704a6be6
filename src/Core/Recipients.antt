-- ===== src/Core/Recipients.antt =====
-- crates/agsv-core/src/supervisor.rs: who has to receive a message, who may acknowledge it, and
-- who is waived from the start.
use agent_supervisor.Common.{
  ℕ, Bool, true, false, not, ◌&&◌, Option, none, some, List, [], ◌∷◌, ltb, ◌==◌, is_some,
  is_some_and, if◌then◌else◌, eqb, and_then,
}
use agent_supervisor.Common.Lists.{length, take, filter, filter_map, find}
use agent_supervisor.Common.Maps.{nat_key, lookup, values, contains, set_insert}
use agent_supervisor.Common.Result.{ok, err, ok_or, fail_if, ◌>>=◌, ◌>>◌}
use agent_supervisor.Protocol.Ids.{TeamId, ActorId, Epoch}
use agent_supervisor.Protocol.Status.{
  actor_is_healthy, actor_is_gone, actor_is_revoked, team_is_over,
}
use agent_supervisor.Protocol.Actor.{
  ActorRef, Actor, Team, TeamProfileSnapshot, ActorRef-discrete, actor_ref, has_capability,
  human_facing_primary,
}
use agent_supervisor.Protocol.Work.{Request}
use agent_supervisor.Protocol.Kind.{
  kind_of, is_directive, team_close_disposition, is_obsolete_outcome,
}
use agent_supervisor.Protocol.Envelope.{Envelope, MessageTarget}
use agent_supervisor.Protocol.Delivery.{DeliveryRecipient, DeliveryRetirementReason, recipient_key}
use agent_supervisor.Core.Error.{CoreError, CoreResult}
use agent_supervisor.Core.State.{Supervisor, is_active_primary, ensure_known_team}
use agent_supervisor.Core.Context.{is_id}

-- A plan has a recipient, or is retired at once.
pub data DeliveryRecipientPlan : Type 0 where
  recipients : DeliveryRecipient → List DeliveryRecipient → DeliveryRecipientPlan
  retired : DeliveryRetirementReason → DeliveryRecipientPlan

abbrev pub the_actor : ActorRef → Epoch → DeliveryRecipient
the_actor r epoch = DeliveryRecipient.actor (record { actor = r; team_epoch = epoch })

-- An actor with no team receives as the Primary; the team of any other is `expect`ed.
unfoldable pub actor_delivery_recipient : Supervisor → Actor → CoreResult DeliveryRecipient
actor_delivery_recipient s actor = elim actor.team_id [
  | none ↦ ok DeliveryRecipient.primary
  | some team ↦ elim (lookup team s.teams) [
    | none ↦ err (CoreError.panicked "team actor belongs to a known team")
    | some t ↦ ok (the_actor (actor_ref actor) t.epoch)
  ]
]

abbrev add_recipient :
    CoreResult DeliveryRecipient
    → CoreResult (List DeliveryRecipient)
    → CoreResult (List DeliveryRecipient)
add_recipient (err e) rest = err e
add_recipient (ok r) (err e) = err e
add_recipient (ok r) (ok rs) = ok (set_insert r rs)

-- The recipients of a list of actors, as a set.
unfoldable pub collect_recipients : Supervisor → List Actor → CoreResult (List DeliveryRecipient)
unfolding actor_delivery_recipient
collect_recipients s [] = ok []
collect_recipients s (a ∷ rest) =
    add_recipient (actor_delivery_recipient s a) (collect_recipients s rest)

-- The members of a team that are actors, without the revoked.
unfoldable pub standing_members : Supervisor → List ActorId → List Actor
standing_members s ids =
    filter (λ (a : Actor). not (actor_is_revoked a.status))
      (filter_map (λ id. lookup id s.actors) ids)

abbrev desired : Team → Option TeamProfileSnapshot → ℕ
desired t none = length t.actors
desired t (some p) = p.desired_instances

unfoldable pub directive_team_recipients : Supervisor → TeamId → CoreResult (List DeliveryRecipient)
unfolding collect_recipients standing_members
directive_team_recipients s team = elim (lookup team s.teams) [
  | none ↦ ok []
  | some t ↦ collect_recipients s (standing_members s (take (desired t t.profile) t.actors))
]

-- A request of a team generation that is over: its outcome goes to the generation that did it.
abbrev obsolete_request : Supervisor → Envelope → Option Request
obsolete_request s e =
    if is_obsolete_outcome (team_close_disposition (kind_of e.message))
    then and_then e.request_id (λ id. and_then (lookup id s.requests) (λ q.
      if is_some_and (lookup q.team_id s.teams) (λ t. ltb q.team_epoch t.epoch)
      then some q
      else none))
    else none

-- The team of an obsolete outcome, where that team is closed or retired.
abbrev over_team : Supervisor → Envelope → TeamId → Option Team
over_team s e team =
    if is_obsolete_outcome (team_close_disposition (kind_of e.message))
    then and_then (lookup team s.teams) (λ t. if team_is_over t.status then some t else none)
    else none

plan_of_set : List DeliveryRecipient → CoreResult DeliveryRecipientPlan
plan_of_set [] = err (CoreError.unauthorized "deliver message without a durable recipient")
plan_of_set (r ∷ rs) = ok (DeliveryRecipientPlan.recipients r rs)

plan_of_over_team : TeamId → Team → List DeliveryRecipient → CoreResult DeliveryRecipientPlan
plan_of_over_team team t [] =
    ok (DeliveryRecipientPlan.retired (DeliveryRetirementReason.team_closed team t.epoch))
plan_of_over_team team t (r ∷ rs) = ok (DeliveryRecipientPlan.recipients r rs)

plan_of_directive : List DeliveryRecipient → CoreResult DeliveryRecipientPlan
plan_of_directive [] = err (CoreError.unauthorized "direct zero-capacity team")
plan_of_directive (r ∷ rs) = ok (DeliveryRecipientPlan.recipients r rs)

-- The members of a team from the actors' side, without the revoked and the stopped.
abbrev reachable : TeamId → Actor → Bool
reachable team a = not (actor_is_gone a.status) && is_id a.team_id team

plan_of_team : Supervisor → Envelope → TeamId → CoreResult DeliveryRecipientPlan
unfolding directive_team_recipients collect_recipients standing_members plan_of_set
    plan_of_over_team plan_of_directive
plan_of_team s e team =
    if is_directive e.message
    then (directive_team_recipients s team >>= plan_of_directive)
    else elim (over_team s e team) [
      | some t ↦ collect_recipients s (standing_members s t.actors) >>= plan_of_over_team team t
      | none ↦ collect_recipients s (filter (reachable team) (values s.actors)) >>= plan_of_set
    ]

plan_of_target : Supervisor → Envelope → MessageTarget → CoreResult DeliveryRecipientPlan
unfolding plan_of_team plan_of_set actor_delivery_recipient collect_recipients
plan_of_target s e MessageTarget.primary = plan_of_set (DeliveryRecipient.primary ∷ [])
plan_of_target s e (MessageTarget.actor id) = do
  actor ← ok_or (lookup id s.actors) (CoreError.unknown_actor id)
  recipient ← actor_delivery_recipient s actor
  plan_of_set (recipient ∷ [])
plan_of_target s e (MessageTarget.team team) = plan_of_team s e team
plan_of_target s e MessageTarget.workspace =
    collect_recipients s (filter (λ (a : Actor). actor_is_healthy a.status) (values s.actors))
    >>= plan_of_set

-- A directive needs a team that is not over.
directable : Supervisor → Envelope → CoreResult (Unit {0})
unfolding ensure_known_team
directable s e =
    if is_directive e.message
    then (do
      team ← ok_or e.team_id CoreError.wrong_team
      t ← ensure_known_team s team
      fail_if (team_is_over t.status) (CoreError.unauthorized "direct inactive team"))
    else ok tt

unfoldable pub delivery_recipient_plan : Supervisor → Envelope → CoreResult DeliveryRecipientPlan
unfolding directable plan_of_target
delivery_recipient_plan s e = do
  directable s e
  elim (obsolete_request s e) [
    | some q ↦ elim q.assignment [
      | none ↦ err CoreError.not_assigned_actor
      | some a ↦ ok (DeliveryRecipientPlan.recipients (the_actor a.actor q.team_epoch) [])
    ]
    | none ↦ plan_of_target s e e.target
  ]

-- Whether a target reaches an actor now.
unfoldable pub target_matches : Supervisor → MessageTarget → Actor → Bool
target_matches s MessageTarget.primary actor =
    has_capability actor human_facing_primary && is_active_primary s actor.actor_id
target_matches s (MessageTarget.team team) actor = is_id actor.team_id team
target_matches s (MessageTarget.actor id) actor = id == actor.actor_id
target_matches s MessageTarget.workspace actor = true

-- `matches!(target, Primary | Workspace)`
abbrev primary_side : MessageTarget → Bool
primary_side MessageTarget.primary = true
primary_side MessageTarget.workspace = true
primary_side _ = false

abbrev is_recipient_of : ActorRef → DeliveryRecipient → Bool
is_recipient_of r DeliveryRecipient.primary = false
is_recipient_of r (DeliveryRecipient.actor a) = eqb ActorRef-discrete a.actor r

-- The recipient that an actor generation was, whatever has become of it since.
unfoldable pub historical_recipient_for_actor :
    Supervisor → MessageTarget → List DeliveryRecipient → ActorRef → Option DeliveryRecipient
historical_recipient_for_actor s target required r =
    if primary_side target
      && contains DeliveryRecipient.primary required
      && is_some_and (lookup r.actor_id s.actors)
          (λ a. has_capability a human_facing_primary && not (is_some a.team_id))
    then some DeliveryRecipient.primary
    else find (is_recipient_of r) required

-- `self.active_primary() == Some(r)`
abbrev is_active_ref : Supervisor → ActorRef → Bool
is_active_ref s r =
    is_some_and (and_then s.active_primary (λ p. lookup p s.actors))
      (λ a. eqb ActorRef-discrete (actor_ref a) r)

-- The recipient that a current actor is.
unfoldable pub current_recipient_for_actor :
    Supervisor → MessageTarget → List DeliveryRecipient → Actor → Option DeliveryRecipient
current_recipient_for_actor s target required actor =
    if primary_side target
      && contains DeliveryRecipient.primary required
      && has_capability actor human_facing_primary
      && not (is_some actor.team_id)
    then (if is_active_ref s (actor_ref actor) then some DeliveryRecipient.primary else none)
    else and_then (and_then actor.team_id (λ team. lookup team s.teams)) (λ t.
      find
        (λ r. elim r [
          | DeliveryRecipient.primary ↦ false
          | DeliveryRecipient.actor a ↦
              eqb ActorRef-discrete a.actor (actor_ref actor) && a.team_epoch == t.epoch
        ])
        required)
