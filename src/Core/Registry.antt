-- ===== src/Core/Registry.antt =====
-- crates/agsv-core/src/supervisor.rs: actors, teams and the Primary lease: activation, creation,
-- lifecycle changes, heartbeats and registration.
pub mod Lease
pub mod Fence
use agent_supervisor.Common.{
  ℕ, String, max, Bool, not, ◌&&◌, ◌||◌, Option, none, some, [], leb, is_some, is_some_and,
  if◌then◌else◌, eqb, and_then,
}
use agent_supervisor.Common.Lists.{length}
use agent_supervisor.Common.Maps.{nat_key, lookup, contains_key, insert, update}
use agent_supervisor.Common.Result.{ok, err, ok_or, fail_if, map_err}
use agent_supervisor.Common.Exec.{pure, lift, get, modify, return_some, ◌>>=◌, ◌>>◌}
use agent_supervisor.Protocol.Ids.{TeamId, ActorId, Epoch, TimestampMillis, initial, checked_next}
use agent_supervisor.Protocol.Status.{
  ActorStatus, TeamStatus, TeamStatus-discrete, actor_is_healthy, team_is_over,
}
use agent_supervisor.Protocol.Validation.{max_domain_entities}
use agent_supervisor.Protocol.Actor.{
  ActorRef, ActorRole, ActorProfileSnapshot, TeamProfileSnapshot, Actor, Team, ActorRole-discrete,
  ActorProfile-discrete, TeamProfile-discrete, OptionId-discrete, actor_ref, has_capability,
  human_facing_primary, validate_actor, validate_team_profile,
}
use agent_supervisor.Core.Error.{CoreError, CoreResult}
use agent_supervisor.Core.Transitions.{transition_actor, transition_team}
use agent_supervisor.Core.State.{
  Supervisor, Action, is_active_primary, current_actor, next_actor_epoch, mark_team_activity,
  record_actor_generation_anchor, healthy_actor,
}
use agent_supervisor.Core.Mailbox.{supersede_terminal_team_delivery_history}

abbrev pub quota : String → ℕ → CoreError
quota resource maximum = CoreError.quota_exceeded resource maximum

-- `actors.len() >= MAX && !actors.contains_key(id)`
abbrev pub actors_full : Supervisor → ActorId → Bool
actors_full s id = leb max_domain_entities (length s.actors) && not (contains_key id s.actors)

-- A logical actor of this id that differs in its immutable metadata, or stands in a team.
abbrev pub conflicts : ActorRole → Option ActorProfileSnapshot → Option TeamId → Option Actor → Bool
conflicts role profile team found = is_some_and found (λ a.
    not (eqb ActorRole-discrete a.role role)
    || not (eqb ActorProfile-discrete a.profile profile)
    || not (eqb OptionId-discrete a.team_id team))

-- The active and healthy Primary of this id, which is used again.
abbrev pub current_primary : Supervisor → ActorId → Option Actor
current_primary s id =
    and_then (lookup id s.actors)
      (λ a. if is_active_primary s id && actor_is_healthy a.status then some a else none)

abbrev pub set_status : ActorStatus → Actor → Actor
set_status status a = record a { status = status }

-- The revocation of the lease's holder: its id, its next status and the next Primary fence.
unfoldable pub primary_replacement :
    Supervisor → Option ActorId → CoreResult (Option (ActorId × ActorStatus × Epoch))
primary_replacement s none = ok none
primary_replacement s (some previous) = elim (lookup previous s.actors) [
  | none ↦ err (CoreError.unknown_actor previous)
  | some holder ↦ elim (transition_actor holder.status ActorStatus.revoked) [
    | err e ↦ err e
    | ok status ↦ elim (checked_next s.primary_epoch) [
      | none ↦ err CoreError.epoch_exhausted
      | some epoch ↦ ok (some (previous, status, epoch))
    ]
  ]
]

unfoldable pub revoke_previous : Option (ActorId × ActorStatus × Epoch) → Supervisor → Supervisor
revoke_previous none s = s
revoke_previous (some (previous, status, epoch)) s = record s {
  actors = update previous (set_status status) s.actors;
  primary_epoch = epoch;
}

unfoldable pub grant_primary : ActorId → ActorRole → Option ActorProfileSnapshot → Action ActorRef
unfolding next_actor_epoch primary_replacement revoke_previous record_actor_generation_anchor
grant_primary id role profile = do
  s ← get
  epoch ← lift (next_actor_epoch s id)
  replacement ← lift (primary_replacement s s.active_primary)
  modify (revoke_previous replacement)
  modify (λ t. record t {
    actors = insert id (healthy_actor t.workspace_id id none role profile epoch) t.actors;
    active_primary = some id;
  })
  modify (record_actor_generation_anchor (record { actor_id = id; actor_epoch = epoch }) none)
  pure (record { actor_id = id; actor_epoch = epoch })

abbrev pub held_ref : Option Actor → Option ActorRef
held_ref none = none
held_ref (some a) = some (actor_ref a)

-- `activate_primary_inner`
unfoldable pub activate_primary :
    ActorId → ActorRole → Option ActorProfileSnapshot → Action ActorRef
unfolding grant_primary
activate_primary id role profile = do
  s ← get
  lift (fail_if (actors_full s id) (quota "actors" max_domain_entities))
  let proposed = healthy_actor s.workspace_id id none role profile initial
  lift (map_err CoreError.validation (validate_actor proposed))
  lift (
      fail_if (not (has_capability proposed human_facing_primary))
        (CoreError.unauthorized "activate Primary without human_facing_primary capability"))
  lift (
      fail_if (conflicts role profile none (lookup id s.actors))
        (CoreError.already_exists "actor id"))
  holder ← pure (current_primary s id)
  return_some (held_ref holder) (grant_primary id role profile)

reopen_team : TeamId → Team → Action Epoch
unfolding supersede_terminal_team_delivery_history mark_team_activity
reopen_team id team = do
  next ← lift (ok_or (checked_next team.epoch) CoreError.epoch_exhausted)
  modify (supersede_terminal_team_delivery_history id team.epoch)
  modify (λ s. record s {
    teams =
        update id (λ t. record t { epoch = next; status = TeamStatus.active; actors = [] }) s.teams;
    nonterminal_request_counts = insert id 0 s.nonterminal_request_counts;
  })
  modify (mark_team_activity id)
  pure next

found_team : TeamId → Option TeamProfileSnapshot → Team → Action Epoch
unfolding reopen_team
found_team id profile team =
    if not (eqb TeamProfile-discrete team.profile profile)
    then lift (err (CoreError.already_exists "team profile"))
    else if team_is_over team.status
    then reopen_team id team
    else pure team.epoch

insert_team : TeamId → Option TeamProfileSnapshot → Action Epoch
unfolding mark_team_activity
insert_team id profile = do
  lift (elim profile [
    | none ↦ ok tt
    | some p ↦ map_err CoreError.validation (validate_team_profile p)
  ])
  s ← get
  lift (fail_if (leb max_domain_entities (length s.teams)) (quota "teams" max_domain_entities))
  modify (λ t. record t {
    teams =
        insert id
          (record {
            team_id = id;
            workspace_id = t.workspace_id;
            epoch = initial;
            status = TeamStatus.active;
            actors = [];
            profile = profile;
          })
          t.teams;
    nonterminal_request_counts = insert id 0 t.nonterminal_request_counts;
  })
  modify (mark_team_activity id)
  pure initial

-- `create_team_inner`
unfoldable pub create_team : TeamId → Option TeamProfileSnapshot → Action Epoch
unfolding found_team insert_team
create_team id profile = do
  s ← get
  elim (lookup id s.teams) [
    | none ↦ insert_team id profile
    | some team ↦ found_team id profile team
  ]

unfoldable pub set_team_status : TeamId → TeamStatus → Action Unit
unfolding mark_team_activity
set_team_status id status = do
  s ← get
  team ← lift (ok_or (lookup id s.teams) (CoreError.unknown_team id))
  next ← lift (transition_team team.status status)
  modify (λ t. record t { teams = update id (λ u. record u { status = next }) t.teams })
  modify (λ t. if eqb TeamStatus-discrete next team.status then t else mark_team_activity id t)

-- A human-facing actor with no team that does not hold the lease.
abbrev pub is_leaseless_primary : Supervisor → Actor → Bool
is_leaseless_primary s a =
    has_capability a human_facing_primary
    && not (is_some a.team_id)
    && not (is_active_primary s a.actor_id)

-- The next Primary fence, if the change takes the lease from its holder.
abbrev pub cleared_epoch : Supervisor → ActorId → ActorStatus → CoreResult (Option Epoch)
cleared_epoch s id next =
    if is_active_primary s id && not (actor_is_healthy next)
    then elim (checked_next s.primary_epoch) [
      | none ↦ err CoreError.epoch_exhausted
      | some epoch ↦ ok (some epoch)
    ]
    else ok none

abbrev pub clear_primary : Option Epoch → Supervisor → Supervisor
clear_primary none s = s
clear_primary (some epoch) s = record s { primary_epoch = epoch; active_primary = none }

unfoldable pub set_actor_status : ActorRef → ActorStatus → Action Unit
unfolding current_actor
set_actor_status r status = do
  s ← get
  actor ← lift (current_actor s r)
  lift (
      fail_if (is_leaseless_primary s actor && actor_is_healthy status)
        (CoreError.unauthorized "activate Primary before marking it healthy"))
  next ← lift (transition_actor actor.status status)
  epoch ← lift (cleared_epoch s actor.actor_id next)
  modify (λ t. record t { actors = update r.actor_id (set_status next) t.actors })
  modify (clear_primary epoch)

abbrev pub later : Option TimestampMillis → TimestampMillis → Option TimestampMillis
later none observed = some observed
later (some current) observed = some (max current observed)

unfoldable pub heartbeat : ActorRef → TimestampMillis → Action Unit
unfolding set_actor_status
heartbeat r observed = do
  s ← get
  lift (
      fail_if (is_some_and (lookup r.actor_id s.actors) (is_leaseless_primary s))
        (CoreError.unauthorized "heartbeat without active Primary lease"))
  set_actor_status r ActorStatus.healthy
  modify (λ t. record t {
    actors =
        update r.actor_id (λ a. record a { last_heartbeat_at = later a.last_heartbeat_at observed })
          t.actors;
  })
