-- ===== src/Core/Teams.antt =====
-- crates/agsv-core/src/supervisor.rs: the registration of a team's actors and their replacement,
-- which moves the fences of the team, of the actor and of its assignments together.
use agent_supervisor.Common.{
  Bool, true, false, not, ◌&&◌, ◌||◌, Option, none, some, List, [], ◌∷◌, ◌++◌, leb, ◌==◌,
  if◌then◌else◌,
}
use agent_supervisor.Common.Lists.{length, any}
use agent_supervisor.Common.Maps.{
  Map, nat_key, lookup, contains_key, insert, update, map_values, retain, values, set_insert,
}
use agent_supervisor.Common.Result.{ok, err, ok_or, fail_if, map_err, transpose}
use agent_supervisor.Common.Exec.{pure, lift, get, modify, return_some, ◌>>=◌, ◌>>◌}
use agent_supervisor.Protocol.Ids.{TeamId, ActorId, RunId, RequestId, Epoch, initial, checked_next}
use agent_supervisor.Protocol.Status.{
  ActorStatus, actor_is_healthy, actor_is_gone, actor_is_stopped, team_is_active, is_terminal,
}
use agent_supervisor.Protocol.Validation.{max_domain_entities}
use agent_supervisor.Protocol.Actor.{
  ActorRef, ActorRole, ActorProfileSnapshot, TeamProfileSnapshot, Actor, Team, actor_ref,
  validate_actor,
}
use agent_supervisor.Protocol.Work.{Assignment, Request, Run}
use agent_supervisor.Core.Error.{CoreError, CoreResult}
use agent_supervisor.Core.Transitions.{transition_actor}
use agent_supervisor.Core.State.{
  Supervisor, PendingHandoff, Action, ensure_known_team, next_actor_epoch,
  record_actor_generation_anchor, healthy_actor,
}
use agent_supervisor.Core.Mailbox.{supersede_generation, retire_fully_acknowledged}
use agent_supervisor.Core.Registry.{quota, actors_full, conflicts, set_status}

-- `team.actors.contains(id)`
abbrev pub has_member : Team → ActorId → Bool
has_member team id = any (λ member. member == id) team.actors

profiles_agree : Option TeamProfileSnapshot → Option ActorProfileSnapshot → Bool
profiles_agree none none = true
profiles_agree (some t) (some a) = t.actor_profile == a.name
profiles_agree none (some a) = false
profiles_agree (some t) none = false

unfoldable pub ensure_team_profile_actor :
    Team → Option ActorProfileSnapshot → CoreResult (Unit {0})
unfolding profiles_agree
ensure_team_profile_actor team profile =
    fail_if (not (profiles_agree team.profile profile))
      (CoreError.already_exists "team actor profile")

-- The registration is there already: the same healthy member of the team.
abbrev registered :
    ActorId
    → ActorRole
    → Option ActorProfileSnapshot
    → TeamId
    → Team
    → Option Actor
    → Option ActorRef
registered id role profile team t none = none
registered id role profile team t (some a) =
    if not (conflicts role profile (some team) (some a))
      && actor_is_healthy a.status
      && has_member t id
    then some (actor_ref a)
    else none

-- The actor of this id cannot start a new generation in the team.
abbrev unregistrable :
    ActorId → ActorRole → Option ActorProfileSnapshot → TeamId → Team → Option Actor → Bool
unregistrable id role profile team t none = false
unregistrable id role profile team t (some a) =
    conflicts role profile (some team) (some a) || not (actor_is_gone a.status) || has_member t id

add_member : TeamId → ActorId → ActorRole → Option ActorProfileSnapshot → Action ActorRef
unfolding next_actor_epoch record_actor_generation_anchor
add_member team id role profile = do
  s ← get
  epoch ← lift (next_actor_epoch s id)
  modify (λ t. record t {
    actors = insert id (healthy_actor t.workspace_id id (some team) role profile epoch) t.actors;
    teams = update team (λ u. record u { actors = u.actors ++ id ∷ [] }) t.teams;
  })
  modify
      (record_actor_generation_anchor (record { actor_id = id; actor_epoch = epoch }) (some team))
  pure (record { actor_id = id; actor_epoch = epoch })

-- `register_implementation_inner`
unfoldable pub register_implementation :
    TeamId → ActorId → ActorRole → Option ActorProfileSnapshot → Action ActorRef
unfolding ensure_known_team ensure_team_profile_actor add_member
register_implementation team id role profile = do
  s ← get
  lift (fail_if (actors_full s id) (quota "actors" max_domain_entities))
  t ← lift (ensure_known_team s team)
  lift (
      fail_if (not (team_is_active t.status))
        (CoreError.unauthorized "register actor for inactive team"))
  lift (ensure_team_profile_actor t profile)
  lift (
      map_err CoreError.validation
        (validate_actor (healthy_actor s.workspace_id id (some team) role profile initial)))
  return_some (registered id role profile team t (lookup id s.actors)) (do
    lift (
        fail_if (unregistrable id role profile team t (lookup id s.actors))
          (CoreError.already_exists "actor id"))
    lift (
        fail_if (leb max_domain_entities (length t.actors))
          (quota "team actors" max_domain_entities))
    add_member team id role profile)

-- A request whose assignment moves: its id, its run and the next assignment fence.
pub record Reassignment : Type 0 where
  pub request_id : RequestId
  pub run_id : RunId
  pub epoch : Epoch

-- One request of the plan: refused, kept, or moved.
plan_request : Supervisor → ActorId → Request → CoreResult (Option Reassignment)
plan_request s replaced q = elim q.assignment [
  | none ↦ err CoreError.not_assigned_actor
  | some assignment ↦
      if not (assignment.actor.actor_id == replaced)
      then ok none
      else if not (contains_key q.run_id s.runs)
      then err (CoreError.unknown_run q.run_id)
      else if is_terminal q.status
      then ok none
      else elim (checked_next assignment.epoch) [
        | none ↦ err CoreError.epoch_exhausted
        | some epoch ↦
            ok (some (record { request_id = q.request_id; run_id = q.run_id; epoch = epoch }))
      ]
]

abbrev cons_some :
    Option Reassignment → CoreResult (List Reassignment) → CoreResult (List Reassignment)
cons_some none rest = rest
cons_some (some r) (ok rs) = ok (r ∷ rs)
cons_some (some r) (err e) = err e

abbrev plan_step :
    CoreResult (Option Reassignment)
    → CoreResult (List Reassignment)
    → CoreResult (List Reassignment)
plan_step (ok r) rest = cons_some r rest
plan_step (err e) rest = err e

-- `replacement_assignment_plan`, over the requests of the team in order.
replacement_assignment_plan :
    Supervisor → TeamId → ActorId → List Request → CoreResult (List Reassignment)
unfolding plan_request
replacement_assignment_plan s team replaced [] = ok []
replacement_assignment_plan s team replaced (q ∷ qs) =
    let rest = replacement_assignment_plan s team replaced qs in
    if q.team_id == team then plan_step (plan_request s replaced q) rest else rest

-- A request of the team that is not over follows the team's new generation.
abbrev follows : TeamId → Request → Bool
follows team q = q.team_id == team && not (is_terminal q.status)

-- The runs of those requests follow too. A request whose run is missing, at which the source's
-- `expect` panics, writes nothing here.
roll_runs : TeamId → Epoch → List Request → Map RunId Run → Map RunId Run
roll_runs team epoch [] runs = runs
roll_runs team epoch (q ∷ qs) runs =
    let rest = roll_runs team epoch qs runs in
    if follows team q then update q.run_id (λ r. record r { team_epoch = epoch }) rest else rest

abbrev roll_requests : TeamId → Epoch → Supervisor → Supervisor
roll_requests team epoch s = record s {
  requests =
      map_values (λ q. if follows team q then record q { team_epoch = epoch } else q) s.requests;
  runs = roll_runs team epoch (values s.requests) s.runs;
}

reassign : ActorRef → List Reassignment → Supervisor → Supervisor
reassign actor [] s = s
reassign actor (r ∷ rs) s =
    let moved : Assignment = record { actor = actor; epoch = r.epoch } in
    reassign actor rs (record s {
      requests = update r.request_id (λ q. record q { assignment = some moved }) s.requests;
      runs = update r.run_id (λ u. record u { assignment = some moved }) s.runs;
      handoffs =
          retain (λ (p : PendingHandoff). not (p.offer.request_id == r.request_id)) s.handoffs;
    })

-- The status of the replaced actor, unless it is missing or stopped.
revoked_status : Option Actor → CoreResult (Option ActorStatus)
revoked_status none = ok none
revoked_status (some a) =
    if actor_is_stopped a.status
    then ok none
    else transpose (some (transition_actor a.status ActorStatus.revoked))

revoke_replaced : ActorId → Option ActorStatus → Supervisor → Supervisor
revoke_replaced id none s = s
revoke_replaced id (some status) s = record s { actors = update id (set_status status) s.actors }

abbrev roll_team : ActorId → Epoch → Team → Team
roll_team id epoch t = record t {
  epoch = epoch;
  actors = if has_member t id then t.actors else t.actors ++ id ∷ [];
}

abbrev roll_epoch_ids : TeamId → Supervisor → Supervisor
roll_epoch_ids team s = record s {
  pending_observability = record s.pending_observability {
    epoch_roll_team_ids = set_insert team s.pending_observability.epoch_roll_team_ids;
  };
}

-- What `replace_implementation_inner` writes once every check has passed.
commit_replacement :
    TeamId
    → Epoch
    → Epoch
    → ActorRef
    → ActorRole
    → Option ActorProfileSnapshot
    → Option ActorStatus
    → List Reassignment
    → Supervisor
    → Supervisor
unfolding revoke_replaced roll_runs reassign supersede_generation retire_fully_acknowledged
    record_actor_generation_anchor
commit_replacement team previous next actor role profile status plan s =
    let id = actor.actor_id in
    let s1 = revoke_replaced id status s in
    let s2 = record s1 {
      actors =
          insert id (healthy_actor s1.workspace_id id (some team) role profile actor.actor_epoch)
            s1.actors;
      teams = update team (roll_team id next) s1.teams;
    } in
    let s3 = reassign actor plan (roll_requests team next s2) in
    let s4 = retire_fully_acknowledged (supersede_generation team previous s3) in
    roll_epoch_ids team (record_actor_generation_anchor actor (some team) s4)

-- `replace_implementation_inner`; the source of the replacement is the actor itself, which must be
-- a member of the team.
unfoldable pub replace_implementation :
    TeamId → ActorId → ActorRole → Option ActorProfileSnapshot → Action ActorRef
unfolding ensure_known_team ensure_team_profile_actor next_actor_epoch revoked_status
    replacement_assignment_plan commit_replacement
replace_implementation team id role profile = do
  s ← get
  t ← lift (ensure_known_team s team)
  lift (
      fail_if (not (team_is_active t.status))
        (CoreError.unauthorized "replace actor for inactive team"))
  lift (fail_if (not (has_member t id)) (CoreError.unknown_actor id))
  lift (ensure_team_profile_actor t profile)
  lift (
      map_err CoreError.validation
        (validate_actor (healthy_actor s.workspace_id id (some team) role profile initial)))
  lift (
      fail_if (conflicts role profile (some team) (lookup id s.actors))
        (CoreError.already_exists "actor id"))
  lift (fail_if (actors_full s id) (quota "actors" max_domain_entities))
  lift (
      fail_if (leb max_domain_entities (length t.actors) && not (has_member t id))
        (quota "team actors" max_domain_entities))
  next ← lift (ok_or (checked_next t.epoch) CoreError.epoch_exhausted)
  epoch ← lift (next_actor_epoch s id)
  status ← lift (revoked_status (lookup id s.actors))
  plan ← lift (replacement_assignment_plan s team id (values s.requests))
  let actor : ActorRef = record { actor_id = id; actor_epoch = epoch }
  modify (commit_replacement team t.epoch next actor role profile status plan)
  pure actor
