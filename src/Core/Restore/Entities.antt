-- ===== src/Core/Restore/Entities.antt =====
-- crates/agsv-core/src/supervisor.rs: actors, teams and runs read back from a snapshot. The index in
-- a path of an error is left out, and a digest of the model is a valid one.
use agent_supervisor.Common.{
  ℕ, String, Bool, true, false, not, ◌&&◌, ◌||◌, Option, none, some, List, [], ◌∷◌, ltb, ◌==◌,
  is_some, is_none_or, eqb,
}
use agent_supervisor.Common.Maps.{
  Map, nat_key, lookup, contains_key, insert, values, contains, set_insert,
}
use agent_supervisor.Common.Lists.{length}
use agent_supervisor.Common.Result.{Result, ok, ok_or, map_err, fail_if, ◌>>=◌, ◌>>◌}
use agent_supervisor.Protocol.Ids.{WorkspaceId, TeamId, ActorId, RunId, RequestId}
use agent_supervisor.Protocol.Validation.{ValidationError, at, validate_count, max_domain_entities}
use agent_supervisor.Protocol.Status.{actor_is_healthy}
use agent_supervisor.Protocol.Actor.{
  ActorRef, ActorProfileSnapshot, TeamProfileSnapshot, Actor, Team, ActorRef-discrete, actor_ref,
  has_capability, human_facing_primary, validate_actor, validate_team_profile,
}
use agent_supervisor.Protocol.Work.{Request, Run}
use agent_supervisor.Core.Error.{CoreError, CoreResult}

-- A list of entities by their ids: each is checked, and an id that stands already is refused.
module _ {V : Type 0} (check : V → CoreResult (Unit {0})) (id : V → ℕ) (path reason : String) where
  unfoldable pub restore_into : Map ℕ V → List V → CoreResult (Map ℕ V)
  restore_into m [] = ok m
  restore_into m (v ∷ vs) = do
    check v
    fail_if (contains_key (id v) m) (CoreError.invalid_snapshot path reason)
    restore_into (insert (id v) v m) vs

abbrev pub check_actor : WorkspaceId → Actor → CoreResult (Unit {0})
check_actor workspace a = do
  map_err CoreError.validation (validate_actor a)
  fail_if (not (a.workspace_id == workspace))
      (CoreError.invalid_snapshot "actors.workspace_id" "actor belongs to another workspace")

unfoldable pub restore_actors : WorkspaceId → List Actor → CoreResult (Map ActorId Actor)
restore_actors workspace actors =
    restore_into (check_actor workspace) (λ (a : Actor). a.actor_id) "actors.actor_id"
      "duplicate actor id" [] actors

-- The actor that an active Primary names.
abbrev pub check_holder : Option ActorRef → Map ActorId Actor → CoreResult (Unit {0})
check_holder none actors = ok tt
check_holder (some r) actors = do
  a ←
      ok_or (lookup r.actor_id actors)
        (CoreError.invalid_snapshot "active_primary.actor_id" "active Primary actor is missing")
  fail_if
      (not (has_capability a human_facing_primary)
        || not (eqb ActorRef-discrete (actor_ref a) r)
        || not (actor_is_healthy a.status)
        || is_some a.team_id)
      (CoreError.invalid_snapshot "active_primary" "active Primary is inconsistent")

abbrev pub leads : Actor → Bool
leads a =
    has_capability a human_facing_primary && not (is_some a.team_id) && actor_is_healthy a.status

-- No other healthy Primary than the active one.
unfoldable pub check_rivals : Option ActorRef → List Actor → CoreResult (Unit {0})
check_rivals active [] = ok tt
check_rivals active (a ∷ rest) = do
  fail_if (leads a && is_none_or active (λ r. not (r.actor_id == a.actor_id))) (
      CoreError.invalid_snapshot "active_primary"
        "a healthy Primary actor must hold the active lease")
  check_rivals active rest

unfoldable pub validate_active_primary : Option ActorRef → Map ActorId Actor → CoreResult (Unit {0})
validate_active_primary active actors = do
  check_holder active actors
  check_rivals active (values actors)

abbrev pub profiles_match : Option TeamProfileSnapshot → Option ActorProfileSnapshot → Bool
profiles_match none none = true
profiles_match (some t) (some a) = t.actor_profile == a.name
profiles_match none (some a) = false
profiles_match (some t) none = false

abbrev pub team_profile_matches_actor : Team → Actor → Bool
team_profile_matches_actor team actor = profiles_match team.profile actor.profile

abbrev pub is_team : Option TeamId → TeamId → Bool
is_team none team = false
is_team (some t) team = t == team

-- The members of a team, with those before them.
unfoldable pub check_members :
    Map ActorId Actor → Team → List ActorId → List ActorId → CoreResult (Unit {0})
check_members actors team seen [] = ok tt
check_members actors team seen (id ∷ ids) = do
  fail_if (contains id seen)
      (CoreError.invalid_snapshot "teams.actors" "duplicate actor id in team")
  actor ←
      ok_or (lookup id actors)
        (CoreError.invalid_snapshot "teams.actors" "team references an unknown actor")
  fail_if (not (is_team actor.team_id team.team_id) || not (team_profile_matches_actor team actor))
      (CoreError.invalid_snapshot "teams.actors"
        "team actor profile or reverse team link is inconsistent")
  check_members actors team (set_insert id seen) ids

abbrev pub validate_profile_of : Option TeamProfileSnapshot → Result ValidationError (Unit {0})
validate_profile_of none = ok tt
validate_profile_of (some p) = map_err (at "profile") (validate_team_profile p)

-- `Team::validate`
abbrev pub validate_team : Team → Result ValidationError (Unit {0})
validate_team team = do
  validate_profile_of team.profile
  validate_count "actors" (length team.actors) max_domain_entities

abbrev pub check_team : WorkspaceId → Map ActorId Actor → Team → CoreResult (Unit {0})
check_team workspace actors team = do
  map_err (λ e. CoreError.validation (at "teams" e)) (validate_team team)
  fail_if (not (team.workspace_id == workspace))
      (CoreError.invalid_snapshot "teams.workspace_id" "team belongs to another workspace")
  check_members actors team [] team.actors

unfoldable pub restore_teams :
    WorkspaceId → List Team → Map ActorId Actor → CoreResult (Map TeamId Team)
restore_teams workspace teams actors =
    restore_into (check_team workspace actors) (λ (t : Team). t.team_id) "teams.team_id"
      "duplicate team id" [] teams

abbrev pub check_team_link : Map TeamId Team → Actor → Option TeamId → CoreResult (Unit {0})
check_team_link teams actor none = ok tt
check_team_link teams actor (some id) = do
  team ←
      ok_or (lookup id teams) (CoreError.invalid_snapshot "actors.team_id" "actor team is missing")
  fail_if (not (contains actor.actor_id team.actors) || not (team_profile_matches_actor team actor))
      (CoreError.invalid_snapshot "actors.team_id"
        "team actor profile or reverse link is inconsistent")

unfoldable pub check_team_links : Map TeamId Team → List Actor → CoreResult (Unit {0})
check_team_links teams [] = ok tt
check_team_links teams (a ∷ rest) = do
  check_team_link teams a a.team_id
  check_team_links teams rest

unfoldable pub validate_actor_team_links :
    Map ActorId Actor → Map TeamId Team → CoreResult (Unit {0})
validate_actor_team_links actors teams = check_team_links teams (values actors)

abbrev pub check_run :
    WorkspaceId → Map RequestId Request → Map TeamId Team → Run → CoreResult (Unit {0})
check_run workspace requests teams run = do
  fail_if (not (run.workspace_id == workspace))
      (CoreError.invalid_snapshot "runs.workspace_id" "run belongs to another workspace")
  team ←
      ok_or (lookup run.team_id teams)
        (CoreError.invalid_snapshot "runs" "run request or team is missing")
  fail_if (ltb team.epoch run.team_epoch || not (contains_key run.request_id requests)) (
      CoreError.invalid_snapshot "runs.team_epoch" "run team generation or request is inconsistent")

unfoldable pub restore_runs :
    WorkspaceId → List Run → Map RequestId Request → Map TeamId Team → CoreResult (Map RunId Run)
restore_runs workspace runs requests teams =
    restore_into (check_run workspace requests teams) (λ (r : Run). r.run_id) "runs.run_id"
      "duplicate run id" [] runs
