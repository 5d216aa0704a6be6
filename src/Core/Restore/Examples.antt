-- ===== src/Core/Restore/Examples.antt =====
-- crates/agsv-core/src/supervisor.rs: a small workspace that is read back.
use agent_supervisor.Common.{◌≡◌, ℕ, eqb, ℕ_discrete, refl, true, none, some, [], ◌∷◌}
use agent_supervisor.Common.Result.{ok, err}
use agent_supervisor.Common.Maps.{
  Map, nat_key, lookup, insert, update, values, contains_key, contains, set_insert,
}
use agent_supervisor.Protocol.Ids.{TeamId, ActorId, RunId, RequestId, HandoffId}
use agent_supervisor.Protocol.Status.{ActorStatus, TeamStatus, RequestStatus, RunStatus}
use agent_supervisor.Protocol.Actor.{
  ActorRef, ActorRole, Actor, Team, ActorRef-discrete, OptionId-discrete, has_capability,
  validate_actor,
}
use agent_supervisor.Protocol.Work.{Request, Run}
use agent_supervisor.Core.State.{Supervisor, PendingHandoff, new}
use agent_supervisor.Core.Error.{CoreError}
use agent_supervisor.Core.Restore.Handoffs.{
  is_ineligible, check_handoff, restore_handoffs_into, restore_handoffs,
}
use agent_supervisor.Core.Restore.Offered.{Offered, restore_handoffs-Offered}
use agent_supervisor.Core.Registry.Lease.{Leased}
use agent_supervisor.Core.Links.{Linked}
use agent_supervisor.Core.Restore.Entities.{
  leads, restore_into, check_rivals, restore_actors, validate_active_primary,
}
use agent_supervisor.Core.Restore.Requests.{
  validate_request, validate_request_assignment, restore_requests_into, OptionAssignment-discrete,
  check_request_runs, check_run_requests, zero_counts, count_requests, restore_requests,
  validate_request_run_links, derive_nonterminal_request_counts,
}
use agent_supervisor.Core.Restore.Reviews.{
  validate_request_candidate, validate_request_review_state, validate_status_review_shape,
}
use agent_supervisor.Core.Restore.Restored.{restore_requests-Linked, restore_actors-Leased}
use agent_supervisor.Core.Restore.Counts.{tally, derive_nonterminal_request_counts-tally}

abbrev leader : Actor
leader = record {
  actor_id = 1;
  workspace_id = 1;
  team_id = none;
  role = ActorRole.primary;
  profile = none;
  epoch = 1;
  status = ActorStatus.healthy;
  last_heartbeat_at = none;
}

abbrev worker : Actor
worker = record leader { actor_id = 2; team_id = some 5; role = ActorRole.implementation }

abbrev kept_actors : Map ActorId Actor
kept_actors = (1, leader) ∷ (2, worker) ∷ []

abbrev team : Team
team = record {
  team_id = 5;
  workspace_id = 1;
  epoch = 1;
  status = TeamStatus.active;
  actors = 2 ∷ [];
  profile = none;
}

abbrev kept_teams : Map TeamId Team
kept_teams = (5, team) ∷ []

abbrev request : Request
request = record {
  request_id = 7;
  workspace_id = 1;
  team_id = 5;
  team_epoch = 1;
  run_id = 9;
  specification = record { message_id = 3; payload_digest = 0; base_sha = 0 };
  status = RequestStatus.opened;
  assignment = none;
  candidate = none;
  decision = none;
  integration_authorization = none;
  rejection_count = 0;
  fix_cycle_depth = 0;
  candidate_history = [];
}

abbrev kept_requests : Map RequestId Request
kept_requests = (7, request) ∷ []

abbrev kept_runs : Map RunId Run
kept_runs =
    (
      9,
      record {
        run_id = 9;
        workspace_id = 1;
        team_id = 5;
        team_epoch = 1;
        request_id = 7;
        status = RunStatus.pending;
        assignment = none;
      },
    )
    ∷ []

abbrev active : ActorRef
active = record { actor_id = 1; actor_epoch = 1 }

abbrev kept_counts : Map TeamId ℕ
kept_counts = (5, 1) ∷ []

requests_restored : restore_requests 1 1 kept_actors kept_teams (request ∷ []) ≡ ok kept_requests
unfolding restore_requests restore_requests_into validate_request lookup validate_request_assignment
    validate_request_candidate validate_request_review_state validate_status_review_shape
    contains_key insert
requests_restored = refl

links_validated : validate_request_run_links kept_requests kept_runs ≡ ok tt
unfolding validate_request_run_links check_request_runs values lookup eqb OptionAssignment-discrete
    check_run_requests
links_validated = refl

actors_restored : restore_actors 1 (worker ∷ leader ∷ []) ≡ ok kept_actors
unfolding restore_actors restore_into validate_actor contains_key lookup insert
actors_restored = refl

primary_validated : validate_active_primary (some active) kept_actors ≡ ok tt
unfolding validate_active_primary lookup has_capability eqb ActorRef-discrete ℕ_discrete
    check_rivals values
primary_validated = refl

counts_derived : derive_nonterminal_request_counts kept_teams kept_requests ≡ ok kept_counts
unfolding derive_nonterminal_request_counts zero_counts count_requests lookup update values
counts_derived = refl

restore_requests-Linked_example : Linked kept_requests kept_runs
restore_requests-Linked_example =
    restore_requests-Linked 1 1 kept_actors kept_teams (request ∷ []) kept_requests kept_runs
      requests_restored links_validated

abbrev workspace : Supervisor
workspace = record (new 1 1) { actors = kept_actors; active_primary = some 1 }

restore_actors-Leased_example :
    Leased workspace
    × ((id : ActorId) (a : Actor)
        → lookup id kept_actors ≡ some a
        → leads a ≡ true
        → some 1 ≡ some id)
restore_actors-Leased_example =
    restore_actors-Leased 1 (worker ∷ leader ∷ []) kept_actors (some active) workspace
      actors_restored primary_validated refl refl

team_found : lookup 5 kept_teams ≡ some team
unfolding lookup
team_found = refl

derive_nonterminal_request_counts-tally_example :
    lookup 5 kept_counts ≡ some (tally kept_teams 5 (values kept_requests))
derive_nonterminal_request_counts-tally_example =
    derive_nonterminal_request_counts-tally kept_teams kept_requests kept_counts counts_derived 5
      team team_found

abbrev busy : Request
busy = record request {
  status = RequestStatus.assigned;
  assignment = some (record { actor = record { actor_id = 2; actor_epoch = 1 }; epoch = 1 });
}

abbrev kept_busy : Map RequestId Request
kept_busy = (7, busy) ∷ []

abbrev two_teams : Map TeamId Team
two_teams = (5, team) ∷ (6, record team { team_id = 6; actors = [] }) ∷ []

abbrev handoff : PendingHandoff
handoff = record {
  offer = record {
    message_id = 4;
    payload_digest = 0;
    handoff_id = 8;
    request_id = 7;
    from_team_id = 5;
    to_team_id = 6;
    candidate = none;
  };
  offered_by = record { actor_id = 2; actor_epoch = 1 };
  assignment_epoch = 1;
}

abbrev kept_handoffs : Map HandoffId PendingHandoff
kept_handoffs = (8, handoff) ∷ []

busy_restored : restore_requests 1 1 kept_actors two_teams (busy ∷ []) ≡ ok kept_busy
unfolding restore_requests restore_requests_into validate_request lookup validate_request_assignment
    validate_request_candidate validate_request_review_state validate_status_review_shape
    contains_key insert has_capability eqb OptionId-discrete ℕ_discrete ActorRef-discrete
busy_restored = refl

handoffs_restored :
    restore_handoffs kept_actors two_teams kept_busy (handoff ∷ []) ≡ ok kept_handoffs
unfolding restore_handoffs restore_handoffs_into check_handoff is_ineligible lookup contains_key
    contains insert eqb ActorRef-discrete ℕ_discrete
handoffs_restored = refl

-- A second handoff of the same request is refused.
second_refused :
    restore_handoffs kept_actors two_teams kept_busy
      (handoff ∷ record handoff { offer = record handoff.offer { handoff_id = 9 } } ∷ [])
    ≡ err (
        CoreError.invalid_snapshot "pending_handoffs.offer.request_id"
          "request has multiple or ineligible pending handoffs")
unfolding restore_handoffs restore_handoffs_into check_handoff is_ineligible lookup contains_key
    contains insert set_insert eqb ActorRef-discrete ℕ_discrete
second_refused = refl

restore_handoffs-Offered_example :
    ((id : HandoffId) (h : PendingHandoff)
      → lookup id kept_handoffs ≡ some h
      → (h.offer.handoff_id ≡ id) × Offered kept_actors two_teams kept_busy h)
    × ((i j : HandoffId) (g h : PendingHandoff)
        → lookup i kept_handoffs ≡ some g
        → lookup j kept_handoffs ≡ some h
        → g.offer.request_id ≡ h.offer.request_id
        → i ≡ j)
restore_handoffs-Offered_example =
    restore_handoffs-Offered 1 1 kept_actors two_teams (busy ∷ []) kept_busy (handoff ∷ [])
      kept_handoffs busy_restored handoffs_restored
