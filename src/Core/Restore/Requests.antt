-- ===== src/Core/Restore/Requests.antt =====
-- crates/agsv-core/src/supervisor.rs: requests read back from a snapshot, their links with runs, and
-- the counts that are derived from them.
use agent_supervisor.Common.{
  ℕ, Bool, true, false, not, ◌&&◌, ◌||◌, Option, none, some, List, [], ◌∷◌, ltb, ◌==◌, is_some_and,
  is_none_or, eqb, ℕ_discrete, if◌then◌else◌,
}
use agent_supervisor.Common.Maps.{
  Map, nat_key, lookup, contains_key, insert, update, values, contains, set_insert,
}
use agent_supervisor.Common.Result.{ok, ok_or, fail_if, ◌>>=◌, ◌>>◌}
use agent_supervisor.Protocol.Ids.{
  WorkspaceId, TeamId, ActorId, RunId, RequestId, DecisionId, Epoch, checked_add,
}
use agent_supervisor.Protocol.Status.{RequestStatus, is_terminal, request_blocks_team_close}
use agent_supervisor.Protocol.Actor.{
  Actor, Team, ActorRef-discrete, OptionId-discrete, actor_ref, has_capability,
  implementation_execution,
}
use agent_supervisor.Protocol.Work.{Assignment, ReviewDecisionRef, Request, Run}
use agent_supervisor.Core.Error.{CoreError, CoreResult}
use agent_supervisor.Core.Transitions.Pairing.{run_status_matches_request}
use agent_supervisor.Core.Restore.Reviews.{
  validate_request_candidate, validate_request_review_state,
}

abbrev pub is_open : RequestStatus → Bool
is_open RequestStatus.opened = true
is_open _ = false

-- An assignment of the current generation, or an older one of a request that the team has left
-- behind.
abbrev pub generation_matches : Request → Team → Actor → Assignment → Bool
generation_matches q team actor a =
    eqb ActorRef-discrete (actor_ref actor) a.actor
    || (ltb q.team_epoch team.epoch
        && not (request_blocks_team_close q.status)
        && not (ltb actor.epoch a.actor.actor_epoch))

abbrev pub validate_assignment :
    Option Assignment → Request → Map ActorId Actor → Team → CoreResult (Unit {0})
validate_assignment none q actors team =
    fail_if (not (is_open q.status))
      (CoreError.invalid_snapshot "assignment" "non-open request has no active assignment")
validate_assignment (some a) q actors team = do
  fail_if (is_open q.status)
      (CoreError.invalid_snapshot "assignment" "open request unexpectedly has an assignment")
  actor ←
      ok_or (lookup a.actor.actor_id actors)
        (CoreError.invalid_snapshot "assignment.actor" "assignment actor is missing")
  fail_if
      (not (generation_matches q team actor a)
        || not (has_capability actor implementation_execution)
        || not (eqb OptionId-discrete actor.team_id (some q.team_id)))
      (CoreError.invalid_snapshot "assignment.actor" "assignment actor is inconsistent")

unfoldable pub validate_request_assignment :
    Request → Map ActorId Actor → Team → CoreResult (Unit {0})
validate_request_assignment q actors team = validate_assignment q.assignment q actors team

unfoldable pub validate_request :
    WorkspaceId → Epoch → Request → Map ActorId Actor → Map TeamId Team → CoreResult (Unit {0})
validate_request workspace policy q actors teams = do
  fail_if (not (q.workspace_id == workspace))
      (CoreError.invalid_snapshot "requests.workspace_id" "request belongs to another workspace")
  team ←
      ok_or (lookup q.team_id teams)
        (CoreError.invalid_snapshot "requests.team_id" "request team is missing")
  fail_if (ltb team.epoch q.team_epoch) (
      CoreError.invalid_snapshot "requests.team_epoch"
        "request team generation is newer than its logical team")
  fail_if (request_blocks_team_close q.status && not (q.team_epoch == team.epoch)) (
      CoreError.invalid_snapshot "requests.team_epoch"
        "active request does not belong to the current team generation")
  validate_request_assignment q actors team
  validate_request_candidate q actors teams
  validate_request_review_state policy q actors

abbrev pub decided_before : Option ReviewDecisionRef → List DecisionId → Bool
decided_before none decisions = false
decided_before (some d) decisions = contains d.decision_id decisions

abbrev pub with_decision : Option ReviewDecisionRef → List DecisionId → List DecisionId
with_decision none decisions = decisions
with_decision (some d) decisions = set_insert d.decision_id decisions

module _ (workspace : WorkspaceId) (policy : Epoch) (actors : Map ActorId Actor)
    (teams : Map TeamId Team) where
  -- The requests before, and the ids of their decisions.
  unfoldable pub restore_requests_into :
      Map RequestId Request → List DecisionId → List Request → CoreResult (Map RequestId Request)
  restore_requests_into m decisions [] = ok m
  restore_requests_into m decisions (q ∷ qs) = do
    validate_request workspace policy q actors teams
    fail_if (decided_before q.decision decisions)
        (CoreError.invalid_snapshot "requests.decision.decision_id" "duplicate current decision id")
    fail_if (contains_key q.request_id m)
        (CoreError.invalid_snapshot "requests.request_id" "duplicate request id")
    restore_requests_into (insert q.request_id q m) (with_decision q.decision decisions) qs

  unfoldable pub restore_requests : List Request → CoreResult (Map RequestId Request)
  restore_requests requests = restore_requests_into [] [] requests

unfoldable pub OptionAssignment-discrete : Discrete (Option Assignment)
OptionAssignment-discrete = hlevel ℕ_discrete

abbrev pub run_agrees : Run → Request → Bool
run_agrees run q =
    run.request_id == q.request_id
    && run.team_id == q.team_id
    && run.team_epoch == q.team_epoch
    && eqb OptionAssignment-discrete run.assignment q.assignment
    && run_status_matches_request run.status q.status

unfoldable pub check_request_runs : Map RunId Run → List Request → CoreResult (Unit {0})
check_request_runs runs [] = ok tt
check_request_runs runs (q ∷ qs) = do
  run ←
      ok_or (lookup q.run_id runs)
        (CoreError.invalid_snapshot "requests.run_id" "request run is missing")
  fail_if (not (run_agrees run q))
      (CoreError.invalid_snapshot "requests.run_id" "request and run state are inconsistent")
  check_request_runs runs qs

unfoldable pub check_run_requests : Map RequestId Request → List Run → CoreResult (Unit {0})
check_run_requests requests [] = ok tt
check_run_requests requests (r ∷ rs) = do
  fail_if (is_none_or (lookup r.request_id requests) (λ q. not (q.run_id == r.run_id))) (
      CoreError.invalid_snapshot "runs.request_id" "run and request reverse links are inconsistent")
  check_run_requests requests rs

unfoldable pub validate_request_run_links :
    Map RequestId Request → Map RunId Run → CoreResult (Unit {0})
validate_request_run_links requests runs = do
  check_request_runs runs (values requests)
  check_run_requests requests (values runs)

-- Every team with no request.
unfoldable pub zero_counts : Map TeamId Team → Map TeamId ℕ
zero_counts [] = []
zero_counts ((id, team) ∷ teams) = (id, 0) ∷ zero_counts teams

abbrev pub is_counted : Map TeamId Team → Request → Bool
is_counted teams q = is_some_and (lookup q.team_id teams) (λ team.
    not (is_terminal q.status)
    && (request_blocks_team_close q.status || q.team_epoch == team.epoch))

abbrev pub count_request : Map TeamId ℕ → Request → CoreResult (Map TeamId ℕ)
count_request counts q = do
  count ← ok_or (lookup q.team_id counts) (
      CoreError.invalid_snapshot "requests.team_id" "request team is missing while deriving counts")
  next ← ok_or (checked_add count 1) CoreError.epoch_exhausted
  ok (update q.team_id (λ _. next) counts)

unfoldable pub count_requests :
    Map TeamId Team → Map TeamId ℕ → List Request → CoreResult (Map TeamId ℕ)
count_requests teams counts [] = ok counts
count_requests teams counts (q ∷ qs) = do
  let counted = count_request counts q
  next ← if is_counted teams q then counted else ok counts
  count_requests teams next qs

unfoldable pub derive_nonterminal_request_counts :
    Map TeamId Team → Map RequestId Request → CoreResult (Map TeamId ℕ)
derive_nonterminal_request_counts teams requests =
    count_requests teams (zero_counts teams) (values requests)
