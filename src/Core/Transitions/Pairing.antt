-- ===== src/Core/Transitions/Pairing.antt =====
-- crates/agsv-core/src/transitions.rs and supervisor.rs: the state machines of a request and of its
-- run, side by side.
use agent_supervisor.Common.{Bool, true, false, ◌≡◌, ◌⊎◌, arith}
use agent_supervisor.Common.Result.{ok, err}
use agent_supervisor.Protocol.Status.{RequestStatus, RunStatus}
use agent_supervisor.Core.Error.{CoreError}
use agent_supervisor.Core.Transitions.{RequestEvent, RunEvent, transition_request, transition_run}

-- `run_status_matches_request`: the run's status may stand beside the request's.
abbrev pub run_status_matches_request : RunStatus → RequestStatus → Bool
run_status_matches_request RunStatus.pending RequestStatus.opened = true
run_status_matches_request RunStatus.active RequestStatus.assigned = true
run_status_matches_request RunStatus.paused RequestStatus.assigned = true
run_status_matches_request RunStatus.active RequestStatus.in_progress = true
run_status_matches_request RunStatus.paused RequestStatus.in_progress = true
run_status_matches_request RunStatus.blocked RequestStatus.blocked = true
run_status_matches_request RunStatus.paused RequestStatus.blocked = true
run_status_matches_request RunStatus.awaiting_review RequestStatus.candidate_ready = true
run_status_matches_request RunStatus.revision_requested RequestStatus.changes_requested = true
run_status_matches_request RunStatus.accepted RequestStatus.accepted = true
run_status_matches_request RunStatus.authorized RequestStatus.integration_authorized = true
run_status_matches_request RunStatus.cancelled RequestStatus.cancelled = true
run_status_matches_request RunStatus.completed RequestStatus.completed = true
run_status_matches_request _ _ = false

-- The pairs of events that the handlers of messages apply to a request and its run.
pub data Paired : RequestEvent → RunEvent → Type 0 where
  progress : Paired RequestEvent.start RunEvent.resume
  blocker : Paired RequestEvent.block RunEvent.block
  candidate : Paired RequestEvent.submit_candidate RunEvent.submit_candidate
  rejection : Paired RequestEvent.reject_candidate RunEvent.reject_candidate
  acceptance : Paired RequestEvent.accept_candidate RunEvent.accept_candidate
  authorization : Paired RequestEvent.authorize_integration RunEvent.authorize_integration
  completion : Paired RequestEvent.complete RunEvent.complete
  cancellation : Paired RequestEvent.cancel RunEvent.cancel

-- Each pair of events that a handler applies to a request and its run, where both machines
-- accept it, leads from matching statuses to matching statuses.
pub Paired-matches :
    {qe : RequestEvent} {re : RunEvent} (p : Paired qe re) (q q' : RequestStatus) (r r' : RunStatus)
    → run_status_matches_request r q ≡ true
    → transition_request q qe ≡ ok q'
    → transition_run r re ≡ ok r'
    → run_status_matches_request r' q' ≡ true
unfolding transition_request transition_run
Paired-matches progress q q' r r' m h k = ground arith
Paired-matches blocker q q' r r' m h k = ground arith
Paired-matches candidate q q' r r' m h k = ground arith
Paired-matches rejection q q' r r' m h k = ground arith
Paired-matches acceptance q q' r r' m h k = ground arith
Paired-matches authorization q q' r r' m h k = ground arith
Paired-matches completion q q' r r' m h k = ground arith
Paired-matches cancellation q q' r r' m h k = ground arith

-- A pause of the run alone keeps the match.
pub pause-matches :
    (q : RequestStatus) (r r' : RunStatus)
    → run_status_matches_request r q ≡ true
    → transition_run r RunEvent.pause ≡ ok r'
    → run_status_matches_request r' q ≡ true
unfolding transition_run
pause-matches q r r' m k = ground arith

-- Of the pairs of events that handlers apply, a run beside a matching request refuses one that
-- the request accepts only while it is paused, or where a blocker follows a rejection.
pub Paired-refused :
    {qe : RequestEvent} {re : RunEvent} (p : Paired qe re) (q q' : RequestStatus) (r : RunStatus)
    (x : CoreError)
    → run_status_matches_request r q ≡ true
    → transition_request q qe ≡ ok q'
    → transition_run r re ≡ err x
    → (r ≡ RunStatus.paused) ⊎ ((q ≡ RequestStatus.changes_requested) × (re ≡ RunEvent.block))
unfolding transition_request transition_run
Paired-refused progress q q' r x m h k = ground arith
Paired-refused blocker q q' r x m h k = ground arith
Paired-refused candidate q q' r x m h k = ground arith
Paired-refused rejection q q' r x m h k = ground arith
Paired-refused acceptance q q' r x m h k = ground arith
Paired-refused authorization q q' r x m h k = ground arith
Paired-refused completion q q' r x m h k = ground arith
Paired-refused cancellation q q' r x m h k = ground arith
