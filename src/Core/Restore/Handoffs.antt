-- ===== src/Core/Restore/Handoffs.antt =====
-- crates/agsv-core/src/supervisor.rs: pending handoffs read back from a snapshot. The index in a
-- path of an error is left out, and a digest of the model is a valid one.
use agent_supervisor.Common.{
  Bool, true, false, not, ◌||◌, Option, none, some, List, [], ◌∷◌, ◌==◌, is_none_or, eqb,
}
use agent_supervisor.Common.Maps.{Map, nat_key, lookup, contains_key, insert, contains, set_insert}
use agent_supervisor.Common.Result.{ok, ok_or, fail_if, ◌>>=◌, ◌>>◌}
use agent_supervisor.Protocol.Ids.{TeamId, ActorId, RequestId, HandoffId}
use agent_supervisor.Protocol.Status.{RequestStatus}
use agent_supervisor.Protocol.Actor.{Actor, Team, ActorRef-discrete, actor_ref}
use agent_supervisor.Protocol.Work.{Assignment, Candidate, Request, OptionCandidate-discrete}
use agent_supervisor.Core.Error.{CoreError, CoreResult}
use agent_supervisor.Core.State.{PendingHandoff}

-- The statuses in which a request is no longer handed over.
unfoldable pub is_ineligible : RequestStatus → Bool
is_ineligible RequestStatus.accepted = true
is_ineligible RequestStatus.integration_authorized = true
is_ineligible RequestStatus.cancelled = true
is_ineligible RequestStatus.completed = true
is_ineligible status = false

abbrev pub candidate_differs : Option Candidate → Request → Bool
candidate_differs none q = false
candidate_differs (some c) q = not (eqb OptionCandidate-discrete q.candidate (some c))

abbrev pub is_inconsistent :
    Map ActorId Actor → Map TeamId Team → Request → Assignment → PendingHandoff → Bool
is_inconsistent actors teams q a h =
    not (q.team_id == h.offer.from_team_id)
    || not (contains_key h.offer.to_team_id teams)
    || not (eqb ActorRef-discrete a.actor h.offered_by)
    || not (a.epoch == h.assignment_epoch)
    || is_none_or (lookup h.offered_by.actor_id actors)
        (λ actor. not (eqb ActorRef-discrete (actor_ref actor) h.offered_by))
    || candidate_differs h.offer.candidate q

module _ (actors : Map ActorId Actor) (teams : Map TeamId Team)
    (requests : Map RequestId Request) where
  -- The request of a handoff, after the checks on it; `seen` holds the requests of those before.
  unfoldable pub check_handoff : List RequestId → PendingHandoff → CoreResult Request
  check_handoff seen h = do
    q ← ok_or (lookup h.offer.request_id requests) (
        CoreError.invalid_snapshot "pending_handoffs.offer.request_id" "handoff request is missing")
    a ← ok_or q.assignment (
        CoreError.invalid_snapshot "pending_handoffs.assignment_epoch"
          "handoff request has no assignment")
    fail_if (contains q.request_id seen || is_ineligible q.status) (
        CoreError.invalid_snapshot "pending_handoffs.offer.request_id"
          "request has multiple or ineligible pending handoffs")
    fail_if (is_inconsistent actors teams q a h) (
        CoreError.invalid_snapshot "pending_handoffs"
          "handoff teams, actor, assignment, or candidate are inconsistent")
    ok q

  unfoldable pub restore_handoffs_into :
      Map HandoffId PendingHandoff
      → List RequestId
      → List PendingHandoff
      → CoreResult (Map HandoffId PendingHandoff)
  restore_handoffs_into m seen [] = ok m
  restore_handoffs_into m seen (h ∷ hs) = do
    q ← check_handoff seen h
    fail_if (contains_key h.offer.handoff_id m)
        (CoreError.invalid_snapshot "pending_handoffs.offer.handoff_id" "duplicate handoff id")
    restore_handoffs_into (insert h.offer.handoff_id h m) (set_insert q.request_id seen) hs

  unfoldable pub restore_handoffs : List PendingHandoff → CoreResult (Map HandoffId PendingHandoff)
  restore_handoffs handoffs = restore_handoffs_into [] [] handoffs
