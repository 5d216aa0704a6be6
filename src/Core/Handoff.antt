-- ===== src/Core/Handoff.antt =====
-- crates/agsv-core/src/supervisor.rs: the two-step transfer of a request from one team to another.
use agent_supervisor.Common.{not, ◌&&◌, ◌||◌, Option, none, some, ◌==◌, eqb}
use agent_supervisor.Common.Lists.{any}
use agent_supervisor.Common.Maps.{nat_key, lookup, contains_key, insert, update, remove, values}
use agent_supervisor.Common.Result.{ok, ok_or, fail_if}
use agent_supervisor.Common.Exec.{lift, get, modify, ◌>>=◌, ◌>>◌}
use agent_supervisor.Protocol.Ids.{checked_next}
use agent_supervisor.Protocol.Status.{request_blocks_team_close, team_is_active}
use agent_supervisor.Protocol.Actor.{Actor, ActorRef-discrete, actor_ref}
use agent_supervisor.Protocol.Work.{
  Assignment, Candidate, HandoffOfferRef, Request, OptionCandidate-discrete,
}
use agent_supervisor.Protocol.Message.{HandoffAcceptance}
use agent_supervisor.Protocol.Envelope.{Envelope, MessageTarget, MessageTarget-discrete}
use agent_supervisor.Core.Error.{CoreError, CoreResult}
use agent_supervisor.Core.State.{PendingHandoff, Action, ensure_known_team}
use agent_supervisor.Core.Context.{
  is_id, sha_of, request_context, ensure_candidate, ensure_active_target_team,
}

-- A request that accepts, authorizes, cancels or completes is not handed over: the same statuses
-- as those that let a team close.
unfoldable pub apply_handoff_offer : Envelope → Actor → HandoffOfferRef → Action Unit
unfolding request_context ensure_active_target_team ensure_candidate
apply_handoff_offer e actor offer = do
  s ← get
  request ← lift (request_context s e)
  lift (
      fail_if
        (not (offer.request_id == request.request_id)
          || not (offer.from_team_id == request.team_id)
          || not (is_id actor.team_id offer.from_team_id))
        CoreError.wrong_team)
  lift (
      fail_if (not (request_blocks_team_close request.status))
        (CoreError.unauthorized "handoff request in final review state"))
  lift (ensure_active_target_team s offer.to_team_id e.target)
  lift (elim offer.candidate [ none ↦ ok tt | some c ↦ ensure_candidate request c ])
  lift (
      fail_if
        (contains_key offer.handoff_id s.handoffs
          || any (λ (p : PendingHandoff). p.offer.request_id == offer.request_id)
              (values s.handoffs))
        (CoreError.already_exists "handoff"))
  assignment ← lift (ok_or request.assignment CoreError.not_assigned_actor)
  modify (λ t. record t {
    handoffs =
        insert offer.handoff_id
          (record {
            offer = offer;
            offered_by = actor_ref actor;
            assignment_epoch = assignment.epoch;
          })
          t.handoffs;
  })

-- The candidate that the offer names is still the request's.
offered_candidate_stands : Request → Option Candidate → CoreResult (Unit {0})
offered_candidate_stands q none = ok tt
offered_candidate_stands q (some c) =
    fail_if (not (eqb OptionCandidate-discrete q.candidate (some c)))
      (CoreError.candidate_mismatch (sha_of q.candidate) c.sha)

unfoldable pub apply_handoff_acceptance : Envelope → Actor → HandoffAcceptance → Action Unit
unfolding request_context ensure_known_team offered_candidate_stands
apply_handoff_acceptance e actor a = do
  s ← get
  lift (
      fail_if
        (not (eqb ActorRef-discrete a.accepted_by (actor_ref actor))
          || not (is_id actor.team_id a.to_team_id)
          || not (is_id e.team_id a.to_team_id))
        (CoreError.unauthorized "handoff acceptance identity"))
  lift (
      fail_if
        (not (eqb MessageTarget-discrete e.target (MessageTarget.team a.from_team_id))
          && not (eqb MessageTarget-discrete e.target MessageTarget.primary))
        CoreError.wrong_target)
  pending ← lift (ok_or (lookup a.handoff_id s.handoffs) CoreError.unknown_handoff)
  lift (
      fail_if
        (not (pending.offer.request_id == a.request_id)
          || not (pending.offer.from_team_id == a.from_team_id)
          || not (pending.offer.to_team_id == a.to_team_id))
        CoreError.unknown_handoff)
  request ← lift (request_context s e)
  lift (fail_if (not (request.team_id == a.from_team_id)) CoreError.wrong_team)
  team ← lift (ensure_known_team s a.to_team_id)
  lift (
      fail_if (not (team_is_active team.status))
        (CoreError.unauthorized "assign work to inactive team"))
  lift (offered_candidate_stands request pending.offer.candidate)
  assignment ← lift (ok_or request.assignment CoreError.not_assigned_actor)
  lift (
      fail_if
        (not (assignment.epoch == pending.assignment_epoch)
          || not (is_id e.assignment_epoch assignment.epoch)
          || not (eqb ActorRef-discrete assignment.actor pending.offered_by))
        (CoreError.stale_assignment_epoch assignment.epoch e.assignment_epoch))
  next ← lift (ok_or (checked_next assignment.epoch) CoreError.epoch_exhausted)
  let moved : Assignment = record { actor = actor_ref actor; epoch = next }
  -- The team is written before the fence is read.
  modify (λ t. record t {
    requests = update request.request_id (λ q. record q { team_id = a.to_team_id }) t.requests;
  })
  epoch ← lift (ok_or e.team_epoch CoreError.wrong_team)
  modify (λ t. record t {
    requests =
        update request.request_id (λ q. record q { team_epoch = epoch; assignment = some moved })
          t.requests;
  })
  modify (λ t. record t {
    runs =
        update request.run_id
          (λ r. record r { team_id = a.to_team_id; team_epoch = epoch; assignment = some moved })
          t.runs;
  })
  modify (λ t. record t { handoffs = remove a.handoff_id t.handoffs })
