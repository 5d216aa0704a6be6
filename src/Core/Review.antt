-- ===== src/Core/Review.antt =====
-- crates/agsv-core/src/supervisor.rs: candidates and their review. A candidate is replaced only
-- after it was rejected, and a decision is about the exact candidate at hand.
use agent_supervisor.Common.{
  ℕ, Bool, true, false, not, ◌&&◌, ◌||◌, Option, none, some, [], ◌∷◌, ◌++◌, leb, ◌==◌, is_some,
  is_some_and, is_none_or, if◌then◌else◌, eqb, and_then,
}
use agent_supervisor.Common.Lists.{length, any}
use agent_supervisor.Common.Maps.{nat_key, lookup, update, retain, values}
use agent_supervisor.Common.Result.{ok, err, ok_or, fail_if}
use agent_supervisor.Common.Exec.{lift, get, modify, ◌>>=◌, ◌>>◌}
use agent_supervisor.Protocol.Ids.{DecisionId, RequestId, Epoch, checked_add}
use agent_supervisor.Protocol.Validation.{max_domain_entities}
use agent_supervisor.Protocol.Actor.{
  ActorProfileSnapshot, Actor, ActorRef-discrete, OptionId-discrete, actor_ref,
}
use agent_supervisor.Protocol.Work.{
  Candidate, ReviewVerdict, ReviewDecisionRef, Request, Candidate-discrete,
  OptionCandidate-discrete, is_accepted,
}
use agent_supervisor.Protocol.Envelope.{Envelope}
use agent_supervisor.Protocol.Delivery.{CausalMessage}
use agent_supervisor.Core.Error.{CoreError, CoreResult}
use agent_supervisor.Core.Transitions.{RequestEvent, RunEvent, transition_request, transition_run}
use agent_supervisor.Core.State.{Supervisor, DeliveryRecord, PendingHandoff, Action}
use agent_supervisor.Core.Mailbox.{is_empty}
use agent_supervisor.Core.Registry.{quota}
use agent_supervisor.Core.Context.{request_context, ensure_candidate, ensure_assignee_target}
use agent_supervisor.Core.Lifecycle.{drop_handoffs}

-- The request's candidate is the one that its decision rejected.
unfoldable pub is_rejected_candidate_rework : Request → Bool
is_rejected_candidate_rework q = is_some_and q.decision (λ d.
    not (is_accepted d.verdict) && eqb OptionCandidate-discrete q.candidate (some d.candidate))

-- The candidate may stand: the same again, the first, or another commit after a rejection.
candidate_may_follow : Bool → Option Candidate → Candidate → CoreResult (Unit {0})
candidate_may_follow rework none c = ok tt
candidate_may_follow true (some previous) c =
    fail_if (previous.sha == c.sha) CoreError.candidate_must_change
candidate_may_follow false (some previous) c =
    fail_if (not (eqb Candidate-discrete previous c))
      (CoreError.candidate_mismatch (some previous.sha) c.sha)

-- `profile.map(|p| p.name)`
abbrev profile_name : Option ActorProfileSnapshot → Option ℕ
profile_name none = none
profile_name (some p) = some p.name

-- A counter of the request, one up if `counted`.
abbrev next_count : Bool → ℕ → CoreResult (Option ℕ)
next_count counted n =
    if counted
    then elim (checked_add n 1) [ none ↦ err CoreError.epoch_exhausted | some m ↦ ok (some m) ]
    else ok none

abbrev or_old : Option ℕ → ℕ → ℕ
or_old none n = n
or_old (some m) n = m

-- The first candidate, or one of a request whose candidates are all on record.
abbrev is_tracked : Request → Candidate → Bool
is_tracked q c =
    not (eqb OptionCandidate-discrete q.candidate (some c))
    && (not (is_some q.candidate) || not (is_empty q.candidate_history))

unfoldable pub apply_candidate : Envelope → Actor → Candidate → Action Unit
unfolding request_context is_rejected_candidate_rework candidate_may_follow transition_request
    transition_run
apply_candidate e actor c = do
  s ← get
  request ← lift (request_context s e)
  lift (
      fail_if
        (not (c.team_id == request.team_id)
          || not (eqb ActorRef-discrete c.created_by (actor_ref actor))
          || not (eqb OptionId-discrete c.created_by_profile (profile_name actor.profile)))
        (CoreError.unauthorized "submit candidate identity"))
  let rework = is_rejected_candidate_rework request
  let tracked = is_tracked request c
  lift (candidate_may_follow rework request.candidate c)
  lift (
      fail_if (tracked && leb max_domain_entities (length request.candidate_history))
        (quota "candidate history" max_domain_entities))
  depth ← lift (next_count (rework && tracked) request.fix_cycle_depth)
  next_request ← lift (transition_request request.status RequestEvent.submit_candidate)
  run ← lift (ok_or (lookup request.run_id s.runs) (CoreError.unknown_run request.run_id))
  next_run ← lift (transition_run run.status RunEvent.submit_candidate)
  modify (λ t. record t {
    requests =
        update request.request_id
          (λ q. record q {
            status = next_request;
            candidate_history =
                if tracked then q.candidate_history ++ c ∷ [] else q.candidate_history;
            fix_cycle_depth = or_old depth q.fix_cycle_depth;
            candidate = some c;
            decision = none;
            integration_authorization = none;
          })
          t.requests;
    runs = update request.run_id (λ r. record r { status = next_run }) t.runs;
  })
  modify (λ t. record t {
    handoffs =
        retain
          (λ (p : PendingHandoff).
            not (p.offer.request_id == request.request_id)
            || is_none_or p.offer.candidate (λ offered.
              eqb OptionCandidate-discrete (some offered)
                (and_then (lookup request.request_id t.requests) (λ q. q.candidate))))
          t.handoffs;
  })

is_decision : DecisionId → CausalMessage → Bool
is_decision id (CausalMessage.review_decision d) = d.decision_id == id
is_decision id _ = false

-- Some accepted message of the mailbox is a decision with this id.
unfoldable pub decision_known : Supervisor → DecisionId → Bool
unfolding is_decision
decision_known s id = any (λ (d : DeliveryRecord). is_decision id d.causal) (values s.mailbox)

abbrev pub review_request_event : ReviewVerdict → RequestEvent
review_request_event ReviewVerdict.accepted = RequestEvent.accept_candidate
review_request_event ReviewVerdict.rejected = RequestEvent.reject_candidate

abbrev pub review_run_event : ReviewVerdict → RunEvent
review_run_event ReviewVerdict.accepted = RunEvent.accept_candidate
review_run_event ReviewVerdict.rejected = RunEvent.reject_candidate

-- The fence that an acceptance writes.
abbrev accepted_epoch : ReviewVerdict → Envelope → CoreResult (Option Epoch)
accepted_epoch ReviewVerdict.rejected e = ok none
accepted_epoch ReviewVerdict.accepted e = elim e.team_epoch [
  | none ↦ err CoreError.wrong_team
  | some epoch ↦ ok (some epoch)
]

abbrev pub drop_if_accepted : ReviewVerdict → RequestId → Supervisor → Supervisor
drop_if_accepted ReviewVerdict.accepted request s = drop_handoffs request s
drop_if_accepted ReviewVerdict.rejected request s = s

unfoldable pub apply_review : Envelope → Actor → ReviewDecisionRef → Action Unit
unfolding decision_known ensure_assignee_target request_context ensure_candidate transition_request
    transition_run
apply_review e actor d = do
  s ← get
  lift (fail_if (decision_known s d.decision_id) (CoreError.already_exists "decision id"))
  lift (
      fail_if
        (not (eqb ActorRef-discrete d.reviewer (actor_ref actor))
          || not (d.policy_revision == s.policy_revision))
        (CoreError.unauthorized "review identity"))
  lift (ensure_assignee_target s e)
  request ← lift (request_context s e)
  lift (ensure_candidate request d.candidate)
  next_request ← lift (transition_request request.status (review_request_event d.verdict))
  run ← lift (ok_or (lookup request.run_id s.runs) (CoreError.unknown_run request.run_id))
  next_run ← lift (transition_run run.status (review_run_event d.verdict))
  count ← lift (
      next_count (not (is_accepted d.verdict) && not (is_empty request.candidate_history))
        request.rejection_count)
  epoch ← lift (accepted_epoch d.verdict e)
  modify (λ t. record t {
    requests =
        update request.request_id
          (λ q. record q {
            status = next_request;
            team_epoch = or_old epoch q.team_epoch;
            rejection_count = or_old count q.rejection_count;
            decision = some d;
            integration_authorization = none;
          })
          t.requests;
    runs =
        update request.run_id
          (λ r. record r { status = next_run; team_epoch = or_old epoch r.team_epoch }) t.runs;
  })
  modify (drop_if_accepted d.verdict request.request_id)
