-- ===== src/Core/Frame.antt =====
-- crates/agsv-core/src/supervisor.rs: the part of the aggregate that the message handlers write.
use agent_supervisor.Common.{
  ◌≡◌, refl, ap, ◌||◌, not, arith, none, some, Bool, false, inl, inr, Option-cases, eqb,
}
use agent_supervisor.Common.Result.{ok, err, fail_if-ok}
use agent_supervisor.Common.Maps.{Map, nat_key}
use agent_supervisor.Common.Returns.{
  Returns, Returns-ok, Returns-err, Returns-try, Returns-then, Returns-bind,
}
use agent_supervisor.Core.Context.{is_id}
use agent_supervisor.Protocol.Ids.{TeamId, PayloadDigest, Epoch, RequestId, RunId, HandoffId}
use agent_supervisor.Protocol.Work.{Request, Run}
use agent_supervisor.Protocol.Actor.{Actor, actor_ref, ActorRef-discrete}
use agent_supervisor.Protocol.Envelope.{Envelope, IsFenced}
use agent_supervisor.Core.Error.{CoreResult}
use agent_supervisor.Core.Dispatch.{handle, apply_message}
use agent_supervisor.Core.State.{Supervisor, PendingHandoff}
use agent_supervisor.Core.Lifecycle.{
  transition_context, apply_cancellation, apply_run_control, apply_integration_complete,
  apply_integration_authorization, apply_implementation_request,
}
use agent_supervisor.Core.Review.{apply_candidate, apply_review, drop_if_accepted}
use agent_supervisor.Core.Handoff.{apply_handoff_offer, apply_handoff_acceptance}
use agent_supervisor.Protocol.Message.{
  Message, RunControlAction, IntegrationComplete, HandoffAcceptance,
}
use agent_supervisor.Protocol.Work.{
  IntegrationAuthorization, RequestSpecificationRef, Candidate, ReviewVerdict, ReviewDecisionRef,
  HandoffOfferRef,
}
use agent_supervisor.Core.Transitions.{RequestEvent, RunEvent}

-- `t` is `s` with other requests, runs and handoffs.
pub record Frame (s t : Supervisor) : Type 0 where
  pub requests : Map RequestId Request
  pub runs : Map RunId Run
  pub handoffs : Map HandoffId PendingHandoff
  pub rest : t ≡ record s { requests = requests; runs = runs; handoffs = handoffs }

pub Frame-here :
    {s : Supervisor} {requests : Map RequestId Request} {runs : Map RunId Run}
    {handoffs : Map HandoffId PendingHandoff}
    → Frame s (record s { requests = requests; runs = runs; handoffs = handoffs })
Frame-here = record { requests = _; runs = _; handoffs = _; rest = refl }

pub Frame-step :
    {s t : Supervisor} {requests : Map RequestId Request} {runs : Map RunId Run}
    {handoffs : Map HandoffId PendingHandoff}
    → Frame s t
    → Frame s (record t { requests = requests; runs = runs; handoffs = handoffs })
Frame-step {requests = requests} {runs = runs} {handoffs = handoffs} f =
    let write : Supervisor → Supervisor =
      λ u. record u { requests = requests; runs = runs; handoffs = handoffs } in
    record { requests = requests; runs = runs; handoffs = handoffs; rest = ap write f.rest }

-- A check reads the state and writes nothing.
Frame-ask : (r : CoreResult (Unit {0})) (s : Supervisor) → Returns s (λ u t. Frame s t) (r, s)
Frame-ask (ok u) s = Returns-ok Frame-here
Frame-ask (err x) s = Returns-err

pub transition_context-Frame :
    (e : Envelope) (qe : RequestEvent) (re : RunEvent) (s : Supervisor)
    → Returns s (λ u t. Frame s t) (transition_context e qe re s)
unfolding transition_context
transition_context-Frame e qe re s =
    search (Returns-then, Returns-try, Returns-ok, Frame-here) depth 60

pub apply_cancellation-Frame :
    (e : Envelope) (actor : Actor) (s : Supervisor)
    → Returns s (λ u t. Frame s t) (apply_cancellation e actor s)
unfolding apply_cancellation
apply_cancellation-Frame e actor s = Returns-then _ (
    Returns-try _ (λ _ _. Returns-try _ (λ _ _. Returns-try _ (λ _ _. Returns-try _ (λ _ _.
      Returns-try _ (λ _ _.
        Returns-bind _ (transition_context-Frame e RequestEvent.cancel RunEvent.cancel s)
          (λ _ t f. Returns-then _ (Returns-ok (Frame-step {t = t} f)))))))))

pub apply_run_control-Frame :
    (e : Envelope) (actor : Actor) (action : RunControlAction) (s : Supervisor)
    → Returns s (λ u t. Frame s t) (apply_run_control e actor action s)
unfolding apply_run_control
apply_run_control-Frame e actor action s =
    search (Returns-then, Returns-try, Returns-ok, Frame-here) depth 60

pub apply_integration_complete-Frame :
    (e : Envelope) (actor : Actor) (complete : IntegrationComplete) (s : Supervisor)
    → Returns s (λ u t. Frame s t) (apply_integration_complete e actor complete s)
unfolding apply_integration_complete
apply_integration_complete-Frame e actor complete s =
    search (Returns-then, Returns-try, transition_context-Frame) depth 60

pub apply_integration_authorization-Frame :
    (e : Envelope) (actor : Actor) (authorization : IntegrationAuthorization) (s : Supervisor)
    → Returns s (λ u t. Frame s t) (apply_integration_authorization e actor authorization s)
unfolding apply_integration_authorization
apply_integration_authorization-Frame e actor authorization s =
    search (Returns-then, Returns-try, Returns-ok, Frame-here) depth 60

pub apply_implementation_request-Frame :
    (e : Envelope) (actor : Actor) (specification : RequestSpecificationRef) (s : Supervisor)
    → Returns s (λ u t. Frame s t) (apply_implementation_request e actor specification s)
unfolding apply_implementation_request
apply_implementation_request-Frame e actor specification s =
    search (Returns-then, Returns-try, Returns-ok, Frame-here) depth 60

pub apply_candidate-Frame :
    (e : Envelope) (actor : Actor) (c : Candidate) (s : Supervisor)
    → Returns s (λ u t. Frame s t) (apply_candidate e actor c s)
unfolding apply_candidate
apply_candidate-Frame e actor c s =
    search (Returns-then, Returns-try, Returns-ok, Frame-here) depth 60

drop_if_accepted-Frame :
    (v : ReviewVerdict) (id : RequestId) (s t : Supervisor)
    → Frame s t
    → Frame s (drop_if_accepted v id t)
drop_if_accepted-Frame ReviewVerdict.accepted id s t f = Frame-step f
drop_if_accepted-Frame ReviewVerdict.rejected id s t f = f

pub apply_review-Frame :
    (e : Envelope) (actor : Actor) (d : ReviewDecisionRef) (s : Supervisor)
    → Returns s (λ u t. Frame s t) (apply_review e actor d s)
unfolding apply_review
apply_review-Frame e actor d s =
    search (Returns-then, Returns-try, Returns-ok, Frame-here, drop_if_accepted-Frame) depth 60

pub apply_handoff_offer-Frame :
    (e : Envelope) (actor : Actor) (offer : HandoffOfferRef) (s : Supervisor)
    → Returns s (λ u t. Frame s t) (apply_handoff_offer e actor offer s)
unfolding apply_handoff_offer
apply_handoff_offer-Frame e actor offer s =
    search (Returns-then, Returns-try, Returns-ok, Frame-here) depth 60

unfenced :
    {A : Type 0} (e : Envelope) (id : TeamId) (x y : Bool)
    → IsFenced e
    → e.team_epoch ≡ none
    → (x || y || not (is_id e.team_id id)) ≡ false
    → A
unfenced e id x y f h k = ground arith

apply_handoff_acceptance-Frame-at :
    (e : Envelope) (actor : Actor) (a : HandoffAcceptance) (s : Supervisor) (epoch : Epoch)
    → e.team_epoch ≡ some epoch
    → Returns s (λ u t. Frame s t) (apply_handoff_acceptance e actor a s)
unfolding apply_handoff_acceptance
apply_handoff_acceptance-Frame-at e actor a s epoch h =
    rw h (search (Returns-then, Returns-try, Returns-ok, Frame-here) depth 60)

-- The acceptance of a handoff writes the team before it reads the fence.
pub apply_handoff_acceptance-Frame :
    (e : Envelope) (actor : Actor) (a : HandoffAcceptance) (s : Supervisor)
    → IsFenced e
    → Returns s (λ u t. Frame s t) (apply_handoff_acceptance e actor a s)
unfolding apply_handoff_acceptance
apply_handoff_acceptance-Frame e actor a s f = elim (Option-cases e.team_epoch) [
  | inr (epoch, h) ↦ apply_handoff_acceptance-Frame-at e actor a s epoch h
  | inl h ↦ Returns-then _ (
      Returns-try _ (λ _ k.
        unfenced e a.to_team_id (not (eqb ActorRef-discrete a.accepted_by (actor_ref actor)))
          (not (is_id actor.team_id a.to_team_id)) f h (fail_if-ok _ _ k)))
]

pub handle-Frame :
    (e : Envelope) (actor : Actor) (digest : PayloadDigest) (m : Message) (s : Supervisor)
    → IsFenced e
    → Returns s (λ u t. Frame s t) (handle e actor digest m s)
unfolding handle
handle-Frame e actor digest (Message.implementation_request v) s f =
    apply_implementation_request-Frame e actor _ s
handle-Frame e actor digest (Message.progress v) s f =
    search (Returns-try, transition_context-Frame) depth 60
handle-Frame e actor digest (Message.blocker v) s f =
    search (Returns-try, transition_context-Frame) depth 60
handle-Frame e actor digest (Message.candidate_ready v) s f =
    search (Returns-try, apply_candidate-Frame) depth 60
handle-Frame e actor digest (Message.review_decision v) s f =
    search (Returns-try, apply_review-Frame) depth 60
handle-Frame e actor digest (Message.fix_request v) s f = Frame-ask _ s
handle-Frame e actor digest (Message.qa_result v) s f = search (Returns-try, Frame-ask) depth 60
handle-Frame e actor digest (Message.integration_authorization v) s f =
    search (Returns-try, apply_integration_authorization-Frame) depth 60
handle-Frame e actor digest (Message.cancellation reason) s f = apply_cancellation-Frame e actor s
handle-Frame e actor digest (Message.run_control action) s f =
    apply_run_control-Frame e actor action s
handle-Frame e actor digest (Message.directive v) s f = Frame-ask _ s
handle-Frame e actor digest (Message.consultation_request v) s f = Frame-ask _ s
handle-Frame e actor digest (Message.consultation_response v) s f = Frame-ask _ s
handle-Frame e actor digest (Message.dependency_notice v) s f = Frame-ask _ s
handle-Frame e actor digest (Message.conflict_notice v) s f = Frame-ask _ s
handle-Frame e actor digest (Message.handoff_offer v) s f =
    search (Returns-try, apply_handoff_offer-Frame) depth 60
handle-Frame e actor digest (Message.handoff_acceptance v) s f =
    Returns-try _ (λ _ _. apply_handoff_acceptance-Frame e actor v s f)
handle-Frame e actor digest (Message.integration_complete v) s f =
    apply_integration_complete-Frame e actor v s

-- For an envelope that has both of a team and a team's fence or neither, a message handler
-- writes requests, runs and pending handoffs only, and writes nothing where it refuses.
pub apply_message-Frame :
    (e : Envelope) (actor : Actor) (digest : PayloadDigest) (s : Supervisor)
    → IsFenced e
    → Returns s (λ u t. Frame s t) (apply_message e actor digest s)
unfolding apply_message
apply_message-Frame e actor digest s f =
    Returns-try _ (λ _ _. handle-Frame e actor digest e.message s f)
