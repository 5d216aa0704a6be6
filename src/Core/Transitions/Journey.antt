-- ===== src/Core/Transitions/Journey.antt =====
-- crates/agsv-core/src/transitions.rs: whole lives of requests, actors and teams, as lists of
-- events of which those refused change nothing.
use agent_supervisor.Common.{Bool, true, false, List, [], ◌∷◌, ◌≡◌, refl, arith}
use agent_supervisor.Common.Result.{ok, err}
use agent_supervisor.Protocol.Status.{
  ActorStatus, TeamStatus, RequestStatus, RunStatus, is_terminal,
}
use agent_supervisor.Core.Error.{CoreResult}
use agent_supervisor.Core.Transitions.{
  RequestEvent, RunEvent, transition_request, transition_run, transition_actor, transition_team,
}

abbrev pub kept {ℓ} : {A : Type ℓ} → A → CoreResult A → A
kept old (ok new) = new
kept old (err x) = old

abbrev is_cancelled : RequestStatus → Bool
is_cancelled RequestStatus.cancelled = true
is_cancelled _ = false

unfoldable pub live : RequestStatus → List RequestEvent → RequestStatus
live q [] = q
live q (e ∷ es) = live (kept q (transition_request q e)) es

-- An event that succeeded may be repeated: it leads back to where it led.
pub transition_request_idempotent :
    (q q' : RequestStatus) (e : RequestEvent)
    → transition_request q e ≡ ok q'
    → transition_request q' e ≡ ok q'
unfolding transition_request
transition_request_idempotent q q' e h = ground arith

pub transition_run_idempotent :
    (r r' : RunStatus) (e : RunEvent) → transition_run r e ≡ ok r' → transition_run r' e ≡ ok r'
unfolding transition_run
transition_run_idempotent r r' e h = ground arith

terminal_step :
    (q : RequestStatus) (e : RequestEvent)
    → is_terminal q ≡ true
    → kept q (transition_request q e) ≡ q
unfolding transition_request
terminal_step q e h = ground arith

-- No sequence of events changes the status of a request that is cancelled or completed.
pub live_terminal :
    (q : RequestStatus) (es : List RequestEvent) → is_terminal q ≡ true → live q es ≡ q
unfolding live
live_terminal q [] h = refl
live_terminal q (e ∷ es) h = rw (terminal_step q e h) (live_terminal q es h)

-- `xs` is what is left of `ys` when some members are struck out.
pub data IsSubsequence {ℓ} {A : Type ℓ} : List A → List A → Type ℓ where
  nil : {ys : List A} → IsSubsequence [] ys
  skip : {xs ys : List A} {y : A} → IsSubsequence xs ys → IsSubsequence xs (y ∷ ys)
  take : {xs ys : List A} {x : A} → IsSubsequence xs ys → IsSubsequence (x ∷ xs) (x ∷ ys)

behead {ℓ} : {A : Type ℓ} {x : A} {xs ys : List A} → IsSubsequence (x ∷ xs) ys → IsSubsequence xs ys
behead (skip s) = skip (behead s)
behead (take s) = skip s

abbrev pub approval : List RequestEvent
approval =
    RequestEvent.accept_candidate ∷ RequestEvent.authorize_integration ∷ RequestEvent.complete ∷ []

-- The events that a request in this state still needs before it is completed.
abbrev pub needed : RequestStatus → List RequestEvent
needed RequestStatus.opened = RequestEvent.assign ∷ RequestEvent.submit_candidate ∷ approval
needed RequestStatus.candidate_ready = approval
needed RequestStatus.accepted = RequestEvent.authorize_integration ∷ RequestEvent.complete ∷ []
needed RequestStatus.integration_authorized = RequestEvent.complete ∷ []
needed RequestStatus.completed = []
needed _ = RequestEvent.submit_candidate ∷ approval

needed_step :
    (q : RequestStatus) (e : RequestEvent) (es : List RequestEvent)
    → is_cancelled (kept q (transition_request q e)) ≡ false
    → IsSubsequence (needed (kept q (transition_request q e))) es
    → IsSubsequence (needed q) (e ∷ es)
unfolding transition_request
needed_step RequestStatus.opened RequestEvent.assign es h s = take s
needed_step RequestStatus.assigned RequestEvent.assign es h s = skip s
needed_step RequestStatus.in_progress RequestEvent.assign es h s = skip s
needed_step RequestStatus.blocked RequestEvent.assign es h s = skip s
needed_step RequestStatus.candidate_ready RequestEvent.assign es h s = skip s
needed_step RequestStatus.changes_requested RequestEvent.assign es h s = skip s
needed_step RequestStatus.accepted RequestEvent.assign es h s = skip s
needed_step RequestStatus.integration_authorized RequestEvent.assign es h s = skip s
needed_step RequestStatus.cancelled RequestEvent.assign es h s = skip s
needed_step RequestStatus.completed RequestEvent.assign es h s = skip s
needed_step _ _ es h s = first_of (search (take, skip, behead), cc)

live_cancelled :
    (q : RequestStatus) (es : List RequestEvent)
    → live q es ≡ RequestStatus.completed
    → is_cancelled q ≡ false
live_cancelled RequestStatus.cancelled es h = cc (live_terminal RequestStatus.cancelled es refl)
live_cancelled _ es h = refl

live_needed :
    (q : RequestStatus) (es : List RequestEvent)
    → live q es ≡ RequestStatus.completed
    → IsSubsequence (needed q) es
unfolding live
live_needed q [] h = rw h nil
live_needed q (e ∷ es) h =
    let q' = kept q (transition_request q e) in
    needed_step q e es (live_cancelled q' es h) (live_needed q' es h)

-- A request that is completed has been assigned, has had a candidate submitted and accepted, and
-- its integration authorized and completed, in this order.
pub live-completed :
    (es : List RequestEvent)
    → live RequestStatus.opened es ≡ RequestStatus.completed
    → IsSubsequence
        (RequestEvent.assign ∷ RequestEvent.submit_candidate ∷ RequestEvent.accept_candidate
          ∷ RequestEvent.authorize_integration ∷ RequestEvent.complete ∷ [])
        es
live-completed es h = live_needed RequestStatus.opened es h

team_life : TeamStatus → List TeamStatus → TeamStatus
team_life t [] = t
team_life t (u ∷ us) = team_life (kept t (transition_team t u)) us

actor_life : ActorStatus → List ActorStatus → ActorStatus
actor_life a [] = a
actor_life a (b ∷ bs) = actor_life (kept a (transition_actor a b)) bs

closed_step :
    (u : TeamStatus)
    → kept TeamStatus.closed (transition_team TeamStatus.closed u) ≡ TeamStatus.closed
unfolding transition_team
closed_step u = ground arith

stopped_step :
    (b : ActorStatus)
    → kept ActorStatus.stopped (transition_actor ActorStatus.stopped b) ≡ ActorStatus.stopped
unfolding transition_actor
stopped_step b = ground arith

team_life-closed : (us : List TeamStatus) → team_life TeamStatus.closed us ≡ TeamStatus.closed
unfolding team_life
team_life-closed [] = refl
team_life-closed (u ∷ us) = rw (closed_step u) (team_life-closed us)

actor_life-stopped :
    (bs : List ActorStatus) → actor_life ActorStatus.stopped bs ≡ ActorStatus.stopped
unfolding actor_life
actor_life-stopped [] = refl
actor_life-stopped (b ∷ bs) = rw (stopped_step b) (actor_life-stopped bs)

-- No sequence of requested status changes leads a closed team or a stopped actor generation
-- anywhere else.
lives_end :
    (us : List TeamStatus) (bs : List ActorStatus)
    → (team_life TeamStatus.closed us ≡ TeamStatus.closed)
      × (actor_life ActorStatus.stopped bs ≡ ActorStatus.stopped)
lives_end us bs = (team_life-closed us, actor_life-stopped bs)
