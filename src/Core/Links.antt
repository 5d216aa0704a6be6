-- ===== src/Core/Links.antt =====
-- crates/agsv-core/src/supervisor.rs: requests and their runs across the handlers that move both.
use agent_supervisor.Common.{
  ◌≡◌, ◌≢◌, refl, ap, sym, ◌∙◌, true, false, subst, ◌==◌, some, arith, Bool-cases, Option-cases,
  inl, inr,
}
use agent_supervisor.Common.Maps.{
  Map, nat_key, lookup, update, lookup-update, lookup-update_same, lookup-update_other,
}
use agent_supervisor.Common.Result.{ok, ok_or}
use agent_supervisor.Common.Returns.{Returns, Returns-ok, Returns-try, Returns-then}
use agent_supervisor.Protocol.Ids.{RunId, RequestId}
use agent_supervisor.Protocol.Status.{RequestStatus, RunStatus}
use agent_supervisor.Protocol.Work.{
  Request, Run, Candidate, ReviewVerdict, ReviewDecisionRef, IntegrationAuthorization,
}
use agent_supervisor.Protocol.Envelope.{Envelope}
use agent_supervisor.Core.Error.{CoreError}
use agent_supervisor.Core.Transitions.{RequestEvent, RunEvent, transition_request, transition_run}
use agent_supervisor.Core.Transitions.Pairing.{
  Paired, run_status_matches_request, Paired-matches, pause-matches,
}
use agent_supervisor.Core.State.{Supervisor}
use agent_supervisor.Core.Context.{request_context}
use agent_supervisor.Core.Lifecycle.{
  transition_context, apply_run_control, apply_integration_complete,
  apply_integration_authorization,
}
use agent_supervisor.Core.Review.{
  apply_candidate, apply_review, review_request_event, review_run_event, drop_if_accepted,
}
use agent_supervisor.Protocol.Actor.{Actor}
use agent_supervisor.Protocol.Message.{IntegrationComplete, RunControlAction}

-- The run of a request, which names it back and stands in a status beside the request's.
pub record Link (runs : Map RunId Run) (id : RequestId) (q : Request) : Type 0 where
  pub run : Run
  pub found : lookup q.run_id runs ≡ some run
  pub back : run.request_id ≡ id
  pub own : q.request_id ≡ id
  pub matches : run_status_matches_request run.status q.status ≡ true

abbrev pub Linked : Map RequestId Request → Map RunId Run → Type 0
Linked requests runs = (id : RequestId) (q : Request) → lookup id requests ≡ some q → Link runs id q

module _ (requests : Map RequestId Request) (runs : Map RunId Run) (i : Linked requests runs) where
  -- Two requests have two runs.
  runs_apart :
      (id other : RequestId) (q p : Request)
      → lookup id requests ≡ some q
      → lookup other requests ≡ some p
      → id ≢ other
      → q.run_id ≢ p.run_id
  runs_apart id other q p h k n e =
      let l = i id q h in
      let m = i other p k in
      n (
        sym l.back ∙ ap (λ (r : Run). r.request_id) (same_run l.run m.run l.found m.found) ∙ m.back)
    where
      same_run :
          (r r' : Run) → lookup q.run_id runs ≡ some r → lookup p.run_id runs ≡ some r' → r ≡ r'
      same_run r r' a b = cc

  written-Link :
      (id : RequestId) (q : Request) (f : Request → Request) (g : Run → Run)
      → lookup id requests ≡ some q
      → (f q).run_id ≡ q.run_id
      → (f q).request_id ≡ q.request_id
      → ((r : Run) → (g r).request_id ≡ r.request_id)
      → ((r : Run)
          → lookup q.run_id runs ≡ some r
          → run_status_matches_request r.status q.status ≡ true
          → run_status_matches_request (g r).status (f q).status ≡ true)
      → Link (update q.run_id g runs) id (f q)
  written-Link id q f g h same_run same_id keeps good =
      let l = i id q h in
      record {
        run = g l.run;
        found =
            ap (λ x. lookup x (update q.run_id g runs)) same_run
            ∙ lookup-update_same q.run_id g runs l.run l.found;
        back = keeps l.run ∙ l.back;
        own = same_id ∙ l.own;
        matches = good l.run l.found l.matches;
      }

  kept-Link :
      (id other : RequestId) (q p : Request) (g : Run → Run)
      → lookup id requests ≡ some q
      → lookup other requests ≡ some p
      → id ≢ other
      → Link (update q.run_id g runs) other p
  kept-Link id other q p g h k n =
      let l = i other p k in
      record {
        run = l.run;
        found =
            lookup-update_other q.run_id p.run_id g runs (runs_apart id other q p h k n) ∙ l.found;
        back = l.back;
        own = l.own;
        matches = l.matches;
      }

  written_request :
      (id other : RequestId) (q p : Request) (f : Request → Request)
      → lookup id requests ≡ some q
      → lookup other (update id f requests) ≡ some p
      → (id == other) ≡ true
      → (id ≡ other) × (f q ≡ p)
  written_request id other q p f h k e = ground (arith, lookup-update id other f requests)

  kept_request :
      (id other : RequestId) (p : Request) (f : Request → Request)
      → lookup other (update id f requests) ≡ some p
      → (id == other) ≡ false
      → (id ≢ other) × (lookup other requests ≡ some p)
  kept_request id other p f k e = ground (arith, lookup-update id other f requests)

  -- A request and its run are written together.
  pub Linked-update :
      (id : RequestId) (q : Request) (f : Request → Request) (g : Run → Run)
      → lookup id requests ≡ some q
      → (f q).run_id ≡ q.run_id
      → (f q).request_id ≡ q.request_id
      → ((r : Run) → (g r).request_id ≡ r.request_id)
      → ((r : Run)
          → lookup q.run_id runs ≡ some r
          → run_status_matches_request r.status q.status ≡ true
          → run_status_matches_request (g r).status (f q).status ≡ true)
      → Linked (update id f requests) (update q.run_id g runs)
  Linked-update id q f g h same_run same_id keeps good other p k = elim (Bool-cases (id == other)) [
    | inl e ↦
        let (there, it) = written_request id other q p f h k e in
        subst (λ x. Link (update q.run_id g runs) x p) there
          (subst (λ x. Link (update q.run_id g runs) id x) it
            (written-Link id q f g h same_run same_id keeps good))
    | inr e ↦
        let (apart, was) = kept_request id other p f k e in kept-Link id other q p g h was apart
  ]

context_request :
    (s : Supervisor) (e : Envelope) (q : Request)
    → request_context s e ≡ ok q
    → (id : RequestId) × (lookup id s.requests ≡ some q)
unfolding request_context
context_request s e q h = elim (Option-cases e.request_id) [
  | inl none_named ↦ ground arith
  | inr (id, named) ↦ (id, ground arith)
]

same_step :
    (s : Supervisor) (q : Request) (r x : Run) (re : RunEvent) (next : RunStatus)
    → ok_or (lookup q.run_id s.runs) (CoreError.unknown_run q.run_id) ≡ ok r
    → lookup q.run_id s.runs ≡ some x
    → transition_run r.status re ≡ ok next
    → transition_run x.status re ≡ ok next
same_step s q r x re next found there ran =
    let same : r ≡ x = ground arith in ap (λ (y : Run). transition_run y.status re) (sym same) ∙ ran

-- The writes of a handler that moves a request and its run by a pair of events.
paired_write :
    {qe : RequestEvent} {re : RunEvent} (pair : Paired qe re) (e : Envelope) (s : Supervisor)
    (q : Request) (r : Run) (next : RequestStatus) (next_run : RunStatus) (f : Request → Request)
    (g : Run → Run)
    → Linked s.requests s.runs
    → request_context s e ≡ ok q
    → transition_request q.status qe ≡ ok next
    → ok_or (lookup q.run_id s.runs) (CoreError.unknown_run q.run_id) ≡ ok r
    → transition_run r.status re ≡ ok next_run
    → (f q).run_id ≡ q.run_id
    → (f q).request_id ≡ q.request_id
    → (f q).status ≡ next
    → ((x : Run) → ((g x).request_id ≡ x.request_id) × ((g x).status ≡ next_run))
    → Linked (update q.request_id f s.requests) (update q.run_id g s.runs)
paired_write {re = re} pair e s q r next next_run f g i context moved found ran run_id own status
      keeps =
    let (id, here) = context_request s e q context in
    let at_own = ap (λ x. lookup x s.requests) (i id q here).own ∙ here in
    Linked-update s.requests s.runs i q.request_id q f g at_own run_id own (λ x. (keeps x).0)
      (λ x there m.
        rw ((keeps x).1, status)
          (Paired-matches pair q.status next x.status next_run m moved
            (same_step s q r x re next_run found there ran)))

-- A pause writes the status that the request has.
paused_write :
    (e : Envelope) (s : Supervisor) (q : Request) (r : Run) (next_run : RunStatus)
    → Linked s.requests s.runs
    → request_context s e ≡ ok q
    → ok_or (lookup q.run_id s.runs) (CoreError.unknown_run q.run_id) ≡ ok r
    → transition_run r.status RunEvent.pause ≡ ok next_run
    → Linked
        (update q.request_id (λ x. record x { status = q.status }) s.requests)
        (update q.run_id (λ x. record x { status = next_run }) s.runs)
paused_write e s q r next_run i context found ran =
    let (id, here) = context_request s e q context in
    let at_own = ap (λ x. lookup x s.requests) (i id q here).own ∙ here in
    Linked-update s.requests s.runs i q.request_id q (λ x. record x { status = q.status })
      (λ x. record x { status = next_run }) at_own refl refl (λ _. refl)
      (λ x there m.
        pause-matches q.status x.status next_run m
          (same_step s q r x RunEvent.pause next_run found there ran))

-- A transition of a request and its run by a pair of events that a handler applies keeps every
-- request with a run that names it back and whose status matches, and writes nothing where it
-- refuses.
pub transition_context-Linked :
    {qe : RequestEvent} {re : RunEvent} (pair : Paired qe re) (e : Envelope) (s : Supervisor)
    → Linked s.requests s.runs
    → Returns s (λ u t. Linked t.requests t.runs) (transition_context e qe re s)
unfolding transition_context
transition_context-Linked pair e s i = Returns-then _ (
    Returns-try _ (λ q context. Returns-try _ (λ next moved. Returns-try _ (λ r found.
      Returns-try _ (λ next_run ran. Returns-ok (
        paired_write pair e s q r next next_run (λ x. record x { status = next })
          (λ x. record x { status = next_run }) i context moved found ran refl refl refl
          (λ _. (refl, refl))))))))

pub apply_integration_complete-Linked :
    (e : Envelope) (actor : Actor) (c : IntegrationComplete) (s : Supervisor)
    → Linked s.requests s.runs
    → Returns s (λ u t. Linked t.requests t.runs) (apply_integration_complete e actor c s)
unfolding apply_integration_complete
apply_integration_complete-Linked e actor c s i =
    search (Returns-then, Returns-try, transition_context-Linked Paired.completion e s i) depth 60

-- The handler of an integration authorization keeps every request with a run that names it back
-- and whose status matches, and writes nothing where it refuses.
pub apply_integration_authorization-Linked :
    (e : Envelope) (actor : Actor) (a : IntegrationAuthorization) (s : Supervisor)
    → Linked s.requests s.runs
    → Returns s (λ u t. Linked t.requests t.runs) (apply_integration_authorization e actor a s)
unfolding apply_integration_authorization
apply_integration_authorization-Linked e actor a s i = Returns-then _ (
    Returns-try _ (λ _ _. Returns-try _ (λ q context. Returns-try _ (λ _ _. Returns-try _ (λ _ _.
      Returns-try _ (λ _ _. Returns-try _ (λ next moved. Returns-try _ (λ r found.
        Returns-try _ (λ next_run ran. Returns-ok (
          paired_write Paired.authorization e s q r next next_run
            (λ x. record x { status = next; integration_authorization = some a })
            (λ x. record x { status = next_run }) i context moved found ran refl refl refl
            (λ _. (refl, refl))))))))))))

-- The handler of a candidate keeps every request with a run that names it back and whose status
-- matches, and writes nothing where it refuses.
pub apply_candidate-Linked :
    (e : Envelope) (actor : Actor) (c : Candidate) (s : Supervisor)
    → Linked s.requests s.runs
    → Returns s (λ u t. Linked t.requests t.runs) (apply_candidate e actor c s)
unfolding apply_candidate
apply_candidate-Linked e actor c s i = Returns-then _ (
    Returns-try _ (λ q context. Returns-try _ (λ _ _. Returns-try _ (λ _ _. Returns-try _ (λ _ _.
      Returns-try _ (λ depth _. Returns-try _ (λ next moved. Returns-try _ (λ r found.
        Returns-try _ (λ next_run ran. Returns-then _ (
          Returns-ok (
            paired_write Paired.candidate e s q r next next_run _ _ i context moved found ran refl
              refl refl (λ _. (refl, refl)))))))))))))

review_pair : (v : ReviewVerdict) → Paired (review_request_event v) (review_run_event v)
review_pair ReviewVerdict.accepted = Paired.acceptance
review_pair ReviewVerdict.rejected = Paired.rejection

drop_if_accepted-Linked :
    (v : ReviewVerdict) (id : RequestId) (t : Supervisor)
    → Linked t.requests t.runs
    → Linked (drop_if_accepted v id t).requests (drop_if_accepted v id t).runs
drop_if_accepted-Linked ReviewVerdict.accepted id t i = i
drop_if_accepted-Linked ReviewVerdict.rejected id t i = i

-- The handler of a review decision, an acceptance or a rejection, keeps every request with a run
-- that names it back and whose status matches, and writes nothing where it refuses.
pub apply_review-Linked :
    (e : Envelope) (actor : Actor) (d : ReviewDecisionRef) (s : Supervisor)
    → Linked s.requests s.runs
    → Returns s (λ u t. Linked t.requests t.runs) (apply_review e actor d s)
unfolding apply_review
apply_review-Linked e actor d s i = Returns-then _ (
    Returns-try _ (λ _ _. Returns-try _ (λ _ _. Returns-try _ (λ _ _. Returns-try _ (λ q context.
      Returns-try _ (λ _ _. Returns-try _ (λ next moved. Returns-try _ (λ r found.
        Returns-try _ (λ next_run ran. Returns-try _ (λ _ _. Returns-try _ (λ _ _. Returns-then _ (
          Returns-ok (
            drop_if_accepted-Linked d.verdict q.request_id _ (
              paired_write (review_pair d.verdict) e s q r next next_run _ _ i context moved found
                ran refl refl refl (λ _. (refl, refl))))))))))))))))

-- The handler of a pause or a resumption of a run keeps every request with a run that names it
-- back and whose status matches, and writes nothing where it refuses.
pub apply_run_control-Linked :
    (e : Envelope) (actor : Actor) (action : RunControlAction) (s : Supervisor)
    → Linked s.requests s.runs
    → Returns s (λ u t. Linked t.requests t.runs) (apply_run_control e actor action s)
unfolding apply_run_control
apply_run_control-Linked e actor RunControlAction.resume s i = Returns-then _ (
    Returns-try _ (λ _ _. Returns-try _ (λ _ _. Returns-try _ (λ _ _. Returns-try _ (λ q context.
      Returns-try _ (λ next moved. Returns-try _ (λ r found. Returns-try _ (λ next_run ran.
        Returns-ok (
          paired_write Paired.progress e s q r next next_run (λ x. record x { status = next })
            (λ x. record x { status = next_run }) i context moved found ran refl refl refl
            (λ _. (refl, refl)))))))))))
apply_run_control-Linked e actor RunControlAction.pause s i = Returns-then _ (
    Returns-try _ (λ _ _. Returns-try _ (λ _ _. Returns-try _ (λ _ _. Returns-try _ (λ q context.
      Returns-then _ (
        Returns-try _ (λ r found.
          Returns-try _
            (λ next_run ran. Returns-ok (paused_write e s q r next_run i context found ran)))))))))
