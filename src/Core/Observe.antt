-- ===== src/Core/Observe.antt =====
-- crates/agsv-core/src/supervisor.rs: the reporting values that accepted messages change: the count
-- of live requests of each team, the teams that were active, and completions.
use agent_supervisor.Common.{
  ℕ, ◌+◌, ◌-◌, Bool, true, false, not, ◌&&◌, ◌||◌, Option, none, some, List, [], ◌∷◌, ◌++◌, ltb,
  ◌==◌, is_some_and, is_none_or, if◌then◌else◌, and_then,
}
use agent_supervisor.Common.Maps.{
  nat_key, lookup, insert, update, contains_key, set_insert, set_extend,
}
use agent_supervisor.Protocol.Ids.{TeamId, ActorId, RequestId, Epoch, u64_modulus}
use agent_supervisor.Protocol.Status.{RequestStatus, is_terminal, request_blocks_team_close}
use agent_supervisor.Protocol.Work.{Assignment, Request}
use agent_supervisor.Protocol.Envelope.{EnvelopeHeader, Envelope, MessageTarget}
use agent_supervisor.Protocol.Delivery.{DeliveryRecipient}
use agent_supervisor.Core.State.{Supervisor, CompletedAssignmentCredit}

pub record RequestObservabilityState : Type 0 where
  pub team_id : TeamId
  pub team_epoch : Epoch
  pub status : RequestStatus
  pub assignment : Option Assignment

abbrev observed : Request → RequestObservabilityState
observed q = record {
  team_id = q.team_id;
  team_epoch = q.team_epoch;
  status = q.status;
  assignment = q.assignment;
}

unfoldable pub request_observability_state :
    Supervisor → RequestId → Option RequestObservabilityState
request_observability_state s id = elim (lookup id s.requests) [
  | none ↦ none
  | some q ↦ some (observed q)
]

abbrev pub request_state_for_observability :
    Supervisor → Envelope → Option RequestObservabilityState
request_state_for_observability s e = and_then e.request_id (request_observability_state s)

-- Live, and of the team's generation unless it keeps the team from closing.
unfoldable pub request_state_counts_for_current_generation :
    Supervisor → RequestObservabilityState → Bool
request_state_counts_for_current_generation s q =
    not (is_terminal q.status)
    && is_some_and (lookup q.team_id s.teams)
        (λ t. request_blocks_team_close q.status || q.team_epoch == t.epoch)

-- `saturating_add(1)`
abbrev saturating_next : ℕ → ℕ
saturating_next n = if ltb (n + 1) u64_modulus then n + 1 else n

abbrev less_one : Option RequestObservabilityState → Supervisor → Supervisor
less_one none s = s
less_one (some q) s = record s {
  nonterminal_request_counts = update q.team_id (λ n. n - 1) s.nonterminal_request_counts;
}

-- `entry(team).or_insert(0)`, one up.
abbrev one_more : TeamId → Supervisor → Supervisor
one_more team s = record s {
  nonterminal_request_counts =
      if contains_key team s.nonterminal_request_counts
      then update team saturating_next s.nonterminal_request_counts
      else insert team 1 s.nonterminal_request_counts;
}

abbrev is_completed : RequestStatus → Bool
is_completed RequestStatus.completed = true
is_completed _ = false

abbrev completion_credit :
    RequestId
    → Option RequestObservabilityState
    → RequestObservabilityState
    → Option CompletedAssignmentCredit
completion_credit id before after =
    if is_none_or before (λ q. not (is_completed q.status)) && is_completed after.status
    then and_then after.assignment (λ a. some (record {
      request_id = id;
      actor = a.actor;
      team_id = after.team_id;
      team_epoch = after.team_epoch;
    }))
    else none

abbrev pub count_out : Bool → Option RequestObservabilityState → Supervisor → Supervisor
count_out true before s = less_one before s
count_out false before s = s

abbrev pub count_in : Bool → TeamId → Supervisor → Supervisor
count_in true team s = one_more team s
count_in false team s = s

-- The counters after a message moved a request from `before` to `after`.
unfoldable pub recount :
    Option RequestObservabilityState → RequestObservabilityState → Supervisor → Supervisor
unfolding request_state_counts_for_current_generation
recount before after s =
    let was = is_some_and before (request_state_counts_for_current_generation s) in
    let counts = request_state_counts_for_current_generation s after in
    let moved = is_some_and before (λ q. not (q.team_id == after.team_id)) in
    count_in (counts && (not was || moved)) after.team_id
      (count_out (was && (not counts || moved)) before s)

unfoldable pub update_request_observability :
    RequestId
    → Option RequestObservabilityState
    → Supervisor
    → Option CompletedAssignmentCredit × Supervisor
unfolding request_observability_state recount
update_request_observability id before s = elim (request_observability_state s id) [
  | none ↦ (none, s)
  | some after ↦ (completion_credit id before after, recount before after s)
]

-- The request is past its review and its team has moved on.
unfoldable pub delivery_references_historical_request : Supervisor → EnvelopeHeader → Bool
delivery_references_historical_request s h =
    is_some_and (and_then h.request_id (λ id. lookup id s.requests)) (λ q.
      is_some_and (lookup q.team_id s.teams)
        (λ t. not (request_blocks_team_close q.status) && ltb q.team_epoch t.epoch))

abbrev add_id : Option TeamId → List TeamId → List TeamId
add_id none ids = ids
add_id (some id) ids = set_insert id ids

abbrev pub team_of_actor : Supervisor → ActorId → Option TeamId
team_of_actor s id = and_then (lookup id s.actors) (λ a. a.team_id)

abbrev target_team : Supervisor → MessageTarget → Option TeamId
target_team s (MessageTarget.team id) = some id
target_team s (MessageTarget.actor id) = team_of_actor s id
target_team s MessageTarget.primary = none
target_team s MessageTarget.workspace = none

recipient_teams : Supervisor → List DeliveryRecipient → List TeamId → List TeamId
recipient_teams s [] ids = ids
recipient_teams s (DeliveryRecipient.primary ∷ rs) ids = recipient_teams s rs ids
recipient_teams s (DeliveryRecipient.actor a ∷ rs) ids =
    recipient_teams s rs (add_id (team_of_actor s a.actor.actor_id) ids)

unfoldable pub delivery_activity_teams :
    Supervisor → EnvelopeHeader → List DeliveryRecipient → List TeamId
unfolding delivery_references_historical_request recipient_teams
delivery_activity_teams s h recipients =
    if delivery_references_historical_request s h
    then []
    else let request_team =
        and_then (and_then h.request_id (λ id. lookup id s.requests)) (λ q. some q.team_id) in
      recipient_teams s recipients (
        add_id (target_team s h.target)
          (add_id (team_of_actor s h.sender.actor_id) (add_id request_team (add_id h.team_id []))))

pub record AcceptedMessageObservability : Type 0 where
  pub activity_team_ids : List TeamId
  pub completed_assignment : Option CompletedAssignmentCredit

-- The team of the request as it was, if it counted there.
abbrev add_before : Supervisor → Option RequestObservabilityState → List TeamId → List TeamId
add_before s none teams = teams
add_before s (some q) teams =
    if request_state_counts_for_current_generation s q then set_insert q.team_id teams else teams

unfoldable pub observe_accepted :
    EnvelopeHeader
    → List DeliveryRecipient
    → Option RequestObservabilityState
    → Supervisor
    → AcceptedMessageObservability × Supervisor
unfolding delivery_activity_teams update_request_observability
    request_state_counts_for_current_generation
observe_accepted h recipients before s =
    let active = add_before s before (delivery_activity_teams s h recipients) in
    elim h.request_id [
      | none ↦ (record { activity_team_ids = active; completed_assignment = none }, s)
      | some id ↦
          let (credit, t) = update_request_observability id before s in
          (record { activity_team_ids = active; completed_assignment = credit }, t)
    ]

abbrev to_list {ℓ} : {A : Type ℓ} → Option A → List A
to_list none = []
to_list (some a) = a ∷ []

unfoldable pub record_activity : List TeamId → Supervisor → Supervisor
record_activity ids s = record s {
  pending_observability = record s.pending_observability {
    activity_team_ids = set_extend ids s.pending_observability.activity_team_ids;
  };
}

unfoldable pub record_accepted_message_observability :
    AcceptedMessageObservability → Supervisor → Supervisor
unfolding record_activity
record_accepted_message_observability o s =
    let t = record_activity o.activity_team_ids s in
    record t {
      pending_observability = record t.pending_observability {
        completed_assignments =
            t.pending_observability.completed_assignments ++ to_list o.completed_assignment;
      };
    }
