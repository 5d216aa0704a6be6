-- ===== src/Core/Restore/Restored.antt =====
-- crates/agsv-core/src/supervisor.rs: what holds of a workspace that was read back, which the
-- handlers of messages and the changes of actors then keep.
use mathlib.Core.List.{Memᴰ}
use agent_supervisor.Common.{
  ℕ, String, ◌≡◌, ap, sym, ◌∙◌, subst, true, false, not, ◌&&◌, Option, none, some, List, [], ◌∷◌,
  ◌==◌, is_none_or, arith, Bool-cases, not-not, inl, inr,
}
use agent_supervisor.Common.Maps.{Map, nat_key, lookup, contains_key, insert, values, lookup-insert}
use agent_supervisor.Common.Result.{ok, ok_or, fail_if, >>=-eq-ok, fail_if-ok, ok_or-ok}
use agent_supervisor.Protocol.Ids.{
  WorkspaceId, TeamId, ActorId, RunId, RequestId, DecisionId, Epoch,
}
use agent_supervisor.Protocol.Actor.{ActorRef, Actor, Team}
use agent_supervisor.Protocol.Work.{Request, Run}
use agent_supervisor.Core.Error.{CoreError, CoreResult}
use agent_supervisor.Core.State.{Supervisor}
use agent_supervisor.Core.Registry.Lease.{Leased, can_lead}
use agent_supervisor.Core.Links.{Linked}
use agent_supervisor.Core.Restore.Entities.{
  restore_into, check_actor, restore_actors, check_holder, leads, check_rivals,
  validate_active_primary,
}
use agent_supervisor.Core.Restore.Requests.{
  validate_request, decided_before, restore_requests_into, restore_requests, run_agrees,
  check_request_runs, validate_request_run_links,
}

module _ {V : Type 0} where
  -- Values stand under their ids.
  abbrev pub UnderIds : (V → ℕ) → Map ℕ V → Type 0
  UnderIds id m = (k : ℕ) (v : V) → lookup k m ≡ some v → id v ≡ k

  pub insert-UnderIds :
      (id : V → ℕ) (v : V) (m : Map ℕ V) → UnderIds id m → UnderIds id (insert (id v) v m)
  insert-UnderIds id v m i k w h = elim (Bool-cases (id v == k)) [
    | inl e ↦ ground (arith, lookup-insert (id v) k v m, h, e)
    | inr e ↦
        let was : lookup k m ≡ some w = ground (arith, lookup-insert (id v) k v m, h, e) in
        i k w was
  ]

  restore_into-UnderIds :
      (check : V → CoreResult (Unit {0})) (id : V → ℕ) (path reason : String) (m : Map ℕ V)
      (vs : List V) {n : Map ℕ V}
      → restore_into check id path reason m vs ≡ ok n
      → UnderIds id m
      → UnderIds id n
  unfolding restore_into
  restore_into-UnderIds check id path reason m [] h i = subst (UnderIds id) (ground (arith, h)) i
  restore_into-UnderIds check id path reason m (v ∷ vs) h i =
      let checked = >>=-eq-ok (check v) _ h in
      let new =
        >>=-eq-ok (fail_if (contains_key (id v) m) (CoreError.invalid_snapshot path reason)) _
          checked.2 in
      restore_into-UnderIds check id path reason (insert (id v) v m) vs new.2
        (insert-UnderIds id v m i)

  lookup-values : (k : ℕ) (m : Map ℕ V) {v : V} → lookup k m ≡ some v → Memᴰ v (values m)
  unfolding lookup values
  lookup-values k [] h = cc
  lookup-values k ((j, w) ∷ m) h = elim (Bool-cases (j == k)) [
    | inl e ↦ Memᴰ.head (ground (arith, h, e))
    | inr e ↦ Memᴰ.tail (lookup-values k m (ground (arith, h, e)))
  ]

restore_requests-UnderIds :
    (w : WorkspaceId) (policy : Epoch) (actors : Map ActorId Actor) (teams : Map TeamId Team)
    (m : Map RequestId Request) (decisions : List DecisionId) (qs : List Request)
    {n : Map RequestId Request}
    → restore_requests_into w policy actors teams m decisions qs ≡ ok n
    → UnderIds (λ (q : Request). q.request_id) m
    → UnderIds (λ (q : Request). q.request_id) n
unfolding restore_requests_into
restore_requests-UnderIds w policy actors teams m decisions [] h i =
    subst (UnderIds (λ (q : Request). q.request_id)) (ground (arith, h)) i
restore_requests-UnderIds w policy actors teams m decisions (q ∷ qs) h i =
    let checked = >>=-eq-ok (validate_request w policy q actors teams) _ h in
    let fresh =
      >>=-eq-ok
        (fail_if (decided_before q.decision decisions) (
          CoreError.invalid_snapshot "requests.decision.decision_id"
            "duplicate current decision id"))
        _ checked.2 in
    let new =
      >>=-eq-ok
        (fail_if (contains_key q.request_id m)
          (CoreError.invalid_snapshot "requests.request_id" "duplicate request id"))
        _ fresh.2 in
    restore_requests-UnderIds w policy actors teams (insert q.request_id q m) _ qs new.2
      (insert-UnderIds (λ (p : Request). p.request_id) q m i)

checked-run :
    (runs : Map RunId Run) (qs : List Request) {q : Request}
    → check_request_runs runs qs ≡ ok tt
    → Memᴰ q qs
    → (run : Run) × (lookup q.run_id runs ≡ some run) × (run_agrees run q ≡ true)
unfolding check_request_runs
checked-run runs [] h member = elim member [ ]
checked-run runs (q ∷ qs) {q = p} h member =
    let (run, found, rest) =
      >>=-eq-ok
        (ok_or (lookup q.run_id runs)
          (CoreError.invalid_snapshot "requests.run_id" "request run is missing"))
        _ h in
    let agreed =
      >>=-eq-ok
        (fail_if (not (run_agrees run q))
          (CoreError.invalid_snapshot "requests.run_id" "request and run state are inconsistent"))
        _ rest in
    one run (ok_or-ok _ _ found) (not-not _ (fail_if-ok _ _ agreed.1))
      (checked-run runs qs agreed.2) member
  where
    one :
        (run : Run)
        → lookup q.run_id runs ≡ some run
        → run_agrees run q ≡ true
        → (Memᴰ p qs → (r : Run) × (lookup p.run_id runs ≡ some r) × (run_agrees r p ≡ true))
        → Memᴰ p (q ∷ qs)
        → (r : Run) × (lookup p.run_id runs ≡ some r) × (run_agrees r p ≡ true)
    one run found agrees later (Memᴰ.head e) =
        (run, ap (λ (x : Request). lookup x.run_id runs) e ∙ found, ap (run_agrees run) e ∙ agrees)
    one run found agrees later (Memᴰ.tail n) = later n

pub restore_requests-keyed :
    (w : WorkspaceId) (policy : Epoch) (actors : Map ActorId Actor) (teams : Map TeamId Team)
    (qs : List Request) (requests : Map RequestId Request)
    → restore_requests w policy actors teams qs ≡ ok requests
    → UnderIds (λ (q : Request). q.request_id) requests
unfolding restore_requests lookup
restore_requests-keyed w policy actors teams qs requests restored =
    restore_requests-UnderIds w policy actors teams [] [] qs restored (λ k v e. cc)

-- Requests that a snapshot restores, with runs that pass the check of links, satisfy the
-- invariant of the handlers: every request stands under its id with a run that names it back and
-- whose status matches.
pub restore_requests-Linked :
    (w : WorkspaceId) (policy : Epoch) (actors : Map ActorId Actor) (teams : Map TeamId Team)
    (qs : List Request) (requests : Map RequestId Request) (runs : Map RunId Run)
    → restore_requests w policy actors teams qs ≡ ok requests
    → validate_request_run_links requests runs ≡ ok tt
    → Linked requests runs
unfolding validate_request_run_links
restore_requests-Linked w policy actors teams qs requests runs restored linked id q h =
    let keyed = restore_requests-keyed w policy actors teams qs requests restored in
    let own = keyed id q h in
    let checked = >>=-eq-ok (check_request_runs runs (values requests)) _ linked in
    let (run, found, agrees) =
      checked-run runs (values requests) checked.1 (lookup-values id requests h) in
    record {
      run = run;
      found = found;
      back = ground (arith, own, agrees);
      own = own;
      matches = ground (arith, agrees);
    }

-- `active_primary.map(|actor| actor.actor_id)`
abbrev pub holder_of : Option ActorRef → Option ActorId
holder_of none = none
holder_of (some r) = some r.actor_id

held-lead :
    (active : Option ActorRef) (actors : Map ActorId Actor) (id : ActorId)
    → check_holder active actors ≡ ok tt
    → holder_of active ≡ some id
    → (a : Actor) × (lookup id actors ≡ some a) × (can_lead a ≡ true)
held-lead none actors id h e = cc
held-lead (some r) actors id h e =
    let (a, found, fit) =
      >>=-eq-ok
        (ok_or (lookup r.actor_id actors)
          (CoreError.invalid_snapshot "active_primary.actor_id" "active Primary actor is missing"))
        _ h in
    let same : r.actor_id ≡ id = ground (arith, e) in
    (a, rw (sym same) (ok_or-ok _ _ found), ground (arith, fit))

unrivaled :
    (active : Option ActorRef) (b : Actor)
    → (leads b && is_none_or active (λ r. not (r.actor_id == b.actor_id))) ≡ false
    → leads b ≡ true
    → holder_of active ≡ some b.actor_id
unrivaled none b h leading = ground (arith, h, leading)
unrivaled (some r) b h leading = ap some (ground (arith, h, leading))

no_rival :
    (active : Option ActorRef) (rest : List Actor) {a : Actor}
    → check_rivals active rest ≡ ok tt
    → Memᴰ a rest
    → leads a ≡ true
    → holder_of active ≡ some a.actor_id
unfolding check_rivals
no_rival active [] h member leading = elim member [ ]
no_rival active (b ∷ rest) h (Memᴰ.head e) leading =
    let alone =
      >>=-eq-ok
        (fail_if (leads b && is_none_or active (λ r. not (r.actor_id == b.actor_id))) (
          CoreError.invalid_snapshot "active_primary"
            "a healthy Primary actor must hold the active lease"))
        _ h in
    unrivaled active b (fail_if-ok _ _ alone.1) (ap leads (sym e) ∙ leading)
    ∙ ap (λ (x : Actor). some x.actor_id) (sym e)
no_rival active (b ∷ rest) h (Memᴰ.tail n) leading =
    let alone =
      >>=-eq-ok
        (fail_if (leads b && is_none_or active (λ r. not (r.actor_id == b.actor_id))) (
          CoreError.invalid_snapshot "active_primary"
            "a healthy Primary actor must hold the active lease"))
        _ h in
    no_rival active rest alone.2 n leading

-- Actors that a snapshot restores, with an active Primary that passes the check, satisfy the
-- invariant of the Primary lease, and no healthy human-facing actor without a team stands beside
-- the holder.
pub restore_actors-Leased :
    (w : WorkspaceId) (list : List Actor) (actors : Map ActorId Actor) (active : Option ActorRef)
    (s : Supervisor)
    → restore_actors w list ≡ ok actors
    → validate_active_primary active actors ≡ ok tt
    → s.actors ≡ actors
    → s.active_primary ≡ holder_of active
    → Leased s
      × ((id : ActorId) (a : Actor)
          → lookup id s.actors ≡ some a
          → leads a ≡ true
          → s.active_primary ≡ some id)
unfolding restore_actors validate_active_primary lookup
restore_actors-Leased w list actors active s restored valid same holder =
    let keyed =
      restore_into-UnderIds (check_actor w) (λ (a : Actor). a.actor_id) "actors.actor_id"
        "duplicate actor id" [] list restored (λ k v e. cc) in
    let checked = >>=-eq-ok (check_holder active actors) _ valid in
    (
      record {
        keyed = λ id a h. keyed id a (ap (lookup id) (sym same) ∙ h);
        held = λ id h.
            let (a, found, fit) = held-lead active actors id checked.1 (sym holder ∙ h) in
            (a, ap (lookup id) same ∙ found, fit);
      },
      λ id a h leading.
          let there = ap (lookup id) (sym same) ∙ h in
          holder
          ∙ no_rival active (values actors) checked.2 (lookup-values id actors there) leading
          ∙ ap some (keyed id a there),
    )
