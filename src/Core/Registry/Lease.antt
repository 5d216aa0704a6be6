-- ===== src/Core/Registry/Lease.antt =====
-- crates/agsv-core/src/supervisor.rs: the Primary lease under activation, lifecycle changes and
-- heartbeats.
use agent_supervisor.Common.{
  ◌≡◌, refl, ap, sym, ◌∙◌, Bool, true, not, ◌&&◌, ◌==◌, Option, none, some, is_some, arith,
  Bool-cases, not-not, inl, inr,
}
use agent_supervisor.Common.Result.{ok, fail_if-ok}
use agent_supervisor.Common.Maps.{
  nat_key, lookup, insert, update, lookup-insert, lookup-update, lookup-update_before,
  lookup-update_same, lookup-insert_same, contains,
}
use agent_supervisor.Common.Exec.{return_some}
use agent_supervisor.Common.Returns.{Returns, Returns-ok, Returns-try, Returns-then, Returns-bind}
use agent_supervisor.Protocol.Ids.{TeamId, ActorId, initial, Epoch, TimestampMillis}
use agent_supervisor.Protocol.Status.{ActorStatus, actor_is_healthy}
use agent_supervisor.Protocol.Actor.{
  ActorRef, ActorRole, ActorProfileSnapshot, Actor, has_capability, human_facing_primary,
}
use agent_supervisor.Core.State.{
  Supervisor, Action, current_actor, record_actor_generation_anchor, healthy_actor, ref_key,
}
use agent_supervisor.Core.Registry.{
  set_actor_status, heartbeat, activate_primary, grant_primary, revoke_previous, set_status,
  clear_primary, cleared_epoch, current_primary, held_ref, later,
}

-- A healthy human-facing actor with no team.
abbrev pub can_lead : Actor → Bool
can_lead a =
    actor_is_healthy a.status && not (is_some a.team_id) && has_capability a human_facing_primary

-- Actors stand under their ids.
abbrev pub Keyed : Supervisor → Type 0
Keyed s = (id : ActorId) (a : Actor) → lookup id s.actors ≡ some a → a.actor_id ≡ id

-- Actors stand under their ids, and the lease is vacant or held by an actor that can lead.
pub record Leased (s : Supervisor) : Type 0 where
  pub keyed : Keyed s
  pub held :
      (id : ActorId)
      → s.active_primary ≡ some id
      → (a : Actor) × (lookup id s.actors ≡ some a) × (can_lead a ≡ true)

-- A write that keeps the ids of actors keeps them under their ids.
update-Keyed :
    (s : Supervisor) (k : ActorId) (f : Actor → Actor)
    → ((a : Actor) → (f a).actor_id ≡ a.actor_id)
    → Keyed s
    → (id : ActorId) (a : Actor) → lookup id (update k f s.actors) ≡ some a
    → a.actor_id ≡ id
update-Keyed s k f same i id a h =
    let (v, was, which) = lookup-update_before k id f s.actors a h in
    ground (arith, i id v was, same v)

insert-Keyed :
    (s : Supervisor) (k : ActorId) (b : Actor)
    → b.actor_id ≡ k
    → Keyed s
    → (id : ActorId) (a : Actor) → lookup id (insert k b s.actors) ≡ some a
    → a.actor_id ≡ id
insert-Keyed s k b own i id a h = elim (Bool-cases (k == id)) [
  | inl e ↦ ground (arith, lookup-insert k id b s.actors)
  | inr e ↦
      let was : lookup id s.actors ≡ some a = ground (arith, lookup-insert k id b s.actors) in
      i id a was
]

-- The holder after a change that does not take the lease.
holder_stays :
    (s : Supervisor) (k : ActorId) (a : Actor) (next : ActorStatus)
    → Leased s
    → lookup k s.actors ≡ some a
    → cleared_epoch s a.actor_id next ≡ ok none
    → (id : ActorId) → s.active_primary ≡ some id
    → (b : Actor) × (lookup id (update k (set_status next) s.actors) ≡ some b) × (can_lead b ≡ true)
holder_stays s k a next i l c id h =
    let (b, here, leads) = i.held id h in
    let own = i.keyed k a l in
    elim (Bool-cases (k == id)) [
      | inl e ↦
          let same : k ≡ id = ground arith in
          let there = lookup-update_same k (set_status next) s.actors a l in
          (
            set_status next a,
            ap (λ x. lookup x (update k (set_status next) s.actors)) (sym same) ∙ there,
            ground arith,
          )
      | inr e ↦ (b, ground (arith, lookup-update k id (set_status next) s.actors), leads)
    ]

current_actor-found :
    (s : Supervisor) (r : ActorRef) (a : Actor)
    → current_actor s r ≡ ok a
    → lookup r.actor_id s.actors ≡ some a
unfolding current_actor
current_actor-found s r a h = ground arith

-- The writes of a lifecycle change.
set_status-Leased :
    (s : Supervisor) (r : ActorRef) (a : Actor) (next : ActorStatus) (epoch : Option Epoch)
    → Leased s
    → lookup r.actor_id s.actors ≡ some a
    → cleared_epoch s a.actor_id next ≡ ok epoch
    → Leased
        (clear_primary epoch (record s { actors = update r.actor_id (set_status next) s.actors }))
set_status-Leased s r a next none i l c = record {
  keyed = update-Keyed s r.actor_id (set_status next) (λ _. refl) i.keyed;
  held = holder_stays s r.actor_id a next i l c;
}
set_status-Leased s r a next (some epoch) i l c = record {
  keyed = update-Keyed s r.actor_id (set_status next) (λ _. refl) i.keyed;
  held = λ id h. cc;
}

-- A lifecycle change keeps actors under their ids and the lease vacant or with an actor that can
-- lead, and writes nothing where it fails.
pub set_actor_status-Leased :
    (r : ActorRef) (status : ActorStatus) (s : Supervisor)
    → Leased s
    → Returns s (λ u t. Leased t) (set_actor_status r status s)
unfolding set_actor_status
set_actor_status-Leased r status s i = Returns-then _ (
    Returns-try _ (λ a found. Returns-try _ (λ _ _. Returns-try _ (λ next _.
      Returns-try _ (λ epoch cleared. Returns-then _ (
        Returns-ok
          (set_status-Leased s r a next epoch i (current_actor-found s r a found) cleared)))))))

later_heartbeat-Leased :
    (s : Supervisor) (id : ActorId) (observed : TimestampMillis)
    → Leased s
    → Leased (record s {
      actors =
          update id
            (λ a. record a { last_heartbeat_at = later a.last_heartbeat_at observed })
            s.actors;
    })
unfolding has_capability
later_heartbeat-Leased s id observed i =
    let beat : Actor → Actor =
      λ a. record a { last_heartbeat_at = later a.last_heartbeat_at observed } in
    record {
      keyed = update-Keyed s id beat (λ _. refl) i.keyed;
      held = λ k h.
          let (b, here, leads) = i.held k h in
          elim (Bool-cases (id == k)) [
            | inl e ↦ (beat b, ground (arith, lookup-update id k beat s.actors), leads)
            | inr e ↦ (b, ground (arith, lookup-update id k beat s.actors), leads)
          ];
    }

-- A heartbeat keeps actors under their ids and the lease vacant or with an actor that can lead,
-- and writes nothing where it fails.
pub heartbeat-Leased :
    (r : ActorRef) (observed : TimestampMillis) (s : Supervisor)
    → Leased s
    → Returns s (λ u t. Leased t) (heartbeat r observed s)
unfolding heartbeat
heartbeat-Leased r observed s i = Returns-then _ (
    Returns-try _ (λ _ _.
      Returns-bind _ (set_actor_status-Leased r ActorStatus.healthy s i)
        (λ _ t j. Returns-ok (later_heartbeat-Leased t r.actor_id observed j))))

revoke_previous-Keyed :
    (s : Supervisor) (replaced : Option (ActorId × ActorStatus × Epoch))
    → Keyed s
    → Keyed (revoke_previous replaced s)
unfolding revoke_previous
revoke_previous-Keyed s none i = i
revoke_previous-Keyed s (some (previous, status, epoch)) i =
    update-Keyed s previous (set_status status) (λ _. refl) i

-- A new Primary holds the lease.
granted-Leased :
    (s : Supervisor) (id : ActorId) (a : Actor)
    → a.actor_id ≡ id
    → can_lead a ≡ true
    → Keyed s
    → Leased (record s { actors = insert id a s.actors; active_primary = some id })
granted-Leased s id a own leads i = record {
  keyed = insert-Keyed s id a own i;
  held = λ k h.
      let same : id ≡ k = cc in
      (
        a,
        ap (λ x. lookup x (insert id a s.actors)) (sym same) ∙ lookup-insert_same id a s.actors,
        leads,
      );
}

anchor-Leased :
    (r : ActorRef) (team : Option TeamId) (s : Supervisor)
    → Leased s
    → Leased (record_actor_generation_anchor r team s)
unfolding record_actor_generation_anchor
anchor-Leased r team s i =
    elim (Bool-cases (contains r s.pending_observability.actor_generation_keys)) [
      | inl h ↦ rw h i
      | inr h ↦ rw h (record { keyed = i.keyed; held = i.held })
    ]

grant_primary-Leased :
    (id : ActorId) (role : ActorRole) (profile : Option ActorProfileSnapshot) (s : Supervisor)
    → has_capability
        (healthy_actor s.workspace_id id none role profile initial)
        human_facing_primary
      ≡ true
    → Keyed s
    → Returns s (λ r t. Leased t) (grant_primary id role profile s)
unfolding grant_primary has_capability
grant_primary-Leased id role profile s leads i = Returns-then _ (
    Returns-try _ (λ epoch _. Returns-try _ (λ replaced _.
      let u = revoke_previous replaced s in
      Returns-then _ (
        Returns-then _ (
          Returns-then _ (
            Returns-ok (
              anchor-Leased (record { actor_id = id; actor_epoch = epoch }) none _
                (granted-Leased u id (healthy_actor u.workspace_id id none role profile epoch) refl
                  leads (revoke_previous-Keyed s replaced i)))))))))

return_some-Returns :
    {A : Type 0} {s : Supervisor} {Q : Supervisor → Type 0} (early : Option A) (m : Action A)
    → Q s
    → Returns s (λ a t. Q t) (m s)
    → Returns s (λ a t. Q t) (return_some early m s)
return_some-Returns (some a) m q h = Returns-ok q
return_some-Returns none m q h = h

-- An activation keeps actors under their ids and the Primary lease with a healthy human-facing
-- actor that has no team, and writes nothing where it fails.
pub activate_primary-Leased :
    (id : ActorId) (role : ActorRole) (profile : Option ActorProfileSnapshot) (s : Supervisor)
    → Leased s
    → Returns s (λ r t. Leased t) (activate_primary id role profile s)
unfolding activate_primary
activate_primary-Leased id role profile s i = Returns-then _ (
    Returns-try _ (λ _ _. Returns-try _ (λ _ _. Returns-try _ (λ _ leads. Returns-try _ (λ _ _.
      Returns-then _ (
        return_some-Returns (held_ref (current_primary s id)) (grant_primary id role profile) i
          (grant_primary-Leased id role profile s (not-not _ (fail_if-ok _ _ leads)) i.keyed)))))))
