-- ===== src/Core/Registry/Fence.antt =====
-- crates/agsv-core/src/supervisor.rs: the Primary fence under activation and lifecycle changes.
use agent_supervisor.Common.{
  ◌+◌, ◌≡◌, refl, ap, sym, ◌∙◌, some, none, Option, ◌⊎◌, inl, inr, arith, Bool-cases,
}
use agent_supervisor.Common.Result.{ok}
use agent_supervisor.Common.Maps.{contains, nat_key}
use agent_supervisor.Common.Exec.{return_some}
use agent_supervisor.Common.Returns.{Returns, Returns-ok, Returns-try, Returns-then}
use agent_supervisor.Protocol.Ids.{TeamId, ActorId, Epoch, checked_next-some}
use agent_supervisor.Protocol.Status.{ActorStatus}
use agent_supervisor.Protocol.Actor.{ActorRef, ActorRole, ActorProfileSnapshot}
use agent_supervisor.Core.State.{Supervisor, Action, record_actor_generation_anchor, ref_key}
use agent_supervisor.Core.Registry.{
  activate_primary, grant_primary, primary_replacement, revoke_previous, set_actor_status,
  cleared_epoch, clear_primary, current_primary, held_ref,
}

-- Who held the lease holds it under the same fence, or the fence went up.
abbrev pub Fenced : Supervisor → Supervisor → Type 0
Fenced s t =
    (p : ActorId)
    → s.active_primary ≡ some p
    → ((t.active_primary ≡ some p) × (t.primary_epoch ≡ s.primary_epoch))
      ⊎ (t.primary_epoch ≡ s.primary_epoch + 1)

cleared_epoch-next :
    (s : Supervisor) (id : ActorId) (next : ActorStatus) (epoch : Epoch)
    → cleared_epoch s id next ≡ ok (some epoch)
    → epoch ≡ s.primary_epoch + 1
cleared_epoch-next s id next epoch h = ground (arith, checked_next-some s.primary_epoch epoch)

clear_primary-Fenced :
    (s t : Supervisor) (id : ActorId) (next : ActorStatus) (epoch : Option Epoch)
    → cleared_epoch s id next ≡ ok epoch
    → t.active_primary ≡ s.active_primary
    → t.primary_epoch ≡ s.primary_epoch
    → Fenced s (clear_primary epoch t)
clear_primary-Fenced s t id next none c a f p h = inl (a ∙ h, f)
clear_primary-Fenced s t id next (some epoch) c a f p h = inr (cleared_epoch-next s id next epoch c)

-- A lifecycle change, where the lease is held, leaves the lease with its holder under the same
-- fence, or raises the Primary fence by one, and writes nothing where it fails.
pub set_actor_status-Fenced :
    (r : ActorRef) (status : ActorStatus) (s : Supervisor)
    → Returns s (λ u t. Fenced s t) (set_actor_status r status s)
unfolding set_actor_status
set_actor_status-Fenced r status s = Returns-then _ (
    Returns-try _ (λ a _. Returns-try _ (λ _ _. Returns-try _ (λ next _.
      Returns-try _ (λ epoch cleared.
        Returns-then _
          (Returns-ok (clear_primary-Fenced s _ a.actor_id next epoch cleared refl refl)))))))

replacement_epoch :
    (s : Supervisor) (p : ActorId) (replaced : Option (ActorId × ActorStatus × Epoch))
    → primary_replacement s (some p) ≡ ok replaced
    → (revoke_previous replaced s).primary_epoch ≡ s.primary_epoch + 1
unfolding primary_replacement revoke_previous
replacement_epoch s p none h = ground arith
replacement_epoch s p (some (previous, status, epoch)) h =
    ground (arith, checked_next-some s.primary_epoch epoch)

anchor-epoch :
    (r : ActorRef) (team : Option TeamId) (t : Supervisor)
    → (record_actor_generation_anchor r team t).primary_epoch ≡ t.primary_epoch
unfolding record_actor_generation_anchor
anchor-epoch r team t =
    elim (Bool-cases (contains r t.pending_observability.actor_generation_keys)) [
      | inl h ↦ rw h refl
      | inr h ↦ rw h refl
    ]

grant_primary-Fenced :
    (id : ActorId) (role : ActorRole) (profile : Option ActorProfileSnapshot) (s : Supervisor)
    → Returns s (λ r t. Fenced s t) (grant_primary id role profile s)
unfolding grant_primary
grant_primary-Fenced id role profile s = Returns-then _ (
    Returns-try _ (λ epoch _. Returns-try _ (λ replaced moved. Returns-then _ (
      Returns-then _ (
        Returns-then _ (
          Returns-ok (λ p h. inr (
            anchor-epoch _ none _
            ∙ replacement_epoch s p replaced (ap (primary_replacement s) (sym h) ∙ moved)))))))))

return_some-Fenced :
    (early : Option ActorRef) (m : Action ActorRef) (s : Supervisor)
    → Returns s (λ r t. Fenced s t) (m s)
    → Returns s (λ r t. Fenced s t) (return_some early m s)
return_some-Fenced (some a) m s h = Returns-ok (λ p k. inl (k, refl))
return_some-Fenced none m s h = h

-- An activation, where the lease is held, leaves the lease with its holder under the same fence,
-- or raises the Primary fence by one, and writes nothing where it fails.
pub activate_primary-Fenced :
    (id : ActorId) (role : ActorRole) (profile : Option ActorProfileSnapshot) (s : Supervisor)
    → Returns s (λ r t. Fenced s t) (activate_primary id role profile s)
unfolding activate_primary
activate_primary-Fenced id role profile s = Returns-then _ (
    Returns-try _ (λ _ _. Returns-try _ (λ _ _. Returns-try _ (λ _ _. Returns-try _ (λ _ _.
      Returns-then _ (
        return_some-Fenced (held_ref (current_primary s id)) (grant_primary id role profile) s
          (grant_primary-Fenced id role profile s)))))))
