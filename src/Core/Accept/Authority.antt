-- ===== src/Core/Accept/Authority.antt =====
-- crates/agsv-core/src/supervisor.rs: who may have a message accepted.
use agent_supervisor.Common.{◌≡◌, sym, ap, ◌∙◌, none, some, arith, ◌⊎◌, eqb_iff, ◌<◌}
use agent_supervisor.Common.Result.{ok}
use agent_supervisor.Common.Maps.{nat_key, lookup}
use agent_supervisor.Common.Returns.{Returns-success}
use agent_supervisor.Protocol.Ids.{TeamId, Epoch}
use agent_supervisor.Protocol.Status.{ActorStatus}
use agent_supervisor.Protocol.Actor.{Actor, Team, OptionId-discrete}
use agent_supervisor.Protocol.Envelope.{Envelope}
use agent_supervisor.Core.State.{Supervisor, Codec, current_actor}
use agent_supervisor.Core.Context.{authorize_envelope, authorize_team}
use agent_supervisor.Core.Apply.{ApplyOutcome, apply}
use agent_supervisor.Core.Accept.{apply-Verdict}

-- The team is known and the fence is its generation, or an earlier one that the Primary names.
abbrev pub TeamFence : Envelope → Supervisor → Actor → TeamId → Type 0
TeamFence e s sender team =
    (t : Team) × (lookup team s.teams ≡ some t)
    × ((e.team_epoch ≡ some t.epoch)
        ⊎ ((sender.team_id ≡ none)
            × ((epoch : Epoch) × (e.team_epoch ≡ some epoch) × (epoch < t.epoch))))

-- The sender is a current and healthy generation, and the fences are the aggregate's.
pub record Authority (e : Envelope) (s : Supervisor) (sender : Actor) : Type 0 where
  pub known : lookup e.sender.actor_id s.actors ≡ some sender
  pub current : sender.epoch ≡ e.sender.actor_epoch
  pub healthy : sender.status ≡ ActorStatus.healthy
  pub policy : e.policy_revision ≡ s.policy_revision
  pub primary : e.primary_epoch ≡ s.primary_epoch
  pub own_team : (team : TeamId) → sender.team_id ≡ some team → e.team_id ≡ some team
  pub team_fence : (team : TeamId) → e.team_id ≡ some team → TeamFence e s sender team

current_actor-ok :
    (s : Supervisor) (e : Envelope) (a : Actor)
    → current_actor s e.sender ≡ ok a
    → (lookup e.sender.actor_id s.actors ≡ some a) × (a.epoch ≡ e.sender.actor_epoch)
unfolding current_actor
current_actor-ok s e a h = ground arith

authorize_envelope-fences :
    (s : Supervisor) (e : Envelope) (a : Actor)
    → authorize_envelope s e ≡ ok a
    → (e.policy_revision ≡ s.policy_revision)
      × (e.primary_epoch ≡ s.primary_epoch)
      × (current_actor s e.sender ≡ ok a)
      × (a.status ≡ ActorStatus.healthy)
      × (authorize_team s e a e.team_id ≡ ok tt)
unfolding authorize_envelope
authorize_envelope-fences s e a h = ground arith

authorize_envelope-own :
    (s : Supervisor) (e : Envelope) (a : Actor) (team : TeamId)
    → authorize_envelope s e ≡ ok a
    → a.team_id ≡ some team
    → e.team_id ≡ some team
unfolding authorize_envelope
authorize_envelope-own s e a team h k =
    ground (arith, eqb_iff OptionId-discrete a.team_id e.team_id)

-- The fence of a team is its current generation's; the Primary alone may name an earlier one, of a
-- request that the team has left behind.
pub authorize_team-fence :
    (s : Supervisor) (e : Envelope) (a : Actor) (team : TeamId)
    → authorize_team s e a (some team) ≡ ok tt
    → TeamFence e s a team
unfolding authorize_team
authorize_team-fence s e a team h = ground (arith)

-- An accepted message comes from the current, healthy generation of a known actor, under the
-- current policy and Primary fences; a member of a team speaks for its own team, and a team's
-- fence is current, or an earlier one that an actor with no team names.
pub applied-Authority :
    (codec : Codec) (e : Envelope) (s t : Supervisor)
    → apply codec e s ≡ (ok ApplyOutcome.applied, t)
    → (sender : Actor) × Authority e s sender
applied-Authority codec e s t h =
    let a = Returns-success (apply-Verdict codec e s) h in
    let fences = authorize_envelope-fences s e a.sender a.authorized in
    let actor = current_actor-ok s e a.sender fences.2 in
    (
      a.sender,
      record {
        known = actor.0;
        current = actor.1;
        healthy = fences.3;
        policy = fences.0;
        primary = fences.1;
        own_team = λ team k. authorize_envelope-own s e a.sender team a.authorized k;
        team_fence = λ team k.
            authorize_team-fence s e a.sender team
              (ap (authorize_team s e a.sender) (sym k) ∙ fences.4);
      },
    )
