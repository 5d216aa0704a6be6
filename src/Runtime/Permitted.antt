-- ===== src/Runtime/Permitted.antt =====
-- crates/agsv-runtime/src/store.rs: `authorize_message`, by what it lets through.
use agent_supervisor.Common.{
  String, ◌≡◌, refl, ap, sym, ◌∙◌, true, false, not, Option, none, some, List, [], ◌∷◌, Bool,
  Bool-cases, inl, inr, ◌<◌, arith, not-not, ◌⊎◌,
}
use agent_supervisor.Common.Lists.{any}
use agent_supervisor.Common.Result.{ok, ok_or, fail_if, >>=-eq-ok, ok_or-ok, fail_if-ok}
use text.Mathlib.Text.{◌==◌ as str_eq}
use text.Mathlib.TextEquality.{eq_iff}
use agent_supervisor.Runtime.Table.{I64}
use agent_supervisor.Runtime.Types.{
  ActorRole, ActorState, ActorRecord, NewMessage, SenderContext, RuntimeError,
}
use mathlib.Core.List.{Memᴰ}
use agent_supervisor.Runtime.Store.{Store, PrimaryRow, actor_by_id, active_actor}
use agent_supervisor.Runtime.Rows.{text_is-some}
use agent_supervisor.Runtime.Launch.{same_token}
use agent_supervisor.Runtime.Messages.{
  fences, authorize_fence, outside_team, authorize_recipient, authorize_message,
}

-- Where a sender that is no Primary may send: to its team, to an actor of its team or, where it has
-- none, to one with none, or to a Primary.
abbrev pub Within : Store → String → ActorRecord → Option String → Option String → Type 0
Within s w actor (some id) team =
    (r : ActorRecord) × (actor_by_id s w id ≡ some r)
    × ((t : String) → team ≡ some t → r.team_id ≡ some t)
    × ((r.role ≡ ActorRole.primary) ⊎ (r.team_id ≡ actor.team_id))
Within s w actor none (some team) = actor.team_id ≡ some team
Within s w actor none none = ⊥

-- A row of the Primary's lease for the sender in its generation, under the fence, not yet expired.
pub record LiveLease (s : Store) (w : String) (c : SenderContext) (fence now : I64) : Type 0 where
  row : PrimaryRow
  stored : Memᴰ row s.primary_leases
  here : row.workspace_id ≡ w
  holder : row.actor_id ≡ c.actor_id
  generation : row.actor_epoch ≡ c.actor_epoch
  fenced : row.fencing_epoch ≡ fence
  unexpired : now < row.lease_until_ms

-- What each role must show.
abbrev pub Credentials : Store → NewMessage → SenderContext → I64 → ActorRecord → ActorRole → Type 0
Credentials s m c now actor ActorRole.primary =
    (fence : I64) × (c.primary_fencing_epoch ≡ some fence) × LiveLease s m.workspace_id c fence now
Credentials s m c now actor ActorRole.implementation =
    (c.primary_fencing_epoch ≡ none)
    × Within s m.workspace_id actor m.recipient_actor_id m.recipient_team_id

pub record Permitted (s : Store) (m : NewMessage) (c : SenderContext) (now : I64) : Type 0 where
  pub actor : ActorRecord
  pub own : m.sender_actor_id ≡ c.actor_id
  pub found : actor_by_id s m.workspace_id c.actor_id ≡ some actor
  pub current : actor.actor_epoch ≡ c.actor_epoch
  pub online : actor.state ≡ ActorState.online
  pub live : now < actor.lease_until_ms
  pub credentials : Credentials s m c now actor actor.role

Active-facts :
    (s : Store) (w id : String) (e now : I64) {actor : ActorRecord}
    → active_actor s w id e now ≡ ok actor
    → (actor_by_id s w id ≡ some actor)
      × (actor.actor_epoch ≡ e)
      × (actor.state ≡ ActorState.online)
      × (now < actor.lease_until_ms)
unfolding active_actor
Active-facts s w id e now {actor} h =
    let (found, is, rest) =
      >>=-eq-ok (ok_or (actor_by_id s w id) (RuntimeError.not_found "actor" id)) _ h in
    let same : found ≡ actor = ground (arith, rest) in
    (
      ok_or-ok _ _ is ∙ ap some same,
      rw (sym same) (ground (arith, rest)),
      rw (sym same) (ground (arith, rest)),
      rw (sym same) (ground (arith, rest)),
    )

any-Memᴰ :
    {A : Type 0} (p : A → Bool) (xs : List A) → any p xs ≡ true → (x : A) × Memᴰ x xs × (p x ≡ true)
any-Memᴰ p [] h = cc
any-Memᴰ p (x ∷ xs) h = elim (Bool-cases (p x)) [
  | inl hit ↦ (x, Memᴰ.head refl, hit)
  | inr miss ↦
      let (y, there, holds) = any-Memᴰ p xs (ground (arith, h, miss)) in (y, Memᴰ.tail there, holds)
]

fences-LiveLease :
    (s : Store) (w : String) (c : SenderContext) (fence now : I64)
    → any (fences w c fence now) s.primary_leases ≡ true
    → LiveLease s w c fence now
fences-LiveLease s w c fence now h =
    let (row, stored, is) = any-Memᴰ (fences w c fence now) s.primary_leases h in
    record {
      row = row;
      stored = stored;
      here = (eq_iff row.workspace_id w).0 (ground (arith, is));
      holder = (eq_iff row.actor_id c.actor_id).0 (ground (arith, is));
      generation = ground (arith, is);
      fenced = ground (arith, is);
      unexpired = ground (arith, is);
    }

same_token-same : (o p : Option String) → same_token o p ≡ true → o ≡ p
same_token-same none none h = refl
same_token-same none (some b) h = cc
same_token-same (some a) none h = cc
same_token-same (some a) (some b) h = ap some ((eq_iff a b).0 h)

outside_team-inside :
    (o team : Option String)
    → outside_team o team ≡ false
    → (t : String) → team ≡ some t
    → o ≡ some t
outside_team-inside o none h t e = cc
outside_team-inside o (some asked) h t e = text_is-some o asked (not-not _ h) ∙ e

recipient-Within :
    (s : Store) (actor : ActorRecord) (w : String) (to team : Option String)
    → actor.role ≡ ActorRole.implementation
    → authorize_recipient s actor w to team ≡ ok tt
    → Within s w actor to team
recipient-Within s actor w (some id) team role h =
    let (r, is, rest) =
      >>=-eq-ok (ok_or (actor_by_id s w id) (RuntimeError.not_found "recipient actor" id)) _ h in
    let asked =
      >>=-eq-ok (fail_if (outside_team r.team_id team) RuntimeError.unauthorized) _ rest in
    let near : (r.role ≡ ActorRole.primary) ⊎ (same_token r.team_id actor.team_id ≡ true) =
      ground (arith, role, asked.2) in
    (
      r,
      ok_or-ok _ _ is,
      outside_team-inside r.team_id team (fail_if-ok _ _ asked.1),
      elim near [ inl p ↦ inl p | inr t ↦ inr (same_token-same r.team_id actor.team_id t) ],
    )
recipient-Within s actor w none (some team) role h =
    text_is-some actor.team_id team (ground (arith, role, h))
recipient-Within s actor w none none role h = ground (arith, role, h)

Credentials-shown :
    (s : Store) (m : NewMessage) (c : SenderContext) (now : I64) (actor : ActorRecord)
    (role : ActorRole)
    → actor.role ≡ role
    → authorize_fence s role m.workspace_id c now ≡ ok tt
    → authorize_recipient s actor m.workspace_id m.recipient_actor_id m.recipient_team_id ≡ ok tt
    → Credentials s m c now actor role
Credentials-shown s m c now actor ActorRole.primary role fenced to =
    let (fence, is, rest) =
      >>=-eq-ok (ok_or c.primary_fencing_epoch RuntimeError.unauthorized) _ fenced in
    (
      fence,
      ok_or-ok _ _ is,
      fences-LiveLease s m.workspace_id c fence now (not-not _ (fail_if-ok _ _ rest)),
    )
Credentials-shown s m c now actor ActorRole.implementation role fenced to = (
  ground (arith, fenced),
  recipient-Within s actor m.workspace_id m.recipient_actor_id m.recipient_team_id role to,
)

-- A message that is authorized is from the sender itself, in its current, online and unexpired
-- generation; a Primary shows the fence of a stored and unexpired lease row of its own in that
-- generation; an implementation actor shows none and sends to its own team, to a Primary, or to
-- an actor that is in the same team or, like itself, in none; and an actor that it sends to is
-- in the team that it names, if it names one.
pub authorize_message-Permitted :
    (s : Store) (m : NewMessage) (c : SenderContext) (now : I64)
    → authorize_message s m c now ≡ ok tt
    → Permitted s m c now
unfolding authorize_message
authorize_message-Permitted s m c now h =
    let own =
      >>=-eq-ok (fail_if (not (str_eq m.sender_actor_id c.actor_id)) RuntimeError.unauthorized) _
        h in
    let (actor, active, rest) =
      >>=-eq-ok (active_actor s m.workspace_id c.actor_id c.actor_epoch now) _ own.2 in
    let fenced = >>=-eq-ok (authorize_fence s actor.role m.workspace_id c now) _ rest in
    let facts = Active-facts s m.workspace_id c.actor_id c.actor_epoch now active in
    record {
      actor = actor;
      own = (eq_iff m.sender_actor_id c.actor_id).0 (not-not _ (fail_if-ok _ _ own.1));
      found = facts.0;
      current = facts.1;
      online = facts.2;
      live = facts.3;
      credentials = Credentials-shown s m c now actor actor.role refl fenced.1 fenced.2;
    }
