-- ===== src/Runtime/Attached.antt =====
-- crates/agsv-runtime/src/store.rs: what attaching a launched session leaves.
use text.Mathlib.TextEquality.{eq_iff}
use text.Mathlib.Text.{◌==◌ as str_eq}
use mathlib.Core.List.{Memᴰ}
use mathlib.Core.Option.{some_inj}
use agent_supervisor.Common.{
  String, ◌≡◌, refl, ap, sym, subst, ◌∙◌, Bool, true, not, ◌||◌, ◌==◌, Option, none, some, List, [],
  ◌∷◌, leb, arith, Bool-cases, inl, inr,
}
use agent_supervisor.Common.Lists.{find}
use agent_supervisor.Common.Result.{Result, ok, ok_or, fail_if, >>=-eq-ok, ok_or-ok, fail_if-ok}
use agent_supervisor.Runtime.Table.{I64, saturating_add, update_where, count_where}
use agent_supervisor.Runtime.Types.{
  ActorState, SessionHandle, ActorRecord, DaemonLease, LaunchIntentState, RuntimeError,
}
use agent_supervisor.Runtime.Store.{
  Store, ActorRow, LaunchRow, is_actor, actor_from_raw, actor_by_id, require_positive_ttl,
  validate_daemon_option, ensure_epoch_update, append_audit,
}
use agent_supervisor.Runtime.Actors.{
  is_generation, is_launch, attached_at, attach_intent, attach_session,
}
use agent_supervisor.Runtime.Rows.{find-update_where, find-holds, text_is-some}

abbrev given : {A : Type 0} → A → Store → Result RuntimeError (A × Store)
given a s = ok (a, s)

module _ {A : Type 0} {a b : A} {s t : Store} (h : given a s ≡ given b t) where
  ok_value : a ≡ b
  ok_value = ground (arith, h)

  ok_store : s ≡ t
  ok_store = ground (arith, h)

-- A launch that has come to its end with a session.
pub record IsAttached (s : Store) (w key a : String) (x : SessionHandle) : Type 0 where
  row : LaunchRow
  stored : Memᴰ row s.launch_intents
  done : row.intent.state ≡ LaunchIntentState.attached
  here : row.intent.workspace_id ≡ w
  keyed : row.intent.idempotency_key ≡ key
  owned : row.intent.actor_id ≡ a
  session : row.intent.session_external_id ≡ some x.external_id

-- The row of an actor that a session is attached to.
abbrev online_row : SessionHandle → I64 → I64 → ActorRow → ActorRow
online_row x now ttl r = record r {
  state = ActorState.online;
  backend = x.backend;
  session_external_id = some x.external_id;
  session_resume_token = x.resume_token;
  heartbeat_at_ms = now;
  lease_until_ms = saturating_add now ttl;
}

touched :
    {R : Type 0} (p : R → Bool) (f : R → R) (rs : List R)
    → count_where p rs ≡ 1
    → (r : R) × Memᴰ (f r) (update_where p f rs) × (p r ≡ true)
unfolding count_where update_where
touched p f [] h = ground (arith, h)
touched p f (r ∷ rs) h = elim (Bool-cases (p r)) [
  | inl hit ↦ (r, Memᴰ.head (rw hit refl), hit)
  | inr miss ↦
      let (x, there, is) = touched p f rs (ground (arith, h, miss)) in (x, Memᴰ.tail there, is)
]

IsAttached-row :
    (w k a : String) (x : SessionHandle) (now : I64) (r : LaunchRow) (t : Store)
    → Memᴰ (attached_at now r) t.launch_intents
    → is_launch w k a x r ≡ true
    → IsAttached t w k a x
IsAttached-row w k a x now r t there is = record {
  row = attached_at now r;
  stored = there;
  done = refl;
  here = (eq_iff r.intent.workspace_id w).0 (ground (arith, is));
  keyed = (eq_iff r.intent.idempotency_key k).0 (ground (arith, is));
  owned = (eq_iff r.intent.actor_id a).0 (ground (arith, is));
  session = text_is-some r.intent.session_external_id x.external_id (ground (arith, is));
}

-- The actor of the found row, by what the update made of it.
row_record :
    (o : Option ActorRow) (w a : String) (s : Store) {r : ActorRecord}
    → find (is_actor w a) s.actors ≡ o
    → actor_by_id s w a ≡ some r
    → (x : ActorRow) × (o ≡ some x) × (r ≡ actor_from_raw x)
unfolding actor_by_id
row_record none w a s f h = ground (arith, f, h)
row_record (some x) w a s f h = (x, refl, ground (arith, f, h))

-- The actor that is online with a session, and the launch that the session is from.
pub record Online (s : Store) (w key a : String) (x : SessionHandle) (actor : ActorRecord)
    : Type 0 where
  pub stored : actor_by_id s w a ≡ some actor
  pub session : actor.session ≡ some x
  pub online : actor.state ≡ ActorState.online
  pub backend : actor.backend ≡ x.backend
  pub launch : IsAttached s w key a x

online_record :
    (x : SessionHandle) (now ttl : I64) (r : ActorRow)
    → ((actor_from_raw (online_row x now ttl r)).session ≡ some x)
      × ((actor_from_raw (online_row x now ttl r)).state ≡ ActorState.online)
      × ((actor_from_raw (online_row x now ttl r)).backend ≡ x.backend)
unfolding actor_from_raw
online_record x now ttl r = (refl, refl, refl)

epoch_kept : (r : ActorRow) → (actor_from_raw r).actor_epoch ≡ r.actor_epoch
unfolding actor_from_raw
epoch_kept r = refl

found_online :
    (s t : Store) (w a : String) (e : I64) (x : SessionHandle) (now ttl : I64) {b r : ActorRecord}
    → actor_by_id s w a ≡ some b
    → b.actor_epoch ≡ e
    → t.actors ≡ update_where (is_generation w a e) (online_row x now ttl) s.actors
    → actor_by_id t w a ≡ some r
    → (r.session ≡ some x) × (r.state ≡ ActorState.online) × (r.backend ≡ x.backend)
found_online s t w a e x now ttl {b} {r} before epoch writes after =
    let (old, is, made) = row_record _ w a s refl before in
    let (new, found, shown) = row_record _ w a t refl after in
    let hit = find-holds (is_actor w a) s.actors is in
    let same : old.actor_epoch ≡ e =
      sym (epoch_kept old) ∙ ap (λ (y : ActorRecord). y.actor_epoch) (sym made) ∙ epoch in
    let touching : is_generation w a e old ≡ true = ground (arith, hit, same) in
    let moved : find (is_actor w a) t.actors ≡ some (online_row x now ttl old) = rw writes (
      find-update_where (is_actor w a) (is_generation w a e) (online_row x now ttl) (λ y. refl)
        s.actors
      ∙ rw (is, touching) refl) in
    let own : r ≡ actor_from_raw (online_row x now ttl old) =
      shown ∙ ap actor_from_raw (some_inj.0 (sym found ∙ moved)) in
    let facts = online_record x now ttl old in
    (
      ap (λ (y : ActorRecord). y.session) own ∙ facts.0,
      ap (λ (y : ActorRecord). y.state) own ∙ facts.1,
      ap (λ (y : ActorRecord). y.backend) own ∙ facts.2,
    )

attach_intent-touched :
    (k w a : String) (x : SessionHandle) (now : I64) (s : Store) {y : Unit {0} × Store}
    → attach_intent (some k) w a x now s ≡ ok y
    → (y.1.actors ≡ s.actors) × IsAttached y.1 w k a x
unfolding ensure_epoch_update
attach_intent-touched k w a x now s {y} h =
    let counted =
      >>=-eq-ok (ensure_epoch_update (count_where (is_launch w k a x) s.launch_intents) _ k) _ h in
    let one : count_where (is_launch w k a x) s.launch_intents ≡ 1 = ground (arith, counted.1) in
    let writes : y.1.launch_intents
        ≡ update_where (is_launch w k a x) (attached_at now) s.launch_intents =
      ground (arith, counted.2) in
    let (r, there, is) = touched (is_launch w k a x) (attached_at now) s.launch_intents one in
    (
      ground (arith, counted.2),
      IsAttached-row w k a x now r y.1 (subst (Memᴰ (attached_at now r)) (sym writes) there) is,
    )

IsAttached-same :
    (s t : Store) (w k a : String) (x : SessionHandle)
    → t.launch_intents ≡ s.launch_intents
    → IsAttached s w k a x
    → IsAttached t w k a x
IsAttached-same s t w k a x same r = record {
  row = r.row;
  stored = subst (Memᴰ r.row) (sym same) r.stored;
  done = r.done;
  here = r.here;
  keyed = r.keyed;
  owned = r.owned;
  session = r.session;
}

-- A launched session that is attached: its actor is online with it, and its launch is done.
pub attach_session-Online :
    (d : Option DaemonLease) (w a : String) (e : I64) (k : String) (x : SessionHandle)
    (now ttl : I64) (s : Store) {r : ActorRecord} {t : Store}
    → attach_session d w a e (some k) x now ttl s ≡ ok (r, t)
    → Online t w k a x r
unfolding attach_session append_audit
attach_session-Online d w a e k x now ttl s {r} {t} h =
    let positive = >>=-eq-ok (require_positive_ttl ttl) _ h in
    let fenced = >>=-eq-ok (validate_daemon_option s d now) _ positive.2 in
    let (b, found, rest) =
      >>=-eq-ok (ok_or (actor_by_id s w a) (RuntimeError.not_found "actor" a)) _ fenced.2 in
    let scoped =
      >>=-eq-ok (fail_if (not (str_eq b.backend x.backend)) RuntimeError.invalid_state) _ rest in
    let live =
      >>=-eq-ok
        (fail_if (not (b.actor_epoch == e) || leb b.lease_until_ms now)
          (RuntimeError.stale_epoch "actor" a))
        _ scoped.2 in
    let ensured = >>=-eq-ok (ensure_epoch_update _ "actor" a) _ live.2 in
    let (y, attached, tail) = >>=-eq-ok (attach_intent (some k) w a x now _) _ ensured.2 in
    let (z, is, last) = >>=-eq-ok (ok_or (actor_by_id _ w a) _) _ tail in
    let written = attach_intent-touched k w a x now _ attached in
    let epoch : b.actor_epoch ≡ e = ground (arith, fail_if-ok _ _ live.1) in
    let stored : actor_by_id t w a ≡ some r =
      ap (λ u. actor_by_id u w a) (sym (ok_store last))
      ∙ ok_or-ok _ _ is
      ∙ ap some (ok_value last) in
    let actors = ap (λ (u : Store). u.actors) (sym (ok_store last)) ∙ written.0 in
    let facts = found_online s t w a e x now ttl (ok_or-ok _ _ found) epoch actors stored in
    record {
      stored = stored;
      session = facts.0;
      online = facts.1;
      backend = facts.2;
      launch =
          IsAttached-same y.1 t w k a x (ap (λ (u : Store). u.launch_intents) (sym (ok_store last)))
            written.1;
    }
