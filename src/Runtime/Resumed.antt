-- ===== src/Runtime/Resumed.antt =====
-- crates/agsv-runtime/src/store.rs: launch intents over any run of the store's operations.
use text.Mathlib.TextEquality.{eq_iff}
use text.Mathlib.Text.{◌==◌ as str_eq}
use mathlib.Core.Option.{some_inj}
use agent_supervisor.Common.{
  String, ◌≡◌, refl, ap, sym, subst, ◌∙◌, Bool, true, false, ◌&&◌, Option, none, some, List, arith,
  Bool-cases, inl, inr,
}
use agent_supervisor.Common.Lists.{find}
use agent_supervisor.Runtime.Table.{I64}
use agent_supervisor.Runtime.Types.{LaunchIntent}
use agent_supervisor.Runtime.Store.{Store, LaunchRow}
use agent_supervisor.Runtime.Actors.{attached_at}
use agent_supervisor.Runtime.Launch.{
  has_key, row_intent, launch_intent, prepared_row, is_checkpointed, checkpoint_row, is_launched,
  launched_row,
}
use agent_supervisor.Runtime.Rows.{updated, find-update_where, find-holds}
use agent_supervisor.Runtime.Steps.{Step, Reach}
use agent_supervisor.Runtime.Frames.{
  acquire_daemon_lease-keeps, heartbeat_daemon-keeps, acquire_primary_lease-keeps,
  register_actor-keeps, heartbeat_actor-keeps, mark_actor_offline-keeps, send_message-keeps,
  claim_message-keeps, acknowledge_message-keeps, retry_message-keeps, reconcile_expired-keeps,
}
use agent_supervisor.Runtime.Progress.{
  stage, proposal, Onward, Onward-refl, Onward-trans, Change, prepare_launch-writes,
  checkpoint_launch-writes, record_launch_result-writes, attach_session-writes,
}

row_of :
    (o : Option LaunchRow) {i : LaunchIntent}
    → row_intent o ≡ some i
    → (r : LaunchRow) × (o ≡ some r) × (r.intent ≡ i)
row_of none h = cc
row_of (some r) h = (r, refl, some_inj.0 h)

no_row : (o : Option LaunchRow) → row_intent o ≡ none → o ≡ none
no_row none h = refl
no_row (some r) h = cc

Onward-checkpoint :
    (token : String) (now : I64) (r : LaunchRow)
    → is_checkpointed r.intent.state ≡ false
    → Onward r.intent (checkpoint_row token now r).intent
unfolding stage
Onward-checkpoint token now r h = record {
  same = refl;
  stages = ground arith;
  session = λ k. ground arith;
}

Onward-launch :
    (x : _) (now : I64) (r : LaunchRow)
    → is_launched r.intent.state ≡ false
    → Onward r.intent (launched_row x now r).intent
unfolding stage
Onward-launch x now r h = record { same = refl; stages = ground arith; session = λ k. ground arith }

Onward-attach : (now : I64) (r : LaunchRow) → Onward r.intent (attached_at now r).intent
unfolding stage
Onward-attach now r = record { same = refl; stages = ground arith; session = λ k. (refl, refl) }

pub Step-Change : (s t : Store) → Step s t → Change s.launch_intents t.launch_intents
unfolding launch_intent
Step-Change s t (Step.daemon_acquired w i now ttl h) =
    Change.unchanged (acquire_daemon_lease-keeps s w i now ttl h).1
Step-Change s t (Step.daemon_beat l now ttl h) =
    Change.unchanged (heartbeat_daemon-keeps s l now ttl h).1
Step-Change s t (Step.primary_acquired w a e now ttl h) =
    Change.unchanged (acquire_primary_lease-keeps s w a e now ttl h).2
Step-Change s t (Step.registered d w a team role b now ttl h) =
    Change.unchanged (register_actor-keeps s d w a team role b now ttl h).2
Step-Change s t (Step.session_attached d w a e key x now ttl h) =
    elim (attach_session-writes d w a e key x now ttl s h) [
      | inl k ↦ Change.unchanged k
      | inr (k, writes) ↦ Change.marked _ (attached_at now) (Onward-attach now) writes
    ]
Step-Change s t (Step.actor_beat w a e now ttl h) =
    Change.unchanged (heartbeat_actor-keeps s w a e now ttl h).2
Step-Change s t (Step.actor_offline w a e now h) =
    Change.unchanged (mark_actor_offline-keeps s w a e now h).2
Step-Change s t (Step.prepared d i now h) = elim (prepare_launch-writes d i now s h) [
  | inl (k, found) ↦ Change.unchanged k
  | inr (new, writes) ↦ Change.added (prepared_row i now) (no_row _ new) writes
]
Step-Change s t (Step.checkpointed d key token now h) =
    elim (checkpoint_launch-writes d key token now s h) [
      | inl k ↦ Change.unchanged k
      | inr (i, found, new, writes) ↦
          let (r, is, own) = row_of _ found in
          Change.moved d.workspace_id key r (checkpoint_row token now) is
            (Onward-checkpoint token now r (rw own new)) (λ x. refl) writes
    ]
Step-Change s t (Step.launched d key x now h) = elim (record_launch_result-writes d key x now s h) [
  | inl k ↦ Change.unchanged k
  | inr (i, found, new, writes) ↦
      let (r, is, own) = row_of _ found in
      Change.moved d.workspace_id key r (launched_row x now) is (Onward-launch x now r (rw own new))
        (λ y. refl) writes
]
Step-Change s t (Step.sent m c now h) = Change.unchanged (send_message-keeps s m c now h).1
Step-Change s t (Step.claimed w a e now ttl h) =
    Change.unchanged (claim_message-keeps s w a e now ttl h).1
Step-Change s t (Step.answered w id a e d now h) =
    Change.unchanged (acknowledge_message-keeps s w id a e d now h).1
Step-Change s t (Step.retried w id a e d now delay failure h) =
    Change.unchanged (retry_message-keeps s w id a e d now delay failure h).1
Step-Change s t (Step.reconciled w now h) = Change.unchanged (reconcile_expired-keeps s w now h).1

has_key-parts :
    (w key : String) (x : LaunchRow)
    → has_key w key x ≡ true
    → (x.intent.workspace_id ≡ w) × (x.intent.idempotency_key ≡ key)
has_key-parts w key x h = (
  (eq_iff x.intent.workspace_id w).0 (ground (arith, h)),
  (eq_iff x.intent.idempotency_key key).0 (ground (arith, h)),
)

has_key-proposal :
    (w key : String) (f : LaunchRow → LaunchRow) (x : LaunchRow)
    → proposal (f x).intent ≡ proposal x.intent
    → has_key w key (f x) ≡ has_key w key x
has_key-proposal w key f x same =
    ap (λ (i : LaunchIntent). str_eq i.workspace_id w && str_eq i.idempotency_key key) same

-- The row that is moved is the one that its key finds.
moved_row :
    (ms : List LaunchRow) (w key v k : String) (r x : LaunchRow)
    → find (has_key w key) ms ≡ some r
    → find (has_key v k) ms ≡ some x
    → has_key v k r ≡ true
    → x ≡ r
moved_row ms w key v k r x h is hit =
    let own = has_key-parts w key r (find-holds (has_key w key) ms h) in
    let other = has_key-parts v k r hit in
    let found : find (has_key v k) ms ≡ some r = rw (sym other.0 ∙ own.0, sym other.1 ∙ own.1) h in
    some_inj.0 (sym is ∙ found)

updated-Onward :
    (p : LaunchRow → Bool) (f : LaunchRow → LaunchRow) (r : LaunchRow)
    → (p r ≡ true → Onward r.intent (f r).intent)
    → Onward r.intent (updated p f r).intent
updated-Onward p f r on = elim (Bool-cases (p r)) [
  | inl hit ↦ rw hit (on hit)
  | inr miss ↦ rw miss (Onward-refl r.intent)
]

module _ (ms ns : List LaunchRow) (w key : String) where
  Change-Onward :
      (r : LaunchRow)
      → Change ms ns
      → find (has_key w key) ms ≡ some r
      → (n : LaunchRow) × (find (has_key w key) ns ≡ some n) × Onward r.intent n.intent
  Change-Onward r (Change.unchanged e) h = (r, rw e h, Onward-refl r.intent)
  Change-Onward r (Change.added x new e) h = elim (Bool-cases (has_key w key x)) [
    | inl hit ↦
        let own = has_key-parts w key x hit in
        let gone : find (has_key w key) ms ≡ none = rw (sym own.0, sym own.1) new in
        absurd (ground (arith, h, gone))
    | inr miss ↦ (r, rw (e, miss) h, Onward-refl r.intent)
  ]
  Change-Onward r (Change.moved v k x f is on keep e) h = (
    updated (has_key v k) f r,
    rw
        (
          e,
          find-update_where (has_key w key) (has_key v k) f
              (λ y. has_key-proposal w key f y (keep y)) ms,
          h,
        )
        refl,
    updated-Onward (has_key v k) f r (λ hit.
        subst (λ (y : LaunchRow). Onward y.intent (f y).intent)
          (moved_row ms w key v k r x h is hit) on),
  )
  Change-Onward r (Change.marked p f on e) h = (
    updated p f r,
    rw
        (
          e,
          find-update_where (has_key w key) p f (λ y. has_key-proposal w key f y (on y).same) ms,
          h,
        )
        refl,
    updated-Onward p f r (λ hit. on r),
  )

launch_found :
    (s : Store) (w key : String) {r : LaunchRow}
    → find (has_key w key) s.launch_intents ≡ some r
    → launch_intent s w key ≡ some r.intent
unfolding launch_intent
launch_found s w key h = ap row_intent h

pub Step-Onward :
    (s t : Store) (w key : String) (i : LaunchIntent)
    → Step s t
    → launch_intent s w key ≡ some i
    → (j : LaunchIntent) × (launch_intent t w key ≡ some j) × Onward i j
unfolding launch_intent
Step-Onward s t w key i step h =
    let (r, is, own) = row_of _ h in
    let (n, found, on) =
      Change-Onward s.launch_intents t.launch_intents w key r (Step-Change s t step) is in
    (n.intent, ap row_intent found, subst (λ (x : LaunchIntent). Onward x n.intent) own on)

-- Over any run of the store's operations a launch intent keeps its proposal, its state never
-- goes back, and once it is launched its session and resume token never change.
pub Reach-Onward :
    (s t : Store) (w key : String) (i : LaunchIntent)
    → Reach s t
    → launch_intent s w key ≡ some i
    → (j : LaunchIntent) × (launch_intent t w key ≡ some j) × Onward i j
Reach-Onward s t w key i Reach.here h = (i, h, Onward-refl i)
Reach-Onward s t w key i (Reach.later {t = u} run step) h =
    let (j, found, between) = Reach-Onward s u w key i run h in
    let (k, last, after) = Step-Onward u t w key j step found in
    (k, last, Onward-trans i j k between after)
