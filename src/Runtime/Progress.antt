-- ===== src/Runtime/Progress.antt =====
-- crates/agsv-runtime/src/store.rs: the launches of a store, over any run of its operations.
use text.Mathlib.Text.{◌==◌ as str_eq}
use agent_supervisor.Common.{
  String, ℕ, ◌≡◌, refl, ◌∙◌, Bool, true, false, not, Option, none, some, List, ◌∷◌, ◌≤◌, arith,
  Bool-cases, inl, inr, ◌⊎◌,
}
use agent_supervisor.Common.Lists.{find}
use agent_supervisor.Common.Result.{ok, ok_or, fail_if, >>=-eq-ok, ok_or-ok}
use agent_supervisor.Runtime.Table.{I64, update_where}
use agent_supervisor.Runtime.Types.{
  SessionHandle, DaemonLease, LaunchIntent, LaunchIntentState, ActorRecord, RuntimeError,
}
use agent_supervisor.Runtime.Store.{Store, LaunchRow, append_audit, validate_daemon_in_transaction}
use agent_supervisor.Runtime.Actors.{is_launch, attached_at, attach_session}
use agent_supervisor.Runtime.Launch.{
  has_key, launch_intent, prepared_row, prepare_launch, is_checkpointed, checkpoint_row,
  checkpoint_launch, is_launched, launched_row, record_launch_result,
}

-- How far a launch has come.
unfoldable pub stage : LaunchIntentState → ℕ
stage LaunchIntentState.prepared = 0
stage LaunchIntentState.checkpointed = 1
stage LaunchIntentState.launched = 2
stage LaunchIntentState.attached = 3

-- A launch without what its steps change.
abbrev pub proposal : LaunchIntent → LaunchIntent
proposal i = record i {
  state = LaunchIntentState.prepared;
  resume_token = none;
  session_external_id = none;
}

-- What a launch may become.
pub record Onward (i j : LaunchIntent) : Type 0 where
  pub same : proposal j ≡ proposal i
  pub stages : stage i.state ≤ stage j.state
  pub session :
      is_launched i.state ≡ true
      → (j.session_external_id ≡ i.session_external_id) × (j.resume_token ≡ i.resume_token)

pub Onward-refl : (i : LaunchIntent) → Onward i i
Onward-refl i = record { same = refl; stages = omega arith; session = λ h. (refl, refl) }

is_launched-stage :
    (a b : LaunchIntentState) → stage a ≤ stage b → is_launched a ≡ true → is_launched b ≡ true
unfolding stage
is_launched-stage a b n h = ground arith

pub Onward-trans : (i j k : LaunchIntent) → Onward i j → Onward j k → Onward i k
Onward-trans i j k x y = record {
  same = y.same ∙ x.same;
  stages = omega (arith, x.stages, y.stages);
  session = λ h.
      let first = x.session h in
      let second = y.session (is_launched-stage i.state j.state x.stages h) in
      (second.0 ∙ first.0, second.1 ∙ first.1);
}

-- What a step does to the launches.
pub data Change (ms : List LaunchRow) : List LaunchRow → Type 0 where
  unchanged : {ns : List LaunchRow} → ns ≡ ms → Change ms ns
  added :
      (r : LaunchRow) {ns : List LaunchRow}
      → find (has_key r.intent.workspace_id r.intent.idempotency_key) ms ≡ none
      → ns ≡ r ∷ ms
      → Change ms ns
  moved :
      (w key : String) (r : LaunchRow) (f : LaunchRow → LaunchRow) {ns : List LaunchRow}
      → find (has_key w key) ms ≡ some r
      → Onward r.intent (f r).intent
      → ((x : LaunchRow) → proposal (f x).intent ≡ proposal x.intent)
      → ns ≡ update_where (has_key w key) f ms
      → Change ms ns
  marked :
      (p : LaunchRow → Bool) (f : LaunchRow → LaunchRow) {ns : List LaunchRow}
      → ((x : LaunchRow) → Onward x.intent (f x).intent)
      → ns ≡ update_where p f ms
      → Change ms ns

pub prepare_launch-writes :
    (d : DaemonLease) (i : LaunchIntent) (now : I64) (s : Store) {j : LaunchIntent} {t : Store}
    → prepare_launch d i now s ≡ ok (j, t)
    → ((t.launch_intents ≡ s.launch_intents)
        × (launch_intent s i.workspace_id i.idempotency_key ≡ some j))
      ⊎ ((launch_intent s i.workspace_id i.idempotency_key ≡ none)
          × (t.launch_intents ≡ prepared_row i now ∷ s.launch_intents))
unfolding prepare_launch append_audit
prepare_launch-writes d i now s h = ground arith

pub checkpoint_launch-writes :
    (d : DaemonLease) (key token : String) (now : I64) (s : Store) {u : Unit {0}} {t : Store}
    → checkpoint_launch d key token now s ≡ ok (u, t)
    → (t.launch_intents ≡ s.launch_intents)
      ⊎ ((i : LaunchIntent) × (launch_intent s d.workspace_id key ≡ some i)
          × (is_checkpointed i.state ≡ false)
          × (t.launch_intents
              ≡ update_where
                  (has_key d.workspace_id key)
                  (checkpoint_row token now)
                  s.launch_intents))
unfolding checkpoint_launch append_audit
checkpoint_launch-writes d key token now s h =
    let passed = >>=-eq-ok (validate_daemon_in_transaction s d now) _ h in
    let (i, found, rest) =
      >>=-eq-ok
        (ok_or (launch_intent s d.workspace_id key) (RuntimeError.not_found "launch intent" key)) _
        passed.2 in
    elim (Bool-cases (is_checkpointed i.state)) [
      | inl before ↦ inl (ground (arith, rest, before))
      | inr new ↦ inr (i, ok_or-ok _ _ found, new, ground (arith, rest, new))
    ]

pub record_launch_result-writes :
    (d : DaemonLease) (key : String) (x : SessionHandle) (now : I64) (s : Store) {u : Unit {0}}
    {t : Store}
    → record_launch_result d key x now s ≡ ok (u, t)
    → (t.launch_intents ≡ s.launch_intents)
      ⊎ ((i : LaunchIntent) × (launch_intent s d.workspace_id key ≡ some i)
          × (is_launched i.state ≡ false)
          × (t.launch_intents
              ≡ update_where (has_key d.workspace_id key) (launched_row x now) s.launch_intents))
unfolding record_launch_result append_audit
record_launch_result-writes d key x now s h =
    let passed = >>=-eq-ok (validate_daemon_in_transaction s d now) _ h in
    let (i, found, rest) =
      >>=-eq-ok
        (ok_or (launch_intent s d.workspace_id key) (RuntimeError.not_found "launch intent" key)) _
        passed.2 in
    let own =
      >>=-eq-ok (fail_if (not (str_eq i.backend x.backend)) RuntimeError.invalid_state) _ rest in
    elim (Bool-cases (is_launched i.state)) [
      | inl before ↦ inl (ground (arith, own.2, before))
      | inr new ↦ inr (i, ok_or-ok _ _ found, new, ground (arith, own.2, new))
    ]

pub attach_session-writes :
    (d : Option DaemonLease) (w a : String) (e : I64) (key : Option String) (x : SessionHandle)
    (now ttl : I64) (s : Store) {r : ActorRecord} {t : Store}
    → attach_session d w a e key x now ttl s ≡ ok (r, t)
    → (t.launch_intents ≡ s.launch_intents)
      ⊎ ((k : String) × (t.launch_intents
            ≡ update_where (is_launch w k a x) (attached_at now) s.launch_intents))
unfolding attach_session append_audit
attach_session-writes d w a e none x now ttl s h = inl (ground arith)
attach_session-writes d w a e (some k) x now ttl s h = inr (k, ground arith)
