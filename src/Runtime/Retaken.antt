-- ===== src/Runtime/Retaken.antt =====
-- crates/agsv-runtime/src/store.rs: a launch that is taken up again.
use text.Mathlib.TextEquality.{eq_iff}
use text.Mathlib.Text.{◌==◌ as str_eq}
use agent_supervisor.Common.{
  String, List, ℕ, ◌≡◌, refl, ap, sym, ◌∙◌, true, false, not, Option, none, some, arith,
}
use agent_supervisor.Common.Result.{ok, err, fail_if, >>=-eq-ok}
use agent_supervisor.Runtime.Table.{I64}
use agent_supervisor.Runtime.Types.{PathBuf, DaemonLease, LaunchIntent, RuntimeError}
use agent_supervisor.Runtime.Store.{Store, append_audit, validate_daemon_in_transaction}
use agent_supervisor.Runtime.Launch.{
  launch_intent, same_path, same_launch_intent, prepared_row, prepare_new, prepare_launch,
}
use agent_supervisor.Runtime.Steps.{Reach}
use agent_supervisor.Runtime.Progress.{proposal, Onward}
use agent_supervisor.Runtime.Resumed.{Reach-Onward}

same_launch-proposal :
    (i j k : LaunchIntent)
    → proposal k ≡ proposal j
    → same_launch_intent j i ≡ true
    → same_launch_intent k i ≡ true
unfolding same_launch_intent
same_launch-proposal i j k h alike = ap (λ (x : LaunchIntent). same_launch_intent x i) h ∙ alike

-- The row of a directory that is Unicode is the same launch as its intent.
prepared_alike :
    (i : LaunchIntent) (now : I64) (directory : String)
    → i.canonical_working_directory ≡ PathBuf.unicode directory
    → same_launch_intent (prepared_row i now).intent i ≡ true
unfolding same_launch_intent
prepared_alike i now directory h = rw h (
    ground (
      arith,
      (eq_iff i.actor_id i.actor_id).1 refl,
      (eq_iff i.spec_fingerprint i.spec_fingerprint).1 refl,
      (eq_iff directory directory).1 refl,
      (eq_iff i.backend i.backend).1 refl,
      (eq_iff i.session_name i.session_name).1 refl,
    ))

-- The row of any other directory is not.
prepared_differs :
    (i k : LaunchIntent) (now : I64) (raw : List ℕ) (lossy : String)
    → i.canonical_working_directory ≡ PathBuf.bytes raw lossy
    → proposal k ≡ proposal (prepared_row i now).intent
    → same_launch_intent k i ≡ false
unfolding same_launch_intent
prepared_differs i k now raw lossy h own =
    let there : same_path k.canonical_working_directory i.canonical_working_directory ≡ false =
      rw (ap (λ (x : LaunchIntent). x.canonical_working_directory) own, h) refl in
    ground (arith, there)

prepare_new-fresh :
    (i : LaunchIntent) (now : I64) (s : Store) {j : LaunchIntent} {t : Store}
    → prepare_new none i now s ≡ ok (j, t)
    → (j ≡ (prepared_row i now).intent)
      × (launch_intent t i.workspace_id i.idempotency_key ≡ some j)
unfolding append_audit launch_intent
prepare_new-fresh i now s h =
    let w = (eq_iff i.workspace_id i.workspace_id).1 refl in
    let k = (eq_iff i.idempotency_key i.idempotency_key).1 refl in
    (ground (arith, w, k, h), ground (arith, w, k, h))

prepare_new-result :
    (o : Option LaunchIntent) (i : LaunchIntent) (now : I64) (s : Store) (directory : String)
    {j : LaunchIntent} {t : Store}
    → i.canonical_working_directory ≡ PathBuf.unicode directory
    → launch_intent s i.workspace_id i.idempotency_key ≡ o
    → prepare_new o i now s ≡ ok (j, t)
    → (launch_intent t i.workspace_id i.idempotency_key ≡ some j) × (same_launch_intent j i ≡ true)
prepare_new-result none i now s directory is found h =
    let (made, kept) = prepare_new-fresh i now s h in
    (
      kept,
      ap (λ (x : LaunchIntent). same_launch_intent x i) made ∙ prepared_alike i now directory is,
    )
prepare_new-result (some k) i now s directory is found h = (ground arith, ground arith)

-- A prepare looked its key up.
prepare_launch-new :
    (d : DaemonLease) (i : LaunchIntent) (now : I64) (s : Store) {j : LaunchIntent} {t : Store}
    → prepare_launch d i now s ≡ ok (j, t)
    → prepare_new (launch_intent s i.workspace_id i.idempotency_key) i now s ≡ ok (j, t)
unfolding prepare_launch
prepare_launch-new d i now s h =
    let scoped =
      >>=-eq-ok (fail_if (not (str_eq d.workspace_id i.workspace_id)) RuntimeError.unauthorized) _
        h in
    (>>=-eq-ok (validate_daemon_in_transaction s d now) _ scoped.2).2

-- A prepare under a valid lease goes by what its key finds.
prepare_launch-found :
    (d : DaemonLease) (i k : LaunchIntent) (now : I64) (s : Store)
    → d.workspace_id ≡ i.workspace_id
    → validate_daemon_in_transaction s d now ≡ ok tt
    → launch_intent s i.workspace_id i.idempotency_key ≡ some k
    → prepare_launch d i now s ≡ prepare_new (some k) i now s
unfolding prepare_launch
prepare_launch-found d i k now s here valid found =
    rw ((eq_iff d.workspace_id i.workspace_id).1 here, valid, found) refl

-- A launch in a Unicode directory that was prepared is found again at any later store by a
-- prepare of the same intent under a valid daemon lease of its workspace, which writes nothing
-- and returns the intent as far as it has come.
pub prepare_launch-again :
    (d d' : DaemonLease) (i j : LaunchIntent) (now now' : I64) (s t u : Store) (directory : String)
    → i.canonical_working_directory ≡ PathBuf.unicode directory
    → prepare_launch d i now s ≡ ok (j, t)
    → Reach t u
    → d'.workspace_id ≡ i.workspace_id
    → validate_daemon_in_transaction u d' now' ≡ ok tt
    → (k : LaunchIntent) × (prepare_launch d' i now' u ≡ ok (k, u))
      × Onward j k
      × (launch_intent u i.workspace_id i.idempotency_key ≡ some k)
prepare_launch-again d d' i j now now' s t u directory is h run here valid =
    let (kept, alike) =
      prepare_new-result _ i now s directory is refl (prepare_launch-new d i now s h) in
    let (k, found, on) = Reach-Onward t u i.workspace_id i.idempotency_key j run kept in
    (
      k,
      prepare_launch-found d' i k now' u here valid found
          ∙ rw (same_launch-proposal i j k on.same alike) refl,
      on,
      found,
    )

-- A launch that was prepared under a new key in a directory that is not Unicode is a conflict with
-- itself: at any later store a prepare of the same intent under a valid daemon lease of its
-- workspace is refused.
prepare_launch-conflicts :
    (d d' : DaemonLease) (i j : LaunchIntent) (now now' : I64) (s t u : Store) (raw : List ℕ)
    (lossy : String)
    → i.canonical_working_directory ≡ PathBuf.bytes raw lossy
    → launch_intent s i.workspace_id i.idempotency_key ≡ none
    → prepare_launch d i now s ≡ ok (j, t)
    → Reach t u
    → d'.workspace_id ≡ i.workspace_id
    → validate_daemon_in_transaction u d' now' ≡ ok tt
    → prepare_launch d' i now' u ≡ err (RuntimeError.idempotency_conflict i.idempotency_key)
prepare_launch-conflicts d d' i j now now' s t u raw lossy is fresh h run here valid =
    let new = prepare_launch-new d i now s h in
    let (made, kept) =
      prepare_new-fresh i now s (ap (λ o. prepare_new o i now s) (sym fresh) ∙ new) in
    let (k, found, on) = Reach-Onward t u i.workspace_id i.idempotency_key j run kept in
    prepare_launch-found d' i k now' u here valid found
    ∙ rw (prepared_differs i k now raw lossy is (on.same ∙ ap proposal made)) refl
