-- ===== src/Runtime/Exclusive.antt =====
-- crates/agsv-runtime/src/store.rs: one daemon at a time holds the lease of a workspace.
use text.Mathlib.TextEquality.{eq_iff}
use agent_supervisor.Common.{
  String, ◌≡◌, ◌≢◌, refl, ap, sym, ◌∙◌, none, some, ◌<◌, arith, inl, inr, if◌then◌else◌,
  Option-cases,
}
use agent_supervisor.Common.Result.{Result, ok, err}
use agent_supervisor.Runtime.Table.{I64, i64_zero}
use agent_supervisor.Runtime.Types.{DaemonLease, RuntimeError}
use agent_supervisor.Runtime.Store.{Store, DaemonRow, holds, require_positive_ttl}
use agent_supervisor.Runtime.Leases.{of_workspace, acquire_daemon_lease, validate_daemon_lease}
use agent_supervisor.Runtime.Rows.{count-find}
use agent_supervisor.Runtime.Keys.{find-upsert_same, none-any, any-only}
use agent_supervisor.Runtime.Steps.{Step, Reach, empty}
use agent_supervisor.Runtime.Keyed.{
  daemon_row, DaemonKeyed, leased, leased_row, acquire_daemon_lease-writes, Reach-DaemonKeyed,
}

validate-row :
    (s : Store) (l : DaemonLease) (now : I64) {r : DaemonRow}
    → DaemonKeyed s
    → daemon_row s l.workspace_id ≡ some r
    → validate_daemon_lease s l now
      ≡ (if holds l now r then ok tt else err (RuntimeError.stale_epoch "daemon" l.instance_id))
unfolding validate_daemon_lease
validate-row s l now k found =
    rw
      (any-only (of_workspace l.workspace_id) (holds l now) s.daemon_leases
        (λ x h. ground (arith, h)) (k l.workspace_id) found)
      refl

module _ (w i : String) (now ttl fence : I64) where
  abbrev told : DaemonLease → I64 → Result RuntimeError (Unit {0})
  told l at =
      if holds l at (leased_row w i now ttl fence)
      then ok tt
      else err (RuntimeError.stale_epoch "daemon" l.instance_id)

  holder :
      (l : DaemonLease) (at : I64)
      → l ≡ leased w i now ttl fence
      → at < l.lease_until_ms
      → told l at ≡ ok tt
  holder l at made live = rw made (
      ground (
        arith,
        (eq_iff w w).1 refl,
        (eq_iff i i).1 refl,
        live,
        ap (λ (x : DaemonLease). x.lease_until_ms) made,
      ))

  outsider :
      (other : DaemonLease) (at : I64)
      → ((other.instance_id ≡ i) → (other.fencing_epoch ≡ fence) → ⊥)
      → told other at ≡ err (RuntimeError.stale_epoch "daemon" other.instance_id)
  outsider other at apart = ground (arith, (eq_iff i other.instance_id).0, apart)

-- In a store reached from the empty one, a daemon lease that was acquired validates until it
-- ends, and any other instance or fencing epoch of that workspace is refused as stale.
pub acquire_daemon_lease-fences :
    (w i : String) (now ttl : I64) (s : Store) (l : DaemonLease) (t : Store)
    → Reach empty s
    → acquire_daemon_lease w i now ttl s ≡ ok (l, t)
    → ((at : I64) → at < l.lease_until_ms → validate_daemon_lease t l at ≡ ok tt)
      × ((other : DaemonLease) (at : I64)
          → other.workspace_id ≡ w
          → ((other.instance_id ≡ i) → (other.fencing_epoch ≡ l.fencing_epoch) → ⊥)
          → validate_daemon_lease t other at
            ≡ err (RuntimeError.stale_epoch "daemon" other.instance_id))
acquire_daemon_lease-fences w i now ttl s l t run h =
    let (fence, given, made, written) = acquire_daemon_lease-writes w i now ttl s h in
    let k = Reach-DaemonKeyed t (Reach.later run (Step.daemon_acquired w i now ttl h)) in
    let found : daemon_row t w ≡ some (leased_row w i now ttl fence) = rw written (
      find-upsert_same (of_workspace w) (leased_row w i now ttl fence) s.daemon_leases
        ((eq_iff w w).1 refl)) in
    let same = ap (λ (x : DaemonLease). x.fencing_epoch) made in
    (
      λ at live.
          validate-row t l at k (ap (λ (x : DaemonLease). daemon_row t x.workspace_id) made ∙ found)
          ∙ holder w i now ttl fence l at made live,
      λ other at here apart.
          validate-row t other at k (ap (daemon_row t) here ∙ found)
          ∙ outsider w i now ttl fence other at (λ o f. apart o (f ∙ sym same)),
    )

unheld :
    (s : Store) (l : DaemonLease) (now : I64)
    → daemon_row s l.workspace_id ≡ none
    → validate_daemon_lease s l now ≢ ok tt
unfolding validate_daemon_lease
unheld s l now gone valid = ground (
  arith,
  valid,
  none-any (of_workspace l.workspace_id) (holds l now) s.daemon_leases (λ x h. ground (arith, h))
      (count-find (of_workspace l.workspace_id) s.daemon_leases gone),
)

held_against :
    (s : Store) (w owner i : String) (now ttl : I64) {r : DaemonRow}
    → daemon_row s w ≡ some r
    → r.lease.instance_id ≡ owner
    → i ≢ owner
    → now < r.lease.lease_until_ms
    → i64_zero < ttl
    → acquire_daemon_lease w i now ttl s
      ≡ err (RuntimeError.lease_held owner r.lease.lease_until_ms)
unfolding acquire_daemon_lease require_positive_ttl
held_against s w owner i now ttl {r} found own apart live positive =
    rw (found, own) (ground (arith, (eq_iff owner i).0, apart, live, positive))

-- In a store reached from the empty one, while a daemon's lease validates, another instance that
-- asks for it with a positive lifetime is told who holds it, and until a time after now.
pub acquire_daemon_lease-held :
    (l : DaemonLease) (i : String) (now ttl : I64) (s : Store)
    → Reach empty s
    → validate_daemon_lease s l now ≡ ok tt
    → i ≢ l.instance_id
    → i64_zero < ttl
    → (until : I64) × (now < until)
      × (acquire_daemon_lease l.workspace_id i now ttl s
          ≡ err (RuntimeError.lease_held l.instance_id until))
acquire_daemon_lease-held l i now ttl s run valid apart positive =
    let k = Reach-DaemonKeyed s run in
    elim (Option-cases (daemon_row s l.workspace_id)) [
      | inl gone ↦ absurd (unheld s l now gone valid)
      | inr (r, found) ↦
          let fit = sym (validate-row s l now k found) ∙ valid in
          (
            r.lease.lease_until_ms,
            ground (arith, fit),
            held_against s l.workspace_id l.instance_id i now ttl found
                ((eq_iff r.lease.instance_id l.instance_id).0 (ground (arith, fit))) apart
                (ground (arith, fit)) positive,
          )
    ]
