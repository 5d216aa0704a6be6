-- ===== src/Runtime/Keyed.antt =====
-- crates/agsv-runtime/src/store.rs: a workspace has one daemon lease at most.
use text.Mathlib.TextEquality.{eq_iff}
use text.Mathlib.Text.{◌==◌ as str_eq}
use agent_supervisor.Common.{String, ◌≡◌, refl, sym, Option, List, ◌≤◌, arith, inl, inr, Bool-cases}
use agent_supervisor.Common.Lists.{find}
use agent_supervisor.Common.Result.{ok, >>=-eq-ok}
use agent_supervisor.Runtime.Table.{I64, saturating_add, count_where, update_where, upsert}
use agent_supervisor.Runtime.Types.{DaemonLease}
use agent_supervisor.Runtime.Store.{Store, DaemonRow, holds, append_audit, require_positive_ttl}
use agent_supervisor.Runtime.Leases.{
  of_workspace, daemon_fence, acquire_daemon_lease, heartbeat_daemon,
}
use agent_supervisor.Runtime.Rows.{count-update_where}
use agent_supervisor.Runtime.Keys.{count-upsert_same, count-upsert_other}
use agent_supervisor.Runtime.Steps.{Step, Reach, empty}
use agent_supervisor.Runtime.Frames.{
  acquire_primary_lease-keeps, register_actor-keeps, attach_session-keeps, heartbeat_actor-keeps,
  mark_actor_offline-keeps, prepare_launch-keeps, checkpoint_launch-keeps,
  record_launch_result-keeps, send_message-keeps, claim_message-keeps, acknowledge_message-keeps,
  retry_message-keeps, reconcile_expired-keeps,
}

abbrev pub daemon_row : Store → String → Option DaemonRow
daemon_row s w = find (of_workspace w) s.daemon_leases

abbrev pub DaemonKeyed : Store → Type 0
DaemonKeyed s = (w : String) → count_where (of_workspace w) s.daemon_leases ≤ 1

abbrev pub leased : String → String → I64 → I64 → I64 → DaemonLease
leased w i now ttl fence = record {
  workspace_id = w;
  instance_id = i;
  fencing_epoch = fence;
  lease_until_ms = saturating_add now ttl;
}

abbrev pub leased_row : String → String → I64 → I64 → I64 → DaemonRow
leased_row w i now ttl fence = record { lease = leased w i now ttl fence; heartbeat_at_ms = now }

pub acquire_daemon_lease-writes :
    (w i : String) (now ttl : I64) (s : Store) {l : DaemonLease} {t : Store}
    → acquire_daemon_lease w i now ttl s ≡ ok (l, t)
    → (fence : I64) × (daemon_fence (daemon_row s w) i now ≡ ok fence)
      × (l ≡ leased w i now ttl fence)
      × (t.daemon_leases
          ≡ upsert
              (of_workspace w)
              (leased_row w i now ttl fence)
              (λ _. leased_row w i now ttl fence)
              s.daemon_leases)
unfolding acquire_daemon_lease append_audit
acquire_daemon_lease-writes w i now ttl s h =
    let passed = >>=-eq-ok (require_positive_ttl ttl) _ h in
    let (fence, given, rest) = >>=-eq-ok (daemon_fence (daemon_row s w) i now) _ passed.2 in
    (fence, given, ground (arith, rest), ground (arith, rest))

heartbeat_daemon-writes :
    (d : DaemonLease) (now ttl : I64) (s : Store) {l : DaemonLease} {t : Store}
    → heartbeat_daemon d now ttl s ≡ ok (l, t)
    → t.daemon_leases
      ≡ update_where
          (holds d now)
          (λ r. record {
            lease = record r.lease { lease_until_ms = saturating_add now ttl };
            heartbeat_at_ms = now;
          })
          s.daemon_leases
unfolding heartbeat_daemon
heartbeat_daemon-writes d now ttl s h = ground arith

DaemonKeyed-upsert :
    (w v : String) (row : DaemonRow) (rs : List DaemonRow)
    → row.lease.workspace_id ≡ w
    → count_where (of_workspace w) rs ≤ 1
    → count_where (of_workspace v) rs ≤ 1
    → count_where (of_workspace v) (upsert (of_workspace w) row (λ _. row) rs) ≤ 1
DaemonKeyed-upsert w v row rs own m n = elim (Bool-cases (str_eq w v)) [
  | inl same ↦
      rw (sym ((eq_iff w v).0 same))
        (count-upsert_same (of_workspace w) row rs ((eq_iff row.lease.workspace_id w).1 own) m)
  | inr apart ↦
      rw
        (count-upsert_other (of_workspace w) (of_workspace v) row rs (rw own apart)
          (λ r h. rw ((eq_iff r.lease.workspace_id w).0 h) apart))
        n
]

Step-DaemonKeyed : (s t : Store) → Step s t → DaemonKeyed s → DaemonKeyed t
Step-DaemonKeyed s t (Step.daemon_acquired w i now ttl {l = l} h) k v =
    let writes = acquire_daemon_lease-writes w i now ttl s h in
    rw writes.3 (DaemonKeyed-upsert w v _ s.daemon_leases refl (k w) (k v))
Step-DaemonKeyed s t (Step.daemon_beat l now ttl h) k v =
    rw
      (
        heartbeat_daemon-writes l now ttl s h,
        count-update_where (of_workspace v) (holds l now)
            (λ r. record {
              lease = record r.lease { lease_until_ms = saturating_add now ttl };
              heartbeat_at_ms = now;
            })
            (λ r. refl) s.daemon_leases,
      )
      (k v)
Step-DaemonKeyed s t (Step.primary_acquired w a e now ttl h) k v =
    rw (acquire_primary_lease-keeps s w a e now ttl h).0 (k v)
Step-DaemonKeyed s t (Step.registered d w a team role b now ttl h) k v =
    rw (register_actor-keeps s d w a team role b now ttl h).0 (k v)
Step-DaemonKeyed s t (Step.session_attached d w a e key x now ttl h) k v =
    rw (attach_session-keeps s d w a e key x now ttl h).0 (k v)
Step-DaemonKeyed s t (Step.actor_beat w a e now ttl h) k v =
    rw (heartbeat_actor-keeps s w a e now ttl h).0 (k v)
Step-DaemonKeyed s t (Step.actor_offline w a e now h) k v =
    rw (mark_actor_offline-keeps s w a e now h).0 (k v)
Step-DaemonKeyed s t (Step.prepared d i now h) k v = rw (prepare_launch-keeps s d i now h).0 (k v)
Step-DaemonKeyed s t (Step.checkpointed d key token now h) k v =
    rw (checkpoint_launch-keeps s d key token now h).0 (k v)
Step-DaemonKeyed s t (Step.launched d key x now h) k v =
    rw (record_launch_result-keeps s d key x now h).0 (k v)
Step-DaemonKeyed s t (Step.sent m c now h) k v = rw (send_message-keeps s m c now h).0 (k v)
Step-DaemonKeyed s t (Step.claimed w a e now ttl h) k v =
    rw (claim_message-keeps s w a e now ttl h).0 (k v)
Step-DaemonKeyed s t (Step.answered w id a e d now h) k v =
    rw (acknowledge_message-keeps s w id a e d now h).0 (k v)
Step-DaemonKeyed s t (Step.retried w id a e d now delay failure h) k v =
    rw (retry_message-keeps s w id a e d now delay failure h).0 (k v)
Step-DaemonKeyed s t (Step.reconciled w now h) k v = rw (reconcile_expired-keeps s w now h).0 (k v)

pub Reach-DaemonKeyed : (t : Store) → Reach empty t → DaemonKeyed t
unfolding count_where
Reach-DaemonKeyed t Reach.here = λ v. omega arith
Reach-DaemonKeyed t (Reach.later {t = u} run step) =
    Step-DaemonKeyed u t step (Reach-DaemonKeyed u run)
