-- ===== src/Runtime/Leases.antt =====
-- crates/agsv-runtime/src/store.rs: the lease of the daemon and that of the Primary.
use text.Mathlib.Text.{◌==◌ as str_eq}
use agent_supervisor.Common.{
  String, Bool, true, false, not, ◌&&◌, ◌||◌, Option, none, some, ltb, leb, ◌==◌, if◌then◌else◌,
}
use agent_supervisor.Common.Lists.{any, find}
use agent_supervisor.Common.Result.{Result, ok, err, ok_or, fail_if, ◌>>=◌, ◌>>◌}
use agent_supervisor.Runtime.Table.{
  I64, i64_one, i64_next, saturating_add, update_where, count_where, upsert,
}
use agent_supervisor.Runtime.Types.{ActorRole, DaemonLease, PrimaryLease, AuditDetail, RuntimeError}
use agent_supervisor.Runtime.Store.{
  Store, Tx, DaemonRow, PrimaryRow, require_positive_ttl, append_audit, actor_by_id, holds,
}

abbrev pub of_workspace : String → DaemonRow → Bool
of_workspace workspace r = str_eq r.lease.workspace_id workspace

-- The fencing epoch of the holder that follows `existing`.
abbrev pub daemon_fence : Option DaemonRow → String → I64 → Result RuntimeError I64
daemon_fence none instance_id now = ok i64_one
daemon_fence (some r) instance_id now =
    if str_eq r.lease.instance_id instance_id && ltb now r.lease.lease_until_ms
    then ok r.lease.fencing_epoch
    else if ltb now r.lease.lease_until_ms
    then err (RuntimeError.lease_held r.lease.instance_id r.lease.lease_until_ms)
    else ok (i64_next r.lease.fencing_epoch)

unfoldable pub acquire_daemon_lease : String → String → I64 → I64 → Tx DaemonLease
acquire_daemon_lease workspace instance_id now ttl s = do
  require_positive_ttl ttl
  fence ← daemon_fence (find (of_workspace workspace) s.daemon_leases) instance_id now
  let lease : DaemonLease = record {
    workspace_id = workspace;
    instance_id = instance_id;
    fencing_epoch = fence;
    lease_until_ms = saturating_add now ttl;
  }
  let row : DaemonRow = record { lease = lease; heartbeat_at_ms = now }
  let stored = record s {
    daemon_leases = upsert (of_workspace workspace) row (λ _. row) s.daemon_leases;
  }
  ok (
    lease,
    append_audit workspace "daemon" instance_id "lease_acquired" (AuditDetail.fencing_epoch fence)
        now stored,
  )

unfoldable pub heartbeat_daemon : DaemonLease → I64 → I64 → Tx DaemonLease
heartbeat_daemon lease now ttl s = do
  require_positive_ttl ttl
  let until = saturating_add now ttl
  let beat : DaemonRow → DaemonRow =
      λ r. record { lease = record r.lease { lease_until_ms = until }; heartbeat_at_ms = now }
  fail_if (not (count_where (holds lease now) s.daemon_leases == 1))
      (RuntimeError.stale_epoch "daemon" lease.instance_id)
  ok (
    record lease { lease_until_ms = until },
    record s { daemon_leases = update_where (holds lease now) beat s.daemon_leases },
  )

unfoldable pub validate_daemon_lease : Store → DaemonLease → I64 → Result RuntimeError (Unit {0})
validate_daemon_lease s lease now =
    if any (holds lease now) s.daemon_leases
    then ok tt
    else err (RuntimeError.stale_epoch "daemon" lease.instance_id)

abbrev pub is_primary : ActorRole → Bool
is_primary ActorRole.primary = true
is_primary ActorRole.implementation = false

abbrev pub of_primary : String → PrimaryRow → Bool
of_primary workspace r = str_eq r.workspace_id workspace

abbrev pub primary_fence : Option PrimaryRow → String → I64 → I64 → Result RuntimeError I64
primary_fence none actor_id epoch now = ok i64_one
primary_fence (some r) actor_id epoch now =
    if str_eq r.actor_id actor_id && r.actor_epoch == epoch && ltb now r.lease_until_ms
    then ok r.fencing_epoch
    else if ltb now r.lease_until_ms
    then err (RuntimeError.lease_held r.actor_id r.lease_until_ms)
    else ok (i64_next r.fencing_epoch)

unfoldable pub acquire_primary_lease : String → String → I64 → I64 → I64 → Tx PrimaryLease
acquire_primary_lease workspace actor_id epoch now ttl s = do
  require_positive_ttl ttl
  actor ← ok_or (actor_by_id s workspace actor_id) (RuntimeError.not_found "actor" actor_id)
  fail_if
      (not (actor.actor_epoch == epoch)
        || not (is_primary actor.role)
        || leb actor.lease_until_ms now)
      (RuntimeError.stale_epoch "primary actor" actor_id)
  fence ← primary_fence (find (of_primary workspace) s.primary_leases) actor_id epoch now
  let until = saturating_add now ttl
  let row : PrimaryRow = record {
    workspace_id = workspace;
    actor_id = actor_id;
    actor_epoch = epoch;
    fencing_epoch = fence;
    lease_until_ms = until;
  }
  let stored = record s {
    primary_leases = upsert (of_primary workspace) row (λ _. row) s.primary_leases;
  }
  ok (
    record {
      workspace_id = workspace;
      actor_id = actor_id;
      actor_epoch = epoch;
      fencing_epoch = fence;
      lease_until_ms = until;
    },
    append_audit workspace "primary_lease" actor_id "acquired" (AuditDetail.fencing_epoch fence) now
        stored,
  )
