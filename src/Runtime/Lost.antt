-- ===== src/Runtime/Lost.antt =====
-- crates/agsv-runtime/src/service.rs: a service whose daemon lease is no longer valid.
use agent_supervisor.Common.{String, ◌≡◌, refl, some}
use agent_supervisor.Common.Result.{err}
use agent_supervisor.Common.Exec.{continue}
use agent_supervisor.Runtime.Table.{I64}
use agent_supervisor.Runtime.Types.{DaemonLease, RuntimeError}
use agent_supervisor.Runtime.Leases.{validate_daemon_lease}
use agent_supervisor.Runtime.Service.{
  ActorSpec, Host, Service, require_started, launch_actor, reconcile,
}

-- A service whose lease does not validate launches and reconciles nothing: it asks no backend,
-- writes nothing, and gives the error of the lease.
lost_lease :
    {W : Type 0} (host : Host W) (workspace instance_id : String) (spec : ActorSpec) (now ttl : I64)
    (s : Service W) (l : DaemonLease) (e : RuntimeError)
    → s.daemon_lease ≡ some l
    → validate_daemon_lease s.store l now ≡ err e
    → (launch_actor host workspace instance_id spec now ttl s ≡ (err e, s))
      × (reconcile host workspace instance_id now ttl s ≡ (err e, s))
unfolding launch_actor reconcile require_started continue
lost_lease host workspace instance_id spec now ttl s l e held lost =
    (rw (held, lost) refl, rw (held, lost) refl)
