-- ===== src/Runtime/Launched.antt =====
-- crates/agsv-runtime/src/service.rs: what a launch that succeeds has gone by and leaves.
use agent_supervisor.Common.{String, ◌≡◌, true, some}
use agent_supervisor.Common.Result.{ok}
use agent_supervisor.Runtime.Table.{I64}
use agent_supervisor.Runtime.Types.{PathBuf, SessionHandle, ActorRecord, DaemonLease}
use agent_supervisor.Runtime.Store.{Store}
use agent_supervisor.Runtime.Leases.{validate_daemon_lease}
use agent_supervisor.Runtime.Steps.{Reach}
use agent_supervisor.Runtime.Attached.{Online}
use agent_supervisor.Runtime.Service.{ActorSpec, Host, Service}
use agent_supervisor.Runtime.Obtained.{Origin, Healthy}

module _ {W : Type 0} (host : Host W) (workspace instance_id : String) where
  -- How a launch ended: with the healthy actor of before, or with a session that was obtained, and
  -- is attached.
  pub data Ending (daemon : DaemonLease) (spec : ActorSpec) (directory : PathBuf) (now : I64)
      (actor : ActorRecord) (t : Service W) : Type 0 where
    kept :
        (s : Store) (world : W)
        → Healthy host workspace instance_id spec now s world actor t
        → Ending daemon spec directory now actor t
    attached :
        (handle : SessionHandle)
        → Origin host workspace instance_id daemon spec directory now handle
        → Online t.store workspace spec.launch_idempotency_key spec.actor_id handle actor
        → Ending daemon spec directory now actor t

  -- What a launch that succeeds has gone by and leaves.
  pub record Launched (spec : ActorSpec) (now : I64) (s t : Service W) (actor : ActorRecord)
      : Type 0 where
    pub daemon : DaemonLease
    pub held : s.daemon_lease ≡ some daemon
    pub valid : validate_daemon_lease s.store daemon now ≡ ok tt
    pub registered : host.is_registered spec.backend ≡ true
    pub directory : PathBuf
    pub authorized : host.authorized_directory spec.working_directory ≡ ok directory
    pub transacted : Reach s.store t.store
    pub ending : Ending daemon spec directory now actor t
