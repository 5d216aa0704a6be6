-- ===== src/Runtime/HostExamples.antt =====
-- crates/agsv-runtime/src/service.rs: a host whose backend checkpoints once, and a launch on it.
use agent_supervisor.Common.{ℕ, zero, suc, String, ◌+◌, ◌≡◌, refl, true, none, some, []}
use agent_supervisor.Common.Result.{Result, ok, err}
use agent_supervisor.Common.Exec.{continue}
use agent_supervisor.Runtime.Table.{I64, i64_zero, upsert, update_where, count_where}
use agent_supervisor.Runtime.Types.{
  PathBuf, ActorRole, ActorState, ActorRecord, SessionHandle, RuntimeError,
}
use agent_supervisor.Runtime.Store.{
  require_positive_ttl, append_audit, validate_daemon_in_transaction, actor_by_id, actor_from_raw,
  ensure_epoch_update,
}
use agent_supervisor.Runtime.Leases.{acquire_daemon_lease, heartbeat_daemon, validate_daemon_lease}
use agent_supervisor.Runtime.Claims.{reconcile_expired}
use agent_supervisor.Runtime.Actors.{register_actor, attach_session, heartbeat_actor, actors}
use agent_supervisor.Runtime.Launch.{
  prepare_launch, launch_intent, same_launch_intent, checkpoint_launch, record_launch_result,
}
use agent_supervisor.Runtime.Steps.{empty}
use agent_supervisor.Runtime.Service.{
  ActorSpec, SessionStatus, SessionError, Launching, Host, Service, start, launch_actor, reconcile,
  reconcile_each, heartbeat_service, require_started, commit, run_launching, status_of,
  launch_backend,
}
use agent_supervisor.Runtime.Launched.{Launched}

abbrev at : ℕ → I64
at n = i64_zero + n

abbrev opened : Result SessionError (Unit {0}) → Result SessionError SessionHandle
opened (ok u) = ok (record { backend = "b"; external_id = "x"; resume_token = some "r" })
opened (err e) = err e

-- The world counts the launches.
abbrev host : Host ℕ
host = record {
  is_registered = λ name. true;
  status = λ name handle launches. (ok SessionStatus.idle, launches);
  launch_with_checkpoint = λ name request launches.
      Launching.asking "r" (λ reply. Launching.finished (opened reply) (launches + 1));
  authorized_directory = λ directory. ok directory;
  fingerprint_spec = λ spec directory. "f";
}

abbrev spec : ActorSpec
spec = record {
  actor_id = "a";
  team_id = none;
  role = ActorRole.implementation;
  backend = "b";
  session_name = "n";
  runtime = "claude";
  working_directory = PathBuf.unicode "/w";
  launch_idempotency_key = "k";
  native_args = [];
}

abbrev idle : Service ℕ
idle = record { store = empty; daemon_lease = none; world = 0 }

abbrev started : Service ℕ
started = (start host "w" "d" (at 0) (at 100) idle).1

abbrev launched : Service ℕ
launched = (launch_actor host "w" "d" spec (at 1) (at 50) started).1

abbrev launched_actor : ActorRecord
launched_actor = record {
  workspace_id = "w";
  actor_id = "a";
  team_id = none;
  role = ActorRole.implementation;
  state = ActorState.online;
  actor_epoch = at 1;
  backend = "b";
  session = some (record { backend = "b"; external_id = "x"; resume_token = some "r" });
  heartbeat_at_ms = at 1;
  lease_until_ms = at 51;
}

-- A second launch finds the healthy actor, and asks for no other.
launched_again : (launch_actor host "w" "d" spec (at 2) (at 50) launched).1.world ≡ 1
unfolding launch_actor continue require_started start commit run_launching status_of launch_backend
    acquire_daemon_lease require_positive_ttl validate_daemon_lease append_audit upsert update_where
    count_where prepare_launch launch_intent same_launch_intent checkpoint_launch
    record_launch_result validate_daemon_in_transaction actor_by_id actor_from_raw register_actor
    attach_session ensure_epoch_update
launched_again = refl

-- A host on which sessions go missing, and each launch makes another one.
abbrev session_name : ℕ → String
session_name zero = "x"
session_name (suc launches) = "y"

abbrev restless : Host ℕ
restless = record host {
  status = λ name handle launches. (ok SessionStatus.missing, launches);
  launch_with_checkpoint = λ name request launches.
      Launching.finished
        (ok (record { backend = "b"; external_id = session_name launches; resume_token = none }))
        (launches + 1);
}

abbrev lost : Service ℕ
lost = (launch_actor restless "w" "d" spec (at 1) (at 50) started).1

-- A launch of an actor whose session is gone makes a new session, and then refuses its result.
relaunch_refused :
    ((launch_actor restless "w" "d" spec (at 60) (at 50) lost).0
      ≡ err (RuntimeError.idempotency_conflict "k"))
    × ((launch_actor restless "w" "d" spec (at 60) (at 50) lost).1.world ≡ 2)
unfolding launch_actor continue require_started start commit run_launching status_of launch_backend
    acquire_daemon_lease require_positive_ttl validate_daemon_lease append_audit upsert update_where
    count_where prepare_launch launch_intent same_launch_intent checkpoint_launch
    record_launch_result validate_daemon_in_transaction actor_by_id actor_from_raw register_actor
    attach_session ensure_epoch_update
relaunch_refused = (refl, refl)

-- The service renews its lease, and reconciliation then finds the actor's session present.
renewed_and_reconciled :
    (reconcile host "w" "d"
      (at 30)
      (at 50)
      (heartbeat_service host "w" "d" (at 20) (at 100) launched).1).0
    ≡ ok (record {
      actors_checked = 1;
      actors_marked_online = 1;
      actors_marked_offline = 0;
      expired_deliveries_released = 0;
    })
unfolding launch_actor continue require_started start commit run_launching status_of launch_backend
    acquire_daemon_lease require_positive_ttl validate_daemon_lease append_audit upsert update_where
    count_where prepare_launch launch_intent same_launch_intent checkpoint_launch
    record_launch_result validate_daemon_in_transaction actor_by_id actor_from_raw register_actor
    attach_session ensure_epoch_update reconcile heartbeat_service heartbeat_daemon
    reconcile_expired reconcile_each actors heartbeat_actor
renewed_and_reconciled = refl
