-- ===== src/Runtime/Steps.antt =====
-- crates/agsv-runtime/src/store.rs: runs of the store, as the transactions that commit. Any
-- processes may take part, with any clocks: a step is one operation with any arguments.
use agent_supervisor.Common.{String, ◌≡◌, Option, [], ℕ}
use agent_supervisor.Common.Result.{ok}
use agent_supervisor.Runtime.Table.{I64}
use agent_supervisor.Runtime.Types.{
  ActorRole, SessionHandle, SenderContext, DaemonLease, LaunchIntent, NewMessage,
}
use agent_supervisor.Runtime.Store.{Store}
use agent_supervisor.Runtime.Leases.{acquire_daemon_lease, heartbeat_daemon, acquire_primary_lease}
use agent_supervisor.Runtime.Actors.{
  register_actor, attach_session, heartbeat_actor, mark_actor_offline,
}
use agent_supervisor.Runtime.Launch.{prepare_launch, checkpoint_launch, record_launch_result}
use agent_supervisor.Runtime.Messages.{send_message}
use agent_supervisor.Runtime.Claims.{
  claim_message, acknowledge_message, retry_message, reconcile_expired,
}

abbrev pub empty : Store
empty = record {
  daemon_leases = [];
  actors = [];
  primary_leases = [];
  messages = [];
  launch_intents = [];
  audit_events = [];
}

pub data Step (s : Store) : Store → Type 0 where
  daemon_acquired :
      (w i : String) (now ttl : I64) {l : DaemonLease} {t : Store}
      → acquire_daemon_lease w i now ttl s ≡ ok (l, t)
      → Step s t
  daemon_beat :
      (l : DaemonLease) (now ttl : I64) {m : DaemonLease} {t : Store}
      → heartbeat_daemon l now ttl s ≡ ok (m, t)
      → Step s t
  primary_acquired :
      (w a : String) (e now ttl : I64) {l : _} {t : Store}
      → acquire_primary_lease w a e now ttl s ≡ ok (l, t)
      → Step s t
  registered :
      (d : Option DaemonLease) (w a : String) (team : Option String) (role : ActorRole) (b : String)
      (now ttl : I64) {r : _} {t : Store}
      → register_actor d w a team role b now ttl s ≡ ok (r, t)
      → Step s t
  session_attached :
      (d : Option DaemonLease) (w a : String) (e : I64) (key : Option String) (h : SessionHandle)
      (now ttl : I64) {r : _} {t : Store}
      → attach_session d w a e key h now ttl s ≡ ok (r, t)
      → Step s t
  actor_beat :
      (w a : String) (e now ttl : I64) {r : _} {t : Store}
      → heartbeat_actor w a e now ttl s ≡ ok (r, t)
      → Step s t
  actor_offline :
      (w a : String) (e now : I64) {r : _} {t : Store}
      → mark_actor_offline w a e now s ≡ ok (r, t)
      → Step s t
  prepared :
      (d : DaemonLease) (i : LaunchIntent) (now : I64) {r : _} {t : Store}
      → prepare_launch d i now s ≡ ok (r, t)
      → Step s t
  checkpointed :
      (d : DaemonLease) (key token : String) (now : I64) {r : _} {t : Store}
      → checkpoint_launch d key token now s ≡ ok (r, t)
      → Step s t
  launched :
      (d : DaemonLease) (key : String) (h : SessionHandle) (now : I64) {r : _} {t : Store}
      → record_launch_result d key h now s ≡ ok (r, t)
      → Step s t
  sent :
      (m : NewMessage) (c : SenderContext) (now : I64) {r : _} {t : Store}
      → send_message m c now s ≡ ok (r, t)
      → Step s t
  claimed :
      (w a : String) (e now ttl : I64) {r : _} {t : Store}
      → claim_message w a e now ttl s ≡ ok (r, t)
      → Step s t
  answered :
      (w id a : String) (e d now : I64) {r : _} {t : Store}
      → acknowledge_message w id a e d now s ≡ ok (r, t)
      → Step s t
  retried :
      (w id a : String) (e d now delay : I64) (failure : String) {r : _} {t : Store}
      → retry_message w id a e d now delay failure s ≡ ok (r, t)
      → Step s t
  reconciled :
      (w : String) (now : I64) {n : ℕ × ℕ} {t : Store}
      → reconcile_expired w now s ≡ ok (n, t)
      → Step s t

-- The stores that a run passes through, from one to another.
pub data Reach (s : Store) : Store → Type 0 where
  here : Reach s s
  later : {t u : Store} → Reach s t → Step t u → Reach s u
