-- ===== src/Runtime/Frames.antt =====
-- crates/agsv-runtime/src/store.rs: the tables that an operation leaves as they are.
use agent_supervisor.Common.{String, ◌≡◌, arith, Option, none, some, ℕ}
use agent_supervisor.Common.Result.{ok}
use agent_supervisor.Runtime.Table.{I64}
use agent_supervisor.Runtime.Types.{
  ActorRole, SessionHandle, SenderContext, DaemonLease, PrimaryLease, LaunchIntent, NewMessage,
  ActorRecord, MessageRecord, ClaimedMessage,
}
use agent_supervisor.Runtime.Store.{Store, append_audit}
use agent_supervisor.Runtime.Leases.{acquire_daemon_lease, heartbeat_daemon, acquire_primary_lease}
use agent_supervisor.Runtime.Actors.{
  register_actor, attach_session, heartbeat_actor, mark_actor_offline,
}
use agent_supervisor.Runtime.Launch.{prepare_launch, checkpoint_launch, record_launch_result}
use agent_supervisor.Runtime.Messages.{send_message}
use agent_supervisor.Runtime.Claims.{
  claim_message, acknowledge_message, retry_message, reconcile_expired,
}

module _ (s t : Store) where
  abbrev pub KeepsDaemons : Type 0
  KeepsDaemons = t.daemon_leases ≡ s.daemon_leases

  abbrev pub KeepsMessages : Type 0
  KeepsMessages = t.messages ≡ s.messages

  abbrev pub KeepsLaunches : Type 0
  KeepsLaunches = t.launch_intents ≡ s.launch_intents

module _ (s : Store) {t : Store} where
  pub acquire_daemon_lease-keeps :
      (w i : String) (now ttl : I64) {l : DaemonLease}
      → acquire_daemon_lease w i now ttl s ≡ ok (l, t)
      → KeepsMessages s t × KeepsLaunches s t
  unfolding acquire_daemon_lease append_audit
  acquire_daemon_lease-keeps w i now ttl h = ground arith

  pub heartbeat_daemon-keeps :
      (d : DaemonLease) (now ttl : I64) {l : DaemonLease}
      → heartbeat_daemon d now ttl s ≡ ok (l, t)
      → KeepsMessages s t × KeepsLaunches s t
  unfolding heartbeat_daemon
  heartbeat_daemon-keeps d now ttl h = ground arith

  pub acquire_primary_lease-keeps :
      (w a : String) (e now ttl : I64) {l : PrimaryLease}
      → acquire_primary_lease w a e now ttl s ≡ ok (l, t)
      → KeepsDaemons s t × KeepsMessages s t × KeepsLaunches s t
  unfolding acquire_primary_lease append_audit
  acquire_primary_lease-keeps w a e now ttl h = ground arith

  pub register_actor-keeps :
      (d : Option DaemonLease) (w a : String) (team : Option String) (role : ActorRole) (b : String)
      (now ttl : I64) {r : ActorRecord}
      → register_actor d w a team role b now ttl s ≡ ok (r, t)
      → KeepsDaemons s t × KeepsMessages s t × KeepsLaunches s t
  unfolding register_actor append_audit
  register_actor-keeps d w a team role b now ttl h = ground arith

  pub attach_session-keeps :
      (d : Option DaemonLease) (w a : String) (e : I64) (key : Option String) (x : SessionHandle)
      (now ttl : I64) {r : ActorRecord}
      → attach_session d w a e key x now ttl s ≡ ok (r, t)
      → KeepsDaemons s t × KeepsMessages s t
  unfolding attach_session append_audit
  attach_session-keeps d w a e none x now ttl h = ground arith
  attach_session-keeps d w a e (some k) x now ttl h = ground arith

  pub heartbeat_actor-keeps :
      (w a : String) (e now ttl : I64) {r : Unit {0}}
      → heartbeat_actor w a e now ttl s ≡ ok (r, t)
      → KeepsDaemons s t × KeepsMessages s t × KeepsLaunches s t
  unfolding heartbeat_actor
  heartbeat_actor-keeps w a e now ttl h = ground arith

  pub mark_actor_offline-keeps :
      (w a : String) (e now : I64) {r : Unit {0}}
      → mark_actor_offline w a e now s ≡ ok (r, t)
      → KeepsDaemons s t × KeepsMessages s t × KeepsLaunches s t
  unfolding mark_actor_offline append_audit
  mark_actor_offline-keeps w a e now h = ground arith

  pub prepare_launch-keeps :
      (d : DaemonLease) (i : LaunchIntent) (now : I64) {r : LaunchIntent}
      → prepare_launch d i now s ≡ ok (r, t)
      → KeepsDaemons s t × KeepsMessages s t
  unfolding prepare_launch append_audit
  prepare_launch-keeps d i now h = ground arith

  pub checkpoint_launch-keeps :
      (d : DaemonLease) (key token : String) (now : I64) {r : Unit {0}}
      → checkpoint_launch d key token now s ≡ ok (r, t)
      → KeepsDaemons s t × KeepsMessages s t
  unfolding checkpoint_launch append_audit
  checkpoint_launch-keeps d key token now h = ground arith

  pub record_launch_result-keeps :
      (d : DaemonLease) (key : String) (x : SessionHandle) (now : I64) {r : Unit {0}}
      → record_launch_result d key x now s ≡ ok (r, t)
      → KeepsDaemons s t × KeepsMessages s t
  unfolding record_launch_result append_audit
  record_launch_result-keeps d key x now h = ground arith

  pub send_message-keeps :
      (m : NewMessage) (c : SenderContext) (now : I64) {r : MessageRecord}
      → send_message m c now s ≡ ok (r, t)
      → KeepsDaemons s t × KeepsLaunches s t
  unfolding send_message append_audit
  send_message-keeps m c now h = ground arith

  pub claim_message-keeps :
      (w a : String) (e now ttl : I64) {r : Option ClaimedMessage}
      → claim_message w a e now ttl s ≡ ok (r, t)
      → KeepsDaemons s t × KeepsLaunches s t
  unfolding claim_message append_audit
  claim_message-keeps w a e now ttl h = ground arith

  pub acknowledge_message-keeps :
      (w id a : String) (e d now : I64) {r : Unit {0}}
      → acknowledge_message w id a e d now s ≡ ok (r, t)
      → KeepsDaemons s t × KeepsLaunches s t
  unfolding acknowledge_message append_audit
  acknowledge_message-keeps w id a e d now h = ground arith

  pub retry_message-keeps :
      (w id a : String) (e d now delay : I64) (failure : String) {r : Unit {0}}
      → retry_message w id a e d now delay failure s ≡ ok (r, t)
      → KeepsDaemons s t × KeepsLaunches s t
  unfolding retry_message append_audit
  retry_message-keeps w id a e d now delay failure h = ground arith

  pub reconcile_expired-keeps :
      (w : String) (now : I64) {n : ℕ × ℕ}
      → reconcile_expired w now s ≡ ok (n, t)
      → KeepsDaemons s t × KeepsLaunches s t
  unfolding reconcile_expired append_audit
  reconcile_expired-keeps w now h = ground arith
