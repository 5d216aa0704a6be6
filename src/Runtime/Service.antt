-- ===== src/Runtime/Service.antt =====
-- crates/agsv-runtime/src/service.rs: launches and reconciliation over the store. The session
-- backends, the file system and the hash are parameters; what other processes commit between two
-- transactions of the service is left out.
use text.Mathlib.Text.{◌==◌ as str_eq}
use agent_supervisor.Common.{
  String, ℕ, suc, Bool, true, false, not, ◌&&◌, Option, none, some, List, [], ◌∷◌, ltb,
  if◌then◌else◌,
}
use agent_supervisor.Common.Result.{Result, ok, err, ok_or, map_err, fail_if}
use agent_supervisor.Common.Exec.{Exec, pure, lift, asks, gets, modify, ◌>>=◌, ◌>>◌}
use agent_supervisor.Runtime.Table.{I64}
use agent_supervisor.Runtime.Types.{
  PathBuf, ActorRole, SessionHandle, ActorRecord, DaemonLease, LaunchIntent, LaunchIntentState,
  RuntimeError,
}
use agent_supervisor.Runtime.Store.{Store, Tx, actor_by_id, is_online}
use agent_supervisor.Runtime.Leases.{acquire_daemon_lease, heartbeat_daemon, validate_daemon_lease}
use agent_supervisor.Runtime.Actors.{
  register_actor, attach_session, heartbeat_actor, mark_actor_offline, actors,
}
use agent_supervisor.Runtime.Launch.{prepare_launch, checkpoint_launch, record_launch_result}
use agent_supervisor.Runtime.Claims.{reconcile_expired}

pub record ActorSpec : Type 0 where
  pub actor_id : String
  pub team_id : Option String
  pub role : ActorRole
  pub backend : String
  pub session_name : String
  pub runtime : String
  pub working_directory : PathBuf
  pub launch_idempotency_key : String
  pub native_args : List String

-- `crates/agsv-session/src/types.rs`, with no initial prompt.
pub record LaunchRequest : Type 0 where
  pub actor_id : String
  pub session_name : String
  pub runtime : String
  pub working_directory : PathBuf
  pub idempotency_key : String
  pub native_args : List String
  pub resume_token : Option String

pub data SessionStatus : Type 0 where
  starting working idle blocked stopped missing unknown : SessionStatus

-- The texts of the errors are left out.
pub data SessionError : Type 0 where
  unavailable timeout not_found foreign_handle permission_denied : SessionError
  invalid_configuration checkpoint unsupported invalid_template : SessionError
  invalid_output command_failed poisoned : SessionError

pub record ReconcileReport : Type 0 where
  pub actors_checked : ℕ
  pub actors_marked_online : ℕ
  pub actors_marked_offline : ℕ
  pub expired_deliveries_released : ℕ

abbrev pub is_present_status : SessionStatus → Bool
is_present_status SessionStatus.stopped = false
is_present_status SessionStatus.missing = false
is_present_status _ = true

module _ (W : Type 0) where
  -- A launch of a backend, which may ask for checkpoints before it ends.
  pub data Launching : Type 0 where
    finished : Result SessionError SessionHandle → W → Launching
    asking : String → (Result SessionError (Unit {0}) → Launching) → Launching

  -- The registered backends over their world, and the directories and fingerprints of the host.
  pub record Host : Type 0 where
    pub is_registered : String → Bool
    pub status : String → SessionHandle → W → Result SessionError SessionStatus × W
    pub launch_with_checkpoint : String → LaunchRequest → W → Launching
    pub authorized_directory : PathBuf → Result RuntimeError PathBuf
    pub fingerprint_spec : ActorSpec → PathBuf → String

  pub record Service : Type 0 where
    pub store : Store
    pub daemon_lease : Option DaemonLease
    pub world : W

  abbrev pub Served : Type 0 → Type 0
  Served A = Exec Service RuntimeError A

-- What the backend is told of a checkpoint.
abbrev pub told : Result RuntimeError (Unit {0} × Store) → Result SessionError (Unit {0})
told (ok (u, t)) = ok u
told (err e) = err SessionError.checkpoint

module _ {W : Type 0} where
  -- A transaction of the store.
  abbrev pub committed {ℓ} :
      {A : Type ℓ} → Result RuntimeError (A × Store) → Service W → Result RuntimeError A × Service W
  committed (ok (a, t)) s = (ok a, record s { store = t })
  committed (err e) s = (err e, s)

  unfoldable pub commit : {A : Type 0} → Tx A → Served W A
  commit op s = committed (op s.store) s

  unfoldable pub run_launching :
      DaemonLease
      → String
      → I64
      → Launching W
      → Service W
      → Result SessionError SessionHandle × Service W
  run_launching daemon key now (Launching.finished r w) s = (r, record s { world = w })
  run_launching daemon key now (Launching.asking token reply) s =
      let written = checkpoint_launch daemon key token now s.store in
      run_launching daemon key now (reply (told written)) (committed written s).1

-- `map_err(Into::into)`
abbrev pub session_error : {A : Type 0} → Result SessionError A → Result RuntimeError A
session_error r = map_err (λ e. RuntimeError.session) r

module _ {W : Type 0} (host : Host W) (workspace instance_id : String) where
  unfoldable pub start : I64 → I64 → Served W DaemonLease
  start now ttl = do
    lease ← commit (acquire_daemon_lease workspace instance_id now ttl)
    modify (λ s. record s { daemon_lease = some lease })
    pure lease

  unfoldable pub heartbeat_service : I64 → I64 → Served W DaemonLease
  heartbeat_service now ttl = do
    current ← asks (λ s. ok_or s.daemon_lease RuntimeError.invalid_state)
    renewed ← commit (heartbeat_daemon current now ttl)
    modify (λ s. record s { daemon_lease = some renewed })
    pure renewed

  unfoldable pub require_started : I64 → Served W DaemonLease
  require_started now = do
    lease ← asks (λ s. ok_or s.daemon_lease RuntimeError.invalid_state)
    asks (λ s. validate_daemon_lease s.store lease now)
    pure lease

  -- A call of a backend.
  unfoldable pub status_of : String → SessionHandle → Served W (Result SessionError SessionStatus)
  status_of backend handle s =
      let seen = host.status backend handle s.world in (ok seen.0, record s { world = seen.1 })

  unfoldable pub launch_backend :
      DaemonLease → ActorSpec → PathBuf → Option String → I64 → Served W SessionHandle
  launch_backend daemon spec directory resume now s =
      let request : LaunchRequest = record {
        actor_id = spec.actor_id;
        session_name = spec.session_name;
        runtime = spec.runtime;
        working_directory = directory;
        idempotency_key = spec.launch_idempotency_key;
        native_args = spec.native_args;
        resume_token = resume;
      } in
      let launched =
        run_launching daemon spec.launch_idempotency_key now
          (host.launch_with_checkpoint spec.backend request s.world) s in
      (session_error launched.0, launched.1)

  -- The actor of before, when its session is still present.
  abbrev pub present_session :
      ActorSpec → ActorRecord → Option SessionHandle → Served W (Option ActorRecord)
  present_session spec a none = pure none
  present_session spec a (some handle) = do
    seen ← status_of spec.backend handle
    status ← lift (session_error seen)
    pure (if is_present_status status then some a else none)

  abbrev pub is_candidate : ActorSpec → I64 → ActorRecord → Bool
  is_candidate spec now a =
      str_eq a.backend spec.backend && is_online a.state && ltb now a.lease_until_ms

  abbrev pub healthy : ActorSpec → I64 → Option ActorRecord → Served W (Option ActorRecord)
  healthy spec now none = pure none
  healthy spec now (some a) =
      if is_candidate spec now a then present_session spec a a.session else pure none

  abbrev pub recovered_handle : LaunchIntent → Option SessionHandle
  recovered_handle i = elim i.session_external_id [
    | none ↦ none
    | some id ↦
        some (record { backend = i.backend; external_id = id; resume_token = i.resume_token })
  ]

  -- The session of an earlier attempt, or a new one.
  abbrev pub obtain :
      DaemonLease
      → ActorSpec
      → PathBuf
      → LaunchIntent
      → I64
      → Option SessionHandle
      → Served W SessionHandle
  obtain daemon spec directory intent now none =
      launch_backend daemon spec directory intent.resume_token now
  obtain daemon spec directory intent now (some handle) = do
    seen ← status_of spec.backend handle
    status ← lift (session_error seen)
    if is_present_status status
        then pure handle
        else launch_backend daemon spec directory intent.resume_token now

  abbrev pub proposed_intent : ActorSpec → PathBuf → LaunchIntent
  proposed_intent spec directory = record {
    workspace_id = workspace;
    actor_id = spec.actor_id;
    idempotency_key = spec.launch_idempotency_key;
    spec_fingerprint = host.fingerprint_spec spec directory;
    canonical_working_directory = directory;
    backend = spec.backend;
    session_name = spec.session_name;
    state = LaunchIntentState.prepared;
    resume_token = none;
    session_external_id = none;
  }

  -- From the registration on, when no healthy actor was found.
  abbrev pub launch_new :
      DaemonLease
      → ActorSpec
      → PathBuf
      → LaunchIntent
      → I64
      → I64
      → Option ActorRecord
      → Served W ActorRecord
  launch_new daemon spec directory intent now ttl (some existing) = pure existing
  launch_new daemon spec directory intent now ttl none = do
    actor ← commit (
        register_actor (some daemon) workspace spec.actor_id spec.team_id spec.role spec.backend now
          ttl)
    handle ← obtain daemon spec directory intent now (recovered_handle intent)
    commit (record_launch_result daemon spec.launch_idempotency_key handle now)
    commit (
        attach_session (some daemon) workspace spec.actor_id actor.actor_epoch
          (some spec.launch_idempotency_key) handle now ttl)

  unfoldable pub launch_actor : ActorSpec → I64 → I64 → Served W ActorRecord
  launch_actor spec now ttl = do
    daemon ← require_started now
    lift (
        fail_if (not (host.is_registered spec.backend))
          (RuntimeError.backend_not_registered spec.backend))
    directory ← lift (host.authorized_directory spec.working_directory)
    intent ← commit (prepare_launch daemon (proposed_intent spec directory) now)
    existing ← gets (λ s. actor_by_id s.store workspace spec.actor_id)
    found ← healthy spec now existing
    launch_new daemon spec directory intent now ttl found

  abbrev pub is_gone : SessionStatus → Bool
  is_gone SessionStatus.stopped = true
  is_gone SessionStatus.missing = true
  is_gone _ = false

  abbrev pub seen_online : ActorRecord → I64 → I64 → ReconcileReport → Served W ReconcileReport
  seen_online a now ttl report = do
    commit (heartbeat_actor workspace a.actor_id a.actor_epoch now ttl)
    pure (record report { actors_marked_online = suc report.actors_marked_online })

  abbrev pub seen_offline : ActorRecord → I64 → ReconcileReport → Served W ReconcileReport
  seen_offline a now report = do
    commit (mark_actor_offline workspace a.actor_id a.actor_epoch now)
    pure (record report { actors_marked_offline = suc report.actors_marked_offline })

  -- What the backend says of an actor's session.
  abbrev pub settle_status :
      Result SessionError SessionStatus
      → ActorRecord
      → I64
      → I64
      → ReconcileReport
      → Served W ReconcileReport
  settle_status (ok status) a now ttl report =
      if is_present_status status
      then seen_online a now ttl report
      else if is_gone status
      then seen_offline a now report
      else pure report
  settle_status (err SessionError.not_found) a now ttl report = seen_offline a now report
  settle_status (err e) a now ttl report = lift (err RuntimeError.session)

  abbrev pub check_session :
      Option SessionHandle → ActorRecord → I64 → I64 → ReconcileReport → Served W ReconcileReport
  check_session none a now ttl report = pure report
  check_session (some handle) a now ttl report = do
    lift (
        fail_if (not (host.is_registered a.backend))
          (RuntimeError.backend_not_registered a.backend))
    seen ← status_of a.backend handle
    settle_status seen a now ttl report

  unfoldable pub reconcile_each :
      List ActorRecord → I64 → I64 → ReconcileReport → Served W ReconcileReport
  reconcile_each [] now ttl report = pure report
  reconcile_each (a ∷ rest) now ttl report = do
    let checked = record report { actors_checked = suc report.actors_checked }
    let live = is_online a.state && ltb now a.lease_until_ms
    next ← if live then check_session a.session a now ttl checked else pure checked
    reconcile_each rest now ttl next

  unfoldable pub reconcile : I64 → I64 → Served W ReconcileReport
  reconcile now ttl = do
    require_started now
    swept ← commit (reconcile_expired workspace now)
    found ← gets (λ s. actors s.store workspace)
    reconcile_each found now ttl (record {
      actors_checked = 0;
      actors_marked_online = 0;
      actors_marked_offline = 0;
      expired_deliveries_released = swept.1;
    })
