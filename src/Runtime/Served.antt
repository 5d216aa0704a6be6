-- ===== src/Runtime/Served.antt =====
-- crates/agsv-runtime/src/service.rs: the store under a launch is run by transactions only.
use agent_supervisor.Common.{
  String, ◌≡◌, refl, Bool, true, false, Option, none, some, if◌then◌else◌,
}
use agent_supervisor.Common.Result.{Result, ok, err}
use agent_supervisor.Common.Exec.{pure, continue}
use agent_supervisor.Runtime.Table.{I64}
use agent_supervisor.Runtime.Types.{
  PathBuf, SessionHandle, ActorRecord, DaemonLease, LaunchIntent, RuntimeError,
}
use agent_supervisor.Runtime.Store.{Store, Tx}
use agent_supervisor.Runtime.Actors.{register_actor, attach_session}
use agent_supervisor.Runtime.Launch.{prepare_launch, checkpoint_launch, record_launch_result}
use agent_supervisor.Runtime.Steps.{Step, Reach}
use agent_supervisor.Runtime.Service.{
  ActorSpec, is_present_status, Launching, Host, Service, Served, told, committed, commit,
  run_launching, require_started, status_of, launch_backend, present_session, is_candidate, healthy,
  recovered_handle, obtain, proposed_intent, launch_new, launch_actor,
}

module _ {W : Type 0} where
  -- A run of the service takes the store along transactions that commit, also when it fails.
  pub record Serves {A : Type 0} (s : Service W) (r : Result RuntimeError A × Service W)
      : Type 0 where
    pub reached : (u : Store) → Reach u s.store → Reach u r.1.store

  module _ {A : Type 0} {s : Service W} where
    Serves-pure : {r : Result RuntimeError A} → Serves s (r, s)
    Serves-pure = record { reached = λ u run. run }

    Serves-commit :
        (op : Tx A)
        → ((a : A) (t : Store) → op s.store ≡ ok (a, t) → Step s.store t)
        → Serves s (commit op s)
    unfolding commit
    Serves-commit op step = taken (op s.store) refl
      where
        taken : (r : Result RuntimeError (A × Store)) → op s.store ≡ r → Serves s (committed r s)
        taken (ok (a, t)) h = record { reached = λ u run. Reach.later run (step a t h) }
        taken (err e) h = record { reached = λ u run. run }

  Serves-then :
      {A B : Type 0} {s : Service W} {r : Result RuntimeError A × Service W} (f : A → Served W B)
      → Serves s r
      → ((a : A) (t : Service W) → Serves t (f a t))
      → Serves s (continue r f)
  unfolding continue
  Serves-then {r = (ok a, t)} f m next = record {
    reached = λ u run. (next a t).reached u (m.reached u run);
  }
  Serves-then {r = (err e, t)} f m next = record { reached = m.reached }

  run_launching-Reach :
      (d : DaemonLease) (key : String) (now : I64) (l : Launching W) (s : Service W) (u : Store)
      → Reach u s.store
      → Reach u (run_launching d key now l s).1.store
  unfolding run_launching
  run_launching-Reach d key now (Launching.finished r w) s u run = run
  run_launching-Reach d key now (Launching.asking token reply) s u run =
      run_launching-Reach d key now (reply (told written)) (committed written s).1 u
        ((checkpoint written refl).reached u run)
    where
      written : Result RuntimeError (Unit {0} × Store)
      written = checkpoint_launch d key token now s.store

      checkpoint :
          (r : Result RuntimeError (Unit {0} × Store))
          → checkpoint_launch d key token now s.store ≡ r
          → Serves s (committed r s)
      checkpoint (ok (a, t)) h = record {
        reached = λ v run. Reach.later run (Step.checkpointed d key token now h);
      }
      checkpoint (err e) h = record { reached = λ v run. run }

module _ {W : Type 0} (host : Host W) (workspace instance_id : String) where
  Serves-status :
      (backend : String) (h : SessionHandle) (s : Service W)
      → Serves s (status_of host workspace instance_id backend h s)
  unfolding status_of
  Serves-status backend h s = record { reached = λ u run. run }

  Serves-launch :
      (d : DaemonLease) (spec : ActorSpec) (directory : PathBuf) (resume : Option String)
      (now : I64) (s : Service W)
      → Serves s (launch_backend host workspace instance_id d spec directory resume now s)
  unfolding launch_backend
  Serves-launch d spec directory resume now s = record {
    reached = λ u run. run_launching-Reach d spec.launch_idempotency_key now _ s u run;
  }

  require_started-Serves :
      (now : I64) (s : Service W) → Serves s (require_started host workspace instance_id now s)
  unfolding require_started
  require_started-Serves now s =
      Serves-then _ Serves-pure (λ lease t. Serves-then _ Serves-pure (λ u v. Serves-pure))

  present-Serves :
      (spec : ActorSpec) (a : ActorRecord) (o : Option SessionHandle) (s : Service W)
      → Serves s (present_session host workspace instance_id spec a o s)
  present-Serves spec a none s = Serves-pure
  present-Serves spec a (some h) s =
      Serves-then _ (Serves-status spec.backend h s)
        (λ seen t. Serves-then _ Serves-pure (λ status v. Serves-pure))

  healthy-Serves :
      (spec : ActorSpec) (now : I64) (o : Option ActorRecord) (s : Service W)
      → Serves s (healthy host workspace instance_id spec now o s)
  healthy-Serves spec now none s = Serves-pure
  healthy-Serves spec now (some a) s = chosen (is_candidate host workspace instance_id spec now a)
    where
      chosen :
          (b : Bool)
          → Serves s (
              (if b then present_session host workspace instance_id spec a a.session else pure none)
                s)
      chosen true = present-Serves spec a a.session s
      chosen false = Serves-pure

  obtain-Serves :
      (d : DaemonLease) (spec : ActorSpec) (directory : PathBuf) (i : LaunchIntent) (now : I64)
      (o : Option SessionHandle) (s : Service W)
      → Serves s (obtain host workspace instance_id d spec directory i now o s)
  obtain-Serves d spec directory i now none s = Serves-launch d spec directory i.resume_token now s
  obtain-Serves d spec directory i now (some h) s =
      Serves-then _ (Serves-status spec.backend h s)
        (λ seen t. Serves-then _ Serves-pure (λ status v. chosen v (is_present_status status)))
    where
      chosen :
          (v : Service W) (b : Bool)
          → Serves v (
              (if b
                  then pure h
                  else launch_backend host workspace instance_id d spec directory i.resume_token
                      now)
                v)
      chosen v true = Serves-pure
      chosen v false = Serves-launch d spec directory i.resume_token now v

  launch_new-Serves :
      (d : DaemonLease) (spec : ActorSpec) (directory : PathBuf) (i : LaunchIntent) (now ttl : I64)
      (o : Option ActorRecord) (s : Service W)
      → Serves s (launch_new host workspace instance_id d spec directory i now ttl o s)
  launch_new-Serves d spec directory i now ttl (some a) s = Serves-pure
  launch_new-Serves d spec directory i now ttl none s =
      Serves-then _
        (Serves-commit
          (register_actor (some d) workspace spec.actor_id spec.team_id spec.role spec.backend now
            ttl)
          (λ a t h.
            Step.registered (some d) workspace spec.actor_id spec.team_id spec.role spec.backend now
              ttl h))
        (λ actor t.
          Serves-then _
            (obtain-Serves d spec directory i now (recovered_handle host workspace instance_id i) t)
            (λ handle v.
              Serves-then _
                (Serves-commit (record_launch_result d spec.launch_idempotency_key handle now)
                  (λ a x h. Step.launched d spec.launch_idempotency_key handle now h))
                (λ a x.
                  Serves-commit
                    (attach_session (some d) workspace spec.actor_id actor.actor_epoch
                      (some spec.launch_idempotency_key) handle now ttl)
                    (λ b y h.
                      Step.session_attached (some d) workspace spec.actor_id actor.actor_epoch
                        (some spec.launch_idempotency_key) handle now ttl h))))

  pub launch_actor-Serves :
      (spec : ActorSpec) (now ttl : I64) (s : Service W)
      → Serves s (launch_actor host workspace instance_id spec now ttl s)
  unfolding launch_actor
  launch_actor-Serves spec now ttl s = Serves-then _ (require_started-Serves now s) (λ daemon t.
      Serves-then _ Serves-pure (λ u v. Serves-then _ Serves-pure (λ directory x.
        Serves-then _
          (Serves-commit
            (prepare_launch daemon (proposed_intent host workspace instance_id spec directory) now)
            (λ a y h.
              Step.prepared daemon (proposed_intent host workspace instance_id spec directory) now
                h))
          (λ intent y. Serves-then _ Serves-pure (λ existing z.
            Serves-then _ (healthy-Serves spec now existing z)
              (λ found n. launch_new-Serves daemon spec directory intent now ttl found n))))))
