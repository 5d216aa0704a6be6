-- ===== src/Runtime/Obtained.antt =====
-- crates/agsv-runtime/src/service.rs: the lease, the healthy actor and the session of a launch.
use text.Mathlib.TextEquality.{eq_iff}
use agent_supervisor.Common.{
  String, ◌≡◌, ◌≢◌, refl, ap, sym, subst, ◌∙◌, Bool, true, false, Option, none, some, ◌<◌, arith,
  Bool-cases, inl, inr, if◌then◌else◌,
}
use agent_supervisor.Common.Result.{ok, ok_or, ok_or-ok}
use agent_supervisor.Common.Exec.{continue, pure}
use agent_supervisor.Runtime.Table.{I64}
use agent_supervisor.Runtime.Types.{
  PathBuf, ActorState, SessionHandle, ActorRecord, DaemonLease, LaunchIntent, RuntimeError,
}
use agent_supervisor.Runtime.Store.{Store, actor_by_id}
use agent_supervisor.Runtime.Leases.{validate_daemon_lease}
use agent_supervisor.Runtime.Service.{
  ActorSpec, SessionStatus, is_present_status, Host, Service, session_error, require_started,
  status_of, launch_backend, present_session, is_candidate, healthy, obtain,
}
use agent_supervisor.Runtime.Runs.{session_error-ok, lifted}

-- A session that is neither stopped nor missing.
abbrev pub IsPresent : SessionStatus → Type 0
IsPresent status = (status ≢ SessionStatus.stopped) × (status ≢ SessionStatus.missing)

present : (status : SessionStatus) → is_present_status status ≡ true → IsPresent status
present SessionStatus.stopped h = cc
present SessionStatus.missing h = cc
present SessionStatus.starting h = (λ e. cc, λ e. cc)
present SessionStatus.working h = (λ e. cc, λ e. cc)
present SessionStatus.idle h = (λ e. cc, λ e. cc)
present SessionStatus.blocked h = (λ e. cc, λ e. cc)
present SessionStatus.unknown h = (λ e. cc, λ e. cc)

module _ {W : Type 0} (host : Host W) (workspace instance_id : String) where
  -- Where a launched session comes from: an earlier attempt, whose session the backend still
  -- knows, or the backend itself.
  pub data Origin (daemon : DaemonLease) (spec : ActorSpec) (directory : PathBuf) (now : I64)
      (handle : SessionHandle) : Type 0 where
    recovered :
        (world : W) (status : SessionStatus)
        → (host.status spec.backend handle world).0 ≡ ok status
        → IsPresent status
        → Origin daemon spec directory now handle
    launched :
        (resume : Option String) (s u : Service W)
        → launch_backend host workspace instance_id daemon spec directory resume now s
          ≡ (ok handle, u)
        → Origin daemon spec directory now handle

  -- The actor of before, whose session the backend still knows. Only the backend was asked.
  pub record Healthy (spec : ActorSpec) (now : I64) (s : Store) (world : W) (actor : ActorRecord)
      (t : Service W) : Type 0 where
    pub stored : actor_by_id s workspace spec.actor_id ≡ some actor
    pub backend : actor.backend ≡ spec.backend
    pub online : actor.state ≡ ActorState.online
    pub live : now < actor.lease_until_ms
    pub handle : SessionHandle
    pub session : actor.session ≡ some handle
    pub status : SessionStatus
    pub asked : (host.status spec.backend handle world).0 ≡ ok status
    pub known : IsPresent status
    pub unchanged : t.store ≡ s
    pub answered : t.world ≡ (host.status spec.backend handle world).1

  pub require_started-held :
      (now : I64) (s : Service W) {d : DaemonLease} {t : Service W}
      → require_started host workspace instance_id now s ≡ (ok d, t)
      → (t ≡ s) × (s.daemon_lease ≡ some d) × (validate_daemon_lease s.store d now ≡ ok tt)
  unfolding require_started
  require_started-held now s {d} {t} h =
      let (lease, is, rest) = lifted _ s (ok_or s.daemon_lease RuntimeError.invalid_state) h in
      let (u, valid, last) = lifted _ s (validate_daemon_lease s.store lease now) rest in
      let same : lease ≡ d = ground (arith, last) in
      (
        ground (arith, last),
        ok_or-ok _ _ is ∙ ap some same,
        ap (λ l. validate_daemon_lease s.store l now) (sym same) ∙ valid,
      )

  present_session-Healthy :
      (spec : ActorSpec) (now : I64) (a : ActorRecord) (o : Option SessionHandle) (s : Service W)
      {actor : ActorRecord} {t : Service W}
      → actor_by_id s.store workspace spec.actor_id ≡ some a
      → a.session ≡ o
      → is_candidate host workspace instance_id spec now a ≡ true
      → present_session host workspace instance_id spec a o s ≡ (ok (some actor), t)
      → Healthy spec now s.store s.world actor t
  unfolding status_of continue
  present_session-Healthy spec now a none s stored own fit h = cc
  present_session-Healthy spec now a (some handle) s {actor} {t} stored own fit h =
      let seen = host.status spec.backend handle s.world in
      let (status, asked, rest) = lifted _ (record s { world = seen.1 }) (session_error seen.0) h in
      elim (Bool-cases (is_present_status status)) [
        | inl known ↦
            let same : a ≡ actor = ground (arith, rest, known) in
            let after : t ≡ record s { world = seen.1 } = ground (arith, rest, known) in
            record {
              stored = stored ∙ ap some same;
              backend =
                  ap (λ (x : ActorRecord). x.backend) (sym same)
                  ∙ (eq_iff a.backend spec.backend).0 (ground (arith, fit));
              online = ap (λ (x : ActorRecord). x.state) (sym same) ∙ ground (arith, fit);
              live = subst (λ (x : ActorRecord). now < x.lease_until_ms) same (ground (arith, fit));
              handle = handle;
              session = ap (λ (x : ActorRecord). x.session) (sym same) ∙ own;
              status = status;
              asked = session_error-ok seen.0 asked;
              known = present status known;
              unchanged = ap (λ (x : Service W). x.store) after;
              answered = ap (λ (x : Service W). x.world) after;
            }
        | inr gone ↦ ground (arith, rest, gone)
      ]

  pub obtain-Origin :
      (d : DaemonLease) (spec : ActorSpec) (directory : PathBuf) (i : LaunchIntent) (now : I64)
      (o : Option SessionHandle) (s : Service W) {handle : SessionHandle} {t : Service W}
      → obtain host workspace instance_id d spec directory i now o s ≡ (ok handle, t)
      → Origin d spec directory now handle
  unfolding status_of continue
  obtain-Origin d spec directory i now none s h = Origin.launched i.resume_token s _ h
  obtain-Origin d spec directory i now (some old) s {handle} {t} h =
      let seen = host.status spec.backend old s.world in
      let (status, asked, rest) = lifted _ (record s { world = seen.1 }) (session_error seen.0) h in
      elim (Bool-cases (is_present_status status)) [
        | inl known ↦
            let same : old ≡ handle = ground (arith, rest, known) in
            subst (Origin d spec directory now) same (
              Origin.recovered s.world status (session_error-ok seen.0 asked)
                (present status known))
        | inr gone ↦
            Origin.launched i.resume_token (record s { world = seen.1 }) t
              (subst
                (λ b.
                  (if b
                      then pure old
                      else launch_backend host workspace instance_id d spec directory i.resume_token
                          now)
                    (record s { world = seen.1 })
                  ≡ (ok handle, t))
                gone rest)
      ]

  pub healthy-Healthy :
      (spec : ActorSpec) (now : I64) (o : Option ActorRecord) (s : Service W) {actor : ActorRecord}
      {t : Service W}
      → actor_by_id s.store workspace spec.actor_id ≡ o
      → healthy host workspace instance_id spec now o s ≡ (ok (some actor), t)
      → Healthy spec now s.store s.world actor t
  healthy-Healthy spec now none s stored h = cc
  healthy-Healthy spec now (some a) s {actor} {t} stored h =
      by_test (is_candidate host workspace instance_id spec now a) refl h
    where
      by_test :
          (b : Bool)
          → is_candidate host workspace instance_id spec now a ≡ b
          → (if b then present_session host workspace instance_id spec a a.session else pure none) s
            ≡ (ok (some actor), t)
          → Healthy spec now s.store s.world actor t
      by_test true fit g = present_session-Healthy spec now a a.session s stored refl fit g
      by_test false fit g = cc
