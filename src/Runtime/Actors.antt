-- ===== src/Runtime/Actors.antt =====
-- crates/agsv-runtime/src/store.rs: the generations of the actors and their sessions.
use text.Mathlib.Text.{◌==◌ as str_eq}
use agent_supervisor.Common.{
  String, Bool, not, ◌&&◌, ◌||◌, Option, none, some, List, ltb, leb, ◌==◌, map, if◌then◌else◌, [],
  ◌∷◌,
}
use agent_supervisor.Common.Lists.{find, filter}
use agent_supervisor.Common.Result.{ok, ok_or, fail_if, ◌>>=◌, ◌>>◌}
use agent_supervisor.Runtime.Table.{
  I64, i64_one, i64_next, saturating_add, text_is, text_lt, update_where, count_where, upsert,
}
use agent_supervisor.Runtime.Types.{
  ActorRole, ActorState, SessionHandle, ActorRecord, DaemonLease, LaunchIntentState, AuditDetail,
  RuntimeError,
}
use agent_supervisor.Runtime.Store.{
  Store, Tx, ActorRow, LaunchRow, require_positive_ttl, append_audit, is_actor, actor_from_raw,
  actor_by_id, is_online, validate_daemon_option, ensure_epoch_update,
}

abbrev pub next_epoch : Option ActorRow → I64
next_epoch none = i64_one
next_epoch (some r) = i64_next r.actor_epoch

-- `register_actor_inner`: `register_actor` is without a daemon lease, `register_actor_fenced` with
-- one.
unfoldable pub register_actor :
    Option DaemonLease
    → String
    → String
    → Option String
    → ActorRole
    → String
    → I64
    → I64
    → Tx ActorRecord
register_actor daemon workspace actor_id team role backend now ttl s = do
  require_positive_ttl ttl
  validate_daemon_option s daemon now
  let epoch = next_epoch (find (is_actor workspace actor_id) s.actors)
  let row : ActorRow = record {
    workspace_id = workspace;
    actor_id = actor_id;
    team_id = team;
    role = role;
    state = ActorState.starting;
    actor_epoch = epoch;
    backend = backend;
    session_external_id = none;
    session_resume_token = none;
    heartbeat_at_ms = now;
    lease_until_ms = saturating_add now ttl;
  }
  let stored =
      append_audit workspace "actor" actor_id "registered" (AuditDetail.actor_epoch epoch) now
        (record s { actors = upsert (is_actor workspace actor_id) row (λ _. row) s.actors })
  actor ← ok_or (actor_by_id stored workspace actor_id) (RuntimeError.not_found "actor" actor_id)
  ok (actor, stored)

-- `WHERE workspace_id = … AND actor_id = … AND actor_epoch = …`
abbrev pub is_generation : String → String → I64 → ActorRow → Bool
is_generation workspace actor_id epoch r = is_actor workspace actor_id r && r.actor_epoch == epoch

abbrev pub is_launch : String → String → String → SessionHandle → LaunchRow → Bool
is_launch workspace key actor_id session r =
    str_eq r.intent.workspace_id workspace
    && str_eq r.intent.idempotency_key key
    && str_eq r.intent.actor_id actor_id
    && str_eq r.intent.backend session.backend
    && text_is r.intent.session_external_id session.external_id

abbrev pub attached_at : I64 → LaunchRow → LaunchRow
attached_at now r = record r {
  intent = record r.intent { state = LaunchIntentState.attached };
  updated_at_ms = now;
}

-- The launch that a session comes from, when it is attached by one.
abbrev pub attach_intent : Option String → String → String → SessionHandle → I64 → Tx (Unit {0})
attach_intent none workspace actor_id session now s = ok (tt, s)
attach_intent (some key) workspace actor_id session now s = do
  ensure_epoch_update (count_where (is_launch workspace key actor_id session) s.launch_intents)
      "launch intent" key
  ok (
    tt,
    record s {
      launch_intents =
          update_where (is_launch workspace key actor_id session) (attached_at now)
            s.launch_intents;
    },
  )

-- `attach_session_inner`: `attach_session` is without a daemon lease and a launch,
-- `attach_launched_session` with both.
unfoldable pub attach_session :
    Option DaemonLease
    → String
    → String
    → I64
    → Option String
    → SessionHandle
    → I64
    → I64
    → Tx ActorRecord
attach_session daemon workspace actor_id epoch key session now ttl s = do
  require_positive_ttl ttl
  validate_daemon_option s daemon now
  actor ← ok_or (actor_by_id s workspace actor_id) (RuntimeError.not_found "actor" actor_id)
  fail_if (not (str_eq actor.backend session.backend)) RuntimeError.invalid_state
  fail_if (not (actor.actor_epoch == epoch) || leb actor.lease_until_ms now)
      (RuntimeError.stale_epoch "actor" actor_id)
  let attach : ActorRow → ActorRow = λ r. record r {
    state = ActorState.online;
    backend = session.backend;
    session_external_id = some session.external_id;
    session_resume_token = session.resume_token;
    heartbeat_at_ms = now;
    lease_until_ms = saturating_add now ttl;
  }
  ensure_epoch_update (count_where (is_generation workspace actor_id epoch) s.actors) "actor"
      actor_id
  attached ←
      attach_intent key workspace actor_id session now (record s {
        actors = update_where (is_generation workspace actor_id epoch) attach s.actors;
      })
  let stored =
      append_audit workspace "actor" actor_id "session_attached"
        (AuditDetail.backend session.backend) now attached.1
  found ← ok_or (actor_by_id stored workspace actor_id) (RuntimeError.not_found "actor" actor_id)
  ok (found, stored)

unfoldable pub heartbeat_actor : String → String → I64 → I64 → I64 → Tx (Unit {0})
heartbeat_actor workspace actor_id epoch now ttl s = do
  require_positive_ttl ttl
  let current : ActorRow → Bool =
      λ r. is_generation workspace actor_id epoch r && is_online r.state && ltb now r.lease_until_ms
  let beat : ActorRow → ActorRow = λ r. record r {
    state = ActorState.online;
    heartbeat_at_ms = now;
    lease_until_ms = saturating_add now ttl;
  }
  ensure_epoch_update (count_where current s.actors) "actor" actor_id
  ok (tt, record s { actors = update_where current beat s.actors })

abbrev pub offline_row : ActorRow → ActorRow
offline_row r = record r { state = ActorState.offline }

unfoldable pub mark_actor_offline : String → String → I64 → I64 → Tx (Unit {0})
mark_actor_offline workspace actor_id epoch now s = do
  ensure_epoch_update (count_where (is_generation workspace actor_id epoch) s.actors) "actor"
      actor_id
  ok (
    tt,
    append_audit workspace "actor" actor_id "offline"
        (AuditDetail.text "session absent or heartbeat expired") now
        (record s {
          actors = update_where (is_generation workspace actor_id epoch) offline_row s.actors;
        }),
  )

-- `ORDER BY actor_id`, among the rows of one workspace.
insert_actor : ActorRow → List ActorRow → List ActorRow
insert_actor r [] = r ∷ []
insert_actor r (x ∷ xs) =
    let rest = insert_actor r xs in if text_lt x.actor_id r.actor_id then x ∷ rest else r ∷ x ∷ xs

order_actors : List ActorRow → List ActorRow
order_actors [] = []
order_actors (r ∷ rs) = insert_actor r (order_actors rs)

unfoldable pub actors : Store → String → List ActorRecord
unfolding order_actors insert_actor
actors s workspace =
    map actor_from_raw
      (order_actors (filter (λ (r : ActorRow). str_eq r.workspace_id workspace) s.actors))
