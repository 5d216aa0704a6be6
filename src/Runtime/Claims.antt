-- ===== src/Runtime/Claims.antt =====
-- crates/agsv-runtime/src/store.rs: the claims on queued messages, and their release.
use text.Mathlib.Text.{◌==◌ as str_eq}
use agent_supervisor.Common.{
  String, ℕ, zero, suc, ◌+◌, Bool, true, false, not, ◌&&◌, ◌||◌, Option, none, some, List, ltb, leb,
  ◌==◌, if◌then◌else◌, max,
}
use agent_supervisor.Common.Lists.{filter}
use agent_supervisor.Common.Result.{ok, ok_or, fail_if, ◌>>=◌, ◌>>◌}
use agent_supervisor.Runtime.Table.{
  I64, i64_zero, i64_max, saturating_add, text_is, text_lt, column_leb, column_is, is_null,
  update_where, count_where, least,
}
use agent_supervisor.Runtime.Types.{
  ActorState, MessageRecord, ClaimedMessage, AuditDetail, AuditEvent, RuntimeError,
}
use agent_supervisor.Runtime.Store.{
  Store, Tx, ActorRow, require_positive_ttl, append_audit, active_actor, ensure_epoch_update,
}
use agent_supervisor.Runtime.Actors.{offline_row}
use agent_supervisor.Runtime.Messages.{is_message, message_by_id}

-- The recipient's actor, its team, or everyone.
abbrev pub addressed : Option String → Option String → String → Option String → Bool
addressed (some id) to_team actor_id team = str_eq id actor_id
addressed none (some to_team) actor_id team = text_is team to_team
addressed none none actor_id team = true

-- `claimed_by_actor_id IS NULL OR claim_until_ms <= now`
abbrev pub is_free : I64 → MessageRecord → Bool
is_free now m = is_null m.claimed_by_actor_id || column_leb m.claim_until_ms now

abbrev pub is_claimable : String → String → Option String → I64 → MessageRecord → Bool
is_claimable workspace actor_id team now m =
    str_eq m.workspace_id workspace
    && is_null m.acknowledged_at_ms
    && leb m.available_at_ms now
    && is_free now m
    && addressed m.recipient_actor_id m.recipient_team_id actor_id team

-- `ORDER BY created_at_ms, message_id`
abbrev pub is_before : MessageRecord → MessageRecord → Bool
is_before a b =
    ltb a.created_at_ms b.created_at_ms
    || (a.created_at_ms == b.created_at_ms && text_lt a.message_id b.message_id)

abbrev pub claim_row : String → I64 → I64 → MessageRecord → MessageRecord
claim_row actor_id epoch until m = record m {
  claimed_by_actor_id = some actor_id;
  claimant_actor_epoch = some epoch;
  delivery_epoch = m.delivery_epoch + 1;
  attempts = m.attempts + 1;
  claim_until_ms = some until;
}

abbrev pub is_unclaimed : String → String → I64 → MessageRecord → Bool
is_unclaimed workspace id now m =
    is_message workspace id m && is_null m.acknowledged_at_ms && is_free now m

abbrev pub claimed_store : MessageRecord → String → String → I64 → I64 → I64 → Store → Store
claimed_store m workspace actor_id epoch now ttl s =
    append_audit workspace "message" m.message_id "claimed" (AuditDetail.actor actor_id) now
      (record s {
        messages =
            update_where (is_unclaimed workspace m.message_id now)
              (claim_row actor_id epoch (saturating_add now ttl)) s.messages;
      })

-- After the oldest message was looked for. SQLite adds past the largest integer to a real, which
-- the row is then not read as.
abbrev pub claim_found :
    Option MessageRecord → String → String → I64 → I64 → I64 → Tx (Option ClaimedMessage)
claim_found none workspace actor_id epoch now ttl s = ok (none, s)
claim_found (some m) workspace actor_id epoch now ttl s = do
  fail_if (not (count_where (is_unclaimed workspace m.message_id now) s.messages == 1))
      RuntimeError.invalid_state
  let stored = claimed_store m workspace actor_id epoch now ttl s
  message ←
      ok_or (message_by_id stored workspace m.message_id)
        (RuntimeError.not_found "message" m.message_id)
  fail_if (ltb i64_max message.delivery_epoch || ltb i64_max message.attempts)
      (RuntimeError.sqlite none)
  ok (some (record { message = message; delivery_epoch = message.delivery_epoch }), stored)

unfoldable pub claim_message : String → String → I64 → I64 → I64 → Tx (Option ClaimedMessage)
claim_message workspace actor_id epoch now ttl s = do
  require_positive_ttl ttl
  actor ← active_actor s workspace actor_id epoch now
  let oldest =
      least is_before (filter (is_claimable workspace actor_id actor.team_id now) s.messages)
  claim_found oldest workspace actor_id epoch now ttl s

-- The delivery that a claimant answers for: its own, unacknowledged and unexpired.
abbrev pub is_delivery : String → String → String → I64 → I64 → I64 → MessageRecord → Bool
is_delivery workspace id actor_id epoch delivery now m =
    is_message workspace id m
    && text_is m.claimed_by_actor_id actor_id
    && column_is m.claimant_actor_epoch epoch
    && m.delivery_epoch == delivery
    && is_null m.acknowledged_at_ms
    && not (is_null m.claim_until_ms)
    && not (column_leb m.claim_until_ms now)

-- The same acknowledgement, made before.
abbrev pub was_acknowledged : String → I64 → I64 → MessageRecord → Bool
was_acknowledged actor_id epoch delivery m =
    not (is_null m.acknowledged_at_ms)
    && text_is m.claimed_by_actor_id actor_id
    && column_is m.claimant_actor_epoch epoch
    && m.delivery_epoch == delivery

abbrev pub acknowledge_row : I64 → MessageRecord → MessageRecord
acknowledge_row now m = record m { acknowledged_at_ms = some now }

-- After the update, with the number of rows that it changed.
abbrev pub acknowledged : ℕ → String → String → String → I64 → I64 → Store → Tx (Unit {0})
acknowledged zero workspace id actor_id epoch delivery stored s = do
  existing ← ok_or (message_by_id s workspace id) (RuntimeError.not_found "message" id)
  fail_if (not (was_acknowledged actor_id epoch delivery existing))
      (RuntimeError.stale_epoch "message delivery" id)
  ok (tt, s)
acknowledged (suc n) workspace id actor_id epoch delivery stored s = ok (tt, stored)

unfoldable pub acknowledge_message : String → String → String → I64 → I64 → I64 → Tx (Unit {0})
acknowledge_message workspace id actor_id epoch delivery now s = do
  active_actor s workspace actor_id epoch now
  let answered = is_delivery workspace id actor_id epoch delivery now
  let stored =
      append_audit workspace "message" id "acknowledged" (AuditDetail.actor actor_id) now
        (record s { messages = update_where answered (acknowledge_row now) s.messages })
  acknowledged (count_where answered s.messages) workspace id actor_id epoch delivery stored s

abbrev pub retry_row : I64 → String → MessageRecord → MessageRecord
retry_row available failure m = record m {
  claimed_by_actor_id = none;
  claimant_actor_epoch = none;
  claim_until_ms = none;
  available_at_ms = available;
  last_error = some failure;
}

unfoldable pub retry_message :
    String → String → String → I64 → I64 → I64 → I64 → String → Tx (Unit {0})
retry_message workspace id actor_id epoch delivery now delay failure s = do
  active_actor s workspace actor_id epoch now
  let answered = is_delivery workspace id actor_id epoch delivery now
  let again = retry_row (saturating_add now (max delay i64_zero)) failure
  ensure_epoch_update (count_where answered s.messages) "message delivery" id
  ok (
    tt,
    append_audit workspace "message" id "retry_scheduled" (AuditDetail.text failure) now
        (record s { messages = update_where answered again s.messages }),
  )

abbrev pub is_present : ActorState → Bool
is_present ActorState.starting = true
is_present ActorState.online = true
is_present ActorState.offline = false
is_present ActorState.stopped = false

abbrev pub is_stale_actor : String → I64 → ActorRow → Bool
is_stale_actor workspace now r =
    str_eq r.workspace_id workspace && is_present r.state && leb r.lease_until_ms now

abbrev pub is_stale_claim : String → I64 → MessageRecord → Bool
is_stale_claim workspace now m =
    str_eq m.workspace_id workspace
    && is_null m.acknowledged_at_ms
    && not (is_null m.claimed_by_actor_id)
    && column_leb m.claim_until_ms now

abbrev pub release_row : I64 → MessageRecord → MessageRecord
release_row now m = record m {
  claimed_by_actor_id = none;
  claimant_actor_epoch = none;
  claim_until_ms = none;
  available_at_ms = now;
}

unfoldable pub reconcile_expired : String → I64 → Tx (ℕ × ℕ)
reconcile_expired workspace now s =
    let offline = count_where (is_stale_actor workspace now) s.actors in
    let released = count_where (is_stale_claim workspace now) s.messages in
    let swept = record s {
      actors = update_where (is_stale_actor workspace now) offline_row s.actors;
      messages = update_where (is_stale_claim workspace now) (release_row now) s.messages;
    } in
    ok (
      (offline, released),
      (if ltb 0 offline || ltb 0 released
          then append_audit workspace "workspace" workspace "reconciled"
              (AuditDetail.reconciled offline released) now swept
          else swept),
    )

unfoldable pub pending_message_count : Store → String → ℕ
pending_message_count s workspace =
    count_where
      (λ (m : MessageRecord). str_eq m.workspace_id workspace && is_null m.acknowledged_at_ms)
      s.messages

-- `ORDER BY sequence`, the order that events are appended in.
unfoldable pub audit_events : Store → String → List AuditEvent
audit_events s workspace =
    filter (λ (e : AuditEvent). str_eq e.workspace_id workspace) s.audit_events
