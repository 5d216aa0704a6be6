-- ===== src/Runtime/Messages.antt =====
-- crates/agsv-runtime/src/store.rs: who may send a message, and the queue that it is put in.
use text.Mathlib.Text.{◌==◌ as str_eq}
use agent_supervisor.Common.{
  String, Bool, true, false, not, ◌&&◌, Option, none, some, ◌∷◌, ltb, ◌==◌, if◌then◌else◌,
}
use agent_supervisor.Common.Lists.{any, find}
use agent_supervisor.Common.Result.{Result, ok, err, ok_or, fail_if, ◌>>=◌, ◌>>◌}
use agent_supervisor.Runtime.Table.{I64, i64_zero, text_is, column_is}
use agent_supervisor.Runtime.Types.{
  ActorRole, ActorRecord, SenderContext, NewMessage, MessageRecord, AuditDetail, ErrorCode,
  RuntimeError,
}
use agent_supervisor.Runtime.Store.{Store, Tx, PrimaryRow, append_audit, actor_by_id, active_actor}
use agent_supervisor.Runtime.Launch.{same_token, same_bytes}
use agent_supervisor.Runtime.Leases.{is_primary}

-- The row of the Primary's lease that a sender's fence names.
abbrev pub fences : String → SenderContext → I64 → I64 → PrimaryRow → Bool
fences workspace sender fence now r =
    str_eq r.workspace_id workspace
    && str_eq r.actor_id sender.actor_id
    && r.actor_epoch == sender.actor_epoch
    && r.fencing_epoch == fence
    && ltb now r.lease_until_ms

abbrev pub authorize_fence :
    Store → ActorRole → String → SenderContext → I64 → Result RuntimeError (Unit {0})
authorize_fence s ActorRole.primary workspace sender now = do
  fence ← ok_or sender.primary_fencing_epoch RuntimeError.unauthorized
  fail_if (not (any (fences workspace sender fence now) s.primary_leases))
      (RuntimeError.stale_epoch "primary lease for" sender.actor_id)
authorize_fence s ActorRole.implementation workspace sender now =
    elim sender.primary_fencing_epoch [ none ↦ ok tt | some fence ↦ err RuntimeError.unauthorized ]

-- `recipient.team_id.as_ref() != Some(team)`, when a team is asked for.
abbrev pub outside_team : Option String → Option String → Bool
outside_team team none = false
outside_team team (some asked) = not (text_is team asked)

abbrev pub authorize_recipient :
    Store → ActorRecord → String → Option String → Option String → Result RuntimeError (Unit {0})
authorize_recipient s actor workspace (some id) team = do
  recipient ← ok_or (actor_by_id s workspace id) (RuntimeError.not_found "recipient actor" id)
  fail_if (outside_team recipient.team_id team) RuntimeError.unauthorized
  fail_if
      (not (is_primary actor.role)
        && not (is_primary recipient.role)
        && not (same_token recipient.team_id actor.team_id))
      RuntimeError.unauthorized
authorize_recipient s actor workspace none (some team) =
    fail_if (not (is_primary actor.role) && not (text_is actor.team_id team))
      RuntimeError.unauthorized
authorize_recipient s actor workspace none none =
    fail_if (not (is_primary actor.role)) RuntimeError.unauthorized

unfoldable pub authorize_message :
    Store → NewMessage → SenderContext → I64 → Result RuntimeError (Unit {0})
authorize_message s message sender now = do
  fail_if (not (str_eq message.sender_actor_id sender.actor_id)) RuntimeError.unauthorized
  actor ← active_actor s message.workspace_id sender.actor_id sender.actor_epoch now
  authorize_fence s actor.role message.workspace_id sender now
  authorize_recipient s actor message.workspace_id message.recipient_actor_id
      message.recipient_team_id

-- `WHERE workspace_id = ?1 AND message_id = ?2`
abbrev pub is_message : String → String → MessageRecord → Bool
is_message workspace id m = str_eq m.workspace_id workspace && str_eq m.message_id id

unfoldable pub message_by_id : Store → String → String → Option MessageRecord
message_by_id s workspace id = find (is_message workspace id) s.messages

-- `WHERE workspace_id = ?1 AND idempotency_key = ?2`
abbrev pub is_retry : String → String → MessageRecord → Bool
is_retry workspace key m = str_eq m.workspace_id workspace && str_eq m.idempotency_key key

unfoldable pub message_by_idempotency : Store → String → String → Option MessageRecord
message_by_idempotency s workspace key = find (is_retry workspace key) s.messages

abbrev pub same_fence : Option I64 → Option I64 → Bool
same_fence none none = true
same_fence none (some b) = false
same_fence (some a) b = column_is b a

unfoldable pub same_message : MessageRecord → NewMessage → SenderContext → Bool
same_message existing new sender =
    str_eq existing.message_id new.message_id
    && str_eq existing.sender_actor_id new.sender_actor_id
    && existing.sender_actor_epoch == sender.actor_epoch
    && same_fence existing.primary_fencing_epoch sender.primary_fencing_epoch
    && same_token existing.recipient_actor_id new.recipient_actor_id
    && same_token existing.recipient_team_id new.recipient_team_id
    && str_eq existing.kind new.kind
    && same_bytes existing.payload new.payload

abbrev pub queued : NewMessage → SenderContext → MessageRecord
queued message sender = record {
  workspace_id = message.workspace_id;
  message_id = message.message_id;
  idempotency_key = message.idempotency_key;
  sender_actor_id = message.sender_actor_id;
  sender_actor_epoch = sender.actor_epoch;
  primary_fencing_epoch = sender.primary_fencing_epoch;
  recipient_actor_id = message.recipient_actor_id;
  recipient_team_id = message.recipient_team_id;
  kind = message.kind;
  payload = message.payload;
  available_at_ms = message.available_at_ms;
  claimed_by_actor_id = none;
  claimant_actor_epoch = none;
  delivery_epoch = i64_zero;
  attempts = i64_zero;
  claim_until_ms = none;
  acknowledged_at_ms = none;
  last_error = none;
  created_at_ms = message.created_at_ms;
}

-- After the idempotency key was looked up. The primary key refuses a second message of one id.
abbrev pub enqueue : Option MessageRecord → NewMessage → SenderContext → Tx MessageRecord
enqueue (some existing) message sender s =
    if same_message existing message sender
    then ok (existing, s)
    else err (RuntimeError.idempotency_conflict message.idempotency_key)
enqueue none message sender s = do
  fail_if (any (is_message message.workspace_id message.message_id) s.messages)
      (RuntimeError.sqlite (some ErrorCode.constraint_violation))
  let stored =
      append_audit message.workspace_id "message" message.message_id "enqueued"
        (AuditDetail.kind message.kind) message.created_at_ms
        (record s { messages = queued message sender ∷ s.messages })
  inserted ←
      ok_or (message_by_id stored message.workspace_id message.message_id)
        (RuntimeError.not_found "message" message.message_id)
  ok (inserted, stored)

unfoldable pub send_message : NewMessage → SenderContext → I64 → Tx MessageRecord
send_message message sender now s = do
  authorize_message s message sender now
  enqueue (message_by_idempotency s message.workspace_id message.idempotency_key) message sender s
