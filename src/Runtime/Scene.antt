-- ===== src/Runtime/Scene.antt =====
-- crates/agsv-runtime/src/store.rs: a workspace with one actor, whose message is claimed.
use agent_supervisor.Common.{ℕ, ◌+◌, ◌≡◌, refl, none, some, [], ◌∷◌}
use agent_supervisor.Common.Result.{Result, ok, err}
use agent_supervisor.Runtime.Table.{I64, i64_zero, count_where, update_where, upsert, least}
use agent_supervisor.Runtime.Types.{
  ActorRole, SessionHandle, SenderContext, NewMessage, MessageRecord, ClaimedMessage, RuntimeError,
}
use agent_supervisor.Runtime.Store.{
  Store, require_positive_ttl, append_audit, actor_from_raw, actor_by_id, active_actor,
  ensure_epoch_update,
}
use agent_supervisor.Runtime.Actors.{register_actor, attach_session}
use agent_supervisor.Runtime.Messages.{
  message_by_id, message_by_idempotency, queued, authorize_message, send_message,
}
use agent_supervisor.Runtime.Claims.{claim_row, claim_message}
use agent_supervisor.Runtime.Steps.{Step, Reach, empty}

-- The number `n` of an `i64`.
abbrev pub at : ℕ → I64
at n = i64_zero + n

abbrev pub after {ℓ} : {A : Type ℓ} → Result RuntimeError (A × Store) → Store
after (ok (a, t)) = t
after (err e) = empty

abbrev pub handle : SessionHandle
handle = record { backend = "b"; external_id = "x"; resume_token = none }

abbrev pub joined : Store
joined = after (register_actor none "w" "a" none ActorRole.implementation "b" (at 0) (at 100) empty)

abbrev pub online : Store
online = after (attach_session none "w" "a" (at 1) none handle (at 0) (at 100) joined)

abbrev pub note : NewMessage
note = record {
  workspace_id = "w";
  message_id = "m";
  idempotency_key = "k";
  sender_actor_id = "a";
  recipient_actor_id = some "a";
  recipient_team_id = none;
  kind = "note";
  payload = 7 ∷ [];
  available_at_ms = at 1;
  created_at_ms = at 1;
}

abbrev pub sender : SenderContext
sender = record { actor_id = "a"; actor_epoch = at 1; primary_fencing_epoch = none }

abbrev pub posted : Store
posted = after (send_message note sender (at 1) online)

abbrev pub first : Store
first = after (claim_message "w" "a" (at 1) (at 2) (at 5) posted)

abbrev pub first_row : MessageRecord
first_row = claim_row "a" (at 1) (at 7) (queued note sender)

abbrev pub first_claim : ClaimedMessage
first_claim = record { message = first_row; delivery_epoch = at 1 }

abbrev pub second : Store
second = after (claim_message "w" "a" (at 1) (at 8) (at 5) first)

abbrev pub second_claim : ClaimedMessage
second_claim = record { message = claim_row "a" (at 1) (at 13) first_row; delivery_epoch = at 2 }

pub posted-Reach : Reach empty posted
unfolding register_actor attach_session send_message authorize_message claim_message
    require_positive_ttl append_audit actor_from_raw actor_by_id active_actor ensure_epoch_update
    count_where update_where upsert least message_by_id message_by_idempotency
posted-Reach =
    Reach.later
      (Reach.later
        (Reach.later Reach.here
          (Step.registered none "w" "a" none ActorRole.implementation "b" (at 0) (at 100) refl))
        (Step.session_attached none "w" "a" (at 1) none handle (at 0) (at 100) refl))
      (Step.sent note sender (at 1) refl)

pub first_claimed : claim_message "w" "a" (at 1) (at 2) (at 5) posted ≡ ok (some first_claim, first)
unfolding register_actor attach_session send_message authorize_message claim_message
    require_positive_ttl append_audit actor_from_raw actor_by_id active_actor ensure_epoch_update
    count_where update_where upsert least message_by_id message_by_idempotency
first_claimed = refl

pub second_claimed :
    claim_message "w" "a" (at 1) (at 8) (at 5) first ≡ ok (some second_claim, second)
unfolding register_actor attach_session send_message authorize_message claim_message
    require_positive_ttl append_audit actor_from_raw actor_by_id active_actor ensure_epoch_update
    count_where update_where upsert least message_by_id message_by_idempotency
second_claimed = refl

pub nothing_left : claim_message "w" "a" (at 1) (at 3) (at 5) first ≡ ok (none, first)
unfolding register_actor attach_session send_message authorize_message claim_message
    require_positive_ttl append_audit actor_from_raw actor_by_id active_actor ensure_epoch_update
    count_where update_where upsert least message_by_id message_by_idempotency
nothing_left = refl
