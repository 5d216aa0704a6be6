-- ===== src/Core/Audit.antt =====
-- crates/agsv-core/src/supervisor.rs: the append-only audit and its capacity.
use agent_supervisor.Common.{◌+◌, Option, some, [], ◌∷◌, ◌++◌, leb}
use agent_supervisor.Common.Lists.{length}
use agent_supervisor.Common.Result.{ok, fail_if, ok_or, ◌>>=◌, ◌>>◌}
use agent_supervisor.Protocol.Ids.{TeamId, Epoch, TimestampMillis, checked_add}
use agent_supervisor.Protocol.Validation.{max_audit_events}
use agent_supervisor.Protocol.Delivery.{AuditEvent, AuditEventKind}
use agent_supervisor.Core.Error.{CoreError, CoreResult}
use agent_supervisor.Core.State.{Supervisor, Codec}
use agent_supervisor.Core.Registry.{quota}

unfoldable pub ensure_audit_capacity : Supervisor → CoreResult (Unit {0})
ensure_audit_capacity s = do
  fail_if (leb max_audit_events (length s.audit)) (quota "audit_events" max_audit_events)
  n ← ok_or (checked_add s.history_checkpoint.audit_event_count 1) CoreError.epoch_exhausted
  ok tt

-- The event that is next. The callers have checked the capacity, so the count does not overflow.
abbrev pub next_event :
    Supervisor → TimestampMillis → Option TeamId → Option Epoch → AuditEventKind → AuditEvent
next_event s at team epoch kind = record {
  sequence = s.history_checkpoint.audit_event_count + 1;
  occurred_at = at;
  team_id = team;
  team_epoch = epoch;
  kind = kind;
}

unfoldable pub append_audit :
    Codec
    → TimestampMillis
    → Option TeamId
    → Option Epoch
    → AuditEventKind
    → Supervisor
    → Supervisor
append_audit codec at team epoch kind s =
    let event = next_event s at team epoch kind in
    record s {
      history_checkpoint = record s.history_checkpoint {
        audit_event_count = event.sequence;
        audit_head_sha256 = some (codec.audit_digest event);
      };
      audit = s.audit ++ event ∷ [];
    }
