-- ===== src/Core/Accept/Recorded.antt =====
-- crates/agsv-core/src/supervisor.rs: the audit and the mailbox after an acceptance.
use agent_supervisor.Common.{◌+◌, ◌≤◌, ◌<◌, ◌≡◌, ◌≢◌, refl, ap, some, [], ◌∷◌, ◌++◌, arith}
use mathlib.Core.Option
use agent_supervisor.Common.Lists.{length, length-append}
use agent_supervisor.Common.Result.{ok}
use agent_supervisor.Common.Maps.{Map, nat_key, lookup}
use agent_supervisor.Common.Returns.{Returns-success}
use agent_supervisor.Protocol.Ids.{MessageId, RequestId, u64_modulus}
use agent_supervisor.Protocol.Validation.{max_audit_events}
use agent_supervisor.Protocol.Envelope.{Envelope}
use agent_supervisor.Protocol.Work.{Request}
use agent_supervisor.Protocol.Delivery.{AuditEvent}
use agent_supervisor.Core.State.{Supervisor, DeliveryRecord, Codec}
use agent_supervisor.Core.Mailbox.{retire_delivery}
use agent_supervisor.Core.Audit.{ensure_audit_capacity}
use agent_supervisor.Core.Apply.{ApplyOutcome, apply, delivery_of}
use agent_supervisor.Core.Accept.{apply-Verdict}
use agent_supervisor.Core.Accept.Trail.{
  Accepted-Trail, accepted_event, accepted_delivery, Trail-audit, Trail-checkpoint, Trail-delivery,
  Trail-others, retire_delivery-flag,
}

-- `t` has one event more than `s`, which continues the sequence and is the chain's head.
pub record Audited (codec : Codec) (s t : Supervisor) : Type 0 where
  pub event : AuditEvent
  pub appended : t.audit ≡ s.audit ++ event ∷ []
  pub sequenced : event.sequence ≡ s.history_checkpoint.audit_event_count + 1
  pub counted : t.history_checkpoint.audit_event_count ≡ event.sequence
  pub headed : t.history_checkpoint.audit_head_sha256 ≡ some (codec.audit_digest event)
  pub in_u64 : t.history_checkpoint.audit_event_count < u64_modulus
  pub bounded : length t.audit ≤ max_audit_events

capacity :
    (s : Supervisor)
    → ensure_audit_capacity s ≡ ok tt
    → (length s.audit < max_audit_events)
      × (s.history_checkpoint.audit_event_count + 1 < u64_modulus)
unfolding ensure_audit_capacity
capacity s h = ground arith

-- An accepted message appends exactly one audit event, whose sequence number follows the
-- checkpoint's count; the checkpoint counts it and heads the chain with its digest, inside u64
-- and the bound on the audit list.
pub applied-Audited :
    (codec : Codec) (e : Envelope) (s t : Supervisor)
    → apply codec e s ≡ (ok ApplyOutcome.applied, t)
    → Audited codec s t
applied-Audited codec e s t h =
    let a = Returns-success (apply-Verdict codec e s) h in
    let r = Accepted-Trail a in
    let room = capacity s a.roomy in
    let event : AuditEvent = accepted_event r in
    let count = ap (λ c. c.audit_event_count) (Trail-checkpoint r) in
    record {
      event = event;
      appended = Trail-audit r;
      sequenced = refl;
      counted = count;
      headed = ap (λ c. c.audit_head_sha256) (Trail-checkpoint r);
      in_u64 = rw count room.1;
      bounded = rw (Trail-audit r, length-append) (omega (arith, room.0));
    }

-- What is in the mailbox after a message was accepted.
pub record Posted (e : Envelope) (s t : Supervisor) : Type 0 where
  pub delivery : DeliveryRecord
  pub requests : Map RequestId Request
  pub posted : lookup e.message_id t.mailbox ≡ some delivery
  pub header : delivery.envelope ≡ e.header
  pub unread : delivery.acknowledgements ≡ []
  pub others :
      (id : MessageId)
      → e.message_id ≢ id
      → lookup id t.mailbox ≡ Option.map (retire_delivery requests) (lookup id s.mailbox)

-- After an acceptance the message stands in the mailbox under its header with no
-- acknowledgement, and every other delivery is as it was or is retired.
pub applied-Posted :
    (codec : Codec) (e : Envelope) (s t : Supervisor)
    → apply codec e s ≡ (ok ApplyOutcome.applied, t)
    → Posted e s t
applied-Posted codec e s t h =
    let r = Accepted-Trail (Returns-success (apply-Verdict codec e s) h) in
    let flag =
      retire_delivery-flag r.handled.requests
        (delivery_of r.handled e r.digest r.required r.reason) in
    record {
      delivery = accepted_delivery r;
      requests = r.handled.requests;
      posted = Trail-delivery r;
      header = ap (λ (d : DeliveryRecord). d.envelope) flag.1;
      unread = ap (λ (d : DeliveryRecord). d.acknowledgements) flag.1;
      others = Trail-others r;
    }
