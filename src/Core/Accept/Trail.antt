-- ===== src/Core/Accept/Trail.antt =====
-- crates/agsv-core/src/supervisor.rs: what an accepted message leaves in the mailbox and the audit.
use agent_supervisor.Common.{
  ℕ, ◌+◌, ◌≡◌, ◌≢◌, refl, ap, ◌∙◌, Bool, true, false, Option, none, some, List, [], ◌∷◌, ◌++◌,
  Option-cases, Bool-cases, ◌&&◌, inl, inr, not,
}
use mathlib.Core.Option
use agent_supervisor.Common.Result.{ok}
use agent_supervisor.Common.Maps.{
  Map, nat_key, lookup, lookup-insert_same, lookup-insert_other, lookup-map_values,
}
use agent_supervisor.Protocol.Ids.{MessageId, PayloadDigest, TeamId, RunId, HandoffId, RequestId}
use agent_supervisor.Protocol.Envelope.{Envelope, EnvelopeHeader}
use agent_supervisor.Protocol.Work.{Request, Run}
use agent_supervisor.Protocol.Delivery.{
  DeliveryRecipient, AuditEvent, AuditEventKind, DeliveryRetirementReason,
}
use agent_supervisor.Protocol.Kind.{kind_of}
use agent_supervisor.Core.State.{Supervisor, DeliveryRecord, PendingHandoff, Codec}
use agent_supervisor.Core.Mailbox.{is_retirable, retire_delivery, retire_fully_acknowledged}
use agent_supervisor.Core.Audit.{append_audit, next_event}
use agent_supervisor.Core.Observe.{
  AcceptedMessageObservability, RequestObservabilityState, observe_accepted, recount, count_in,
  count_out, request_observability_state, request_state_for_observability,
  update_request_observability, record_activity, record_accepted_message_observability,
}
use agent_supervisor.Core.Apply.{
  digest_message, record_accepted, required_of, reason_of, delivery_of,
}
use agent_supervisor.Core.Accept.{Accepted}

-- The counters of requests aside, two states are one.
pub record Recounted (s t : Supervisor) : Type 0 where
  pub counts : Map ℕ ℕ
  pub rest : t ≡ record s { nonterminal_request_counts = counts }

Recounted-here :
    {s : Supervisor} {counts : Map ℕ ℕ}
    → Recounted s (record s { nonterminal_request_counts = counts })
Recounted-here = record { counts = _; rest = refl }

Recounted-step :
    {s t : Supervisor} {counts : Map ℕ ℕ}
    → Recounted s t
    → Recounted s (record t { nonterminal_request_counts = counts })
Recounted-step {counts = counts} r =
    let write : Supervisor → Supervisor = λ u. record u { nonterminal_request_counts = counts } in
    record { counts = counts; rest = ap write r.rest }

count_out-Recounted :
    (b : Bool) (before : Option RequestObservabilityState) (s : Supervisor)
    → Recounted s (count_out b before s)
count_out-Recounted true none s = Recounted-here
count_out-Recounted true (some q) s = Recounted-here
count_out-Recounted false before s = Recounted-here

count_in-Recounted :
    (b : Bool) (team : TeamId) (s t : Supervisor) → Recounted s t → Recounted s (count_in b team t)
count_in-Recounted true team s t r = Recounted-step r
count_in-Recounted false team s t r = r

update-Recounted :
    (id : RequestId) (before : Option RequestObservabilityState) (s : Supervisor)
    → Recounted s (update_request_observability id before s).1
unfolding update_request_observability recount
update-Recounted id before s = elim (Option-cases (lookup id s.requests)) [
  | inl h ↦ rw (update_request_observability, request_observability_state, h) Recounted-here
  | inr (q, h) ↦
      rw (update_request_observability, request_observability_state, h)
        (count_in-Recounted _ q.team_id s _ (count_out-Recounted _ before s))
]

observe_accepted-Recounted :
    (h : EnvelopeHeader) (recipients : List DeliveryRecipient)
    (before : Option RequestObservabilityState) (s : Supervisor)
    → Recounted s (observe_accepted h recipients before s).1
unfolding observe_accepted
observe_accepted-Recounted h recipients before s = elim (Option-cases h.request_id) [
  | inl k ↦ rw k Recounted-here
  | inr (id, k) ↦ rw k (update-Recounted id before s)
]

-- What an acceptance leaves, from the state before: the handler's requests, runs and handoffs,
-- other counts, and the record of the message.
pub record Trail (codec : Codec) (e : Envelope) (s t : Supervisor) : Type 0 where
  pub digest : PayloadDigest
  pub required : List DeliveryRecipient
  pub reason : Option DeliveryRetirementReason
  pub seen : AcceptedMessageObservability
  pub handled : Supervisor
  pub requests : Map RequestId Request
  pub runs : Map RunId Run
  pub handoffs : Map HandoffId PendingHandoff
  pub counts : Map TeamId ℕ
  pub digested : digest_message codec e.message ≡ ok digest
  pub from_before : handled ≡ record s {
    requests = requests;
    runs = runs;
    handoffs = handoffs;
    nonterminal_request_counts = counts;
  }
  pub writes : t ≡ record_accepted codec e digest required reason seen handled

pub Accepted-Trail :
    {codec : Codec} {e : Envelope} {s t : Supervisor} → Accepted codec e s t → Trail codec e s t
Accepted-Trail {e = e} {s = s} a =
    let before = request_state_for_observability s e in
    let r = observe_accepted-Recounted e.header (required_of a.plan) before a.handled in
    let recounted : Supervisor → Supervisor =
      λ u. record u { nonterminal_request_counts = r.counts } in
    record {
      digest = a.digest;
      required = required_of a.plan;
      reason = reason_of a.plan;
      seen = (observe_accepted e.header (required_of a.plan) before a.handled).0;
      handled = (observe_accepted e.header (required_of a.plan) before a.handled).1;
      requests = a.framed.requests;
      runs = a.framed.runs;
      handoffs = a.framed.handoffs;
      counts = r.counts;
      digested = a.digested;
      from_before = r.rest ∙ ap recounted a.framed.rest;
      writes = a.writes;
    }

-- A retirement sets a flag.
pub retire_delivery-flag :
    (requests : Map RequestId Request) (d : DeliveryRecord)
    → (b : Bool) × (retire_delivery requests d ≡ record d { retired = b })
unfolding retire_delivery
retire_delivery-flag requests d = elim (Bool-cases (not d.retired && is_retirable requests d)) [
  | inl h ↦ (true, rw h refl)
  | inr h ↦ (d.retired, rw h refl)
]

module _ {codec : Codec} {e : Envelope} {s t : Supervisor} (r : Trail codec e s t) where
  -- The one event that an acceptance appends.
  abbrev pub accepted_event : AuditEvent
  accepted_event =
      next_event s e.sent_at e.team_id e.team_epoch
        (AuditEventKind.message_accepted e.message_id (kind_of e.message) (some r.digest))

  pub Trail-audit : t.audit ≡ s.audit ++ accepted_event ∷ []
  unfolding record_accepted append_audit retire_fully_acknowledged record_activity
      record_accepted_message_observability
  Trail-audit = rw (r.writes, r.from_before) refl

  pub Trail-checkpoint : t.history_checkpoint ≡ record s.history_checkpoint {
    audit_event_count = s.history_checkpoint.audit_event_count + 1;
    audit_head_sha256 = some (codec.audit_digest accepted_event);
  }
  unfolding record_accepted append_audit retire_fully_acknowledged record_activity
      record_accepted_message_observability
  Trail-checkpoint = rw (r.writes, r.from_before) refl

  pub Trail-workspace : t.workspace_id ≡ s.workspace_id
  unfolding record_accepted append_audit retire_fully_acknowledged record_activity
      record_accepted_message_observability
  Trail-workspace = rw (r.writes, r.from_before) refl

  -- The delivery that stands in the mailbox afterwards.
  abbrev pub accepted_delivery : DeliveryRecord
  accepted_delivery =
      retire_delivery r.handled.requests (delivery_of r.handled e r.digest r.required r.reason)

  pub Trail-delivery : lookup e.message_id t.mailbox ≡ some accepted_delivery
  unfolding record_accepted append_audit retire_fully_acknowledged record_activity
      record_accepted_message_observability
  Trail-delivery = rw (r.writes, lookup-map_values, lookup-insert_same) refl

  -- Other deliveries stay, and only retire.
  pub Trail-others :
      (id : MessageId)
      → e.message_id ≢ id
      → lookup id t.mailbox ≡ Option.map (retire_delivery r.handled.requests) (lookup id s.mailbox)
  unfolding record_accepted append_audit retire_fully_acknowledged record_activity
      record_accepted_message_observability
  Trail-others id n =
      rw
        (
          r.writes,
          lookup-map_values,
          lookup-insert_other e.message_id id (delivery_of r.handled e r.digest r.required r.reason)
              r.handled.mailbox n,
          r.from_before,
        )
        refl
