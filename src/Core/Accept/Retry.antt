-- ===== src/Core/Accept/Retry.antt =====
-- crates/agsv-core/src/supervisor.rs: repetitions of an accepted message.
use agent_supervisor.Common.{◌≡◌, refl, ap, ◌∙◌, true, ◌==◌, some, eqb_iff, eqb_refl, arith}
use agent_supervisor.Common.Result.{ok}
use agent_supervisor.Common.Maps.{nat_key, lookup}
use agent_supervisor.Common.Exec.{continue}
use agent_supervisor.Common.Returns.{Returns-success}
use agent_supervisor.Protocol.Ids.{PayloadDigest}
use agent_supervisor.Protocol.Kind.{MessageKind}
use agent_supervisor.Protocol.Envelope.{
  Envelope, EnvelopeHeader, EnvelopeHeader-discrete, validate_envelope,
}
use agent_supervisor.Protocol.Delivery.{CausalMessage}
use agent_supervisor.Core.State.{Supervisor, DeliveryRecord, Codec}
use agent_supervisor.Core.Apply.{
  ApplyOutcome, apply, classify_retry, digest_message, is_same_message, validate_envelope_quota,
  delivery_of,
}
use agent_supervisor.Core.Accept.{apply-Verdict}
use agent_supervisor.Core.Accept.Trail.{
  Trail, Accepted-Trail, accepted_delivery, Trail-workspace, Trail-delivery, retire_delivery-flag,
}

-- The run of `apply` on a state whose mailbox holds the message as it is.
apply-found :
    (codec : Codec) (e : Envelope) (t : Supervisor) (digest : PayloadDigest) (d : DeliveryRecord)
    → validate_envelope_quota codec e ≡ ok tt
    → validate_envelope e ≡ ok tt
    → (e.workspace_id == t.workspace_id) ≡ true
    → digest_message codec e.message ≡ ok digest
    → lookup e.message_id t.mailbox ≡ some d
    → is_same_message d.envelope d.message_kind d.payload_digest d.causal e digest ≡ true
    → apply codec e t ≡ (ok ApplyOutcome.duplicate, t)
unfolding apply continue classify_retry
apply-found codec e t digest d q v w h l same = rw (q, v, w, h, l, same) refl

-- A message is the same as its own delivery.
same_delivery :
    {codec : Codec} {e : Envelope} {s t : Supervisor} (r : Trail codec e s t)
    → (let d : DeliveryRecord = accepted_delivery r in
        is_same_message d.envelope d.message_kind d.payload_digest d.causal e r.digest ≡ true)
unfolding is_same_message
same_delivery {e = e} r =
    let d = delivery_of r.handled e r.digest r.required r.reason in
    let flag = retire_delivery-flag r.handled.requests d in
    rw (flag.1, eqb_refl, eqb_refl, eqb_refl) (ground arith)

-- Applying an accepted message again to the state that it left returns Duplicate and changes
-- nothing.
pub apply-retry :
    (codec : Codec) (e : Envelope) (s t : Supervisor)
    → apply codec e s ≡ (ok ApplyOutcome.applied, t)
    → apply codec e t ≡ (ok ApplyOutcome.duplicate, t)
apply-retry codec e s t h =
    let a = Returns-success (apply-Verdict codec e s) h in
    let r = Accepted-Trail a in
    apply-found codec e t r.digest (accepted_delivery r) a.fits a.valid
      (ap (λ w. e.workspace_id == w) (Trail-workspace r) ∙ a.in_workspace) r.digested
      (Trail-delivery r) (same_delivery r)

-- What a repetition of an accepted message agrees on with it.
pub record Copy (codec : Codec) (e copy : Envelope) (out : ApplyOutcome) (t u : Supervisor)
    : Type 0 where
  pub is_duplicate : out ≡ ApplyOutcome.duplicate
  pub unchanged : u ≡ t
  pub same_header : copy.header ≡ e.header
  pub same_digest : digest_message codec copy.message ≡ digest_message codec e.message

pub is_same_message-facts :
    (header : EnvelopeHeader) (kind : MessageKind) (digest : PayloadDigest) (causal : CausalMessage)
    (e : Envelope) (incoming : PayloadDigest)
    → is_same_message header kind digest causal e incoming ≡ true
    → (header ≡ e.header) × (digest ≡ incoming)
unfolding is_same_message
is_same_message-facts header kind digest causal e incoming h =
    ground (arith, eqb_iff EnvelopeHeader-discrete header e.header)

pub delivery_header :
    {codec : Codec} {e : Envelope} {s t : Supervisor} (r : Trail codec e s t)
    → (accepted_delivery r).envelope ≡ e.header
delivery_header {e = e} r =
    ap (λ (d : DeliveryRecord). d.envelope)
      (retire_delivery-flag r.handled.requests
        (delivery_of r.handled e r.digest r.required r.reason)).1

pub delivery_digest :
    {codec : Codec} {e : Envelope} {s t : Supervisor} (r : Trail codec e s t)
    → (accepted_delivery r).payload_digest ≡ r.digest
delivery_digest {e = e} r =
    ap (λ (d : DeliveryRecord). d.payload_digest)
      (retire_delivery-flag r.handled.requests
        (delivery_of r.handled e r.digest r.required r.reason)).1
