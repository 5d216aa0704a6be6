-- ===== src/Core/Accept/Once.antt =====
-- crates/agsv-core/src/supervisor.rs: an accepted message over later calls of `apply` and
-- `acknowledge`.
use mathlib.Core.Option
use agent_supervisor.Common.{◌≡◌, ◌≢◌, refl, sym, ap, subst, ◌∙◌, ◌==◌, some, Bool-cases, inl, inr}
use agent_supervisor.Common.Result.{ok, err}
use agent_supervisor.Common.Maps.{nat_key, lookup, update, insert, lookup-update, lookup-map_values}
use agent_supervisor.Common.Returns.{Returns-success}
use agent_supervisor.Protocol.Ids.{PayloadDigest, MessageId}
use agent_supervisor.Protocol.Envelope.{Envelope, EnvelopeHeader}
use agent_supervisor.Protocol.Delivery.{Acknowledgement, recipient_key}
use agent_supervisor.Core.Error.{CoreResult}
use agent_supervisor.Core.State.{Supervisor, DeliveryRecord, Codec}
use agent_supervisor.Core.Mailbox.{retire_delivery, retire_fully_acknowledged}
use agent_supervisor.Core.Audit.{append_audit}
use agent_supervisor.Core.Observe.{record_activity}
use agent_supervisor.Core.Apply.{ApplyOutcome, apply, digest_message}
use agent_supervisor.Core.Accept.{apply-Verdict, apply-rolls_back}
use agent_supervisor.Core.Accept.Trail.{
  Accepted-Trail, accepted_delivery, Trail-delivery, Trail-others, retire_delivery-flag,
}
use agent_supervisor.Core.Accept.Retry.{
  Copy, is_same_message-facts, delivery_header, delivery_digest,
}
use agent_supervisor.Core.Acknowledge.{AckOutcome, acknowledge, record_ack}
use agent_supervisor.Core.Acknowledge.Receipt.{acknowledge-Receipt, acknowledge-rolls_back}

-- Any number of calls of `apply` and `acknowledge`, whatever they return.
pub data Traffic (codec : Codec) (s : Supervisor) : Supervisor → Type 0 where
  quiet : Traffic codec s s
  applying :
      (e : Envelope) {out : CoreResult ApplyOutcome} {t u : Supervisor}
      → Traffic codec s t
      → apply codec e t ≡ (out, u)
      → Traffic codec s u
  acknowledging :
      (a : Acknowledgement) {out : CoreResult AckOutcome} {t u : Supervisor}
      → Traffic codec s t
      → acknowledge codec a t ≡ (out, u)
      → Traffic codec s u

-- The mailbox holds a message with this header and payload.
record Standing (id : MessageId) (header : EnvelopeHeader) (digest : PayloadDigest) (s : Supervisor)
    : Type 0 where
  delivery : DeliveryRecord
  found : lookup id s.mailbox ≡ some delivery
  headed : delivery.envelope ≡ header
  digested : delivery.payload_digest ≡ digest

module _ {id : MessageId} {header : EnvelopeHeader} {digest : PayloadDigest} where
  -- A delivery that only changes what its recipients did with it.
  Standing-moved :
      {s t : Supervisor} (f : DeliveryRecord → DeliveryRecord)
      → ((d : DeliveryRecord)
          → ((f d).envelope ≡ d.envelope) × ((f d).payload_digest ≡ d.payload_digest))
      → lookup id t.mailbox ≡ Option.map f (lookup id s.mailbox)
      → Standing id header digest s
      → Standing id header digest t
  Standing-moved f keep moved r = record {
    delivery = f r.delivery;
    found = moved ∙ ap (Option.map f) r.found;
    headed = (keep r.delivery).0 ∙ r.headed;
    digested = (keep r.delivery).1 ∙ r.digested;
  }

  -- A write at one id.
  Standing-answered :
      (s : Supervisor) (at : MessageId) (f : DeliveryRecord → DeliveryRecord)
      → ((d : DeliveryRecord)
          → ((f d).envelope ≡ d.envelope) × ((f d).payload_digest ≡ d.payload_digest))
      → Standing id header digest s
      → Standing id header digest (record s { mailbox = update at f s.mailbox })
  Standing-answered s at f keep r = elim (Bool-cases (at == id)) [
    | inl hit ↦ Standing-moved {s = s} f keep (lookup-update at id f s.mailbox ∙ rw hit refl) r
    | inr miss ↦ record {
      delivery = r.delivery;
      found = lookup-update at id f s.mailbox ∙ rw miss r.found;
      headed = r.headed;
      digested = r.digested;
    }
  ]

retire_delivery-keeps :
    (s : Supervisor) (d : DeliveryRecord)
    → ((retire_delivery s.requests d).envelope ≡ d.envelope)
      × ((retire_delivery s.requests d).payload_digest ≡ d.payload_digest)
retire_delivery-keeps s d =
    let flag = (retire_delivery-flag s.requests d).1 in
    (
      ap (λ (x : DeliveryRecord). x.envelope) flag,
      ap (λ (x : DeliveryRecord). x.payload_digest) flag,
    )

apply-Standing :
    (codec : Codec) (e : Envelope) (out : CoreResult ApplyOutcome) (s t : Supervisor)
    {id : MessageId} {header : EnvelopeHeader} {digest : PayloadDigest}
    → apply codec e s ≡ (out, t)
    → Standing id header digest s
    → Standing id header digest t
apply-Standing codec e (err x) s t {id} {header} {digest} h r =
    subst (Standing id header digest) (sym (apply-rolls_back codec e s t x h)) r
apply-Standing codec e (ok ApplyOutcome.duplicate) s t {id} {header} {digest} h r =
    subst (Standing id header digest) (sym (Returns-success (apply-Verdict codec e s) h).unchanged)
      r
apply-Standing codec e (ok ApplyOutcome.applied) s t {id} h r =
    let a = Returns-success (apply-Verdict codec e s) h in
    let p = Accepted-Trail a in
    let apart : e.message_id ≢ id =
      λ same. cc (a.fresh, ap (λ i. lookup i s.mailbox) same, r.found) in
    Standing-moved (retire_delivery p.handled.requests) (retire_delivery-keeps p.handled)
      (Trail-others p id apart) r

acknowledge-Standing :
    (codec : Codec) (a : Acknowledgement) (out : CoreResult AckOutcome) (s t : Supervisor)
    {id : MessageId} {header : EnvelopeHeader} {digest : PayloadDigest}
    → acknowledge codec a s ≡ (out, t)
    → Standing id header digest s
    → Standing id header digest t
unfolding record_ack append_audit retire_fully_acknowledged record_activity
acknowledge-Standing codec a (err x) s t {id} {header} {digest} h r =
    subst (Standing id header digest) (sym (acknowledge-rolls_back codec a s t x h)) r
acknowledge-Standing codec a (ok AckOutcome.duplicate) s t {id} {header} {digest} h r =
    subst (Standing id header digest)
      (sym (Returns-success (acknowledge-Receipt codec a s) h).unchanged) r
acknowledge-Standing codec a (ok AckOutcome.acknowledged) s t {id} h r =
    let x = Returns-success (acknowledge-Receipt codec a s) h in
    let answer : DeliveryRecord → DeliveryRecord =
      λ d. record d { acknowledgements = insert x.recipient a d.acknowledgements } in
    let answered : Supervisor = record s { mailbox = update a.message_id answer s.mailbox } in
    Standing-moved {s = answered} (retire_delivery s.requests) (retire_delivery-keeps s)
      (rw (x.writes, lookup-map_values) refl)
      (Standing-answered s a.message_id answer (λ d. (refl, refl)) r)

-- Over such calls a message of the mailbox stays under its id, with its header and payload.
Traffic-Standing :
    (codec : Codec) (s t : Supervisor) {id : MessageId} {header : EnvelopeHeader}
    {digest : PayloadDigest}
    → Traffic codec s t
    → Standing id header digest s
    → Standing id header digest t
Traffic-Standing codec s t Traffic.quiet r = r
Traffic-Standing codec s t (Traffic.applying e {out = out} {t = u} run h) r =
    apply-Standing codec e out u t h (Traffic-Standing codec s u run r)
Traffic-Standing codec s t (Traffic.acknowledging a {out = out} {t = u} run h) r =
    acknowledge-Standing codec a out u t h (Traffic-Standing codec s u run r)

-- Once a message is accepted, and after any later calls of apply and acknowledge, whatever they
-- return, any envelope with its id that apply does not refuse is reported as a duplicate,
-- changes nothing, and has the same header and the same payload digest.
pub apply-once :
    (codec : Codec) (e copy : Envelope) (s t u v : Supervisor) (out : ApplyOutcome)
    → apply codec e s ≡ (ok ApplyOutcome.applied, t)
    → Traffic codec t u
    → copy.message_id ≡ e.message_id
    → apply codec copy u ≡ (ok out, v)
    → Copy codec e copy out u v
apply-once codec e copy s t u v out h run id k =
    let p = Accepted-Trail (Returns-success (apply-Verdict codec e s) h) in
    let r =
      Traffic-Standing codec t u {id = e.message_id} {header = e.header} {digest = p.digest} run
        (record {
          delivery = accepted_delivery p;
          found = Trail-delivery p;
          headed = delivery_header p;
          digested = delivery_digest p;
        }) in
    told out k (ap (λ i. lookup i u.mailbox) id ∙ r.found) r.headed (r.digested) p.digested
  where
    told :
        (o : ApplyOutcome) {d : DeliveryRecord} {digest : PayloadDigest}
        → apply codec copy u ≡ (ok o, v)
        → lookup copy.message_id u.mailbox ≡ some d
        → d.envelope ≡ e.header
        → d.payload_digest ≡ digest
        → digest_message codec e.message ≡ ok digest
        → Copy codec e copy o u v
    told ApplyOutcome.applied q here header same digested =
        let a = Returns-success (apply-Verdict codec copy u) q in cc (a.fresh, here)
    told ApplyOutcome.duplicate {d} q here header same digested =
        let c = Returns-success (apply-Verdict codec copy u) q in
        let found : c.delivery ≡ d = cc (c.found, here) in
        let facts = is_same_message-facts _ _ _ _ copy c.digest c.same in
        record {
          is_duplicate = refl;
          unchanged = c.unchanged;
          same_header = sym facts.0 ∙ ap (λ (x : DeliveryRecord). x.envelope) found ∙ header;
          same_digest =
              c.digested
              ∙ ap ok (sym facts.1 ∙ ap (λ (x : DeliveryRecord). x.payload_digest) found ∙ same)
              ∙ sym digested;
        }
