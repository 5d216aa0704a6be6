-- ===== src/Core/Accept.antt =====
-- crates/agsv-core/src/supervisor.rs: what a call of `Supervisor::apply` went through.
pub mod Retry
pub mod Once
pub mod Trail
pub mod Authority
pub mod Recorded
use agent_supervisor.Common.{
  ◌≡◌, refl, Bool, true, false, ◌==◌, Option, none, some, if◌then◌else◌, not-not,
}
use agent_supervisor.Common.Result.{ok, err, fail_if-ok, map_err-ok}
use agent_supervisor.Common.Maps.{nat_key, lookup}
use agent_supervisor.Common.Returns.{
  Returns, Returns-ok, Returns-err, Returns-try, Returns-then, Returns-bind, Returns-run,
  Returns-failure,
}
use agent_supervisor.Protocol.Ids.{PayloadDigest}
use agent_supervisor.Protocol.Actor.{Actor}
use agent_supervisor.Protocol.Envelope.{Envelope, validate_envelope, validate_envelope-IsFenced}
use agent_supervisor.Core.Error.{CoreError}
use agent_supervisor.Core.State.{Supervisor, DeliveryRecord, Codec}
use agent_supervisor.Core.Context.{authorize_envelope}
use agent_supervisor.Core.Recipients.{DeliveryRecipientPlan}
use agent_supervisor.Core.Dispatch.{apply_message}
use agent_supervisor.Core.Audit.{ensure_audit_capacity}
use agent_supervisor.Core.Observe.{request_state_for_observability, observe_accepted}
use agent_supervisor.Core.Frame.{Frame, apply_message-Frame}
use agent_supervisor.Core.Apply.{
  ApplyOutcome, apply, accept, classify_retry, digest_message, is_same_message, record_accepted,
  required_of, reason_of, plan_or_refuse, settle, validate_envelope_quota,
}

-- The writes after the handler, from the state that it left.
abbrev pub finish :
    Codec → Envelope → PayloadDigest → DeliveryRecipientPlan → Supervisor → Supervisor → Supervisor
finish codec e digest plan s handled =
    let observed =
      observe_accepted e.header (required_of plan) (request_state_for_observability s e) handled in
    record_accepted codec e digest (required_of plan) (reason_of plan) observed.0 observed.1

-- A message that was new and is accepted, from `s` to `t`.
pub record Accepted (codec : Codec) (e : Envelope) (s t : Supervisor) : Type 0 where
  pub digest : PayloadDigest
  pub sender : Actor
  pub plan : DeliveryRecipientPlan
  pub handled : Supervisor
  pub fits : validate_envelope_quota codec e ≡ ok tt
  pub valid : validate_envelope e ≡ ok tt
  pub in_workspace : (e.workspace_id == s.workspace_id) ≡ true
  pub digested : digest_message codec e.message ≡ ok digest
  pub fresh : lookup e.message_id s.mailbox ≡ none
  pub roomy : ensure_audit_capacity s ≡ ok tt
  pub authorized : authorize_envelope s e ≡ ok sender
  pub planned : plan_or_refuse s e sender digest ≡ ok plan
  pub handles : apply_message e sender digest s ≡ (ok tt, handled)
  pub framed : Frame s handled
  pub writes : t ≡ finish codec e digest plan s handled

-- A message that the mailbox holds already, with the same content.
pub record Repeated (codec : Codec) (e : Envelope) (s t : Supervisor) : Type 0 where
  pub digest : PayloadDigest
  pub delivery : DeliveryRecord
  pub digested : digest_message codec e.message ≡ ok digest
  pub found : lookup e.message_id s.mailbox ≡ some delivery
  pub same :
      is_same_message delivery.envelope delivery.message_kind delivery.payload_digest
        delivery.causal e digest
      ≡ true
  pub unchanged : t ≡ s

abbrev pub Verdict : Codec → Envelope → Supervisor → ApplyOutcome → Supervisor → Type 0
Verdict codec e s ApplyOutcome.applied t = Accepted codec e s t
Verdict codec e s ApplyOutcome.duplicate t = Repeated codec e s t

accept-Verdict :
    (codec : Codec) (e : Envelope) (digest : PayloadDigest) (s : Supervisor)
    → validate_envelope_quota codec e ≡ ok tt
    → validate_envelope e ≡ ok tt
    → (e.workspace_id == s.workspace_id) ≡ true
    → digest_message codec e.message ≡ ok digest
    → lookup e.message_id s.mailbox ≡ none
    → Returns s (Verdict codec e s) (accept codec e digest s)
unfolding accept
accept-Verdict codec e digest s q v w d l =
    let f = validate_envelope-IsFenced e v in
    Returns-then _ (
      Returns-try _ (λ _ _. Returns-try _ (λ _ roomy. Returns-try _ (λ sender authorized.
        Returns-try _ (λ plan planned. Returns-try _ (λ _ _.
          Returns-bind _ (Returns-run (apply_message-Frame e sender digest s f)) (λ _ u h.
            Returns-then _ (
              Returns-then _ (
                Returns-then _ (
                  Returns-ok (record {
                    digest = digest;
                    sender = sender;
                    plan = plan;
                    handled = u;
                    fits = q;
                    valid = v;
                    in_workspace = w;
                    digested = d;
                    fresh = l;
                    roomy = roomy;
                    authorized = authorized;
                    planned = planned;
                    handles = h.0;
                    framed = h.1;
                    writes = refl;
                  })))))))))))

classify_retry-Verdict :
    (codec : Codec) (e : Envelope) (digest : PayloadDigest) (s : Supervisor) (d : DeliveryRecord)
    (same : Bool)
    → digest_message codec e.message ≡ ok digest
    → lookup e.message_id s.mailbox ≡ some d
    → is_same_message d.envelope d.message_kind d.payload_digest d.causal e digest ≡ same
    → Returns s
        (Verdict codec e s)
        ((if same then ok ApplyOutcome.duplicate else err CoreError.duplicate_message_conflict), s)
classify_retry-Verdict codec e digest s d true h l same = Returns-ok (record {
  digest = digest;
  delivery = d;
  digested = h;
  found = l;
  same = same;
  unchanged = refl;
})
classify_retry-Verdict codec e digest s d false h l same = Returns-err

-- The lookup decides between the two.
found-Verdict :
    (codec : Codec) (e : Envelope) (digest : PayloadDigest) (s : Supervisor)
    (found : Option DeliveryRecord)
    → validate_envelope_quota codec e ≡ ok tt
    → validate_envelope e ≡ ok tt
    → (e.workspace_id == s.workspace_id) ≡ true
    → digest_message codec e.message ≡ ok digest
    → lookup e.message_id s.mailbox ≡ found
    → Returns s (Verdict codec e s) (settle codec e digest found s)
unfolding classify_retry
found-Verdict codec e digest s none q v w h l = accept-Verdict codec e digest s q v w h l
found-Verdict codec e digest s (some d) q v w h l =
    classify_retry-Verdict codec e digest s d _ h l refl

-- Every run of `apply`: a refusal writes nothing, a success is an acceptance or a repetition.
pub apply-Verdict :
    (codec : Codec) (e : Envelope) (s : Supervisor)
    → Returns s (Verdict codec e s) (apply codec e s)
unfolding apply
apply-Verdict codec e s = Returns-try _ (λ _ fits. Returns-try _ (λ _ valid. Returns-then _ (
    Returns-try _ (λ _ w. Returns-try _ (λ digest h.
      found-Verdict codec e digest s _ fits
        (map_err-ok CoreError.validation (validate_envelope e) valid) (not-not _ (fail_if-ok _ _ w))
        h refl)))))

-- A message that apply refuses leaves the aggregate exactly as it was, for every handler and
-- every point of refusal, also where the handler had begun to write.
pub apply-rolls_back :
    (codec : Codec) (e : Envelope) (s t : Supervisor) (x : CoreError)
    → apply codec e s ≡ (err x, t)
    → t ≡ s
apply-rolls_back codec e s t x h = Returns-failure (apply-Verdict codec e s) h
