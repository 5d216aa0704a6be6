-- ===== src/Core/Acknowledge/Receipt.antt =====
-- crates/agsv-core/src/supervisor.rs: what a call of `Supervisor::acknowledge` went through.
use agent_supervisor.Common.{
  ◌≡◌, refl, ap, ◌∙◌, Bool, true, false, not, Option, none, some, eqb, eqb_iff, if◌then◌else◌,
  not-not, arith,
}
use agent_supervisor.Common.Result.{ok, err, ok_or, fail_if-ok}
use agent_supervisor.Common.Maps.{nat_key, lookup}
use agent_supervisor.Common.Returns.{
  Returns, Returns-ok, Returns-err, Returns-try, Returns-then, Returns-failure,
}
use agent_supervisor.Protocol.Actor.{Actor}
use agent_supervisor.Protocol.Status.{ActorStatus, actor_is_healthy}
use agent_supervisor.Protocol.Delivery.{
  DeliveryRecipient, Acknowledgement, Acknowledgement-discrete, recipient_key,
}
use agent_supervisor.Core.Error.{CoreError}
use agent_supervisor.Core.State.{Supervisor, DeliveryRecord, Codec, current_actor}
use agent_supervisor.Core.Audit.{ensure_audit_capacity}
use agent_supervisor.Core.Recipients.{current_recipient_for_actor}
use agent_supervisor.Core.Acknowledge.{
  AckOutcome, acknowledge, new_ack, settle_ack, classify_ack, record_ack, is_open_to, ack_activity,
}

-- A recipient answers for the first time, from `s` to `t`.
pub record Answered (codec : Codec) (a : Acknowledgement) (s t : Supervisor) : Type 0 where
  pub delivery : DeliveryRecord
  pub actor : Actor
  pub recipient : DeliveryRecipient
  pub found : lookup a.message_id s.mailbox ≡ some delivery
  pub current : current_actor s a.actor ≡ ok actor
  pub addressed :
      current_recipient_for_actor s delivery.envelope.target delivery.required_recipients actor
      ≡ some recipient
  pub healthy : actor.status ≡ ActorStatus.healthy
  pub open_to : is_open_to s delivery actor recipient ≡ true
  pub roomy : ensure_audit_capacity s ≡ ok tt
  pub writes : t ≡ record_ack codec a recipient delivery.envelope (ack_activity s delivery actor) s

-- A recipient that has answered so before answers again.
pub record Reanswered (a : Acknowledgement) (s t : Supervisor) : Type 0 where
  pub delivery : DeliveryRecord
  pub recipient : DeliveryRecipient
  pub found : lookup a.message_id s.mailbox ≡ some delivery
  pub answered : lookup recipient delivery.acknowledgements ≡ some a
  pub unchanged : t ≡ s

abbrev pub Receipt : Codec → Acknowledgement → Supervisor → AckOutcome → Supervisor → Type 0
Receipt codec a s AckOutcome.acknowledged t = Answered codec a s t
Receipt codec a s AckOutcome.duplicate t = Reanswered a s t

ok_or-some : {A : Type 0} (o : Option A) (x : CoreError) (a : A) → ok_or o x ≡ ok a → o ≡ some a
ok_or-some o x a h = ground arith

healthy_status : (s : ActorStatus) → not (actor_is_healthy s) ≡ false → s ≡ ActorStatus.healthy
healthy_status s h = ground arith

new_ack-Receipt :
    (codec : Codec) (a : Acknowledgement) (d : DeliveryRecord) (s : Supervisor)
    → lookup a.message_id s.mailbox ≡ some d
    → Returns s (Receipt codec a s) (new_ack codec a d s)
unfolding new_ack
new_ack-Receipt codec a d s h = Returns-then _ (
    Returns-try _ (λ actor current. Returns-try _ (λ recipient addressed.
      Returns-try _ (λ _ healthy. Returns-try _ (λ _ answerable. Returns-try _ (λ _ _.
        Returns-try _ (λ _ roomy. Returns-then _ (
          Returns-ok (record {
            delivery = d;
            actor = actor;
            recipient = recipient;
            found = h;
            current = current;
            addressed = ok_or-some _ _ recipient addressed;
            healthy = healthy_status actor.status (fail_if-ok _ _ healthy);
            open_to = not-not _ (fail_if-ok _ _ answerable);
            roomy = roomy;
            writes = refl;
          })))))))))

settle_ack-Receipt :
    (codec : Codec) (a : Acknowledgement) (d : DeliveryRecord) (s : Supervisor)
    (recipient : DeliveryRecipient) (found : Option Acknowledgement)
    → lookup a.message_id s.mailbox ≡ some d
    → lookup recipient d.acknowledgements ≡ found
    → Returns s (Receipt codec a s) (settle_ack codec a d found s)
unfolding classify_ack
settle_ack-Receipt codec a d s recipient none h k = new_ack-Receipt codec a d s h
settle_ack-Receipt codec a d s recipient (some existing) h k = compare_ack _ refl
  where
    compare_ack :
        (same : Bool)
        → eqb Acknowledgement-discrete existing a ≡ same
        → Returns s (Receipt codec a s) (
          (if same
              then ok AckOutcome.duplicate
              else err CoreError.duplicate_acknowledgement_conflict),
          s,
        )
    compare_ack false e = Returns-err
    compare_ack true e = Returns-ok (record {
      delivery = d;
      recipient = recipient;
      found = h;
      answered = k ∙ ap some ((eqb_iff Acknowledgement-discrete existing a).0 e);
      unchanged = refl;
    })

-- Every run of `acknowledge`: a refusal writes nothing.
pub acknowledge-Receipt :
    (codec : Codec) (a : Acknowledgement) (s : Supervisor)
    → Returns s (Receipt codec a s) (acknowledge codec a s)
unfolding acknowledge
acknowledge-Receipt codec a s = Returns-then _ (
    Returns-try _ (λ _ _. Returns-try _ (λ d found.
      Returns-try _
        (λ recipient _. settle_ack-Receipt codec a d s recipient _ (ok_or-some _ _ d found) refl))))

-- An acknowledgement that is refused leaves the aggregate exactly as it was.
pub acknowledge-rolls_back :
    (codec : Codec) (a : Acknowledgement) (s t : Supervisor) (x : CoreError)
    → acknowledge codec a s ≡ (err x, t)
    → t ≡ s
acknowledge-rolls_back codec a s t x h = Returns-failure (acknowledge-Receipt codec a s) h
