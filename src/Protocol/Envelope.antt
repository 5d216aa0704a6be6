-- ===== src/Protocol/Envelope.antt =====
-- crates/agsv-protocol/src/model.rs: the envelope that carries a message, its header, and
-- `Envelope::validate`.
use agent_supervisor.Common.{
  ℕ, Bool, false, not, ◌&&◌, ◌||◌, Option, none, some, ◌==◌, is_some, ℕ_discrete, ◌≡◌, refl,
}
use agent_supervisor.Common.Result.{Result, ok, err, map_err, fail_if, ◌>>◌, >>=-eq-ok}
use agent_supervisor.Protocol.Ids.{
  WorkspaceId, TeamId, ActorId, RunId, RequestId, MessageId, Epoch, TimestampMillis,
}
use agent_supervisor.Protocol.Validation.{ValidationError, ValidationCode, validation_error, at}
use agent_supervisor.Protocol.Actor.{ActorRef}
use agent_supervisor.Protocol.Work.{Candidate}
use agent_supervisor.Protocol.Message.{Message}
use agent_supervisor.Protocol.Kind.{candidate_of, requires_request_context, is_directive}
use agent_supervisor.Protocol.Payload.{validate_message}

abbrev pub protocol_version : ℕ
protocol_version = 1

pub data MessageTarget : Type 0 where
  primary : MessageTarget
  team : TeamId → MessageTarget
  actor : ActorId → MessageTarget
  workspace : MessageTarget

-- The envelope without its message.
pub record EnvelopeHeader : Type 0 where
  pub version : ℕ
  pub message_id : MessageId
  pub workspace_id : WorkspaceId
  pub sender : ActorRef
  pub target : MessageTarget
  pub team_id : Option TeamId
  pub run_id : Option RunId
  pub request_id : Option RequestId
  pub policy_revision : Epoch
  pub primary_epoch : Epoch
  pub team_epoch : Option Epoch
  pub assignment_epoch : Option Epoch
  pub sent_at : TimestampMillis

-- `Envelope` has the header's fields beside its message, so `EnvelopeHeader::from` is `e.header`.
pub record Envelope : Type 0 where
  pub header : EnvelopeHeader
  pub open header use *
  pub message : Message

unfoldable pub MessageTarget-discrete : Discrete MessageTarget
MessageTarget-discrete = hlevel ℕ_discrete

unfoldable pub EnvelopeHeader-discrete : Discrete EnvelopeHeader
EnvelopeHeader-discrete = hlevel ℕ_discrete

unfoldable pub validate_team_context :
    Option TeamId → Option Epoch → Result ValidationError (Unit {0})
validate_team_context (some t) (some e) = ok tt
validate_team_context none none = ok tt
validate_team_context (some t) none = err (validation_error "team_epoch" ValidationCode.required)
validate_team_context none (some e) =
    err (validation_error "team_epoch" ValidationCode.inconsistent)

-- A team comes with its fence.
pub validate_team_context-ok :
    (team : Option TeamId) (epoch : Option Epoch)
    → validate_team_context team epoch ≡ ok tt
    → is_some team ≡ is_some epoch
unfolding validate_team_context
validate_team_context-ok (some t) (some e) h = refl
validate_team_context-ok none none h = refl
validate_team_context-ok (some t) none h = cc
validate_team_context-ok none (some e) h = cc

validate_run_context : Option RequestId → Option RunId → Result ValidationError (Unit {0})
validate_run_context (some q) (some r) = ok tt
validate_run_context none none = ok tt
validate_run_context (some q) none = err (validation_error "run_id" ValidationCode.required)
validate_run_context none (some r) = err (validation_error "request_id" ValidationCode.required)

other_request : Option RequestId → Option Candidate → Bool
other_request (some q) (some c) = not (c.request_id == q)
other_request _ _ = false

-- `Envelope::validate`, from the run's context on.
validate_contexts : Envelope → Result ValidationError (Unit {0})
unfolding validate_run_context other_request
validate_contexts e = do
  validate_run_context e.request_id e.run_id
  fail_if
      (requires_request_context e.message && (not (is_some e.request_id) || not (is_some e.run_id)))
      (validation_error "request_id" ValidationCode.required)
  fail_if (is_directive e.message && not (is_some e.team_id))
      (validation_error "team_id" ValidationCode.required)
  fail_if (is_directive e.message && is_some e.assignment_epoch)
      (validation_error "assignment_epoch" ValidationCode.inconsistent)
  fail_if (is_some e.assignment_epoch && not (is_some e.request_id))
      (validation_error "assignment_epoch" ValidationCode.inconsistent)
  fail_if (other_request e.request_id (candidate_of e.message))
      (validation_error "message.candidate.request_id" ValidationCode.inconsistent)
  map_err (at "message") (validate_message e.message)

abbrev validate_version : Envelope → Result ValidationError (Unit {0})
validate_version e =
    fail_if (not (e.version == protocol_version))
      (validation_error "protocol_version" ValidationCode.unsupported_version)

unfoldable pub validate_envelope : Envelope → Result ValidationError (Unit {0})
unfolding validate_team_context validate_contexts
validate_envelope e = do
  validate_version e
  validate_team_context e.team_id e.team_epoch
  validate_contexts e

-- An envelope has both of a team and a team's fence, or neither.
abbrev pub IsFenced : Envelope → Type 0
IsFenced e = is_some e.team_id ≡ is_some e.team_epoch

pub validate_envelope-IsFenced : (e : Envelope) → validate_envelope e ≡ ok tt → IsFenced e
unfolding validate_envelope
validate_envelope-IsFenced e h =
    let context : Result ValidationError (Unit {0}) =
      validate_team_context e.team_id e.team_epoch in
    let (_, _, rest) = >>=-eq-ok (validate_version e) (λ _. context >> validate_contexts e) h in
    let (_, passed, _) = >>=-eq-ok context (λ _. validate_contexts e) rest in
    validate_team_context-ok e.team_id e.team_epoch passed
