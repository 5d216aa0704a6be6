-- ===== src/Protocol/Payload.antt =====
-- crates/agsv-protocol/src/model.rs: `Validate` of the message payloads.
use Prim.Native.String.{len}
use agent_supervisor.Common.{
  ℕ, Bool, true, false, not, ◌&&◌, ◌||◌, List, [], ◌∷◌, ltb, leb, ◌==◌, is_some_and,
}
use agent_supervisor.Common.Lists.{length, all}
use agent_supervisor.Common.Result.{Result, ok, map_err, fail_if, ◌>>◌}
use agent_supervisor.Protocol.Validation.{
  ValidationError, ValidationCode, validation_error, at, validate_count, validate_text, codes,
  max_evidence_items, max_acceptance_criteria, max_request_text_characters,
  max_evidence_requirements, max_conflict_resources,
}
use agent_supervisor.Protocol.Message.{
  Message, Evidence, EvidenceDigest, ImplementationRequest, ProgressUpdate, PrimaryDirective,
  ConsultationRequest, ConsultationResponse, DependencyNotice, ConflictNotice, HandoffOffer,
  HandoffAcceptance,
}

abbrev Checked : Type 0
Checked = Result ValidationError (Unit {0})

-- `u8::is_ascii_hexdigit`
is_hexdigit : ℕ → Bool
is_hexdigit c = leb b'0' c && leb c b'9' || leb b'a' c && leb c b'f' || leb b'A' c && leb c b'F'

-- The bytes of a text are its code points if all are ASCII, and some byte fails the test if not.
validate_digest : EvidenceDigest → Checked
unfolding is_hexdigit
validate_digest d =
    fail_if (not (len d.value == 64) || not (all is_hexdigit (codes d.value)))
      (validation_error "value" ValidationCode.invalid_format)

validate_evidence_item : Evidence → Checked
unfolding validate_digest validate_text
validate_evidence_item e = do
  map_err (at "digest") (validate_digest e.digest)
  validate_text "reference" e.reference 2048
  validate_text "summary" e.summary 4096

-- A check of each item in turn; the index in the field's name is left out.
each {ℓ} : {A : Type ℓ} → (A → Checked) → List A → Checked
each check [] = ok tt
each check (x ∷ xs) = let rest = each check xs in check x >> rest

validate_evidence : List Evidence → Checked
unfolding validate_evidence_item each validate_count
validate_evidence evidence = do
  validate_count "evidence" (length evidence) max_evidence_items
  each (λ e. map_err (at "evidence") (validate_evidence_item e)) evidence

abbrev is_empty {ℓ} : {A : Type ℓ} → List A → Bool
is_empty [] = true
is_empty (x ∷ xs) = false

validate_implementation_request : ImplementationRequest → Checked
unfolding validate_text validate_count each
validate_implementation_request r = do
  validate_text "title" r.title 256
  validate_text "instructions" r.instructions max_request_text_characters
  fail_if (is_empty r.acceptance_criteria)
      (validation_error "acceptance_criteria" ValidationCode.required)
  validate_count "acceptance_criteria" (length r.acceptance_criteria) max_acceptance_criteria
  validate_count "evidence_requirements" (length r.evidence_requirements) max_evidence_requirements
  each (λ c. validate_text "acceptance_criteria" c max_request_text_characters)
      r.acceptance_criteria

validate_progress : ProgressUpdate → Checked
unfolding validate_text validate_evidence
validate_progress p = do
  validate_text "summary" p.summary 8192
  fail_if (is_some_and p.percent_complete (ltb 100))
      (validation_error "percent_complete" ValidationCode.out_of_range)
  validate_evidence p.evidence

validate_directive : PrimaryDirective → Checked
unfolding validate_text
validate_directive d = do
  validate_text "decision" d.decision 8192
  validate_text "rationale" d.rationale 16384

validate_consultation_request : ConsultationRequest → Checked
unfolding validate_text validate_evidence
validate_consultation_request c = do
  validate_text "subject" c.subject 256
  validate_text "question" c.question 16384
  validate_evidence c.evidence

validate_consultation_response : ConsultationResponse → Checked
unfolding validate_text validate_evidence
validate_consultation_response c = do
  validate_text "response" c.response 16384
  validate_evidence c.evidence

validate_dependency_notice : DependencyNotice → Checked
unfolding validate_text
validate_dependency_notice n = do
  fail_if (n.blocked_request_id == n.depends_on_request_id)
      (validation_error "depends_on_request_id" ValidationCode.inconsistent)
  validate_text "description" n.description 8192

validate_conflict_notice : ConflictNotice → Checked
unfolding validate_text validate_count each
validate_conflict_notice n = do
  fail_if (is_empty n.resources) (validation_error "resources" ValidationCode.required)
  validate_count "resources" (length n.resources) max_conflict_resources
  each (λ r. validate_text "resources" r 2048) n.resources
  validate_text "description" n.description 8192

validate_handoff_offer : HandoffOffer → Checked
unfolding validate_text
validate_handoff_offer o = do
  fail_if (o.from_team_id == o.to_team_id)
      (validation_error "to_team_id" ValidationCode.inconsistent)
  validate_text "reason" o.reason 8192

validate_handoff_acceptance : HandoffAcceptance → Checked
validate_handoff_acceptance a =
    fail_if (a.from_team_id == a.to_team_id)
      (validation_error "to_team_id" ValidationCode.inconsistent)

-- `Message::validate`
unfoldable pub validate_message : Message → Checked
unfolding validate_implementation_request validate_progress validate_directive
    validate_consultation_request validate_consultation_response validate_dependency_notice
    validate_conflict_notice validate_handoff_offer validate_handoff_acceptance validate_evidence
    validate_text
validate_message (Message.implementation_request v) = validate_implementation_request v
validate_message (Message.progress v) = validate_progress v
validate_message (Message.blocker v) = do
  validate_text "summary" v.summary 8192
  validate_evidence v.evidence
validate_message (Message.candidate_ready v) = do
  validate_text "summary" v.summary 8192
  validate_evidence v.evidence
validate_message (Message.review_decision v) = do
  validate_text "rationale" v.rationale 16384
  validate_evidence v.evidence
validate_message (Message.fix_request v) = validate_text "instructions" v.instructions 32768
validate_message (Message.qa_result v) = do
  validate_text "summary" v.summary 8192
  validate_evidence v.evidence
validate_message (Message.integration_authorization v) = ok tt
validate_message (Message.cancellation reason) = validate_text "reason" reason 8192
validate_message (Message.run_control v) = ok tt
validate_message (Message.directive v) = validate_directive v
validate_message (Message.consultation_request v) = validate_consultation_request v
validate_message (Message.consultation_response v) = validate_consultation_response v
validate_message (Message.dependency_notice v) = validate_dependency_notice v
validate_message (Message.conflict_notice v) = validate_conflict_notice v
validate_message (Message.handoff_offer v) = validate_handoff_offer v
validate_message (Message.handoff_acceptance v) = validate_handoff_acceptance v
validate_message (Message.integration_complete v) = validate_evidence v.evidence
