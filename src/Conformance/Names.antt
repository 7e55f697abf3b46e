-- ===== src/Conformance/Names.antt =====
-- The texts that the state fields of scripts/validate_messages.py hold.
use private_match_protocol.Prelude.{String}
use private_match_protocol.Phases.{
  Phase, uninitialized, created, participants_bound, commitments_pending, committed, evaluating,
  result_accepted, consent_pending, disclosure_authorized, closed, aborted, expired, QueryBudget,
  reserved, consumed, released, no_budget, budget_expired, Disclosure, no_disclosure,
  awaiting_consent, authorized, FailureCode, no_failure, consent_withdrawn, session_expired,
  evaluation_timeout, consent_expired, PartyCategory, no_category, consent_error,
  session_unavailable, evaluation_error,
}

unfoldable pub phase_name : Phase → String
phase_name uninitialized = "UNINITIALIZED"
phase_name created = "CREATED"
phase_name participants_bound = "PARTICIPANTS_BOUND"
phase_name commitments_pending = "COMMITMENTS_PENDING"
phase_name committed = "COMMITTED"
phase_name evaluating = "EVALUATING"
phase_name result_accepted = "RESULT_ACCEPTED"
phase_name consent_pending = "CONSENT_PENDING"
phase_name disclosure_authorized = "DISCLOSURE_AUTHORIZED"
phase_name closed = "CLOSED"
phase_name aborted = "ABORTED"
phase_name expired = "EXPIRED"

unfoldable pub budget_name : QueryBudget → String
budget_name no_budget = "NONE"
budget_name reserved = "RESERVED"
budget_name consumed = "CONSUMED"
budget_name released = "RELEASED"
budget_name budget_expired = "EXPIRED"

unfoldable pub disclosure_name : Disclosure → String
disclosure_name no_disclosure = "NONE"
disclosure_name awaiting_consent = "CONSENT_PENDING"
disclosure_name authorized = "AUTHORIZED"

unfoldable pub failure_code_name : FailureCode → String
failure_code_name no_failure = "NONE"
failure_code_name consent_withdrawn = "CONSENT_WITHDRAWN"
failure_code_name session_expired = "SESSION_EXPIRED"
failure_code_name evaluation_timeout = "EVALUATION_TIMEOUT"
failure_code_name consent_expired = "CONSENT_EXPIRED"

unfoldable pub category_name : PartyCategory → String
category_name no_category = "NONE"
category_name consent_error = "CONSENT_ERROR"
category_name session_unavailable = "SESSION_UNAVAILABLE"
category_name evaluation_error = "EVALUATION_ERROR"
