-- ===== src/Transitions.antt =====
-- The transitions of specs/state-machines/private-match-core-session-v0.1.yaml that
-- scripts/validate_messages.py names.
use private_match_protocol.Prelude.{String}
use private_match_protocol.Phases.{Party, party_a, party_b}

pub data Transition : Type 0 where
  create reserve_budget start_evaluation accept_symmetric_result : Transition
  authorize_disclosure_extension close : Transition
  accept_session bind_first bind_complete accept_policy : Party → Transition
  commit_first commit_complete submit_contribution ack_receipt : Party → Transition
  grant_consent withdraw_consent : Party → Transition
  advance_time_noop advance_time_live advance_time_expire : Transition
  evaluation_timed_out consent_timed_out : Transition

unfoldable pub transition_id : Transition → String
transition_id create = "TR-CREATE"
transition_id reserve_budget = "TR-RESERVE-BUDGET"
transition_id start_evaluation = "TR-START-EVALUATION"
transition_id accept_symmetric_result = "TR-ACCEPT-SYMMETRIC-RESULT"
transition_id authorize_disclosure_extension = "TR-AUTHORIZE-DISCLOSURE-EXTENSION"
transition_id close = "TR-CLOSE"
transition_id (accept_session party_a) = "TR-ACCEPT-SESSION-A"
transition_id (accept_session party_b) = "TR-ACCEPT-SESSION-B"
transition_id (bind_first party_a) = "TR-BIND-A-FIRST"
transition_id (bind_first party_b) = "TR-BIND-B-FIRST"
transition_id (bind_complete party_a) = "TR-BIND-A-COMPLETE"
transition_id (bind_complete party_b) = "TR-BIND-B-COMPLETE"
transition_id (accept_policy party_a) = "TR-ACCEPT-POLICY-A"
transition_id (accept_policy party_b) = "TR-ACCEPT-POLICY-B"
transition_id (commit_first party_a) = "TR-COMMIT-A-FIRST"
transition_id (commit_first party_b) = "TR-COMMIT-B-FIRST"
transition_id (commit_complete party_a) = "TR-COMMIT-A-COMPLETE"
transition_id (commit_complete party_b) = "TR-COMMIT-B-COMPLETE"
transition_id (submit_contribution party_a) = "TR-SUBMIT-CONTRIBUTION-A"
transition_id (submit_contribution party_b) = "TR-SUBMIT-CONTRIBUTION-B"
transition_id (ack_receipt party_a) = "TR-ACK-RECEIPT-A"
transition_id (ack_receipt party_b) = "TR-ACK-RECEIPT-B"
transition_id (grant_consent party_a) = "TR-GRANT-CONSENT-A"
transition_id (grant_consent party_b) = "TR-GRANT-CONSENT-B"
transition_id (withdraw_consent party_a) = "TR-WITHDRAW-CONSENT-A"
transition_id (withdraw_consent party_b) = "TR-WITHDRAW-CONSENT-B"
transition_id advance_time_noop = "TR-ADVANCE-TIME-NOOP"
transition_id advance_time_live = "TR-ADVANCE-TIME-LIVE"
transition_id advance_time_expire = "TR-ADVANCE-TIME-EXPIRE"
transition_id evaluation_timed_out = "TR-EVALUATION-TIMEOUT"
transition_id consent_timed_out = "TR-CONSENT-EXPIRED"
