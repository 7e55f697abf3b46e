-- ===== src/Runner.antt =====
-- The state of `AbstractStateRunner` in scripts/validate_messages.py.
pub mod Guards
pub mod Setup
pub mod Evaluation
pub mod Consent
pub mod Apply
pub mod Timer
pub mod Invariant
pub mod Branches
pub mod Atomic
pub mod Preserved
pub mod Effects
pub mod Terminal
pub mod Agreement
use private_match_protocol.Prelude.{
  ℕ, String, Bool, false, Option, none, some, List, [], str_eq, if◌then◌else◌,
}
use private_match_protocol.Json.{Json, null, str, int, Fields, text_of}
use private_match_protocol.Phases.{
  Phase, uninitialized, QueryBudget, no_budget, Disclosure, no_disclosure, FailureCode, no_failure,
  PartyCategory, no_category, Party, party_a, party_b, Slots,
}
use private_match_protocol.Message.{PartyBinding, SessionContext}
use private_match_protocol.Transitions.{Transition}

-- The members of the context dict that the scripts read. A bound that the dict does not have is `none`,
-- which is read otherwise than a null one.
pub record Context : Type 0 where
  pub session_context : SessionContext
  pub authoritative_time : Json
  pub session_expires_at : Json
  pub evaluation_timeout_seconds : Json
  pub maximum_time_jump_seconds : Json
  pub allowed_clock_skew_seconds : Option Json
  pub message_stale_threshold_seconds : Option Json
  pub approved_disclosure_profiles : Json
  pub prior_transcript_digest : Json

pub record Acceptance : Type 0 where
  pub proposal_digest : Json
  pub acceptance_digest : Json
  pub participant_id : Json
  pub key_id : Json
  pub subject_binding_id : Json
  pub verification_material_id : Json

pub record PolicyAcceptance : Type 0 where
  pub policy_id : Json
  pub policy_version : Json
  pub acceptance_digest : Json

pub record Ack : Type 0 where
  pub opaque_receipt_ref : Json
  pub acknowledgment_status : Json
  pub profile_evidence_ref : Json

pub record Receipt : Type 0 where
  pub opaque_receipt_ref : Json
  pub acknowledgment_status : Json
  pub profile_evidence_ref : Json
  pub resource_policy_binding : Json
  pub execution_authorization_digest : Json

pub record Runner : Type 0 where
  pub base_context : Context
  pub phase : Phase
  pub proposal_digest : Json
  pub session_acceptance : Slots (Option Acceptance)
  pub participants : Slots (Option PartyBinding)
  pub policy_acceptance : Slots (Option PolicyAcceptance)
  pub budget_reserved : Bool
  pub commitments : Slots Json
  pub commitment_pair_id : Option String
  pub evaluation_attempt_id : Json
  pub selected_integration_profile : Json
  pub contributions : Slots Json
  pub receipt_acks : Slots (Option Ack)
  pub proposed_result_state : Slots Json
  pub accepted_result_state : Slots Json
  pub accepted_receipt : Option Receipt
  pub consents : Slots (Option Fields)
  pub next_sequence : Slots ℕ
  pub authoritative_time : Json
  pub session_expires_at : Json
  pub evaluation_timeout_seconds : Json
  pub evaluation_deadline : Json
  pub resource_policy_binding : Json
  pub execution_authorization_digest : Json
  pub maximum_time_jump_seconds : Json
  pub evaluation_started : Bool
  pub query_budget_state : QueryBudget
  pub disclosure_state : Disclosure
  pub terminal_failure_code : FailureCode
  pub party_terminal_category : PartyCategory
  pub audit_lifecycle : List Transition

abbrev empty_slots {ℓ} : {A : Type ℓ} → A → Slots A
empty_slots a = record { slot_a = a; slot_b = a }

abbrev text_or_null : Option String → Json
text_or_null none = null
text_or_null (some s) = str s

-- `value if isinstance(value, int) and not isinstance(value, bool) else None`
abbrev integer_or_null : Json → Json
integer_or_null (int n) = int n
integer_or_null _ = null

-- `AbstractStateRunner(base_context)`, with `__post_init__`.
unfoldable pub new_runner : Context → Runner
new_runner c = record {
  base_context = c;
  phase = uninitialized;
  proposal_digest = null;
  session_acceptance = empty_slots none;
  participants = empty_slots none;
  policy_acceptance = empty_slots none;
  budget_reserved = false;
  commitments = empty_slots null;
  commitment_pair_id = none;
  evaluation_attempt_id = null;
  selected_integration_profile = null;
  contributions = empty_slots null;
  receipt_acks = empty_slots none;
  proposed_result_state = empty_slots null;
  accepted_result_state = empty_slots null;
  accepted_receipt = none;
  consents = empty_slots none;
  next_sequence = empty_slots 0;
  authoritative_time = text_or_null (text_of c.authoritative_time);
  session_expires_at = null;
  evaluation_timeout_seconds = null;
  evaluation_deadline = null;
  resource_policy_binding = null;
  execution_authorization_digest = null;
  maximum_time_jump_seconds = integer_or_null c.maximum_time_jump_seconds;
  evaluation_started = false;
  query_budget_state = no_budget;
  disclosure_state = no_disclosure;
  terminal_failure_code = no_failure;
  party_terminal_category = no_category;
  audit_lifecycle = [];
}

-- AbstractStateRunner.context
unfoldable pub current_context : Runner → String → Context
current_context r prior_head = record r.base_context {
  authoritative_time = r.authoritative_time;
  session_expires_at = r.session_expires_at;
  evaluation_timeout_seconds = r.evaluation_timeout_seconds;
  prior_transcript_digest = str prior_head;
  session_context = record r.base_context.session_context {
    participants = r.participants;
    commitment_pair_id = text_or_null r.commitment_pair_id;
    evaluation_attempt_id = r.evaluation_attempt_id;
    selected_integration_profile = r.selected_integration_profile;
  };
}

-- The Party slot of a sender.
unfoldable pub party_of : String → Option Party
party_of actor =
    if str_eq actor "party_a_client"
    then some party_a
    else if str_eq actor "party_b_client"
    then some party_b
    else none
