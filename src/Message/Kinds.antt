-- ===== src/Message/Kinds.antt =====
-- The message types and delivery classes of schemas/messages/envelope.v0.1.schema.json.
use private_match_protocol.Prelude.{String}

pub data MessageType : Type 0 where
  session_proposal session_acceptance participant_binding policy_acceptance : MessageType
  commitment_registration query_budget_reservation evaluation_start : MessageType
  evaluation_contribution opaque_receipt_ack result_acceptance_notice : MessageType
  consent_grant consent_withdrawal disclosure_extension_authorization : MessageType
  disclosure_completion_notice abort_notice normalized_error_notice : MessageType
  close_notice expiry_notice : MessageType

unfoldable pub type_name : MessageType → String
type_name session_proposal = "session_proposal"
type_name session_acceptance = "session_acceptance"
type_name participant_binding = "participant_binding"
type_name policy_acceptance = "policy_acceptance"
type_name commitment_registration = "commitment_registration"
type_name query_budget_reservation = "query_budget_reservation"
type_name evaluation_start = "evaluation_start"
type_name evaluation_contribution = "evaluation_contribution"
type_name opaque_receipt_ack = "opaque_receipt_ack"
type_name result_acceptance_notice = "result_acceptance_notice"
type_name consent_grant = "consent_grant"
type_name consent_withdrawal = "consent_withdrawal"
type_name disclosure_extension_authorization = "disclosure_extension_authorization"
type_name disclosure_completion_notice = "disclosure_completion_notice"
type_name abort_notice = "abort_notice"
type_name normalized_error_notice = "normalized_error_notice"
type_name close_notice = "close_notice"
type_name expiry_notice = "expiry_notice"

pub data DeliveryClass : Type 0 where
  party_message coordinator_command profile_callback derived_transition : DeliveryClass

unfoldable pub class_name : DeliveryClass → String
class_name party_message = "party_message"
class_name coordinator_command = "coordinator_command"
class_name profile_callback = "profile_callback"
class_name derived_transition = "derived_transition"
