-- ===== src/Message.antt =====
-- The message envelope of schemas/messages/envelope.v0.1.schema.json, as scripts/validate_messages.py
-- reads it. The members that the schema types are fields; a payload is read by name.
pub mod Kinds
pub mod Wire
use private_match_protocol.Prelude.{ℕ, String, Option, List}
use private_match_protocol.Json.{Json, Fields}
use private_match_protocol.Phases.{Slots}
use Kinds.{MessageType, DeliveryClass}

pub record PartyBinding : Type 0 where
  pub participant_id : Json
  pub key_id : Json

pub record PolicyBinding : Type 0 where
  pub policy_id : Json
  pub policy_version : Json

pub record SessionContext : Type 0 where
  pub session_id : String
  pub policy : PolicyBinding
  pub participants : Slots (Option PartyBinding)
  pub intended_audience : Json
  pub commitment_pair_id : Json
  pub evaluation_attempt_id : Json
  pub selected_integration_profile : Json

pub record Sender : Type 0 where
  pub actor : String
  pub participant_id : Json
  pub key_id : String

pub record Authentication : Type 0 where
  pub mode : String
  pub algorithm_id : String
  pub key_id : String
  pub verification_material_id : String
  pub value : String

pub record PartyIdentity : Type 0 where
  pub sender_participant_id : String
  pub message_id : String
  pub nonce : String
  pub sequence : ℕ
  pub issued_at : String

pub record OperationIdentity : Type 0 where
  pub actor_id : String
  pub operation_id : String
  pub idempotency_key : String

pub record CallbackIdentity : Type 0 where
  pub profile_id : String
  pub profile_version : String
  pub profile_instance_id : String
  pub session_id : String
  pub evaluation_attempt_id : String
  pub callback_id : String
  pub idempotency_key : String

-- The four definitions that the schema offers for `identity`.
pub data Identity : Type 0 where
  of_party : PartyIdentity → Identity
  of_operation : OperationIdentity → Identity
  of_callback : CallbackIdentity → Identity
  of_notice : String → Identity

pub record Message : Type 0 where
  pub protocol_profile : String
  pub protocol_version : String
  pub message_type : MessageType
  pub message_version : String
  pub delivery_class : DeliveryClass
  pub session_context : SessionContext
  pub sender : Sender
  pub audience : List String
  pub issued_at : String
  pub expires_at : String
  pub identity : Identity
  pub prior_transcript_digest : String
  pub payload : Fields
  pub payload_digest : String
  pub authentication : Authentication
  pub message_digest : String
