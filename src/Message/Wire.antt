-- ===== src/Message/Wire.antt =====
-- A message as the JSON object that travels: the members under their names, in the names' order.
use private_match_protocol.Prelude.{String, Option, none, some, List, [], ◌∷◌, pos}
use private_match_protocol.Json.{
  Json, null, int, str, arr, obj, Items, nil, cons, Fields, end, field, get,
}
use private_match_protocol.Phases.{Slots}
use private_match_protocol.Message.Kinds.{type_name, class_name}
use private_match_protocol.Message.{
  PartyBinding, PolicyBinding, SessionContext, Sender, Authentication, Identity, of_party,
  of_operation, of_callback, of_notice, Message,
}

unfoldable pub texts : List String → Items
texts [] = nil
texts (s ∷ ss) = cons (str s) (texts ss)

unfoldable pub binding_json : Option PartyBinding → Json
binding_json none = null
binding_json (some b) = obj (field "key_id" b.key_id (field "participant_id" b.participant_id end))

unfoldable pub policy_json : PolicyBinding → Json
policy_json p = obj (field "policy_id" p.policy_id (field "policy_version" p.policy_version end))

unfoldable pub participants_json : Slots (Option PartyBinding) → Json
unfolding binding_json
participants_json ps =
    obj (field "party_a" (binding_json ps.slot_a) (field "party_b" (binding_json ps.slot_b) end))

unfoldable pub session_context_json : SessionContext → Json
unfolding policy_json participants_json
session_context_json c = obj (
    field "commitment_pair_id" c.commitment_pair_id (
      field "evaluation_attempt_id" c.evaluation_attempt_id (
        field "intended_audience" c.intended_audience (
          field "participants" (participants_json c.participants) (
            field "policy" (policy_json c.policy) (
              field "selected_integration_profile" c.selected_integration_profile
                (field "session_id" (str c.session_id) end)))))))

unfoldable pub sender_json : Sender → Json
sender_json s = obj (
    field "actor" (str s.actor)
      (field "key_id" (str s.key_id) (field "participant_id" s.participant_id end)))

unfoldable pub identity_fields : Identity → Fields
identity_fields (of_party i) = field "issued_at" (str i.issued_at) (
    field "kind" (str "party_message") (
      field "message_id" (str i.message_id) (
        field "nonce" (str i.nonce) (
          field "sender_participant_id" (str i.sender_participant_id)
            (field "sequence" (int (pos i.sequence)) end)))))
identity_fields (of_operation i) = field "actor_id" (str i.actor_id) (
    field "idempotency_key" (str i.idempotency_key)
      (field "kind" (str "coordinator_command") (field "operation_id" (str i.operation_id) end)))
identity_fields (of_callback i) = field "callback_id" (str i.callback_id) (
    field "evaluation_attempt_id" (str i.evaluation_attempt_id) (
      field "idempotency_key" (str i.idempotency_key) (
        field "kind" (str "profile_callback") (
          field "profile_id" (str i.profile_id) (
            field "profile_instance_id" (str i.profile_instance_id) (
              field "profile_version" (str i.profile_version)
                (field "session_id" (str i.session_id) end)))))))
identity_fields (of_notice notice_id) =
    field "kind" (str "derived_transition") (field "notice_id" (str notice_id) end)

-- The authentication members without the value: what `authentication_input` keeps.
unfoldable pub authentication_metadata : Authentication → Json
authentication_metadata a = obj (
    field "algorithm_id" (str a.algorithm_id) (
      field "key_id" (str a.key_id) (
        field "mode" (str a.mode)
          (field "verification_material_id" (str a.verification_material_id) end))))

unfoldable pub authentication_json : Authentication → Json
authentication_json a = obj (
    field "algorithm_id" (str a.algorithm_id) (
      field "key_id" (str a.key_id) (
        field "mode" (str a.mode) (
          field "value" (str a.value)
            (field "verification_material_id" (str a.verification_material_id) end)))))

-- The whole wire object.
unfoldable pub message_fields : Message → Fields
unfolding authentication_json identity_fields sender_json session_context_json texts type_name
    class_name
message_fields m = field "audience" (arr (texts m.audience)) (
    field "authentication" (authentication_json m.authentication) (
      field "delivery_class" (str (class_name m.delivery_class)) (
        field "expires_at" (str m.expires_at) (
          field "identity" (obj (identity_fields m.identity)) (
            field "issued_at" (str m.issued_at) (
              field "message_digest" (str m.message_digest) (
                field "message_type" (str (type_name m.message_type)) (
                  field "message_version" (str m.message_version) (
                    field "payload" (obj m.payload) (
                      field "payload_digest" (str m.payload_digest) (
                        field "prior_transcript_digest" (str m.prior_transcript_digest) (
                          field "protocol_profile" (str m.protocol_profile) (
                            field "protocol_version" (str m.protocol_version) (
                              field "sender" (sender_json m.sender) (
                                field "session_context" (session_context_json m.session_context)
                                  end)))))))))))))))

-- `authentication_input`: what the message digest covers. It leaves out the payload (its digest
-- stands for it), the authentication value and the message digest itself.
unfoldable pub authentication_input : Message → Json
unfolding authentication_metadata identity_fields sender_json session_context_json texts type_name
    class_name
authentication_input m = obj (
    field "audience" (arr (texts m.audience)) (
      field "authentication" (authentication_metadata m.authentication) (
        field "delivery_class" (str (class_name m.delivery_class)) (
          field "expires_at" (str m.expires_at) (
            field "identity" (obj (identity_fields m.identity)) (
              field "issued_at" (str m.issued_at) (
                field "message_type" (str (type_name m.message_type)) (
                  field "message_version" (str m.message_version) (
                    field "payload_digest" (str m.payload_digest) (
                      field "prior_transcript_digest" (str m.prior_transcript_digest) (
                        field "protocol_profile" (str m.protocol_profile) (
                          field "protocol_version" (str m.protocol_version) (
                            field "sender" (sender_json m.sender) (
                              field "session_context" (session_context_json m.session_context)
                                end))))))))))))))

-- `message["identity"].get(name)`
unfoldable pub identity_get : String → Identity → Json
unfolding get identity_fields
identity_get name i = get name (identity_fields i)
