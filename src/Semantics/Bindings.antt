-- ===== src/Semantics/Bindings.antt =====
-- `semantic_message_findings` of scripts/validate_messages.py: the registry, the context, the sender
-- and the identity.
use Prim.Native.String.{compare}
use text.Mathlib.Text.{is_lt}
use private_match_protocol.Prelude.{
  String, Bool, true, false, ◌&&◌, ◌||◌, not, Option, none, some, List, [], ◌∷◌, any, str_eq,
  if◌then◌else◌,
}
use private_match_protocol.Json.{str, json_eq, member}
use private_match_protocol.Findings.{Finding, finding, require}
use private_match_protocol.Phases.{Party, slot}
use private_match_protocol.Message.{PartyBinding, SessionContext, Message}
use private_match_protocol.Message.Wire.{policy_json, participants_json, identity_get}
use private_match_protocol.Message.Kinds.{
  MessageType, session_acceptance, participant_binding, DeliveryClass, party_message,
  coordinator_command, profile_callback, class_name,
}
use private_match_protocol.Registry.{Entry}
use private_match_protocol.Runner.{party_of}

-- A finding where the condition holds, after those in the list.
abbrev pub report : Bool → String → String → String → List Finding → List Finding
report wrong code place detail fs = require (not wrong) (finding code place detail) fs

insert_text : String → List String → List String
insert_text s [] = s ∷ []
insert_text s (t ∷ ts) =
    let later = insert_text s ts in if is_lt (compare t s) then t ∷ later else s ∷ t ∷ ts

-- `sorted(texts)`
unfoldable pub sorted_texts : List String → List String
unfolding insert_text
sorted_texts [] = []
sorted_texts (s ∷ ss) = insert_text s (sorted_texts ss)

abbrev same_texts : List String → List String → Bool
same_texts [] [] = true
same_texts (s ∷ ss) (t ∷ ts) = str_eq s t && same_texts ss ts
same_texts _ _ = false

unfoldable pub version_findings : Message → Entry → List Finding
unfolding require finding class_name
version_findings m e =
    report (not (str_eq (class_name m.delivery_class) e.delivery_class)) "delivery-class" "message"
      "registry delivery class mismatch"
      (report (not (str_eq m.message_version e.message_version)) "message-version" "message"
        "message version mismatch"
        (report (not (str_eq m.protocol_version "0.1")) "protocol-version" "message"
          "protocol version mismatch"
          (report (not (str_eq m.protocol_profile "private-match-core")) "protocol-version"
            "message" "protocol profile mismatch" [])))

abbrev context_mismatch : Bool → String → List Finding → List Finding
context_mismatch wrong place fs = report wrong "context-binding" place "context mismatch" fs

-- The two contexts differ as a whole exactly where one of the seven members does.
unfoldable pub context_findings : SessionContext → SessionContext → List Finding → List Finding
unfolding require finding json_eq policy_json participants_json
context_findings actual expected fs =
    context_mismatch
      (not (json_eq actual.selected_integration_profile expected.selected_integration_profile))
      "message.session_context.selected_integration_profile"
      (context_mismatch (not (json_eq actual.evaluation_attempt_id expected.evaluation_attempt_id))
        "message.session_context.evaluation_attempt_id"
        (context_mismatch (not (json_eq actual.commitment_pair_id expected.commitment_pair_id))
          "message.session_context.commitment_pair_id"
          (context_mismatch (not (json_eq actual.intended_audience expected.intended_audience))
            "message.session_context.intended_audience"
            (context_mismatch
              (not (
                json_eq (participants_json actual.participants)
                  (participants_json expected.participants)))
              "message.session_context.participants"
              (context_mismatch
                (not (json_eq (policy_json actual.policy) (policy_json expected.policy)))
                "message.session_context.policy"
                (context_mismatch (not (str_eq actual.session_id expected.session_id))
                  "message.session_context.session_id" fs))))))

unfoldable pub sender_findings : Message → Entry → List Finding → List Finding
unfolding require finding sorted_texts
sender_findings m e fs =
    report (not (same_texts (sorted_texts m.audience) (sorted_texts e.intended_audience)))
      "audience-binding" "message.audience" "audience mismatch"
      (report (not (any e.allowed_senders (str_eq m.sender.actor))) "sender-binding"
        "message.sender" "sender is not allowed" fs)

-- `participants.get(party_slot) if party_slot else None`
abbrev expected_party : Option Party → SessionContext → Option PartyBinding
expected_party none c = none
expected_party (some p) c = slot c.participants p

abbrev is_establishing : MessageType → Bool
is_establishing session_acceptance = true
is_establishing participant_binding = true
is_establishing _ = false

abbrev bound_findings : Option PartyBinding → Message → List Finding → List Finding
bound_findings none m fs =
    report (not (is_establishing m.message_type)) "participant-binding"
      "message.sender.participant_id" "Party is not yet bound for this message type" fs
bound_findings (some b) m fs =
    report (not (json_eq (str m.sender.key_id) b.key_id)) "key-binding" "message.sender.key_id"
      "Party key mismatch"
      (report (not (json_eq m.sender.participant_id b.participant_id)) "participant-binding"
        "message.sender.participant_id" "participant mismatch" fs)

abbrev callback_finding : Bool → String → String → List Finding → List Finding
callback_finding agrees place detail fs = report (not agrees) "callback-binding" place detail fs

abbrev class_findings : DeliveryClass → Message → SessionContext → List Finding → List Finding
class_findings party_message m c fs =
    report (not (json_eq (identity_get "issued_at" m.identity) (str m.issued_at))) "message-time"
      "message.identity.issued_at" "replay issued_at mismatch"
      (report
        (not (json_eq (identity_get "sender_participant_id" m.identity) m.sender.participant_id))
        "participant-binding" "message.identity.sender_participant_id" "replay sender mismatch"
        (bound_findings (expected_party (party_of m.sender.actor) c) m fs))
class_findings coordinator_command m c fs =
    report
      (not (json_eq (identity_get "actor_id" m.identity) (str "coordinator"))
        || not (str_eq m.sender.actor "coordinator"))
      "operation-binding" "message.identity.actor_id" "operation actor mismatch" fs
class_findings profile_callback m c fs =
    let selected = c.selected_integration_profile in
    callback_finding
      (json_eq (identity_get "evaluation_attempt_id" m.identity) c.evaluation_attempt_id)
      "message.identity.evaluation_attempt_id" "callback context mismatch"
      (callback_finding (json_eq (identity_get "session_id" m.identity) (str c.session_id))
        "message.identity.session_id" "callback context mismatch"
        (callback_finding
          (json_eq (identity_get "profile_instance_id" m.identity)
            (member "profile_instance_id" selected))
          "message.identity.profile_instance_id" "profile callback mismatch"
          (callback_finding
            (json_eq (identity_get "profile_version" m.identity)
              (member "profile_version" selected))
            "message.identity.profile_version" "profile callback mismatch"
            (callback_finding
              (json_eq (identity_get "profile_id" m.identity) (member "profile_id" selected))
              "message.identity.profile_id" "profile callback mismatch" fs))))
class_findings _ m c fs = fs

unfoldable pub identity_findings : Message → SessionContext → List Finding → List Finding
unfolding require finding json_eq identity_get class_name party_of
identity_findings m c fs = class_findings m.delivery_class m c (
    report (not (json_eq (identity_get "kind" m.identity) (str (class_name m.delivery_class))))
      "delivery-class" "message.identity.kind" "identity class mismatch" fs)
