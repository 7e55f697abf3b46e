-- ===== src/Tests/Pet.antt =====
-- The evidence of an acknowledgment at a concrete binding.
use private_match_protocol.Prelude.{◌≡◌, refl, ◌↔◌}
use private_match_protocol.Json.{str, obj, Fields, end, field, get, put}
use private_match_protocol.Digest.Errors.{ok}
use private_match_protocol.Digest.{value_in_domain}
use private_match_protocol.Pet.Evidence.{acknowledgment_evidence_digest, acknowledged_binding}
use private_match_protocol.Pet.Evidence.Rows.{Bound}
use private_match_protocol.Pet.Evidence.Bound.{acknowledged_binding_iff, evidence_digest-sealed}
use private_match_protocol.Tests.Data.{hashing, zero_digest}

abbrev binding : Fields
binding = field "acknowledging_party_slot" (str "party_a") (
    field "evaluation_attempt_id" (str "attempt-1") (
      field "normalized_acknowledgment_status" (str "ACKNOWLEDGED") (
        field "opaque_receipt_ref" (str zero_digest) (
          field "participant_binding_digest" (str zero_digest) (
            field "profile_digest" (str zero_digest) (
              field "profile_evidence_ref" (str "evidence-1") (
                field "profile_id" (str "profile-a") (
                  field "profile_instance_id" (str "instance-1") (
                    field "profile_version" (str "0.3")
                      (field "session_id" (str "session-1") end))))))))))

abbrev observed : Fields
observed = field "evaluation_attempt_id" (str "attempt-1") (
    field "opaque_receipt_ref" (str zero_digest) (
      field "participant_binding_digest" (str zero_digest)
        (field "session_id" (str "session-1") end)))

abbrev authority : Fields
authority = field "profile_digest" (str zero_digest) (
    field "profile_id" (str "profile-a")
      (field "profile_instance_id" (str "instance-1") (field "profile_version" (str "0.3") end)))

abbrev sealed : Fields
sealed = put "profile_evidence_binding_digest" (str zero_digest) binding

acknowledged_binding_iff_example :
    (acknowledged_binding hashing "party_a" observed authority (obj sealed) ≡ ok sealed)
    ↔ Bound hashing "party_a" observed authority (obj sealed) sealed
acknowledged_binding_iff_example =
    acknowledged_binding_iff hashing "party_a" observed authority (obj sealed) sealed

accepted : acknowledged_binding hashing "party_a" observed authority (obj sealed) ≡ ok sealed
unfolding acknowledged_binding value_in_domain put
accepted = refl

evidence_digest-sealed_example :
    (acknowledgment_evidence_digest hashing sealed ≡ acknowledgment_evidence_digest hashing binding)
    × (get "profile_evidence_binding_digest" sealed ≡ str zero_digest)
evidence_digest-sealed_example = evidence_digest-sealed hashing binding (str zero_digest)
