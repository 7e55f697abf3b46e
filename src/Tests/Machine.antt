-- ===== src/Tests/Machine.antt =====
-- The guards and the records of the session state machine at concrete inputs.
use private_match_protocol.Prelude.{
  ◌≡◌, refl, ◌↔◌, ◌≢◌, String, some, none, List, [], ◌∷◌, ◌++◌, pos, arith, true, eq_iff, ℕ,
}
use private_match_protocol.Json.{Json, null, str, int, obj, Fields, end, field, put}
use private_match_protocol.Phases.{consent_pending, evaluating, consumed, authorized}
use private_match_protocol.Keyed.{Key, key_eq, find, unique_index}
use private_match_protocol.Keyed.Laws.{only, occurrences}
use private_match_protocol.Keyed.Unique.{find-unique_index}
use private_match_protocol.Materials.{Material, find_material, coordinator_subject}
use private_match_protocol.Materials.Duplicates.{material_registry_findings}
use private_match_protocol.Materials.Duplicates.Unique.{find_material-registered}
use private_match_protocol.Machine.Disclosure.{DisclosureState}
use private_match_protocol.Machine.Disclosure.Authorized.{Authorized}
use private_match_protocol.Machine.Abort.{Failure, AbortState}
use private_match_protocol.Machine.Bindings.{message_time_failures}
use private_match_protocol.Machine.Bindings.Window.{InWindow, message_time_iff}
use private_match_protocol.Machine.Retry.{
  MessageRecord, IdRecord, KeyRecord, exact_duplicate, message_response_outcome,
  independent_idempotency_outcome,
}
use private_match_protocol.Machine.Retry.Laws.{
  Held, idempotency_iff, Recognised, recorded, recorded_retry, recorded_elsewhere,
}
use private_match_protocol.Materials.Requesters.{requester_fixture_findings}
use private_match_protocol.Materials.Requesters.Trusted.{AllTrusted, requesters_iff}
use private_match_protocol.Tests.Data.{hashing, materials}

abbrev both_match : Json
both_match = obj (field "A" (str "MATCH") (field "B" (str "MATCH") end))

abbrev consent : Fields
consent = field "artifact_digest" (str "digest") (
    field "consent_nonce" (str "nonce") (
      field "disclosure_profile_ref" (str "profile-1") (
        field "expires_at" (int (pos 90)) (
          field "issued_at" (int (pos 5))
            (field "session_id" (str "session-1") (field "status" (str "valid") end))))))

abbrev pending : DisclosureState
pending = record {
  phase = consent_pending;
  accepted_result_state = both_match;
  disclosure_profile_ref = some "profile-1";
  consent = record { slot_a = some consent; slot_b = some consent };
  authoritative_time = int (pos 10);
  session_expires_at = int (pos 100);
  session_id = str "session-1";
  participant_binding = null;
  opaque_receipt_ref = null;
  disclosure_scope = null;
  intended_audience = null;
}

abbrev taxonomy : List Failure
taxonomy =
    record {
      code = "RESULT_CONFLICT";
      disposition = "session-abort";
      party_error_category = "RESULT_ERROR";
    }
    ∷ []

abbrev evaluation : AbortState
evaluation = record {
  phase = evaluating;
  terminal_failure_code = none;
  party_terminal_category = none;
  disclosure_state = authorized;
  query_budget_state = consumed;
  evaluation_started = true;
}

message_time_iff_example :
    (message_time_failures (pos 100) (pos 90) (pos 5) (pos 30) ≡ [])
    ↔ InWindow (pos 100) (pos 90) (pos 5) (pos 30)
message_time_iff_example = message_time_iff (pos 100) (pos 90) (pos 5) (pos 30)

abbrev by_id : List (Key × IdRecord)
by_id =
    (
      "operation" ∷ "op-1" ∷ [],
      record {
        idempotency_key = "idem-1";
        canonical_digest = "digest";
        normalized_response = some "response";
      },
    )
    ∷ []

abbrev by_key : List (Key × KeyRecord)
by_key =
    (
      "operation" ∷ "idem-1" ∷ [],
      record {
        identifier = "op-1";
        canonical_digest = "digest";
        normalized_response = some "response";
      },
    )
    ∷ []

idempotency_iff_example :
    (independent_idempotency_outcome by_id by_key "operation" "op-1" "idem-1" "digest"
      ≡ exact_duplicate (some "response"))
    ↔ Held by_id by_key "operation" "op-1" "idem-1" "digest" "response"
idempotency_iff_example =
    idempotency_iff by_id by_key "operation" "op-1" "idem-1" "digest" "response"

abbrev stored : MessageRecord
stored = record {
  nonce = "nonce-1";
  sequence = pos 1;
  issued_at = pos 10;
  canonical_digest = "digest";
  normalized_response = some "response";
}

recorded_retry_example : Recognised stored "nonce-1" (pos 1) (pos 10) "digest" (
    message_response_outcome
      (recorded [] stored "session-1" "party-a" "m-1")
      "session-1"
      "party-a"
      "m-1"
      "nonce-1"
      (pos 1)
      (pos 10)
      "digest")
recorded_retry_example =
    recorded_retry [] stored "session-1" "party-a" "m-1" "nonce-1" (pos 1) (pos 10) "digest"

other_sender : (let s : String = "party-a" in s) ≢ "party-b"
other_sender e = absurd (let same = (eq_iff "party-a" "party-b").1 e in ground arith)

recorded_elsewhere_example :
    message_response_outcome
      (recorded [] stored "session-1" "party-a" "m-1")
      "session-1"
      "party-b"
      "m-1"
      "nonce-1"
      (pos 1)
      (pos 10)
      "digest"
    ≡ message_response_outcome [] "session-1" "party-b" "m-1" "nonce-1" (pos 1) (pos 10) "digest"
recorded_elsewhere_example =
    recorded_elsewhere [] stored "session-1" "party-a" "m-1" "session-1" "party-b" "m-1" "nonce-1"
      (pos 1) (pos 10) "digest" other_sender

abbrev signed : Material
signed = record (first_of materials) {
  verification_material_id = "material-2";
  subject_binding_id = "binding-2";
}
  where
    first_of : List Material → Material
    first_of (m ∷ ms) = m
    first_of [] = record {
      verification_material_id = "";
      mode = "";
      algorithm_id = "";
      key_id = "";
      status = "";
      not_before = "";
      not_after = "";
      subject_binding_id = "";
      subject_actor = "";
      subject_kind = coordinator_subject;
    }

nothing_found : material_registry_findings (materials ++ signed ∷ []) ≡ []
unfolding material_registry_findings
nothing_found = refl

find_material-registered_example :
    find_material (materials ++ signed ∷ []) "material-2" ≡ some signed
find_material-registered_example = find_material-registered materials [] signed nothing_found

abbrev repeated : List (Key × ℕ)
repeated = ("a" ∷ [], 1) ∷ ("b" ∷ [], 2) ∷ ("a" ∷ [], 3) ∷ []

find-unique_index_example :
    find ("b" ∷ []) (unique_index repeated) ≡ only (occurrences ("b" ∷ []) repeated)
find-unique_index_example = find-unique_index repeated ("b" ∷ [])

abbrev requesters : Fields
requesters =
    field "coordinator"
      (obj (
        field "actor" (str "coordinator") (
          field "key_id" (str "key-1") (
            field "subject_binding_id" (str "binding-1")
              (field "verification_material_id" (str "material-1") end)))))
      end

requesters_iff_example :
    (requester_fixture_findings hashing materials (obj requesters) ≡ [])
    ↔ AllTrusted hashing materials requesters
requesters_iff_example = requesters_iff hashing materials requesters

trusted : requester_fixture_findings hashing materials (obj requesters) ≡ []
unfolding requester_fixture_findings key_eq put
trusted = refl
