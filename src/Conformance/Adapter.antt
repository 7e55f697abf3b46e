-- ===== src/Conformance/Adapter.antt =====
-- `compare` of scripts/compare_adapter_result.py: an independent adapter's result against the expected
-- result of one case.
pub mod Accepts
use private_match_protocol.Prelude.{
  String, Bool, true, false, ◌&&◌, not, List, [], ◌∷◌, ◌++◌, str_eq, if◌then◌else◌,
}
use private_match_protocol.Json.{Json, str, obj, bool, Fields, end, field, get, json_eq}
use private_match_protocol.Texts.{sorted_set}
use private_match_protocol.Digest.Errors.{Outcome, ok, ◌>>=◌}
use private_match_protocol.Digest.{Hashing}
use private_match_protocol.Conformance.Projection.{object}
use private_match_protocol.Conformance.Digests.{artifact_digest, a_result}

-- The `expected` of a case, whose mutation assertions are those of `ExecutionActual`.
pub record Expected : Type 0 where
  pub runner_status : Json
  pub protocol_outcome : Json
  pub error_codes : Json
  pub initial_state_digest : Json
  pub state_digest : Json
  pub initial_transcript_head : Json
  pub transcript_head : Json
  pub accepted_event_count : Json
  pub mutation_assertions : Fields
  pub cached_response_authorized : Json

-- The members of the case and of the suite manifest that the comparison reads.
pub record Fixed : Type 0 where
  pub case_id : Json
  pub case_digest : Json
  pub conformance_input_digest : Json
  pub suite_id : Json
  pub suite_version : Json
  pub suite_digest : Json
  pub expected : Expected

-- An adapter result that its schema has accepted: `limitations` is an array of texts, and the members
-- `adapter` is an object, with the `id` that is read here.
pub record AdapterResult : Type 0 where
  pub members : Fields
  pub limitations : List String
  pub adapter_id : Json

pub data Mode : Type 0 where
  normal test_fixture other_mode : Mode

abbrev test_fixture_limitations : List String
test_fixture_limitations =
    "Synthetic offline comparison fixture; not an independent implementation or interoperability certification."
    ∷ []

abbrev pub same_texts : List String → List String → Bool
same_texts [] [] = true
same_texts (s ∷ ss) (t ∷ ts) = str_eq s t && same_texts ss ts
same_texts _ _ = false

-- `{key: value == "changed" for key, value in …}`
unfoldable pub expected_mutation : Fields → Fields
expected_mutation end = end
expected_mutation (field k v fs) = field k (bool (json_eq v (str "changed"))) (expected_mutation fs)

abbrev pub exact : Fixed → List (String × Json × String)
exact f =
    let e = f.expected in
    (
      "suite",
      object (("id", f.suite_id) ∷ ("version", f.suite_version) ∷ ("digest", f.suite_digest) ∷ []),
      "CONFORMANCE-SUITE-DIGEST",
    )
    ∷ (
      "case",
      object (
          ("id", f.case_id)
          ∷ ("digest", f.case_digest)
          ∷ ("input_digest", f.conformance_input_digest)
          ∷ []),
      "CONFORMANCE-CASE-DIGEST",
    )
    ∷ ("status", e.runner_status, "CONFORMANCE-STATUS-MISMATCH")
    ∷ ("protocol_outcome", e.protocol_outcome, "CONFORMANCE-EXPECTED-MISMATCH")
    ∷ ("error_codes", e.error_codes, "CONFORMANCE-ERROR-CODE-MISMATCH")
    ∷ ("initial_state_digest", e.initial_state_digest, "CONFORMANCE-INITIAL-STATE-DIGEST-MISMATCH")
    ∷ ("final_state_digest", e.state_digest, "CONFORMANCE-STATE-DIGEST-MISMATCH")
    ∷ (
      "initial_transcript_head", e.initial_transcript_head,
      "CONFORMANCE-INITIAL-TRANSCRIPT-DIGEST-MISMATCH",
    )
    ∷ ("final_transcript_head", e.transcript_head, "CONFORMANCE-TRANSCRIPT-DIGEST-MISMATCH")
    ∷ ("accepted_event_count", e.accepted_event_count, "CONFORMANCE-ACCEPTED-COUNT-MISMATCH")
    ∷ (
      "mutation_summary",
      obj (expected_mutation e.mutation_assertions),
      "CONFORMANCE-MUTATION-MISMATCH",
    )
    ∷ (
      "cached_response_authorized", e.cached_response_authorized,
      "CONFORMANCE-CACHED-RESPONSE-MISMATCH",
    )
    ∷ []

-- The loop over `exact`.
unfoldable pub field_errors : Fields → List (String × Json × String) → List String
field_errors fs [] = []
field_errors fs ((k, v, code) ∷ rows) =
    let later = field_errors fs rows in if json_eq (get k fs) v then later else code ∷ later

abbrev pub error_unless : Bool → String → List String
error_unless true code = []
error_unless false code = code ∷ []

abbrev is_synthetic : AdapterResult → Bool
is_synthetic a = json_eq a.adapter_id (str "synthetic-offline-adapter-fixture")

-- The condition that each mode puts on the result.
unfoldable pub mode_holds : Mode → AdapterResult → Bool
mode_holds test_fixture a =
    json_eq (get "adapter_mode" a.members) (str "test-fixture")
    && (json_eq (get "artifact_status" a.members) (str "test-only")
        && (is_synthetic a && same_texts a.limitations test_fixture_limitations))
mode_holds normal a =
    json_eq (get "adapter_mode" a.members) (str "independent-result")
    && (json_eq (get "artifact_status" a.members) (str "draft")
        && (not (is_synthetic a) && not (same_texts a.limitations [])))
mode_holds other_mode a = false

abbrev pub all_errors : Fixed → Mode → AdapterResult → String → List String
all_errors f mode a digest =
    field_errors a.members (exact f)
    ++ (error_unless (json_eq (get "result_digest" a.members) (str digest))
          "CONFORMANCE-ADAPTER-RESULT-DIGEST"
        ++ (error_unless (same_texts a.limitations (sorted_set a.limitations))
              "CONFORMANCE-LIMITATIONS-BOUNDARY"
            ++ error_unless (mode_holds mode a) "CONFORMANCE-ADAPTER-MODE"))

-- compare
unfoldable pub compare : Hashing → AdapterResult → Fixed → Mode → Outcome (List String)
unfolding field_errors mode_holds json_eq get sorted_set artifact_digest
compare h a f mode = do
  digest ← artifact_digest h a_result a.members
  ok (sorted_set (all_errors f mode a digest))
