-- ===== src/LocalResults.antt =====
-- `apply_profile_local_result_fixture` of scripts/validate_messages.py: the test-only precondition that
-- gives the runner the two Party-local results of the selected profile.
pub mod Laws
use private_match_protocol.Prelude.{
  String, Bool, true, false, ◌&&◌, not, List, [], ◌∷◌, ◌++◌, any, str_eq, if◌then◌else◌,
}
use private_match_protocol.Json.{
  Json, null, str, arr, obj, Fields, end, field, get, has, truthy, json_eq,
}
use private_match_protocol.Findings.{Finding, finding, require, sorted_set}
use private_match_protocol.Phases.{evaluating, phase_eq, Slots, both, either}
use private_match_protocol.Digest.Errors.{Outcome, ok, crashed, ◌>>=◌}
use private_match_protocol.Digest.{Hashing}
use private_match_protocol.Runner.{Runner}
use private_match_protocol.Runner.Evaluation.{is_plaintext_result, is_low_entropy}

abbrev names_within : Fields → List String → Bool
names_within end names = true
names_within (field k v fs) names = any names (str_eq k) && names_within fs names

abbrev has_all : List String → Fields → Bool
has_all [] fs = true
has_all (k ∷ names) fs = has k fs && has_all names fs

-- `set(fs) == names`
unfoldable pub names_are : List String → Fields → Bool
unfolding has
names_are names fs = names_within fs names && has_all names fs

abbrev required_fields : List String
required_fields =
    "schema_version" ∷ "kind" ∷ "artifact_status" ∷ "cryptographic_validity" ∷ "profile_binding"
    ∷ "session_id" ∷ "evaluation_attempt_id" ∷ "party_local_results" ∷ "opaque_receipt_ref" ∷ []

abbrev binding_finding : String → String → Finding
binding_finding place detail = finding "profile-local-result-fixture" place detail

-- `value in PLAINTEXT_RESULTS`, which raises a TypeError for a list or a dict.
abbrev plaintext_value : Json → Outcome Bool
plaintext_value (arr xs) = crashed
plaintext_value (obj fs) = crashed
plaintext_value v = ok (is_plaintext_result v)

-- `any(value not in PLAINTEXT_RESULTS for value in results.values())`
abbrev some_not_plaintext : Fields → Outcome Bool
some_not_plaintext end = ok false
some_not_plaintext (field k v fs) =
    let later = some_not_plaintext fs in
    (do plain ← plaintext_value v; if plain then later else ok true)

abbrev judge_results : Bool → Finding → Slots Json → List Finding × Slots Json
judge_results true shape slots = (shape ∷ [], slots)
judge_results false shape slots = (
  if json_eq slots.slot_a slots.slot_b
      then []
      else finding "local-result-symmetry" "fixture.party_local_results"
          "Party-local proposed results differ"
        ∷ [],
  slots,
)

-- The results in their two slots, or the finding on them.
abbrev result_findings : Json → Outcome (List Finding × Slots Json)
result_findings (obj results) =
    let slots : Slots Json = record { slot_a = get "a" results; slot_b = get "b" results } in
    let shape =
      binding_finding "fixture.party_local_results"
        "both reviewed Party slots require a three-value local result" in
    if names_are ("a" ∷ "b" ∷ []) results
    then (do
      refused_value ← some_not_plaintext results
      ok (judge_results refused_value shape slots))
    else ok (shape ∷ [], slots)
result_findings _ = ok (
  binding_finding "fixture.party_local_results"
        "both reviewed Party slots require a three-value local result"
      ∷ [],
  record { slot_a = null; slot_b = null },
)

abbrev text_is : Json → Bool
text_is (str s) = true
text_is _ = false

-- `if findings:` before the commit.
abbrev commit_results : List Finding → Slots Json → Runner → List Finding × Runner
commit_results [] results r = ([], record r { proposed_result_state = results })
commit_results (f ∷ fs) results r = (sorted_set (f ∷ fs), r)

unfoldable pub identity_findings : Runner → Fields → List Finding → List Finding
unfolding names_are get json_eq require finding
identity_findings r fixture fs =
    let session_id = r.base_context.session_context.session_id in
    require
      (json_eq (get "session_id" fixture) (str session_id)
        && (json_eq (get "evaluation_attempt_id" fixture) r.evaluation_attempt_id
            && json_eq (get "profile_binding" fixture) r.selected_integration_profile))
      (finding "profile-local-result-binding" "fixture"
        "profile, session, or evaluation-attempt binding mismatch")
      (require
        (json_eq (get "schema_version" fixture) (str "0.1")
          && (json_eq (get "kind" fixture) (str "profile-local-result-fixture")
              && (json_eq (get "artifact_status" fixture) (str "test-only")
                  && json_eq (get "cryptographic_validity" fixture) (str "not-evaluated"))))
        (binding_finding "fixture" "fixture identity or test-only boundary is invalid")
        (require (names_are required_fields fixture)
          (binding_finding "fixture" "closed fixture fields do not match the reviewed contract")
          fs))

unfoldable pub state_findings : Hashing → Runner → Fields → List Finding → List Finding
unfolding get require finding is_low_entropy
state_findings h r fixture fs =
    let receipt = get "opaque_receipt_ref" fixture in
    require (text_is receipt && not (is_low_entropy h receipt))
      (finding "low-entropy-receipt" "fixture.opaque_receipt_ref"
        "receipt construction is missing or low entropy")
      (require
        (phase_eq r.phase evaluating
          && (both truthy r.contributions && not (either truthy r.proposed_result_state)))
        (finding "profile-local-result-state" "fixture"
          "local results require completed contributions and empty result slots")
        fs)

-- apply_profile_local_result_fixture
unfoldable pub apply_profile_local_result_fixture :
    Hashing → Runner → Fields → Outcome (List Finding × Runner)
unfolding get has names_are json_eq finding sorted_set is_plaintext_result identity_findings
    state_findings
apply_profile_local_result_fixture h r fixture = do
  (fs, results) ← result_findings (get "party_local_results" fixture)
  ok (commit_results (state_findings h r fixture (identity_findings r fixture [] ++ fs)) results r)
