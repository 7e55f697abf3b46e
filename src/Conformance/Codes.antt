-- ===== src/Conformance/Codes.antt =====
-- `FINDING_TO_ERROR` and `_finding_codes` of scripts/conformance_engine.py: the normative error codes
-- of the findings of one input. A text is read as its code points, `codes`.
use private_match_protocol.Prelude.{
  ℕ, String, Bool, true, false, ◌&&◌, ◌||◌, List, [], ◌∷◌, ◌++◌, ◌==◌, map, str_eq, if◌then◌else◌,
  ◌≡◌, refl, arith,
}
use private_match_protocol.Findings.{Finding}
use private_match_protocol.Texts.{sorted_set, sorted_set-eq-nil}
use private_match_protocol.Digest.Bytes.{codes}

-- FINDING_TO_ERROR
abbrev pub finding_to_error : List (String × String)
finding_to_error =
    ("json-parse", "CONFORMANCE-INPUT-JSON")
    ∷ ("noncanonical-json", "CONFORMANCE-NONCANONICAL-JSON")
    ∷ ("schema", "CONFORMANCE-MESSAGE-SCHEMA")
    ∷ ("message-schema", "CONFORMANCE-MESSAGE-SCHEMA")
    ∷ ("unknown-message-type", "PROTOCOL_VERSION_MISMATCH")
    ∷ ("protocol-version", "PROTOCOL_VERSION_MISMATCH")
    ∷ ("message-version", "PROTOCOL_VERSION_MISMATCH")
    ∷ ("context-binding", "PARTICIPANT_MISMATCH")
    ∷ ("audience-binding", "AUDIENCE_MISMATCH")
    ∷ ("key-binding", "PARTICIPANT_MISMATCH")
    ∷ ("authentication-subject", "VERIFICATION_MATERIAL_MISSING")
    ∷ ("verification-material", "VERIFICATION_MATERIAL_MISSING")
    ∷ ("message-expired", "STALE_MESSAGE")
    ∷ ("stale-message", "STALE_MESSAGE")
    ∷ ("future-message", "STALE_MESSAGE")
    ∷ ("payload-digest", "COMMITMENT_MUTATION")
    ∷ ("message-digest", "COMMITMENT_MUTATION")
    ∷ ("prior-transcript", "REPLAY_CONFLICT")
    ∷ ("callback-binding", "RESULT_CONFLICT")
    ∷ ("prohibited-data", "DISCLOSURE_PROFILE_REQUIRED")
    ∷ ("plaintext-outcome", "DISCLOSURE_PROFILE_REQUIRED")
    ∷ ("failure-projection", "DISCLOSURE_PROFILE_REQUIRED")
    ∷ ("canonicalization", "CONFORMANCE-CANONICALIZATION")
    ∷ ("state-trace", "UNKNOWN_STATE")
    ∷ ("evaluation-deadline", "EVALUATION_DEADLINE_MISMATCH")
    ∷ ("timer-state", "CLOCK_DOMAIN_INVALID")
    ∷ ("timer-schema", "CONFORMANCE-CASE-SCHEMA")
    ∷ ("local-result-symmetry", "RESULT_CONFLICT")
    ∷ ("profile-local-result-binding", "RESULT_CONFLICT")
    ∷ ("profile-local-result-fixture", "RESULT_CONFLICT")
    ∷ ("profile-local-result-state", "UNKNOWN_STATE")
    ∷ ("low-entropy-receipt", "DISCLOSURE_PROFILE_REQUIRED")
    ∷ []

-- `rows.get(code, default)`
unfoldable lookup : String → List (String × String) → String → String
lookup default [] code = default
lookup default ((k, v) ∷ rows) code =
    let later = lookup default rows code in if str_eq k code then v else later

unfoldable starts_with : List ℕ → List ℕ → Bool
starts_with [] text = true
starts_with (c ∷ cs) [] = false
starts_with (c ∷ cs) (d ∷ ds) = (c == d) && starts_with cs ds

-- `part in text`
unfoldable contains : List ℕ → List ℕ → Bool
unfolding starts_with
contains part [] = starts_with part []
contains part (c ∷ cs) = starts_with part (c ∷ cs) || contains part cs

abbrev mentions : String → List ℕ → Bool
mentions part detail = contains (codes part) detail

abbrev context_code : List ℕ → String → String
context_code detail code =
    if mentions "session_id" detail
    then "SESSION_MISMATCH"
    else if mentions "policy" detail
    then "POLICY_VERSION_MISMATCH"
    else if mentions "commitment_pair_id" detail
    then "COMMITMENT_MUTATION"
    else if mentions "evaluation_attempt_id" detail
    then "UNKNOWN_STATE"
    else code

abbrev trace_code : List ℕ → String → String
trace_code detail code =
    if mentions "sequence does not equal" detail
    then "OUT_OF_ORDER"
    else if mentions "commitment" detail
    then "COMMITMENT_MUTATION"
    else if mentions "receipt" detail || mentions "symmetric party-local" detail
    then "RESULT_CONFLICT"
    else if mentions "scope" detail
    then "DISCLOSURE_SCOPE_MISMATCH"
    else if mentions "audience" detail
    then "AUDIENCE_MISMATCH"
    else if mentions "disclosure" detail || mentions "extension" detail
    then "DISCLOSURE_PROFILE_REQUIRED"
    else if mentions "consent" detail
    then "CONSENT_MISSING"
    else code

-- `lower` is `str.lower`.
module _ (lower : List ℕ → List ℕ) where
  -- The code of one finding.
  unfoldable pub finding_code : Finding → String
  unfolding lookup contains
  finding_code f =
      let detail = lower (codes f.place ++ (32 ∷ codes f.message)) in
      let code = lookup "CONFORMANCE-PROTOCOL-REJECTION" finding_to_error f.code in
      if str_eq f.code "verification-material" && mentions "expired" detail
      then "VERIFICATION_MATERIAL_EXPIRED"
      else if str_eq f.code "context-binding"
      then context_code detail code
      else if str_eq f.code "state-trace"
      then trace_code detail code
      else code

  -- _finding_codes
  unfoldable pub finding_codes : List Finding → List String
  unfolding finding_code sorted_set
  finding_codes fs = sorted_set (map finding_code fs)

  -- A finding has a code: findings never become the empty list of codes.
  pub finding_codes-eq-nil : (fs : List Finding) → finding_codes fs ≡ [] → fs ≡ []
  unfolding finding_codes
  finding_codes-eq-nil [] e = refl
  finding_codes-eq-nil (f ∷ fs) e =
      absurd (let none_left = sorted_set-eq-nil (map finding_code (f ∷ fs)) e in ground arith)
