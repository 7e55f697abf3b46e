-- ===== src/Conformance/Results.antt =====
-- `build_result` and `_run_set_manifest` of scripts/run_conformance.py: the records of a run that are
-- written to files. The digests of the verifier and of the written files are given.
pub mod Sealed
use private_match_protocol.Prelude.{
  ℕ, String, Bool, true, false, ◌+◌, List, [], ◌∷◌, ◌++◌, pos, map, if◌then◌else◌,
}
use private_match_protocol.Json.{Json, bool, int, str, arr, Items, nil, cons, Fields, put}
use private_match_protocol.Texts.{sorted_set}
use private_match_protocol.Message.Wire.{texts}
use private_match_protocol.Digest.Errors.{Outcome, ok, refused, ◌>>=◌}
use private_match_protocol.Digest.{Hashing}
use private_match_protocol.Conformance.Projection.{object, members, domain_digest}
use private_match_protocol.Conformance.Digests.{artifact_digest, a_result, a_run_set}
use private_match_protocol.Conformance.Inputs.{
  RunStatus, pass, fail, skip, unsupported, timeout, tool_error,
}
use private_match_protocol.Conformance.Engine.{ExecutionActual, MutationSummary}
use private_match_protocol.Conformance.Compare.{
  compare_actual_to_expected, status_name, outcome_name, optional_text, optional_bool,
}

-- The members of the case, of the suite manifest and of the implementation that a result names.
pub record Named : Type 0 where
  pub suite : Json
  pub case_reference : Json
  pub protocol_pins : Json
  pub verifier : Json
  pub adapter_id : Json
  pub adapter_version : Json
  pub adapter_digest : Json
  pub case_limitations : List String

abbrev pub zero_text : String
zero_text = "sha256:0000000000000000000000000000000000000000000000000000000000000000"

abbrev schema_url : Json
schema_url = str "https://json-schema.org/draft/2020-12/schema"

abbrev mutation_json : MutationSummary → Json
mutation_json s = object (
    ("state", bool s.state)
    ∷ ("transcript", bool s.transcript)
    ∷ ("budget", bool s.budget)
    ∷ ("audit", bool s.audit)
    ∷ [])

abbrev adapter_json : Named → Json
adapter_json n = object (
    ("id", n.adapter_id)
    ∷ ("version", n.adapter_version)
    ∷ ("digest", n.adapter_digest)
    ∷ ("cryptographic_validity", str "not-evaluated")
    ∷ [])

-- The result before its digest is computed, for a verdict of the runner.
abbrev pub draft_result : Named → ExecutionActual → RunStatus × List String × Bool → Fields
draft_result n a (status, codes, matched) = members (
    ("$schema", schema_url)
    ∷ ("schema_version", str "0.1")
    ∷ ("suite", n.suite)
    ∷ ("case", n.case_reference)
    ∷ ("protocol_pins", n.protocol_pins)
    ∷ ("verifier", n.verifier)
    ∷ ("adapter", adapter_json n)
    ∷ ("status", str (status_name status))
    ∷ ("protocol_outcome", str (outcome_name a.protocol_outcome))
    ∷ ("terminal_phase", optional_text a.terminal_phase)
    ∷ ("expected_match", bool matched)
    ∷ ("error_codes", arr (texts codes))
    ∷ ("initial_state_digest", str a.initial_state_digest)
    ∷ ("final_state_digest", str a.final_state_digest)
    ∷ ("initial_transcript_head", str a.initial_transcript_head)
    ∷ ("final_transcript_head", str a.final_transcript_head)
    ∷ ("accepted_event_count", int (pos a.accepted_event_count))
    ∷ ("mutation_summary", mutation_json a.mutation_summary)
    ∷ ("cached_response_authorized", optional_bool a.cached_response_authorized)
    ∷ ("deterministic_work_units", int (pos a.work_units))
    ∷ ("limitations", arr (texts (sorted_set (n.case_limitations ++ a.limitations))))
    ∷ ("artifact_status", str "draft")
    ∷ ("result_digest", str zero_text)
    ∷ [])

-- One result of a run, with the place and the digest of its file.
pub record RunEntry : Type 0 where
  pub case_id : Json
  pub place : String
  pub stored_digest : Json
  pub file_digest : String
  pub status : RunStatus

abbrev same_status : RunStatus → RunStatus → Bool
same_status pass pass = true
same_status fail fail = true
same_status skip skip = true
same_status unsupported unsupported = true
same_status timeout timeout = true
same_status tool_error tool_error = true
same_status _ _ = false

-- `sum(item["status"] == status for item in entries)`
unfoldable pub count_status : RunStatus → List RunEntry → ℕ
count_status status [] = 0
count_status status (e ∷ es) =
    let rest = count_status status es in if same_status e.status status then rest + 1 else rest

abbrev counts_json : List RunEntry → Json
counts_json es = object (
    ("pass", int (pos (count_status pass es)))
    ∷ ("fail", int (pos (count_status fail es)))
    ∷ ("skip", int (pos (count_status skip es)))
    ∷ ("unsupported", int (pos (count_status unsupported es)))
    ∷ ("timeout", int (pos (count_status timeout es)))
    ∷ ("tool-error", int (pos (count_status tool_error es)))
    ∷ [])

abbrev entry_json : RunEntry → Json
entry_json e = object (
    ("case_id", e.case_id)
    ∷ ("path", str e.place)
    ∷ ("result_digest", e.stored_digest)
    ∷ ("file_digest", str e.file_digest)
    ∷ ("status", str (status_name e.status))
    ∷ [])

abbrev file_json : RunEntry → Json
file_json e = object (("path", str e.place) ∷ ("file_digest", str e.file_digest) ∷ [])

abbrev list_json : List Json → Items
list_json [] = nil
list_json (v ∷ vs) = cons v (list_json vs)

-- The manifest before its digest is computed.
abbrev pub draft_manifest : Json → String → List RunEntry → String → Fields
draft_manifest suite_digest implementation_digest es tree = members (
    ("$schema", schema_url)
    ∷ ("schema_version", str "0.1")
    ∷ ("artifact_status", str "draft")
    ∷ ("suite_digest", suite_digest)
    ∷ ("verifier_implementation_digest", str implementation_digest)
    ∷ ("case_ids", arr (list_json (map (λ (e : RunEntry). e.case_id) es)))
    ∷ ("results", arr (list_json (map entry_json es)))
    ∷ ("complete_result_tree_digest", str tree)
    ∷ ("status_counts", counts_json es)
    ∷ ("run_set_digest", str zero_text)
    ∷ [])

module _ (h : Hashing) where
  -- build_result. `schema_accepts` is the validator of the result's schema.
  unfoldable pub build_result : (Fields → Bool) → Named → ExecutionActual → Json → Outcome Fields
  unfolding put artifact_digest compare_actual_to_expected status_name outcome_name texts sorted_set
  build_result schema_accepts n a expected =
      let draft = draft_result n a (compare_actual_to_expected a expected) in
      (do
        digest ← artifact_digest h a_result draft
        (if schema_accepts (put "result_digest" (str digest) draft)
            then ok (put "result_digest" (str digest) draft)
            else refused "CONFORMANCE-RUN-RESULT-SCHEMA"))

  -- _run_set_manifest
  unfoldable pub run_set_manifest : Json → String → List RunEntry → Outcome Fields
  unfolding put artifact_digest domain_digest status_name texts count_status
  run_set_manifest suite_digest implementation_digest es = do
    tree ←
        domain_digest h "private-match-conformance-result-tree/v0.1"
          (arr (list_json (map file_json es)))
    digest ← artifact_digest h a_run_set (draft_manifest suite_digest implementation_digest es tree)
    ok (
        put "run_set_digest" (str digest)
          (draft_manifest suite_digest implementation_digest es tree))
