-- ===== src/Tests/Conformance.antt =====
-- The conformance runner at concrete cases.
use private_match_protocol.Prelude.{
  ℕ, ◌≡◌, refl, ◌⊎◌, true, false, Option, some, none, List, [], ◌∷◌, inr, ltb, str_eq, ◌+ℤ◌, ◌*ℤ◌,
}
use private_match_protocol.Json.{Json, null, str, obj, nil, Fields, end, field, put}
use private_match_protocol.Findings.{Finding}
use private_match_protocol.Phases.{evaluating}
use private_match_protocol.Digest.Errors.{Outcome, ok}
use private_match_protocol.Runner.{Runner, new_runner}
use private_match_protocol.LocalResults.{apply_profile_local_result_fixture}
use private_match_protocol.LocalResults.Laws.{SupplyOutcomes, apply_fixture-Outcomes}
use private_match_protocol.Digest.{value_in_domain, append_transcript}
use private_match_protocol.Digest.Bytes.{digest_input, parse_digest}
use private_match_protocol.Times.{replace_zulu}
use private_match_protocol.Message.Wire.{authentication_input}
use private_match_protocol.Dedup.{classify}
use private_match_protocol.Dedup.Records.{response_ref}
use private_match_protocol.Semantics.{semantic_message_findings}
use private_match_protocol.Runner.{current_context}
use private_match_protocol.Materials.{authenticated_subject_parameter}
use private_match_protocol.Transcript.{accept_message}
use private_match_protocol.Runner.Apply.{apply}
use private_match_protocol.Runner.Guards.{unmet}
use private_match_protocol.Runner.Setup.{proposal_guards, propose}
use private_match_protocol.Conformance.Inputs.{fail, not_evaluated, trace_fixture, message_entry}
use private_match_protocol.Conformance.Engine.{
  Case, ExecutionActual, execute_case, reviewed_skip_applies, work_units,
}
use private_match_protocol.Conformance.Executed.{Executed, execute_case-Executed}
use private_match_protocol.Conformance.Unevaluated.{Unevaluated, execute_case-Unevaluated}
use private_match_protocol.Tests.Data.{
  hashing, platform, context, proposal, registry, materials, new_session,
}

-- `str.lower` on texts without capitals.
abbrev pub lower : List ℕ → List ℕ
lower cs = cs

abbrev always_run : Json
always_run = obj (field "kind" (str "always-run") end)

abbrev one_case : Case
one_case = record {
  context = context;
  execution_precondition = always_run;
  adapters = nil;
  authentication_mode = "fixture-preverified/v0.1";
  materials = materials;
  max_operation_steps = 10;
  ordered_inputs = trace_fixture (message_entry proposal ∷ []) ∷ [];
}

abbrev executed : Outcome ExecutionActual
executed = execute_case platform lower registry one_case

abbrev actual_of : Outcome ExecutionActual → Option ExecutionActual
actual_of (ok a) = some a
actual_of _ = none

abbrev evaluating_session : Runner
evaluating_session = record new_session {
  phase = evaluating;
  contributions = record { slot_a = str "a"; slot_b = str "b" };
}

abbrev fixture : Fields
fixture = field "artifact_status" (str "test-only") (
    field "cryptographic_validity" (str "not-evaluated") (
      field "evaluation_attempt_id" null (
        field "kind" (str "profile-local-result-fixture") (
          field "opaque_receipt_ref" (str "receipt") (
            field "party_local_results"
              (obj (field "a" (str "MATCH") (field "b" (str "MATCH") end)))
              (field "profile_binding" null (
                field "schema_version" (str "0.1") (field "session_id" (str "session-1") end))))))))

abbrev supplied : Outcome (List Finding × Runner)
supplied = apply_profile_local_result_fixture hashing evaluating_session fixture

abbrev supplied_of : Outcome (List Finding × Runner) → List Finding × Runner
supplied_of (ok x) = x
supplied_of _ = ([], new_session)

supplied_at : supplied ≡ ok ([], (supplied_of supplied).1)
unfolding apply_profile_local_result_fixture new_runner
supplied_at = refl

apply_fixture-Outcomes_example :
    SupplyOutcomes hashing evaluating_session fixture [] (supplied_of supplied).1
apply_fixture-Outcomes_example =
    apply_fixture-Outcomes hashing evaluating_session fixture supplied_at

abbrev pub blank : ExecutionActual
blank = record {
  status = fail;
  protocol_outcome = not_evaluated;
  error_codes = [];
  initial_state_digest = "";
  final_state_digest = "";
  initial_transcript_head = "";
  final_transcript_head = "";
  accepted_event_count = 0;
  mutation_summary = record { state = false; transcript = false; budget = false; audit = false };
  terminal_phase = none;
  limitations = [];
  cached_response_authorized = none;
  local_result_state = record { slot_a = null; slot_b = null };
  work_units = 0;
  initial_state_projection = null;
  final_state_projection = null;
}

abbrev value_of : Outcome ExecutionActual → ExecutionActual
value_of (ok a) = a
value_of _ = blank

abbrev pub report : ExecutionActual
report = value_of executed

executed_at : executed ≡ ok report
unfolding execute_case digest_input value_in_domain authentication_input classify
    semantic_message_findings current_context replace_zulu ◌+ℤ◌ ◌*ℤ◌ authenticated_subject_parameter
    apply unmet proposal_guards accept_message append_transcript parse_digest response_ref propose
executed_at = refl

execute_case-Executed_example : Executed one_case report
execute_case-Executed_example = execute_case-Executed platform lower registry one_case executed_at

abbrev small_case : Case
small_case = record one_case { max_operation_steps = 0 }

abbrev late : Outcome ExecutionActual
late = execute_case platform lower registry small_case

late_at : late ≡ ok (value_of late)
unfolding execute_case digest_input value_in_domain
late_at = refl

runs : reviewed_skip_applies always_run nil ≡ ok false
unfolding reviewed_skip_applies put
runs = refl

over_budget :
    (false ≡ true)
    ⊎ ((str_eq small_case.authentication_mode "unsupported-real-algorithm/v0.1" ≡ true)
        ⊎ (ltb small_case.max_operation_steps (work_units small_case.ordered_inputs) ≡ true))
unfolding work_units
over_budget = inr (inr refl)

execute_case-Unevaluated_example : Unevaluated (value_of late)
execute_case-Unevaluated_example =
    execute_case-Unevaluated platform lower registry small_case false runs over_budget late_at
