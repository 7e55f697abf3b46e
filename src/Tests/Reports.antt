-- ===== src/Tests/Reports.antt =====
-- The comparison and the records of conformance reports at concrete cases.
use private_match_protocol.Prelude.{◌≡◌, refl, ◌↔◌, true, none, [], ◌∷◌, pos, ◌+ℤ◌, ◌*ℤ◌}
use private_match_protocol.Json.{
  Json, null, str, int, arr, nil, Fields, end, field, json_eq, get, put,
}
use private_match_protocol.Digest.Errors.{Outcome, ok}
use private_match_protocol.Runner.{new_runner}
use private_match_protocol.Digest.{value_in_domain, append_transcript}
use private_match_protocol.Digest.Bytes.{digest_input, format_digest, parse_digest}
use private_match_protocol.Times.{replace_zulu}
use private_match_protocol.Message.Wire.{authentication_input}
use private_match_protocol.Dedup.{classify, empty_registry}
use private_match_protocol.Dedup.Records.{
  response_ref, option_eq, subject_eq, kind_eq, operation_eq,
}
use private_match_protocol.Semantics.{semantic_message_findings}
use private_match_protocol.Runner.{current_context}
use private_match_protocol.Materials.{authenticated_subject_parameter}
use private_match_protocol.Transcript.{accept_message}
use private_match_protocol.Runner.Apply.{apply}
use private_match_protocol.Runner.Guards.{unmet}
use private_match_protocol.Runner.Setup.{proposal_guards, propose}
use private_match_protocol.Conformance.Inputs.{
  not_evaluated, trace_fixture, message_fixture, parsed, message_entry,
}
use private_match_protocol.Conformance.Engine.{ExecutionActual}
use private_match_protocol.Conformance.Compare.{
  Judged, expected_projection, compare_actual_to_expected, compare_actual_to_expected-Judged,
}
use private_match_protocol.Conformance.Digests.{
  artifact_digest, a_result, digest_member, artifact_digest-sealed,
}
use private_match_protocol.Conformance.Adapter.{AdapterResult, Fixed, normal, compare}
use private_match_protocol.Conformance.Adapter.Accepts.{Interoperable, compare_iff}
use private_match_protocol.Message.{Message, of_operation}
use private_match_protocol.Transcript.{conflict}
use private_match_protocol.Trace.{Traced, Session, plain, apply_trace_message_atomically}
use private_match_protocol.Conformance.Inputs.{
  Progress, pass, continue, run_input, run_trace, reject_with, settle, ended_or_accepted,
  in_final_phase,
}
use private_match_protocol.Conformance.Results.{Named, build_result}
use private_match_protocol.Conformance.Results.Sealed.{SealedResult, build_result-SealedResult}
use private_match_protocol.Tests.Data.{
  zero_digest, hashing, platform, proposal, registry, materials, fresh,
}
use private_match_protocol.Tests.Conformance.{lower, report, blank}

abbrev expected : Json
expected = expected_projection report

compare_actual_to_expected-Judged_example :
    Judged report
      (json_eq (expected_projection report) expected)
      (compare_actual_to_expected report expected)
compare_actual_to_expected-Judged_example = compare_actual_to_expected-Judged report expected

abbrev result : Fields
result = field "artifact_status" (str "draft") (field "status" (str "pass") end)

result_digested : artifact_digest hashing a_result result ≡ ok zero_digest
unfolding artifact_digest value_in_domain digest_input
result_digested = refl

artifact_digest-sealed_example :
    (artifact_digest hashing a_result (put (digest_member a_result) (str zero_digest) result)
      ≡ ok zero_digest)
    × (get (digest_member a_result) (put (digest_member a_result) (str zero_digest) result)
        ≡ str zero_digest)
artifact_digest-sealed_example =
    artifact_digest-sealed hashing a_result result zero_digest result_digested

abbrev adapter_result : AdapterResult
adapter_result = record {
  members = put "result_digest" (str zero_digest) result;
  limitations = "synthetic" ∷ [];
  adapter_id = str "adapter-1";
}

abbrev fixed : Fixed
fixed = record {
  case_id = str "case-1";
  case_digest = str zero_digest;
  conformance_input_digest = str zero_digest;
  suite_id = str "suite-1";
  suite_version = str "0.1";
  suite_digest = str zero_digest;
  expected = record {
    runner_status = str "pass";
    protocol_outcome = str "accepted";
    error_codes = arr nil;
    initial_state_digest = str zero_digest;
    state_digest = str zero_digest;
    initial_transcript_head = str zero_digest;
    transcript_head = str zero_digest;
    accepted_event_count = int (pos 1);
    mutation_assertions = field "state" (str "changed") end;
    cached_response_authorized = null;
  };
}

compare_iff_example :
    (compare hashing adapter_result fixed normal ≡ ok [])
    ↔ Interoperable hashing adapter_result fixed normal
compare_iff_example = compare_iff hashing adapter_result fixed normal

abbrev named : Named
named = record {
  suite = null;
  case_reference = null;
  protocol_pins = null;
  verifier = null;
  adapter_id = str "adapter-1";
  adapter_version = str "0.1";
  adapter_digest = str zero_digest;
  case_limitations = "synthetic" ∷ [];
}

abbrev small_actual : ExecutionActual
small_actual = record blank { status = pass; error_codes = "B" ∷ "A" ∷ [] }

abbrev built : Outcome Fields
built = build_result hashing (λ fs. true) named small_actual null

abbrev built_fields : Outcome Fields → Fields
built_fields (ok fs) = fs
built_fields _ = end

built_at : built ≡ ok (built_fields built)
unfolding build_result value_in_domain
built_at = refl

build_result-SealedResult_example : SealedResult hashing (λ fs. true) (built_fields built)
build_result-SealedResult_example =
    build_result-SealedResult hashing (λ fs. true) named small_actual null built_at

-- A session that has the operation's identifier with another message: the proposal is a conflict.
abbrev other_proposal : Message
other_proposal = record proposal {
  identity =
      of_operation
        (record { actor_id = "coordinator"; operation_id = "op-1"; idempotency_key = "idem-2" });
}

abbrev begun : Progress
begun = record {
  session = after;
  status = pass;
  protocol_outcome = not_evaluated;
  error_codes = [];
  response_authorized = none;
  limitations = [];
}
  where
    session_of : Outcome Traced → Session
    session_of (ok t) = t.2
    session_of _ = fresh

    after : Session
    after =
        session_of (apply_trace_message_atomically platform fresh proposal registry materials none)

conflicting :
    apply_trace_message_atomically platform begun.session other_proposal registry materials none
    ≡ ok (plain conflict, [], begun.session)
unfolding apply_trace_message_atomically format_digest new_runner digest_input value_in_domain
    authentication_input classify semantic_message_findings current_context replace_zulu ◌+ℤ◌ ◌*ℤ◌
    authenticated_subject_parameter apply unmet proposal_guards accept_message append_transcript
    parse_digest response_ref propose empty_registry option_eq subject_eq kind_eq operation_eq
conflicting = refl

-- Alone, the message is reported as rejected with a code; as the one entry of a trace, as accepted or
-- terminal without a code.
conflict_as_fixture :
    run_input lower platform registry materials (message_fixture (parsed other_proposal) none) begun
    ≡ ok (continue (reject_with lower "REPLAY_CONFLICT" begun.session begun))
unfolding run_input
conflict_as_fixture = rw conflicting refl

conflict_as_entry :
    run_input lower platform registry materials
      (trace_fixture (message_entry other_proposal ∷ []))
      begun
    ≡ ok (
        continue (
          settle lower
            (ended_or_accepted (in_final_phase begun.session.runner.phase))
            begun.session
            begun))
unfolding run_input run_trace
conflict_as_entry = rw conflicting refl
