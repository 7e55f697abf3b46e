-- ===== src/Conformance/Inputs.antt =====
-- The inputs of a conformance case, and what `execute_case` of scripts/conformance_engine.py does with
-- each of them. The files are read already: an input holds what its fixture says.
use private_match_protocol.Prelude.{
  ℕ, String, Bool, true, false, ◌||◌, Option, none, some, List, [], ◌∷◌, ◌++◌, if◌then◌else◌,
  str_eq,
}
use private_match_protocol.Json.{Json, str, Fields, json_eq}
use private_match_protocol.Findings.{Finding}
use private_match_protocol.Phases.{Phase, phase_eq, closed, aborted, expired}
use private_match_protocol.Message.{Message}
use private_match_protocol.Materials.{Material, TrustedSubject}
use private_match_protocol.Digest.Errors.{Outcome, ok, refused, ◌>>=◌}
use private_match_protocol.Registry.{Entry}
use private_match_protocol.Transcript.{TimerEvent, Verdict, accepted, duplicate, conflict, no_op}
use private_match_protocol.Transitions.{Transition, transition_id}
use private_match_protocol.Trace.{
  Platform, Session, TraceClass, exact_duplicate_no_response, exact_duplicate_authorized, verdict,
  Traced, apply_trace_message_atomically, apply_trace_timer_atomically,
}
use private_match_protocol.LocalResults.{apply_profile_local_result_fixture}
use private_match_protocol.Conformance.Projection.{object}
use private_match_protocol.Conformance.Codes.{finding_codes}

pub data TraceEntry : Type 0 where
  message_entry : Message → TraceEntry
  timer_entry : TimerEvent → TraceEntry
  other_entry : TraceEntry

-- The wire bytes of a message fixture: the message, or the code of the `ConformanceError` that
-- `strict_json_bytes` raises on them.
pub data Parsed : Type 0 where
  parsed : Message → Parsed
  unparsed : String → Parsed

-- A raw message fixture comes with the findings of `validate_message_bytes` on it, which depend on
-- neither the runner nor the transcript.
pub data Input : Type 0 where
  trace_fixture : List TraceEntry → Input
  message_fixture : Parsed → Option TrustedSubject → Input
  raw_message_fixture : List Finding → Input
  timer_fixture : TimerEvent → Input
  local_result_fixture : Fields → Input
  fault_fixture : Json → Input
  other_input : Input

pub data RunStatus : Type 0 where
  pass fail skip unsupported timeout tool_error : RunStatus

pub data ProtocolOutcome : Type 0 where
  accepting rejecting doing_nothing terminal not_evaluated : ProtocolOutcome

-- The variables of the loop over the inputs.
pub record Progress : Type 0 where
  pub session : Session
  pub status : RunStatus
  pub protocol_outcome : ProtocolOutcome
  pub error_codes : List String
  pub response_authorized : Option Bool
  pub limitations : List String

-- The inputs are processed further, or a `break` ends the loop.
pub data Control : Type 0 where
  continue break : Progress → Control

-- `runner.phase in {"CLOSED", "ABORTED", "EXPIRED"}`
abbrev pub in_final_phase : Phase → Bool
in_final_phase p = phase_eq p closed || (phase_eq p aborted || phase_eq p expired)

abbrev pub ended_or_accepted : Bool → ProtocolOutcome
ended_or_accepted true = terminal
ended_or_accepted false = accepting

abbrev pub ends_session : Option Transition → Bool
ends_session none = false
ends_session (some t) =
    str_eq (transition_id t) "TR-ADVANCE-TIME-EXPIRE"
    || (str_eq (transition_id t) "TR-EVALUATION-TIMEOUT"
        || str_eq (transition_id t) "TR-CONSENT-EXPIRED")

-- `outcome.classification.startswith("EXACT_DUPLICATE")`
abbrev pub is_duplicate : TraceClass → Bool
is_duplicate exact_duplicate_no_response = true
is_duplicate exact_duplicate_authorized = true
is_duplicate (verdict duplicate) = true
is_duplicate (verdict _) = false

abbrev pub reviewed_fault : Json
reviewed_fault = object (
    ("schema_version", str "0.1")
    ∷ ("kind", str "controlled-fault-fixture")
    ∷ ("fault_id", str "STRICT-FIXTURE-PROCESSING-FAULT")
    ∷ ("component", str "reference-fixture-parser")
    ∷ ("artifact_status", str "test-only")
    ∷ [])

module _ (lower : List ℕ → List ℕ) where
  -- `error_codes.update(_finding_codes(findings))` and `protocol_outcome = "rejected"`.
  abbrev pub reject : List Finding → Session → Progress → Progress
  reject fs s p = record p {
    session = s;
    protocol_outcome = rejecting;
    error_codes = p.error_codes ++ finding_codes lower fs;
  }

  abbrev pub reject_with : String → Session → Progress → Progress
  reject_with code s p = record p {
    session = s;
    protocol_outcome = rejecting;
    error_codes = p.error_codes ++ code ∷ [];
  }

  abbrev pub settle : ProtocolOutcome → Session → Progress → Progress
  settle o s p = record p { session = s; protocol_outcome = o }

  -- What a message entry of a trace leaves. Every outcome without findings that is not an exact
  -- duplicate counts as accepted or terminal.
  abbrev pub traced_message : Traced → Progress → Control
  traced_message (o, f ∷ fs, s) p = break (reject (f ∷ fs) s p)
  traced_message (o, [], s) p = continue (
      settle
        (if is_duplicate o.classification
          then doing_nothing
          else ended_or_accepted (in_final_phase s.runner.phase))
        s p)

  abbrev pub traced_timer :
      Verdict × Option Transition × List Finding × Session → Progress → Control
  traced_timer (v, t, f ∷ fs, s) p = break (reject (f ∷ fs) s p)
  traced_timer (accepted, t, [], s) p = continue (settle (ended_or_accepted (ends_session t)) s p)
  traced_timer (no_op, t, [], s) p =
      continue (settle (if ends_session t then terminal else doing_nothing) s p)
  traced_timer (v, t, [], s) p = break (reject_with "REPLAY_CONFLICT" s p)

  -- What a message fixture leaves.
  abbrev pub delivered_verdict : Verdict → Session → Progress → Progress
  delivered_verdict accepted s p = settle (ended_or_accepted (in_final_phase s.runner.phase)) s p
  delivered_verdict conflict s p = reject_with "REPLAY_CONFLICT" s p
  delivered_verdict v s p = reject_with "CONFORMANCE-PROTOCOL-REJECTION" s p

  abbrev pub delivered_class : TraceClass → Session → Progress → Progress
  delivered_class (verdict v) s p = delivered_verdict v s p
  delivered_class _ s p = reject_with "CONFORMANCE-PROTOCOL-REJECTION" s p

  abbrev pub delivered : Traced → Progress → Progress
  delivered (o, f ∷ fs, s) p = reject (f ∷ fs) s p
  delivered (o, [], s) p =
      if is_duplicate o.classification
      then record (settle doing_nothing s p) { response_authorized = some o.response_authorized }
      else delivered_class o.classification s p

  abbrev pub ticked : Verdict × Option Transition × List Finding × Session → Progress → Progress
  ticked (v, t, f ∷ fs, s) p = reject (f ∷ fs) s p
  ticked (accepted, t, [], s) p = settle (ended_or_accepted (ends_session t)) s p
  ticked (no_op, t, [], s) p = settle doing_nothing s p
  ticked (v, t, [], s) p = reject_with "REPLAY_CONFLICT" s p

  abbrev pub judged : List Finding → Session → Progress → Progress
  judged [] s p = settle accepting s p
  judged (f ∷ fs) s p = reject (f ∷ fs) s p

  abbrev pub faulted : Progress → Progress
  faulted p = record p {
    status = tool_error;
    protocol_outcome = not_evaluated;
    error_codes = p.error_codes ++ "CONFORMANCE-TOOL-ERROR" ∷ [];
    limitations = p.limitations ++ "controlled runner self-test fault; no Protocol event ran" ∷ [];
  }

  module _ (platform : Platform) (entries : List Entry) (materials : List Material) where
    open platform use {hashing}

    abbrev pub trace_entry : TraceEntry → Progress → Outcome Control
    trace_entry (message_entry m) p = do
      taken ← apply_trace_message_atomically platform p.session m entries materials none
      ok (traced_message taken p)
    trace_entry (timer_entry e) p = do
      taken ← apply_trace_timer_atomically platform p.session e
      ok (traced_timer taken p)
    trace_entry other_entry p = refused "CONFORMANCE-TRACE-KIND"

    abbrev pub next_entry : Control → (Progress → Outcome Progress) → Outcome Progress
    next_entry (continue p) later = later p
    next_entry (break p) later = ok p

    -- The loop over the entries of a trace fixture.
    unfoldable pub run_trace : List TraceEntry → Progress → Outcome Progress
    unfolding apply_trace_message_atomically apply_trace_timer_atomically finding_codes
        transition_id
    run_trace [] p = ok p
    run_trace (e ∷ es) p = let later = run_trace es in (do c ← trace_entry e p; next_entry c later)

    -- One input.
    unfoldable pub run_input : Input → Progress → Outcome Control
    unfolding run_trace apply_trace_message_atomically apply_trace_timer_atomically finding_codes
        apply_profile_local_result_fixture transition_id json_eq
    run_input (trace_fixture es) p = do q ← run_trace es p; ok (continue q)
    run_input (message_fixture (unparsed code) requester) p =
        ok (continue (reject_with code p.session p))
    run_input (message_fixture (parsed m) requester) p = do
      taken ← apply_trace_message_atomically platform p.session m entries materials requester
      ok (continue (delivered taken p))
    run_input (raw_message_fixture fs) p = ok (continue (judged fs p.session p))
    run_input (timer_fixture e) p = do
      taken ← apply_trace_timer_atomically platform p.session e
      ok (continue (ticked taken p))
    run_input (local_result_fixture fixture) p = do
      (fs, runner) ← apply_profile_local_result_fixture hashing p.session.runner fixture
      ok (continue (judged fs (record p.session { runner = runner }) p))
    run_input (fault_fixture v) p =
        if json_eq v reviewed_fault
        then ok (break (faulted p))
        else refused "CONFORMANCE-FAULT-FIXTURE"
    run_input other_input p = refused "CONFORMANCE-INPUT-KIND"

    abbrev pub next_input : Control → (Progress → Outcome Progress) → Outcome Progress
    next_input (continue p) later = later p
    next_input (break p) later = ok p

    -- The loop over the inputs of a case.
    unfoldable pub run_inputs : List Input → Progress → Outcome Progress
    unfolding run_input
    run_inputs [] p = ok p
    run_inputs (i ∷ is) p = let later = run_inputs is in (do c ← run_input i p; next_input c later)
