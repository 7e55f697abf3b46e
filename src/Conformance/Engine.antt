-- ===== src/Conformance/Engine.antt =====
-- `execute_case` of scripts/conformance_engine.py: one conformance case from its context to the values
-- that are compared with the expected ones. A `ConformanceError` is a refusal with its code.
use private_match_protocol.Prelude.{
  ℕ, String, Bool, true, false, ◌+◌, ◌&&◌, not, Option, none, some, List, [], ◌∷◌, ltb, length,
  str_eq, if◌then◌else◌,
}
use private_match_protocol.Json.{Json, str, obj, Items, nil, cons, get, json_eq}
use private_match_protocol.Texts.{sorted_set}
use private_match_protocol.Phases.{QueryBudget, Slots}
use private_match_protocol.Materials.{Material}
use private_match_protocol.Digest.Errors.{Outcome, ok, refused, ◌>>=◌}
use private_match_protocol.Digest.{Hashing}
use private_match_protocol.Registry.{Entry}
use private_match_protocol.Transcript.{initial_transcript}
use private_match_protocol.Transitions.{Transition, transition_id}
use private_match_protocol.Runner.{Context, new_runner}
use private_match_protocol.Trace.{Platform, Session}
use private_match_protocol.Conformance.Names.{phase_name, budget_name}
use private_match_protocol.Conformance.Projection.{
  object, conformance_state_projection, state_digest,
}
use private_match_protocol.Conformance.Inputs.{
  Input, trace_fixture, RunStatus, pass, skip, unsupported, timeout, ProtocolOutcome, not_evaluated,
  Progress, in_final_phase, run_inputs,
}

-- The parts of a case that the run reads. The `adapters` are those of
-- conformance/interop/adapters.v0.1.yaml.
pub record Case : Type 0 where
  pub context : Context
  pub execution_precondition : Json
  pub adapters : Items
  pub authentication_mode : String
  pub materials : List Material
  pub max_operation_steps : ℕ
  pub ordered_inputs : List Input

pub record MutationSummary : Type 0 where
  pub state : Bool
  pub transcript : Bool
  pub budget : Bool
  pub audit : Bool

pub record ExecutionActual : Type 0 where
  pub status : RunStatus
  pub protocol_outcome : ProtocolOutcome
  pub error_codes : List String
  pub initial_state_digest : String
  pub final_state_digest : String
  pub initial_transcript_head : String
  pub final_transcript_head : String
  pub accepted_event_count : ℕ
  pub mutation_summary : MutationSummary
  pub terminal_phase : Option String
  pub limitations : List String
  pub cached_response_authorized : Option Bool
  pub local_result_state : Slots Json
  pub work_units : ℕ
  pub initial_state_projection : Json
  pub final_state_projection : Json

abbrev pub input_units : Input → ℕ
input_units (trace_fixture es) = length es
input_units _ = 1

-- _work_units
unfoldable pub work_units : List Input → ℕ
work_units [] = 0
work_units (i ∷ is) = input_units i + work_units is

abbrev is_planned : Json → Bool
is_planned (obj fs) = json_eq (get "implementation_status" fs) (str "planned")
is_planned _ = false

abbrev all_planned : Items → Bool
all_planned nil = true
all_planned (cons v vs) = is_planned v && all_planned vs

abbrev is_empty : Items → Bool
is_empty nil = true
is_empty (cons v vs) = false

abbrev always_run : Json
always_run = object (("kind", str "always-run") ∷ [])

abbrev reviewed_skip : Json
reviewed_skip = object (
    ("kind", str "reviewed-skip")
    ∷ ("condition", str "second-adapter-planned-not-implemented")
    ∷ ("reason_code", str "SECOND_ADAPTER_NOT_IMPLEMENTED")
    ∷ ("scope", str "runner-self-test")
    ∷ [])

-- _reviewed_skip_applies
unfoldable pub reviewed_skip_applies : Json → Items → Outcome Bool
unfolding json_eq get
reviewed_skip_applies precondition adapters =
    if json_eq precondition always_run
    then ok false
    else if json_eq precondition reviewed_skip
    then ok (not (is_empty adapters) && all_planned adapters)
    else refused "CONFORMANCE-SKIP-PRECONDITION"

abbrev pub same_transitions : List Transition → List Transition → Bool
same_transitions [] [] = true
same_transitions (t ∷ ts) (u ∷ us) =
    str_eq (transition_id t) (transition_id u) && same_transitions ts us
same_transitions _ _ = false

abbrev same_budget : QueryBudget → QueryBudget → Bool
same_budget b c = str_eq (budget_name b) (budget_name c)

-- The session before the first input, with its digest and its projection.
pub record Start : Type 0 where
  pub session : Session
  pub state : String
  pub projection : Json

module _ (h : Hashing) where
  unfoldable pub start_case : Context → Outcome Start
  unfolding new_runner initial_transcript conformance_state_projection state_digest
  start_case context =
      let runner = new_runner context in
      (do
        transcript ← initial_transcript h
        projection ← conformance_state_projection h runner transcript.dedup
        state ← state_digest h runner transcript.dedup
        ok (record {
          session = record { runner = runner; transcript = transcript };
          state = state;
          projection = projection;
        }))

  -- The values of `_actual`, with the projection and the digest of the last state.
  abbrev pub reported : Start → ℕ → Progress → Json → String → ExecutionActual
  reported start units p projection final_state =
      let runner = p.session.runner in
      let transcript = p.session.transcript in
      let first = start.session in
      record {
        status = p.status;
        protocol_outcome = p.protocol_outcome;
        error_codes = sorted_set p.error_codes;
        initial_state_digest = start.state;
        final_state_digest = final_state;
        initial_transcript_head = first.transcript.head;
        final_transcript_head = transcript.head;
        accepted_event_count = transcript.accepted_event_index;
        mutation_summary = record {
          state = not (str_eq start.state final_state);
          transcript = not (str_eq first.transcript.head transcript.head);
          budget = not (same_budget first.runner.query_budget_state runner.query_budget_state);
          audit = not (same_transitions first.runner.audit_lifecycle runner.audit_lifecycle);
        };
        terminal_phase =
            (if in_final_phase runner.phase then some (phase_name runner.phase) else none);
        limitations = p.limitations;
        cached_response_authorized = p.response_authorized;
        local_result_state = runner.accepted_result_state;
        work_units = units;
        initial_state_projection = start.projection;
        final_state_projection = projection;
      }

  -- _actual
  unfoldable pub actual : Start → ℕ → Progress → Outcome ExecutionActual
  unfolding sorted_set conformance_state_projection state_digest phase_name budget_name
      transition_id
  actual start units p = do
    projection ← conformance_state_projection h p.session.runner p.session.transcript.dedup
    final_state ← state_digest h p.session.runner p.session.transcript.dedup
    ok (reported start units p projection final_state)

abbrev pub untouched : Start → RunStatus → List String → Progress
untouched start status codes = record {
  session = start.session;
  status = status;
  protocol_outcome = not_evaluated;
  error_codes = codes;
  response_authorized = none;
  limitations = "fixture-preverified authentication does not evaluate cryptographic validity" ∷ [];
}

module _ (platform : Platform) (lower : List ℕ → List ℕ) (entries : List Entry) (c : Case) where
  open platform use {hashing}

  -- The run of the inputs within the operation budget.
  abbrev pub run_budgeted : ℕ → Start → Outcome ExecutionActual
  run_budgeted units start =
      if ltb c.max_operation_steps units
      then actual hashing start units (untouched start timeout ("CONFORMANCE-TIMEOUT" ∷ []))
      else (do
        p ← run_inputs lower platform entries c.materials c.ordered_inputs (untouched start pass [])
        actual hashing start units p)

  abbrev pub run_started : Bool → Start → Outcome ExecutionActual
  run_started skipped start =
      if skipped
      then actual hashing start 0 (untouched start skip ("CONFORMANCE-REVIEWED-SKIP" ∷ []))
      else if str_eq c.authentication_mode "unsupported-real-algorithm/v0.1"
      then actual hashing start 0
          (untouched start unsupported ("CONFORMANCE-ADAPTER-UNSUPPORTED" ∷ []))
      else run_budgeted (work_units c.ordered_inputs) start

  -- execute_case
  unfoldable pub execute_case : Outcome ExecutionActual
  unfolding start_case actual run_inputs work_units reviewed_skip_applies
  execute_case = do
    start ← start_case hashing c.context
    skipped ← reviewed_skip_applies c.execution_precondition c.adapters
    run_started skipped start
