-- ===== src/Conformance/Compare.antt =====
-- `expected_projection` and `compare_actual_to_expected` of scripts/conformance_engine.py: the verdict
-- of the runner on an executed case.
use private_match_protocol.Prelude.{
  String, ◌≡◌, refl, ◌≢◌, ◌↔◌, Bool, true, false, Option, none, some, List, [], ◌∷◌, ◌++◌, pos,
  arith,
}
use private_match_protocol.Json.{Json, null, bool, int, str, arr, json_eq}
use private_match_protocol.Texts.{sorted_set, sorted_set-eq-nil}
use private_match_protocol.Checks.{append-eq-nil}
use private_match_protocol.Message.Wire.{texts}
use private_match_protocol.Conformance.Projection.{object}
use private_match_protocol.Conformance.Inputs.{
  RunStatus, pass, fail, skip, unsupported, timeout, tool_error, ProtocolOutcome, accepting,
  rejecting, doing_nothing, terminal, not_evaluated,
}
use private_match_protocol.Conformance.Engine.{ExecutionActual, MutationSummary}

unfoldable pub status_name : RunStatus → String
status_name pass = "pass"
status_name fail = "fail"
status_name skip = "skip"
status_name unsupported = "unsupported"
status_name timeout = "timeout"
status_name tool_error = "tool-error"

unfoldable pub outcome_name : ProtocolOutcome → String
outcome_name accepting = "accepted"
outcome_name rejecting = "rejected"
outcome_name doing_nothing = "no-op"
outcome_name terminal = "terminal"
outcome_name not_evaluated = "not-evaluated"

abbrev changed : Bool → Json
changed true = str "changed"
changed false = str "unchanged"

abbrev assertions : MutationSummary → Json
assertions s = object (
    ("state", changed s.state)
    ∷ ("transcript", changed s.transcript)
    ∷ ("budget", changed s.budget)
    ∷ ("audit", changed s.audit)
    ∷ [])

abbrev pub optional_text : Option String → Json
optional_text none = null
optional_text (some s) = str s

abbrev pub optional_bool : Option Bool → Json
optional_bool none = null
optional_bool (some b) = bool b

-- expected_projection
unfoldable pub expected_projection : ExecutionActual → Json
unfolding status_name outcome_name texts
expected_projection a = object (
    ("runner_status", str (status_name a.status))
    ∷ ("protocol_outcome", str (outcome_name a.protocol_outcome))
    ∷ ("terminal_phase", optional_text a.terminal_phase)
    ∷ ("error_codes", arr (texts a.error_codes))
    ∷ ("initial_state_digest", str a.initial_state_digest)
    ∷ ("initial_transcript_head", str a.initial_transcript_head)
    ∷ ("transcript_head", str a.final_transcript_head)
    ∷ ("state_digest", str a.final_state_digest)
    ∷ ("accepted_event_count", int (pos a.accepted_event_count))
    ∷ ("mutation_assertions", assertions a.mutation_summary)
    ∷ ("cached_response_authorized", optional_bool a.cached_response_authorized)
    ∷ [])

abbrev unless_pass : RunStatus → RunStatus
unless_pass pass = fail
unless_pass s = s

abbrev compared : Bool → ExecutionActual → RunStatus × List String × Bool
compared true a = (a.status, sorted_set a.error_codes, true)
compared false a = (
  unless_pass a.status,
  sorted_set (a.error_codes ++ "CONFORMANCE-EXPECTED-MISMATCH" ∷ []),
  false,
)

-- compare_actual_to_expected
unfoldable pub compare_actual_to_expected : ExecutionActual → Json → RunStatus × List String × Bool
unfolding expected_projection json_eq sorted_set
compare_actual_to_expected a expected = compared (json_eq (expected_projection a) expected) a

-- What the verdict says of an executed case.
pub record Judged (a : ExecutionActual) (matched : Bool) (v : RunStatus × List String × Bool)
    : Type 0 where
  pub passing : (v.0 ≡ pass) ↔ ((a.status ≡ pass) × (matched ≡ true))
  pub preserved : a.status ≢ pass → v.0 ≡ a.status
  pub silent : v.1 ≡ [] → (a.error_codes ≡ []) × (matched ≡ true)
  pub told : v.2 ≡ matched

not_passing : (s : RunStatus) → unless_pass s ≢ pass
not_passing s = ground arith

kept_status : (s : RunStatus) → s ≢ pass → unless_pass s ≡ s
kept_status pass other = absurd (other refl)
kept_status fail other = refl
kept_status skip other = refl
kept_status unsupported other = refl
kept_status timeout other = refl
kept_status tool_error other = refl

compared-Judged : (matched : Bool) (a : ExecutionActual) → Judged a matched (compared matched a)
compared-Judged true a = record {
  passing = (λ is. (is, refl), λ both. both.0);
  preserved = λ other. refl;
  silent = λ none_left. (sorted_set-eq-nil a.error_codes none_left, refl);
  told = refl;
}
compared-Judged false a = record {
  passing =
      (λ is. absurd (not_passing a.status is), λ both. absurd (let b = both.1 in ground arith));
  preserved = kept_status a.status;
  silent = λ none_left. absurd (
      let none_added = (append-eq-nil a.error_codes _ (sorted_set-eq-nil _ none_left)).1 in
      ground arith);
  told = refl;
}

-- The verdict is `pass` exactly where the run passed and its whole projection equals the expected
-- one; every other status of the run is reported as it is; and there is an error code wherever the
-- run has one or the projections differ.
pub compare_actual_to_expected-Judged :
    (a : ExecutionActual) (expected : Json)
    → Judged a (json_eq (expected_projection a) expected) (compare_actual_to_expected a expected)
unfolding compare_actual_to_expected
compare_actual_to_expected-Judged a expected = compared-Judged _ a
