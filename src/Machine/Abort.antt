-- ===== src/Machine/Abort.antt =====
-- `party_error_category`, `generic_abort_guard_failures` and `apply_generic_abort` of
-- scripts/validate_session_state_machine.py.
pub mod Taxonomy
pub mod Laws
use private_match_protocol.Prelude.{
  String, Bool, Option, none, some, List, [], ◌∷◌, ◌++◌, any, str_eq, if◌then◌else◌,
}
use private_match_protocol.Phases.{
  Phase, aborted, is_terminal, QueryBudget, Disclosure, no_disclosure,
}
use private_match_protocol.Clock.{terminal_budget_disposition, abort}
use private_match_protocol.Texts.{sorted_set}

-- An entry of the failure taxonomy of the model.
pub record Failure : Type 0 where
  pub code : String
  pub disposition : String
  pub party_error_category : String

abbrev party_error_categories : List String
party_error_categories =
    "BINDING_ERROR" ∷ "VERSION_ERROR" ∷ "REPLAY_ERROR" ∷ "ORDERING_ERROR" ∷ "COMMITMENT_ERROR"
    ∷ "AUTHORIZATION_ERROR" ∷ "VERIFICATION_ERROR" ∷ "EVALUATION_ERROR" ∷ "RESULT_ERROR"
    ∷ "CONSENT_ERROR" ∷ "DISCLOSURE_ERROR" ∷ "SESSION_UNAVAILABLE" ∷ "UNSUPPORTED" ∷ "CLOCK_ERROR"
    ∷ []

-- party_error_category: of the first entry with the code.
unfoldable pub party_error_category : List Failure → String → Option String
party_error_category [] code = none
party_error_category (f ∷ fs) code =
    if str_eq f.code code
    then (if any party_error_categories (str_eq f.party_error_category)
        then some f.party_error_category
        else none)
    else party_error_category fs code

-- `{item["code"]: item for item in taxonomy}.get(code)`: the last entry with the code.
unfoldable pub last_with : List Failure → String → Option Failure
last_with [] code = none
last_with (f ∷ fs) code = elim (last_with fs code) [
  | some g ↦ some g
  | none ↦ if str_eq f.code code then some f else none
]

abbrev taxonomy_failures : Option Failure → List String
taxonomy_failures none = "UNDECLARED_FAILURE" ∷ []
taxonomy_failures (some f) =
    if str_eq f.disposition "session-abort" then [] else "NON_ABORT_DISPOSITION" ∷ []

abbrev authority_failures : String → List String
authority_failures actor = if str_eq actor "coordinator" then [] else "ABORT_AUTHORITY" ∷ []

-- The failures before they are sorted: there is at most one of each.
abbrev abort_failures : List Failure → String → String → List String
abort_failures taxonomy actor code =
    authority_failures actor ++ taxonomy_failures (last_with taxonomy code)

-- generic_abort_guard_failures
unfoldable pub generic_abort_guard_failures : List Failure → String → String → List String
unfolding sorted_set last_with
generic_abort_guard_failures taxonomy actor code = sorted_set (abort_failures taxonomy actor code)

-- The members of the state dict that an abort reads and writes. A failure code and a category that are
-- not set are `none`.
pub record AbortState : Type 0 where
  pub phase : Phase
  pub terminal_failure_code : Option String
  pub party_terminal_category : Option String
  pub disclosure_state : Disclosure
  pub query_budget_state : QueryBudget
  pub evaluation_started : Bool

abbrev aborted_state : List Failure → AbortState → String → AbortState
aborted_state taxonomy s code = record s {
  phase = aborted;
  terminal_failure_code = some code;
  party_terminal_category = party_error_category taxonomy code;
  disclosure_state = no_disclosure;
  query_budget_state = terminal_budget_disposition s.query_budget_state s.evaluation_started abort;
}

abbrev abort_unless : List String → List Failure → AbortState → String → AbortState × List String
abort_unless [] taxonomy s code = (aborted_state taxonomy s code, [])
abort_unless (f ∷ fs) taxonomy s code = (s, f ∷ fs)

-- apply_generic_abort
unfoldable pub apply_generic_abort :
    List Failure → AbortState → String → String → AbortState × List String
unfolding generic_abort_guard_failures is_terminal sorted_set party_error_category
    terminal_budget_disposition
apply_generic_abort taxonomy s actor code =
    let failures = generic_abort_guard_failures taxonomy actor code in
    abort_unless
      (if is_terminal s.phase then sorted_set (failures ++ "TERMINAL_STATE" ∷ []) else failures)
      taxonomy s code
