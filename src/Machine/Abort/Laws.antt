-- ===== src/Machine/Abort/Laws.antt =====
-- What `apply_generic_abort` does to a state.
use private_match_protocol.Prelude.{
  String, ◌≡◌, ◌≢◌, ◌⊎◌, true, false, some, List, [], ◌∷◌, ◌++◌, if◌then◌else◌, Bool,
}
use private_match_protocol.Phases.{
  aborted, is_terminal, no_disclosure, QueryBudget, no_budget, reserved, consumed, released,
  budget_expired,
}
use private_match_protocol.Texts.{sorted_set}
use private_match_protocol.Machine.Abort.Taxonomy.{LastWith, Category}
use private_match_protocol.Machine.Abort.{Failure, AbortState, generic_abort_guard_failures}

-- Who may abort a session, with which code, and when.
pub record MayAbort (taxonomy : List Failure) (s : AbortState) (actor code : String) : Type 0 where
  pub authority : actor ≡ "coordinator"
  pub declared : LastWith taxonomy code
  pub aborting : declared.failure.disposition ≡ "session-abort"
  pub live : is_terminal s.phase ≡ false

-- The budget after an abort: a reservation is given back where no evaluation has started, and
-- any other budget is kept.
abbrev pub settled : QueryBudget → Bool → QueryBudget
settled reserved false = released
settled reserved true = reserved
settled no_budget started = no_budget
settled consumed started = consumed
settled released started = released
settled budget_expired started = budget_expired

-- The state after an abort.
pub record AbortedFrom (taxonomy : List Failure) (s : AbortState) (code : String) (s' : AbortState)
    : Type 0 where
  pub phase : s'.phase ≡ aborted
  pub code_kept : s'.terminal_failure_code ≡ some code
  pub category : Category code taxonomy s'.party_terminal_category
  pub closed_disclosure : s'.disclosure_state ≡ no_disclosure
  pub budget : s'.query_budget_state ≡ settled s.query_budget_state s.evaluation_started
  pub started : s'.evaluation_started ≡ s.evaluation_started

module _ (taxonomy : List Failure) (s : AbortState) (actor code : String) where
  -- The failures of the guards and of the phase.
  abbrev all_failures : List String
  all_failures =
      let failures = generic_abort_guard_failures taxonomy actor code in
      if is_terminal s.phase then sorted_set (failures ++ "TERMINAL_STATE" ∷ []) else failures

  -- What an abort leaves: the aborted state where it is permitted, or else the state as it was.
  abbrev pub AbortOutcomes : AbortState × List String → Type 0
  AbortOutcomes x =
      (MayAbort taxonomy s actor code × (x.1 ≡ []) × AbortedFrom taxonomy s code x.0)
      ⊎ ((MayAbort taxonomy s actor code → ⊥) × (x.1 ≢ []) × (x.0 ≡ s))
