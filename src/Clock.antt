-- ===== src/Clock.antt =====
-- `terminal_budget_disposition` and `authoritative_time_transition` of
-- scripts/validate_session_state_machine.py: the bounded relation of the coordinator's clock.
-- Instants and lengths of time are Python integers, in one unit.
pub mod Laws
pub mod Ends
use private_match_protocol.Prelude.{
  Bool, true, false, ◌&&◌, ◌||◌, Option, none, some, List, [], ◌∷◌, ℤ, pos, ◌+ℤ◌, ltb_ℤ, leb_ℤ,
  if◌then◌else◌,
}
use private_match_protocol.Phases.{
  Phase, evaluating, consent_pending, disclosure_authorized, aborted, expired, QueryBudget,
  reserved, released, budget_expired, Disclosure, no_disclosure, FailureCode, session_expired,
  evaluation_timeout, consent_expired, PartyCategory, session_unavailable, evaluation_error,
  consent_error, Slots, either, is_terminal, phase_eq,
}

pub data TerminalEvent : Type 0 where
  expire abort : TerminalEvent

abbrev disposition : QueryBudget → Bool → TerminalEvent → QueryBudget
disposition reserved false expire = budget_expired
disposition reserved false abort = released
disposition budget _ _ = budget

-- terminal_budget_disposition
unfoldable pub terminal_budget_disposition : QueryBudget → Bool → TerminalEvent → QueryBudget
terminal_budget_disposition = disposition

pub data ConsentStatus : Type 0 where
  valid withdrawn : ConsentStatus

pub record ConsentWindow : Type 0 where
  pub status : ConsentStatus
  pub expires_at : Option ℤ

-- The dict of the state that the relation reads and writes.
pub record ClockState : Type 0 where
  pub authoritative_time : Option ℤ
  pub session_expires_at : Option ℤ
  pub evaluation_deadline : Option ℤ
  pub phase : Phase
  pub consent : Slots (Option ConsentWindow)
  pub query_budget_state : QueryBudget
  pub evaluation_started : Bool
  pub disclosure_state : Disclosure
  pub terminal_failure_code : FailureCode
  pub party_terminal_category : PartyCategory

pub data ClockFailure : Type 0 where
  clock_domain_invalid clock_rollback clock_jump_exceeded : ClockFailure
  session_over : Phase → ClockFailure

-- `isinstance(bound, int) and time >= bound`
abbrev pub reached : ℤ → Option ℤ → Bool
reached time none = false
reached time (some bound) = leb_ℤ bound time

abbrev is_valid : ConsentStatus → Bool
is_valid valid = true
is_valid withdrawn = false

abbrev pub consent_over : ℤ → Option ConsentWindow → Bool
consent_over time none = false
consent_over time (some c) = is_valid c.status && reached time c.expires_at

-- The effect of an advance to `time` that the guards have let through.
unfoldable pub advance : ClockState → ℤ → ClockState
advance s time =
    let updated = record s { authoritative_time = some time } in
    if reached time s.session_expires_at
    then record updated {
      phase = expired;
      terminal_failure_code = session_expired;
      party_terminal_category = session_unavailable;
      disclosure_state = no_disclosure;
      query_budget_state =
          terminal_budget_disposition s.query_budget_state s.evaluation_started expire;
    }
    else if phase_eq s.phase evaluating && reached time s.evaluation_deadline
    then record updated {
      phase = aborted;
      terminal_failure_code = evaluation_timeout;
      party_terminal_category = evaluation_error;
      disclosure_state = no_disclosure;
    }
    else if (phase_eq s.phase consent_pending || phase_eq s.phase disclosure_authorized)
        && either (consent_over time) s.consent
    then record updated {
      phase = aborted;
      terminal_failure_code = consent_expired;
      party_terminal_category = consent_error;
      disclosure_state = no_disclosure;
    }
    else updated

abbrev guarded_advance : Option ℤ → ClockState → ℤ → ℤ → ClockState × List ClockFailure
guarded_advance none s time jump = (s, clock_domain_invalid ∷ [])
guarded_advance (some current) s time jump =
    if ltb_ℤ current (pos 0) || (ltb_ℤ time (pos 0) || ltb_ℤ jump (pos 0))
    then (s, clock_domain_invalid ∷ [])
    else if is_terminal s.phase
    then (s, session_over s.phase ∷ [])
    else if ltb_ℤ time current
    then (s, clock_rollback ∷ [])
    else if ltb_ℤ (current +ℤ jump) time
    then (s, clock_jump_exceeded ∷ [])
    else (advance s time, [])

-- authoritative_time_transition: the updated state and the failure codes.
unfoldable pub authoritative_time_transition : ClockState → ℤ → ℤ → ClockState × List ClockFailure
unfolding advance terminal_budget_disposition is_terminal
authoritative_time_transition s time jump = guarded_advance s.authoritative_time s time jump
