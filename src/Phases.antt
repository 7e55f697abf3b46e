-- ===== src/Phases.antt =====
-- The values of the state fields that scripts/validate_messages.py and
-- scripts/validate_session_state_machine.py set to literals, and the two Party slots.
use private_match_protocol.Prelude.{Bool, true, false, ◌&&◌, ◌||◌}

pub data Phase : Type 0 where
  uninitialized created participants_bound commitments_pending committed evaluating : Phase
  result_accepted consent_pending disclosure_authorized closed aborted expired : Phase

pub data QueryBudget : Type 0 where
  no_budget reserved consumed released budget_expired : QueryBudget

pub data Disclosure : Type 0 where
  no_disclosure awaiting_consent authorized : Disclosure

pub data FailureCode : Type 0 where
  no_failure consent_withdrawn session_expired evaluation_timeout consent_expired : FailureCode

pub data PartyCategory : Type 0 where
  no_category consent_error session_unavailable evaluation_error : PartyCategory

-- TERMINAL_PHASES
unfoldable pub is_terminal : Phase → Bool
is_terminal closed = true
is_terminal aborted = true
is_terminal expired = true
is_terminal _ = false

abbrev pub phase_eq : Phase → Phase → Bool
phase_eq uninitialized uninitialized = true
phase_eq created created = true
phase_eq participants_bound participants_bound = true
phase_eq commitments_pending commitments_pending = true
phase_eq committed committed = true
phase_eq evaluating evaluating = true
phase_eq result_accepted result_accepted = true
phase_eq consent_pending consent_pending = true
phase_eq disclosure_authorized disclosure_authorized = true
phase_eq closed closed = true
phase_eq aborted aborted = true
phase_eq expired expired = true
phase_eq _ _ = false

pub data Party : Type 0 where
  party_a party_b : Party

abbrev pub other : Party → Party
other party_a = party_b
other party_b = party_a

-- A dict with one entry for each Party.
pub record Slots {ℓ} (A : Type ℓ) : Type ℓ where
  pub slot_a : A
  pub slot_b : A

module _ {ℓ} {A : Type ℓ} where
  -- `slots[party]`
  abbrev pub slot : Slots A → Party → A
  slot s party_a = s.slot_a
  slot s party_b = s.slot_b

  -- `slots[party] = v`
  abbrev pub set_slot : Slots A → Party → A → Slots A
  set_slot s party_a v = record s { slot_a = v }
  set_slot s party_b v = record s { slot_b = v }

  -- `all(...)` and `any(...)` over the values.
  abbrev pub both : (A → Bool) → Slots A → Bool
  both p s = p s.slot_a && p s.slot_b

  abbrev pub either : (A → Bool) → Slots A → Bool
  either p s = p s.slot_a || p s.slot_b
