-- ===== src/Clock/Laws.antt =====
-- The clock relation of scripts/validate_session_state_machine.py, and its guard.
use private_match_protocol.Prelude.{
  ◌≡◌, ◌≢◌, ◌↔◌, refl, ap, ◌∙◌, false, some, [], ℤ, ◌+ℤ◌, ◌≤ℤ◌, arith, pos,
}
use private_match_protocol.Phases.{is_terminal}
use private_match_protocol.Clock.{ClockState, authoritative_time_transition, advance}

-- The guard of the relation: a live session, instants that are not negative, and a time between the
-- current one and the furthest jump.
pub record Admissible (s : ClockState) (time jump current : ℤ) : Type 0 where
  pub at : s.authoritative_time ≡ some current
  pub current_valid : pos 0 ≤ℤ current
  pub time_valid : pos 0 ≤ℤ time
  pub jump_valid : pos 0 ≤ℤ jump
  pub live : is_terminal s.phase ≡ false
  pub no_rollback : current ≤ℤ time
  pub no_jump : time ≤ℤ current +ℤ jump

module _ (s : ClockState) (time jump : ℤ) where
  -- An advance that fails leaves the state as it was.
  pub transition_failed :
      (authoritative_time_transition s time jump).1 ≢ []
      → (authoritative_time_transition s time jump).0 ≡ s
  unfolding authoritative_time_transition
  transition_failed h = ground arith

  -- An advance that succeeds had an admissible time, and has the effect of `advance`.
  pub transition_passed :
      {u : ClockState} {current : ℤ}
      → s.authoritative_time ≡ some current
      → authoritative_time_transition s time jump ≡ (u, [])
      → Admissible s time jump current × (u ≡ advance s time)
  unfolding authoritative_time_transition
  transition_passed at e = ground arith

  -- An admissible advance succeeds.
  pub transition-Admissible :
      (current : ℤ)
      → Admissible s time jump current
      → authoritative_time_transition s time jump ≡ (advance s time, [])
  unfolding authoritative_time_transition
  transition-Admissible current a = ground arith

  -- At a known time, the relation advances the state without a failure code exactly when the
  -- session is live, the three numbers are not negative, and the new time is neither before the
  -- current one nor further away than the allowed jump.
  pub transition_iff :
      (current : ℤ)
      → s.authoritative_time ≡ some current
      → (authoritative_time_transition s time jump ≡ (advance s time, []))
        ↔ Admissible s time jump current
  transition_iff current at = (λ e. (transition_passed at e).0, transition-Admissible current)

-- An advance that leaves the session live has changed the time only.
pub advance_live :
    (s : ClockState) (time : ℤ)
    → is_terminal (advance s time).phase ≡ false
    → advance s time ≡ record s { authoritative_time = some time }
unfolding advance is_terminal
advance_live s time live = ground arith

same_from :
    (s : ClockState) (first second : ℤ)
    → advance (record s { authoritative_time = some first }) second ≡ advance s second
unfolding advance
same_from s first second = refl

-- Two advances, the first of which leaves the session live, are the same as the second alone: no
-- threshold is missed or met early by the way in which time is cut into steps.
pub advance_twice :
    (s : ClockState) (first second : ℤ)
    → is_terminal (advance s first).phase ≡ false
    → advance (advance s first) second ≡ advance s second
advance_twice s first second live =
    ap (λ x. advance x second) (advance_live s first live) ∙ same_from s first second
