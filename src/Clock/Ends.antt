-- ===== src/Clock/Ends.antt =====
-- Sequences of advances of the clock relation of scripts/validate_session_state_machine.py.
use private_match_protocol.Prelude.{
  ℕ, zero, suc, ◌+◌, ◌≤◌, ◌≡◌, refl, sym, true, false, some, [], ℤ, pos, ◌+ℤ◌, ◌≤ℤ◌, arith, inl,
  inr, Bool-cases,
}
use mathlib.Core.Path.{subst}
use private_match_protocol.Phases.{is_terminal}
use private_match_protocol.Clock.{ClockState, authoritative_time_transition, advance}
use private_match_protocol.Clock.Laws.{Admissible, transition-Admissible, advance_live}

-- Advances without a failure code, one after the other, and their number.
pub data Ticks (jump : ℤ) : ℕ → ClockState → ClockState → Type 0 where
  stop : {s : ClockState} → Ticks jump 0 s s
  tick :
      {n : ℕ} {s u w : ClockState} (time : ℤ)
      → authoritative_time_transition s time jump ≡ (u, [])
      → Ticks jump n u w
      → Ticks jump (suc n) s w

-- A live session at a time before its expiry or at it.
pub record Running (s : ClockState) (now bound : ℕ) : Type 0 where
  pub at : s.authoritative_time ≡ some (pos now)
  pub expiry : s.session_expires_at ≡ some (pos bound)
  pub live : is_terminal s.phase ≡ false

expired_at :
    (s : ClockState) (now bound : ℕ)
    → s.session_expires_at ≡ some (pos bound)
    → bound ≤ now
    → is_terminal (advance s (pos now)).phase ≡ true
unfolding advance is_terminal
expired_at s now bound expiry le = ground arith

stays : (n j : ℕ) → pos n ≤ℤ pos n +ℤ pos (suc j)
unfolding ◌+ℤ◌
stays n j = ground arith

moves : (n j : ℕ) → pos (n + 1) ≤ℤ pos n +ℤ pos (suc j)
unfolding ◌+ℤ◌
moves n j = ground arith

module _ (j bound : ℕ) where
  steady-Admissible :
      (s : ClockState) (now : ℕ)
      → Running s now bound
      → Admissible s (pos now) (pos (suc j)) (pos now)
  steady-Admissible s now r = record {
    at = r.at;
    current_valid = ground arith;
    time_valid = ground arith;
    jump_valid = ground arith;
    live = r.live;
    no_rollback = ground arith;
    no_jump = stays now j;
  }

  step-Admissible :
      (s : ClockState) (now : ℕ)
      → Running s now bound
      → Admissible s (pos (now + 1)) (pos (suc j)) (pos now)
  step-Admissible s now r = record {
    at = r.at;
    current_valid = ground arith;
    time_valid = ground arith;
    jump_valid = ground arith;
    live = r.live;
    no_rollback = ground arith;
    no_jump = moves now j;
  }

  goes_on :
      (s : ClockState) (now : ℕ)
      → Running s now bound
      → is_terminal (advance s (pos (now + 1))).phase ≡ false
      → Running (advance s (pos (now + 1))) (now + 1) bound
  goes_on s now r live =
      subst (λ u. Running u (now + 1) bound) (sym (advance_live s (pos (now + 1)) live))
        (record { at = refl; expiry = r.expiry; live = r.live })

  -- A live session with an expiry time ends, whatever happened before: by advances within the allowed
  -- jump, where this is not zero, at most one more than there are units of time left.
  pub ends :
      (left now : ℕ) (s : ClockState)
      → bound ≤ now + left
      → Running s now bound
      → (n : ℕ) × (w : ClockState) × (n ≤ left + 1)
        × Ticks (pos (suc j)) n s w
        × (is_terminal w.phase ≡ true)
  ends zero now s le r = (
    1,
    advance s (pos now),
    omega arith,
    tick (pos now) (transition-Admissible s (pos now) _ (pos now) (steady-Admissible s now r)) stop,
    expired_at s now bound r.expiry (omega arith),
  )
  ends (suc left) now s le r =
      let run =
        transition-Admissible s (pos (now + 1)) (pos (suc j)) (pos now) (step-Admissible s now r) in
      elim (Bool-cases (is_terminal (advance s (pos (now + 1))).phase)) [
        | inl over ↦
            (1, advance s (pos (now + 1)), omega arith, tick (pos (now + 1)) run stop, over)
        | inr live ↦
            (let (n, w, few, ticks, over) =
                ends left (now + 1) (advance s (pos (now + 1))) (omega arith)
                  (goes_on s now r live) in
              (suc n, w, omega arith, tick (pos (now + 1)) run ticks, over))
      ]
