-- ===== src/Runner/Timer/Kept.antt =====
-- What an advance that `apply_timer_to_runner` of scripts/validate_messages.py commits keeps.
use private_match_protocol.Prelude.{◌≡◌, refl, sym, ap, ◌∙◌, false, Option, arith, ℤ, ◌*ℤ◌, pos}
use mathlib.Core.Path.{subst}
use private_match_protocol.Times.{Calendar}
use private_match_protocol.Phases.{Slots}
use private_match_protocol.Clock.{ConsentWindow, advance, terminal_budget_disposition}
use private_match_protocol.Transcript.{TimerEvent}
use private_match_protocol.Transitions.{Transition}
use private_match_protocol.Runner.{Runner}
use private_match_protocol.Runner.Timer.{clock_state, commit_time}
use private_match_protocol.Clock.Laws.{Admissible, transition_passed}
use private_match_protocol.Phases.{is_terminal}
use private_match_protocol.Runner.Agreement.{Agreement}
use private_match_protocol.Runner.Invariant.{Inv}
use private_match_protocol.Runner.Timer.Outcomes.{Advanced}

-- The invariant after the effect of an advance.
commit_time-Inv :
    (r : Runner) (e : TimerEvent) (current expiry proposed : ℤ) (deadline : Option ℤ)
    (consent : Slots (Option ConsentWindow)) (t : Transition)
    → is_terminal r.phase ≡ false
    → Inv r
    → Inv (commit_time r e (advance (clock_state r current expiry deadline consent) proposed) t)
unfolding advance clock_state commit_time terminal_budget_disposition is_terminal
commit_time-Inv r e current expiry proposed deadline consent t live v = ground arith

-- The agreement of the results after the effect of an advance.
commit_time-Agreement :
    (r : Runner) (e : TimerEvent) (current expiry proposed : ℤ) (deadline : Option ℤ)
    (consent : Slots (Option ConsentWindow)) (t : Transition)
    → Agreement r
    → Agreement
        (commit_time r e (advance (clock_state r current expiry deadline consent) proposed) t)
unfolding advance clock_state commit_time
commit_time-Agreement r e current expiry proposed deadline consent t v = record {
  proposed_match = v.proposed_match;
  accepted_match = v.accepted_match;
  receipt_first = v.receipt_first;
  receipt_late = λ held. (let late = v.receipt_late held in ground arith);
  accepted_proposed = v.accepted_proposed;
  accepted_only = v.accepted_only;
}

module _ {cal : Calendar} (r : Runner) (e : TimerEvent) (r' : Runner)
    (a : Advanced cal r e r') where
  passed :
      Admissible
        (clock_state r a.current a.expiry a.deadline a.consent)
        a.proposed
        (a.seconds *ℤ pos 1000000)
        a.current
      × (a.updated ≡ advance (clock_state r a.current a.expiry a.deadline a.consent) a.proposed)
  unfolding clock_state
  passed = transition_passed _ _ _ refl a.let_through

  -- A committed advance starts in a live session.
  pub advanced_live : is_terminal r.phase ≡ false
  unfolding clock_state
  advanced_live = passed.0.live

  -- A committed advance keeps the invariant of the runner.
  pub advanced-Inv : Inv r → Inv r'
  unfolding clock_state commit_time
  advanced-Inv v = subst Inv (sym (a.written ∙ ap (λ u. commit_time r e u a.relation) passed.1)) (
      commit_time-Inv r e a.current a.expiry a.proposed a.deadline a.consent a.relation
        advanced_live v)

  -- A committed advance keeps the agreement of the results.
  pub advanced-Agreement : Agreement r → Agreement r'
  unfolding clock_state commit_time
  advanced-Agreement v =
      subst Agreement (sym (a.written ∙ ap (λ u. commit_time r e u a.relation) passed.1))
        (commit_time-Agreement r e a.current a.expiry a.proposed a.deadline a.consent a.relation v)
