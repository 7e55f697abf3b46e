-- ===== src/Trace/Timers.antt =====
-- What `apply_trace_timer_atomically` of scripts/validate_messages.py does to a session.
use private_match_protocol.Prelude.{
  ◌≡◌, refl, ◌≢◌, ◌⊎◌, inl, inr, true, false, Bool, Option, List, [], ◌∷◌, arith, if◌then◌else◌,
}
use mathlib.Core.Path.{subst}
use private_match_protocol.Findings.{Finding}
use private_match_protocol.Digest.Errors.{Outcome, ok, refused, crashed}
use private_match_protocol.Transcript.{
  TranscriptState, TimerEvent, Verdict, accepted, rejected, no_op, accept_timer,
}
use private_match_protocol.Transcript.Laws.{Ticked, accept_timer-Outcomes}
use private_match_protocol.Transitions.{Transition}
use private_match_protocol.Runner.{Runner}
use private_match_protocol.Runner.Atomic.{ok-injective}
use private_match_protocol.Runner.Timer.{apply_timer_to_runner, TimerResult}
use private_match_protocol.Runner.Timer.Outcomes.{
  Advanced, TimerOutcomes, apply_timer_to_runner-Outcomes,
}
use private_match_protocol.Trace.{
  Platform, Session, mismatched, timer_commit, timer_transcribe, timer_checked,
  apply_trace_timer_atomically,
}

module _ (platform : Platform) (s : Session) (e : TimerEvent) where
  open platform use {hashing, calendar}

  -- A commit: the runner has advanced by the clock relation, and the transcript has taken the event.
  pub record TimerCommitted (s' : Session) : Type 0 where
    pub moved : Advanced calendar s.runner e s'.runner
    pub taken : Ticked hashing s.transcript e s'.transcript

  abbrev pub TimerStep : Verdict → List Finding → Session → Type 0
  TimerStep v fs s' = ((v ≡ accepted) × (fs ≡ []) × TimerCommitted s') ⊎ ((v ≢ accepted) × (s' ≡ s))

  timer_commit-Step :
      (w : Outcome (Verdict × TranscriptState)) (t : Option Transition) (runner : Runner)
      {v : Verdict} {t' : Option Transition} {fs : List Finding} {s' : Session}
      → accept_timer hashing calendar s.transcript e true ≡ w
      → Advanced calendar s.runner e runner
      → timer_commit platform w t runner s ≡ ok (v, t', fs, s')
      → TimerStep v fs s'
  timer_commit-Step (refused x) t runner same moved run = inr (ground arith)
  timer_commit-Step crashed t runner same moved run = absurd (ground arith)
  timer_commit-Step (ok (accepted, transcript)) t runner same moved run =
      elim (accept_timer-Outcomes hashing calendar s.transcript e true same) [
        | inl (_, taken) ↦
            subst (λ x. TimerStep x.0 x.2 x.3) (ok-injective run)
              (inl (refl, refl, record { moved = moved; taken = taken }))
        | inr (wrong, _) ↦ absurd (wrong refl)
      ]
  timer_commit-Step (ok (v, transcript)) t runner same moved run = inr (ground arith)

  transcribe-Step :
      (x : TimerResult) {v : Verdict} {t' : Option Transition} {fs : List Finding} {s' : Session}
      → TimerOutcomes calendar s.runner e x
      → timer_transcribe platform x s e ≡ ok (v, t', fs, s')
      → TimerStep v fs s'
  transcribe-Step (v, t, f ∷ fs, runner) known run = inr (ground arith)
  transcribe-Step (rejected, t, [], runner) known run = inr (ground arith)
  transcribe-Step (no_op, t, [], runner) known run = inr (ground arith)
  transcribe-Step (accepted, t, [], runner) (inl (_, _, moved, _)) run =
      timer_commit-Step _ t runner refl moved run
  transcribe-Step (accepted, t, [], runner) (inr (inl wrong, _, _)) run = absurd (ground arith)
  transcribe-Step (accepted, t, [], runner) (inr (inr wrong, _, _)) run = absurd (ground arith)
  transcribe-Step (v, t, [], runner) (inl (is, _, _, _)) run = absurd (ground arith)
  transcribe-Step (v, t, [], runner) (inr (inl is, _, _)) run = absurd (ground arith)
  transcribe-Step (v, t, [], runner) (inr (inr is, _, _)) run = absurd (ground arith)

  chained-Step :
      (chained : Bool) {v : Verdict} {t : Option Transition} {fs : List Finding} {s' : Session}
      → (if chained
          then timer_transcribe platform (apply_timer_to_runner calendar s.runner e) s e
          else mismatched platform s)
        ≡ ok (v, t, fs, s')
      → TimerStep v fs s'
  chained-Step true run = transcribe-Step _ (apply_timer_to_runner-Outcomes calendar s.runner e) run
  chained-Step false run = inr (ground arith)

  checked-Step :
      (found : List Finding) {v : Verdict} {t : Option Transition} {fs : List Finding}
      {s' : Session}
      → timer_checked platform found s e ≡ ok (v, t, fs, s')
      → TimerStep v fs s'
  checked-Step (f ∷ fs) run = inr (ground arith)
  checked-Step [] run = chained-Step _ run

  -- Whatever the function returns for a timer event, either the verdict is `accepted` without a
  -- finding, the runner has advanced by the clock relation and the transcript has taken the event,
  -- or the verdict is another one and runner and transcript are as before.
  pub timer-Step :
      {v : Verdict} {t : Option Transition} {fs : List Finding} {s' : Session}
      → apply_trace_timer_atomically platform s e ≡ ok (v, t, fs, s')
      → TimerStep v fs s'
  unfolding apply_trace_timer_atomically
  timer-Step run = checked-Step _ run
