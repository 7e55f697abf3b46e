-- ===== src/Trace/Sessions.antt =====
-- Sessions: a runner and a transcript of scripts/validate_messages.py under any sequence of messages
-- and timer events, accepted or not.
use private_match_protocol.Prelude.{
  ◌≡◌, refl, sym, ◌∙◌, ◌≤◌, inl, inr, true, false, Option, List, arith, ◌⊎◌, ℕ, ◌+◌,
}
use mathlib.Core.Path.{subst}
use private_match_protocol.Findings.{Finding}
use private_match_protocol.Message.{Message}
use private_match_protocol.Materials.{Material, TrustedSubject}
use private_match_protocol.Registry.{Entry}
use private_match_protocol.Digest.Errors.{ok}
use private_match_protocol.Transcript.{TimerEvent, Verdict}
use private_match_protocol.Transitions.{Transition}
use private_match_protocol.Phases.{Phase, is_terminal}
use private_match_protocol.Runner.Invariant.{Inv, is_over}
use private_match_protocol.Runner.Preserved.{apply-Inv}
use private_match_protocol.Runner.Agreement.{Agreement, apply-Agreement}
use private_match_protocol.Runner.Terminal.{apply_over}
use private_match_protocol.Runner.Timer.Kept.{advanced-Inv, advanced-Agreement, advanced_live}
use private_match_protocol.Trace.{
  Platform, Session, TraceOutcome, apply_trace_message_atomically, apply_trace_timer_atomically,
}
use private_match_protocol.Trace.Atomic.{message-Step}
use private_match_protocol.Trace.Timers.{timer-Step}

ended : (p : Phase) → is_over p ≡ true → is_terminal p ≡ false → ⊥
unfolding is_terminal
ended p over live = ground arith

module _ (platform : Platform) where
  open platform use {hashing, calendar}

  -- One event: a message or a timer event, with whatever the functions return for it.
  pub data Event (s : Session) : Session → Type 0 where
    by_message :
        (m : Message) (entries : List Entry) (materials : List Material)
        (requester : Option TrustedSubject) {o : TraceOutcome} {fs : List Finding} {s' : Session}
        → apply_trace_message_atomically platform s m entries materials requester ≡ ok (o, fs, s')
        → Event s s'
    by_timer :
        (e : TimerEvent) {v : Verdict} {t : Option Transition} {fs : List Finding} {s' : Session}
        → apply_trace_timer_atomically platform s e ≡ ok (v, t, fs, s')
        → Event s s'

  -- The sessions that events lead to.
  pub data Reach (start : Session) : Session → Type 0 where
    here : Reach start start
    next : {s s' : Session} → Reach start s → Event s s' → Reach start s'

  pub Event-Inv : {s s' : Session} → Event s s' → Inv s.runner → Inv s'.runner
  Event-Inv {s} (by_message m entries materials requester run) v =
      elim (message-Step platform s m entries materials requester run) [
        | inl (_, _, c) ↦ apply-Inv hashing calendar s.runner m entries materials c.ran v
        | inr (_, same) ↦ subst (λ x. Inv x.runner) (sym same) v
      ]
  Event-Inv {s} {s'} (by_timer e run) v = elim (timer-Step platform s e run) [
    | inl (_, _, c) ↦ advanced-Inv s.runner e s'.runner c.moved v
    | inr (_, same) ↦ subst (λ x. Inv x.runner) (sym same) v
  ]

  -- The invariant of the runner holds after any sequence of events if it holds before.
  pub Reach-Inv : {start s : Session} → Reach start s → Inv start.runner → Inv s.runner
  Reach-Inv here v = v
  Reach-Inv (next earlier event) v = Event-Inv event (Reach-Inv earlier v)

  pub Event-Agreement : {s s' : Session} → Event s s' → Agreement s.runner → Agreement s'.runner
  Event-Agreement {s} (by_message m entries materials requester run) v =
      elim (message-Step platform s m entries materials requester run) [
        | inl (_, _, c) ↦ apply-Agreement hashing calendar s.runner m entries materials c.ran v
        | inr (_, same) ↦ subst (λ x. Agreement x.runner) (sym same) v
      ]
  Event-Agreement {s} {s'} (by_timer e run) v = elim (timer-Step platform s e run) [
    | inl (_, _, c) ↦ advanced-Agreement s.runner e s'.runner c.moved v
    | inr (_, same) ↦ subst (λ x. Agreement x.runner) (sym same) v
  ]

  Event-over : {s s' : Session} → Event s s' → is_over s.runner.phase ≡ true → s' ≡ s
  Event-over {s} (by_message m entries materials requester run) over =
      elim (message-Step platform s m entries materials requester run) [
        | inl (_, _, c) ↦
            absurd ((apply_over hashing calendar s.runner m entries materials c.ran over).0 refl)
        | inr (_, same) ↦ same
      ]
  Event-over {s} {s'} (by_timer e run) over = elim (timer-Step platform s e run) [
    | inl (_, _, c) ↦
        absurd (ended s.runner.phase over (advanced_live s.runner e s'.runner c.moved))
    | inr (_, same) ↦ same
  ]

  -- No sequence of events changes the runner or the transcript of a session that is closed, aborted
  -- or expired.
  pub Reach-over :
      {start s : Session} → Reach start s → is_over start.runner.phase ≡ true → s ≡ start
  Reach-over here over = refl
  Reach-over (next {s} earlier event) over =
      Event-over event
        (subst (λ x. is_over x.runner.phase ≡ true) (sym (Reach-over earlier over)) over)
      ∙ Reach-over earlier over

  pub Event-counted :
      {s s' : Session}
      → Event s s'
      → (s' ≡ s) ⊎ (s'.transcript.accepted_event_index ≡ s.transcript.accepted_event_index + 1)
  Event-counted {s} (by_message m entries materials requester run) =
      elim (message-Step platform s m entries materials requester run) [
        | inl (_, _, c) ↦ inr c.taken.counted
        | inr (_, same) ↦ inl same
      ]
  Event-counted {s} {s'} (by_timer e run) = elim (timer-Step platform s e run) [
    | inl (_, _, c) ↦ inr c.taken.counted
    | inr (_, same) ↦ inl same
  ]

  unchanged_or_later :
      (a b : Session)
      → (b ≡ a) ⊎ (b.transcript.accepted_event_index ≡ a.transcript.accepted_event_index + 1)
      → (start : ℕ) → start ≤ a.transcript.accepted_event_index
      → start ≤ b.transcript.accepted_event_index
  unchanged_or_later a b (inl same) start le =
      subst (λ x. start ≤ x.transcript.accepted_event_index) (sym same) le
  unchanged_or_later a b (inr one) start le = omega arith

  -- The index of accepted events never goes back, and where it is the same after a sequence of
  -- events, nothing at all has changed: neither the runner nor the transcript.
  pub Reach-counted :
      {start s : Session}
      → Reach start s
      → (start.transcript.accepted_event_index ≤ s.transcript.accepted_event_index)
        × (s.transcript.accepted_event_index ≡ start.transcript.accepted_event_index → s ≡ start)
  Reach-counted here = (omega arith, λ same. refl)
  Reach-counted {start} (next {s} {s'} earlier event) =
      let before = Reach-counted earlier in
      elim (Event-counted event) [
        | inl same ↦
            subst
              (λ x.
                (start.transcript.accepted_event_index ≤ x.transcript.accepted_event_index)
                × (x.transcript.accepted_event_index ≡ start.transcript.accepted_event_index
                    → x ≡ start))
              (sym same) before
        | inr one ↦ (let le = before.0 in (omega arith, λ same. absurd (omega arith)))
      ]
