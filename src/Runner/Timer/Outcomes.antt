-- ===== src/Runner/Timer/Outcomes.antt =====
-- What a timer event does to the runner of `apply_timer_to_runner`.
use private_match_protocol.Prelude.{
  ◌≡◌, refl, ap, ◌∙◌, ◌⊎◌, inl, inr, Bool, true, false, Option, none, some, List, [], ◌∷◌, arith,
  if◌then◌else◌, ℤ, ◌++◌, ◌≢◌, ◌*ℤ◌, pos, eq_ℤ, eq_ℤ_iff, Bool-cases,
}
use private_match_protocol.Json.{str}
use private_match_protocol.Findings.{Finding}
use private_match_protocol.Times.{Calendar}
use private_match_protocol.Phases.{
  Slots, FailureCode, session_expired, evaluation_timeout, consent_expired,
}
use private_match_protocol.Clock.{
  ClockState, ConsentWindow, ClockFailure, authoritative_time_transition,
}
use private_match_protocol.Transcript.{
  TimerEvent, TimerReason, coordinator_clock, session_expiry_threshold, evaluation_deadline,
  consent_expiry_threshold, Verdict, accepted, rejected, no_op,
}
use private_match_protocol.Transitions.{
  Transition, advance_time_live, advance_time_expire, evaluation_timed_out, consent_timed_out,
}
use private_match_protocol.Runner.Timer.Readings.{
  Read, epoch_microseconds-Instant, Instant-epoch_microseconds, deadline_time-DeadlineRead,
  DeadlineRead-deadline_time, consent_window-ConsentRead, ConsentRead-consent_window,
  policy_findings-some, reviewed_jump_lem, require-eq-nil, require-same,
}
use private_match_protocol.Runner.{Runner}
use private_match_protocol.Runner.Timer.{
  apply_timer_to_runner, clock_state, commit_time, conclude_timer, timer_step, relation_of,
  TimerResult, finish, reason_eq,
}
use private_match_protocol.Prelude.{if◌then◌else◌, str_eq}
use private_match_protocol.Json.{integer_of}
use private_match_protocol.Findings.{require, finding}
use private_match_protocol.Times.{epoch_microseconds}
use private_match_protocol.Runner.Timer.{
  deadline_time, reviewed_jump, policy_findings, consent_window,
}

-- The state that the clock relation is given.
abbrev pub observed : Runner → ℤ → ℤ → Option ℤ → Slots (Option ConsentWindow) → ClockState
observed r current expiry deadline consent = record {
  authoritative_time = some current;
  session_expires_at = some expiry;
  evaluation_deadline = deadline;
  phase = r.phase;
  consent = consent;
  query_budget_state = r.query_budget_state;
  evaluation_started = r.evaluation_started;
  disclosure_state = r.disclosure_state;
  terminal_failure_code = r.terminal_failure_code;
  party_terminal_category = r.party_terminal_category;
}

-- The relation that the failure code of the new state shows, and the reason that goes with it.
abbrev pub Explained : FailureCode → Transition → TimerReason → Type 0
Explained session_expired t reason = (t ≡ advance_time_expire) × (reason ≡ session_expiry_threshold)
Explained evaluation_timeout t reason = (t ≡ evaluation_timed_out) × (reason ≡ evaluation_deadline)
Explained consent_expired t reason = (t ≡ consent_timed_out) × (reason ≡ consent_expiry_threshold)
Explained f t reason = (t ≡ advance_time_live) × (reason ≡ coordinator_clock)

-- The runner with the new time and the members of the new state, and the relation in its audit.
abbrev pub advanced_to : Runner → TimerEvent → ClockState → Transition → Runner
advanced_to r e updated t = record r {
  authoritative_time = str e.new_authoritative_time;
  base_context = record r.base_context { authoritative_time = str e.new_authoritative_time };
  phase = updated.phase;
  query_budget_state = updated.query_budget_state;
  disclosure_state = updated.disclosure_state;
  terminal_failure_code = updated.terminal_failure_code;
  party_terminal_category = updated.party_terminal_category;
  audit_lifecycle = r.audit_lifecycle ++ t ∷ [];
}

module _ (cal : Calendar) where
  -- A committed advance: what is read is valid, the time is another one, the clock relation lets it
  -- through, the event gives the reason of the effect, and the effect is written to the runner.
  pub record Advanced (r : Runner) (e : TimerEvent) (r' : Runner) : Type 0 where
    pub current : ℤ
    pub proposed : ℤ
    pub expiry : ℤ
    pub seconds : ℤ
    pub deadline : Option ℤ
    pub consent : Slots (Option ConsentWindow)
    pub updated : ClockState
    pub relation : Transition
    pub reading : Read cal r e current proposed expiry seconds deadline consent
    pub changed : proposed ≢ current
    pub let_through :
        authoritative_time_transition
          (observed r current expiry deadline consent)
          proposed
          (seconds *ℤ pos 1000000)
        ≡ (updated, [])
    pub explained : Explained updated.terminal_failure_code relation e.reason_or_source_class
    pub written : r' ≡ advanced_to r e updated relation

  -- A verdict is `accepted` for a committed advance, and only then.
  abbrev pub TimerOutcomes : Runner → TimerEvent → TimerResult → Type 0
  TimerOutcomes r e x =
      ((x.0 ≡ accepted) × (x.2 ≡ []) × (moved : Advanced r e x.3) × (x.1 ≡ some moved.relation))
      ⊎ (((x.0 ≡ rejected) ⊎ (x.0 ≡ no_op)) × (x.3 ≡ r) × ((r' : Runner) → Advanced r e r' → ⊥))

  -- The same without the last part.
  abbrev Sound : Runner → TimerEvent → TimerResult → Type 0
  Sound r e x =
      ((x.0 ≡ accepted) × (x.2 ≡ []) × (moved : Advanced r e x.3) × (x.1 ≡ some moved.relation))
      ⊎ (((x.0 ≡ rejected) ⊎ (x.0 ≡ no_op)) × (x.3 ≡ r))

  reason_known : (p q : TimerReason) → reason_eq p q ≡ true → p ≡ q
  reason_known p q e = ground arith

  reason_same : (p q : TimerReason) → p ≡ q → reason_eq p q ≡ true
  reason_same p q e = ground arith

  relation_known :
      (f : FailureCode) (reason : TimerReason)
      → (let (t, v, required) = relation_of false f in
          (v ≡ accepted) × (reason ≡ required → Explained f t reason))
  unfolding relation_of
  relation_known f reason = ground arith

  relation_derived :
      (f : FailureCode) (t : Transition) (reason : TimerReason)
      → Explained f t reason
      → relation_of false f ≡ (t, accepted, reason)
  unfolding relation_of
  relation_derived f t reason x = ground arith

  module _ (r : Runner) (e : TimerEvent) (current proposed expiry seconds : ℤ) (deadline : Option ℤ)
      (consent : Slots (Option ConsentWindow))
      (reading : Read cal r e current proposed expiry seconds deadline consent) where
    effect-Sound :
        (u : ClockState) (t : Transition) (v : Verdict) (required : TimerReason) (agree : Bool)
        (fs : List Finding)
        → v ≡ accepted
        → (e.reason_or_source_class ≡ required
            → Explained u.terminal_failure_code t e.reason_or_source_class)
        → reason_eq e.reason_or_source_class required ≡ agree
        → proposed ≢ current
        → authoritative_time_transition
            (observed r current expiry deadline consent)
            proposed
            (seconds *ℤ pos 1000000)
          ≡ (u, [])
        → Sound r e (if agree then finish v t (advanced_to r e u t) r else (rejected, none, fs, r))
    effect-Sound u t v required false fs known explains agreed apart ran = inr (ground arith)
    effect-Sound u t accepted required true fs known explains agreed apart ran = inl (
      refl,
      refl,
      record {
        current = current;
        proposed = proposed;
        expiry = expiry;
        seconds = seconds;
        deadline = deadline;
        consent = consent;
        updated = u;
        relation = t;
        reading = reading;
        changed = apart;
        let_through = ran;
        explained = explains (reason_known _ _ agreed);
        written = refl;
      },
      refl,
    )
    effect-Sound u t v required true fs known explains agreed apart ran = absurd (ground arith)

    no_op_kept :
        (u : ClockState)
        → (let x = conclude_timer r e true (u, []) in
            ((x.0 ≡ rejected) ⊎ (x.0 ≡ no_op)) × (x.3 ≡ r))
    unfolding conclude_timer relation_of
    no_op_kept u = ground arith

    conclude-Sound :
        (same : Bool) (w : ClockState × List ClockFailure)
        → eq_ℤ proposed current ≡ same
        → authoritative_time_transition
            (observed r current expiry deadline consent)
            proposed
            (seconds *ℤ pos 1000000)
          ≡ w
        → Sound r e (conclude_timer r e same w)
    unfolding conclude_timer commit_time
    conclude-Sound same (u, f ∷ fs) apart ran = inr (ground arith)
    conclude-Sound true (u, []) apart ran = inr (no_op_kept u)
    conclude-Sound false (u, []) apart ran =
        let (known, explains) = relation_known u.terminal_failure_code e.reason_or_source_class in
        effect-Sound u _ _ _ _ _ known explains refl
          (λ same. let wrong = (eq_ℤ_iff proposed current).1 same in cc) ran

  timer_step-Sound :
      (r : Runner) (e : TimerEvent) (current proposed expiry jump deadline : Option ℤ)
      (fs : List Finding) (consent : Slots (Option ConsentWindow))
      → ((c p x n : ℤ)
          → current ≡ some c
          → proposed ≡ some p
          → expiry ≡ some x
          → jump ≡ some n
          → fs ≡ []
          → Read cal r e c p x n deadline consent)
      → Sound r e (timer_step current proposed expiry jump deadline fs consent r e)
  unfolding conclude_timer clock_state
  timer_step-Sound r e (some current) (some proposed) (some expiry) (some jump) deadline [] consent
        reads =
      conclude-Sound r e current proposed expiry jump deadline consent
        (reads current proposed expiry jump refl refl refl refl refl) _ _ refl refl
  timer_step-Sound r e current proposed expiry jump deadline fs consent reads = inr (ground arith)

  apply_timer_to_runner-Sound :
      (r : Runner) (e : TimerEvent) → Sound r e (apply_timer_to_runner cal r e)
  unfolding apply_timer_to_runner
  apply_timer_to_runner-Sound r e =
      let f1 =
        require (str_eq e.session_id r.base_context.session_context.session_id)
          (finding "timer-session" "timer.session_id" "active session mismatch") [] in
      let (current, f2) =
        epoch_microseconds cal r.authoritative_time "runner.authoritative_time" f1 in
      let (proposed, f3) =
        epoch_microseconds cal (str e.new_authoritative_time) "timer.new_authoritative_time" f2 in
      let (expiry, f4) =
        epoch_microseconds cal r.session_expires_at "runner.session_expires_at" f3 in
      let (deadline, f5) = deadline_time cal r.evaluation_deadline f4 in
      let jump = reviewed_jump (integer_of r.maximum_time_jump_seconds) in
      let f6 = policy_findings jump f5 in
      let (consent_a, f7) = consent_window cal r.consents.slot_a "runner.consent.a.expires_at" f6 in
      let (consent_b, f8) = consent_window cal r.consents.slot_b "runner.consent.b.expires_at" f7 in
      timer_step-Sound r e current proposed expiry jump deadline f8
        (record { slot_a = consent_a; slot_b = consent_b })
        (λ c p x n at new until policy clear.
          let (e7, b_read) = consent_window-ConsentRead cal r.consents.slot_b _ f7 clear in
          let (e6, a_read) = consent_window-ConsentRead cal r.consents.slot_a _ f6 e7 in
          let (e5, reviewed) = policy_findings-some r.maximum_time_jump_seconds f5 e6 in
          let (e4, deadline_read) = deadline_time-DeadlineRead cal r.evaluation_deadline f4 e5 in
          let (e3, expiry_read) = epoch_microseconds-Instant cal r.session_expires_at _ f3 e4 in
          let (e2, proposed_read) =
            epoch_microseconds-Instant cal (str e.new_authoritative_time) _ f2 e3 in
          let (e1, current_read) = epoch_microseconds-Instant cal r.authoritative_time _ f1 e2 in
          let (integer, not_negative) = reviewed n policy in
          record {
            session = require-eq-nil _ _ _ e1;
            current_read = current_read c at;
            proposed_read = proposed_read p new;
            expiry_read = expiry_read x until;
            deadline_read = deadline_read;
            policy = integer;
            policy_valid = not_negative;
            consent_a_read = a_read;
            consent_b_read = b_read;
          })

  -- Where an advance is committed, the function accepts.
  Read-apply_timer_to_runner :
      (r : Runner) (e : TimerEvent) (c p x n : ℤ) (deadline : Option ℤ)
      (consent : Slots (Option ConsentWindow))
      → Read cal r e c p x n deadline consent
      → apply_timer_to_runner cal r e
        ≡ timer_step (some c) (some p) (some x) (some n) deadline [] consent r e
  unfolding apply_timer_to_runner
  Read-apply_timer_to_runner r e c p x n deadline consent i =
      rw
        (
          require-same e.session_id r.base_context.session_context.session_id
              (finding "timer-session" "timer.session_id" "active session mismatch") i.session,
          Instant-epoch_microseconds cal r.authoritative_time c "runner.authoritative_time" []
              i.current_read,
          Instant-epoch_microseconds cal (str e.new_authoritative_time) p
              "timer.new_authoritative_time" [] i.proposed_read,
          Instant-epoch_microseconds cal r.session_expires_at x "runner.session_expires_at" []
              i.expiry_read,
          DeadlineRead-deadline_time cal r.evaluation_deadline deadline [] i.deadline_read,
          reviewed_jump_lem r.maximum_time_jump_seconds n i.policy i.policy_valid,
          ConsentRead-consent_window cal r.consents.slot_a consent.slot_a
              "runner.consent.a.expires_at" [] i.consent_a_read,
          ConsentRead-consent_window cal r.consents.slot_b consent.slot_b
              "runner.consent.b.expires_at" [] i.consent_b_read,
        )
        refl

  concluded :
      (r r' : Runner) (e : TimerEvent) (a : Advanced r e r')
      → (conclude_timer r e (eq_ℤ a.proposed a.current) (a.updated, [])).0 ≡ accepted
  unfolding conclude_timer
  concluded r r' e a = elim (Bool-cases (eq_ℤ a.proposed a.current)) [
    | inl same ↦ absurd (a.changed ((eq_ℤ_iff a.proposed a.current).0 same))
    | inr apart ↦
        (rw
          (
            apart,
            relation_derived a.updated.terminal_failure_code a.relation e.reason_or_source_class
                a.explained,
            reason_same e.reason_or_source_class e.reason_or_source_class refl,
          )
          refl)
  ]

  Advanced-accepted :
      (r r' : Runner) (e : TimerEvent)
      → Advanced r e r'
      → (apply_timer_to_runner cal r e).0 ≡ accepted
  unfolding clock_state
  Advanced-accepted r r' e a =
      ap (λ (x : TimerResult). x.0)
        (Read-apply_timer_to_runner r e a.current a.proposed a.expiry a.seconds a.deadline a.consent
          a.reading)
      ∙ (ap (λ w. (conclude_timer r e (eq_ℤ a.proposed a.current) w).0) a.let_through
          ∙ concluded r r' e a)

  -- Every result of the function for a timer event. Where the event is for the session, the current and
  -- the new time, the session's expiry, the deadline and the consents' expiries that are present are
  -- instants, the maximum jump is an integer that is not negative, the new time is another one, the
  -- clock relation lets the advance through at these values, with the jump in microseconds, and the
  -- event gives the reason of the effect: it is `accepted` without a finding, with the transition of
  -- the effect, and the new time and state are written to the runner, with the transition in its audit.
  -- In every other case it is `rejected` or `no_op`, and the runner is as it was.
  pub apply_timer_to_runner-Outcomes :
      (r : Runner) (e : TimerEvent) → TimerOutcomes r e (apply_timer_to_runner cal r e)
  apply_timer_to_runner-Outcomes r e = elim (apply_timer_to_runner-Sound r e) [
    | inl done ↦ inl done
    | inr (inl wrong, kept) ↦
        inr (inl wrong, kept, λ r' a. let right = Advanced-accepted r r' e a in absurd (cc))
    | inr (inr wrong, kept) ↦
        inr (inr wrong, kept, λ r' a. let right = Advanced-accepted r r' e a in absurd (cc))
  ]
