-- ===== src/Runner/Timer.antt =====
-- `apply_timer_to_runner` of scripts/validate_messages.py: exactly one reviewed timer relation.
pub mod Outcomes
pub mod Readings
pub mod Kept
use Prim.Native.String
use private_match_protocol.Prelude.{
  String, Bool, true, false, Option, none, some, List, [], ◌∷◌, ◌++◌, map, ℤ, pos, ◌*ℤ◌, ltb_ℤ,
  eq_ℤ, str_eq, if◌then◌else◌,
}
use private_match_protocol.Json.{Json, null, str, Fields, get, integer_of}
use private_match_protocol.Findings.{Finding, finding, require, sorted_set}
use private_match_protocol.Phases.{
  closed, aborted, FailureCode, session_expired, evaluation_timeout, consent_expired, Slots,
}
use private_match_protocol.Times.{Calendar, epoch_microseconds}
use private_match_protocol.Clock.{
  ClockState, ConsentWindow, valid, ClockFailure, clock_domain_invalid, clock_rollback,
  clock_jump_exceeded, session_over, authoritative_time_transition,
}
use private_match_protocol.Transitions.{
  Transition, advance_time_noop, advance_time_live, advance_time_expire, evaluation_timed_out,
  consent_timed_out, transition_id,
}
use private_match_protocol.Transcript.{
  TimerEvent, TimerReason, coordinator_clock, session_expiry_threshold, evaluation_deadline,
  consent_expiry_threshold, reason_name, Verdict, accepted, rejected, no_op,
}
use private_match_protocol.Runner.{Runner}

abbrev pub TimerResult : Type 0
TimerResult = Verdict × Option Transition × List Finding × Runner

-- `SESSION_{phase}` and the other failure codes.
unfoldable pub failure_name : ClockFailure → String
failure_name clock_domain_invalid = "CLOCK_DOMAIN_INVALID"
failure_name clock_rollback = "CLOCK_ROLLBACK"
failure_name clock_jump_exceeded = "CLOCK_JUMP_EXCEEDED"
failure_name (session_over closed) = "SESSION_CLOSED"
failure_name (session_over aborted) = "SESSION_ABORTED"
failure_name (session_over _) = "SESSION_EXPIRED"

-- The relation that the derived state shows, its outcome and the reason that it requires.
unfoldable pub relation_of : Bool → FailureCode → Transition × Verdict × TimerReason
relation_of true _ = (advance_time_noop, no_op, coordinator_clock)
relation_of false session_expired = (advance_time_expire, accepted, session_expiry_threshold)
relation_of false evaluation_timeout = (evaluation_timed_out, accepted, evaluation_deadline)
relation_of false consent_expired = (consent_timed_out, accepted, consent_expiry_threshold)
relation_of false _ = (advance_time_live, accepted, coordinator_clock)

abbrev reason_eq : TimerReason → TimerReason → Bool
reason_eq coordinator_clock coordinator_clock = true
reason_eq session_expiry_threshold session_expiry_threshold = true
reason_eq evaluation_deadline evaluation_deadline = true
reason_eq consent_expiry_threshold consent_expiry_threshold = true
reason_eq _ _ = false

-- The committed effect of an accepted relation.
unfoldable pub commit_time : Runner → TimerEvent → ClockState → Transition → Runner
commit_time r e updated t = record r {
  authoritative_time = str e.new_authoritative_time;
  base_context = record r.base_context { authoritative_time = str e.new_authoritative_time };
  phase = updated.phase;
  query_budget_state = updated.query_budget_state;
  disclosure_state = updated.disclosure_state;
  terminal_failure_code = updated.terminal_failure_code;
  party_terminal_category = updated.party_terminal_category;
  audit_lifecycle = r.audit_lifecycle ++ t ∷ [];
}

abbrev timer_state_finding : ClockFailure → Finding
timer_state_finding f = finding "timer-state" "timer.new_authoritative_time" (failure_name f)

abbrev reason_finding : Transition → TimerReason → Finding
reason_finding t reason = finding "timer-reason-effect" "timer.reason_or_source_class" (
    String.◌++◌ "derived "
      (String.◌++◌ (transition_id t) (String.◌++◌ " requires " (reason_name reason))))

abbrev finish : Verdict → Transition → Runner → Runner → TimerResult
finish no_op t updated r = (no_op, some t, [], r)
finish v t updated r = (v, some t, [], updated)

-- After the clock relation: the reason must be the one of the derived effect.
unfoldable pub conclude_timer :
    Runner → TimerEvent → Bool → ClockState × List ClockFailure → TimerResult
unfolding relation_of commit_time sorted_set finding
conclude_timer r e same_time (updated, f ∷ fs) =
    (rejected, none, sorted_set (map timer_state_finding (f ∷ fs)), r)
conclude_timer r e same_time (updated, []) =
    let (t, outcome, reason) = relation_of same_time updated.terminal_failure_code in
    if reason_eq e.reason_or_source_class reason
    then finish outcome t (commit_time r e updated t) r
    else (rejected, none, sorted_set (reason_finding t reason ∷ []), r)

-- The state that the clock relation reads.
unfoldable pub clock_state : Runner → ℤ → ℤ → Option ℤ → Slots (Option ConsentWindow) → ClockState
clock_state r current expiry deadline consent = record {
  authoritative_time = some current;
  session_expires_at = some expiry;
  evaluation_deadline = deadline;
  phase = r.phase;
  consent = consent;
  query_budget_state = r.query_budget_state;
  evaluation_started = r.evaluation_started;
  disclosure_state = r.disclosure_state;
  terminal_failure_code = r.terminal_failure_code;
  party_terminal_category = r.party_terminal_category;
}

abbrev timer_step :
    Option ℤ
    → Option ℤ
    → Option ℤ
    → Option ℤ
    → Option ℤ
    → List Finding
    → Slots (Option ConsentWindow)
    → Runner
    → TimerEvent
    → TimerResult
timer_step (some current) (some proposed) (some expiry) (some jump) deadline [] consent r e =
    conclude_timer r e (eq_ℤ proposed current) (
      authoritative_time_transition (clock_state r current expiry deadline consent) proposed
        (jump *ℤ pos 1000000))
timer_step _ _ _ _ deadline fs consent r e = (rejected, none, sorted_set fs, r)

-- `maximum_jump` where it is an integer that is not negative.
abbrev reviewed_jump : Option ℤ → Option ℤ
reviewed_jump none = none
reviewed_jump (some n) = if ltb_ℤ n (pos 0) then none else some n

abbrev policy_findings : Option ℤ → List Finding → List Finding
policy_findings (some n) fs = fs
policy_findings none fs =
    fs
    ++ finding "timer-policy" "runner.maximum_time_jump_seconds"
        "reviewed non-negative maximum jump is required"
      ∷ []

module _ (cal : Calendar) where
  abbrev deadline_time : Json → List Finding → Option ℤ × List Finding
  deadline_time null fs = (none, fs)
  deadline_time v fs = epoch_microseconds cal v "runner.evaluation_deadline" fs

  abbrev consent_window :
      Option Fields → String → List Finding → Option ConsentWindow × List Finding
  consent_window none place fs = (none, fs)
  consent_window (some c) place fs =
      let (expiry, fs') = epoch_microseconds cal (get "expires_at" c) place fs in
      (some (record { status = valid; expires_at = expiry }), fs')

  -- apply_timer_to_runner
  unfoldable pub apply_timer_to_runner : Runner → TimerEvent → TimerResult
  unfolding require finding epoch_microseconds get sorted_set conclude_timer clock_state
      authoritative_time_transition
  apply_timer_to_runner r e =
      let f1 =
        require (str_eq e.session_id r.base_context.session_context.session_id)
          (finding "timer-session" "timer.session_id" "active session mismatch") [] in
      let (current, f2) =
        epoch_microseconds cal r.authoritative_time "runner.authoritative_time" f1 in
      let (proposed, f3) =
        epoch_microseconds cal (str e.new_authoritative_time) "timer.new_authoritative_time" f2 in
      let (expiry, f4) =
        epoch_microseconds cal r.session_expires_at "runner.session_expires_at" f3 in
      let (deadline, f5) = deadline_time r.evaluation_deadline f4 in
      let jump = reviewed_jump (integer_of r.maximum_time_jump_seconds) in
      let f6 = policy_findings jump f5 in
      let (consent_a, f7) = consent_window r.consents.slot_a "runner.consent.a.expires_at" f6 in
      let (consent_b, f8) = consent_window r.consents.slot_b "runner.consent.b.expires_at" f7 in
      timer_step current proposed expiry jump deadline f8
        (record { slot_a = consent_a; slot_b = consent_b }) r e
