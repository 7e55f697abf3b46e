-- ===== src/Conformance/Runs.antt =====
-- What a run of `execute_case` of scripts/conformance_engine.py does to the session, and what its
-- outcome rests on.
pub mod Steps
use private_match_protocol.Prelude.{
  Bool-cases, ℕ, suc, ◌≡◌, refl, ◌+◌, inl, inr, Option, none, List, [], ◌∷◌, length, arith,
}
use mathlib.Core.Path.{subst}
use private_match_protocol.Findings.{Finding}
use private_match_protocol.Json.{json_eq, Fields}
use private_match_protocol.Digest.Errors.{Outcome, ok, refused, crashed, ◌>>=◌}
use private_match_protocol.Message.{Message}
use private_match_protocol.Materials.{Material, TrustedSubject}
use private_match_protocol.Registry.{Entry}
use private_match_protocol.Transcript.{TimerEvent, Verdict}
use private_match_protocol.Transitions.{Transition}
use private_match_protocol.Runner.{Runner}
use private_match_protocol.Runner.Atomic.{ok-injective}
use private_match_protocol.LocalResults.{apply_profile_local_result_fixture}
use private_match_protocol.Trace.{
  Platform, Session, Traced, apply_trace_message_atomically, apply_trace_timer_atomically,
}
use private_match_protocol.Trace.Sessions.{by_message, by_timer}
use private_match_protocol.Conformance.Inputs.{
  TraceEntry, message_entry, timer_entry, other_entry, Input, trace_fixture, message_fixture,
  raw_message_fixture, timer_fixture, local_result_fixture, fault_fixture, other_input, parsed,
  unparsed, Progress, Control, continue, break, trace_entry, next_entry, next_input, run_trace,
  run_input, run_inputs, traced_message, traced_timer, delivered, ticked, judged, faulted,
  reviewed_fault,
}
use private_match_protocol.Conformance.Engine.{work_units, input_units}
use private_match_protocol.Conformance.Runs.Steps.{
  still-Kept, Event-Kept, supply-Kept, Led, left, still-Led, then-Led, longer-Led, reject_with-Led,
  traced_message-Led, traced_timer-Led, delivered-Led, ticked-Led, judged-Led,
}

module _ (lower : List ℕ → List ℕ) (platform : Platform) (entries : List Entry)
    (materials : List Material) where
  open platform use {hashing}

  entry-Led :
      (e : TraceEntry) (p : Progress) {c : Control}
      → trace_entry lower platform entries materials e p ≡ ok c
      → Led 1 p (left c)
  entry-Led (message_entry m) p run = taken _ refl run
    where
      taken :
          (w : Outcome Traced) {c : Control}
          → apply_trace_message_atomically platform p.session m entries materials none ≡ w
          → (do x ← w; ok (traced_message lower x p)) ≡ ok c
          → Led 1 p (left c)
      taken (ok x) same run =
          subst (λ c. Led 1 p (left c)) (ok-injective run)
            (traced_message-Led lower p x
              (Event-Kept platform (by_message m entries materials none same)))
      taken (refused t) same run = absurd (ground arith)
      taken crashed same run = absurd (ground arith)
  entry-Led (timer_entry e) p run = taken _ refl run
    where
      taken :
          (w : Outcome (Verdict × Option Transition × List Finding × Session)) {c : Control}
          → apply_trace_timer_atomically platform p.session e ≡ w
          → (do x ← w; ok (traced_timer lower x p)) ≡ ok c
          → Led 1 p (left c)
      taken (ok x) same run =
          subst (λ c. Led 1 p (left c)) (ok-injective run)
            (traced_timer-Led lower p x (Event-Kept platform (by_timer e same)))
      taken (refused t) same run = absurd (ground arith)
      taken crashed same run = absurd (ground arith)
  entry-Led other_entry p run = absurd (ground arith)

  entries-Led :
      (es : List TraceEntry) (e : TraceEntry) (p q : Progress) (w : Outcome Control)
      → ((p' : Progress)
          → run_trace lower platform entries materials es p' ≡ ok q
          → Led (length es) p' q)
      → trace_entry lower platform entries materials e p ≡ w
      → (let later = run_trace lower platform entries materials es in
          (do c ← w; next_entry lower platform entries materials c later))
        ≡ ok q
      → Led (suc (length es)) p q
  entries-Led es e p q (ok (continue p')) rest same run =
      longer-Led (omega arith) (then-Led (entry-Led e p same) (rest p' run))
  entries-Led es e p q (ok (break p')) rest same run =
      subst (Led (suc (length es)) p) (ok-injective run)
        (longer-Led (omega arith) (entry-Led e p same))
  entries-Led es e p q (refused t) rest same run = absurd (ground arith)
  entries-Led es e p q crashed rest same run = absurd (ground arith)

  trace-Led :
      (es : List TraceEntry) (p q : Progress)
      → run_trace lower platform entries materials es p ≡ ok q
      → Led (length es) p q
  unfolding run_trace
  trace-Led [] p q run = subst (Led 0 p) (ok-injective run) (still-Led 0 p)
  trace-Led (e ∷ es) p q run = entries-Led es e p q _ (λ p'. trace-Led es p' q) refl run

  traced-Led :
      (es : List TraceEntry) (p : Progress) (w : Outcome Progress) {c : Control}
      → run_trace lower platform entries materials es p ≡ w
      → (do q ← w; ok (continue q)) ≡ ok c
      → Led (length es) p (left c)
  traced-Led es p (ok q) same run =
      subst (λ c. Led (length es) p (left c)) (ok-injective run) (trace-Led es p q same)
  traced-Led es p (refused t) same run = absurd (ground arith)
  traced-Led es p crashed same run = absurd (ground arith)

  message-Led :
      (m : Message) (requester : Option TrustedSubject) (p : Progress) (w : Outcome Traced)
      {c : Control}
      → apply_trace_message_atomically platform p.session m entries materials requester ≡ w
      → (do x ← w; ok (continue (delivered lower x p))) ≡ ok c
      → Led 1 p (left c)
  message-Led m requester p (ok x) same run =
      subst (λ c. Led 1 p (left c)) (ok-injective run)
        (delivered-Led lower p x
          (Event-Kept platform (by_message m entries materials requester same)))
  message-Led m requester p (refused t) same run = absurd (ground arith)
  message-Led m requester p crashed same run = absurd (ground arith)

  timer-Led :
      (e : TimerEvent) (p : Progress)
      (w : Outcome (Verdict × Option Transition × List Finding × Session)) {c : Control}
      → apply_trace_timer_atomically platform p.session e ≡ w
      → (do x ← w; ok (continue (ticked lower x p))) ≡ ok c
      → Led 1 p (left c)
  timer-Led e p (ok x) same run =
      subst (λ c. Led 1 p (left c)) (ok-injective run)
        (ticked-Led lower p x (Event-Kept platform (by_timer e same)))
  timer-Led e p (refused t) same run = absurd (ground arith)
  timer-Led e p crashed same run = absurd (ground arith)

  supply-Led :
      (fixture : Fields) (p : Progress) (w : Outcome (List Finding × Runner)) {c : Control}
      → apply_profile_local_result_fixture hashing p.session.runner fixture ≡ w
      → (do x ← w; ok (continue (judged lower x.0 (record p.session { runner = x.1 }) p))) ≡ ok c
      → Led 1 p (left c)
  supply-Led fixture p (ok (fs, runner)) same run =
      subst (λ c. Led 1 p (left c)) (ok-injective run)
        (judged-Led lower p fs _ (supply-Kept platform p.session fixture same))
  supply-Led fixture p (refused t) same run = absurd (ground arith)
  supply-Led fixture p crashed same run = absurd (ground arith)

  faulted-Led : (p : Progress) → Led 1 p (faulted lower p)
  faulted-Led p = record {
    stretch = still-Kept 1 p.session;
    explained = λ before is. absurd (ground arith);
  }

  input-Led :
      (i : Input) (p : Progress) {c : Control}
      → run_input lower platform entries materials i p ≡ ok c
      → Led (input_units i) p (left c)
  unfolding run_input
  input-Led (trace_fixture es) p run = traced-Led es p _ refl run
  input-Led (message_fixture (unparsed code) requester) p run =
      subst (λ c. Led 1 p (left c)) (ok-injective run)
        (reject_with-Led lower p code p.session (still-Kept 1 p.session))
  input-Led (message_fixture (parsed m) requester) p run = message-Led m requester p _ refl run
  input-Led (raw_message_fixture fs) p run =
      subst (λ c. Led 1 p (left c)) (ok-injective run)
        (judged-Led lower p fs p.session (still-Kept 1 p.session))
  input-Led (timer_fixture e) p run = timer-Led e p _ refl run
  input-Led (local_result_fixture fixture) p run = supply-Led fixture p _ refl run
  input-Led (fault_fixture v) p run = elim (Bool-cases (json_eq v reviewed_fault)) [
    | inl reviewed ↦
        subst (λ c. Led 1 p (left c)) (ok-injective (rw reviewed at run)) (faulted-Led p)
    | inr other ↦ absurd (let wrong = (rw other at run) in ground arith)
  ]
  input-Led other_input p run = absurd (ground arith)

  inputs-Led :
      (is : List Input) (i : Input) (p q : Progress) (w : Outcome Control)
      → ((p' : Progress)
          → run_inputs lower platform entries materials is p' ≡ ok q
          → Led (work_units is) p' q)
      → run_input lower platform entries materials i p ≡ w
      → (let later = run_inputs lower platform entries materials is in
          (do c ← w; next_input lower platform entries materials c later))
        ≡ ok q
      → Led (input_units i + work_units is) p q
  inputs-Led is i p q (ok (continue p')) rest same run = then-Led (input-Led i p same) (rest p' run)
  inputs-Led is i p q (ok (break p')) rest same run =
      subst (Led (input_units i + work_units is) p) (ok-injective run)
        (longer-Led (omega arith) (input-Led i p same))
  inputs-Led is i p q (refused t) rest same run = absurd (ground arith)
  inputs-Led is i p q crashed rest same run = absurd (ground arith)

  -- A run of the inputs keeps the invariant and the agreement of the results, counts no more events
  -- than the inputs have units of work, and ends as rejected only with an error code where it began so.
  pub run_inputs-Led :
      (is : List Input) (p q : Progress)
      → run_inputs lower platform entries materials is p ≡ ok q
      → Led (work_units is) p q
  unfolding run_inputs work_units
  run_inputs-Led [] p q run = subst (Led 0 p) (ok-injective run) (still-Led 0 p)
  run_inputs-Led (i ∷ is) p q run = inputs-Led is i p q _ (λ p'. run_inputs-Led is p' q) refl run
