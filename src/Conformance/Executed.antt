-- ===== src/Conformance/Executed.antt =====
-- What `execute_case` of scripts/conformance_engine.py reports of a case, whatever its inputs.
use private_match_protocol.Prelude.{
  ℕ, String, ◌≡◌, refl, sym, ◌∙◌, ap, ◌≢◌, ◌≤◌, inl, inr, Bool, true, false, List, [], arith, ltb,
  Bool-cases, str_eq,
}
use mathlib.Core.Path.{subst}
use private_match_protocol.Json.{Json}
use private_match_protocol.Texts.{sorted_set, sorted_set-eq-nil}
use private_match_protocol.Digest.Errors.{Outcome, ok, refused, crashed, ◌>>=◌}
use private_match_protocol.Digest.{Hashing}
use private_match_protocol.Dedup.{empty_registry}
use private_match_protocol.Registry.{Entry}
use private_match_protocol.Transcript.{TranscriptState, initial_transcript}
use private_match_protocol.Runner.{Context, new_runner}
use private_match_protocol.Runner.Atomic.{ok-injective}
use private_match_protocol.Runner.Agreement.{Agreement, Matching, new_runner-Agreement}
use private_match_protocol.Trace.{Platform}
use private_match_protocol.Conformance.Projection.{conformance_state_projection, state_digest}
use private_match_protocol.Conformance.Inputs.{
  rejecting, not_evaluated, timeout, pass, skip, unsupported, RunStatus, Progress,
}
use private_match_protocol.Conformance.Engine.{
  Case, ExecutionActual, Start, start_case, actual, reported, untouched, run_budgeted, run_started,
  execute_case, work_units, reviewed_skip_applies,
}
use private_match_protocol.Conformance.Runs.{run_inputs-Led}
use private_match_protocol.Conformance.Runs.Steps.{Led, still-Kept}

module _ (h : Hashing) (start : Start) (units : ℕ) (p : Progress) where
  -- What the report says of the last progress.
  record Reported (a : ExecutionActual) : Type 0 where
    outcome : a.protocol_outcome ≡ p.protocol_outcome
    status : a.status ≡ p.status
    codes : a.error_codes ≡ sorted_set p.error_codes
    counted : a.accepted_event_count ≡ p.session.transcript.accepted_event_index
    results : a.local_result_state ≡ p.session.runner.accepted_result_state
    spent : a.work_units ≡ units

  report-Reported :
      (projection : Json) (final_state : String)
      → Reported (reported h start units p projection final_state)
  report-Reported projection final_state = record {
    outcome = refl;
    status = refl;
    codes = refl;
    counted = refl;
    results = refl;
    spent = refl;
  }

  report :
      (w : Outcome Json) (v : Outcome String) {a : ExecutionActual}
      → (do projection ← w; final_state ← v; ok (reported h start units p projection final_state))
        ≡ ok a
      → Reported a
  report (ok projection) (ok final_state) run =
      subst Reported (ok-injective run) (report-Reported projection final_state)
  report (ok projection) (refused t) run = absurd (ground arith)
  report (ok projection) crashed run = absurd (ground arith)
  report (refused t) v run = absurd (ground arith)
  report crashed v run = absurd (ground arith)

  actual-Reported : {a : ExecutionActual} → actual h start units p ≡ ok a → Reported a
  unfolding actual
  actual-Reported run = report _ _ run

-- The first session is new: a new runner, and a transcript without events.
pub record Fresh (h : Hashing) (c : Context) (start : Start) : Type 0 where
  pub created : start.session.runner ≡ new_runner c
  pub uncounted : start.session.transcript.accepted_event_index ≡ 0
  pub digested : state_digest h start.session.runner start.session.transcript.dedup ≡ ok start.state

module _ (h : Hashing) (context : Context) where
  initial_uncounted :
      (w : Outcome String) {t : TranscriptState}
      → (do
        genesis ← w
        ok (record { head = genesis; accepted_event_index = 0; dedup = empty_registry }))
        ≡ ok t
      → t.accepted_event_index ≡ 0
  initial_uncounted (ok genesis) run = ap (λ t. t.accepted_event_index) (sym (ok-injective run))
  initial_uncounted (refused x) run = absurd (ground arith)
  initial_uncounted crashed run = absurd (ground arith)

  transcript_uncounted :
      {t : TranscriptState} → initial_transcript h ≡ ok t → t.accepted_event_index ≡ 0
  unfolding initial_transcript
  transcript_uncounted run = initial_uncounted _ run

  started_with :
      (t : TranscriptState) (w : Outcome Json) (v : Outcome String) {start : Start}
      → t.accepted_event_index ≡ 0
      → state_digest h (new_runner context) t.dedup ≡ v
      → (do
        projection ← w
        state ← v
        ok (record {
          session = record { runner = new_runner context; transcript = t };
          state = state;
          projection = projection;
        }))
        ≡ ok start
      → Fresh h context start
  started_with t (ok projection) (ok state) zero_count same run =
      subst (Fresh h context) (ok-injective run)
        (record { created = refl; uncounted = zero_count; digested = same })
  started_with t (ok projection) (refused x) zero_count same run = absurd (ground arith)
  started_with t (ok projection) crashed zero_count same run = absurd (ground arith)
  started_with t (refused x) v zero_count same run = absurd (ground arith)
  started_with t crashed v zero_count same run = absurd (ground arith)

  started_from :
      (w : Outcome TranscriptState) {start : Start}
      → initial_transcript h ≡ w
      → (do
        transcript ← w
        projection ← conformance_state_projection h (new_runner context) transcript.dedup
        state ← state_digest h (new_runner context) transcript.dedup
        ok (record {
          session = record { runner = new_runner context; transcript = transcript };
          state = state;
          projection = projection;
        }))
        ≡ ok start
      → Fresh h context start
  started_from (ok t) same run = started_with t _ _ (transcript_uncounted same) refl run
  started_from (refused x) same run = absurd (ground arith)
  started_from crashed same run = absurd (ground arith)

  pub start-Fresh : {start : Start} → start_case h context ≡ ok start → Fresh h context start
  unfolding start_case
  start-Fresh run = started_from _ refl run

-- What holds of every report of a case.
pub record Executed (c : Case) (a : ExecutionActual) : Type 0 where
  pub bounded : a.accepted_event_count ≤ a.work_units
  pub budgeted : a.status ≢ timeout → a.work_units ≤ c.max_operation_steps
  pub explained : a.protocol_outcome ≡ rejecting → a.error_codes ≢ []
  pub matching : Matching a.local_result_state

module _ (platform : Platform) (lower : List ℕ → List ℕ) (entries : List Entry) (c : Case) where
  open platform use {hashing}

  begun : not_evaluated ≢ rejecting
  begun = ground arith

  module _ (start : Start) (units : ℕ) (p : Progress) {a : ExecutionActual}
      (run : actual hashing start units p ≡ ok a)
      (within : p.status ≢ timeout → units ≤ c.max_operation_steps)
      (fresh : Fresh hashing c.context start) where
    report-Executed : Led units (untouched start pass []) p → Executed c a
    report-Executed led =
        let r = actual-Reported hashing start units p run in
        let held =
          led.stretch.agreement
            (subst Agreement (sym fresh.created) (new_runner-Agreement c.context)) in
        record {
          bounded =
              (let few = led.stretch.counted in
                let none_yet = fresh.uncounted in
                let count = r.counted in let spent = r.spent in omega arith);
          budgeted = λ other.
              subst (λ n. n ≤ c.max_operation_steps) (sym r.spent)
                (within (λ late. other (r.status ∙ late)));
          explained = λ rejected none_left.
              led.explained (λ never. absurd (begun never)) (sym r.outcome ∙ rejected)
                (sorted_set-eq-nil p.error_codes (sym r.codes ∙ none_left));
          matching = subst Matching (sym r.results) held.accepted_match;
        }

  untouched-Led :
      (start : Start) (units : ℕ) (status : RunStatus) (codes : List String)
      → Led units (untouched start pass []) (untouched start status codes)
  untouched-Led start units status codes = record {
    stretch = still-Kept units start.session;
    explained = λ before is. absurd (begun is);
  }

  inputs-Executed :
      (start : Start) (units : ℕ) (w : Outcome Progress) {a : ExecutionActual}
      → units ≤ c.max_operation_steps
      → Fresh hashing c.context start
      → ((p : Progress) → w ≡ ok p → Led units (untouched start pass []) p)
      → (do p ← w; actual hashing start units p) ≡ ok a
      → Executed c a
  inputs-Executed start units (ok p) le fresh led run =
      report-Executed start units p run (λ other. le) fresh (led p refl)
  inputs-Executed start units (refused x) le fresh led run = absurd (ground arith)
  inputs-Executed start units crashed le fresh led run = absurd (ground arith)

  ltb-false : (m n : ℕ) → ltb m n ≡ false → n ≤ m
  ltb-false m n e = ground arith

  budgeted-Executed :
      (start : Start) {a : ExecutionActual}
      → Fresh hashing c.context start
      → run_budgeted platform lower entries c (work_units c.ordered_inputs) start ≡ ok a
      → Executed c a
  budgeted-Executed start fresh run =
      elim (Bool-cases (ltb c.max_operation_steps (work_units c.ordered_inputs))) [
        | inl late ↦
            report-Executed start _ _ (rw late at run) (λ other. absurd (other refl)) fresh
              (untouched-Led start _ timeout _)
        | inr within ↦
            inputs-Executed start _ _ (ltb-false _ _ within) fresh
              (λ p. run_inputs-Led lower platform entries c.materials c.ordered_inputs _ p)
              (rw within at run)
      ]

  started-Executed :
      (skipped : Bool) (start : Start) {a : ExecutionActual}
      → Fresh hashing c.context start
      → run_started platform lower entries c skipped start ≡ ok a
      → Executed c a
  started-Executed true start fresh run =
      report-Executed start 0 _ run (λ other. omega arith) fresh (untouched-Led start 0 skip _)
  started-Executed false start fresh run =
      elim (Bool-cases (str_eq c.authentication_mode "unsupported-real-algorithm/v0.1")) [
        | inl real ↦
            report-Executed start 0 _ (rw real at run) (λ other. omega arith) fresh
              (untouched-Led start 0 unsupported _)
        | inr other ↦ budgeted-Executed start fresh (rw other at run)
      ]

  decided-Executed :
      (w : Outcome Bool) (start : Start) {a : ExecutionActual}
      → Fresh hashing c.context start
      → (do skipped ← w; run_started platform lower entries c skipped start) ≡ ok a
      → Executed c a
  decided-Executed (ok skipped) start fresh run = started-Executed skipped start fresh run
  decided-Executed (refused x) start fresh run = absurd (ground arith)
  decided-Executed crashed start fresh run = absurd (ground arith)

  from_start :
      (w : Outcome Start) {a : ExecutionActual}
      → start_case hashing c.context ≡ w
      → (do
        start ← w
        skipped ← reviewed_skip_applies c.execution_precondition c.adapters
        run_started platform lower entries c skipped start)
        ≡ ok a
      → Executed c a
  from_start (ok start) same run = decided-Executed _ start (start-Fresh hashing c.context same) run
  from_start (refused x) same run = absurd (ground arith)
  from_start crashed same run = absurd (ground arith)

  -- Whatever a case is and however it ends, where `execute_case` reports at all: it counts at most as
  -- many accepted events as units of work; it spends no more units than the case allows, unless it
  -- reports a timeout; it reports a rejection only with an error code; and the accepted results that
  -- it reports are the same reviewed result of both Parties, or there are none.
  pub execute_case-Executed :
      {a : ExecutionActual} → execute_case platform lower entries c ≡ ok a → Executed c a
  unfolding execute_case
  execute_case-Executed run = from_start _ refl run
