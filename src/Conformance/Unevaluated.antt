-- ===== src/Conformance/Unevaluated.antt =====
-- The cases that `execute_case` of scripts/conformance_engine.py does not evaluate: a reviewed skip, an
-- unsupported authentication mode, and more work than the case allows.
use private_match_protocol.Prelude.{
  ℕ, String, ◌≡◌, refl, sym, ◌≢◌, ◌⊎◌, inl, inr, Bool, true, false, List, [], ◌∷◌, arith, ltb,
  Bool-cases, str_eq, eq_refl, none,
}
use mathlib.Core.Path.{subst}
use private_match_protocol.Json.{Json}
use private_match_protocol.Digest.Errors.{Outcome, ok, refused, crashed, ◌>>=◌}
use private_match_protocol.Digest.{Hashing}
use private_match_protocol.Registry.{Entry}
use private_match_protocol.Texts.{sorted_set-eq-nil}
use private_match_protocol.Conformance.Names.{budget_name}
use private_match_protocol.Conformance.Projection.{conformance_state_projection}
use private_match_protocol.Runner.Atomic.{ok-injective}
use private_match_protocol.Transitions.{Transition, transition_id}
use private_match_protocol.Runner.{Context}
use private_match_protocol.Trace.{Platform}
use private_match_protocol.Conformance.Inputs.{
  not_evaluated, RunStatus, pass, timeout, skip, unsupported,
}
use private_match_protocol.Conformance.Engine.{
  Case, ExecutionActual, Start, start_case, actual, reported, untouched, run_started, execute_case,
  work_units, reviewed_skip_applies, same_transitions,
}
use private_match_protocol.Conformance.Executed.{Fresh, start-Fresh}

-- Nothing of the session changed, and the report says so.
pub record Unevaluated (a : ExecutionActual) : Type 0 where
  pub undecided : a.protocol_outcome ≡ not_evaluated
  pub failing : a.status ≢ pass
  pub coded : a.error_codes ≢ []
  pub same_state : a.final_state_digest ≡ a.initial_state_digest
  pub same_head : a.final_transcript_head ≡ a.initial_transcript_head
  pub unchanged :
      a.mutation_summary
      ≡ record { state = false; transcript = false; budget = false; audit = false }
  pub unanswered : a.cached_response_authorized ≡ none

transitions_same : (ts : List Transition) → same_transitions ts ts ≡ true
transitions_same [] = refl
transitions_same (t ∷ ts) = rw (eq_refl (transition_id t)) (transitions_same ts)

module _ (h : Hashing) (start : Start) (units : ℕ) (status : RunStatus) (code : String)
    (other : status ≢ pass) where
  report-Unevaluated :
      (projection : Json)
      → Unevaluated
          (reported h start units (untouched start status (code ∷ [])) projection start.state)
  report-Unevaluated projection = record {
    undecided = refl;
    failing = other;
    coded = λ none_left.
        absurd (let none_there = sorted_set-eq-nil (code ∷ []) none_left in ground arith);
    same_state = refl;
    same_head = refl;
    unchanged =
        rw
          (
            eq_refl start.state,
            eq_refl start.session.transcript.head,
            eq_refl (budget_name start.session.runner.query_budget_state),
            transitions_same start.session.runner.audit_lifecycle,
          )
          refl;
    unanswered = refl;
  }

  projected :
      (w : Outcome Json) {a : ExecutionActual}
      → (do
        projection ← w
        ok (reported h start units (untouched start status (code ∷ [])) projection start.state))
        ≡ ok a
      → Unevaluated a
  projected (ok projection) run =
      subst Unevaluated (ok-injective run) (report-Unevaluated projection)
  projected (refused x) run = absurd (ground arith)
  projected crashed run = absurd (ground arith)

  digested_as :
      (v : Outcome String) {a : ExecutionActual}
      → v ≡ ok start.state
      → (do
        projection ←
            conformance_state_projection h start.session.runner start.session.transcript.dedup
        final_state ← v
        ok (reported h start units (untouched start status (code ∷ [])) projection final_state))
        ≡ ok a
      → Unevaluated a
  digested_as v {a} same run = projected _ (
      subst
        (λ d.
          (do
            projection ←
                conformance_state_projection h start.session.runner start.session.transcript.dedup
            final_state ← d
            ok (reported h start units (untouched start status (code ∷ [])) projection final_state))
          ≡ ok a)
        same run)

  actual-Unevaluated :
      {context : Context} {a : ExecutionActual}
      → Fresh h context start
      → actual h start units (untouched start status (code ∷ [])) ≡ ok a
      → Unevaluated a
  unfolding actual
  actual-Unevaluated fresh run = digested_as _ fresh.digested run

module _ (platform : Platform) (lower : List ℕ → List ℕ) (entries : List Entry) (c : Case) where
  open platform use {hashing}

  not_skip : skip ≢ pass
  not_skip = ground arith

  not_unsupported : unsupported ≢ pass
  not_unsupported = ground arith

  not_timeout : timeout ≢ pass
  not_timeout = ground arith

  abbrev Reason : Bool → Type 0
  Reason skipped =
      (skipped ≡ true)
      ⊎ ((str_eq c.authentication_mode "unsupported-real-algorithm/v0.1" ≡ true)
          ⊎ (ltb c.max_operation_steps (work_units c.ordered_inputs) ≡ true))

  started-Unevaluated :
      (skipped : Bool) (start : Start) {a : ExecutionActual}
      → Fresh hashing c.context start
      → Reason skipped
      → run_started platform lower entries c skipped start ≡ ok a
      → Unevaluated a
  started-Unevaluated true start fresh why run =
      actual-Unevaluated hashing start 0 skip _ not_skip fresh run
  started-Unevaluated false start fresh why run =
      elim (Bool-cases (str_eq c.authentication_mode "unsupported-real-algorithm/v0.1")) [
        | inl real ↦
            actual-Unevaluated hashing start 0 unsupported _ not_unsupported fresh (rw real at run)
        | inr other ↦ elim why [
          | inl skipped ↦ absurd (ground arith)
          | inr (inl real) ↦ absurd (ground arith)
          | inr (inr late) ↦
              actual-Unevaluated hashing start _ timeout _ not_timeout fresh
                (rw late at (rw other at run))
        ]
      ]

  from_start :
      (w : Outcome Start) (d : Outcome Bool) (skipped : Bool) {a : ExecutionActual}
      → start_case hashing c.context ≡ w
      → d ≡ ok skipped
      → Reason skipped
      → (do start ← w; chosen ← d; run_started platform lower entries c chosen start) ≡ ok a
      → Unevaluated a
  from_start (ok start) (ok chosen) skipped same is why run =
      started-Unevaluated chosen start (start-Fresh hashing c.context same)
        (subst Reason (sym (ok-injective is)) why) run
  from_start (ok start) (refused x) skipped same is why run = absurd (ground arith)
  from_start (ok start) crashed skipped same is why run = absurd (ground arith)
  from_start (refused x) d skipped same is why run = absurd (ground arith)
  from_start crashed d skipped same is why run = absurd (ground arith)

  -- A case whose reviewed skip applies, whose authentication mode is unsupported, or whose inputs are
  -- more work than it allows, is reported as not evaluated, with a status other than `pass` and an error
  -- code, with the first digest and the first transcript head as the last ones, and with no mutation.
  pub execute_case-Unevaluated :
      (skipped : Bool) {a : ExecutionActual}
      → reviewed_skip_applies c.execution_precondition c.adapters ≡ ok skipped
      → (skipped ≡ true)
        ⊎ ((str_eq c.authentication_mode "unsupported-real-algorithm/v0.1" ≡ true)
            ⊎ (ltb c.max_operation_steps (work_units c.ordered_inputs) ≡ true))
      → execute_case platform lower entries c ≡ ok a
      → Unevaluated a
  unfolding execute_case
  execute_case-Unevaluated skipped is why run = from_start _ _ skipped refl is why run
