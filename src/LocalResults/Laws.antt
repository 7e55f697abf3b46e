-- ===== src/LocalResults/Laws.antt =====
-- What `apply_profile_local_result_fixture` of scripts/validate_messages.py does to the runner.
use private_match_protocol.Prelude.{
  String, ◌≡◌, refl, sym, ap, ◌∙◌, ◌≢◌, ◌⊎◌, inl, inr, Bool, true, false, List, [], ◌∷◌, ◌++◌,
  arith, if◌then◌else◌, Bool-cases, both_true, not-true, str_eq,
}
use mathlib.Core.Path.{subst}
use private_match_protocol.Json.{Json, str, obj, Fields, get, json_eq, truthy, end, field}
use private_match_protocol.Findings.{Finding, require, sorted_set-ne-nil}
use private_match_protocol.Phases.{Phase, evaluating, phase_eq, Slots, both, either}
use private_match_protocol.Digest.Errors.{Outcome, ok, refused, crashed, ◌>>=◌}
use private_match_protocol.Digest.{Hashing}
use private_match_protocol.Runner.{Runner}
use private_match_protocol.Runner.Atomic.{ok-injective}
use private_match_protocol.Runner.Guards.{append-eq-nil}
use private_match_protocol.Json.{has}
use private_match_protocol.Runner.Evaluation.{is_plaintext_result}
use private_match_protocol.Runner.Invariant.{Inv}
use private_match_protocol.Runner.Agreement.{Agreement, past_result}
use private_match_protocol.LocalResults.{
  apply_profile_local_result_fixture, names_are, judge_results, some_not_plaintext, result_findings,
  identity_findings, state_findings, commit_results, plaintext_value,
}

require-eq-nil :
    (b : Bool) (f : Finding) (fs : List Finding) → require b f fs ≡ [] → (b ≡ true) × (fs ≡ [])
unfolding require
require-eq-nil true f fs e = (refl, e)
require-eq-nil false f [] e = absurd (ground arith)
require-eq-nil false f (g ∷ fs) e = absurd (ground arith)

plaintext_ok : (v : Json) → plaintext_value v ≡ ok true → is_plaintext_result v ≡ true
plaintext_ok v e = ground arith

next_plain :
    (v : Json) (w : Outcome Bool) (later : Outcome Bool)
    → plaintext_value v ≡ w
    → (do plain ← w; if plain then later else ok true) ≡ ok false
    → (is_plaintext_result v ≡ true) × (later ≡ ok false)
next_plain v (ok true) later same e = (plaintext_ok v same, e)
next_plain v (ok false) later same e = absurd (ground arith)
next_plain v (refused t) later same e = absurd (ground arith)
next_plain v crashed later same e = absurd (ground arith)

-- Where no value is refused, every member is a reviewed result.
get-plain :
    (k : String) (fs : Fields)
    → some_not_plaintext fs ≡ ok false
    → has k fs ≡ true
    → is_plaintext_result (get k fs) ≡ true
unfolding has get
get-plain k end e there = absurd (ground arith)
get-plain k (field j v fs) e there =
    let (plain, later) = next_plain v _ (some_not_plaintext fs) refl e in
    elim (Bool-cases (str_eq j k)) [
      | inl here ↦ rw here plain
      | inr elsewhere ↦ rw elsewhere (get-plain k fs later (rw elsewhere at there))
    ]

has_first : (fs : Fields) → names_are ("a" ∷ "b" ∷ []) fs ≡ true → has "a" fs ≡ true
unfolding names_are
has_first fs named = (both_true _ _ (both_true _ _ named).1).0

-- A supplied pair of results: the state it is for, and the results that it leaves.
pub record Supplied (r : Runner) (fixture : Fields) (r' : Runner) : Type 0 where
  pub evaluation : phase_eq r.phase evaluating ≡ true
  pub contributed : both truthy r.contributions ≡ true
  pub first : either truthy r.proposed_result_state ≡ false
  pub session :
      json_eq (get "session_id" fixture) (str r.base_context.session_context.session_id) ≡ true
  pub attempt : json_eq (get "evaluation_attempt_id" fixture) r.evaluation_attempt_id ≡ true
  pub profile : json_eq (get "profile_binding" fixture) r.selected_integration_profile ≡ true
  pub results : Slots Json
  pub matching : json_eq results.slot_a results.slot_b ≡ true
  pub plain : is_plaintext_result results.slot_a ≡ true
  pub written : r' ≡ record r { proposed_result_state = results }

module _ (h : Hashing) (r : Runner) (fixture : Fields) where
  state_cases :
      (fs : List Finding)
      → state_findings h r fixture fs ≡ []
      → (phase_eq r.phase evaluating ≡ true)
        × (both truthy r.contributions ≡ true)
        × (either truthy r.proposed_result_state ≡ false)
        × (fs ≡ [])
  unfolding state_findings
  state_cases fs e =
      let (_, inner) = require-eq-nil _ _ _ e in
      let (held, rest) = require-eq-nil _ _ _ inner in
      let (phase, more) = both_true _ _ held in
      let (contributed, empty) = both_true _ _ more in (phase, contributed, not-true _ empty, rest)

  identity_cases :
      (fs : List Finding)
      → identity_findings r fixture fs ≡ []
      → (json_eq (get "session_id" fixture) (str r.base_context.session_context.session_id) ≡ true)
        × (json_eq (get "evaluation_attempt_id" fixture) r.evaluation_attempt_id ≡ true)
        × (json_eq (get "profile_binding" fixture) r.selected_integration_profile ≡ true)
  unfolding identity_findings
  identity_cases fs e =
      let (held, _) = require-eq-nil _ _ _ e in
      let (session, more) = both_true _ _ held in
      let (attempt, profile) = both_true _ _ more in (session, attempt, profile)

  -- What the function leaves: a supplied pair, or findings and the runner as it was.
  abbrev pub SupplyOutcomes : List Finding → Runner → Type 0
  SupplyOutcomes fs r' = ((fs ≡ []) × Supplied r fixture r') ⊎ ((fs ≢ []) × (r' ≡ r))

  abbrev Judged : List Finding → Slots Json → Type 0
  Judged fs results =
      fs ≡ []
      → (json_eq results.slot_a results.slot_b ≡ true) × (is_plaintext_result results.slot_a ≡ true)

  finish-Outcomes :
      (fs rest w : List Finding) (results : Slots Json) {out : List Finding} {r' : Runner}
      → Judged fs results
      → state_findings h r fixture (rest ++ fs) ≡ w
      → rest ≡ identity_findings r fixture []
      → commit_results w results r ≡ (out, r')
      → SupplyOutcomes out r'
  finish-Outcomes fs rest (f ∷ w) results judged same named e =
      inr ((λ none_left. absurd (sorted_set-ne-nil f w (ground arith))), ground arith)
  finish-Outcomes fs rest [] results judged same named e =
      let (evaluation, contributed, first, clear) = state_cases (rest ++ fs) same in
      let (none_named, none_judged) = append-eq-nil rest fs clear in
      let (session, attempt, profile) = identity_cases [] (sym named ∙ none_named) in
      let (matching, plain) = judged none_judged in
      inl (
        ground arith,
        record {
          evaluation = evaluation;
          contributed = contributed;
          first = first;
          session = session;
          attempt = attempt;
          profile = profile;
          results = results;
          matching = matching;
          plain = plain;
          written = ground arith;
        },
      )

  commit-Outcomes :
      (fs : List Finding) (results : Slots Json) {out : List Finding} {r' : Runner}
      → Judged fs results
      → commit_results (state_findings h r fixture (identity_findings r fixture [] ++ fs)) results r
        ≡ (out, r')
      → SupplyOutcomes out r'
  commit-Outcomes fs results judged e =
      finish-Outcomes fs (identity_findings r fixture []) _ results judged refl refl e

  judge_results-Judged :
      (refused_value : Bool) (shape : Finding) (slots : Slots Json)
      → (refused_value ≡ false → is_plaintext_result slots.slot_a ≡ true)
      → Judged
          (judge_results refused_value shape slots).0
          (judge_results refused_value shape slots).1
  judge_results-Judged true shape slots plain e = absurd (ground arith)
  judge_results-Judged false shape slots plain e = (ground arith, plain refl)

  checked-Judged :
      (results : Fields) (w : Outcome Bool) (shape : Finding) {fs : List Finding}
      {slots : Slots Json}
      → has "a" results ≡ true
      → some_not_plaintext results ≡ w
      → (do
        refused_value ← w
        ok (
            judge_results refused_value shape
              (record { slot_a = get "a" results; slot_b = get "b" results })))
        ≡ ok (fs, slots)
      → Judged fs slots
  checked-Judged results (ok b) shape there same e =
      subst (λ x. Judged x.0 x.1) (ok-injective e)
        (judge_results-Judged b shape
          (record { slot_a = get "a" results; slot_b = get "b" results })
          (λ kept. get-plain "a" results (same ∙ ap ok kept) there))
  checked-Judged results (refused t) shape there same e = absurd (ground arith)
  checked-Judged results crashed shape there same e = absurd (ground arith)

  shape_finding-Judged :
      (f : Finding) (rest : List Finding) (slots : Slots Json) {fs : List Finding}
      {out : Slots Json}
      → (let o : Outcome (List Finding × Slots Json) = ok (f ∷ rest, slots) in o) ≡ ok (fs, out)
      → Judged fs out
  shape_finding-Judged f rest slots e none_left = absurd (ground arith)

  results-Judged :
      (v : Json) {fs : List Finding} {slots : Slots Json}
      → result_findings v ≡ ok (fs, slots)
      → Judged fs slots
  results-Judged (obj results) e = elim (Bool-cases (names_are ("a" ∷ "b" ∷ []) results)) [
    | inl named ↦ checked-Judged results _ _ (has_first results named) refl (rw named at e)
    | inr other ↦ shape_finding-Judged _ _ _ (rw other at e)
  ]
  results-Judged v e = shape_finding-Judged _ _ _ e

  supplied :
      (w : Outcome (List Finding × Slots Json)) {out : List Finding} {r' : Runner}
      → result_findings (get "party_local_results" fixture) ≡ w
      → (do
        x ← w
        ok (
            commit_results
              (state_findings h r fixture (identity_findings r fixture [] ++ x.0))
              x.1
              r))
        ≡ ok (out, r')
      → SupplyOutcomes out r'
  supplied (ok (fs, results)) same e =
      commit-Outcomes fs results (results-Judged _ same) (ok-injective e)
  supplied (refused t) same e = absurd (ground arith)
  supplied crashed same e = absurd (ground arith)

  -- Whatever the function returns, either nothing was found, the session is in its evaluation with both
  -- contributions and no results yet, the fixture names its session, attempt and profile, and the
  -- proposed results become two equal reviewed results and nothing else changes; or something was
  -- found and the runner is as it was.
  pub apply_fixture-Outcomes :
      {out : List Finding} {r' : Runner}
      → apply_profile_local_result_fixture h r fixture ≡ ok (out, r')
      → SupplyOutcomes out r'
  unfolding apply_profile_local_result_fixture
  apply_fixture-Outcomes e = supplied _ refl e

pub Supplied-Inv :
    (r : Runner) (fixture : Fields) (r' : Runner) → Supplied r fixture r' → Inv r → Inv r'
Supplied-Inv r fixture r' a v = subst Inv (sym a.written) (kept a.results)
  where
    kept : (results : Slots Json) → Inv (record r { proposed_result_state = results })
    kept results = ground arith

evaluating_early : (p : Phase) → phase_eq p evaluating ≡ true → past_result p ≡ false
evaluating_early p e = ground arith

pub Supplied-Agreement :
    (r : Runner) (fixture : Fields) (r' : Runner)
    → Supplied r fixture r'
    → Agreement r
    → Agreement r'
Supplied-Agreement r fixture r' a v = subst Agreement (sym a.written) (record {
  proposed_match = (a.matching, λ filled. a.plain);
  accepted_match = v.accepted_match;
  receipt_first = v.receipt_first;
  receipt_late = v.receipt_late;
  accepted_proposed = λ held filled.
      absurd
        (let early = evaluating_early r.phase a.evaluation in let late = v.receipt_late held in cc);
  accepted_only = λ filled. absurd (
      let early = evaluating_early r.phase a.evaluation in
      let late = v.receipt_late (v.receipt_first filled) in cc);
})
