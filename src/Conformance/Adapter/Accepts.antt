-- ===== src/Conformance/Adapter/Accepts.antt =====
-- When `compare` of scripts/compare_adapter_result.py finds nothing.
use private_match_protocol.Prelude.{
  String, ◌≡◌, refl, ◌↔◌, Bool, true, inl, inr, List, [], ◌∷◌, arith, Bool-cases, ap, ◌≢◌, eq_iff,
  eq_refl, false,
}
use mathlib.Core.Path.{subst}
use private_match_protocol.Json.{obj, bool, end, field, put}
use private_match_protocol.Conformance.Adapter.{expected_mutation, normal, test_fixture, other_mode}
use private_match_protocol.Json.{Json, str, Fields, get, json_eq}
use private_match_protocol.Texts.{sorted_set, sorted_set-eq-nil}
use private_match_protocol.Checks.{append-eq-nil}
use private_match_protocol.Digest.Errors.{Outcome, ok, refused, crashed, ◌>>=◌}
use private_match_protocol.Digest.{Hashing}
use private_match_protocol.Runner.Atomic.{ok-injective}
use private_match_protocol.Conformance.Digests.{artifact_digest, a_result}
use private_match_protocol.Conformance.Adapter.{
  AdapterResult, Fixed, Mode, exact, field_errors, mode_holds, all_errors, error_unless, same_texts,
  compare,
}

-- Every member has its value.
pub data Matches (fs : Fields) : List (String × Json × String) → Type 0 where
  none_left : Matches fs []
  next :
      {k code : String} {v : Json} {rows : List (String × Json × String)}
      → json_eq (get k fs) v ≡ true
      → Matches fs rows
      → Matches fs ((k, v, code) ∷ rows)

-- The member holds the value.
abbrev pub Holds : Fields → String → Json → Type 0
Holds fs k v = json_eq (get k fs) v ≡ true

-- What the assertions of the case say of each part of the state, in the order of the case: whether it
-- is `changed`.
abbrev pub Summary : Fields → Fields → Type 0
Summary end end = Unit
Summary (field part assertion asserted) (field name said summary) =
    (name ≡ part) × (said ≡ bool (json_eq assertion (str "changed"))) × Summary asserted summary
Summary _ _ = ⊥

-- The identity and the status that a result has in each mode.
abbrev pub Allowed : Mode → AdapterResult → Type 0
Allowed test_fixture a =
    Holds a.members "adapter_mode" (str "test-fixture")
    × Holds a.members "artifact_status" (str "test-only")
    × (json_eq a.adapter_id (str "synthetic-offline-adapter-fixture") ≡ true)
    × (a.limitations
        ≡ "Synthetic offline comparison fixture; not an independent implementation or interoperability certification."
          ∷ [])
Allowed normal a =
    Holds a.members "adapter_mode" (str "independent-result")
    × Holds a.members "artifact_status" (str "draft")
    × (json_eq a.adapter_id (str "synthetic-offline-adapter-fixture") ≡ false)
    × (a.limitations ≢ [])
Allowed other_mode a = ⊥

module _ (h : Hashing) (a : AdapterResult) (f : Fixed) (mode : Mode) where
  -- A result that the case, its own digest and its mode all allow.
  pub record Interoperable : Type 0 where
    pub suite : Holds a.members "suite" (
        obj (
          field "digest" f.suite_digest
            (field "id" f.suite_id (field "version" f.suite_version end))))
    pub case_reference : Holds a.members "case" (
        obj (
          field "digest" f.case_digest
            (field "id" f.case_id (field "input_digest" f.conformance_input_digest end))))
    pub status : Holds a.members "status" f.expected.runner_status
    pub outcome : Holds a.members "protocol_outcome" f.expected.protocol_outcome
    pub codes : Holds a.members "error_codes" f.expected.error_codes
    pub initial_state : Holds a.members "initial_state_digest" f.expected.initial_state_digest
    pub final_state : Holds a.members "final_state_digest" f.expected.state_digest
    pub initial_head : Holds a.members "initial_transcript_head" f.expected.initial_transcript_head
    pub final_head : Holds a.members "final_transcript_head" f.expected.transcript_head
    pub count : Holds a.members "accepted_event_count" f.expected.accepted_event_count
    pub summary : Fields
    pub summarised : Summary f.expected.mutation_assertions summary
    pub mutation : Holds a.members "mutation_summary" (obj summary)
    pub cached : Holds a.members "cached_response_authorized" f.expected.cached_response_authorized
    pub digest : String
    pub computed : artifact_digest h a_result a.members ≡ ok digest
    pub stored : Holds a.members "result_digest" (str digest)
    pub ordered : a.limitations ≡ sorted_set a.limitations
    pub allowed : Allowed mode a

-- The two lists of texts are the same.
same_texts_iff : (xs ys : List String) → (same_texts xs ys ≡ true) ↔ (xs ≡ ys)
same_texts_iff xs ys =
    (sound xs ys, λ same. subst (λ zs. same_texts xs zs ≡ true) same (same_refl xs))
  where
    sound : (xs ys : List String) → same_texts xs ys ≡ true → xs ≡ ys
    sound [] [] e = refl
    sound (x ∷ xs) (y ∷ ys) e = ground (arith, eq_iff x y, sound xs ys)
    sound xs ys e = absurd (ground arith)

    same_refl : (xs : List String) → same_texts xs xs ≡ true
    same_refl [] = refl
    same_refl (x ∷ xs) = rw (eq_refl x) (same_refl xs)

mode_iff : (mode : Mode) (a : AdapterResult) → (mode_holds mode a ≡ true) ↔ Allowed mode a
unfolding mode_holds
mode_iff test_fixture a =
    let texts = same_texts_iff a.limitations (
      "Synthetic offline comparison fixture; not an independent implementation or interoperability certification."
      ∷ []) in
    (
      (λ e. (ground arith, ground arith, ground arith, texts.0 (ground arith))),
      (λ x. let same = texts.1 x.3 in let e0 = x.0 in let e1 = x.1 in let e2 = x.2 in ground arith),
    )
mode_iff normal a =
    let texts = same_texts_iff a.limitations [] in
    (
      (λ e. (
        ground arith,
        ground arith,
        ground arith,
        λ none_said. let same = texts.1 none_said in ground arith,
      )),
      (λ x. elim (Bool-cases (same_texts a.limitations [])) [
        | inl same ↦ absurd (x.3 (texts.0 same))
        | inr other ↦ (let e0 = x.0 in let e1 = x.1 in let e2 = x.2 in ground arith)
      ]),
    )
mode_iff other_mode a = ((λ e. cc), λ x. absurd x)

-- The summary of the code is the one that the assertions fix.
expected_mutation-Summary : (fs : Fields) → Summary fs (expected_mutation fs)
unfolding expected_mutation
expected_mutation-Summary end = tt
expected_mutation-Summary (field k v fs) = (refl, refl, expected_mutation-Summary fs)

Summary-expected_mutation : (fs gs : Fields) → Summary fs gs → gs ≡ expected_mutation fs
unfolding expected_mutation
Summary-expected_mutation end end s = refl
Summary-expected_mutation (field k v fs) (field j w gs) (name, said, more) =
    rw (name, said, Summary-expected_mutation fs gs more) refl
Summary-expected_mutation fs gs s = absurd (ground arith)

field_errors_none :
    (fs : Fields) (rows : List (String × Json × String))
    → field_errors fs rows ≡ []
    → Matches fs rows
unfolding field_errors
field_errors_none fs [] e = none_left
field_errors_none fs ((k, v, code) ∷ rows) e = elim (Bool-cases (json_eq (get k fs) v)) [
  | inl same ↦ next same (field_errors_none fs rows (rw same at e))
  | inr other ↦ absurd (let wrong = (rw other at e) in ground arith)
]

matching_none :
    (fs : Fields) (rows : List (String × Json × String))
    → Matches fs rows
    → field_errors fs rows ≡ []
unfolding field_errors
matching_none fs [] none_left = refl
matching_none fs ((k, v, code) ∷ rows) (next same more) = rw same (matching_none fs rows more)

unless_none : (b : Bool) (code : String) → error_unless b code ≡ [] → b ≡ true
unless_none b code e = ground arith

module _ (h : Hashing) (a : AdapterResult) (f : Fixed) (mode : Mode) where
  -- The fields of the record from the table of the code, and back.
  from_table :
      (digest : String)
      → Matches a.members (exact f)
      → artifact_digest h a_result a.members ≡ ok digest
      → json_eq (get "result_digest" a.members) (str digest) ≡ true
      → same_texts a.limitations (sorted_set a.limitations) ≡ true
      → mode_holds mode a ≡ true
      → Interoperable h a f mode
  unfolding put
  from_table digest
        (next suite (
          next case_reference (
            next status (
              next outcome (
                next codes (
                  next initial_state (
                    next final_state (
                      next initial_head (
                        next final_head
                          (next count (next mutation (next cached none_left))))))))))))
        computed stored ordered allowed =
      record {
        suite = suite;
        case_reference = case_reference;
        status = status;
        outcome = outcome;
        codes = codes;
        initial_state = initial_state;
        final_state = final_state;
        initial_head = initial_head;
        final_head = final_head;
        count = count;
        summary = expected_mutation f.expected.mutation_assertions;
        summarised = expected_mutation-Summary f.expected.mutation_assertions;
        mutation = mutation;
        cached = cached;
        digest = digest;
        computed = computed;
        stored = stored;
        ordered = (same_texts_iff _ _).0 ordered;
        allowed = (mode_iff mode a).0 allowed;
      }

  to_table : Interoperable h a f mode → Matches a.members (exact f)
  unfolding put
  to_table i =
      let mutation =
        subst (λ fs. json_eq (get "mutation_summary" a.members) (obj fs) ≡ true)
          (Summary-expected_mutation _ i.summary i.summarised) i.mutation in
      next i.suite (
        next i.case_reference (
          next i.status (
            next i.outcome (
              next i.codes (
                next i.initial_state (
                  next i.final_state (
                    next i.initial_head (
                      next i.final_head
                        (next i.count (next mutation (next i.cached none_left)))))))))))

  accepted :
      (w : Outcome String)
      → artifact_digest h a_result a.members ≡ w
      → (do digest ← w; ok (sorted_set (all_errors f mode a digest))) ≡ ok []
      → Interoperable h a f mode
  accepted (ok d) same e =
      let none_found = sorted_set-eq-nil (all_errors f mode a d) (ok-injective e) in
      let (fields, rest) = append-eq-nil _ _ none_found in
      let (digest, more) = append-eq-nil _ _ rest in
      let (ordered, allowed) = append-eq-nil _ _ more in
      from_table d (field_errors_none a.members (exact f) fields) same (unless_none _ _ digest)
        (unless_none _ _ ordered) (unless_none _ _ allowed)
  accepted (refused x) same e = absurd (ground arith)
  accepted crashed same e = absurd (ground arith)

  no_errors : (i : Interoperable h a f mode) → all_errors f mode a i.digest ≡ []
  no_errors i =
      rw
        (
          matching_none a.members (exact f) (to_table i),
          i.stored,
          (same_texts_iff _ _).1 i.ordered,
          (mode_iff mode a).1 i.allowed,
        )
        refl

  -- The comparison finds nothing exactly where the twelve compared members are those that the suite,
  -- the case and its expected result give, the stored result digest is the digest of the result, the
  -- limitations are in order without repetition, and the result has the adapter mode, the artifact
  -- status, the adapter identity and the limitations of its mode; there is none for another mode.
  pub compare_iff : (compare h a f mode ≡ ok []) ↔ Interoperable h a f mode
  unfolding compare sorted_set
  compare_iff = (
    (λ run. accepted _ refl run),
    (λ i. (rw i.computed (ap (λ es. ok (sorted_set es)) (no_errors i)))),
  )
