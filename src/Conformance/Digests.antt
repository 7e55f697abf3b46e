-- ===== src/Conformance/Digests.antt =====
-- The digests of the conformance artifacts of scripts/conformance_common.py: an artifact without its
-- own digest, hashed under the domain of its kind.
use private_match_protocol.Prelude.{
  String, ◌≡◌, ◌∙◌, refl, inl, inr, Bool-cases, str_eq, eq_refl, if◌then◌else◌, ap, List, [], ◌∷◌,
}
use Prim.Native.String.{compare}
use text.Mathlib.Text.{is_lt}
use private_match_protocol.Json.{Json, str, obj, arr, Items, Fields, end, field, get, put}
use private_match_protocol.Digest.Errors.{Outcome, ok}
use private_match_protocol.Digest.{Hashing}
use private_match_protocol.Conformance.Projection.{domain_digest, picked}

-- `fs.pop(k, None)`
unfoldable pub remove : String → Fields → Fields
remove k end = end
remove k (field j v fs) = let later = remove k fs in if str_eq j k then later else field j v later

-- The artifacts that hold their own digest.
pub data Artifact : Type 0 where
  a_case a_suite a_result a_run_set an_expected_result a_state_profile an_implementation : Artifact

unfoldable pub domain : Artifact → String
domain a_case = "private-match-conformance-case/v0.1"
domain a_suite = "private-match-conformance-suite/v0.1"
domain a_result = "private-match-conformance-result/v0.1"
domain a_run_set = "private-match-conformance-run-set/v0.1"
domain an_expected_result = "private-match-conformance-expected-result/v0.1"
domain a_state_profile = "private-match-conformance-state-projection-profile/v0.1"
domain an_implementation = "private-match-reference-verifier-implementation/v0.1"

unfoldable pub digest_member : Artifact → String
digest_member a_case = "case_digest"
digest_member a_suite = "suite_digest"
digest_member a_result = "result_digest"
digest_member a_run_set = "run_set_digest"
digest_member an_expected_result = "expected_result_digest"
digest_member a_state_profile = "profile_digest"
digest_member an_implementation = "implementation_digest"

module _ (h : Hashing) where
  -- case_digest, suite_digest, result_digest, run_set_digest, expected_result_digest,
  -- state_projection_profile_digest and implementation_manifest_digest.
  unfoldable pub artifact_digest : Artifact → Fields → Outcome String
  unfolding domain digest_member remove domain_digest
  artifact_digest a fs = domain_digest h (domain a) (obj (remove (digest_member a) fs))

  abbrev input_names : List String
  input_names = "authentication_precondition" ∷ "initial_state_fixture" ∷ "ordered_inputs" ∷ []

  -- input_digest, of a case that has the three members.
  unfoldable pub input_digest : Fields → Outcome String
  unfolding put get domain_digest
  input_digest fs =
      domain_digest h "private-match-conformance-input/v0.1" (obj (picked input_names fs))

  -- suite_tree_digest
  unfoldable pub suite_tree_digest : Items → Outcome String
  unfolding domain_digest
  suite_tree_digest entries =
      domain_digest h "private-match-conformance-suite-tree/v0.1" (arr entries)

-- A member that is put in and taken out again leaves the others.
pub remove-put : (k : String) (v : Json) (fs : Fields) → remove k (put k v fs) ≡ remove k fs
unfolding remove put
remove-put k v end = rw (eq_refl k) refl
remove-put k v (field j w fs) = elim (Bool-cases (str_eq j k)) [
  | inl here ↦ (rw (here, eq_refl k) refl)
  | inr elsewhere ↦ elim (Bool-cases (is_lt (compare k j))) [
    | inl before ↦ (rw (elsewhere, before, eq_refl k) (rw elsewhere refl))
    | inr behind ↦ (rw (elsewhere, behind) (rw (elsewhere, remove-put k v fs) refl))
  ]
]

pub get-put : (k : String) (v : Json) (fs : Fields) → get k (put k v fs) ≡ v
unfolding get put
get-put k v end = rw (eq_refl k) refl
get-put k v (field j w fs) = elim (Bool-cases (str_eq j k)) [
  | inl here ↦ (rw (here, eq_refl k) refl)
  | inr elsewhere ↦ elim (Bool-cases (is_lt (compare k j))) [
    | inl before ↦ (rw (elsewhere, before, eq_refl k) refl)
    | inr behind ↦ (rw (elsewhere, behind) (rw (elsewhere, get-put k v fs) refl))
  ]
]

-- An artifact into which its own digest is written has that digest still, and holds it: the check
-- of the digest member accepts every artifact that is sealed so.
pub artifact_digest-sealed :
    (h : Hashing) (a : Artifact) (fs : Fields) (d : String)
    → artifact_digest h a fs ≡ ok d
    → (let sealed = put (digest_member a) (str d) fs in
        (artifact_digest h a sealed ≡ ok d) × (get (digest_member a) sealed ≡ str d))
unfolding artifact_digest
artifact_digest-sealed h a fs d e = (
  ap (λ x. domain_digest h (domain a) (obj x)) (remove-put (digest_member a) (str d) fs) ∙ e,
  get-put (digest_member a) (str d) fs,
)
