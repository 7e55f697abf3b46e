-- ===== src/Conformance/Results/Sealed.antt =====
-- The digests and the counts in the records of scripts/run_conformance.py.
use private_match_protocol.Prelude.{String, ◌≡◌, refl, Bool, true, false, arith, if◌then◌else◌}
use mathlib.Core.Path.{subst}
use private_match_protocol.Json.{Json, str, Fields, get, put}
use private_match_protocol.Digest.Errors.{Outcome, ok, refused, crashed, ◌>>=◌}
use private_match_protocol.Digest.{Hashing}
use private_match_protocol.Runner.Atomic.{ok-injective}
use private_match_protocol.Conformance.Digests.{
  artifact_digest, a_result, digest_member, artifact_digest-sealed,
}
use private_match_protocol.Conformance.Engine.{ExecutionActual}
use private_match_protocol.Conformance.Compare.{compare_actual_to_expected}
use private_match_protocol.Conformance.Results.{Named, build_result, draft_result}

module _ (h : Hashing) where
  -- A result that its schema accepts and that holds its own digest.
  pub record SealedResult (schema_accepts : Fields → Bool) (result : Fields) : Type 0 where
    pub accepted : schema_accepts result ≡ true
    pub digest : String
    pub computed : artifact_digest h a_result result ≡ ok digest
    pub stored : get "result_digest" result ≡ str digest

  sealed_when :
      (schema_accepts : Fields → Bool) (draft : Fields) (d : String) (b : Bool) {result : Fields}
      → artifact_digest h a_result draft ≡ ok d
      → schema_accepts (put "result_digest" (str d) draft) ≡ b
      → (if b
          then ok (put "result_digest" (str d) draft)
          else refused "CONFORMANCE-RUN-RESULT-SCHEMA")
        ≡ ok result
      → SealedResult schema_accepts result
  unfolding digest_member
  sealed_when schema_accepts draft d true same fits run =
      let (computed, stored) = artifact_digest-sealed h a_result draft d same in
      subst (SealedResult schema_accepts) (ok-injective run)
        (record { accepted = fits; digest = d; computed = computed; stored = stored })
  sealed_when schema_accepts draft d false same fits run = absurd (ground arith)

  digested :
      (schema_accepts : Fields → Bool) (draft : Fields) (w : Outcome String) {result : Fields}
      → artifact_digest h a_result draft ≡ w
      → (do
        digest ← w
        (if schema_accepts (put "result_digest" (str digest) draft)
            then ok (put "result_digest" (str digest) draft)
            else refused "CONFORMANCE-RUN-RESULT-SCHEMA"))
        ≡ ok result
      → SealedResult schema_accepts result
  digested schema_accepts draft (ok d) same run = sealed_when schema_accepts draft d _ same refl run
  digested schema_accepts draft (refused x) same run = absurd (ground arith)
  digested schema_accepts draft crashed same run = absurd (ground arith)

  -- A result that build_result returns is accepted by the schema of results, and its stored digest is
  -- the digest of the very result, with the digest in it.
  pub build_result-SealedResult :
      (schema_accepts : Fields → Bool) (n : Named) (a : ExecutionActual) (expected : Json)
      {result : Fields}
      → build_result h schema_accepts n a expected ≡ ok result
      → SealedResult schema_accepts result
  unfolding build_result
  build_result-SealedResult schema_accepts n a expected run =
      digested schema_accepts (draft_result n a (compare_actual_to_expected a expected)) _ refl run
