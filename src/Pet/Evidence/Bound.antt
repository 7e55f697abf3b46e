-- ===== src/Pet/Evidence/Bound.antt =====
-- What the checks of an acknowledgment in scripts/pet_profiles.py establish.
use private_match_protocol.Prelude.{String, ◌≡◌, refl, sym, ap, ◌∙◌, ◌↔◌, true, false, arith}
use mathlib.Core.Path.{subst}
use private_match_protocol.Json.{Json, obj, Fields, get, put}
use private_match_protocol.Checks.{AllHold}
use private_match_protocol.Digest.Errors.{Outcome, ok, refused, crashed, ◌>>=◌}
use private_match_protocol.Digest.{Hashing}
use private_match_protocol.Conformance.Projection.{picked, domain_digest}
use private_match_protocol.Conformance.Digests.{remove-put, get-put}
use private_match_protocol.Pet.Evidence.Rows.{
  Bound, require_all-ok, require_all-AllHold, closed_rows, named_rows, from_rows,
}
use private_match_protocol.Pet.Evidence.{
  require_all, evidence_rows, evidence_keys, require_acknowledgment_evidence_binding,
  acknowledgment_evidence_digest, context_rows, stored_row, acknowledged_binding,
}

module _ (h : Hashing) (party : String) (observed authority : Fields) where
  required :
      (v : Json) (b : Fields)
      → require_acknowledgment_evidence_binding true v ≡ ok b
      → (fs : Fields) × (v ≡ obj fs)
        × AllHold (evidence_rows true fs)
        × (b ≡ picked (evidence_keys true) fs)
  unfolding require_acknowledgment_evidence_binding
  required (obj fs) b e =
      let (held, same) =
        require_all-ok (evidence_rows true fs) (picked (evidence_keys true) fs) b e in
      (fs, refl, held, same)
  required v b e = absurd (ground arith)

  digested :
      (v : Json) (b : Fields) (w : Outcome String) (c : Fields)
      → require_acknowledgment_evidence_binding true v ≡ ok b
      → AllHold (context_rows h party observed authority b)
      → acknowledgment_evidence_digest h b ≡ w
      → (do digest ← w; require_all (stored_row h digest b) b) ≡ ok c
      → Bound h party observed authority v c
  digested v b (ok d) c valid context same run =
      let (fs, given, closed, taken) = required v b valid in
      let (held, kept) = require_all-ok (stored_row h d b) b c run in
      subst (Bound h party observed authority v) (sym kept)
        (from_rows h party observed authority v b fs d given closed taken context same held.0)
  digested v b (refused x) c valid context same run = absurd (ground arith)
  digested v b crashed c valid context same run = absurd (ground arith)

  compared_as :
      (v : Json) (b c : Fields) (w : Outcome Fields)
      → require_acknowledgment_evidence_binding true v ≡ ok b
      → require_all (context_rows h party observed authority b) b ≡ w
      → (do
        compared ← w
        digest ← acknowledgment_evidence_digest h compared
        require_all (stored_row h digest compared) compared)
        ≡ ok c
      → Bound h party observed authority v c
  compared_as v b c (ok x) valid same run =
      let (held, kept) = require_all-ok _ b x same in
      digested v b _ c valid held refl (
        subst
          (λ y.
            (do digest ← acknowledgment_evidence_digest h y; require_all (stored_row h digest y) y)
            ≡ ok c)
          kept run)
  compared_as v b c (refused x) valid same run = absurd (ground arith)
  compared_as v b c crashed valid same run = absurd (ground arith)

  validated_as :
      (v : Json) (c : Fields) (w : Outcome Fields)
      → require_acknowledgment_evidence_binding true v ≡ w
      → (do
        b ← w
        compared ← require_all (context_rows h party observed authority b) b
        digest ← acknowledgment_evidence_digest h compared
        require_all (stored_row h digest compared) compared)
        ≡ ok c
      → Bound h party observed authority v c
  validated_as v c (ok b) same run = compared_as v b c _ same refl run
  validated_as v c (refused x) same run = absurd (ground arith)
  validated_as v c crashed same run = absurd (ground arith)

  bound :
      (v : Json) (b : Fields)
      → acknowledged_binding h party observed authority v ≡ ok b
      → Bound h party observed authority v b
  unfolding acknowledged_binding
  bound v b run = validated_as v b _ refl run

  given_back :
      (v : Json) (b : Fields)
      → Bound h party observed authority v b
      → require_acknowledgment_evidence_binding true v ≡ ok b
  unfolding require_acknowledgment_evidence_binding
  given_back v b i =
      ap (λ x. require_acknowledgment_evidence_binding true x) i.given
      ∙ (require_all-AllHold (evidence_rows true i.members) (picked (evidence_keys true) i.members)
            (closed_rows h party observed authority v b i)
          ∙ ap ok (sym i.taken))

  accepted :
      (v : Json) (b : Fields)
      → Bound h party observed authority v b
      → acknowledged_binding h party observed authority v ≡ ok b
  unfolding acknowledged_binding
  accepted v b i =
      ap
        (λ w. (do
          x ← w
          compared ← require_all (context_rows h party observed authority x) x
          digest ← acknowledgment_evidence_digest h compared
          require_all (stored_row h digest compared) compared))
        (given_back v b i)
      ∙ (ap
            (λ w. (do
              compared ← w
              digest ← acknowledgment_evidence_digest h compared
              require_all (stored_row h digest compared) compared))
            (require_all-AllHold (context_rows h party observed authority b) b
              (named_rows h party observed authority v b i))
          ∙ (ap (λ w. (do digest ← w; require_all (stored_row h digest b) b)) i.computed
              ∙ require_all-AllHold (stored_row h i.digest b) b (i.stored, tt)))

  -- The acknowledgment of a Party is accepted, as b, exactly where its members are the closed evidence
  -- members with valid values, b is these members, they name the Party, the observed session, attempt,
  -- receipt and participants and the profile authority, and the stored evidence digest is the digest of
  -- the members.
  pub acknowledged_binding_iff :
      (v : Json) (b : Fields)
      → (acknowledged_binding h party observed authority v ≡ ok b)
        ↔ Bound h party observed authority v b
  acknowledged_binding_iff v b = (bound v b, accepted v b)

-- The evidence digest is the same whatever digest a binding stores, so a digest computed before it is
-- written is the one that is computed after, and it is read back as it was written.
pub evidence_digest-sealed :
    (h : Hashing) (fs : Fields) (v : Json)
    → (acknowledgment_evidence_digest h (put "profile_evidence_binding_digest" v fs)
        ≡ acknowledgment_evidence_digest h fs)
      × (get "profile_evidence_binding_digest" (put "profile_evidence_binding_digest" v fs) ≡ v)
unfolding acknowledgment_evidence_digest
evidence_digest-sealed h fs v = (
  ap
      (λ x. (do
        validated ← require_acknowledgment_evidence_binding false (obj x)
        domain_digest h "private-match-pet-acknowledgment-evidence/v0.3"
            (obj (picked (evidence_keys false) validated))))
      (remove-put "profile_evidence_binding_digest" v fs),
  get-put "profile_evidence_binding_digest" v fs,
)
