-- ===== src/Pet/Evidence.antt =====
-- `require_profile_authority`, `require_acknowledgment_evidence_binding`,
-- `_acknowledgment_evidence_digest` and the checks of one Party's acknowledgment in
-- `_validate_abort_phase_state`: scripts/pet_profiles.py. A `PetProfileError` is a refusal with its code.
pub mod Rows
pub mod Bound
use private_match_protocol.Prelude.{
  String, Bool, true, false, ◌&&◌, ◌||◌, Option, none, some, List, [], ◌∷◌, ◌++◌, str_eq,
  if◌then◌else◌,
}
use private_match_protocol.Json.{Json, str, obj, Fields, get, json_eq, is_null}
use private_match_protocol.Digest.Errors.{Outcome, ok, refused, ◌>>=◌}
use private_match_protocol.Digest.{Hashing}
use private_match_protocol.LocalResults.{names_are}
use private_match_protocol.Conformance.Projection.{picked, domain_digest}
use private_match_protocol.Conformance.Digests.{remove}
use private_match_protocol.Pet.Patterns.{
  is_digest, is_version, is_profile_id, is_instance_id, is_bounded,
}

-- Calls of `_require`, in order: the code of the first one that fails, or the value.
unfoldable pub require_all {ℓ} : {A : Type ℓ} → List (Bool × String) → A → Outcome A
require_all [] a = ok a
require_all ((condition, code) ∷ rows) a =
    let later = require_all rows a in if condition then later else refused code

-- `isinstance(v, str) and p(v)`
abbrev pub text_such : (String → Bool) → Json → Bool
text_such p (str s) = p s
text_such p _ = false

abbrev pub authority_keys : List String
authority_keys = "profile_digest" ∷ "profile_id" ∷ "profile_instance_id" ∷ "profile_version" ∷ []

abbrev pub authority_rows : Fields → List (Bool × String)
authority_rows fs =
    (names_are authority_keys fs, "PET-PROFILE-AUTHORITY")
    ∷ (
      text_such is_bounded (get "profile_digest" fs)
          && (text_such is_bounded (get "profile_id" fs)
              && (text_such is_bounded (get "profile_instance_id" fs)
                  && text_such is_bounded (get "profile_version" fs))),
      "PET-PROFILE-AUTHORITY",
    )
    ∷ (
      text_such is_profile_id (get "profile_id" fs)
          && (text_such is_version (get "profile_version" fs)
              && text_such is_digest (get "profile_digest" fs)),
      "PET-PROFILE-AUTHORITY",
    )
    ∷ (text_such is_instance_id (get "profile_instance_id" fs), "PET-PROFILE-AUTHORITY")
    ∷ []

-- require_profile_authority
unfoldable pub require_profile_authority : Json → Outcome Fields
unfolding require_all names_are get is_bounded is_profile_id is_version is_digest is_instance_id
require_profile_authority (obj fs) = require_all (authority_rows fs) (picked authority_keys fs)
require_profile_authority _ = refused "PET-PROFILE-AUTHORITY"

-- The members of the digest, in the order of their names.
abbrev pub evidence_members : List String
evidence_members =
    "acknowledging_party_slot" ∷ "evaluation_attempt_id" ∷ "normalized_acknowledgment_status"
    ∷ "opaque_receipt_ref" ∷ "participant_binding_digest" ∷ "profile_digest"
    ∷ "profile_evidence_ref" ∷ "profile_id" ∷ "profile_instance_id" ∷ "profile_version"
    ∷ "session_id" ∷ []

-- ACKNOWLEDGMENT_EVIDENCE_KEYS, or those without the digest.
abbrev pub evidence_keys : Bool → List String
evidence_keys true = "profile_evidence_binding_digest" ∷ evidence_members
evidence_keys false = evidence_members

abbrev digest_rows : Bool → Fields → List (Bool × String)
digest_rows true fs =
    (text_such is_digest (get "profile_evidence_binding_digest" fs), "PET-PROFILE-AUTHORITY") ∷ []
digest_rows false fs = []

abbrev is_slot : String → Bool
is_slot s = str_eq s "party_a" || str_eq s "party_b"

abbrev pub evidence_rows : Bool → Fields → List (Bool × String)
evidence_rows bound fs =
    (names_are (evidence_keys bound) fs, "PET-PROFILE-AUTHORITY")
    ∷ (
      json_eq (get "normalized_acknowledgment_status" fs) (str "ACKNOWLEDGED"),
      "PET-CALLBACK-BINDING",
    )
    ∷ (text_such is_slot (get "acknowledging_party_slot" fs), "PET-ACKNOWLEDGMENT-EVIDENCE-BINDING")
    ∷ (text_such is_digest (get "opaque_receipt_ref" fs), "PET-RECEIPT-BINDING")
    ∷ (text_such is_digest (get "participant_binding_digest" fs), "PET-PARTICIPANT-BINDING")
    ∷ (digest_rows bound fs
        ++ ((text_such is_bounded (get "profile_evidence_ref" fs), "PET-PROFILE-AUTHORITY")
            ∷ (text_such is_bounded (get "session_id" fs), "PET-PROFILE-AUTHORITY")
            ∷ (text_such is_bounded (get "profile_id" fs), "PET-PROFILE-AUTHORITY")
            ∷ (text_such is_bounded (get "profile_instance_id" fs), "PET-PROFILE-AUTHORITY")
            ∷ (text_such is_bounded (get "evaluation_attempt_id" fs), "PET-PROFILE-AUTHORITY")
            ∷ (text_such is_version (get "profile_version" fs), "PET-PROFILE-AUTHORITY")
            ∷ (text_such is_digest (get "profile_digest" fs), "PET-PROFILE-AUTHORITY")
            ∷ []))

-- require_acknowledgment_evidence_binding
unfoldable pub require_acknowledgment_evidence_binding : Bool → Json → Outcome Fields
unfolding require_all names_are get json_eq is_digest is_bounded is_version
require_acknowledgment_evidence_binding bound (obj fs) =
    require_all (evidence_rows bound fs) (picked (evidence_keys bound) fs)
require_acknowledgment_evidence_binding bound _ = refused "PET-PROFILE-AUTHORITY"

module _ (h : Hashing) where
  -- _acknowledgment_evidence_digest
  unfoldable pub acknowledgment_evidence_digest : Fields → Outcome String
  unfolding require_acknowledgment_evidence_binding remove domain_digest
  acknowledgment_evidence_digest binding = do
    validated ←
        require_acknowledgment_evidence_binding false
          (obj (remove "profile_evidence_binding_digest" binding))
    domain_digest h "private-match-pet-acknowledgment-evidence/v0.3"
        (obj (picked evidence_members validated))

  abbrev pub agrees : String → Fields → Fields → Bool
  agrees k binding other = json_eq (get k binding) (get k other)

  -- The comparisons with the observed state and the profile authority.
  abbrev pub context_rows : String → Fields → Fields → Fields → List (Bool × String)
  context_rows party observed authority b =
      (
        json_eq (get "acknowledging_party_slot" b) (str party),
        "PET-ACKNOWLEDGMENT-EVIDENCE-BINDING",
      )
      ∷ (agrees "participant_binding_digest" b observed, "PET-PARTICIPANT-BINDING")
      ∷ (agrees "opaque_receipt_ref" b observed, "PET-RECEIPT-BINDING")
      ∷ (
        json_eq (get "normalized_acknowledgment_status" b) (str "ACKNOWLEDGED"),
        "PET-CALLBACK-BINDING",
      )
      ∷ (agrees "session_id" b observed, "PET-SESSION-BINDING")
      ∷ (agrees "profile_id" b authority, "PET-CROSS-PROFILE")
      ∷ (agrees "profile_version" b authority, "PET-PROFILE-VERSION")
      ∷ (agrees "profile_digest" b authority, "PET-PROFILE-AUTHORITY")
      ∷ (agrees "profile_instance_id" b authority, "PET-PROFILE-INSTANCE")
      ∷ (agrees "evaluation_attempt_id" b observed, "PET-EVALUATION-ATTEMPT")
      ∷ []

  abbrev pub stored_row : String → Fields → List (Bool × String)
  stored_row digest b =
      (
        json_eq (get "profile_evidence_binding_digest" b) (str digest),
        "PET-ACKNOWLEDGMENT-EVIDENCE-BINDING",
      )
      ∷ []

  -- The acknowledgment of one Party that is among the acknowledged ones. The reference is not empty
  -- once the binding is validated.
  unfoldable pub acknowledged_binding : String → Fields → Fields → Json → Outcome Fields
  unfolding require_all require_acknowledgment_evidence_binding acknowledgment_evidence_digest get
      json_eq
  acknowledged_binding party observed authority v = do
    validated ← require_acknowledgment_evidence_binding true v
    compared ← require_all (context_rows party observed authority validated) validated
    digest ← acknowledgment_evidence_digest compared
    require_all (stored_row digest compared) compared

  -- The body of the loop over the Parties: the binding, or nothing for a Party without one.
  unfoldable pub party_binding : String → Bool → Fields → Fields → Json → Outcome (Option Fields)
  unfolding acknowledged_binding
  party_binding party false observed authority v =
      if is_null v then ok none else refused "PET-ABORT-PHASE-AUTHORITY"
  party_binding party true observed authority v = do
    b ← acknowledged_binding party observed authority v
    ok (some b)
