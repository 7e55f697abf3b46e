-- ===== src/Machine/Disclosure/Authorized.antt =====
-- When the disclosure guard has no failure.
use private_match_protocol.Prelude.{String, ◌≡◌, true, some, List}
use private_match_protocol.Json.{str, Fields, get, truthy, json_eq, number_of}
use private_match_protocol.Phases.{consent_pending}
use private_match_protocol.Machine.Disclosure.{
  DisclosureState, comes_before, profile_json, reviewed, both_match,
}

-- A consent of one Party that counts at this state.
pub record Consenting (s : DisclosureState) (c : Fields) : Type 0 where
  pub valid : json_eq (get "status" c) (str "valid") ≡ true
  pub session : json_eq (get "session_id" c) s.session_id ≡ true
  pub participants : json_eq (get "participant_set" c) s.participant_binding ≡ true
  pub receipt : json_eq (get "opaque_receipt_ref" c) s.opaque_receipt_ref ≡ true
  pub profile :
      json_eq (get "disclosure_profile_ref" c) (profile_json s.disclosure_profile_ref) ≡ true
  pub scope : json_eq (get "scope" c) s.disclosure_scope ≡ true
  pub audience : json_eq (get "audience" c) s.intended_audience ≡ true
  pub unexpired :
      comes_before (number_of s.authoritative_time) (number_of (get "expires_at" c)) ≡ true
  pub issued : truthy (get "issued_at" c) ≡ true
  pub fresh : truthy (get "consent_nonce" c) ≡ true
  pub signed : truthy (get "artifact_digest" c) ≡ true

-- The state in which a disclosure extension may be authorized.
pub record Authorized (s : DisclosureState) (profiles : List String) : Type 0 where
  pub pending : s.phase ≡ consent_pending
  pub matched : json_eq s.accepted_result_state both_match ≡ true
  pub profile_reviewed : reviewed s.disclosure_profile_ref profiles ≡ true
  pub live : comes_before (number_of s.authoritative_time) (number_of s.session_expires_at) ≡ true
  pub consent_a : Fields
  pub consent_b : Fields
  pub given_a : s.consent.slot_a ≡ some consent_a
  pub given_b : s.consent.slot_b ≡ some consent_b
  pub consenting_a : Consenting s consent_a
  pub consenting_b : Consenting s consent_b
