-- ===== src/Machine/Disclosure.antt =====
-- `disclosure_authorization_guard_failures` of scripts/validate_session_state_machine.py.
pub mod Authorized
use private_match_protocol.Prelude.{
  String, Bool, false, ◌&&◌, not, Option, none, some, List, [], ◌∷◌, ◌++◌, ℤ, ltb_ℤ, str_eq, any,
}
use private_match_protocol.Json.{
  Json, str, obj, Fields, end, field, get, truthy, json_eq, number_of,
}
use private_match_protocol.Phases.{Phase, consent_pending, phase_eq, Slots, is_terminal}
use private_match_protocol.Checks.{failing}
use private_match_protocol.Texts.{sorted_set}

-- The members of the state dict that the guard reads. A consent that is not a dict is `none`.
pub record DisclosureState : Type 0 where
  pub phase : Phase
  pub accepted_result_state : Json
  pub disclosure_profile_ref : Option String
  pub consent : Slots (Option Fields)
  pub authoritative_time : Json
  pub session_expires_at : Json
  pub session_id : Json
  pub participant_binding : Json
  pub opaque_receipt_ref : Json
  pub disclosure_scope : Json
  pub intended_audience : Json

-- `isinstance(now, int) and isinstance(bound, int) and now < bound`. A Python bool is an int.
abbrev pub comes_before : Option ℤ → Option ℤ → Bool
comes_before (some now) (some bound) = ltb_ℤ now bound
comes_before _ _ = false

abbrev pub profile_json : Option String → Json
profile_json none = Json.null
profile_json (some p) = str p

abbrev pub reviewed : Option String → List String → Bool
reviewed none profiles = false
reviewed (some p) profiles = not (str_eq p "") && (not (str_eq p "NONE") && any profiles (str_eq p))

abbrev both_match : Json
both_match = obj (field "A" (str "MATCH") (field "B" (str "MATCH") end))

abbrev pub session_rows : DisclosureState → List String → List (Bool × String)
session_rows s profiles =
    (not (is_terminal s.phase) && phase_eq s.phase consent_pending, "G-ACTIVE-SESSION")
    ∷ (json_eq s.accepted_result_state both_match, "G-DISCLOSURE-MATCH")
    ∷ (reviewed s.disclosure_profile_ref profiles, "G-PROFILE-REVIEWED")
    ∷ []

abbrev pub expiry_rows : DisclosureState → List (Bool × String)
expiry_rows s =
    let live = comes_before (number_of s.authoritative_time) (number_of s.session_expires_at) in
    (live, "G-ACTIVE-SESSION") ∷ (live, "G-CONSENT-EXPIRY") ∷ []

abbrev pub consent_rows : DisclosureState → Fields → List (Bool × String)
consent_rows s c =
    (json_eq (get "status" c) (str "valid"), "G-BILATERAL-CONSENT")
    ∷ (json_eq (get "session_id" c) s.session_id, "G-CONSENT-PARTICIPANT-BINDING")
    ∷ (json_eq (get "participant_set" c) s.participant_binding, "G-CONSENT-PARTICIPANT-BINDING")
    ∷ (json_eq (get "opaque_receipt_ref" c) s.opaque_receipt_ref, "G-CONSENT-RECEIPT-BINDING")
    ∷ (
      json_eq (get "disclosure_profile_ref" c) (profile_json s.disclosure_profile_ref),
      "G-CONSENT-PROFILE-BINDING",
    )
    ∷ (json_eq (get "scope" c) s.disclosure_scope, "G-CONSENT-SCOPE-BINDING")
    ∷ (json_eq (get "audience" c) s.intended_audience, "G-CONSENT-AUDIENCE-BINDING")
    ∷ (
      comes_before (number_of s.authoritative_time) (number_of (get "expires_at" c)),
      "G-CONSENT-EXPIRY",
    )
    ∷ (truthy (get "issued_at" c), "G-BILATERAL-CONSENT")
    ∷ (truthy (get "consent_nonce" c), "G-BILATERAL-CONSENT")
    ∷ (truthy (get "artifact_digest" c), "G-BILATERAL-CONSENT")
    ∷ []

-- The consents of both Parties, or the early return.
abbrev pub bilateral_failures : Option Fields → Option Fields → DisclosureState → List String
bilateral_failures (some a) (some b) s =
    failing (expiry_rows s) ++ (failing (consent_rows s a) ++ failing (consent_rows s b))
bilateral_failures _ _ s = "G-BILATERAL-CONSENT" ∷ []

-- disclosure_authorization_guard_failures
unfoldable pub disclosure_authorization_guard_failures : DisclosureState → List String → List String
unfolding sorted_set failing json_eq get is_terminal
disclosure_authorization_guard_failures s profiles =
    sorted_set
      (failing (session_rows s profiles) ++ bilateral_failures s.consent.slot_a s.consent.slot_b s)
