-- ===== src/Runner/Consent.antt =====
-- `AbstractStateRunner.apply` of scripts/validate_messages.py, the branches of the consents, the
-- disclosure and the close.
use private_match_protocol.Prelude.{
  String, Bool, true, false, ◌&&◌, ◌||◌, not, Option, none, some, List, [], ◌∷◌, ◌++◌, is_some, ℤ,
  ltb_ℤ, leb_ℤ,
}
use private_match_protocol.Json.{
  Json, null, str, arr, obj, Items, nil, cons, Fields, end, field, json_eq, get, put,
}
use private_match_protocol.Findings.{Finding}
use private_match_protocol.Phases.{
  uninitialized, result_accepted, consent_pending, disclosure_authorized, closed, aborted,
  QueryBudget, reserved, released, no_disclosure, awaiting_consent, authorized, consent_withdrawn,
  consent_error, Party, other, slot, set_slot, both, phase_eq, is_terminal,
}
use private_match_protocol.Times.{Calendar, parse_time}
use private_match_protocol.Message.Kinds.{consent_grant}
use private_match_protocol.Transitions.{withdraw_consent}
use private_match_protocol.Runner.{Runner, Receipt}
use private_match_protocol.Runner.Guards.{Guards, unmet}

-- consent_grant
abbrev is_accepted_receipt : Option Receipt → Json → Bool
is_accepted_receipt none ref = false
is_accepted_receipt (some receipt) ref = json_eq ref receipt.opaque_receipt_ref

unfoldable pub consent_guards : Runner → Party → Fields → Guards
unfolding get json_eq
consent_guards r p payload =
    (
      phase_eq r.phase result_accepted || phase_eq r.phase consent_pending,
      "consent requires accepted result",
    )
    ∷ (
      is_accepted_receipt r.accepted_receipt (get "opaque_receipt_ref" payload),
      "consent receipt must equal the accepted bilateral receipt",
    )
    ∷ (not (is_some (slot r.consents p)), "Party consent slot is immutable and cannot be reused")
    ∷ []

-- `issued < expires and issued <= authoritative < expires`, with all three known.
abbrev active_interval : Option ℤ → Option ℤ → Option ℤ → Bool
active_interval (some issued) (some expires) (some now) =
    ltb_ℤ issued expires && (leb_ℤ issued now && ltb_ℤ now expires)
active_interval _ _ _ = false

abbrev same_member : Option Fields → Fields → String → Bool
same_member none payload k = true
same_member (some c) payload k = json_eq (get k payload) (get k c)

abbrev interval_guards : Runner → Party → Fields → Bool → Guards
interval_guards r p payload active =
    let peer = slot r.consents (other p) in
    (active, "consent must be active at coordinator authoritative time")
    ∷ (
      same_member peer payload "disclosure_profile_id",
      "bilateral consent disclosure_profile_id must match exactly",
    )
    ∷ (
      same_member peer payload "disclosure_profile_version",
      "bilateral consent disclosure_profile_version must match exactly",
    )
    ∷ (same_member peer payload "scope", "bilateral consent scope must match exactly")
    ∷ (same_member peer payload "audience", "bilateral consent audience must match exactly")
    ∷ []

module _ (cal : Calendar) where
  -- All findings of the branch, after those in `fs`.
  unfoldable pub consent_findings : Runner → Party → Fields → List Finding → List Finding
  unfolding consent_guards unmet parse_time
  consent_findings r p payload fs =
      let f1 = fs ++ unmet consent_grant (consent_guards r p payload) in
      let (issued, f2) = parse_time cal (get "issued_at" payload) "consent_grant.issued_at" f1 in
      let (expires, f3) = parse_time cal (get "expires_at" payload) "consent_grant.expires_at" f2 in
      let (now, f4) =
        parse_time cal r.base_context.authoritative_time "context.authoritative_time" f3 in
      f4 ++ unmet consent_grant (interval_guards r p payload (active_interval issued expires now))

unfoldable pub grant_consent : Runner → Party → Fields → Runner
grant_consent r p payload = record r {
  consents = set_slot r.consents p (some payload);
  disclosure_state = awaiting_consent;
  phase = consent_pending;
}

-- consent_withdrawal
abbrev identifies : Option Fields → Fields → Bool
identifies none payload = false
identifies (some current) payload =
    json_eq (get "consent_nonce" payload) (get "consent_nonce" current)
    && json_eq (get "consent_artifact_digest" payload) (get "consent_artifact_digest" current)

unfoldable pub withdrawal_guards : Runner → Party → Fields → Guards
unfolding get json_eq
withdrawal_guards r p payload =
    (
      phase_eq r.phase consent_pending && is_some (slot r.consents p),
      "consent withdrawal requires the current active Party consent",
    )
    ∷ (
      identifies (slot r.consents p) payload,
      "consent withdrawal must identify the current immutable consent",
    )
    ∷ []

abbrev marked_withdrawn : Option Fields → Option Fields
marked_withdrawn none = none
marked_withdrawn (some c) = some (put "status" (str "withdrawn") c)

unfoldable pub withdraw : Runner → Party → Runner
unfolding put
withdraw r p = record r {
  consents = set_slot r.consents p (marked_withdrawn (slot r.consents p));
  disclosure_state = no_disclosure;
  phase = aborted;
  terminal_failure_code = consent_withdrawn;
  party_terminal_category = consent_error;
  audit_lifecycle = r.audit_lifecycle ++ withdraw_consent p ∷ [];
}

-- disclosure_extension_authorization
abbrev consent_member : Option Fields → String → Json
consent_member none k = null
consent_member (some c) k = get k c

abbrev consents_agree : Runner → Fields → String → String → Bool
consents_agree r payload payload_field consent_field =
    json_eq (get payload_field payload) (consent_member r.consents.slot_a consent_field)
    && json_eq (consent_member r.consents.slot_a consent_field)
        (consent_member r.consents.slot_b consent_field)

abbrev in_items : Json → Items → Bool
in_items v nil = false
in_items v (cons x xs) = json_eq x v || in_items v xs

-- `isinstance(approved, list) and value in approved`
abbrev in_list : Json → Json → Bool
in_list v (arr xs) = in_items v xs
in_list v _ = false

unfoldable pub disclosure_guards : Runner → Fields → Guards
unfolding get json_eq
disclosure_guards r payload =
    let profile = get "profile_id" payload in
    let version = get "profile_version" payload in
    (
      phase_eq r.phase consent_pending && both is_some r.consents,
      "disclosure authorization requires bilateral active consent",
    )
    ∷ (
      json_eq r.accepted_result_state.slot_a (str "MATCH")
          && json_eq r.accepted_result_state.slot_b (str "MATCH"),
      "only symmetric MATCH may reach an extension authorization guard",
    )
    ∷ (
      consents_agree r payload "profile_id" "disclosure_profile_id"
          && (consents_agree r payload "profile_version" "disclosure_profile_version"
              && (consents_agree r payload "scope" "scope"
                  && consents_agree r payload "audience" "audience")),
      "extension profile, version, scope, and audience must equal both consents",
    )
    ∷ (
      in_list (obj (field "profile_id" profile (field "profile_version" version end)))
          r.base_context.approved_disclosure_profiles,
      "no reviewed disclosure extension profile is approved in core v0.1",
    )
    ∷ []

unfoldable pub authorize_disclosure : Runner → Runner
authorize_disclosure r = record r { disclosure_state = authorized; phase = disclosure_authorized }

-- close_notice
unfoldable pub close_guards : Runner → Guards
unfolding is_terminal
close_guards r =
    (not (phase_eq r.phase uninitialized || is_terminal r.phase), "close requires a live session")
    ∷ []

abbrev released_budget : QueryBudget → Bool → QueryBudget
released_budget reserved false = released
released_budget budget _ = budget

unfoldable pub close_session : Runner → Runner
close_session r = record r {
  query_budget_state = released_budget r.query_budget_state r.evaluation_started;
  disclosure_state = no_disclosure;
  phase = closed;
}
