-- ===== src/Runner/Evaluation.antt =====
-- `AbstractStateRunner.apply` of scripts/validate_messages.py, the branches of the evaluation: its
-- start, the contributions, the receipts and the accepted result.
use Prim.Native.String
use private_match_protocol.Prelude.{
  String, Bool, true, ◌&&◌, ◌||◌, not, Option, none, some, List, [], ◌∷◌, is_some, if◌then◌else◌,
  str_eq,
}
use private_match_protocol.Json.{Json, null, str, Fields, json_eq, get, member, is_null, truthy}
use private_match_protocol.Findings.{Finding, finding}
use private_match_protocol.Phases.{
  committed, evaluating, result_accepted, consumed, Party, other, Slots, slot, set_slot, both,
  either, phase_eq,
}
use private_match_protocol.Message.{Message, Identity}
use private_match_protocol.Message.Wire.{identity_get}
use private_match_protocol.Times.{
  Calendar, Timed, timed, mistimed, ◌>>=◌, parse_canonical_utc_timestamp,
  derive_evaluation_deadline,
}
use private_match_protocol.Digest.Bytes.{codes, hex}
use private_match_protocol.Digest.{Hashing}
use private_match_protocol.Runner.{Runner, Ack}
use private_match_protocol.Runner.Guards.{Guards}

-- `value in PLAINTEXT_RESULTS`
unfoldable pub is_plaintext_result : Json → Bool
unfolding json_eq
is_plaintext_result v =
    json_eq v (str "MATCH") || (json_eq v (str "NO_MATCH") || json_eq v (str "INDETERMINATE"))

-- evaluation_start
unfoldable pub start_guards : Runner → Guards
start_guards r =
    (
      phase_eq r.phase committed && r.budget_reserved,
      "evaluation start requires committed pair and reserved budget",
    )
    ∷ (is_null r.evaluation_attempt_id, "evaluation attempt already fixed")
    ∷ []

module _ (cal : Calendar) where
  -- The deadline that the coordinator derives, where the supplied text is a canonical timestamp.
  unfoldable pub derived_deadline : Runner → Fields → Timed String
  unfolding get parse_canonical_utc_timestamp derive_evaluation_deadline
  derived_deadline r payload = do
    supplied ← parse_canonical_utc_timestamp cal (get "evaluation_deadline" payload)
    derive_evaluation_deadline cal r.authoritative_time r.evaluation_timeout_seconds
        r.session_expires_at

abbrev deadline_finding : String → Finding
deadline_finding detail =
    finding "evaluation-deadline" "evaluation_start.evaluation_deadline" detail

unfoldable pub deadline_findings : Timed String → Fields → List Finding
unfolding finding get json_eq
deadline_findings (mistimed e) payload =
    deadline_finding "canonical policy-derived evaluation deadline is required" ∷ []
deadline_findings (timed deadline) payload =
    if json_eq (get "evaluation_deadline" payload) (str deadline)
    then []
    else deadline_finding "supplied deadline must equal the coordinator-derived deadline" ∷ []

abbrev timed_text : Timed String → Json
timed_text (timed s) = str s
timed_text (mistimed e) = null

unfoldable pub start_evaluation : Runner → Timed String → Fields → Runner
unfolding get
start_evaluation r deadline payload = record r {
  evaluation_attempt_id = get "evaluation_attempt_id" payload;
  evaluation_deadline = timed_text deadline;
  resource_policy_binding = get "resource_policy_binding" payload;
  execution_authorization_digest = get "execution_authorization_digest" payload;
  evaluation_started = true;
  query_budget_state = consumed;
  phase = evaluating;
}

-- evaluation_contribution
unfoldable pub contribution_guards : Runner → Party → Guards
contribution_guards r p =
    (phase_eq r.phase evaluating, "contribution requires EVALUATING")
    ∷ (is_null (slot r.contributions p), "Party contribution slot is immutable")
    ∷ []

unfoldable pub submit_contribution : Runner → Party → Fields → Runner
unfolding get
submit_contribution r p payload = record r {
  contributions = set_slot r.contributions p (get "contribution_ref" payload);
}

-- `value in LOW_ENTROPY_RESULT_RECEIPTS`: the bare SHA-256 of a result.
abbrev low_entropy_receipt : Hashing → String → Json
low_entropy_receipt h result = str (String.◌++◌ "sha256:" (hex (h.sha256 (codes result))))

unfoldable pub is_low_entropy : Hashing → Json → Bool
unfolding json_eq hex
is_low_entropy h v =
    json_eq v (low_entropy_receipt h "MATCH")
    || (json_eq v (low_entropy_receipt h "NO_MATCH")
        || json_eq v (low_entropy_receipt h "INDETERMINATE"))

-- opaque_receipt_ack
abbrev peer_agrees : Option Ack → Json → Bool
peer_agrees none receipt = true
peer_agrees (some ack) receipt = json_eq receipt ack.opaque_receipt_ref

unfoldable pub ack_guards : Hashing → Runner → Party → Message → Guards
unfolding get json_eq is_low_entropy
ack_guards h r p m =
    let receipt = get "opaque_receipt_ref" m.payload in
    let session = m.session_context in
    (phase_eq r.phase evaluating, "receipt acknowledgment requires EVALUATING")
    ∷ (both truthy r.contributions, "receipt acknowledgment requires both evaluation contributions")
    ∷ (not (is_some (slot r.receipt_acks p)), "Party receipt acknowledgment slot is immutable")
    ∷ (
      json_eq (get "acknowledgment_status" m.payload) (str "ACKNOWLEDGED"),
      "Party receipt status must be ACKNOWLEDGED",
    )
    ∷ (
      not (is_low_entropy h receipt),
      "opaque receipt must not be a bare digest of a low-entropy result value",
    )
    ∷ (
      str_eq session.session_id r.base_context.session_context.session_id
          && (json_eq session.evaluation_attempt_id r.evaluation_attempt_id
              && json_eq session.selected_integration_profile r.selected_integration_profile),
      "Party receipt must bind the current session, profile, and attempt",
    )
    ∷ (
      peer_agrees (slot r.receipt_acks (other p)) receipt,
      "Party opaque receipt references must match exactly",
    )
    ∷ []

unfoldable pub acknowledge : Runner → Party → Fields → Runner
unfolding get
acknowledge r p payload = record r {
  receipt_acks = set_slot r.receipt_acks p (
      some (record {
        opaque_receipt_ref = get "opaque_receipt_ref" payload;
        acknowledgment_status = get "acknowledgment_status" payload;
        profile_evidence_ref = get "profile_evidence_ref" payload;
      }));
}

-- result_acceptance_notice
abbrev ack_ref : Option Ack → Json
ack_ref none = null
ack_ref (some a) = a.opaque_receipt_ref

abbrev ack_status : Option Ack → Json
ack_status none = null
ack_status (some a) = a.acknowledgment_status

-- The proposed results, where there are any, are one and the same result.
abbrev proposals_agree : Slots Json → Bool
proposals_agree results =
    not (either truthy results)
    || (is_plaintext_result results.slot_a && json_eq results.slot_a results.slot_b)

abbrev binds_callback : Runner → Identity → Bool
binds_callback r i =
    let selected = r.selected_integration_profile in
    (json_eq (identity_get "profile_id" i) (member "profile_id" selected)
      && (json_eq (identity_get "profile_version" i) (member "profile_version" selected)
          && json_eq (identity_get "profile_instance_id" i)
              (member "profile_instance_id" selected)))
    && (json_eq (identity_get "session_id" i) (str r.base_context.session_context.session_id)
        && json_eq (identity_get "evaluation_attempt_id" i) r.evaluation_attempt_id)

unfoldable pub result_guards : Runner → Message → Guards
unfolding get json_eq identity_get is_plaintext_result
result_guards r m =
    let payload = m.payload in
    let acks = r.receipt_acks in
    (
      phase_eq r.phase evaluating && both is_some acks,
      "result acceptance requires bilateral acknowledgments",
    )
    ∷ (
      json_eq (ack_ref acks.slot_a) (ack_ref acks.slot_b)
          && json_eq (ack_ref acks.slot_b) (get "opaque_receipt_ref" payload),
      "Party and callback opaque receipt references must match exactly",
    )
    ∷ (
      (json_eq (ack_status acks.slot_a) (ack_status acks.slot_b)
            && json_eq (ack_status acks.slot_b) (str "ACKNOWLEDGED"))
          && json_eq (get "acknowledgment_status" payload) (str "BOTH_ACKNOWLEDGED"),
      "callback requires two ACKNOWLEDGED Party records and BOTH_ACKNOWLEDGED status",
    )
    ∷ (
      truthy (get "profile_evidence_ref" payload),
      "result callback requires an opaque profile evidence reference",
    )
    ∷ (
      json_eq (get "resource_policy_binding" payload) r.resource_policy_binding,
      "result callback resource policy must equal evaluation start",
    )
    ∷ (
      json_eq (get "execution_authorization_digest" payload) r.execution_authorization_digest,
      "result callback execution authority must equal evaluation start",
    )
    ∷ (
      proposals_agree r.proposed_result_state,
      "result callback requires symmetric Party-local proposed results",
    )
    ∷ (
      binds_callback r m.identity,
      "result callback must bind the current profile, session, and attempt",
    )
    ∷ []

unfoldable pub accept_result : Runner → Fields → Runner
unfolding get
accept_result r payload = record r {
  accepted_receipt = some (record {
    opaque_receipt_ref = get "opaque_receipt_ref" payload;
    acknowledgment_status = get "acknowledgment_status" payload;
    profile_evidence_ref = get "profile_evidence_ref" payload;
    resource_policy_binding = get "resource_policy_binding" payload;
    execution_authorization_digest = get "execution_authorization_digest" payload;
  });
  accepted_result_state =
      if either truthy r.proposed_result_state
      then r.proposed_result_state
      else r.accepted_result_state;
  phase = result_accepted;
}
