-- ===== src/Conformance/Projection.antt =====
-- `conformance_state_projection` and `state_digest` of scripts/conformance_common.py, over the runner
-- and the records of this model. The dicts that the runner keeps in its fields are built here.
mod Values
use private_match_protocol.Prelude.{String, List, [], ◌∷◌, ◌++◌}
use private_match_protocol.Json.{Json, bool, str, obj, put}
use private_match_protocol.Texts
use private_match_protocol.Message.Wire.{texts, binding_json}
use private_match_protocol.Digest.Errors.{Outcome, ok, ◌>>=◌}
use private_match_protocol.Digest.Bytes.{codes, format_digest}
use private_match_protocol.Digest.{Hashing, canonicalize}
use private_match_protocol.Dedup.{DedupRegistry}
use private_match_protocol.Runner.{Runner}
use private_match_protocol.Conformance.Names.{
  phase_name, budget_name, disclosure_name, failure_code_name, category_name,
}
pub use private_match_protocol.Conformance.Projection.Values.{object, picked, members}
use private_match_protocol.Conformance.Projection.Values.{
  closed_record, party_slots, closed_slots, slots_as, optional, acceptance_json,
  policy_acceptance_json, ack_json, receipt_json, party_rows, operation_rows, callback_rows,
  sorted_audience, known_number, canonical_sorted, sorted_profiles, replay_records,
}

module _ (h : Hashing) where
  abbrev receipt_names : List String
  receipt_names = "opaque_receipt_ref" ∷ "acknowledgment_status" ∷ "profile_evidence_ref" ∷ []

  abbrev evaluation_json : Runner → Json
  evaluation_json r = object (
      ("started", bool r.evaluation_started)
      ∷ ("attempt_id", r.evaluation_attempt_id)
      ∷ ("deadline", r.evaluation_deadline)
      ∷ (
        "integration_profile",
        closed_record ("profile_id" ∷ "profile_version" ∷ "profile_instance_id" ∷ [])
            r.selected_integration_profile,
      )
      ∷ ("contributions", object (party_slots r.contributions))
      ∷ (
        "local_results",
        object (
            ("pending", object (party_slots r.proposed_result_state))
            ∷ ("accepted", object (party_slots r.accepted_result_state))
            ∷ []),
      )
      ∷ (
        "receipt_acknowledgments",
        closed_slots receipt_names (slots_as (optional ack_json) r.receipt_acks),
      )
      ∷ ("accepted_receipt", closed_record receipt_names (optional receipt_json r.accepted_receipt))
      ∷ [])

  abbrev session_json : Runner → Json → Json
  session_json r audience = object (
      ("session_id", str r.base_context.session_context.session_id)
      ∷ ("proposal_digest", r.proposal_digest)
      ∷ ("expires_at", r.session_expires_at)
      ∷ ("intended_audience", audience)
      ∷ (
        "acceptance",
        closed_slots
            ("proposal_digest" ∷ "acceptance_digest" ∷ "participant_id" ∷ "key_id"
              ∷ "subject_binding_id" ∷ "verification_material_id" ∷ [])
            (slots_as (optional acceptance_json) r.session_acceptance),
      )
      ∷ [])

  abbrev policy_projection : Runner → Json
  policy_projection r = object (
      ("policy_id", r.base_context.session_context.policy.policy_id)
      ∷ ("policy_version", r.base_context.session_context.policy.policy_version)
      ∷ (
        "acceptance",
        closed_slots ("policy_id" ∷ "policy_version" ∷ "acceptance_digest" ∷ [])
            (slots_as (optional policy_acceptance_json) r.policy_acceptance),
      )
      ∷ [])

  abbrev consent_projection : Runner → Json
  consent_projection r =
      closed_slots
        ("opaque_receipt_ref" ∷ "disclosure_profile_id" ∷ "disclosure_profile_version" ∷ "scope"
          ∷ "audience" ∷ "issued_at" ∷ "expires_at" ∷ "consent_nonce" ∷ "consent_artifact_digest"
          ∷ "status" ∷ [])
        (slots_as (optional obj) r.consents)

  abbrev clock_json : Runner → Json
  clock_json r = object (
      ("authoritative_time", r.authoritative_time)
      ∷ ("maximum_time_jump_seconds", r.maximum_time_jump_seconds)
      ∷ (
        "allowed_clock_skew_seconds",
        optional (λ (v : Json). v) r.base_context.allowed_clock_skew_seconds,
      )
      ∷ (
        "message_stale_threshold_seconds",
        optional (λ (v : Json). v) r.base_context.message_stale_threshold_seconds,
      )
      ∷ [])

  -- conformance_state_projection
  unfoldable pub conformance_state_projection : Runner → DedupRegistry → Outcome Json
  unfolding closed_record put binding_json replay_records canonical_sorted Texts.sorted_set
      phase_name budget_name disclosure_name failure_code_name category_name texts
  conformance_state_projection r replay = do
    audience ← sorted_audience r.base_context.session_context.intended_audience
    profiles ← sorted_profiles h r.base_context.approved_disclosure_profiles
    party_messages ← replay_records h party_rows replay.party_by_id
    operations ← replay_records h operation_rows replay.operation_by_id
    callbacks ← replay_records h callback_rows replay.callback_by_id
    ok (
        object (
          ("schema_version", str "0.1")
          ∷ (
            "protocol",
            object (("profile", str "private-match-core") ∷ ("version", str "0.1") ∷ []),
          )
          ∷ ("lifecycle_phase", str (phase_name r.phase))
          ∷ ("session", session_json r audience)
          ∷ (
            "participants",
            closed_slots ("participant_id" ∷ "key_id" ∷ []) (slots_as binding_json r.participants),
          )
          ∷ ("policy", policy_projection r)
          ∷ (
            "commitments",
            object (
                party_slots r.commitments
                ++ ("commitment_pair_id", optional str r.commitment_pair_id) ∷ []),
          )
          ∷ ("evaluation", evaluation_json r)
          ∷ (
            "query_budget",
            object (
                ("reserved", bool r.budget_reserved)
                ∷ ("state", str (budget_name r.query_budget_state))
                ∷ []),
          )
          ∷ ("consent", consent_projection r)
          ∷ (
            "disclosure",
            object (
                ("authorization_state", str (disclosure_name r.disclosure_state))
                ∷ ("reviewed_profiles", profiles)
                ∷ []),
          )
          ∷ ("clock", clock_json r)
          ∷ (
            "terminal",
            object (
                ("internal_failure_code", str (failure_code_name r.terminal_failure_code))
                ∷ ("party_category", str (category_name r.party_terminal_category))
                ∷ []),
          )
          ∷ ("next_sequence", object (party_slots (slots_as known_number r.next_sequence)))
          ∷ (
            "replay",
            object (
                ("party_messages", party_messages)
                ∷ ("coordinator_operations", operations)
                ∷ ("profile_callbacks", callbacks)
                ∷ []),
          )
          ∷ []))

  -- `domain_digest`, with the domain's closing zero byte.
  unfoldable pub domain_digest : String → Json → Outcome String
  unfolding canonicalize format_digest
  domain_digest domain v = do
    bytes ← canonicalize h v
    format_digest (h.sha256 (codes domain ++ (0 ∷ bytes)))

  -- state_digest
  unfoldable pub state_digest : Runner → DedupRegistry → Outcome String
  unfolding conformance_state_projection domain_digest
  state_digest r replay = do
    projection ← conformance_state_projection r replay
    domain_digest "private-match-conformance-state-projection/v0.1" projection
