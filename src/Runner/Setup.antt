-- ===== src/Runner/Setup.antt =====
-- `AbstractStateRunner.apply` of scripts/validate_messages.py, the branches up to the commitments:
-- the guards and the effect of each.
use private_match_protocol.Prelude.{
  String, Bool, true, false, ◌&&◌, not, Option, none, some, [], ◌∷◌, is_some, if◌then◌else◌, str_eq,
}
use Prim.Native.String
use private_match_protocol.Json.{
  Json, null, str, obj, Fields, end, json_eq, get, member, is_null, truthy,
}
use private_match_protocol.Phases.{
  uninitialized, created, participants_bound, commitments_pending, committed, reserved, Party, slot,
  set_slot, both, phase_eq,
}
use private_match_protocol.Message.{Message}
use private_match_protocol.Materials.{TrustedSubject, party_subject}
use private_match_protocol.Digest.Errors.{Outcome, ok, ◌>>=◌}
use private_match_protocol.Digest.{Hashing, commitment_pair_digest}
use private_match_protocol.Runner.{Runner, Acceptance}
use private_match_protocol.Runner.Guards.{Guards}

-- `trusted_subject.get("participant_id")`
abbrev pub subject_participant : TrustedSubject → Json
subject_participant s = elim s.kind [ party_subject p ↦ str p | _ ↦ null ]

abbrev party_actor : Party → String
party_actor p = elim p [ Party.party_a ↦ "party_a_client" | Party.party_b ↦ "party_b_client" ]

-- session_proposal
unfoldable pub proposal_guards : Runner → Guards
proposal_guards r = (phase_eq r.phase uninitialized, "session proposal requires UNINITIALIZED") ∷ []

unfoldable pub propose : Runner → Fields → Runner
unfolding get
propose r payload =
    let clock_policy = get "clock_policy" payload in
    record r {
      phase = created;
      proposal_digest = get "proposal_digest" payload;
      selected_integration_profile = get "selected_integration_profile" payload;
      session_expires_at = get "session_expires_at" payload;
      evaluation_timeout_seconds = member "evaluation_timeout_seconds" clock_policy;
      maximum_time_jump_seconds = member "maximum_time_jump_seconds" clock_policy;
      base_context = record r.base_context {
        allowed_clock_skew_seconds = some (member "allowed_clock_skew_seconds" clock_policy);
        message_stale_threshold_seconds =
            some (member "message_stale_threshold_seconds" clock_policy);
      };
    }

-- session_acceptance
abbrev is_party_slot : Option TrustedSubject → Party → Bool
is_party_slot none p = false
is_party_slot (some s) p = str_eq s.actor (party_actor p)

unfoldable pub session_acceptance_guards : Runner → Party → Fields → Option TrustedSubject → Guards
unfolding get json_eq
session_acceptance_guards r p payload subject =
    (phase_eq r.phase created, "session acceptance requires CREATED")
    ∷ (
      json_eq (get "proposal_digest" payload) r.proposal_digest,
      "acceptance must bind the exact proposal digest",
    )
    ∷ (not (is_some (slot r.session_acceptance p)), "acceptance slot is immutable")
    ∷ (is_party_slot subject p, "acceptance requires the validated Party-slot subject projection")
    ∷ []

-- The guards leave no effect without a subject.
unfoldable pub accept_session : Runner → Party → Fields → Option TrustedSubject → Runner
unfolding get
accept_session r p payload none = r
accept_session r p payload (some s) = record r {
  session_acceptance = set_slot r.session_acceptance p (
      some (record {
        proposal_digest = get "proposal_digest" payload;
        acceptance_digest = get "acceptance_digest" payload;
        participant_id = subject_participant s;
        key_id = str s.key_id;
        subject_binding_id = str s.subject_binding_id;
        verification_material_id = str s.verification_material_id;
      }));
}

-- participant_binding
abbrev acceptance_or_empty : Option Acceptance → Acceptance
acceptance_or_empty (some a) = a
acceptance_or_empty none = record {
  proposal_digest = null;
  acceptance_digest = null;
  participant_id = null;
  key_id = null;
  subject_binding_id = null;
  verification_material_id = null;
}

abbrev binds_subject : Acceptance → Fields → Option TrustedSubject → Bool
binds_subject a payload none = false
binds_subject a payload (some s) =
    (json_eq (get "participant_id" payload) a.participant_id
      && json_eq a.participant_id (subject_participant s))
    && ((json_eq (get "participant_key_id" payload) a.key_id && json_eq a.key_id (str s.key_id))
        && (json_eq a.subject_binding_id (str s.subject_binding_id)
            && json_eq a.verification_material_id (str s.verification_material_id)))

unfoldable pub participant_binding_guards : Runner → Party → Fields → Option TrustedSubject → Guards
unfolding get json_eq
participant_binding_guards r p payload subject =
    (phase_eq r.phase created, "participant binding requires CREATED")
    ∷ (
      is_some (slot r.session_acceptance p),
      "participant binding requires Party-specific session acceptance",
    )
    ∷ (not (is_some (slot r.participants p)), "participant slot is already bound")
    ∷ (
      binds_subject (acceptance_or_empty (slot r.session_acceptance p)) payload subject,
      "participant binding must equal the immutable accepted authenticated subject",
    )
    ∷ []

unfoldable pub bind_participant : Runner → Party → Fields → Runner
unfolding get
bind_participant r p payload =
    let bound = set_slot r.participants p (
      some (record {
        participant_id = get "participant_id" payload;
        key_id = get "participant_key_id" payload;
      })) in
    record r {
      participants = bound;
      phase = if both is_some bound then participants_bound else r.phase;
    }

-- policy_acceptance
unfoldable pub policy_acceptance_guards : Runner → Party → Fields → Guards
unfolding get json_eq
policy_acceptance_guards r p payload =
    let expected = r.base_context.session_context.policy in
    (phase_eq r.phase participants_bound, "policy acceptance requires both participants bound")
    ∷ (
      json_eq (get "policy_id" payload) expected.policy_id
          && json_eq (get "policy_version" payload) expected.policy_version,
      "policy acceptance must equal the current policy ID and version",
    )
    ∷ (not (is_some (slot r.policy_acceptance p)), "Party policy acceptance slot is immutable")
    ∷ []

unfoldable pub accept_policy : Runner → Party → Fields → Runner
unfolding get
accept_policy r p payload = record r {
  policy_acceptance = set_slot r.policy_acceptance p (
      some (record {
        policy_id = get "policy_id" payload;
        policy_version = get "policy_version" payload;
        acceptance_digest = get "acceptance_digest" payload;
      }));
}

-- query_budget_reservation
unfoldable pub reservation_guards : Runner → Guards
reservation_guards r =
    (
      phase_eq r.phase participants_bound && both is_some r.policy_acceptance,
      "budget reservation requires bilateral policy acceptance",
    )
    ∷ []

unfoldable pub reserve_budget : Runner → Runner
reserve_budget r = record r {
  budget_reserved = true;
  query_budget_state = reserved;
  phase = commitments_pending;
}

-- commitment_registration
unfoldable pub commitment_guards : Runner → Party → Guards
commitment_guards r p =
    (phase_eq r.phase commitments_pending, "commitment requires budget reservation")
    ∷ (is_null (slot r.commitments p), "Party commitment slot is immutable")
    ∷ []

-- The guard inside the effect of a second commitment.
unfoldable pub pair_guards : Runner → Guards
pair_guards r = (not (is_some r.commitment_pair_id), "commitment pair identifier is immutable") ∷ []

unfoldable pub register_commitment : Runner → Party → Fields → Runner
unfolding get
register_commitment r p payload = record r {
  commitments = set_slot r.commitments p (get "opaque_commitment" payload);
}

module _ (h : Hashing) where
  abbrev profile_or_empty : Json → Json
  profile_or_empty profile = if truthy profile then profile else obj end

  abbrev text : Json → String
  text (str s) = s
  text v = h.display v

  -- The pair of the runner's commitments, under the message's profile.
  unfoldable pub pair_of : Runner → Message → Outcome String
  unfolding commitment_pair_digest
  pair_of r m =
      commitment_pair_digest h
        (String.◌++◌ m.protocol_profile (String.◌++◌ "/v" m.protocol_version))
        r.base_context.session_context.policy r.base_context.session_context.session_id
        r.participants (profile_or_empty r.selected_integration_profile) (text r.commitments.slot_a)
        (text r.commitments.slot_b)

  -- The effect of the commitment that completes the pair.
  unfoldable pub complete_pair : Runner → Message → Outcome Runner
  unfolding pair_of
  complete_pair r m = do
    pair ← pair_of r m
    ok (record r { commitment_pair_id = some pair; phase = committed })
