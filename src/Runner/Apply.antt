-- ===== src/Runner/Apply.antt =====
-- `AbstractStateRunner.apply` of scripts/validate_messages.py: one enabled transition, validated and
-- applied atomically.
use Prim.Native.String
use private_match_protocol.Prelude.{
  ◌+◌, String, Option, none, some, List, [], ◌∷◌, ◌++◌, any, is_some, str_eq, if◌then◌else◌, pos,
}
use private_match_protocol.Json.{int, json_eq, truthy, is_null}
use private_match_protocol.Findings.{Finding, finding, sorted_set}
use private_match_protocol.Phases.{committed, Party, other, slot, set_slot, both}
use private_match_protocol.Message.{Message}
use private_match_protocol.Message.Wire.{identity_get}
use private_match_protocol.Message.Kinds.{
  MessageType, session_proposal, session_acceptance, participant_binding, policy_acceptance,
  commitment_registration, query_budget_reservation, evaluation_start, evaluation_contribution,
  opaque_receipt_ack, result_acceptance_notice, consent_grant, consent_withdrawal,
  disclosure_extension_authorization, close_notice, type_name, DeliveryClass, party_message,
}
use private_match_protocol.Times.{Calendar}
use private_match_protocol.Materials.{Material, TrustedSubject, authenticated_subject_parameter}
use private_match_protocol.Digest.Errors.{Outcome, ok, ◌>>=◌}
use private_match_protocol.Digest.{Hashing}
use private_match_protocol.Registry.{Entry, find_entry, entry_transitions}
use private_match_protocol.Transitions.{Transition, transition_id}
use private_match_protocol.Runner.{Runner, party_of}
use private_match_protocol.Runner.Guards.{unmet, when_clear}
use private_match_protocol.Runner.Setup.{
  proposal_guards, propose, session_acceptance_guards, accept_session, participant_binding_guards,
  bind_participant, policy_acceptance_guards, accept_policy, reservation_guards, reserve_budget,
  commitment_guards, pair_guards, register_commitment, complete_pair,
}
use private_match_protocol.Runner.Evaluation.{
  start_guards, derived_deadline, deadline_findings, start_evaluation, contribution_guards,
  submit_contribution, ack_guards, acknowledge, result_guards, accept_result,
}
use private_match_protocol.Runner.Consent.{
  consent_findings, grant_consent, withdrawal_guards, withdraw, disclosure_guards,
  authorize_disclosure, close_guards, close_session,
}

-- The transition that a branch names, from the state before its effect.
unfoldable pub transition_for : MessageType → Option Party → Runner → Option Transition
transition_for session_proposal _ r = some Transition.create
transition_for session_acceptance (some p) r = some (Transition.accept_session p)
transition_for participant_binding (some p) r = some (
    if is_some (slot r.participants (other p))
    then Transition.bind_complete p
    else Transition.bind_first p)
transition_for policy_acceptance (some p) r = some (Transition.accept_policy p)
transition_for query_budget_reservation _ r = some Transition.reserve_budget
transition_for commitment_registration (some p) r = some (
    if is_null (slot r.commitments (other p))
    then Transition.commit_first p
    else Transition.commit_complete p)
transition_for evaluation_start _ r = some Transition.start_evaluation
transition_for evaluation_contribution (some p) r = some (Transition.submit_contribution p)
transition_for opaque_receipt_ack (some p) r = some (Transition.ack_receipt p)
transition_for result_acceptance_notice _ r = some Transition.accept_symmetric_result
transition_for consent_grant (some p) r = some (Transition.grant_consent p)
transition_for consent_withdrawal (some p) r = some (Transition.withdraw_consent p)
transition_for disclosure_extension_authorization _ r =
    some Transition.authorize_disclosure_extension
transition_for close_notice _ r = some Transition.close
transition_for _ _ r = none

-- A branch without exceptions: its findings, and its effect where there are none.
abbrev pub settle : List Finding → Runner → Runner → Outcome (List Finding × Runner)
settle fs updated r = ok (fs, when_clear fs updated r)

-- `transition not in entry.get("state_machine", {}).get("transitions", [])`
abbrev pub mapping_findings : Option Transition → List String → MessageType → List Finding
mapping_findings none mapped type = []
mapping_findings (some t) mapped type =
    if any mapped (str_eq (transition_id t))
    then []
    else finding "state-trace-mapping" (type_name type)
        (String.◌++◌ "registry does not map enabled transition " (transition_id t))
      ∷ []

abbrev pub sequence_findings : Option Party → DeliveryClass → Runner → Message → List Finding
sequence_findings (some p) party_message r m =
    if json_eq (identity_get "sequence" m.identity) (int (pos (slot r.next_sequence p)))
    then []
    else finding "state-trace" (type_name m.message_type)
        "Party sequence does not equal current next_sequence"
      ∷ []
sequence_findings _ _ r m = []

abbrev pub advance_sequence : Option Party → DeliveryClass → Runner → Runner
advance_sequence (some p) party_message r = record r {
  next_sequence = set_slot r.next_sequence p (slot r.next_sequence p + 1);
}
advance_sequence _ _ r = r

-- What follows the branches: `before` comes back where anything was found.
abbrev pub conclude : List Finding → Runner → Runner → List Finding × Runner
conclude [] updated before = ([], updated)
conclude (f ∷ fs) updated before = (sorted_set (f ∷ fs), before)

unfoldable pub late_findings : List Entry → Runner → Runner → Message → List Finding
unfolding find_entry transition_for transition_id identity_get json_eq finding type_name party_of
late_findings entries before r m =
    let p = party_of m.sender.actor in
    mapping_findings (transition_for m.message_type p before)
      (entry_transitions (find_entry entries (type_name m.message_type))) m.message_type
    ++ sequence_findings p m.delivery_class r m

module _ (cal : Calendar) where
  abbrev pub subject_step :
      List Material → Option Party → Runner → Message → Option TrustedSubject × List Finding
  subject_step materials none r m = (none, [])
  subject_step materials (some p) r m =
      authenticated_subject_parameter cal materials m r.base_context.authoritative_time

module _ (h : Hashing) where
  -- The second part of a commitment: with both commitments known, the pair is fixed.
  abbrev pub pair_step : List Finding → Runner → Message → Outcome (List Finding × Runner)
  pair_step [] updated m = do paired ← complete_pair h updated m; ok ([], paired)
  pair_step (f ∷ fs) updated m = ok (f ∷ fs, record updated { phase = committed })

  abbrev pub commit_step :
      List Finding → Runner → Runner → Message → Outcome (List Finding × Runner)
  commit_step (f ∷ fs) updated r m = ok (f ∷ fs, r)
  commit_step [] updated r m =
      if both truthy updated.commitments
      then pair_step (unmet commitment_registration (pair_guards updated)) updated m
      else ok ([], updated)

module _ (h : Hashing) (cal : Calendar) where
  -- The branches on the message type: the findings after those in `fs`, and the state.
  unfoldable pub handle :
      MessageType
      → Option Party
      → Runner
      → Message
      → Option TrustedSubject
      → List Finding
      → Outcome (List Finding × Runner)
  handle session_proposal _ r m subject fs =
      settle (fs ++ unmet session_proposal (proposal_guards r)) (propose r m.payload) r
  handle session_acceptance (some p) r m subject fs =
      settle (fs ++ unmet session_acceptance (session_acceptance_guards r p m.payload subject))
        (accept_session r p m.payload subject) r
  handle participant_binding (some p) r m subject fs =
      settle (fs ++ unmet participant_binding (participant_binding_guards r p m.payload subject))
        (bind_participant r p m.payload) r
  handle policy_acceptance (some p) r m subject fs =
      settle (fs ++ unmet policy_acceptance (policy_acceptance_guards r p m.payload))
        (accept_policy r p m.payload) r
  handle query_budget_reservation _ r m subject fs =
      settle (fs ++ unmet query_budget_reservation (reservation_guards r)) (reserve_budget r) r
  handle commitment_registration (some p) r m subject fs =
      commit_step h (fs ++ unmet commitment_registration (commitment_guards r p))
        (register_commitment r p m.payload) r m
  handle evaluation_start _ r m subject fs =
      let deadline = derived_deadline cal r m.payload in
      settle
        ((fs ++ unmet evaluation_start (start_guards r)) ++ deadline_findings deadline m.payload)
        (start_evaluation r deadline m.payload) r
  handle evaluation_contribution (some p) r m subject fs =
      settle (fs ++ unmet evaluation_contribution (contribution_guards r p))
        (submit_contribution r p m.payload) r
  handle opaque_receipt_ack (some p) r m subject fs =
      settle (fs ++ unmet opaque_receipt_ack (ack_guards h r p m)) (acknowledge r p m.payload) r
  handle result_acceptance_notice _ r m subject fs =
      settle (fs ++ unmet result_acceptance_notice (result_guards r m)) (accept_result r m.payload)
        r
  handle consent_grant (some p) r m subject fs =
      settle (consent_findings cal r p m.payload fs) (grant_consent r p m.payload) r
  handle consent_withdrawal (some p) r m subject fs =
      settle (fs ++ unmet consent_withdrawal (withdrawal_guards r p m.payload)) (withdraw r p) r
  handle disclosure_extension_authorization _ r m subject fs =
      settle (fs ++ unmet disclosure_extension_authorization (disclosure_guards r m.payload))
        (authorize_disclosure r) r
  handle close_notice _ r m subject fs =
      settle (fs ++ unmet close_notice (close_guards r)) (close_session r) r
  handle t _ r m subject fs = ok (
    fs
        ++ finding "state-trace" (type_name t) "message is not part of the positive state trace"
          ∷ [],
    r,
  )

  -- apply
  unfoldable pub apply :
      Runner → Message → List Entry → List Material → Outcome (List Finding × Runner)
  unfolding party_of authenticated_subject_parameter handle late_findings
  apply r m entries materials = do
    let p = party_of m.sender.actor
    let (subject, found) = subject_step cal materials p r m
    (fs, updated) ← handle m.message_type p r m subject found
    ok (
        conclude (fs ++ late_findings entries r updated m)
          (advance_sequence p m.delivery_class updated) r)
