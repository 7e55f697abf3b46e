-- ===== src/Runner/Invariant.antt =====
-- What holds of the runner of scripts/validate_messages.py between two events, and the branches of
-- `apply` that keep it.
use private_match_protocol.Prelude.{
  ℕ, ◌≤◌, ◌≡◌, ◌≢◌, Bool, true, false, Option, is_some, arith, String,
}
use private_match_protocol.Json.{Fields, truthy, text_of}
use private_match_protocol.Digest.{Hashing}
use private_match_protocol.Message.{Message}
use private_match_protocol.Times.{Timed}
use private_match_protocol.Phases.{
  Phase, created, participants_bound, commitments_pending, committed, evaluating, result_accepted,
  consent_pending, disclosure_authorized, closed, aborted, expired, reserved, consumed, authorized,
  no_failure, Party, party_a, party_b, both,
}
use private_match_protocol.Materials.{TrustedSubject}
use private_match_protocol.Runner.{Runner, new_runner, Context, text_or_null}
use private_match_protocol.Runner.Guards.{AllHold}
use private_match_protocol.Runner.Setup.{
  proposal_guards, propose, accept_session, participant_binding_guards, bind_participant,
  policy_acceptance_guards, accept_policy, reservation_guards, reserve_budget, commitment_guards,
  register_commitment,
}
use private_match_protocol.Runner.Evaluation.{
  start_guards, start_evaluation, submit_contribution, ack_guards, acknowledge, result_guards,
  accept_result,
}
use private_match_protocol.Runner.Consent.{
  consent_guards, grant_consent, withdrawal_guards, withdraw, disclosure_guards,
  authorize_disclosure, close_guards, close_session,
}

-- How far a live session has come; a terminal one has no stage.
abbrev pub stage : Phase → ℕ
stage created = 1
stage participants_bound = 2
stage commitments_pending = 3
stage committed = 4
stage evaluating = 5
stage result_accepted = 6
stage consent_pending = 7
stage disclosure_authorized = 8
stage _ = 0

abbrev pub is_over : Phase → Bool
is_over closed = true
is_over aborted = true
is_over expired = true
is_over _ = false

pub record Inv (r : Runner) : Type 0 where
  pub participants_known : 2 ≤ stage r.phase → both is_some r.participants ≡ true
  pub policies_known : 3 ≤ stage r.phase → both is_some r.policy_acceptance ≡ true
  pub budget_held : 3 ≤ stage r.phase → r.budget_reserved ≡ true
  pub commitments_known : 4 ≤ stage r.phase → both truthy r.commitments ≡ true
  pub pair_known : 4 ≤ stage r.phase → is_some r.commitment_pair_id ≡ true
  pub started : 5 ≤ stage r.phase → r.evaluation_started ≡ true
  pub not_started : is_over r.phase ≡ false → stage r.phase ≤ 4 → r.evaluation_started ≡ false
  pub budget_spent : r.evaluation_started ≡ true → r.query_budget_state ≡ consumed
  pub budget_settled : is_over r.phase ≡ true → r.query_budget_state ≢ reserved
  pub receipts_known : 6 ≤ stage r.phase → both is_some r.receipt_acks ≡ true
  pub receipt_accepted : 6 ≤ stage r.phase → is_some r.accepted_receipt ≡ true
  pub consents_known : r.phase ≡ disclosure_authorized → both is_some r.consents ≡ true
  pub disclosure_open : r.disclosure_state ≡ authorized → r.phase ≡ disclosure_authorized
  pub failure_over : r.terminal_failure_code ≢ no_failure → is_over r.phase ≡ true
  pub one_clock : r.base_context.authoritative_time ≡ r.authoritative_time

module _ (r : Runner) (payload : Fields) where
  pub propose-Inv : AllHold (proposal_guards r) → Inv r → Inv (propose r payload)
  unfolding proposal_guards propose
  propose-Inv g v = ground arith

  pub accept_session-Inv :
      (p : Party) (s : Option TrustedSubject) → Inv r → Inv (accept_session r p payload s)
  unfolding accept_session
  accept_session-Inv party_a s v = ground arith
  accept_session-Inv party_b s v = ground arith

  pub bind_participant-Inv :
      (p : Party) (s : Option TrustedSubject)
      → AllHold (participant_binding_guards r p payload s)
      → Inv r
      → Inv (bind_participant r p payload)
  unfolding participant_binding_guards bind_participant
  bind_participant-Inv party_a s g v = ground arith
  bind_participant-Inv party_b s g v = ground arith

  pub accept_policy-Inv :
      (p : Party)
      → AllHold (policy_acceptance_guards r p payload)
      → Inv r
      → Inv (accept_policy r p payload)
  unfolding policy_acceptance_guards accept_policy
  accept_policy-Inv party_a g v = ground arith
  accept_policy-Inv party_b g v = ground arith

  pub reserve_budget-Inv : AllHold (reservation_guards r) → Inv r → Inv (reserve_budget r)
  unfolding reservation_guards reserve_budget
  reserve_budget-Inv g v = ground arith

  pub register_commitment-Inv :
      (p : Party) → AllHold (commitment_guards r p) → Inv r → Inv (register_commitment r p payload)
  unfolding commitment_guards register_commitment
  register_commitment-Inv party_a g v = ground arith
  register_commitment-Inv party_b g v = ground arith

  pub start_evaluation-Inv :
      (deadline : Timed String)
      → AllHold (start_guards r)
      → Inv r
      → Inv (start_evaluation r deadline payload)
  unfolding start_guards start_evaluation
  start_evaluation-Inv deadline g v = ground arith

  pub submit_contribution-Inv : (p : Party) → Inv r → Inv (submit_contribution r p payload)
  unfolding submit_contribution
  submit_contribution-Inv party_a v = ground arith
  submit_contribution-Inv party_b v = ground arith

  pub acknowledge-Inv :
      (h : Hashing) (p : Party) (m : Message)
      → AllHold (ack_guards h r p m)
      → Inv r
      → Inv (acknowledge r p payload)
  unfolding ack_guards acknowledge
  acknowledge-Inv h party_a m g v = ground arith
  acknowledge-Inv h party_b m g v = ground arith

  pub accept_result-Inv :
      (m : Message) → AllHold (result_guards r m) → Inv r → Inv (accept_result r payload)
  unfolding result_guards accept_result
  accept_result-Inv m g v = ground arith

  pub grant_consent-Inv :
      (p : Party) → AllHold (consent_guards r p payload) → Inv r → Inv (grant_consent r p payload)
  unfolding consent_guards grant_consent
  grant_consent-Inv party_a g v = ground arith
  grant_consent-Inv party_b g v = ground arith

  pub withdraw-Inv :
      (p : Party) → AllHold (withdrawal_guards r p payload) → Inv r → Inv (withdraw r p)
  unfolding withdrawal_guards withdraw
  withdraw-Inv party_a g v = ground arith
  withdraw-Inv party_b g v = ground arith

  pub authorize_disclosure-Inv :
      AllHold (disclosure_guards r payload) → Inv r → Inv (authorize_disclosure r)
  unfolding disclosure_guards authorize_disclosure
  authorize_disclosure-Inv g v = ground arith

pub close_session-Inv : (r : Runner) → AllHold (close_guards r) → Inv r → Inv (close_session r)
unfolding close_guards close_session
close_session-Inv r g v = ground arith

-- A new runner whose context has a time, or none.
pub new_runner-Inv :
    (c : Context)
    → c.authoritative_time ≡ text_or_null (text_of c.authoritative_time)
    → Inv (new_runner c)
unfolding new_runner
new_runner-Inv c h = ground arith
