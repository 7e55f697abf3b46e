-- ===== src/Runner/Agreement.antt =====
-- The Party-local results of `AbstractStateRunner` in scripts/validate_messages.py between two events:
-- the proposed ones, and the accepted ones.
use private_match_protocol.Prelude.{
  ◌≡◌, refl, Bool, true, ◌&&◌, ◌||◌, not, Option, some, is_some, arith, String, List, inl, inr,
  Bool-cases, leb,
}
use private_match_protocol.Json.{Fields, truthy}
use private_match_protocol.Digest.{Hashing}
use private_match_protocol.Message.{Message}
use private_match_protocol.Times.{Timed}
use private_match_protocol.Phases.{Phase, Party, party_a, party_b, both}
use private_match_protocol.Materials.{TrustedSubject}
use private_match_protocol.Runner.{Runner, new_runner, Context}
use private_match_protocol.Runner.Guards.{AllHold}
use private_match_protocol.Runner.Setup.{
  proposal_guards, propose, accept_session, participant_binding_guards, bind_participant,
  policy_acceptance_guards, accept_policy, reservation_guards, reserve_budget, commitment_guards,
  register_commitment,
}
use private_match_protocol.Runner.Evaluation.{
  start_guards, start_evaluation, submit_contribution, ack_guards, acknowledge, result_guards,
  accept_result,
}
use private_match_protocol.Runner.Consent.{
  consent_guards, grant_consent, withdrawal_guards, withdraw, disclosure_guards,
  authorize_disclosure, close_guards, close_session,
}
use mathlib.Core.Path.{subst}
use private_match_protocol.Json.{Fields, truthy}
use private_match_protocol.Findings.{Finding}
use private_match_protocol.Phases.{Party, party_a, party_b, both}
use private_match_protocol.Digest.Errors.{ok}
use private_match_protocol.Digest.{Hashing}
use private_match_protocol.Message.{Message}
use private_match_protocol.Message.Kinds.{DeliveryClass, party_message}
use private_match_protocol.Times.{Calendar}
use private_match_protocol.Materials.{Material, TrustedSubject}
use private_match_protocol.Registry.{Entry}
use private_match_protocol.Runner.{Runner, party_of}
use private_match_protocol.Runner.Guards.{AllHold}
use private_match_protocol.Runner.Setup.{register_commitment, commitment_guards}
use private_match_protocol.Runner.{Context, new_runner}
use private_match_protocol.Runner.Apply.{apply, advance_sequence}
use private_match_protocol.Runner.Branches.{Branches, with_pair, handle-rule}
use private_match_protocol.Runner.Atomic.{apply-Concluded}
use private_match_protocol.Runner.Invariant.{stage, is_over}
use private_match_protocol.Json.{json_eq, Json}
use private_match_protocol.Phases.{either, Slots}
use private_match_protocol.Runner.Evaluation.{is_plaintext_result}

-- The two results of a session are the same reviewed result, or there are none.
abbrev pub Matching : Slots Json → Type 0
Matching results =
    (json_eq results.slot_a results.slot_b ≡ true)
    × (either truthy results ≡ true → is_plaintext_result results.slot_a ≡ true)

-- The result was accepted, and the phase is past it.
abbrev pub past_result : Phase → Bool
past_result p = leb 6 (stage p) || is_over p

pub record Agreement (r : Runner) : Type 0 where
  pub proposed_match : Matching r.proposed_result_state
  pub accepted_match : Matching r.accepted_result_state
  pub receipt_first :
      either truthy r.accepted_result_state ≡ true → is_some r.accepted_receipt ≡ true
  pub receipt_late : is_some r.accepted_receipt ≡ true → past_result r.phase ≡ true
  pub accepted_proposed :
      is_some r.accepted_receipt ≡ true
      → either truthy r.proposed_result_state ≡ true
      → r.accepted_result_state ≡ r.proposed_result_state
  pub accepted_only :
      either truthy r.accepted_result_state ≡ true
      → r.accepted_result_state ≡ r.proposed_result_state

agreed-Matching :
    (results : Slots Json)
    → not (either truthy results)
        || (is_plaintext_result results.slot_a && json_eq results.slot_a results.slot_b)
      ≡ true
    → either truthy results ≡ true
    → Matching results
agreed-Matching results agreed filled = let e = rw filled at agreed in ground arith

-- The guard of the acceptance on the proposed results.
results_agree :
    (r : Runner) (m : Message)
    → AllHold (result_guards r m)
    → either truthy r.proposed_result_state ≡ true
    → Matching r.proposed_result_state
unfolding result_guards
results_agree r m g some_proposed =
    agreed-Matching r.proposed_result_state g.1.1.1.1.1.1.0 some_proposed

module _ (r : Runner) (payload : Fields) where
  propose-Agreement : AllHold (proposal_guards r) → Agreement r → Agreement (propose r payload)
  unfolding proposal_guards propose
  propose-Agreement g v = ground arith

  accept_session-Agreement :
      (p : Party) (s : Option TrustedSubject)
      → Agreement r
      → Agreement (accept_session r p payload s)
  unfolding accept_session
  accept_session-Agreement party_a s v = ground arith
  accept_session-Agreement party_b s v = ground arith

  bind_participant-Agreement :
      (p : Party) (s : Option TrustedSubject)
      → AllHold (participant_binding_guards r p payload s)
      → Agreement r
      → Agreement (bind_participant r p payload)
  unfolding participant_binding_guards bind_participant
  bind_participant-Agreement party_a s g v = ground arith
  bind_participant-Agreement party_b s g v = ground arith

  accept_policy-Agreement :
      (p : Party)
      → AllHold (policy_acceptance_guards r p payload)
      → Agreement r
      → Agreement (accept_policy r p payload)
  unfolding policy_acceptance_guards accept_policy
  accept_policy-Agreement party_a g v = ground arith
  accept_policy-Agreement party_b g v = ground arith

  reserve_budget-Agreement :
      AllHold (reservation_guards r) → Agreement r → Agreement (reserve_budget r)
  unfolding reservation_guards reserve_budget
  reserve_budget-Agreement g v = ground arith

  register_commitment-Agreement :
      (p : Party)
      → AllHold (commitment_guards r p)
      → Agreement r
      → Agreement (register_commitment r p payload)
  unfolding commitment_guards register_commitment
  register_commitment-Agreement party_a g v = ground arith
  register_commitment-Agreement party_b g v = ground arith

  start_evaluation-Agreement :
      (deadline : Timed String)
      → AllHold (start_guards r)
      → Agreement r
      → Agreement (start_evaluation r deadline payload)
  unfolding start_guards start_evaluation
  start_evaluation-Agreement deadline g v = ground arith

  submit_contribution-Agreement :
      (p : Party) → Agreement r → Agreement (submit_contribution r p payload)
  unfolding submit_contribution
  submit_contribution-Agreement party_a v = ground arith
  submit_contribution-Agreement party_b v = ground arith

  acknowledge-Agreement :
      (h : Hashing) (p : Party) (m : Message)
      → AllHold (ack_guards h r p m)
      → Agreement r
      → Agreement (acknowledge r p payload)
  unfolding ack_guards acknowledge
  acknowledge-Agreement h party_a m g v = ground arith
  acknowledge-Agreement h party_b m g v = ground arith

  accept_result-Agreement :
      (m : Message)
      → AllHold (result_guards r m)
      → Agreement r
      → Agreement (accept_result r payload)
  unfolding accept_result
  accept_result-Agreement m g v = elim (Bool-cases (either truthy r.proposed_result_state)) [
    | inl some_proposed ↦
        (let agreed = results_agree r m g some_proposed in
          record {
            proposed_match = v.proposed_match;
            accepted_match = rw some_proposed agreed;
            receipt_first = λ e. refl;
            receipt_late = λ e. refl;
            accepted_proposed = λ e some_left. rw some_proposed;
            accepted_only = λ filled. rw some_proposed;
          })
    | inr nothing ↦ record {
      proposed_match = v.proposed_match;
      accepted_match = rw nothing v.accepted_match;
      receipt_first = λ e. refl;
      receipt_late = λ e. refl;
      accepted_proposed = λ e some_left. absurd (cc);
      accepted_only = rw nothing v.accepted_only;
    }
  ]

  grant_consent-Agreement :
      (p : Party)
      → AllHold (consent_guards r p payload)
      → Agreement r
      → Agreement (grant_consent r p payload)
  unfolding consent_guards grant_consent
  grant_consent-Agreement party_a g v = ground arith
  grant_consent-Agreement party_b g v = ground arith

  withdraw-Agreement :
      (p : Party) → AllHold (withdrawal_guards r p payload) → Agreement r → Agreement (withdraw r p)
  unfolding withdrawal_guards withdraw
  withdraw-Agreement party_a g v = ground arith
  withdraw-Agreement party_b g v = ground arith

  authorize_disclosure-Agreement :
      AllHold (disclosure_guards r payload) → Agreement r → Agreement (authorize_disclosure r)
  unfolding disclosure_guards authorize_disclosure
  authorize_disclosure-Agreement g v = ground arith

close_session-Agreement :
    (r : Runner) → AllHold (close_guards r) → Agreement r → Agreement (close_session r)
unfolding close_guards close_session
close_session-Agreement r g v = ground arith

with_pair-Agreement :
    (r : Runner) (payload : Fields) (p : Party) (pair : String)
    → AllHold (commitment_guards r p)
    → both truthy (register_commitment r p payload).commitments ≡ true
    → Agreement r
    → Agreement (with_pair (register_commitment r p payload) pair)
unfolding register_commitment commitment_guards
with_pair-Agreement r payload party_a pair g full v = ground arith
with_pair-Agreement r payload party_b pair g full v = ground arith

module _ (h : Hashing) (r : Runner) (m : Message) (s : Option TrustedSubject) where
  Branches-Agreement : Agreement r → Branches h (λ t. Agreement) r m s
  Branches-Agreement v = record {
    proposed = λ g. propose-Agreement r m.payload g v;
    session_accepted = λ p g. accept_session-Agreement r m.payload p s v;
    participant_bound = λ p g. bind_participant-Agreement r m.payload p s g v;
    policy_accepted = λ p g. accept_policy-Agreement r m.payload p g v;
    budget_reserved = λ g. reserve_budget-Agreement r m.payload g v;
    commitment_first = λ p g. register_commitment-Agreement r m.payload p g v;
    commitment_second = λ p pair g full paired. with_pair-Agreement r m.payload p pair g full v;
    evaluation_started = λ deadline g. start_evaluation-Agreement r m.payload deadline g v;
    contributed = λ p g. submit_contribution-Agreement r m.payload p v;
    acknowledged = λ p g. acknowledge-Agreement r m.payload h p m g v;
    result_accepted = λ g. accept_result-Agreement r m.payload m g v;
    consent_granted = λ p g. grant_consent-Agreement r m.payload p g v;
    consent_withdrawn = λ p g. withdraw-Agreement r m.payload p g v;
    disclosure_authorized = λ g. authorize_disclosure-Agreement r m.payload g v;
    session_closed = λ g. close_session-Agreement r g v;
  }

sequence-Agreement :
    (p : Option Party) (d : DeliveryClass) (r : Runner)
    → Agreement r
    → Agreement (advance_sequence p d r)
sequence-Agreement (some p) party_message r v = ground arith
sequence-Agreement p d r v = v

pub new_runner-Agreement : (c : Context) → Agreement (new_runner c)
unfolding new_runner json_eq
new_runner-Agreement c = ground arith

module _ (h : Hashing) (cal : Calendar) (r : Runner) (m : Message) (entries : List Entry)
    (materials : List Material) {found : List Finding} {r' : Runner}
    (run : apply h cal r m entries materials ≡ ok (found, r')) where
  -- Whatever `apply` returns, with findings or without, keeps the agreement of the results: the two
  -- proposed results are equal, and so are the two accepted ones, and where either is set it is a reviewed
  -- result; accepted results come with the receipt, in a phase past the acceptance, and equal the
  -- proposed ones, so that none are accepted where none were proposed; where the receipt is there, any
  -- proposed results are accepted.
  pub apply-Agreement : Agreement r → Agreement r'
  apply-Agreement v = elim (apply-Concluded h cal r m entries materials run) [
    | inl (u, handled, _, same) ↦ subst Agreement same (
        sequence-Agreement (party_of m.sender.actor) m.delivery_class u
          (handle-rule h cal _ r m _ (Branches-Agreement h r m _ v) m.message_type _ u _ handled))
    | inr (_, same) ↦ subst Agreement same v
  ]
