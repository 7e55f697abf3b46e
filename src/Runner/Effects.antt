-- ===== src/Runner/Effects.antt =====
-- What a message that `AbstractStateRunner.apply` accepts may change: the phase along the diagram of
-- specs/state-machines/private-match-core-session-v0.1.md, and only slots that were empty.
use private_match_protocol.Prelude.{
  ◌+◌, String, ◌≡◌, refl, ap, inl, inr, Bool, true, false, not, Option, some, none, List, [], arith,
  is_some, ◌⊎◌, ℕ,
}
use mathlib.Core.Path.{subst}
use private_match_protocol.Json.{Json, str, Fields, put, is_null}
use private_match_protocol.Phases.{
  Phase, uninitialized, created, participants_bound, commitments_pending, committed, evaluating,
  result_accepted, consent_pending, disclosure_authorized, closed, aborted, Party, party_a, party_b,
  slot, Slots,
}
use private_match_protocol.Digest.Errors.{ok}
use private_match_protocol.Digest.{Hashing}
use private_match_protocol.Message.{Message}
use private_match_protocol.Message.Kinds.{
  MessageType, session_proposal, session_acceptance, participant_binding, policy_acceptance,
  commitment_registration, query_budget_reservation, evaluation_start, evaluation_contribution,
  opaque_receipt_ack, result_acceptance_notice, consent_grant, consent_withdrawal,
  disclosure_extension_authorization, close_notice, DeliveryClass, party_message,
}
use private_match_protocol.Times.{Calendar, Timed}
use private_match_protocol.Materials.{Material, TrustedSubject}
use private_match_protocol.Registry.{Entry}
use private_match_protocol.Runner.{Runner, party_of}
use private_match_protocol.Runner.Guards.{AllHold}
use private_match_protocol.Runner.Setup.{
  proposal_guards, propose, session_acceptance_guards, accept_session, participant_binding_guards,
  bind_participant, policy_acceptance_guards, accept_policy, reservation_guards, reserve_budget,
  commitment_guards, pair_guards, register_commitment,
}
use private_match_protocol.Runner.Evaluation.{
  start_guards, start_evaluation, contribution_guards, submit_contribution, ack_guards, acknowledge,
  result_guards, accept_result,
}
use private_match_protocol.Runner.Consent.{
  consent_guards, grant_consent, withdrawal_guards, withdraw, disclosure_guards,
  authorize_disclosure, close_guards, close_session,
}
use private_match_protocol.Runner.Apply.{apply, advance_sequence}
use private_match_protocol.Runner.Branches.{Branches, with_pair, handle-rule}
use private_match_protocol.Runner.Atomic.{apply-Concluded}
use private_match_protocol.Runner.Invariant.{is_over}

-- The diagram: the phase before and after a message of each type.
abbrev pub diagram : MessageType → Phase → Phase → Bool
diagram session_proposal uninitialized created = true
diagram session_acceptance created created = true
diagram participant_binding created created = true
diagram participant_binding created participants_bound = true
diagram policy_acceptance participants_bound participants_bound = true
diagram query_budget_reservation participants_bound commitments_pending = true
diagram commitment_registration commitments_pending commitments_pending = true
diagram commitment_registration commitments_pending committed = true
diagram evaluation_start committed evaluating = true
diagram evaluation_contribution evaluating evaluating = true
diagram opaque_receipt_ack evaluating evaluating = true
diagram result_acceptance_notice evaluating result_accepted = true
diagram consent_grant result_accepted consent_pending = true
diagram consent_grant consent_pending consent_pending = true
diagram consent_withdrawal consent_pending aborted = true
diagram disclosure_extension_authorization consent_pending disclosure_authorized = true
diagram close_notice uninitialized closed = false
diagram close_notice p closed = not (is_over p)
diagram _ _ _ = false

abbrev Once {ℓ} : {A : Type ℓ} → (A → Bool) → Slots A → Slots A → Type ℓ
Once filled before after =
    (p : Party) → filled (slot before p) ≡ true → slot after p ≡ slot before p

abbrev known : Json → Bool
known v = not (is_null v)

-- A consent that is present stays as it is, but for a withdrawal, which may mark it withdrawn.
abbrev pub ConsentKept : MessageType → Fields → Option Fields → Type 0
ConsentKept consent_withdrawal c after =
    (after ≡ some c) ⊎ (after ≡ some (put "status" (str "withdrawn") c))
ConsentKept t c after = after ≡ some c

-- A filled slot keeps its value, as far as it is no consent; the clock and the proposed Party-local results are left alone.
pub record Effect (t : MessageType) (r u : Runner) : Type 0 where
  pub moved : diagram t r.phase u.phase ≡ true
  pub acceptances : Once is_some r.session_acceptance u.session_acceptance
  pub participants : Once is_some r.participants u.participants
  pub policies : Once is_some r.policy_acceptance u.policy_acceptance
  pub commitments : Once known r.commitments u.commitments
  pub contributions : Once known r.contributions u.contributions
  pub receipts : Once is_some r.receipt_acks u.receipt_acks
  pub consents :
      (p : Party) (c : Fields) → slot r.consents p ≡ some c → ConsentKept t c (slot u.consents p)
  pub pair : is_some r.commitment_pair_id ≡ true → u.commitment_pair_id ≡ r.commitment_pair_id
  pub attempt :
      known r.evaluation_attempt_id ≡ true → u.evaluation_attempt_id ≡ r.evaluation_attempt_id
  pub clock : u.authoritative_time ≡ r.authoritative_time
  pub proposals : u.proposed_result_state ≡ r.proposed_result_state

-- The effect of a branch, which leaves the sequences to what follows it.
abbrev BranchEffect : Runner → MessageType → Runner → Type 0
BranchEffect r t u = Effect t r u × (u.next_sequence ≡ r.next_sequence)

module _ (r : Runner) (payload : Fields) where
  propose-Effect : AllHold (proposal_guards r) → BranchEffect r session_proposal (propose r payload)
  unfolding proposal_guards propose
  propose-Effect g = ground arith

  accept_session-Effect :
      (p : Party) (s : Option TrustedSubject)
      → AllHold (session_acceptance_guards r p payload s)
      → BranchEffect r session_acceptance (accept_session r p payload s)
  unfolding session_acceptance_guards accept_session
  accept_session-Effect party_a s g = ground arith
  accept_session-Effect party_b s g = ground arith

  bind_participant-Effect :
      (p : Party) (s : Option TrustedSubject)
      → AllHold (participant_binding_guards r p payload s)
      → BranchEffect r participant_binding (bind_participant r p payload)
  unfolding participant_binding_guards bind_participant
  bind_participant-Effect party_a s g = ground arith
  bind_participant-Effect party_b s g = ground arith

  accept_policy-Effect :
      (p : Party)
      → AllHold (policy_acceptance_guards r p payload)
      → BranchEffect r policy_acceptance (accept_policy r p payload)
  unfolding policy_acceptance_guards accept_policy
  accept_policy-Effect party_a g = ground arith
  accept_policy-Effect party_b g = ground arith

  reserve_budget-Effect :
      AllHold (reservation_guards r) → BranchEffect r query_budget_reservation (reserve_budget r)
  unfolding reservation_guards reserve_budget
  reserve_budget-Effect g = ground arith

  register_commitment-Effect :
      (p : Party)
      → AllHold (commitment_guards r p)
      → BranchEffect r commitment_registration (register_commitment r p payload)
  unfolding commitment_guards register_commitment
  register_commitment-Effect party_a g = ground arith
  register_commitment-Effect party_b g = ground arith

  with_pair-Effect :
      (p : Party) (pair : String)
      → AllHold (commitment_guards r p)
      → AllHold (pair_guards (register_commitment r p payload))
      → BranchEffect r commitment_registration (with_pair (register_commitment r p payload) pair)
  unfolding commitment_guards pair_guards register_commitment
  with_pair-Effect party_a pair g paired = ground arith
  with_pair-Effect party_b pair g paired = ground arith

  start_evaluation-Effect :
      (deadline : Timed String)
      → AllHold (start_guards r)
      → BranchEffect r evaluation_start (start_evaluation r deadline payload)
  unfolding start_guards start_evaluation
  start_evaluation-Effect deadline g = ground arith

  submit_contribution-Effect :
      (p : Party)
      → AllHold (contribution_guards r p)
      → BranchEffect r evaluation_contribution (submit_contribution r p payload)
  unfolding contribution_guards submit_contribution
  submit_contribution-Effect party_a g = ground arith
  submit_contribution-Effect party_b g = ground arith

  acknowledge-Effect :
      (p : Party) (h : Hashing) (m : Message)
      → AllHold (ack_guards h r p m)
      → BranchEffect r opaque_receipt_ack (acknowledge r p payload)
  unfolding ack_guards acknowledge
  acknowledge-Effect party_a h m g = ground arith
  acknowledge-Effect party_b h m g = ground arith

  accept_result-Effect :
      (m : Message)
      → AllHold (result_guards r m)
      → BranchEffect r result_acceptance_notice (accept_result r payload)
  unfolding result_guards accept_result
  accept_result-Effect m g = ground arith

  grant_consent-Effect :
      (p : Party)
      → AllHold (consent_guards r p payload)
      → BranchEffect r consent_grant (grant_consent r p payload)
  unfolding consent_guards grant_consent
  grant_consent-Effect party_a g = ground arith
  grant_consent-Effect party_b g = ground arith

  withdraw-Effect :
      (p : Party)
      → AllHold (withdrawal_guards r p payload)
      → BranchEffect r consent_withdrawal (withdraw r p)
  unfolding withdrawal_guards withdraw
  withdraw-Effect party_a g = ground arith
  withdraw-Effect party_b g = ground arith

  authorize_disclosure-Effect :
      AllHold (disclosure_guards r payload)
      → BranchEffect r disclosure_extension_authorization (authorize_disclosure r)
  unfolding disclosure_guards authorize_disclosure
  authorize_disclosure-Effect g = ground arith

close_session-Effect :
    (r : Runner) → AllHold (close_guards r) → BranchEffect r close_notice (close_session r)
unfolding close_guards close_session
close_session-Effect r g = ground arith

Branches-Effect :
    (h : Hashing) (r : Runner) (m : Message) (s : Option TrustedSubject)
    → Branches h (BranchEffect r) r m s
Branches-Effect h r m s = record {
  proposed = propose-Effect r m.payload;
  session_accepted = λ p. accept_session-Effect r m.payload p s;
  participant_bound = λ p. bind_participant-Effect r m.payload p s;
  policy_accepted = accept_policy-Effect r m.payload;
  budget_reserved = reserve_budget-Effect r m.payload;
  commitment_first = register_commitment-Effect r m.payload;
  commitment_second = λ p pair g full. with_pair-Effect r m.payload p pair g;
  evaluation_started = start_evaluation-Effect r m.payload;
  contributed = submit_contribution-Effect r m.payload;
  acknowledged = λ p. acknowledge-Effect r m.payload p h m;
  result_accepted = accept_result-Effect r m.payload m;
  consent_granted = grant_consent-Effect r m.payload;
  consent_withdrawn = withdraw-Effect r m.payload;
  disclosure_authorized = authorize_disclosure-Effect r m.payload;
  session_closed = close_session-Effect r;
}

-- The next sequences of both Parties: that of the sender of a Party message moves by one.
abbrev pub Sequenced : Option Party → DeliveryClass → Slots ℕ → Slots ℕ → Type 0
Sequenced (some party_a) party_message before after =
    (after.slot_a ≡ before.slot_a + 1) × (after.slot_b ≡ before.slot_b)
Sequenced (some party_b) party_message before after =
    (after.slot_a ≡ before.slot_a) × (after.slot_b ≡ before.slot_b + 1)
Sequenced p d before after = (after.slot_a ≡ before.slot_a) × (after.slot_b ≡ before.slot_b)

abbrev pub Accounted : MessageType → Option Party → DeliveryClass → Runner → Runner → Type 0
Accounted t p d r r' = Effect t r r' × Sequenced p d r.next_sequence r'.next_sequence

advanced-Effect :
    (t : MessageType) (p : Party) (r u : Runner)
    → Effect t r u
    → Effect t r (advance_sequence (some p) party_message u)
advanced-Effect t p r u b = record {
  moved = b.moved;
  acceptances = b.acceptances;
  participants = b.participants;
  policies = b.policies;
  commitments = b.commitments;
  contributions = b.contributions;
  receipts = b.receipts;
  consents = b.consents;
  pair = b.pair;
  attempt = b.attempt;
  clock = b.clock;
  proposals = b.proposals;
}

both_kept :
    (before after : Slots ℕ)
    → after ≡ before
    → (after.slot_a ≡ before.slot_a) × (after.slot_b ≡ before.slot_b)
both_kept before after same =
    (ap (λ (x : Slots ℕ). x.slot_a) same, ap (λ (x : Slots ℕ). x.slot_b) same)

sequence-Effect :
    (t : MessageType) (p : Option Party) (d : DeliveryClass) (r u : Runner)
    → BranchEffect r t u
    → Accounted t p d r (advance_sequence p d u)
sequence-Effect t none d r u b = (b.0, both_kept _ _ b.1)
sequence-Effect t (some party_a) party_message r u b =
    let (a_kept, b_kept) = both_kept _ _ b.1 in
    (advanced-Effect t party_a r u b.0, (ap (λ (n : ℕ). n + 1) a_kept, b_kept))
sequence-Effect t (some party_b) party_message r u b =
    let (a_kept, b_kept) = both_kept _ _ b.1 in
    (advanced-Effect t party_b r u b.0, (a_kept, ap (λ (n : ℕ). n + 1) b_kept))
sequence-Effect t (some party_a) d r u b = (b.0, both_kept _ _ b.1)
sequence-Effect t (some party_b) d r u b = (b.0, both_kept _ _ b.1)

module _ (h : Hashing) (cal : Calendar) (r : Runner) (m : Message) (entries : List Entry)
    (materials : List Material) {r' : Runner}
    (run : apply h cal r m entries materials ≡ ok ([], r')) where
  pub apply-Accounted : Accounted m.message_type (party_of m.sender.actor) m.delivery_class r r'
  apply-Accounted = elim (apply-Concluded h cal r m entries materials run) [
    | inl (u, handled, _, same) ↦
        subst (Accounted m.message_type (party_of m.sender.actor) m.delivery_class r) same (
          sequence-Effect _ _ m.delivery_class r u
            (handle-rule h cal _ r m _ (Branches-Effect h r m _) m.message_type _ u _ handled))
    | inr (found, _) ↦ absurd (found refl)
  ]
