-- ===== src/Runner/Preserved.antt =====
-- `AbstractStateRunner.apply` of scripts/validate_messages.py, and the invariant of the runner.
use private_match_protocol.Prelude.{String, ◌≡◌, ◌≢◌, true, inl, inr, Option, some, List, [], arith}
use mathlib.Core.Path.{subst, sym}
use private_match_protocol.Json.{Fields, truthy}
use private_match_protocol.Findings.{Finding}
use private_match_protocol.Phases.{Party, party_a, party_b, both}
use private_match_protocol.Digest.Errors.{ok}
use private_match_protocol.Digest.{Hashing}
use private_match_protocol.Message.{Message}
use private_match_protocol.Message.Kinds.{DeliveryClass, party_message}
use private_match_protocol.Times.{Calendar}
use private_match_protocol.Materials.{Material, TrustedSubject}
use private_match_protocol.Registry.{Entry}
use private_match_protocol.Runner.{Runner, party_of}
use private_match_protocol.Runner.Guards.{AllHold}
use private_match_protocol.Runner.Setup.{register_commitment, commitment_guards}
use private_match_protocol.Runner.Apply.{apply, advance_sequence}
use private_match_protocol.Runner.Branches.{Branches, with_pair, handle-rule}
use private_match_protocol.Runner.Atomic.{apply-Concluded}
use private_match_protocol.Runner.Invariant.{
  Inv, propose-Inv, accept_session-Inv, bind_participant-Inv, accept_policy-Inv, reserve_budget-Inv,
  register_commitment-Inv, start_evaluation-Inv, submit_contribution-Inv, acknowledge-Inv,
  accept_result-Inv, grant_consent-Inv, withdraw-Inv, authorize_disclosure-Inv, close_session-Inv,
}

with_pair-Inv :
    (r : Runner) (payload : Fields) (p : Party) (pair : String)
    → AllHold (commitment_guards r p)
    → both truthy (register_commitment r p payload).commitments ≡ true
    → Inv r
    → Inv (with_pair (register_commitment r p payload) pair)
unfolding register_commitment commitment_guards
with_pair-Inv r payload party_a pair g full v = ground arith
with_pair-Inv r payload party_b pair g full v = ground arith

module _ (h : Hashing) (r : Runner) (m : Message) (s : Option TrustedSubject) where
  Branches-Inv : Inv r → Branches h (λ t. Inv) r m s
  Branches-Inv v = record {
    proposed = λ g. propose-Inv r m.payload g v;
    session_accepted = λ p g. accept_session-Inv r m.payload p s v;
    participant_bound = λ p g. bind_participant-Inv r m.payload p s g v;
    policy_accepted = λ p g. accept_policy-Inv r m.payload p g v;
    budget_reserved = λ g. reserve_budget-Inv r m.payload g v;
    commitment_first = λ p g. register_commitment-Inv r m.payload p g v;
    commitment_second = λ p pair g full paired. with_pair-Inv r m.payload p pair g full v;
    evaluation_started = λ deadline g. start_evaluation-Inv r m.payload deadline g v;
    contributed = λ p g. submit_contribution-Inv r m.payload p v;
    acknowledged = λ p g. acknowledge-Inv r m.payload h p m g v;
    result_accepted = λ g. accept_result-Inv r m.payload m g v;
    consent_granted = λ p g. grant_consent-Inv r m.payload p g v;
    consent_withdrawn = λ p g. withdraw-Inv r m.payload p g v;
    disclosure_authorized = λ g. authorize_disclosure-Inv r m.payload g v;
    session_closed = λ g. close_session-Inv r g v;
  }

sequence-Inv :
    (p : Option Party) (d : DeliveryClass) (r : Runner) → Inv r → Inv (advance_sequence p d r)
sequence-Inv (some p) party_message r v = ground arith
sequence-Inv p d r v = v

module _ (h : Hashing) (cal : Calendar) (r : Runner) (m : Message) (entries : List Entry)
    (materials : List Material) {found : List Finding} {r' : Runner}
    (run : apply h cal r m entries materials ≡ ok (found, r')) where
  -- Whatever `apply` returns, with findings or without, keeps the invariant.
  pub apply-Inv : Inv r → Inv r'
  apply-Inv v = elim (apply-Concluded h cal r m entries materials run) [
    | inl (u, handled, _, same) ↦ subst Inv same (
        sequence-Inv (party_of m.sender.actor) m.delivery_class u
          (handle-rule h cal _ r m _ (Branches-Inv h r m _ v) m.message_type _ u _ handled))
    | inr (_, same) ↦ subst Inv same v
  ]

  -- With a finding, the state is the one before the call, also where a branch had changed it already.
  pub apply_found : found ≢ [] → r' ≡ r
  apply_found some_found = elim (apply-Concluded h cal r m entries materials run) [
    | inl (u, _, none_found, _) ↦ absurd (some_found none_found)
    | inr (_, same) ↦ sym same
  ]
