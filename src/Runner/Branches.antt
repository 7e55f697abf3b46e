-- ===== src/Runner/Branches.antt =====
-- The branches of `AbstractStateRunner.apply` as one rule: what each effect gives under its guards
-- holds of the state after a branch that finds nothing.
use private_match_protocol.Prelude.{
  ◌≡◌, refl, true, Option, some, List, [], ◌∷◌, ◌++◌, arith, String, inl, inr, Bool-cases,
}
use mathlib.Core.Path.{subst}
use private_match_protocol.Json.{Fields, truthy}
use private_match_protocol.Findings.{Finding}
use private_match_protocol.Phases.{Party, both, committed}
use private_match_protocol.Digest.Errors.{Outcome, ok, refused, crashed, ◌>>=◌}
use private_match_protocol.Digest.{Hashing}
use private_match_protocol.Message.{Message}
use private_match_protocol.Message.Kinds.{
  MessageType, session_proposal, session_acceptance, participant_binding, policy_acceptance,
  commitment_registration, query_budget_reservation, evaluation_start, evaluation_contribution,
  opaque_receipt_ack, result_acceptance_notice, consent_grant, consent_withdrawal,
  disclosure_extension_authorization, close_notice,
}
use private_match_protocol.Times.{Calendar, Timed}
use private_match_protocol.Times.Laws.{parse_time-eq-nil}
use private_match_protocol.Materials.{TrustedSubject}
use private_match_protocol.Runner.{Runner}
use private_match_protocol.Runner.Guards.{Guards, AllHold, unmet, unmet-eq-nil, append-eq-nil}
use private_match_protocol.Runner.Setup.{
  proposal_guards, propose, session_acceptance_guards, accept_session, participant_binding_guards,
  bind_participant, policy_acceptance_guards, accept_policy, reservation_guards, reserve_budget,
  commitment_guards, pair_guards, register_commitment, pair_of, complete_pair,
}
use private_match_protocol.Runner.Evaluation.{
  start_guards, start_evaluation, contribution_guards, submit_contribution, ack_guards, acknowledge,
  result_guards, accept_result,
}
use private_match_protocol.Runner.Consent.{
  consent_findings, consent_guards, grant_consent, withdrawal_guards, withdraw, disclosure_guards,
  authorize_disclosure, close_guards, close_session,
}
use private_match_protocol.Runner.Apply.{settle, pair_step, commit_step, handle}

settle-eq-ok :
    (fs : List Finding) (updated r r' : Runner)
    → settle fs updated r ≡ ok ([], r')
    → (fs ≡ []) × (updated ≡ r')
settle-eq-ok [] updated r r' h = ground arith
settle-eq-ok (f ∷ fs) updated r r' h = absurd (ground arith)

consent_guards-hold :
    (cal : Calendar) (r : Runner) (p : Party) (payload : Fields) (fs : List Finding)
    → consent_findings cal r p payload fs ≡ []
    → AllHold (consent_guards r p payload)
unfolding consent_findings
consent_guards-hold cal r p payload fs e =
    let f4 = (append-eq-nil _ _ e).0 in
    let f3 = parse_time-eq-nil cal _ _ _ f4 in
    let f2 = parse_time-eq-nil cal _ _ _ f3 in
    let f1 = parse_time-eq-nil cal _ _ _ f2 in
    unmet-eq-nil consent_grant (consent_guards r p payload) (append-eq-nil fs _ f1).1

plain_outcome :
    (o : Outcome Runner) (r' : Runner)
    → (do paired ← o; ok ([], paired))
      ≡ (let out : Outcome (List Finding × Runner) = ok ([], r') in out)
    → o ≡ ok r'
plain_outcome (ok r) r' e = ground arith
plain_outcome (refused s) r' e = absurd (ground arith)
plain_outcome crashed r' e = absurd (ground arith)

stopped :
    (fs : List Finding) (f : Finding) (r r' : Runner)
    → (let out : Outcome (List Finding × Runner) = ok (fs ++ f ∷ [], r) in out) ≡ ok ([], r')
    → ⊥
stopped [] f r r' e = ground arith
stopped (g ∷ fs) f r r' e = ground arith

-- The state after the second commitment, with a pair identifier.
abbrev pub with_pair : Runner → String → Runner
with_pair r pair = record r { commitment_pair_id = some pair; phase = committed }

pair_outcome :
    (P : Runner → Type 0) (r r' : Runner) (o : Outcome String)
    → ((pair : String) → P (with_pair r pair))
    → (do pair ← o; ok (with_pair r pair)) ≡ ok r'
    → P r'
pair_outcome P r r' (ok pair) keep e = subst P (ground arith) (keep pair)
pair_outcome P r r' (refused s) keep e = absurd (ground arith)
pair_outcome P r r' crashed keep e = absurd (ground arith)

-- What is to be shown of each effect.
pub record Branches (h : Hashing) (P : MessageType → Runner → Type 0) (r : Runner) (m : Message)
    (subject : Option TrustedSubject) : Type 0 where
  pub proposed : AllHold (proposal_guards r) → P session_proposal (propose r m.payload)
  pub session_accepted :
      (p : Party)
      → AllHold (session_acceptance_guards r p m.payload subject)
      → P session_acceptance (accept_session r p m.payload subject)
  pub participant_bound :
      (p : Party)
      → AllHold (participant_binding_guards r p m.payload subject)
      → P participant_binding (bind_participant r p m.payload)
  pub policy_accepted :
      (p : Party)
      → AllHold (policy_acceptance_guards r p m.payload)
      → P policy_acceptance (accept_policy r p m.payload)
  pub budget_reserved :
      AllHold (reservation_guards r) → P query_budget_reservation (reserve_budget r)
  pub commitment_first :
      (p : Party)
      → AllHold (commitment_guards r p)
      → P commitment_registration (register_commitment r p m.payload)
  pub commitment_second :
      (p : Party) (pair : String)
      → AllHold (commitment_guards r p)
      → both truthy (register_commitment r p m.payload).commitments ≡ true
      → AllHold (pair_guards (register_commitment r p m.payload))
      → P commitment_registration (with_pair (register_commitment r p m.payload) pair)
  pub evaluation_started :
      (deadline : Timed String)
      → AllHold (start_guards r)
      → P evaluation_start (start_evaluation r deadline m.payload)
  pub contributed :
      (p : Party)
      → AllHold (contribution_guards r p)
      → P evaluation_contribution (submit_contribution r p m.payload)
  pub acknowledged :
      (p : Party) → AllHold (ack_guards h r p m) → P opaque_receipt_ack (acknowledge r p m.payload)
  pub result_accepted :
      AllHold (result_guards r m) → P result_acceptance_notice (accept_result r m.payload)
  pub consent_granted :
      (p : Party)
      → AllHold (consent_guards r p m.payload)
      → P consent_grant (grant_consent r p m.payload)
  pub consent_withdrawn :
      (p : Party) → AllHold (withdrawal_guards r p m.payload) → P consent_withdrawal (withdraw r p)
  pub disclosure_authorized :
      AllHold (disclosure_guards r m.payload)
      → P disclosure_extension_authorization (authorize_disclosure r)
  pub session_closed : AllHold (close_guards r) → P close_notice (close_session r)

module _ (h : Hashing) (cal : Calendar) (P : MessageType → Runner → Type 0) (r : Runner)
    (m : Message) (s : Option TrustedSubject) (b : Branches h P r m s) where
  branch :
      (t : MessageType) (gs : Guards) (fs : List Finding) (updated r' : Runner)
      → (AllHold gs → P t updated)
      → settle (fs ++ unmet t gs) updated r ≡ ok ([], r')
      → P t r'
  branch t gs fs updated r' keep e =
      let (clear, same) = settle-eq-ok (fs ++ unmet t gs) updated r r' e in
      subst (P t) same (keep (unmet-eq-nil t gs (append-eq-nil fs (unmet t gs) clear).1))

  pair_branch :
      (p : Party) (fs : List Finding) (r' : Runner)
      → AllHold (commitment_guards r p)
      → both truthy (register_commitment r p m.payload).commitments ≡ true
      → (fs ≡ [] → AllHold (pair_guards (register_commitment r p m.payload)))
      → pair_step h fs (register_commitment r p m.payload) m ≡ ok ([], r')
      → P commitment_registration r'
  unfolding complete_pair
  pair_branch p (f ∷ fs) r' g full paired e = absurd (ground arith)
  pair_branch p [] r' g full paired e =
      let updated = register_commitment r p m.payload in
      pair_outcome (P commitment_registration) updated r' (pair_of h updated m)
        (λ pair. b.commitment_second p pair g full (paired refl))
        (plain_outcome (complete_pair h updated m) r' e)

  commit_branch :
      (p : Party) (fs : List Finding) (r' : Runner)
      → (fs ≡ [] → AllHold (commitment_guards r p))
      → commit_step h fs (register_commitment r p m.payload) r m ≡ ok ([], r')
      → P commitment_registration r'
  commit_branch p (f ∷ fs) r' g e = absurd (ground arith)
  commit_branch p [] r' g e =
      let updated = register_commitment r p m.payload in
      elim (Bool-cases (both truthy updated.commitments)) [
        | inl full ↦
            pair_branch p (unmet commitment_registration (pair_guards updated)) r' (g refl) full
              (unmet-eq-nil commitment_registration (pair_guards updated)) (rw full at e)
        | inr part ↦
            subst (P commitment_registration) (ground arith) (b.commitment_first p (g refl))
      ]

  -- The rule.
  pub handle-rule :
      (t : MessageType) (p : Option Party) (r' : Runner) (fs : List Finding)
      → handle h cal t p r m s fs ≡ ok ([], r')
      → P t r'
  unfolding handle
  handle-rule session_proposal p r' fs e = branch _ _ fs _ r' b.proposed e
  handle-rule session_acceptance (some p) r' fs e = branch _ _ fs _ r' (b.session_accepted p) e
  handle-rule participant_binding (some p) r' fs e = branch _ _ fs _ r' (b.participant_bound p) e
  handle-rule policy_acceptance (some p) r' fs e = branch _ _ fs _ r' (b.policy_accepted p) e
  handle-rule query_budget_reservation p r' fs e = branch _ _ fs _ r' b.budget_reserved e
  handle-rule commitment_registration (some p) r' fs e =
      commit_branch p _ r' (λ clear. unmet-eq-nil _ _ (append-eq-nil fs _ clear).1) e
  handle-rule evaluation_start p r' fs e =
      let (clear, same) = settle-eq-ok _ _ r r' e in
      let guards = (append-eq-nil fs _ (append-eq-nil _ _ clear).0).1 in
      subst (P evaluation_start) same
        (b.evaluation_started _ (unmet-eq-nil evaluation_start (start_guards r) guards))
  handle-rule evaluation_contribution (some p) r' fs e = branch _ _ fs _ r' (b.contributed p) e
  handle-rule opaque_receipt_ack (some p) r' fs e = branch _ _ fs _ r' (b.acknowledged p) e
  handle-rule result_acceptance_notice p r' fs e = branch _ _ fs _ r' b.result_accepted e
  handle-rule consent_grant (some p) r' fs e =
      let (clear, same) = settle-eq-ok _ _ r r' e in
      subst (P consent_grant) same
        (b.consent_granted p (consent_guards-hold cal r p m.payload fs clear))
  handle-rule consent_withdrawal (some p) r' fs e = branch _ _ fs _ r' (b.consent_withdrawn p) e
  handle-rule disclosure_extension_authorization p r' fs e =
      branch _ _ fs _ r' b.disclosure_authorized e
  handle-rule close_notice p r' fs e = branch _ _ fs _ r' b.session_closed e
  handle-rule t p r' fs e = absurd (stopped fs _ r r' e)
