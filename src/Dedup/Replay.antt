-- ===== src/Dedup/Replay.antt =====
-- What `DedupRegistry.classify` of scripts/validate_messages.py promises of a message that comes again.
use private_match_protocol.Prelude.{
  String, ◌≡◌, refl, inl, inr, Bool-cases, Bool, true, false, ◌&&◌, Option, none, some, arith,
  eq_refl,
}
use mathlib.Core.Path.{subst}
use private_match_protocol.Keyed.{Key, find, store}
use private_match_protocol.Keyed.Laws.{key_eq_refl}
use private_match_protocol.Message.{
  Message, Identity, of_party, of_operation, of_callback, OperationIdentity, CallbackIdentity,
}
use private_match_protocol.Message.Kinds.{
  DeliveryClass, party_message, coordinator_command, profile_callback,
}
use private_match_protocol.Materials.{
  SubjectKind, party_subject, coordinator_subject, profile_subject, TrustedSubject,
}
use private_match_protocol.Digest.Errors.{Outcome, ok, refused, crashed}
use private_match_protocol.Digest.{Hashing, wire_message_digest}
use private_match_protocol.Dedup.Records.{
  Accepted, PartyScope, accepted_record, kind_eq, subject_eq, option_eq, accepted_eq, recorded,
  party_scope_eq, operation_eq, callback_eq,
}
use private_match_protocol.Dedup.{
  commit_with, with_party, with_operation, with_callback, party_id_key, party_nonce_key,
  operation_id_key, operation_idem_key, callback_id_key, callback_idem_key, Index, DedupRegistry,
  Classification, new_event, exact_duplicate, judge, compared, classify_as, classify, matches,
}

kind_eq_refl : (k : SubjectKind) → kind_eq k k ≡ true
unfolding kind_eq
kind_eq_refl (party_subject p) = eq_refl p
kind_eq_refl coordinator_subject = refl
kind_eq_refl (profile_subject p v i) = simp eq_refl

subject_eq_refl : (s : TrustedSubject) → subject_eq s s ≡ true
unfolding subject_eq
subject_eq_refl s = simp (eq_refl, kind_eq_refl)

pub option_eq_refl : (s : Option TrustedSubject) → option_eq s s ≡ true
unfolding option_eq
option_eq_refl none = refl
option_eq_refl (some s) = subject_eq_refl s

pub party_scope_eq_refl : (s : PartyScope) → party_scope_eq s s ≡ true
unfolding party_scope_eq
party_scope_eq_refl s = simp eq_refl (ground arith)

pub operation_eq_refl : (i : OperationIdentity) → operation_eq i i ≡ true
unfolding operation_eq
operation_eq_refl i = simp eq_refl

pub callback_eq_refl : (i : CallbackIdentity) → callback_eq i i ≡ true
unfolding callback_eq
callback_eq_refl i = simp eq_refl

module _ {Scope : Type 0} (eq : Scope → Scope → Bool) (eq-refl : (x : Scope) → eq x x ≡ true) where
  accepted_eq_refl : (r : Accepted Scope) → accepted_eq eq r r ≡ true
  unfolding accepted_eq
  accepted_eq_refl r = simp (eq_refl, option_eq_refl, eq-refl)

  compared_old :
      (old : Accepted Scope) (second : Option (Accepted Scope)) (reg reg' : DedupRegistry)
      (made : Outcome (Accepted Scope))
      → compared eq old second reg made ≡ ok (new_event, reg')
      → ⊥
  compared_old old second reg reg' (ok candidate) e =
      elim (Bool-cases (accepted_eq eq old candidate && matches eq second candidate)) [
        | inl same ↦ (let e' = rw same at e in ground arith)
        | inr other ↦ (let e' = rw other at e in ground arith)
      ]
  compared_old old second reg reg' (refused s) e = ground arith
  compared_old old second reg reg' crashed e = ground arith

  -- Only a message that neither index holds is new.
  pub judge_new :
      (first second : Option (Accepted Scope))
      (build : Option TrustedSubject → Outcome (Accepted Scope))
      (fresh : Outcome (Classification × DedupRegistry)) (reg reg' : DedupRegistry)
      → judge eq first second build fresh reg ≡ ok (new_event, reg')
      → (first ≡ none) × (second ≡ none) × (fresh ≡ ok (new_event, reg'))
  unfolding judge
  judge_new none none build fresh reg reg' e = (refl, refl, e)
  judge_new none (some old) build fresh reg reg' e = absurd (ground arith)
  judge_new (some old) second build fresh reg reg' e =
      absurd (compared_old old second reg reg' (build old.original_authenticated_subject) e)

  -- The record that a message left is the one that the same message makes again.
  judge_again :
      (r : Accepted Scope) (build : Option TrustedSubject → Outcome (Accepted Scope))
      (fresh : Outcome (Classification × DedupRegistry)) (reg : DedupRegistry)
      → build r.original_authenticated_subject ≡ ok r
      → judge eq (some r) (some r) build fresh reg ≡ ok (exact_duplicate, reg)
  unfolding judge
  judge_again r build fresh reg made = rw (made, accepted_eq_refl r)

pub commit_cases :
    {Scope : Type 0} (stored : Accepted Scope → DedupRegistry) (made : Outcome (Accepted Scope))
    {reg' : DedupRegistry}
    → commit_with stored made ≡ ok (new_event, reg')
    → (r : Accepted Scope) × (made ≡ ok r) × (stored r ≡ reg')
commit_cases stored (ok r) e = (r, refl, ground arith)
commit_cases stored (refused s) e = absurd (ground arith)
commit_cases stored crashed e = absurd (ground arith)

recorded_again :
    {Scope : Type 0} (scope : Scope) (m : Message) (subject : Option TrustedSubject)
    (digest : Outcome String) {r : Accepted Scope}
    → recorded scope m subject digest ≡ ok r
    → recorded scope m r.original_authenticated_subject digest ≡ ok r
recorded_again scope m subject (ok wire) e = ground arith
recorded_again scope m subject (refused s) e = absurd (ground arith)
recorded_again scope m subject crashed e = absurd (ground arith)

pub found_self :
    {Scope : Type 0} (k : Key) (r : Accepted Scope) (d : Index Scope)
    → find k (store k r d) ≡ some r
unfolding find store
found_self k r d = rw (key_eq_refl k)

module _ (h : Hashing) (m : Message) (reg reg' : DedupRegistry)
    (subject : Option TrustedSubject) where
  replay_as :
      (d : DeliveryClass) (i : Identity)
      → classify_as h d i reg m true subject ≡ ok (new_event, reg')
      → classify_as h d i reg' m false none ≡ ok (exact_duplicate, reg')
  unfolding accepted_record
  replay_as party_message (of_party i) e =
      let session_id = m.session_context.session_id in
      let fresh = (judge_new party_scope_eq party_scope_eq_refl _ _ _ _ reg reg' e).2 in
      let (r, made, same) = commit_cases (with_party reg session_id i) _ fresh in
      subst (λ g. classify_as h party_message (of_party i) g m false none ≡ ok (exact_duplicate, g))
        same
        (rw
          (
            found_self (party_id_key session_id i) r reg.party_by_id,
            found_self (party_nonce_key session_id i) r reg.party_by_nonce,
          )
          (judge_again party_scope_eq party_scope_eq_refl r _ _ _
            (recorded_again _ m subject (wire_message_digest h m) made)))
  replay_as coordinator_command (of_operation i) e =
      let fresh = (judge_new operation_eq operation_eq_refl _ _ _ _ reg reg' e).2 in
      let (r, made, same) = commit_cases (with_operation reg i) _ fresh in
      subst
        (λ g.
          classify_as h coordinator_command (of_operation i) g m false none
          ≡ ok (exact_duplicate, g))
        same
        (rw
          (
            found_self (operation_id_key i) r reg.operation_by_id,
            found_self (operation_idem_key i) r reg.operation_by_key,
          )
          (judge_again operation_eq operation_eq_refl r _ _ _
            (recorded_again _ m subject (wire_message_digest h m) made)))
  replay_as profile_callback (of_callback i) e =
      let fresh = (judge_new callback_eq callback_eq_refl _ _ _ _ reg reg' e).2 in
      let (r, made, same) = commit_cases (with_callback reg i) _ fresh in
      subst
        (λ g.
          classify_as h profile_callback (of_callback i) g m false none ≡ ok (exact_duplicate, g))
        same
        (rw
          (
            found_self (callback_id_key i) r reg.callback_by_id,
            found_self (callback_idem_key i) r reg.callback_by_key,
          )
          (judge_again callback_eq callback_eq_refl r _ _ _
            (recorded_again _ m subject (wire_message_digest h m) made)))
  replay_as _ _ e = absurd (ground arith)

  -- A message that was committed as new is an exact duplicate when it comes again.
  pub replay :
      classify h reg m true subject ≡ ok (new_event, reg')
      → classify h reg' m false none ≡ ok (exact_duplicate, reg')
  unfolding classify
  replay e = replay_as m.delivery_class m.identity e
