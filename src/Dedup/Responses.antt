-- ===== src/Dedup/Responses.antt =====
-- The stored response of `DedupRegistry.cached_response` in scripts/validate_messages.py.
use private_match_protocol.Prelude.{
  String, ◌≡◌, ap, ◌∙◌, true, Option, none, some, arith, if◌then◌else◌,
}
use mathlib.Core.Path.{subst}
use private_match_protocol.Message.{Message, Identity, of_party, of_operation, of_callback}
use private_match_protocol.Message.Kinds.{
  DeliveryClass, party_message, coordinator_command, profile_callback,
}
use private_match_protocol.Materials.{TrustedSubject}
use private_match_protocol.Digest.Errors.{Outcome, ok, refused, crashed, ◌>>=◌}
use private_match_protocol.Digest.{Hashing, wire_message_digest}
use private_match_protocol.Dedup.{
  DedupRegistry, new_event, classify, classify_as, cached_response, stored_response, response_if,
  authorize, with_party, with_operation, with_callback, party_id_key, operation_id_key,
  callback_id_key,
}
use private_match_protocol.Dedup.Records.{
  Accepted, recorded, accepted_record, option_eq, response_ref, party_scope_eq, operation_eq,
  callback_eq,
}
use private_match_protocol.Dedup.Replay.{
  judge_new, commit_cases, found_self, party_scope_eq_refl, operation_eq_refl, callback_eq_refl,
  replay,
}

-- The response for a requester, where the message was accepted from `subject`.
abbrev pub answer : Option TrustedSubject → TrustedSubject → Message → Option String
answer subject requester m =
    if option_eq (some requester) subject then some (response_ref m.message_digest) else none

recorded_answer :
    (h : Hashing) {Scope : Type 0} (scope : Scope) (m : Message) (subject : Option TrustedSubject)
    (requester : TrustedSubject) (digest : Outcome String) {r : Accepted Scope}
    → recorded scope m subject digest ≡ ok r
    → authorize h (some r) (some requester) ≡ answer subject requester m
recorded_answer h scope m subject requester (ok wire) e = ground arith
recorded_answer h scope m subject requester (refused s) e = absurd (ground arith)
recorded_answer h scope m subject requester crashed e = absurd (ground arith)

module _ (h : Hashing) (m : Message) (reg reg' : DedupRegistry) (subject : Option TrustedSubject)
    (requester : TrustedSubject) where
  stored_as :
      (d : DeliveryClass) (i : Identity)
      → classify_as h d i reg m true subject ≡ ok (new_event, reg')
      → stored_response h d i reg' m (some requester) ≡ answer subject requester m
  unfolding accepted_record
  stored_as party_message (of_party i) e =
      let session_id = m.session_context.session_id in
      let fresh = (judge_new party_scope_eq party_scope_eq_refl _ _ _ _ reg reg' e).2 in
      let (r, made, same) = commit_cases (with_party reg session_id i) _ fresh in
      subst
        (λ g.
          stored_response h party_message (of_party i) g m (some requester)
          ≡ answer subject requester m)
        same
        (ap (λ found. authorize h found (some requester))
            (found_self (party_id_key session_id i) r reg.party_by_id)
          ∙ recorded_answer h _ m subject requester (wire_message_digest h m) made)
  stored_as coordinator_command (of_operation i) e =
      let fresh = (judge_new operation_eq operation_eq_refl _ _ _ _ reg reg' e).2 in
      let (r, made, same) = commit_cases (with_operation reg i) _ fresh in
      subst
        (λ g.
          stored_response h coordinator_command (of_operation i) g m (some requester)
          ≡ answer subject requester m)
        same
        (ap (λ found. authorize h found (some requester))
            (found_self (operation_id_key i) r reg.operation_by_id)
          ∙ recorded_answer h _ m subject requester (wire_message_digest h m) made)
  stored_as profile_callback (of_callback i) e =
      let fresh = (judge_new callback_eq callback_eq_refl _ _ _ _ reg reg' e).2 in
      let (r, made, same) = commit_cases (with_callback reg i) _ fresh in
      subst
        (λ g.
          stored_response h profile_callback (of_callback i) g m (some requester)
          ≡ answer subject requester m)
        same
        (ap (λ found. authorize h found (some requester))
            (found_self (callback_id_key i) r reg.callback_by_id)
          ∙ recorded_answer h _ m subject requester (wire_message_digest h m) made)
  stored_as _ _ e = absurd (ground arith)

  -- After a message was committed as new for a trusted subject, or for none, a requester gets the
  -- stored response of the same message if it is that very subject, and nothing otherwise.
  pub cached_response_after :
      classify h reg m true subject ≡ ok (new_event, reg')
      → cached_response h reg' m (some requester) ≡ ok (answer subject requester m)
  unfolding classify cached_response
  cached_response_after e =
      ap (λ c. do classified ← c; ok (response_if h classified m (some requester)))
        (replay h m reg reg' subject e)
      ∙ ap ok (stored_as m.delivery_class m.identity e)
