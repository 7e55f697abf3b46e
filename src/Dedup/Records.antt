-- ===== src/Dedup/Records.antt =====
-- The accepted records of `DedupRegistry` in scripts/validate_messages.py, and their equality as
-- Python compares the dicts.
use Prim.Native.Char.{code}
use Prim.Native.String
use private_match_protocol.Prelude.{
  String, Bool, true, false, ◌&&◌, Option, none, some, ◌==◌, str_eq, if◌then◌else◌,
}
use private_match_protocol.Message.{Message, PartyIdentity, OperationIdentity, CallbackIdentity}
use private_match_protocol.Materials.{
  SubjectKind, party_subject, coordinator_subject, profile_subject, TrustedSubject,
}
use private_match_protocol.Digest.Errors.{Outcome, ok, ◌>>=◌}
use private_match_protocol.Digest.{Hashing, wire_message_digest}

-- The members of `_common_record`, and those that the delivery class adds.
pub record Accepted (Scope : Type 0) : Type 0 where
  pub canonical_message_digest : String
  pub canonical_wire_digest : String
  pub verification_material_id : String
  pub original_authenticated_subject : Option TrustedSubject
  pub response_recipient_binding : Option TrustedSubject
  pub normalized_response_ref : String
  pub scope : Scope

pub record PartyScope : Type 0 where
  pub session_id : String
  pub identity : PartyIdentity

abbrev strip : String → String → Option String
strip String.[] s = some s
strip (String.◌∷◌ _ _) String.[] = none
strip (String.◌∷◌ c p) (String.◌∷◌ d s) = if code c == code d then strip p s else none

abbrev without_prefix : Option String → String → String
without_prefix none s = s
without_prefix (some rest) s = rest

-- `_response_ref`
unfoldable pub response_ref : String → String
response_ref digest =
    String.◌++◌ "urn:private-match:normalized-response:"
      (without_prefix (strip "sha256:" digest) digest)

abbrev pub recorded :
    {Scope : Type 0}
    → Scope
    → Message
    → Option TrustedSubject
    → Outcome String
    → Outcome (Accepted Scope)
recorded scope m subject digest = do
  wire ← digest
  ok (record {
    canonical_message_digest = m.message_digest;
    canonical_wire_digest = wire;
    verification_material_id = m.authentication.verification_material_id;
    original_authenticated_subject = subject;
    response_recipient_binding = subject;
    normalized_response_ref = response_ref m.message_digest;
    scope = scope;
  })

-- `_common_record`, with the scope that `_party_record`, `_operation_record` or `_callback_record`
-- adds.
unfoldable pub accepted_record :
    Hashing → {Scope : Type 0} → Scope → Message → Option TrustedSubject → Outcome (Accepted Scope)
unfolding response_ref
accepted_record h scope m subject = recorded scope m subject (wire_message_digest h m)

unfoldable pub kind_eq : SubjectKind → SubjectKind → Bool
kind_eq (party_subject p) (party_subject q) = str_eq p q
kind_eq coordinator_subject coordinator_subject = true
kind_eq (profile_subject p v i) (profile_subject q w j) = str_eq p q && (str_eq v w && str_eq i j)
kind_eq _ _ = false

unfoldable pub subject_eq : TrustedSubject → TrustedSubject → Bool
subject_eq s t =
    str_eq s.actor t.actor
    && (str_eq s.key_id t.key_id
        && (str_eq s.subject_binding_id t.subject_binding_id
            && (str_eq s.verification_material_id t.verification_material_id
                && kind_eq s.kind t.kind)))

unfoldable pub option_eq : Option TrustedSubject → Option TrustedSubject → Bool
option_eq none none = true
option_eq (some s) (some t) = subject_eq s t
option_eq _ _ = false

unfoldable pub party_scope_eq : PartyScope → PartyScope → Bool
party_scope_eq r s =
    str_eq r.session_id s.session_id
    && (str_eq i.sender_participant_id j.sender_participant_id
        && (str_eq i.message_id j.message_id
            && (str_eq i.nonce j.nonce
                && (i.sequence == j.sequence && str_eq i.issued_at j.issued_at))))
  where
    i : PartyIdentity
    i = r.identity

    j : PartyIdentity
    j = s.identity

unfoldable pub operation_eq : OperationIdentity → OperationIdentity → Bool
operation_eq i j =
    str_eq i.actor_id j.actor_id
    && (str_eq i.operation_id j.operation_id && str_eq i.idempotency_key j.idempotency_key)

unfoldable pub callback_eq : CallbackIdentity → CallbackIdentity → Bool
callback_eq i j =
    str_eq i.profile_id j.profile_id
    && (str_eq i.profile_version j.profile_version
        && (str_eq i.profile_instance_id j.profile_instance_id
            && (str_eq i.session_id j.session_id
                && (str_eq i.evaluation_attempt_id j.evaluation_attempt_id
                    && (str_eq i.callback_id j.callback_id
                        && str_eq i.idempotency_key j.idempotency_key)))))

unfoldable pub accepted_eq :
    {Scope : Type 0} → (Scope → Scope → Bool) → Accepted Scope → Accepted Scope → Bool
accepted_eq scope_eq r s =
    str_eq r.canonical_message_digest s.canonical_message_digest
    && (str_eq r.canonical_wire_digest s.canonical_wire_digest
        && (str_eq r.verification_material_id s.verification_material_id
            && (option_eq r.original_authenticated_subject s.original_authenticated_subject
                && (option_eq r.response_recipient_binding s.response_recipient_binding
                    && (str_eq r.normalized_response_ref s.normalized_response_ref
                        && scope_eq r.scope s.scope)))))
