-- ===== src/Dedup.antt =====
-- `DedupRegistry` of scripts/validate_messages.py: the accepted records under their two identities,
-- for each delivery class.
pub mod Records
pub mod Replay
pub mod Responses
use private_match_protocol.Prelude.{
  String, Bool, true, false, ◌&&◌, Option, none, some, List, [], ◌∷◌, if◌then◌else◌,
}
use private_match_protocol.Keyed.{Key, find, store}
use private_match_protocol.Message.{
  Message, Identity, of_party, of_operation, of_callback, PartyIdentity, OperationIdentity,
  CallbackIdentity,
}
use private_match_protocol.Message.Kinds.{
  DeliveryClass, party_message, coordinator_command, profile_callback, derived_transition,
}
use private_match_protocol.Materials.{TrustedSubject}
use private_match_protocol.Digest.Errors.{Outcome, ok, crashed, ◌>>=◌}
use private_match_protocol.Digest.{Hashing}
use Records.{
  Accepted, PartyScope, accepted_record, option_eq, accepted_eq, party_scope_eq, operation_eq,
  callback_eq,
}

abbrev pub Index : Type 0 → Type 0
Index Scope = List (Key × Accepted Scope)

pub record DedupRegistry : Type 0 where
  pub party_by_id : Index PartyScope
  pub party_by_nonce : Index PartyScope
  pub operation_by_id : Index OperationIdentity
  pub operation_by_key : Index OperationIdentity
  pub callback_by_id : Index CallbackIdentity
  pub callback_by_key : Index CallbackIdentity

unfoldable pub empty_registry : DedupRegistry
empty_registry = record {
  party_by_id = [];
  party_by_nonce = [];
  operation_by_id = [];
  operation_by_key = [];
  callback_by_id = [];
  callback_by_key = [];
}

pub data Classification : Type 0 where
  new_event exact_duplicate replay_conflict excluded : Classification

-- The two keys of a message in its class.
abbrev pub party_id_key : String → PartyIdentity → Key
party_id_key session_id i = session_id ∷ i.sender_participant_id ∷ i.message_id ∷ []

abbrev pub party_nonce_key : String → PartyIdentity → Key
party_nonce_key session_id i = session_id ∷ i.sender_participant_id ∷ i.nonce ∷ []

abbrev pub operation_id_key : OperationIdentity → Key
operation_id_key i = i.actor_id ∷ i.operation_id ∷ []

abbrev pub operation_idem_key : OperationIdentity → Key
operation_idem_key i = i.actor_id ∷ i.idempotency_key ∷ []

abbrev callback_key : CallbackIdentity → String → Key
callback_key i last =
    i.profile_id ∷ i.profile_version ∷ i.profile_instance_id ∷ i.session_id
    ∷ i.evaluation_attempt_id ∷ last ∷ []

abbrev pub callback_id_key : CallbackIdentity → Key
callback_id_key i = callback_key i i.callback_id

abbrev pub callback_idem_key : CallbackIdentity → Key
callback_idem_key i = callback_key i i.idempotency_key

abbrev matches :
    {Scope : Type 0} → (Scope → Scope → Bool) → Option (Accepted Scope) → Accepted Scope → Bool
matches eq none candidate = false
matches eq (some r) candidate = accepted_eq eq r candidate

-- The candidate, made with the subject of the old record, against the old records.
abbrev compared :
    {Scope : Type 0}
    → (Scope → Scope → Bool)
    → Accepted Scope
    → Option (Accepted Scope)
    → DedupRegistry
    → Outcome (Accepted Scope)
    → Outcome (Classification × DedupRegistry)
compared eq old second reg made = do
  candidate ← made
  ok (
    if accepted_eq eq old candidate && matches eq second candidate
        then exact_duplicate
        else replay_conflict,
    reg,
  )

-- The records under the two keys of a message. `build` makes the record of the message with a
-- subject; `fresh` is the branch of a message that neither index holds.
unfoldable pub judge :
    {Scope : Type 0}
    → (Scope → Scope → Bool)
    → Option (Accepted Scope)
    → Option (Accepted Scope)
    → (Option TrustedSubject → Outcome (Accepted Scope))
    → Outcome (Classification × DedupRegistry)
    → DedupRegistry
    → Outcome (Classification × DedupRegistry)
unfolding accepted_eq
judge eq none none build fresh reg = fresh
judge eq none (some old) build fresh reg = ok (replay_conflict, reg)
judge eq (some old) second build fresh reg =
    compared eq old second reg (build old.original_authenticated_subject)

-- The record stored under both keys.
abbrev commit_with :
    {Scope : Type 0}
    → (Accepted Scope → DedupRegistry)
    → Outcome (Accepted Scope)
    → Outcome (Classification × DedupRegistry)
commit_with stored made = do r ← made; ok (new_event, stored r)

abbrev with_party : DedupRegistry → String → PartyIdentity → Accepted PartyScope → DedupRegistry
with_party reg session_id i r = record reg {
  party_by_id = store (party_id_key session_id i) r reg.party_by_id;
  party_by_nonce = store (party_nonce_key session_id i) r reg.party_by_nonce;
}

abbrev with_operation :
    DedupRegistry → OperationIdentity → Accepted OperationIdentity → DedupRegistry
with_operation reg i r = record reg {
  operation_by_id = store (operation_id_key i) r reg.operation_by_id;
  operation_by_key = store (operation_idem_key i) r reg.operation_by_key;
}

abbrev with_callback : DedupRegistry → CallbackIdentity → Accepted CallbackIdentity → DedupRegistry
with_callback reg i r = record reg {
  callback_by_id = store (callback_id_key i) r reg.callback_by_id;
  callback_by_key = store (callback_idem_key i) r reg.callback_by_key;
}

module _ (h : Hashing) where
  abbrev party_record :
      Message → PartyIdentity → Option TrustedSubject → Outcome (Accepted PartyScope)
  party_record m i =
      accepted_record h (record { session_id = m.session_context.session_id; identity = i }) m

  abbrev commit_party :
      Bool
      → DedupRegistry
      → Message
      → PartyIdentity
      → Option TrustedSubject
      → Outcome (Classification × DedupRegistry)
  commit_party false reg m i subject = ok (new_event, reg)
  commit_party true reg m i subject =
      commit_with (with_party reg m.session_context.session_id i) (party_record m i subject)

  abbrev commit_operation :
      Bool
      → DedupRegistry
      → Message
      → OperationIdentity
      → Option TrustedSubject
      → Outcome (Classification × DedupRegistry)
  commit_operation false reg m i subject = ok (new_event, reg)
  commit_operation true reg m i subject =
      commit_with (with_operation reg i) (accepted_record h i m subject)

  abbrev commit_callback :
      Bool
      → DedupRegistry
      → Message
      → CallbackIdentity
      → Option TrustedSubject
      → Outcome (Classification × DedupRegistry)
  commit_callback false reg m i subject = ok (new_event, reg)
  commit_callback true reg m i subject =
      commit_with (with_callback reg i) (accepted_record h i m subject)

  -- The branches of `classify` on the delivery class. A class whose identity lacks the members that
  -- the branch reads is a `KeyError`.
  abbrev classify_as :
      DeliveryClass
      → Identity
      → DedupRegistry
      → Message
      → Bool
      → Option TrustedSubject
      → Outcome (Classification × DedupRegistry)
  classify_as party_message (of_party i) reg m commit subject =
      let session_id = m.session_context.session_id in
      judge party_scope_eq (find (party_id_key session_id i) reg.party_by_id)
        (find (party_nonce_key session_id i) reg.party_by_nonce) (party_record m i)
        (commit_party commit reg m i subject) reg
  classify_as coordinator_command (of_operation i) reg m commit subject =
      judge operation_eq (find (operation_id_key i) reg.operation_by_id)
        (find (operation_idem_key i) reg.operation_by_key) (accepted_record h i m)
        (commit_operation commit reg m i subject) reg
  classify_as profile_callback (of_callback i) reg m commit subject =
      judge callback_eq (find (callback_id_key i) reg.callback_by_id)
        (find (callback_idem_key i) reg.callback_by_key) (accepted_record h i m)
        (commit_callback commit reg m i subject) reg
  classify_as derived_transition _ reg m commit subject = ok (excluded, reg)
  classify_as _ _ reg m commit subject = crashed

  -- classify
  unfoldable pub classify :
      DedupRegistry
      → Message
      → Bool
      → Option TrustedSubject
      → Outcome (Classification × DedupRegistry)
  unfolding judge find store accepted_record
  classify reg m commit subject = classify_as m.delivery_class m.identity reg m commit subject

  abbrev authorize :
      {Scope : Type 0} → Option (Accepted Scope) → Option TrustedSubject → Option String
  authorize none requester = none
  authorize (some r) none = none
  authorize (some r) (some requester) =
      if option_eq (some requester) r.response_recipient_binding
      then some r.normalized_response_ref
      else none

  abbrev stored_response :
      DeliveryClass → Identity → DedupRegistry → Message → Option TrustedSubject → Option String
  stored_response party_message (of_party i) reg m requester =
      authorize (find (party_id_key m.session_context.session_id i) reg.party_by_id) requester
  stored_response coordinator_command (of_operation i) reg m requester =
      authorize (find (operation_id_key i) reg.operation_by_id) requester
  stored_response profile_callback (of_callback i) reg m requester =
      authorize (find (callback_id_key i) reg.callback_by_id) requester
  stored_response _ _ reg m requester = none

  abbrev response_if :
      Classification × DedupRegistry → Message → Option TrustedSubject → Option String
  response_if (exact_duplicate, reg) m requester =
      stored_response m.delivery_class m.identity reg m requester
  response_if (_, reg) m requester = none

  -- cached_response
  unfoldable pub cached_response :
      DedupRegistry → Message → Option TrustedSubject → Outcome (Option String)
  unfolding classify find option_eq
  cached_response reg m requester = do
    classified ← classify reg m false none
    ok (response_if classified m requester)
