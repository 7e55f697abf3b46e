-- ===== src/Machine/Retry.antt =====
-- `message_response_outcome`, `independent_idempotency_outcome` and `duplicate_delivery_outcome` of
-- scripts/validate_session_state_machine.py.
pub mod Laws
use private_match_protocol.Prelude.{
  String, Bool, ◌&&◌, Option, none, some, List, [], ◌∷◌, ℤ, eq_ℤ, str_eq, if◌then◌else◌,
}
use private_match_protocol.Keyed.{Key, find}

-- The outcome, with the cached response of a duplicate where there is one.
pub data RetryOutcome : Type 0 where
  fresh replay_conflict : RetryOutcome
  exact_duplicate : Option String → RetryOutcome

-- The record of an accepted message.
pub record MessageRecord : Type 0 where
  pub nonce : String
  pub sequence : ℤ
  pub issued_at : ℤ
  pub canonical_digest : String
  pub normalized_response : Option String

-- The members of the identity, one by one.
abbrev same_message : MessageRecord → String → ℤ → ℤ → String → Bool
same_message r nonce sequence issued_at digest =
    str_eq r.nonce nonce
    && (eq_ℤ r.sequence sequence
        && (eq_ℤ r.issued_at issued_at && str_eq r.canonical_digest digest))

abbrev message_outcome : Option MessageRecord → String → ℤ → ℤ → String → RetryOutcome
message_outcome none nonce sequence issued_at digest = fresh
message_outcome (some r) nonce sequence issued_at digest =
    if same_message r nonce sequence issued_at digest
    then exact_duplicate r.normalized_response
    else replay_conflict

-- message_response_outcome
unfoldable pub message_response_outcome :
    List (Key × MessageRecord) → String → String → String → String → ℤ → ℤ → String → RetryOutcome
unfolding find
message_response_outcome registry session sender message nonce sequence issued_at digest =
    message_outcome (find (session ∷ sender ∷ message ∷ []) registry) nonce sequence issued_at
      digest

-- The records of the two indexes of an operation or a callback.
pub record IdRecord : Type 0 where
  pub idempotency_key : String
  pub canonical_digest : String
  pub normalized_response : Option String

pub record KeyRecord : Type 0 where
  pub identifier : String
  pub canonical_digest : String
  pub normalized_response : Option String

-- The two responses, where they are one text.
abbrev same_response : Option String → Option String → RetryOutcome
same_response (some r) (some s) = if str_eq r s then exact_duplicate (some r) else replay_conflict
same_response _ _ = replay_conflict

abbrev idempotency_outcome :
    Option IdRecord → Option KeyRecord → String → String → String → RetryOutcome
idempotency_outcome none none identifier key digest = fresh
idempotency_outcome (some i) (some k) identifier key digest =
    if str_eq i.idempotency_key key && str_eq i.canonical_digest digest
    then (if str_eq k.identifier identifier && str_eq k.canonical_digest digest
        then same_response i.normalized_response k.normalized_response
        else replay_conflict)
    else replay_conflict
idempotency_outcome _ _ identifier key digest = replay_conflict

-- independent_idempotency_outcome
unfoldable pub independent_idempotency_outcome :
    List (Key × IdRecord)
    → List (Key × KeyRecord)
    → String
    → String
    → String
    → String
    → RetryOutcome
unfolding find
independent_idempotency_outcome by_id by_key domain identifier key digest =
    idempotency_outcome (find (domain ∷ identifier ∷ []) by_id) (find (domain ∷ key ∷ []) by_key)
      identifier key digest

abbrev delivery_outcome : Option String → String → RetryOutcome
delivery_outcome none digest = fresh
delivery_outcome (some prior) digest =
    if str_eq prior digest then exact_duplicate none else replay_conflict

-- duplicate_delivery_outcome
unfoldable pub duplicate_delivery_outcome :
    List (Key × String) → String → String → String → String → RetryOutcome
unfolding find
duplicate_delivery_outcome registry domain identifier key digest =
    delivery_outcome (find (domain ∷ identifier ∷ key ∷ []) registry) digest
