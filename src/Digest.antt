-- ===== src/Digest.antt =====
-- scripts/canonicalize_message.py: domain-separated digests. SHA-256 and the RFC 8785 serializer
-- come from packages, and are parameters.
pub mod Texts
pub mod Errors
pub mod Bytes
use private_match_protocol.Prelude.{
  ℕ, ◌⊎◌, inl, inr, ◌-◌, ◌^◌, String, Bool, true, ◌&&◌, Option, List, [], ◌++◌, ℤ, pos, leb_ℤ, leb,
  ltb, if◌then◌else◌,
}
use private_match_protocol.Json.{Json, int, str, arr, obj, Items, nil, cons, Fields, end, field}
use private_match_protocol.Phases.{Slots}
use private_match_protocol.Message.{PartyBinding, PolicyBinding, Message}
use private_match_protocol.Message.Wire.{
  message_fields, authentication_input, policy_json, participants_json,
}
use Errors.{Outcome, ok, refused, ◌>>=◌}
use Bytes.{digest_input, to_bytes, format_digest, parse_digest}

-- `rfc8785.dumps`, which gives bytes or the text of its `CanonicalizationError`, `hashlib.sha256`, and Python's `str` of a value that is
-- not a text and `int` of a text, which has no value where it raises a ValueError.
pub record Hashing : Type 0 where
  pub sha256 : List ℕ → List ℕ
  pub dumps : Json → List ℕ ⊎ String
  pub display : Json → String
  pub read_integer : String → Option ℤ

abbrev pub max_safe_integer : ℕ
max_safe_integer = 2 ^ 53 - 1

abbrev is_safe : ℤ → Bool
is_safe n = leb_ℤ (ℤ.negsuc (max_safe_integer - 1)) n && leb_ℤ n (pos max_safe_integer)

-- `_validate_value_domain`: an integer beyond the I-JSON domain is refused, at any depth. A `Json`
-- here has no floats, no other Python types and no lone surrogates.
unfoldable mutual
  pub value_in_domain : Json → Bool
  value_in_domain (int n) = is_safe n
  value_in_domain (arr xs) = items_in_domain xs
  value_in_domain (obj fs) = fields_in_domain fs
  value_in_domain _ = true

  pub items_in_domain : Items → Bool
  items_in_domain nil = true
  items_in_domain (cons x xs) = value_in_domain x && items_in_domain xs

  pub fields_in_domain : Fields → Bool
  fields_in_domain end = true
  fields_in_domain (field k v fs) = value_in_domain v && fields_in_domain fs

abbrev dumped : List ℕ ⊎ String → Outcome (List ℕ)
dumped (inl bytes) = ok bytes
dumped (inr text) = refused text

module _ (h : Hashing) where
  open h use {sha256, dumps}

  unfoldable pub canonicalize : Json → Outcome (List ℕ)
  canonicalize v =
      if value_in_domain v
      then dumped (dumps v)
      else refused "integer exceeds the I-JSON safe domain"

  -- `format_digest(digest_bytes(label, part, …))`
  unfoldable pub digest_of : String → List ℕ → Outcome String
  digest_of label parts = do input ← digest_input label parts; format_digest (sha256 input)

  -- payload_digest, message_digest, wire_message_digest, timer_event_digest: each a domain and a value.
  unfoldable pub value_digest : String → Json → Outcome String
  unfolding canonicalize digest_of
  value_digest label v = do bytes ← canonicalize v; digest_of label bytes

  unfoldable pub payload_digest : Fields → Outcome String
  unfolding value_digest
  payload_digest payload = value_digest "private-match-payload/v0.1" (obj payload)

  unfoldable pub message_digest : Message → Outcome String
  unfolding value_digest
  message_digest m = value_digest "private-match-message/v0.1" (authentication_input m)

  unfoldable pub wire_message_digest : Message → Outcome String
  unfolding value_digest
  wire_message_digest m = value_digest "private-match-wire-message/v0.1" (obj (message_fields m))

  unfoldable pub timer_event_digest : Json → Outcome String
  unfolding value_digest
  timer_event_digest event = value_digest "private-match-timer-event/v0.1" event

  unfoldable pub transcript_genesis_digest : Outcome String
  unfolding digest_of
  transcript_genesis_digest = digest_of "private-match-transcript-genesis/v0.1" []

  unfoldable pub append_transcript : String → ℕ → String → Outcome String
  unfolding digest_of
  append_transcript prior index event =
      if leb 1 index && ltb index (2 ^ 64)
      then (do
        prior_bytes ← parse_digest prior
        event_bytes ← parse_digest event
        digest_of "private-match-transcript/v0.1"
            (prior_bytes ++ (to_bytes 8 index ++ event_bytes)))
      else refused "accepted event index must be in 1..2^64-1"

  unfoldable pub commitment_pair_digest :
      String
      → PolicyBinding
      → String
      → Slots (Option PartyBinding)
      → Json
      → String
      → String
      → Outcome String
  unfolding value_digest
  commitment_pair_digest profile policy session_id participants selected a b =
      value_digest "private-match-commitment-pair/v0.1" (
        obj (
          field "commitment_a" (str a) (
            field "commitment_b" (str b) (
              field "participant_binding" (participants_json participants) (
                field "policy_binding" (policy_json policy) (
                  field "protocol_profile" (str profile) (
                    field "selected_integration_profile_binding" selected
                      (field "session_id" (str session_id) end))))))))
