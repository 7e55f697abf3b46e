-- ===== src/Conformance/Projection/Values.antt =====
-- The values that `conformance_state_projection` of scripts/conformance_common.py is made of: closed
-- records, Party slots, and lists in canonical order.
use private_match_protocol.Prelude.{
  ℕ, String, Bool, true, false, Option, none, some, List, [], ◌∷◌, ◌++◌, ltb, ◌==◌, map, any,
  if◌then◌else◌, pos,
}
use private_match_protocol.Json.{
  Json, null, int, str, arr, obj, Items, nil, cons, Fields, end, get, put, truthy,
}
use private_match_protocol.Texts
use private_match_protocol.Phases.{Slots}
use private_match_protocol.Message.{OperationIdentity, CallbackIdentity}
use private_match_protocol.Message.Wire.{texts}
use private_match_protocol.Materials.{
  SubjectKind, party_subject, coordinator_subject, profile_subject, TrustedSubject,
}
use private_match_protocol.Digest.Errors.{Outcome, ok, crashed, ◌>>=◌}
use private_match_protocol.Digest.{Hashing, canonicalize}
use private_match_protocol.Keyed.{Key, key_eq}
use private_match_protocol.Dedup.{Index}
use private_match_protocol.Dedup.Records.{Accepted, PartyScope}
use private_match_protocol.Runner.{Acceptance, PolicyAcceptance, Ack, Receipt}

-- A dict display.
abbrev pub members : List (String × Json) → Fields
members [] = end
members ((k, v) ∷ rest) = put k v (members rest)

abbrev pub object : List (String × Json) → Json
object rows = obj (members rows)

abbrev pub picked : List String → Fields → Fields
picked [] fs = end
picked (k ∷ names) fs = put k (get k fs) (picked names fs)

-- `_closed_record`
unfoldable pub closed_record : List String → Json → Json
unfolding get put
closed_record names null = null
closed_record names (obj fs) = obj (picked names fs)
closed_record names _ = obj (picked names end)

-- `_party_slots` without fields, and with them.
abbrev pub party_slots : Slots Json → List (String × Json)
party_slots s = ("party_a", s.slot_a) ∷ ("party_b", s.slot_b) ∷ []

abbrev pub closed_slots : List String → Slots Json → Json
closed_slots names s =
    object
      (("party_a", closed_record names s.slot_a) ∷ ("party_b", closed_record names s.slot_b) ∷ [])

abbrev pub slots_as {ℓ} : {A : Type ℓ} → (A → Json) → Slots A → Slots Json
slots_as f s = record { slot_a = f s.slot_a; slot_b = f s.slot_b }

abbrev pub optional {ℓ} : {A : Type ℓ} → (A → Json) → Option A → Json
optional f none = null
optional f (some a) = f a

abbrev pub acceptance_json : Acceptance → Json
acceptance_json a = object (
    ("proposal_digest", a.proposal_digest)
    ∷ ("acceptance_digest", a.acceptance_digest)
    ∷ ("participant_id", a.participant_id)
    ∷ ("key_id", a.key_id)
    ∷ ("subject_binding_id", a.subject_binding_id)
    ∷ ("verification_material_id", a.verification_material_id)
    ∷ [])

abbrev pub policy_acceptance_json : PolicyAcceptance → Json
policy_acceptance_json a = object (
    ("policy_id", a.policy_id)
    ∷ ("policy_version", a.policy_version)
    ∷ ("acceptance_digest", a.acceptance_digest)
    ∷ [])

abbrev pub ack_json : Ack → Json
ack_json a = object (
    ("opaque_receipt_ref", a.opaque_receipt_ref)
    ∷ ("acknowledgment_status", a.acknowledgment_status)
    ∷ ("profile_evidence_ref", a.profile_evidence_ref)
    ∷ [])

abbrev pub receipt_json : Receipt → Json
receipt_json r = object (
    ("opaque_receipt_ref", r.opaque_receipt_ref)
    ∷ ("acknowledgment_status", r.acknowledgment_status)
    ∷ ("profile_evidence_ref", r.profile_evidence_ref)
    ∷ ("resource_policy_binding", r.resource_policy_binding)
    ∷ ("execution_authorization_digest", r.execution_authorization_digest)
    ∷ [])

-- The trusted subject as a dict: the members of its kind are there, the others are not.
abbrev pub kind_rows : SubjectKind → List (String × Json)
kind_rows (party_subject participant) = ("participant_id", str participant) ∷ []
kind_rows coordinator_subject = []
kind_rows (profile_subject profile version instance_id) =
    ("profile_id", str profile)
    ∷ ("profile_version", str version)
    ∷ ("profile_instance_id", str instance_id)
    ∷ []

abbrev pub subject_json : TrustedSubject → Json
subject_json s = object (
    ("actor", str s.actor)
    ∷ ("key_id", str s.key_id)
    ∷ ("subject_binding_id", str s.subject_binding_id)
    ∷ ("verification_material_id", str s.verification_material_id)
    ∷ kind_rows s.kind)

-- `_subject_projection`
abbrev pub subject_projection : Option TrustedSubject → Json
subject_projection s =
    closed_record
      ("actor" ∷ "participant_id" ∷ "key_id" ∷ "subject_binding_id" ∷ "verification_material_id"
        ∷ "profile_id" ∷ "profile_version" ∷ "profile_instance_id" ∷ [])
      (optional subject_json s)

-- Python's order of `bytes`.
unfoldable pub bytes_lt : List ℕ → List ℕ → Bool
bytes_lt [] [] = false
bytes_lt [] (y ∷ ys) = true
bytes_lt (x ∷ xs) [] = false
bytes_lt (x ∷ xs) (y ∷ ys) =
    let later = bytes_lt xs ys in if ltb x y then true else if x == y then later else false

-- `unique[key] = value`, in the order of the keys.
unfoldable pub keep_sorted : List ℕ → Json → List (List ℕ × Json) → List (List ℕ × Json)
unfolding bytes_lt
keep_sorted key v [] = (key, v) ∷ []
keep_sorted key v ((k, w) ∷ rest) =
    let later = keep_sorted key v rest in
    if bytes_lt key k
    then (key, v) ∷ (k, w) ∷ rest
    else if bytes_lt k key
    then (k, w) ∷ later
    else (k, v) ∷ rest

abbrev pub items_of : List (List ℕ × Json) → Items
items_of [] = nil
items_of ((k, v) ∷ rest) = cons v (items_of rest)

-- `self.index.values()`: the entry that counts under each key.
abbrev pub dict_values {ℓ} : {V : Type ℓ} → List Key → List (Key × V) → List V
dict_values seen [] = []
dict_values seen ((k, v) ∷ d) =
    let later = dict_values (k ∷ seen) d in if any seen (key_eq k) then later else v ∷ later

abbrev pub replay_json : {Scope : Type 0} → (Scope → List (String × Json)) → Accepted Scope → Json
replay_json scope_rows r = object (
    scope_rows r.scope
    ++ (("canonical_message_digest", str r.canonical_message_digest)
        ∷ ("canonical_wire_digest", str r.canonical_wire_digest)
        ∷ ("verification_material_id", str r.verification_material_id)
        ∷ ("original_authenticated_subject", subject_projection r.original_authenticated_subject)
        ∷ ("response_recipient_binding", subject_projection r.response_recipient_binding)
        ∷ []))

abbrev pub party_rows : PartyScope → List (String × Json)
party_rows s =
    ("session_id", str s.session_id)
    ∷ ("sender_participant_id", str s.identity.sender_participant_id)
    ∷ ("message_id", str s.identity.message_id)
    ∷ ("nonce", str s.identity.nonce)
    ∷ ("sequence", int (pos s.identity.sequence))
    ∷ ("issued_at", str s.identity.issued_at)
    ∷ []

abbrev pub operation_rows : OperationIdentity → List (String × Json)
operation_rows i =
    ("actor_id", str i.actor_id)
    ∷ ("operation_id", str i.operation_id)
    ∷ ("idempotency_key", str i.idempotency_key)
    ∷ []

abbrev pub callback_rows : CallbackIdentity → List (String × Json)
callback_rows i =
    ("profile_id", str i.profile_id)
    ∷ ("profile_version", str i.profile_version)
    ∷ ("profile_instance_id", str i.profile_instance_id)
    ∷ ("session_id", str i.session_id)
    ∷ ("evaluation_attempt_id", str i.evaluation_attempt_id)
    ∷ ("callback_id", str i.callback_id)
    ∷ ("idempotency_key", str i.idempotency_key)
    ∷ []

abbrev pub text_values : Items → Option (List String)
text_values nil = some []
text_values (cons (str s) rest) = elim (text_values rest) [ none ↦ none | some ss ↦ some (s ∷ ss) ]
text_values (cons _ rest) = none

abbrev pub known_texts : Option (List String) → Outcome Json
known_texts none = crashed
known_texts (some ss) = ok (arr (texts (Texts.sorted_set ss)))

-- `sorted(set(value or []))`, for an array of texts; other values do not occur in a context.
abbrev pub sorted_audience : Json → Outcome Json
sorted_audience (arr xs) = known_texts (text_values xs)
sorted_audience v = if truthy v then crashed else ok (arr nil)

abbrev pub known_number : ℕ → Json
known_number n = int (pos n)

module _ (h : Hashing) where
  abbrev pub sort_values : List Json → Outcome (List (List ℕ × Json))
  sort_values [] = ok []
  sort_values (v ∷ vs) =
      let later = sort_values vs in
      (do key ← canonicalize h v; rest ← later; ok (keep_sorted key v rest))

  -- `_canonical_sorted`
  unfoldable pub canonical_sorted : List Json → Outcome Json
  unfolding keep_sorted canonicalize
  canonical_sorted vs = do sorted ← sort_values vs; ok (arr (items_of sorted))

  abbrev pub json_items : Items → List Json
  json_items nil = []
  json_items (cons v vs) = v ∷ json_items vs

  -- `_canonical_sorted(value or [])`, for an array.
  abbrev pub sorted_profiles : Json → Outcome Json
  sorted_profiles (arr xs) = canonical_sorted (json_items xs)
  sorted_profiles v = if truthy v then crashed else ok (arr nil)

  -- `_replay_records`
  unfoldable pub replay_records :
      {Scope : Type 0} → (Scope → List (String × Json)) → Index Scope → Outcome Json
  unfolding closed_record put key_eq canonical_sorted
  replay_records scope_rows index =
      canonical_sorted (map (replay_json scope_rows) (dict_values [] index))
