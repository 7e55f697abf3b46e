-- ===== src/Machine/Retry/Laws.antt =====
-- What the retry classifiers say of records and of messages that come again.
use private_match_protocol.Prelude.{
  String, ◌≡◌, ◌↔◌, ◌≢◌, true, ◌&&◌, Option, none, some, List, [], ◌∷◌, ℤ, eq_ℤ_iff, ◌⊎◌, inl, inr,
  Bool-cases, str_eq, eq_iff, eq_refl, arith, if◌then◌else◌,
}
use private_match_protocol.Keyed.{Key, key_eq, find, store}
use private_match_protocol.Keyed.Laws.{find-store, key_eq_refl}
use private_match_protocol.Machine.Retry.{
  RetryOutcome, replay_conflict, exact_duplicate, MessageRecord, same_message, message_outcome,
  message_response_outcome, IdRecord, KeyRecord, same_response, idempotency_outcome,
  independent_idempotency_outcome,
}

same_response_cases :
    (a b : Option String) (response : String)
    → same_response a b ≡ exact_duplicate (some response)
    → (a ≡ some response) × (b ≡ some response)
same_response_cases none b response e = absurd (ground arith)
same_response_cases (some r) none response e = absurd (ground arith)
same_response_cases (some r) (some s) response e = ground (arith, eq_iff r s)

module _ (by_id : List (Key × IdRecord)) (by_key : List (Key × KeyRecord))
    (domain identifier key digest : String) where
  -- Both indexes hold this very operation, with one response.
  pub record Held (response : String) : Type 0 where
    pub under_id :
        find (domain ∷ identifier ∷ []) by_id
        ≡ some (record {
          idempotency_key = key;
          canonical_digest = digest;
          normalized_response = some response;
        })
    pub under_key :
        find (domain ∷ key ∷ []) by_key
        ≡ some (record {
          identifier = identifier;
          canonical_digest = digest;
          normalized_response = some response;
        })

  duplicate_held :
      (i : Option IdRecord) (k : Option KeyRecord) (response : String)
      → idempotency_outcome i k identifier key digest ≡ exact_duplicate (some response)
      → (i
          ≡ some (record {
            idempotency_key = key;
            canonical_digest = digest;
            normalized_response = some response;
          }))
        × (k
            ≡ some (record {
              identifier = identifier;
              canonical_digest = digest;
              normalized_response = some response;
            }))
  duplicate_held none none response e = absurd (ground arith)
  duplicate_held none (some k) response e = absurd (ground arith)
  duplicate_held (some i) none response e = absurd (ground arith)
  duplicate_held (some i) (some k) response e = ground (
    arith,
    eq_iff i.idempotency_key key,
    eq_iff i.canonical_digest digest,
    eq_iff k.identifier identifier,
    eq_iff k.canonical_digest digest,
    same_response_cases i.normalized_response k.normalized_response response,
  )

  idempotency_duplicate :
      (response : String)
      → independent_idempotency_outcome by_id by_key domain identifier key digest
        ≡ exact_duplicate (some response)
      → Held response
  unfolding independent_idempotency_outcome
  idempotency_duplicate response e =
      let (i, k) = duplicate_held _ _ response e in record { under_id = i; under_key = k }

  idempotency-Held :
      (response : String)
      → Held response
      → independent_idempotency_outcome by_id by_key domain identifier key digest
        ≡ exact_duplicate (some response)
  unfolding independent_idempotency_outcome
  idempotency-Held response held = rw (held.under_id, held.under_key) (simp eq_refl)

  -- The classifier answers with a cached response exactly when the index by identifier and the index by
  -- idempotency key both hold this domain's operation with the other identity, the same digest and
  -- that one response.
  pub idempotency_iff :
      (response : String)
      → (independent_idempotency_outcome by_id by_key domain identifier key digest
          ≡ exact_duplicate (some response))
        ↔ Held response
  idempotency_iff response = (idempotency_duplicate response, idempotency-Held response)

-- A message is the one of the record.
abbrev pub SameMessage : MessageRecord → String → ℤ → ℤ → String → Type 0
SameMessage r nonce sequence issued_at digest =
    (r.nonce ≡ nonce)
    × (r.sequence ≡ sequence)
    × (r.issued_at ≡ issued_at)
    × (r.canonical_digest ≡ digest)

same_message_iff :
    (r : MessageRecord) (nonce : String) (sequence issued_at : ℤ) (digest : String)
    → (same_message r nonce sequence issued_at digest ≡ true)
      ↔ SameMessage r nonce sequence issued_at digest
same_message_iff r nonce sequence issued_at digest = (
  λ h. ground (
    arith,
    eq_iff r.nonce nonce,
    eq_iff r.canonical_digest digest,
    eq_ℤ_iff r.sequence sequence,
    eq_ℤ_iff r.issued_at issued_at,
  ),
  λ h. ground (
    arith,
    eq_iff r.nonce nonce,
    eq_iff r.canonical_digest digest,
    eq_ℤ_iff r.sequence sequence,
    eq_ℤ_iff r.issued_at issued_at,
  ),
)

-- What a record says of a message with its identifier.
abbrev pub Recognised : MessageRecord → String → ℤ → ℤ → String → RetryOutcome → Type 0
Recognised r nonce sequence issued_at digest o =
    ((o ≡ exact_duplicate r.normalized_response) × SameMessage r nonce sequence issued_at digest)
    ⊎ ((o ≡ replay_conflict) × ¬ SameMessage r nonce sequence issued_at digest)

module _ (registry : List (Key × MessageRecord)) (r : MessageRecord)
    (session sender message : String) where
  abbrev pub recorded : List (Key × MessageRecord)
  recorded = store (session ∷ sender ∷ message ∷ []) r registry

  -- A message that comes with the identifiers of a stored record gets its response if its nonce,
  -- sequence, time and digest are the record's, and is a conflict otherwise.
  pub recorded_retry :
      (nonce : String) (sequence issued_at : ℤ) (digest : String)
      → Recognised r nonce sequence issued_at digest
          (message_response_outcome recorded session sender message nonce sequence issued_at digest)
  unfolding message_response_outcome
  recorded_retry nonce sequence issued_at digest =
      let iff = same_message_iff r nonce sequence issued_at digest in
      rw
        (
          find-store (session ∷ sender ∷ message ∷ []) (session ∷ sender ∷ message ∷ []) r registry,
          key_eq_refl (session ∷ sender ∷ message ∷ []),
        )
        (elim (Bool-cases (same_message r nonce sequence issued_at digest)) [
          | inl same ↦ inl (rw same, iff.0 same)
          | inr other ↦ inr (rw other, λ h. absurd (let t = iff.1 h in cc))
        ])

  -- The record of one sender says nothing about the messages of another.
  pub recorded_elsewhere :
      (session' sender' message' nonce : String) (sequence issued_at : ℤ) (digest : String)
      → sender ≢ sender'
      → message_response_outcome recorded session' sender' message' nonce sequence issued_at digest
        ≡ message_response_outcome registry session' sender' message' nonce sequence issued_at
            digest
  unfolding message_response_outcome key_eq
  recorded_elsewhere session' sender' message' nonce sequence issued_at digest other =
      rw
        (find-store (session ∷ sender ∷ message ∷ []) (session' ∷ sender' ∷ message' ∷ []) r
          registry)
        (elsewhere_lem other)
    where
      elsewhere_lem :
          sender ≢ sender'
          → message_outcome
              (if str_eq session session'
                  && (str_eq sender sender' && (str_eq message message' && true))
                then some r
                else find (session' ∷ sender' ∷ message' ∷ []) registry)
              nonce
              sequence
              issued_at
              digest
            ≡ message_outcome
                (find (session' ∷ sender' ∷ message' ∷ []) registry)
                nonce
                sequence
                issued_at
                digest
      elsewhere_lem other = elim (Bool-cases (str_eq sender sender')) [
        | inl same ↦ absurd (other ((eq_iff _ _).0 same))
        | inr apart ↦ elim (Bool-cases (str_eq session session')) [
          | inl one ↦ rw (apart, one)
          | inr two ↦ rw two
        ]
      ]
