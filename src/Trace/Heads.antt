-- ===== src/Trace/Heads.antt =====
-- The heads and the index of the transcript of a session: scripts/validate_messages.py over
-- scripts/canonicalize_message.py.
use private_match_protocol.Prelude.{
  ℕ, ◌+◌, ◌<◌, ◌^◌, ◌≡◌, refl, sym, inl, inr, true, Bool-cases, ◌==◌, ◌&&◌, leb, ltb, List, ◌++◌,
  String, arith, length, both_true,
}
use mathlib.Core.Path.{subst}
use private_match_protocol.Digest.Errors.{Outcome, ok, refused, crashed, ◌>>=◌}
use private_match_protocol.Digest.Bytes.{format_digest, parse_digest, to_bytes, digest_input}
use private_match_protocol.Digest.Texts.{AllBytes, parse_digest-format_digest}
use private_match_protocol.Digest.{Hashing, digest_of, append_transcript, transcript_genesis_digest}
use private_match_protocol.Dedup.{empty_registry}
use private_match_protocol.Runner.Atomic.{ok-injective}
use private_match_protocol.Transcript.{TranscriptState, initial_transcript}
use private_match_protocol.Trace.{Platform, Session}
use private_match_protocol.Trace.Atomic.{message-Step}
use private_match_protocol.Trace.Timers.{timer-Step}
use private_match_protocol.Trace.Sessions.{Event, by_message, by_timer, Reach, here, next}

-- The head is the text of a digest, and the index fits into 64 bits.
pub record WellChained (t : TranscriptState) : Type 0 where
  pub bytes : List ℕ
  pub read : parse_digest t.head ≡ ok bytes
  pub bounded : t.accepted_event_index < 2 ^ 64

formatted_length : (raw : List ℕ) (text : String) → format_digest raw ≡ ok text → length raw ≡ 32
unfolding format_digest
formatted_length raw text e = elim (Bool-cases (length raw == 32)) [
  | inl long ↦ ground arith
  | inr other ↦ absurd (let wrong = rw other at e in ground arith)
]

formatted_read :
    (raw : List ℕ) (text : String)
    → AllBytes raw
    → format_digest raw ≡ ok text
    → parse_digest text ≡ ok raw
formatted_read raw text held e =
    subst (λ w. (do t ← w; parse_digest t) ≡ ok raw) e
      (parse_digest-format_digest raw held (formatted_length raw text e))

module _ (h : Hashing) (valid : (input : List ℕ) → AllBytes (h.sha256 input)) where
  hashed :
      (w : Outcome (List ℕ)) (text : String)
      → (do input ← w; format_digest (h.sha256 input)) ≡ ok text
      → (raw : List ℕ) × (parse_digest text ≡ ok raw)
  hashed (ok input) text e = (h.sha256 input, formatted_read (h.sha256 input) text (valid input) e)
  hashed (refused x) text e = absurd (ground arith)
  hashed crashed text e = absurd (ground arith)

  digest_of_read :
      (label : String) (parts : List ℕ) (text : String)
      → digest_of h label parts ≡ ok text
      → (raw : List ℕ) × (parse_digest text ≡ ok raw)
  unfolding digest_of
  digest_of_read label parts text e = hashed (digest_input label parts) text e

  both_parsed :
      (p q : Outcome (List ℕ)) (index : ℕ) (text : String)
      → (do
        prior_bytes ← p
        event_bytes ← q
        digest_of h "private-match-transcript/v0.1"
            (prior_bytes ++ (to_bytes 8 index ++ event_bytes)))
        ≡ ok text
      → (raw : List ℕ) × (parse_digest text ≡ ok raw)
  both_parsed (ok a) (ok b) index text e = digest_of_read _ _ text e
  both_parsed (ok a) (refused x) index text e = absurd (ground arith)
  both_parsed (ok a) crashed index text e = absurd (ground arith)
  both_parsed (refused x) q index text e = absurd (ground arith)
  both_parsed crashed q index text e = absurd (ground arith)

  below : (index : ℕ) → ltb index (2 ^ 64) ≡ true → index < 2 ^ 64
  below index e = ground arith

  appended :
      (prior : String) (index : ℕ) (event text : String)
      → append_transcript h prior index event ≡ ok text
      → (index < 2 ^ 64) × ((raw : List ℕ) × (parse_digest text ≡ ok raw))
  unfolding append_transcript
  appended prior index event text e = elim (Bool-cases (leb 1 index && ltb index (2 ^ 64))) [
    | inl within ↦ (
      below index (both_true _ _ within).1,
      both_parsed (parse_digest prior) (parse_digest event) index text (rw within at e),
    )
    | inr other ↦ absurd (let wrong = rw other at e in ground arith)
  ]

  appended-WellChained :
      (t : TranscriptState) (s : TranscriptState) (event : String)
      → append_transcript h t.head (t.accepted_event_index + 1) event ≡ ok s.head
      → s.accepted_event_index ≡ t.accepted_event_index + 1
      → WellChained s
  appended-WellChained t s event e counted =
      let (small, (raw, read)) = appended t.head _ event s.head e in
      record { bytes = raw; read = read; bounded = subst (λ n. n < 2 ^ 64) (sym counted) small }

  begun :
      (w : Outcome String) {t : TranscriptState}
      → ((head : String) → w ≡ ok head → (raw : List ℕ) × (parse_digest head ≡ ok raw))
      → (do
        genesis ← w
        ok (record { head = genesis; accepted_event_index = 0; dedup = empty_registry }))
        ≡ ok t
      → WellChained t
  begun (ok head) read e = subst WellChained (ok-injective e) (
      let (raw, of_head) = read head refl in
      record { bytes = raw; read = of_head; bounded = below 0 refl })
  begun (refused x) read e = absurd (ground arith)
  begun crashed read e = absurd (ground arith)

  -- The first transcript has the genesis digest as its head.
  pub initial-WellChained : {t : TranscriptState} → initial_transcript h ≡ ok t → WellChained t
  unfolding initial_transcript transcript_genesis_digest
  initial-WellChained e = begun _ (λ head same. digest_of_read _ _ head same) e

module _ (platform : Platform)
    (valid : (input : List ℕ) → AllBytes (platform.hashing.sha256 input)) where
  open platform use {hashing}

  Event-WellChained :
      {s s' : Session} → Event platform s s' → WellChained s.transcript → WellChained s'.transcript
  Event-WellChained {s} {s'} (by_message m entries materials requester run) v =
      elim (message-Step platform s m entries materials requester run) [
        | inl (_, _, c) ↦
            appended-WellChained hashing valid s.transcript s'.transcript m.message_digest
              c.taken.appended c.taken.counted
        | inr (_, same) ↦ subst (λ x. WellChained x.transcript) (sym same) v
      ]
  Event-WellChained {s} {s'} (by_timer e run) v = elim (timer-Step platform s e run) [
    | inl (_, _, c) ↦
        appended-WellChained hashing valid s.transcript s'.transcript c.taken.event_digest
          c.taken.appended c.taken.counted
    | inr (_, same) ↦ subst (λ x. WellChained x.transcript) (sym same) v
  ]

  -- Where SHA-256 gives bytes, every session that events lead to has a transcript head that is the text
  -- of a digest and an index below 2 ^ 64, if the session they start from has.
  pub Reach-WellChained :
      {start s : Session}
      → Reach platform start s
      → WellChained start.transcript
      → WellChained s.transcript
  Reach-WellChained here v = v
  Reach-WellChained (next earlier event) v = Event-WellChained event (Reach-WellChained earlier v)
