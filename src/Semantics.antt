-- ===== src/Semantics.antt =====
-- `semantic_message_findings` of scripts/validate_messages.py: a message against the registry, the
-- materials and the current context.
pub mod Walks
pub mod Bindings
pub mod Authority
use Prim.Native.String
use private_match_protocol.Prelude.{
  String, Bool, true, false, ◌&&◌, ◌||◌, not, Option, none, some, List, [], ◌∷◌, ◌++◌, any, str_eq,
  if◌then◌else◌, ℤ, pos, ◌+ℤ◌, ◌*ℤ◌, ltb_ℤ,
}
use private_match_protocol.Json.{Json, int, str, bool, obj, Fields, json_eq, has}
use private_match_protocol.Findings.{Finding, finding, require, sorted_set}
use private_match_protocol.Message.{Message}
use private_match_protocol.Message.Kinds.{type_name}
use private_match_protocol.Message.Wire.{message_fields}
use private_match_protocol.Times.{Calendar, parse_time}
use private_match_protocol.Materials.{Material, is_from, is_party_actor}
use private_match_protocol.Digest.Errors.{Outcome, ok, refused, crashed, ◌>>=◌}
use private_match_protocol.Digest.{Hashing, payload_digest, message_digest}
use private_match_protocol.Registry.{Entry, find_entry}
use private_match_protocol.Runner.{Context}
use Walks.{walk_prohibited, walk_plaintext_result}
use Bindings.{
  report, version_findings, context_findings, sender_findings, identity_findings, sorted_texts,
}
use Authority.{authentication_findings}

abbrev integer_read : Option ℤ → Outcome ℤ
integer_read none = crashed
integer_read (some n) = ok n

-- `int(context.get(name, 0))`: 0 where there is none; a text is parsed, and what is neither a number
-- nor the text of one raises.
abbrev threshold : Hashing → Option Json → Outcome ℤ
threshold h none = ok (pos 0)
threshold h (some (int n)) = ok n
threshold h (some (bool true)) = ok (pos 1)
threshold h (some (bool false)) = ok (pos 0)
threshold h (some (str s)) = integer_read (h.read_integer s)
threshold h (some v) = crashed

-- The age of the message, where both times are known.
abbrev age_findings :
    Hashing → Option ℤ → Option ℤ → Context → List Finding → Outcome (List Finding)
age_findings h (some issued) (some now) c fs = do
  stale ← threshold h c.message_stale_threshold_seconds
  skew ← threshold h c.allowed_clock_skew_seconds
  ok (
      report (ltb_ℤ (now +ℤ skew *ℤ pos 1000000) issued) "future-message" "message"
        "issued_at exceeds allowed clock skew"
        (report (ltb_ℤ (issued +ℤ stale *ℤ pos 1000000) now) "stale-message" "message"
          "message exceeds stale threshold" fs))
age_findings h issued now c fs = ok fs

unfoldable pub time_findings :
    Hashing → Option ℤ → Option ℤ → Option ℤ → Context → List Finding → Outcome (List Finding)
unfolding require finding
time_findings h issued expires now c fs = age_findings h issued now c (
    report (is_from now expires) "message-expired" "message" "message is expired" (
      report (is_from issued expires) "message-time" "message" "issued_at must precede expires_at"
        fs))

abbrev filtered : (String → Bool) → List String → List String
filtered p [] = []
filtered p (s ∷ ss) = let rest = filtered p ss in if p s then s ∷ rest else rest

-- `", ".join(texts)`
abbrev joined : List String → String
joined [] = ""
joined (s ∷ []) = s
joined (s ∷ t ∷ ts) = String.◌++◌ s (String.◌++◌ ", " (joined (t ∷ ts)))

abbrev list_finding : List String → String → String → List Finding → List Finding
list_finding [] code detail fs = fs
list_finding (s ∷ ss) code detail fs =
    fs ++ finding code "message.payload" (String.◌++◌ detail (joined (sorted_texts (s ∷ ss)))) ∷ []

unfoldable pub payload_findings : Fields → Entry → List Finding → List Finding
unfolding finding has sorted_texts
payload_findings payload e fs =
    list_finding (filtered (λ k. has k payload) e.prohibited_fields) "prohibited-data"
      "prohibited fields: "
      (list_finding (filtered (λ k. not (has k payload)) e.required_fields) "payload-fields"
        "missing fields: " fs)

abbrev plaintext_walk : Bool → Message → List Finding
plaintext_walk true m = walk_plaintext_result (obj (message_fields m)) "message"
plaintext_walk false m = []

unfoldable pub content_findings : Message → Entry → List Finding → List Finding
unfolding walk_prohibited walk_plaintext_result message_fields require finding has
content_findings m e fs =
    report
      (any m.audience is_party_actor
        && (has "failure_code" m.payload || has "internal_failure_code" m.payload))
      "failure-projection" "message.payload" "raw failure detail cannot be Party-visible"
      ((fs ++ walk_prohibited (obj (message_fields m)) "message")
        ++ plaintext_walk (any m.audience (str_eq "coordinator") || str_eq e.verifier "coordinator")
            m)

abbrev message_check : Outcome String → Message → List Finding → List Finding
message_check (ok d) m fs =
    report (not (str_eq m.message_digest d)) "message-digest" "message.message_digest"
      "digest mismatch" fs
message_check (refused e) m fs = fs ++ finding "canonicalization" "message" e ∷ []
message_check crashed m fs = fs

-- The `try` block: a canonicalization error of either digest ends it. A digest raises no other
-- exception.
abbrev pub both_digests : Outcome String → Outcome String → Message → List Finding → List Finding
both_digests (ok d) of_message m fs = message_check of_message m (
    report (not (str_eq m.payload_digest d)) "payload-digest" "message.payload_digest"
      "digest mismatch" fs)
both_digests (refused e) of_message m fs = fs ++ finding "canonicalization" "message" e ∷ []
both_digests crashed of_message m fs = fs

unfoldable pub digest_findings : Hashing → Message → List Finding → List Finding
unfolding payload_digest message_digest require finding
digest_findings h m fs = both_digests (payload_digest h m.payload) (message_digest h m) m fs

module _ (h : Hashing) (cal : Calendar) where
  abbrev entry_findings : Option Entry → List Material → Message → Context → Outcome (List Finding)
  entry_findings none materials m c =
      ok (finding "unknown-message-type" "message" "message type is not registered" ∷ [])
  entry_findings (some e) materials m c = do
    let f1 = identity_findings m c.session_context (
        sender_findings m e
          (context_findings m.session_context c.session_context (version_findings m e)))
    let (issued, f2) = parse_time cal (str m.issued_at) "message.issued_at" f1
    let (expires, f3) = parse_time cal (str m.expires_at) "message.expires_at" f2
    let (now, f4) = parse_time cal c.authoritative_time "context.authoritative_time" f3
    f5 ← time_findings h issued expires now c f4
    let f6 =
        report (not (json_eq (str m.prior_transcript_digest) c.prior_transcript_digest))
          "prior-transcript" "message" "prior transcript digest mismatch" f5
    let f7 = digest_findings h m (content_findings m e (payload_findings m.payload e f6))
    ok (sorted_set (authentication_findings cal materials m c issued now f7))

  -- semantic_message_findings, with `require_context_prior=True`
  unfoldable pub semantic_message_findings :
      Message → List Entry → List Material → Context → Outcome (List Finding)
  unfolding find_entry parse_time json_eq require finding sorted_set type_name version_findings
      context_findings sender_findings identity_findings time_findings payload_findings
      content_findings digest_findings authentication_findings
  semantic_message_findings m entries materials c =
      entry_findings (find_entry entries (type_name m.message_type)) materials m c
