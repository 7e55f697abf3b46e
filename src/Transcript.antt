-- ===== src/Transcript.antt =====
-- `TranscriptState` of scripts/validate_messages.py, and the timer event of
-- schemas/messages/timer-event.v0.1.schema.json.
pub mod Laws
use private_match_protocol.Prelude.{
  ℕ, ◌+◌, String, Bool, true, false, ◌&&◌, Option, none, [], str_eq, if◌then◌else◌, is_some,
}
use private_match_protocol.Json.{Json, str, obj, end, field}
use private_match_protocol.Times.{Calendar, parse_time}
use private_match_protocol.Message.{Message}
use private_match_protocol.Materials.{TrustedSubject}
use private_match_protocol.Digest.Errors.{Outcome, ok, refused, crashed, ◌>>=◌}
use private_match_protocol.Digest.{
  Hashing, append_transcript, timer_event_digest, transcript_genesis_digest,
}
use private_match_protocol.Dedup.{
  DedupRegistry, empty_registry, Classification, new_event, exact_duplicate, replay_conflict,
  excluded, classify,
}

pub data TimerReason : Type 0 where
  coordinator_clock session_expiry_threshold evaluation_deadline : TimerReason
  consent_expiry_threshold : TimerReason

unfoldable pub reason_name : TimerReason → String
reason_name coordinator_clock = "COORDINATOR_CLOCK"
reason_name session_expiry_threshold = "SESSION_EXPIRY_THRESHOLD"
reason_name evaluation_deadline = "EVALUATION_DEADLINE"
reason_name consent_expiry_threshold = "CONSENT_EXPIRY_THRESHOLD"

pub record TimerEvent : Type 0 where
  pub event_type : String
  pub event_version : String
  pub delivery_class : String
  pub session_id : String
  pub new_authoritative_time : String
  pub reason_or_source_class : TimerReason
  pub prior_transcript_digest : String

unfoldable pub timer_json : TimerEvent → Json
unfolding reason_name
timer_json e = obj (
    field "delivery_class" (str e.delivery_class) (
      field "event_type" (str e.event_type) (
        field "event_version" (str e.event_version) (
          field "new_authoritative_time" (str e.new_authoritative_time) (
            field "prior_transcript_digest" (str e.prior_transcript_digest) (
              field "reason_or_source_class" (str (reason_name e.reason_or_source_class))
                (field "session_id" (str e.session_id) end)))))))

pub record TranscriptState : Type 0 where
  pub head : String
  pub accepted_event_index : ℕ
  pub dedup : DedupRegistry

pub data Verdict : Type 0 where
  accepted rejected duplicate conflict not_transcribed prior_mismatch no_op : Verdict

module _ (h : Hashing) where
  -- `TranscriptState()`
  unfoldable pub initial_transcript : Outcome TranscriptState
  unfolding transcript_genesis_digest empty_registry
  initial_transcript = do
    genesis ← transcript_genesis_digest h
    ok (record { head = genesis; accepted_event_index = 0; dedup = empty_registry })

  -- The commit: the records and the transcript change together.
  abbrev commit_event :
      TranscriptState
      → String
      → Classification × DedupRegistry
      → Outcome (Verdict × TranscriptState)
  commit_event s next_head (new_event, reg) = ok (
    accepted,
    record { head = next_head; accepted_event_index = s.accepted_event_index + 1; dedup = reg },
  )
  commit_event s next_head (_, reg) = crashed

  abbrev extend :
      TranscriptState → Message → Option TrustedSubject → Outcome (Verdict × TranscriptState)
  extend s m subject =
      if str_eq m.prior_transcript_digest s.head
      then (do
        next_head ← append_transcript h s.head (s.accepted_event_index + 1) m.message_digest
        committed ← classify h s.dedup m true subject
        commit_event s next_head committed)
      else ok (prior_mismatch, s)

  abbrev accept_classified :
      Classification
      → TranscriptState
      → Message
      → Option TrustedSubject
      → Outcome (Verdict × TranscriptState)
  accept_classified replay_conflict s m subject = ok (conflict, s)
  accept_classified exact_duplicate s m subject = ok (duplicate, s)
  accept_classified excluded s m subject = ok (not_transcribed, s)
  accept_classified new_event s m subject = extend s m subject

  -- accept_message
  unfoldable pub accept_message :
      TranscriptState → Message → Bool → Option TrustedSubject → Outcome (Verdict × TranscriptState)
  accept_message s m true subject = ok (rejected, s)
  accept_message s m false subject = do
    classified ← classify h s.dedup m false none
    accept_classified classified.0 s m subject

  -- The commit of a timer event.
  abbrev tick : TranscriptState → String → Verdict × TranscriptState
  tick s next_head =
      (accepted, record s { head = next_head; accepted_event_index = s.accepted_event_index + 1 })

  abbrev append_timer : TranscriptState → TimerEvent → Outcome (Verdict × TranscriptState)
  append_timer s e =
      if str_eq e.prior_transcript_digest s.head
      then (do
        event_digest ← timer_event_digest h (timer_json e)
        next_head ← append_transcript h s.head (s.accepted_event_index + 1) event_digest
        ok (tick s next_head))
      else ok (prior_mismatch, s)

  -- accept_timer. The closed set of members and of reasons is the type's.
  unfoldable pub accept_timer :
      Calendar → TranscriptState → TimerEvent → Bool → Outcome (Verdict × TranscriptState)
  unfolding parse_time timer_json
  accept_timer cal s e false = ok (no_op, s)
  accept_timer cal s e true =
      if str_eq e.event_type "authoritative_timer_event"
        && (str_eq e.event_version "0.1" && str_eq e.delivery_class "timer")
      then (if is_some
            (parse_time cal (str e.new_authoritative_time) "timer.new_authoritative_time" []).0
          then append_timer s e
          else refused "invalid timer authoritative time")
      else refused "unsupported timer event value"
