-- ===== src/Tests/Data.antt =====
-- A small session, for the examples: one coordinator, one clock with five known instants, a digest
-- that is constant.
use private_match_protocol.Prelude.{
  ℕ, String, none, List, [], ◌∷◌, zero, suc, pos, str_eq, if◌then◌else◌, inl,
}
use private_match_protocol.Json.{null, int, str, obj, Fields, end, field}
use private_match_protocol.Message.{Message, SessionContext, of_operation}
use private_match_protocol.Message.Kinds.{session_proposal, coordinator_command}
use private_match_protocol.Materials.{Material, coordinator_subject}
use private_match_protocol.Registry.{Entry}
use private_match_protocol.Times.{Calendar, IsoTime, no_time, instant}
use private_match_protocol.Digest.{Hashing}
use private_match_protocol.Dedup.{empty_registry}
use private_match_protocol.Transcript.{TimerEvent, coordinator_clock, TranscriptState}
use private_match_protocol.Runner.{Context, Runner, new_runner}
use private_match_protocol.Runner.Setup.{propose}
use private_match_protocol.Trace.{Platform, Session}

abbrev pub zeros : ℕ → List ℕ
zeros zero = []
zeros (suc n) = 0 ∷ zeros n

abbrev pub zero_digest : String
zero_digest = "sha256:0000000000000000000000000000000000000000000000000000000000000000"

abbrev pub hashing : Hashing
hashing = record {
  sha256 = λ bytes. zeros 32;
  dumps = λ v. inl [];
  display = λ v. "value";
  read_integer = λ s. none;
}

abbrev known_instant : String → IsoTime
known_instant s =
    if str_eq s "2026-01-01T00:00:00+00:00"
    then instant (pos 1000000000)
    else if str_eq s "2026-01-01T00:00:10+00:00"
    then instant (pos 1010000000)
    else if str_eq s "2026-01-01T01:00:00+00:00"
    then instant (pos 4600000000)
    else no_time

abbrev pub calendar : Calendar
calendar = record {
  fromisoformat = known_instant;
  timestamp_microseconds = λ t. t;
  strptime = λ s. none;
  strftime = λ t. "2026-01-01T00:00:00Z";
  last_instant = pos 9000000000;
}

abbrev pub platform : Platform
platform = record {
  hashing = hashing;
  calendar = calendar;
  message_errors = λ m. [];
  timer_errors = λ e. [];
}

abbrev session_context : SessionContext
session_context = record {
  session_id = "session-1";
  policy = record { policy_id = str "policy-1"; policy_version = str "0.1" };
  participants = record { slot_a = none; slot_b = none };
  intended_audience = null;
  commitment_pair_id = null;
  evaluation_attempt_id = null;
  selected_integration_profile = null;
}

abbrev pub context : Context
context = record {
  session_context = session_context;
  authoritative_time = str "2026-01-01T00:00:00Z";
  session_expires_at = null;
  evaluation_timeout_seconds = null;
  maximum_time_jump_seconds = null;
  allowed_clock_skew_seconds = none;
  message_stale_threshold_seconds = none;
  approved_disclosure_profiles = null;
  prior_transcript_digest = str zero_digest;
}

abbrev pub new_session : Runner
new_session = new_runner context

abbrev clock_policy : Fields
clock_policy =
    field "evaluation_timeout_seconds" (int (pos 60))
      (field "maximum_time_jump_seconds" (int (pos 30)) end)

abbrev pub proposal_payload : Fields
proposal_payload = field "clock_policy" (obj clock_policy) (
    field "proposal_digest" (str zero_digest)
      (field "session_expires_at" (str "2026-01-01T01:00:00Z") end))

abbrev pub proposal : Message
proposal = record {
  protocol_profile = "private-match-core";
  protocol_version = "0.1";
  message_type = session_proposal;
  message_version = "0.1";
  delivery_class = coordinator_command;
  session_context = session_context;
  sender = record { actor = "coordinator"; participant_id = null; key_id = "key-1" };
  audience = [];
  issued_at = "2026-01-01T00:00:00Z";
  expires_at = "2026-01-01T01:00:00Z";
  identity =
      of_operation
        (record { actor_id = "coordinator"; operation_id = "op-1"; idempotency_key = "idem-1" });
  prior_transcript_digest = zero_digest;
  payload = proposal_payload;
  payload_digest = zero_digest;
  authentication = record {
    mode = "signature";
    algorithm_id = "ed25519";
    key_id = "key-1";
    verification_material_id = "material-1";
    value = "value";
  };
  message_digest = zero_digest;
}

abbrev pub registry : List Entry
registry =
    record {
      message_type = "session_proposal";
      message_version = "0.1";
      delivery_class = "coordinator_command";
      allowed_senders = "coordinator" ∷ [];
      verifier = "verifier";
      intended_audience = [];
      required_fields = [];
      prohibited_fields = [];
      transitions = "TR-CREATE" ∷ [];
    }
    ∷ []

abbrev pub materials : List Material
materials =
    record {
      verification_material_id = "material-1";
      mode = "signature";
      algorithm_id = "ed25519";
      key_id = "key-1";
      status = "active";
      not_before = "2026-01-01T00:00:00Z";
      not_after = "2026-01-01T01:00:00Z";
      subject_binding_id = "binding-1";
      subject_actor = "coordinator";
      subject_kind = coordinator_subject;
    }
    ∷ []

abbrev pub proposed : Runner
proposed = propose new_session proposal_payload

abbrev pub transcript : TranscriptState
transcript = record { head = zero_digest; accepted_event_index = 0; dedup = empty_registry }

abbrev pub tick_event : TimerEvent
tick_event = record {
  event_type = "authoritative_timer_event";
  event_version = "0.1";
  delivery_class = "timer";
  session_id = "session-1";
  new_authoritative_time = "2026-01-01T00:00:10Z";
  reason_or_source_class = coordinator_clock;
  prior_transcript_digest = zero_digest;
}

abbrev pub fresh : Session
fresh = record { runner = new_session; transcript = transcript }

abbrev pub open_session : Session
open_session = record { runner = proposed; transcript = transcript }
