-- ===== src/Trace.antt =====
-- `trace_message_preflight_findings`, `apply_trace_message_atomically` and
-- `apply_trace_timer_atomically` of scripts/validate_messages.py: runner and transcript change
-- together or not at all.
pub mod Atomic
pub mod Timers
pub mod Sessions
pub mod Heads
use private_match_protocol.Prelude.{
  ℕ, String, Bool, true, false, Option, none, some, List, [], ◌∷◌, str_eq, if◌then◌else◌,
}
use private_match_protocol.Json.{obj}
use private_match_protocol.Findings.{Finding, finding, require, sorted_set}
use private_match_protocol.Message.{Message}
use private_match_protocol.Message.Wire.{message_fields}
use private_match_protocol.Times.{Calendar}
use private_match_protocol.Materials.{Material, TrustedSubject, authenticated_subject_parameter}
use private_match_protocol.Digest.Errors.{Outcome, ok, refused, crashed, ◌>>=◌}
use private_match_protocol.Digest.{
  Hashing, canonicalize, payload_digest, message_digest, wire_message_digest,
}
use private_match_protocol.Registry.{Entry}
use private_match_protocol.Dedup.{
  Classification, new_event, exact_duplicate, classify, cached_response,
}
use private_match_protocol.Transcript.{
  TimerEvent, TranscriptState, Verdict, accepted, rejected, prior_mismatch, no_op, accept_message,
  accept_timer,
}
use private_match_protocol.Transitions.{Transition}
use private_match_protocol.Runner.{Runner, current_context}
use private_match_protocol.Runner.Apply.{apply}
use private_match_protocol.Runner.Timer.{apply_timer_to_runner}
use private_match_protocol.Semantics.{both_digests, semantic_message_findings}

-- What the packages and the standard library supply. The schemas are those of `jsonschema`: the
-- place and the text of each error beyond what the types of `Message` and `TimerEvent` rule out.
pub record Platform : Type 0 where
  pub hashing : Hashing
  pub calendar : Calendar
  pub message_errors : Message → List (String × String)
  pub timer_errors : TimerEvent → List (String × String)

pub record Session : Type 0 where
  pub runner : Runner
  pub transcript : TranscriptState

pub data TraceClass : Type 0 where
  exact_duplicate_no_response exact_duplicate_authorized : TraceClass
  verdict : Verdict → TraceClass

-- TraceMessageOutcome
pub record TraceOutcome : Type 0 where
  pub classification : TraceClass
  pub cached_response_ref : Option String
  pub response_authorized : Bool

abbrev pub plain : Verdict → TraceOutcome
plain v = record {
  classification = verdict v;
  cached_response_ref = none;
  response_authorized = false;
}

-- The outcome, the findings, and the session afterwards.
abbrev pub Traced : Type 0
Traced = TraceOutcome × List Finding × Session

abbrev schema_findings : String → List (String × String) → List Finding
schema_findings code [] = []
schema_findings code ((place, text) ∷ errors) =
    finding code place text ∷ schema_findings code errors

abbrev replayed : Option String → Session → Traced
replayed none s = (
  record {
    classification = exact_duplicate_no_response;
    cached_response_ref = none;
    response_authorized = false;
  },
  [],
  s,
)
replayed (some response) s = (
  record {
    classification = exact_duplicate_authorized;
    cached_response_ref = some response;
    response_authorized = true;
  },
  [],
  s,
)

-- A verdict of the transcript that commits nothing.
abbrev uncommitted : Verdict × TranscriptState → Session → Traced
uncommitted (v, _) s = (plain v, [], s)

module _ (platform : Platform) where
  open platform use {hashing, calendar, message_errors, timer_errors}

  -- The `try` block. A digest raises no exception but a canonicalization error.
  abbrev canonical_findings : Outcome (List ℕ) → Outcome String → Message → List Finding
  canonical_findings (ok bytes) (ok wire) m =
      both_digests (payload_digest hashing m.payload) (message_digest hashing m) m []
  canonical_findings (ok bytes) (refused e) m = finding "canonicalization" "message" e ∷ []
  canonical_findings (refused e) _ m = finding "canonicalization" "message" e ∷ []
  canonical_findings _ _ m = []

  abbrev preflight_after : List Finding → Message → List Finding
  preflight_after (f ∷ fs) m = sorted_set (f ∷ fs)
  preflight_after [] m = sorted_set (
      canonical_findings (canonicalize hashing (obj (message_fields m)))
        (wire_message_digest hashing m) m)

  -- trace_message_preflight_findings
  unfoldable pub trace_message_preflight_findings : Message → List Finding
  unfolding sorted_set finding require canonicalize message_fields wire_message_digest
      payload_digest message_digest
  trace_message_preflight_findings m =
      preflight_after (schema_findings "message-schema" (message_errors m)) m

  -- The commit of both copies.
  abbrev commit_both : Verdict × TranscriptState → Runner → Session → Traced
  commit_both (accepted, transcript) runner s =
      (plain accepted, [], record { runner = runner; transcript = transcript })
  commit_both (v, transcript) runner s = (plain v, [], s)

  abbrev transcribe : List Finding × Runner → Session → Message → TrustedSubject → Outcome Traced
  transcribe (f ∷ fs, runner) s m subject = ok (plain rejected, f ∷ fs, s)
  transcribe ([], runner) s m subject = do
    taken ← accept_message hashing s.transcript m false (some subject)
    ok (commit_both taken runner s)

  abbrev with_subject :
      Option TrustedSubject × List Finding
      → Session
      → Message
      → List Entry
      → List Material
      → Outcome Traced
  with_subject (none, fs) s m entries materials = ok (plain rejected, fs, s)
  with_subject (some subject, f ∷ fs) s m entries materials = ok (plain rejected, f ∷ fs, s)
  with_subject (some subject, []) s m entries materials = do
    run ← apply hashing calendar s.runner m entries materials
    transcribe run s m subject

  abbrev dynamic : List Finding → Session → Message → List Entry → List Material → Outcome Traced
  dynamic (f ∷ fs) s m entries materials = ok (plain rejected, f ∷ fs, s)
  dynamic [] s m entries materials =
      with_subject
        (authenticated_subject_parameter calendar materials m s.runner.authoritative_time) s m
        entries materials

  abbrev classified :
      Classification
      → Session
      → Message
      → List Entry
      → List Material
      → Option TrustedSubject
      → Outcome Traced
  classified exact_duplicate s m entries materials requester = do
    response ← cached_response hashing s.transcript.dedup m requester
    ok (replayed response s)
  classified new_event s m entries materials requester = do
    found ←
        semantic_message_findings hashing calendar m entries materials
          (current_context s.runner s.transcript.head)
    dynamic found s m entries materials
  classified _ s m entries materials requester = do
    taken ← accept_message hashing s.transcript m false none
    ok (uncommitted taken s)

  abbrev preflighted :
      List Finding
      → Session
      → Message
      → List Entry
      → List Material
      → Option TrustedSubject
      → Outcome Traced
  preflighted (f ∷ fs) s m entries materials requester = ok (plain rejected, f ∷ fs, s)
  preflighted [] s m entries materials requester = do
    class ← classify hashing s.transcript.dedup m false none
    classified class.0 s m entries materials requester

  -- apply_trace_message_atomically
  unfoldable pub apply_trace_message_atomically :
      Session → Message → List Entry → List Material → Option TrustedSubject → Outcome Traced
  unfolding trace_message_preflight_findings
  apply_trace_message_atomically s m entries materials requester =
      preflighted (trace_message_preflight_findings m) s m entries materials requester

  -- The verdict, the transition, the findings, and the session afterwards.
  abbrev pub TimerTraced : Type 0
  TimerTraced = Verdict × Option Transition × List Finding × Session

  abbrev timer_commit :
      Outcome (Verdict × TranscriptState)
      → Option Transition
      → Runner
      → Session
      → Outcome TimerTraced
  timer_commit (refused e) t runner s =
      ok (rejected, t, finding "timer-canonicalization" "timer" e ∷ [], s)
  timer_commit crashed t runner s = crashed
  timer_commit (ok (accepted, transcript)) t runner s =
      ok (accepted, t, [], record { runner = runner; transcript = transcript })
  timer_commit (ok (v, transcript)) t runner s = ok (v, t, [], s)

  abbrev timer_transcribe :
      Verdict × Option Transition × List Finding × Runner
      → Session
      → TimerEvent
      → Outcome TimerTraced
  timer_transcribe (v, t, f ∷ fs, runner) s e = ok (rejected, t, f ∷ fs, s)
  timer_transcribe (rejected, t, [], runner) s e = ok (rejected, t, [], s)
  timer_transcribe (no_op, t, [], runner) s e = ok (no_op, t, [], s)
  timer_transcribe (v, t, [], runner) s e =
      timer_commit (accept_timer hashing calendar s.transcript e true) t runner s

  abbrev mismatched : Session → Outcome TimerTraced
  mismatched s = ok (prior_mismatch, none, [], s)

  abbrev timer_checked : List Finding → Session → TimerEvent → Outcome TimerTraced
  timer_checked (f ∷ fs) s e = ok (rejected, none, sorted_set (f ∷ fs), s)
  timer_checked [] s e =
      if str_eq e.prior_transcript_digest s.transcript.head
      then timer_transcribe (apply_timer_to_runner calendar s.runner e) s e
      else mismatched s

  -- apply_trace_timer_atomically
  unfoldable pub apply_trace_timer_atomically : Session → TimerEvent → Outcome TimerTraced
  unfolding sorted_set finding
  apply_trace_timer_atomically s e =
      timer_checked (schema_findings "timer-schema" (timer_errors e)) s e
