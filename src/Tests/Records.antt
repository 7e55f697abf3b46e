-- ===== src/Tests/Records.antt =====
-- The records, the transcript and the clock at concrete inputs.
use private_match_protocol.Prelude.{
  ℕ, ◌≤◌, ◌+◌, ◌≡◌, refl, ◌≢◌, some, none, [], true, false, ◌↔◌, pos, ◌+ℤ◌, arith,
}
use private_match_protocol.Digest.Errors.{Outcome, ok}
use private_match_protocol.Digest.{
  value_in_domain, append_transcript, timer_event_digest, wire_message_digest,
}
use private_match_protocol.Digest.Bytes.{digest_input, format_digest, parse_digest}
use private_match_protocol.Times.{replace_zulu}
use private_match_protocol.Message.Wire.{authentication_input, message_fields}
use private_match_protocol.Dedup.{
  classify, empty_registry, DedupRegistry, Classification, new_event, exact_duplicate,
}
use private_match_protocol.Dedup.Records.{response_ref}
use private_match_protocol.Dedup.Replay.{replay}
use private_match_protocol.Materials.{TrustedSubject, coordinator_subject}
use private_match_protocol.Dedup.{cached_response}
use private_match_protocol.Dedup.Responses.{answer, cached_response_after}
use private_match_protocol.Phases.{
  evaluating, is_terminal, consumed, no_disclosure, no_failure, no_category,
}
use private_match_protocol.Transcript.{
  TranscriptState, Verdict, accepted, accept_message, accept_timer,
}
use private_match_protocol.Transcript.Laws.{
  Outcomes, accept_message-Outcomes, TimerOutcomes, accept_timer-Outcomes,
}
use private_match_protocol.Runner.Timer.{apply_timer_to_runner}
use private_match_protocol.Runner.Timer.Outcomes.{
  TimerOutcomes as RunnerOutcomes, apply_timer_to_runner-Outcomes,
}
use private_match_protocol.Clock.{ClockState, advance, authoritative_time_transition}
use private_match_protocol.Clock.Ends.{Running, Ticks, ends}
use private_match_protocol.Clock.Laws.{Admissible, transition_iff, transition_failed, advance_twice}
use private_match_protocol.Tests.Data.{
  hashing, calendar, proposal, proposed, transcript, tick_event,
}

-- The records.
abbrev Committed : Type 0
Committed = Classification × DedupRegistry

abbrev committed_of : Outcome Committed → DedupRegistry
committed_of (ok c) = c.1
committed_of _ = empty_registry

abbrev committed : Outcome Committed
committed = classify hashing empty_registry proposal true none

committed_at : committed ≡ ok (new_event, committed_of committed)
unfolding classify empty_registry value_in_domain digest_input format_digest authentication_input
    response_ref wire_message_digest message_fields
committed_at = refl

replay_example :
    classify hashing (committed_of committed) proposal false none
    ≡ ok (exact_duplicate, committed_of committed)
replay_example = replay hashing proposal empty_registry (committed_of committed) none committed_at

abbrev coordinator : TrustedSubject
coordinator = record {
  actor = "coordinator";
  key_id = "key-1";
  subject_binding_id = "binding-1";
  verification_material_id = "material-1";
  kind = coordinator_subject;
}

abbrev owned : Outcome Committed
owned = classify hashing empty_registry proposal true (some coordinator)

owned_at : owned ≡ ok (new_event, committed_of owned)
unfolding classify empty_registry value_in_domain digest_input format_digest authentication_input
    response_ref wire_message_digest message_fields
owned_at = refl

-- The response of the coordinator's own command.
cached_response_after_example :
    cached_response hashing (committed_of owned) proposal (some coordinator)
    ≡ ok (answer (some coordinator) coordinator proposal)
cached_response_after_example =
    cached_response_after hashing proposal empty_registry (committed_of owned) (some coordinator)
      coordinator owned_at

-- The transcript.
abbrev Taken : Type 0
Taken = Verdict × TranscriptState

abbrev taken_of : Outcome Taken → TranscriptState
taken_of (ok t) = t.1
taken_of _ = transcript

abbrev taken : Outcome Taken
taken = accept_message hashing transcript proposal false none

taken_at : taken ≡ ok (accepted, taken_of taken)
unfolding accept_message classify empty_registry value_in_domain digest_input format_digest
    authentication_input response_ref wire_message_digest message_fields append_transcript
    parse_digest
taken_at = refl

accept_message-Outcomes_example :
    Outcomes hashing transcript proposal none accepted (taken_of taken)
accept_message-Outcomes_example =
    accept_message-Outcomes hashing transcript proposal false none taken_at

abbrev timed : Outcome Taken
timed = accept_timer hashing calendar transcript tick_event true

timed_at : timed ≡ ok (accepted, taken_of timed)
unfolding accept_timer timer_event_digest replace_zulu value_in_domain digest_input format_digest
    append_transcript parse_digest
timed_at = refl

accept_timer-Outcomes_example :
    TimerOutcomes hashing transcript tick_event accepted (taken_of timed)
accept_timer-Outcomes_example =
    accept_timer-Outcomes hashing calendar transcript tick_event true timed_at

apply_timer_to_runner-Outcomes_example :
    RunnerOutcomes calendar proposed tick_event (apply_timer_to_runner calendar proposed tick_event)
apply_timer_to_runner-Outcomes_example = apply_timer_to_runner-Outcomes calendar proposed tick_event

-- The clock: an evaluation with a deadline at 50, in a session until 100.
abbrev evaluation : ClockState
evaluation = record {
  authoritative_time = some (pos 10);
  session_expires_at = some (pos 100);
  evaluation_deadline = some (pos 50);
  phase = evaluating;
  consent = record { slot_a = none; slot_b = none };
  query_budget_state = consumed;
  evaluation_started = true;
  disclosure_state = no_disclosure;
  terminal_failure_code = no_failure;
  party_terminal_category = no_category;
}

transition_iff_example :
    (authoritative_time_transition evaluation (pos 60) (pos 80) ≡ (advance evaluation (pos 60), []))
    ↔ Admissible evaluation (pos 60) (pos 80) (pos 10)
transition_iff_example = transition_iff evaluation (pos 60) (pos 80) (pos 10) refl

too_far : (authoritative_time_transition evaluation (pos 60) (pos 20)).1 ≢ []
unfolding authoritative_time_transition ◌+ℤ◌
too_far e = ground arith

transition_failed_example :
    (authoritative_time_transition evaluation (pos 60) (pos 20)).0 ≡ evaluation
transition_failed_example = transition_failed evaluation (pos 60) (pos 20) too_far

still_live : is_terminal (advance evaluation (pos 40)).phase ≡ false
unfolding advance is_terminal
still_live = refl

advance_twice_example : advance (advance evaluation (pos 40)) (pos 60) ≡ advance evaluation (pos 60)
advance_twice_example = advance_twice evaluation (pos 40) (pos 60) still_live

evaluation-Running : Running evaluation 10 100
unfolding is_terminal
evaluation-Running = record { at = refl; expiry = refl; live = refl }

ends_example :
    (n : ℕ) × (w : ClockState) × (n ≤ 90 + 1)
    × Ticks (pos 10) n evaluation w
    × (is_terminal w.phase ≡ true)
ends_example = ends 9 100 90 10 evaluation (omega arith) evaluation-Running
