-- ===== src/Tests/Traces.antt =====
-- Messages and timer events at concrete sessions.
use private_match_protocol.Prelude.{arith, ◌≡◌, refl, some, none, [], ◌≤◌}
use private_match_protocol.Digest.Errors.{Outcome, ok}
use private_match_protocol.Runner.{new_runner}
use private_match_protocol.Runner.Setup.{propose}
use private_match_protocol.Trace.{
  Session, Traced, TimerTraced, apply_trace_message_atomically, apply_trace_timer_atomically,
}
use private_match_protocol.Phases.{closed}
use private_match_protocol.Transcript.{accepted}
use private_match_protocol.Transitions.{advance_time_live}
use private_match_protocol.Trace.{plain}
use private_match_protocol.Trace.Atomic.{Step, message-Step}
use private_match_protocol.Trace.Timers.{TimerStep, timer-Step}
use private_match_protocol.Trace.Sessions.{
  Reach, here, next, by_message, by_timer, Reach-Inv, Reach-over, Reach-counted,
}
use private_match_protocol.Runner.Invariant.{Inv, new_runner-Inv}
use private_match_protocol.Prelude.{◌+ℤ◌, ◌*ℤ◌}
use private_match_protocol.Digest.{value_in_domain, append_transcript, timer_event_digest}
use private_match_protocol.Digest.Bytes.{digest_input, format_digest, parse_digest}
use private_match_protocol.Times.{replace_zulu}
use private_match_protocol.Message.Wire.{authentication_input}
use private_match_protocol.Dedup.{classify, empty_registry}
use private_match_protocol.Dedup.Records.{response_ref}
use private_match_protocol.Semantics.{semantic_message_findings}
use private_match_protocol.Runner.{current_context}
use private_match_protocol.Materials.{authenticated_subject_parameter}
use private_match_protocol.Transcript.{accept_message, accept_timer}
use private_match_protocol.Runner.Apply.{apply}
use private_match_protocol.Runner.Guards.{unmet}
use private_match_protocol.Runner.Setup.{proposal_guards}
use private_match_protocol.Runner.Timer.{apply_timer_to_runner}
use private_match_protocol.Trace.Heads.{WellChained, Reach-WellChained}
use private_match_protocol.Tests.Digests.{zeros-AllBytes}
use private_match_protocol.Tests.Data.{
  zeros, platform, context, transcript, new_session, proposal, registry, materials, fresh,
  open_session, tick_event,
}

abbrev ran : Outcome Traced
ran = apply_trace_message_atomically platform fresh proposal registry materials none

abbrev ticked : Outcome (TimerTraced platform)
ticked = apply_trace_timer_atomically platform open_session tick_event

abbrev session_of : Outcome Traced → Session
session_of (ok t) = t.2
session_of _ = fresh

abbrev ticked_session : Outcome (TimerTraced platform) → Session
ticked_session (ok t) = t.3
ticked_session _ = open_session

abbrev after_proposal : Session
after_proposal = session_of ran

abbrev after_tick : Session
after_tick = ticked_session ticked

ran_accepted : ran ≡ ok (plain accepted, [], after_proposal)
unfolding apply_trace_message_atomically value_in_domain digest_input format_digest new_runner
    replace_zulu ◌+ℤ◌ ◌*ℤ◌ authentication_input classify empty_registry semantic_message_findings
    current_context authenticated_subject_parameter apply unmet proposal_guards accept_message
    append_transcript parse_digest response_ref propose
ran_accepted = refl

ticked-accepted : ticked ≡ ok (accepted, some advance_time_live, [], after_tick)
unfolding apply_trace_timer_atomically value_in_domain digest_input format_digest new_runner
    replace_zulu ◌+ℤ◌ ◌*ℤ◌ apply_timer_to_runner propose accept_timer timer_event_digest
    append_transcript parse_digest
ticked-accepted = refl

message-Step_example :
    Step platform fresh proposal registry materials (plain accepted) [] after_proposal
message-Step_example = message-Step platform fresh proposal registry materials none ran_accepted

timer-Step_example : TimerStep platform open_session tick_event accepted [] after_tick
timer-Step_example = timer-Step platform open_session tick_event ticked-accepted

abbrev next_tick : Outcome (TimerTraced platform)
next_tick = apply_trace_timer_atomically platform after_proposal tick_event

abbrev after_both : Session
after_both = ticked_session next_tick

next_accepted : next_tick ≡ ok (accepted, some advance_time_live, [], after_both)
unfolding apply_trace_message_atomically value_in_domain digest_input format_digest new_runner
    replace_zulu ◌+ℤ◌ ◌*ℤ◌ authentication_input classify empty_registry semantic_message_findings
    current_context authenticated_subject_parameter apply unmet proposal_guards accept_message
    append_transcript parse_digest response_ref propose apply_trace_timer_atomically
    apply_timer_to_runner accept_timer timer_event_digest
next_accepted = refl

-- The proposal, then the timer event, in one session.
proposed_then : Reach platform fresh after_both
proposed_then =
    next (next here (by_message proposal registry materials none ran_accepted))
      (by_timer tick_event next_accepted)

Reach-Inv_example : Inv after_both.runner
unfolding new_runner
Reach-Inv_example = Reach-Inv platform proposed_then (new_runner-Inv context refl)

Reach-counted_example :
    (fresh.transcript.accepted_event_index ≤ after_both.transcript.accepted_event_index)
    × (after_both.transcript.accepted_event_index ≡ fresh.transcript.accepted_event_index
        → after_both ≡ fresh)
Reach-counted_example = Reach-counted platform proposed_then

fresh-WellChained : WellChained transcript
unfolding parse_digest
fresh-WellChained = record { bytes = zeros 32; read = refl; bounded = omega arith }

Reach-WellChained_example : WellChained after_both.transcript
Reach-WellChained_example =
    Reach-WellChained platform (λ input. zeros-AllBytes 32) proposed_then fresh-WellChained

-- A session that is closed: the same proposal is refused.
abbrev ended : Session
ended = record { runner = record new_session { phase = closed }; transcript = transcript }

abbrev refused_run : Outcome Traced
refused_run = apply_trace_message_atomically platform ended proposal registry materials none

abbrev refusal : Traced
refusal = traced_of refused_run
  where
    traced_of : Outcome Traced → Traced
    traced_of (ok t) = t
    traced_of _ = (plain accepted, [], fresh)

refused_at : refused_run ≡ ok refusal
unfolding apply_trace_message_atomically value_in_domain digest_input format_digest new_runner
    replace_zulu ◌+ℤ◌ ◌*ℤ◌ authentication_input classify empty_registry semantic_message_findings
    current_context authenticated_subject_parameter apply unmet proposal_guards
refused_at = refl

refused_then : Reach platform ended refusal.2
refused_then = next here (by_message proposal registry materials none refused_at)

Reach-over_example : refusal.2 ≡ ended
unfolding new_runner
Reach-over_example = Reach-over platform refused_then refl
