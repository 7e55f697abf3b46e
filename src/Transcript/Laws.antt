-- ===== src/Transcript/Laws.antt =====
-- What `TranscriptState` of scripts/validate_messages.py does with an event.
use private_match_protocol.Prelude.{
  ◌+◌, String, ◌≡◌, refl, ◌≢◌, ◌⊎◌, inl, inr, Bool, true, false, ap, ◌∙◌, if◌then◌else◌, Option,
  none, arith, str_eq, eq_iff, Bool-cases,
}
use private_match_protocol.Times.{Calendar}
use private_match_protocol.Message.{Message}
use private_match_protocol.Materials.{TrustedSubject}
use private_match_protocol.Digest.Errors.{Outcome, ok, refused, crashed, ◌>>=◌}
use private_match_protocol.Digest.{Hashing, append_transcript, timer_event_digest}
use private_match_protocol.Dedup.{
  DedupRegistry, Classification, new_event, exact_duplicate, replay_conflict, excluded, classify,
}
use private_match_protocol.Transcript.{
  TranscriptState, Verdict, accepted, accept_message, accept_timer, TimerEvent, timer_json,
  commit_event, extend, tick, accept_classified, append_timer,
}

module _ (h : Hashing) where
  -- An accepted message: its prior head is the current one, the next head and the index go one event
  -- further, and the records are those of the commit.
  pub record Transcribed (s : TranscriptState) (m : Message) (subject : Option TrustedSubject)
      (s' : TranscriptState) : Type 0 where
    pub chained : m.prior_transcript_digest ≡ s.head
    pub counted : s'.accepted_event_index ≡ s.accepted_event_index + 1
    pub appended :
        append_transcript h s.head (s.accepted_event_index + 1) m.message_digest ≡ ok s'.head
    pub recorded : classify h s.dedup m true subject ≡ ok (new_event, s'.dedup)

  commit_cases :
      (s : TranscriptState) (m : Message) (subject : Option TrustedSubject) (head : Outcome String)
      (w : Outcome (Classification × DedupRegistry)) {v : Verdict} {s' : TranscriptState}
      → (do next ← head; committed ← w; commit_event h s next committed) ≡ ok (v, s')
      → (v ≡ accepted)
        × (head ≡ ok s'.head)
        × (w ≡ ok (new_event, s'.dedup))
        × (s'.accepted_event_index ≡ s.accepted_event_index + 1)
  commit_cases s m subject (ok next) (ok (new_event, reg)) e = ground arith
  commit_cases s m subject (ok next) (ok (exact_duplicate, reg)) e = absurd (ground arith)
  commit_cases s m subject (ok next) (ok (replay_conflict, reg)) e = absurd (ground arith)
  commit_cases s m subject (ok next) (ok (excluded, reg)) e = absurd (ground arith)
  commit_cases s m subject (ok next) (refused t) e = absurd (ground arith)
  commit_cases s m subject (ok next) crashed e = absurd (ground arith)
  commit_cases s m subject (refused t) w e = absurd (ground arith)
  commit_cases s m subject crashed w e = absurd (ground arith)

  abbrev pub Outcomes :
      TranscriptState → Message → Option TrustedSubject → Verdict → TranscriptState → Type 0
  Outcomes s m subject v s' =
      ((v ≡ accepted) × Transcribed s m subject s') ⊎ ((v ≢ accepted) × (s' ≡ s))

  extend-Outcomes :
      (s : TranscriptState) (m : Message) (subject : Option TrustedSubject) {v : Verdict}
      {s' : TranscriptState}
      → extend h s m subject ≡ ok (v, s')
      → Outcomes s m subject v s'
  extend-Outcomes s m subject e = elim (Bool-cases (str_eq m.prior_transcript_digest s.head)) [
    | inl chained ↦
        (let c = commit_cases s m subject _ _ (rw chained at e) in
          inl (
            c.0,
            record {
              chained = (eq_iff _ _).0 chained;
              counted = c.3;
              appended = c.1;
              recorded = c.2;
            },
          ))
    | inr broken ↦ (let e' = rw broken at e in inr (ground arith))
  ]

  accept_classified-Outcomes :
      (c : Classification) (s : TranscriptState) (m : Message) (subject : Option TrustedSubject)
      {v : Verdict} {s' : TranscriptState}
      → accept_classified h c s m subject ≡ ok (v, s')
      → Outcomes s m subject v s'
  accept_classified-Outcomes new_event s m subject e = extend-Outcomes s m subject e
  accept_classified-Outcomes replay_conflict s m subject e = inr (ground arith)
  accept_classified-Outcomes exact_duplicate s m subject e = inr (ground arith)
  accept_classified-Outcomes excluded s m subject e = inr (ground arith)

  classify_then :
      (w : Outcome (Classification × DedupRegistry)) (s : TranscriptState) (m : Message)
      (subject : Option TrustedSubject) {v : Verdict} {s' : TranscriptState}
      → (do c ← w; accept_classified h c.0 s m subject) ≡ ok (v, s')
      → Outcomes s m subject v s'
  classify_then (ok c) s m subject e = accept_classified-Outcomes c.0 s m subject e
  classify_then (refused t) s m subject e = absurd (ground arith)
  classify_then crashed s m subject e = absurd (ground arith)

  -- Whenever the transcript takes a message without an exception, either the verdict is accepted,
  -- the message names the current head, the new head is the hash of the old one with the next
  -- index and the message digest, and the records are those of the commit; or the verdict is
  -- another one and the transcript is the old one.
  pub accept_message-Outcomes :
      (s : TranscriptState) (m : Message) (failed : Bool) (subject : Option TrustedSubject)
      {v : Verdict} {s' : TranscriptState}
      → accept_message h s m failed subject ≡ ok (v, s')
      → Outcomes s m subject v s'
  unfolding accept_message
  accept_message-Outcomes s m true subject e = inr (ground arith)
  accept_message-Outcomes s m false subject e =
      classify_then (classify h s.dedup m false none) s m subject e

module _ (h : Hashing) where
  -- An accepted timer event: the head and the index go one event further, the records stay.
  pub record Ticked (s : TranscriptState) (e : TimerEvent) (s' : TranscriptState) : Type 0 where
    pub event_digest : String
    pub digested : timer_event_digest h (timer_json e) ≡ ok event_digest
    pub chained : e.prior_transcript_digest ≡ s.head
    pub counted : s'.accepted_event_index ≡ s.accepted_event_index + 1
    pub appended : append_transcript h s.head (s.accepted_event_index + 1) event_digest ≡ ok s'.head
    pub recorded : s'.dedup ≡ s.dedup

  abbrev pub TimerOutcomes : TranscriptState → TimerEvent → Verdict → TranscriptState → Type 0
  TimerOutcomes s e v s' = ((v ≡ accepted) × Ticked s e s') ⊎ ((v ≢ accepted) × (s' ≡ s))

  tick-Outcomes :
      (digest : Outcome String) (append : String → Outcome String) (s : TranscriptState)
      (e : TimerEvent) {v : Verdict} {s' : TranscriptState}
      → timer_event_digest h (timer_json e) ≡ digest
      → ((d : String) → append_transcript h s.head (s.accepted_event_index + 1) d ≡ append d)
      → e.prior_transcript_digest ≡ s.head
      → (do d ← digest; next ← append d; ok (tick h s next)) ≡ ok (v, s')
      → TimerOutcomes s e v s'
  tick-Outcomes (refused t) append s e same appended chained run = absurd (ground arith)
  tick-Outcomes crashed append s e same appended chained run = absurd (ground arith)
  tick-Outcomes (ok d) append s e same appended chained run = headed (append d) (appended d) run
    where
      headed :
          (head : Outcome String) {v : Verdict} {s' : TranscriptState}
          → append_transcript h s.head (s.accepted_event_index + 1) d ≡ head
          → (do next ← head; ok (tick h s next)) ≡ ok (v, s')
          → TimerOutcomes s e v s'
      headed (refused t) appended run = absurd (ground arith)
      headed crashed appended run = absurd (ground arith)
      headed (ok next) {v} {s'} appended run = inl (
        ground arith,
        record {
          event_digest = d;
          digested = same;
          chained = chained;
          counted = ground arith;
          appended = appended ∙ ap ok (let e : next ≡ s'.head = ground arith in e);
          recorded = ground arith;
        },
      )

  append_timer-Outcomes :
      (s : TranscriptState) (e : TimerEvent) {v : Verdict} {s' : TranscriptState}
      → append_timer h s e ≡ ok (v, s')
      → TimerOutcomes s e v s'
  append_timer-Outcomes s e run = elim (Bool-cases (str_eq e.prior_transcript_digest s.head)) [
    | inl chained ↦
        tick-Outcomes (timer_event_digest h (timer_json e)) _ s e refl (λ d. refl)
          ((eq_iff _ _).0 chained) (rw chained at run)
    | inr broken ↦ (let run' = rw broken at run in inr (ground arith))
  ]

  -- The two checks in front of the append.
  checked-Outcomes :
      (supported timed : Bool) (s : TranscriptState) (e : TimerEvent) {v : Verdict}
      {s' : TranscriptState}
      → (if supported
          then (if timed then append_timer h s e else refused "invalid timer authoritative time")
          else refused "unsupported timer event value")
        ≡ ok (v, s')
      → TimerOutcomes s e v s'
  checked-Outcomes true true s e run = append_timer-Outcomes s e run
  checked-Outcomes true false s e run = absurd (ground arith)
  checked-Outcomes false timed s e run = absurd (ground arith)

  -- Whenever the transcript takes a timer event without an exception, either the verdict is accepted,
  -- the event names the current head and is chained to it with the next index, and the records stay;
  -- or the verdict is another one and the transcript is the old one.
  pub accept_timer-Outcomes :
      (cal : Calendar) (s : TranscriptState) (e : TimerEvent) (mutates : Bool) {v : Verdict}
      {s' : TranscriptState}
      → accept_timer h cal s e mutates ≡ ok (v, s')
      → TimerOutcomes s e v s'
  unfolding accept_timer
  accept_timer-Outcomes cal s e false run = inr (ground arith)
  accept_timer-Outcomes cal s e true run = checked-Outcomes _ _ s e run
