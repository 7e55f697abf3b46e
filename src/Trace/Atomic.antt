-- ===== src/Trace/Atomic.antt =====
-- What `apply_trace_message_atomically` of scripts/validate_messages.py does to a session.
use private_match_protocol.Prelude.{
  String, ◌≡◌, refl, ◌≢◌, ◌⊎◌, inl, inr, false, Option, none, some, List, [], ◌∷◌, arith,
}
use mathlib.Core.Path.{subst}
use private_match_protocol.Findings.{Finding}
use private_match_protocol.Message.{Message}
use private_match_protocol.Materials.{Material, TrustedSubject}
use private_match_protocol.Registry.{Entry}
use private_match_protocol.Digest.Errors.{Outcome, ok, refused, crashed, ◌>>=◌}
use private_match_protocol.Dedup.{
  DedupRegistry, Classification, new_event, exact_duplicate, replay_conflict, excluded, classify,
}
use private_match_protocol.Transcript.{
  TranscriptState, Verdict, accepted, rejected, duplicate, conflict, not_transcribed,
  prior_mismatch, no_op, accept_message,
}
use private_match_protocol.Transcript.Laws.{Transcribed, accept_message-Outcomes}
use private_match_protocol.Runner.{Runner}
use private_match_protocol.Runner.Atomic.{ok-injective}
use private_match_protocol.Runner.Apply.{apply}
use private_match_protocol.Trace.{
  Platform, Session, TraceOutcome, plain, replayed, uncommitted, commit_both, transcribe,
  with_subject, dynamic, classified, preflighted, apply_trace_message_atomically,
}

module _ (platform : Platform) where
  open platform use {hashing, calendar}

  -- A commit: the runner is the one that `apply` returns without a finding, and the transcript is
  -- the old one with this message at its end.
  pub record Committed (s : Session) (m : Message) (entries : List Entry)
      (materials : List Material) (s' : Session) : Type 0 where
    pub subject : TrustedSubject
    pub ran : apply hashing calendar s.runner m entries materials ≡ ok ([], s'.runner)
    pub taken : Transcribed hashing s.transcript m (some subject) s'.transcript

  module _ (s : Session) (m : Message) (entries : List Entry) (materials : List Material) where
    abbrev pub Step : TraceOutcome → List Finding → Session → Type 0
    Step o fs s' =
        ((o ≡ plain accepted) × (fs ≡ []) × Committed s m entries materials s')
        ⊎ ((o ≢ plain accepted) × (s' ≡ s))

    commit-Step :
        (w : Outcome (Verdict × TranscriptState)) (runner : Runner) (subject : TrustedSubject)
        {o : TraceOutcome} {fs : List Finding} {s' : Session}
        → apply hashing calendar s.runner m entries materials ≡ ok ([], runner)
        → accept_message hashing s.transcript m false (some subject) ≡ w
        → (do t ← w; ok (commit_both platform t runner s)) ≡ ok (o, fs, s')
        → Step o fs s'
    commit-Step (refused t) runner subject ran same e = absurd (ground arith)
    commit-Step crashed runner subject ran same e = absurd (ground arith)
    commit-Step (ok (accepted, transcript)) runner subject ran same e =
        elim (accept_message-Outcomes hashing s.transcript m false (some subject) same) [
          | inl (_, taken) ↦
              subst (λ t. Step t.0 t.1 t.2) (ok-injective e)
                (inl (refl, refl, record { subject = subject; ran = ran; taken = taken }))
          | inr (wrong, _) ↦ absurd (wrong refl)
        ]
    commit-Step (ok (rejected, transcript)) runner subject ran same e = inr (ground arith)
    commit-Step (ok (duplicate, transcript)) runner subject ran same e = inr (ground arith)
    commit-Step (ok (conflict, transcript)) runner subject ran same e = inr (ground arith)
    commit-Step (ok (not_transcribed, transcript)) runner subject ran same e = inr (ground arith)
    commit-Step (ok (prior_mismatch, transcript)) runner subject ran same e = inr (ground arith)
    commit-Step (ok (no_op, transcript)) runner subject ran same e = inr (ground arith)

    transcribe-Step :
        (run : Outcome (List Finding × Runner)) (subject : TrustedSubject) {o : TraceOutcome}
        {fs : List Finding} {s' : Session}
        → apply hashing calendar s.runner m entries materials ≡ run
        → (do r ← run; transcribe platform r s m subject) ≡ ok (o, fs, s')
        → Step o fs s'
    transcribe-Step (refused t) subject same e = absurd (ground arith)
    transcribe-Step crashed subject same e = absurd (ground arith)
    transcribe-Step (ok (f ∷ fs, runner)) subject same e = inr (ground arith)
    transcribe-Step (ok ([], runner)) subject same e = commit-Step _ runner subject same refl e

    with_subject-Step :
        (found : Option TrustedSubject × List Finding) {o : TraceOutcome} {fs : List Finding}
        {s' : Session}
        → with_subject platform found s m entries materials ≡ ok (o, fs, s')
        → Step o fs s'
    with_subject-Step (none, found) e = inr (ground arith)
    with_subject-Step (some subject, f ∷ fs) e = inr (ground arith)
    with_subject-Step (some subject, []) e = transcribe-Step _ subject refl e

    dynamic-Step :
        (found : List Finding) {o : TraceOutcome} {fs : List Finding} {s' : Session}
        → dynamic platform found s m entries materials ≡ ok (o, fs, s')
        → Step o fs s'
    dynamic-Step (f ∷ fs) e = inr (ground arith)
    dynamic-Step [] e = with_subject-Step _ e

    checked-Step :
        (w : Outcome (List Finding)) {o : TraceOutcome} {fs : List Finding} {s' : Session}
        → (do found ← w; dynamic platform found s m entries materials) ≡ ok (o, fs, s')
        → Step o fs s'
    checked-Step (refused t) e = absurd (ground arith)
    checked-Step crashed e = absurd (ground arith)
    checked-Step (ok found) e = dynamic-Step found e

    replayed-Step :
        (w : Outcome (Option String)) {o : TraceOutcome} {fs : List Finding} {s' : Session}
        → (do response ← w; ok (replayed response s)) ≡ ok (o, fs, s')
        → Step o fs s'
    replayed-Step (refused t) e = absurd (ground arith)
    replayed-Step crashed e = absurd (ground arith)
    replayed-Step (ok none) e = inr (ground arith)
    replayed-Step (ok (some response)) e = inr (ground arith)

    uncommitted-Step :
        (c : Classification) (reg : DedupRegistry) {o : TraceOutcome} {fs : List Finding}
        {s' : Session}
        → classify hashing s.transcript.dedup m false none ≡ ok (c, reg)
        → (c ≡ replay_conflict) ⊎ (c ≡ excluded)
        → (do t ← accept_message hashing s.transcript m false none; ok (uncommitted t s))
          ≡ ok (o, fs, s')
        → Step o fs s'
    unfolding accept_message
    uncommitted-Step c reg same (inl is) e =
        let e1 = rw same at e in let e2 = rw is at e1 in inr (ground arith)
    uncommitted-Step c reg same (inr is) e =
        let e1 = rw same at e in let e2 = rw is at e1 in inr (ground arith)

    classified-Step :
        (w : Outcome (Classification × DedupRegistry)) (requester : Option TrustedSubject)
        {o : TraceOutcome} {fs : List Finding} {s' : Session}
        → classify hashing s.transcript.dedup m false none ≡ w
        → (do c ← w; classified platform c.0 s m entries materials requester) ≡ ok (o, fs, s')
        → Step o fs s'
    classified-Step (refused t) requester same e = absurd (ground arith)
    classified-Step crashed requester same e = absurd (ground arith)
    classified-Step (ok (new_event, reg)) requester same e = checked-Step _ e
    classified-Step (ok (exact_duplicate, reg)) requester same e = replayed-Step _ e
    classified-Step (ok (replay_conflict, reg)) requester same e =
        uncommitted-Step replay_conflict reg same (inl refl) e
    classified-Step (ok (excluded, reg)) requester same e =
        uncommitted-Step excluded reg same (inr refl) e

    preflighted-Step :
        (found : List Finding) (requester : Option TrustedSubject) {o : TraceOutcome}
        {fs : List Finding} {s' : Session}
        → preflighted platform found s m entries materials requester ≡ ok (o, fs, s')
        → Step o fs s'
    preflighted-Step (f ∷ fs) requester e = inr (ground arith)
    preflighted-Step [] requester e = classified-Step _ requester refl e

    -- Whatever the function returns for a message, either the outcome is `accepted` without a
    -- finding, the runner is the one that `apply` returns and the transcript has taken the
    -- message, or the outcome is another one and runner and transcript are as before.
    pub message-Step :
        (requester : Option TrustedSubject) {o : TraceOutcome} {fs : List Finding} {s' : Session}
        → apply_trace_message_atomically platform s m entries materials requester ≡ ok (o, fs, s')
        → Step o fs s'
    unfolding apply_trace_message_atomically
    message-Step requester e = preflighted-Step _ requester e
