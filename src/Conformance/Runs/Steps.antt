-- ===== src/Conformance/Runs/Steps.antt =====
-- The single steps of a run of `execute_case` of scripts/conformance_engine.py: what each keeps of the
-- session.
use private_match_protocol.Prelude.{
  if◌then◌else◌, ℕ, String, ◌≡◌, sym, ◌≢◌, ◌≤◌, ◌+◌, ◌⊎◌, inl, inr, Bool, true, false, Option, some,
  List, [], ◌∷◌, arith,
}
use mathlib.Core.Path.{subst}
use private_match_protocol.Findings.{Finding}
use private_match_protocol.Json.{Fields}
use private_match_protocol.Checks.{append-eq-nil}
use private_match_protocol.Digest.Errors.{ok}
use private_match_protocol.Transcript.{Verdict, accepted, no_op, conflict}
use private_match_protocol.Transitions.{Transition}
use private_match_protocol.Runner.{Runner}
use private_match_protocol.Runner.Invariant.{Inv}
use private_match_protocol.Runner.Agreement.{Agreement}
use private_match_protocol.LocalResults.{apply_profile_local_result_fixture}
use private_match_protocol.LocalResults.Laws.{
  apply_fixture-Outcomes, Supplied-Inv, Supplied-Agreement,
}
use private_match_protocol.Trace.{Platform, Session, TraceClass, verdict, Traced}
use private_match_protocol.Trace.Sessions.{Event, Event-Inv, Event-Agreement, Event-counted}
use private_match_protocol.Conformance.Codes.{finding_codes-eq-nil}
use private_match_protocol.Conformance.Inputs.{
  rejecting, accepting, terminal, doing_nothing, ended_or_accepted, ProtocolOutcome, Progress,
  Control, continue, break, traced_message, traced_timer, delivered, ticked, judged,
  delivered_verdict, delivered_class, reject, reject_with, settle,
}

-- A stretch of at most n events: it keeps what holds of the runner, and counts no more of them.
pub record Kept (n : ℕ) (s s' : Session) : Type 0 where
  pub invariant : Inv s.runner → Inv s'.runner
  pub agreement : Agreement s.runner → Agreement s'.runner
  pub counted : s'.transcript.accepted_event_index ≤ s.transcript.accepted_event_index + n

pub still-Kept : (n : ℕ) (s : Session) → Kept n s s
still-Kept n s = record { invariant = λ v. v; agreement = λ v. v; counted = omega arith }

pub then-Kept : {n m : ℕ} {s s' s'' : Session} → Kept n s s' → Kept m s' s'' → Kept (n + m) s s''
then-Kept a b = record {
  invariant = λ v. b.invariant (a.invariant v);
  agreement = λ v. b.agreement (a.agreement v);
  counted = (let one = a.counted in let two = b.counted in omega arith);
}

longer-Kept : {n m : ℕ} {s s' : Session} → n ≤ m → Kept n s s' → Kept m s s'
longer-Kept le a = record {
  invariant = a.invariant;
  agreement = a.agreement;
  counted = (let one = a.counted in omega arith);
}

event_count :
    (s s' : Session)
    → (s' ≡ s) ⊎ (s'.transcript.accepted_event_index ≡ s.transcript.accepted_event_index + 1)
    → s'.transcript.accepted_event_index ≤ s.transcript.accepted_event_index + 1
event_count s s' (inl same) =
    subst (λ x. x.transcript.accepted_event_index ≤ s.transcript.accepted_event_index + 1)
      (sym same) (omega arith)
event_count s s' (inr one) = omega arith

module _ (platform : Platform) where
  open platform use {hashing}

  pub Event-Kept : {s s' : Session} → Event platform s s' → Kept 1 s s'
  Event-Kept e = record {
    invariant = Event-Inv platform e;
    agreement = Event-Agreement platform e;
    counted = event_count _ _ (Event-counted platform e);
  }

  pub supply-Kept :
      (s : Session) (fixture : Fields) {fs : List Finding} {runner : Runner}
      → apply_profile_local_result_fixture hashing s.runner fixture ≡ ok (fs, runner)
      → Kept 1 s (record s { runner = runner })
  supply-Kept s fixture {fs} {runner} run =
      elim (apply_fixture-Outcomes hashing s.runner fixture run) [
        | inl (_, a) ↦ record {
          invariant = Supplied-Inv s.runner fixture runner a;
          agreement = Supplied-Agreement s.runner fixture runner a;
          counted = omega arith;
        }
        | inr (_, same) ↦ record {
          invariant = λ v. subst Inv (sym same) v;
          agreement = λ v. subst Agreement (sym same) v;
          counted = omega arith;
        }
      ]

-- A rejection is explained by an error code.
abbrev pub Explained : Progress → Type 0
Explained p = p.protocol_outcome ≡ rejecting → p.error_codes ≢ []

pub record Led (n : ℕ) (p q : Progress) : Type 0 where
  pub stretch : Kept n p.session q.session
  pub explained : Explained p → Explained q

abbrev pub left : Control → Progress
left (continue p) = p
left (break p) = p

pub still-Led : (n : ℕ) (p : Progress) → Led n p p
still-Led n p = record { stretch = still-Kept n p.session; explained = λ x. x }

pub then-Led : {n m : ℕ} {p q r : Progress} → Led n p q → Led m q r → Led (n + m) p r
then-Led a b = record {
  stretch = then-Kept a.stretch b.stretch;
  explained = λ x. b.explained (a.explained x);
}

pub longer-Led : {n m : ℕ} {p q : Progress} → n ≤ m → Led n p q → Led m p q
longer-Led le a = record { stretch = longer-Kept le a.stretch; explained = a.explained }

module _ (lower : List ℕ → List ℕ) (p : Progress) where
  reject-Led :
      {n : ℕ} (f : Finding) (fs : List Finding) (s : Session)
      → Kept n p.session s
      → Led n p (reject lower (f ∷ fs) s p)
  reject-Led f fs s k = record {
    stretch = k;
    explained = λ before is none_left. absurd (
        let none_found =
          finding_codes-eq-nil lower (f ∷ fs) (append-eq-nil p.error_codes _ none_left).1 in
        ground arith);
  }

  pub reject_with-Led :
      {n : ℕ} (code : String) (s : Session)
      → Kept n p.session s
      → Led n p (reject_with lower code s p)
  reject_with-Led code s k = record {
    stretch = k;
    explained = λ before is none_left.
        absurd (let none_found = (append-eq-nil p.error_codes _ none_left).1 in ground arith);
  }

  settle-Led :
      {n : ℕ} (o : ProtocolOutcome) (s : Session)
      → o ≢ rejecting
      → Kept n p.session s
      → Led n p (settle lower o s p)
  settle-Led o s other k = record { stretch = k; explained = λ before is. absurd (other is) }

  ended_other : (b : Bool) → ended_or_accepted b ≢ rejecting
  ended_other b = ground arith

  quiet_other :
      (quiet b : Bool) → (if quiet then doing_nothing else ended_or_accepted b) ≢ rejecting
  quiet_other quiet b = ground arith

  over_other : (b : Bool) → (if b then terminal else doing_nothing) ≢ rejecting
  over_other b = ground arith

  nothing_other : doing_nothing ≢ rejecting
  nothing_other = ground arith

  accepting_other : accepting ≢ rejecting
  accepting_other = ground arith

  pub traced_message-Led :
      {n : ℕ} (x : Traced) → Kept n p.session x.2 → Led n p (left (traced_message lower x p))
  traced_message-Led (o, f ∷ fs, s) k = reject-Led f fs s k
  traced_message-Led (o, [], s) k = settle-Led _ s (quiet_other _ _) k

  pub traced_timer-Led :
      {n : ℕ} (x : Verdict × Option Transition × List Finding × Session)
      → Kept n p.session x.3
      → Led n p (left (traced_timer lower x p))
  traced_timer-Led (v, t, f ∷ fs, s) k = reject-Led f fs s k
  traced_timer-Led (accepted, t, [], s) k = settle-Led _ s (ended_other _) k
  traced_timer-Led (no_op, t, [], s) k = settle-Led _ s (over_other _) k
  traced_timer-Led (v, t, [], s) k = reject_with-Led _ s k

  verdict-Led :
      {n : ℕ} (v : Verdict) (s : Session)
      → Kept n p.session s
      → Led n p (delivered_verdict lower v s p)
  verdict-Led accepted s k = settle-Led _ s (ended_other _) k
  verdict-Led conflict s k = reject_with-Led _ s k
  verdict-Led v s k = reject_with-Led _ s k

  class-Led :
      {n : ℕ} (c : TraceClass) (s : Session)
      → Kept n p.session s
      → Led n p (delivered_class lower c s p)
  class-Led (verdict v) s k = verdict-Led v s k
  class-Led c s k = reject_with-Led _ s k

  answered-Led :
      {n : ℕ} (quiet authorized : Bool) (c : TraceClass) (s : Session)
      → Kept n p.session s
      → Led n p (
          if quiet
          then record (settle lower doing_nothing s p) { response_authorized = some authorized }
          else delivered_class lower c s p)
  answered-Led true authorized c s k = record {
    stretch = k;
    explained = λ before is. absurd (nothing_other is);
  }
  answered-Led false authorized c s k = class-Led c s k

  pub delivered-Led : {n : ℕ} (x : Traced) → Kept n p.session x.2 → Led n p (delivered lower x p)
  delivered-Led (o, f ∷ fs, s) k = reject-Led f fs s k
  delivered-Led (o, [], s) k = answered-Led _ _ o.classification s k

  pub ticked-Led :
      {n : ℕ} (x : Verdict × Option Transition × List Finding × Session)
      → Kept n p.session x.3
      → Led n p (ticked lower x p)
  ticked-Led (v, t, f ∷ fs, s) k = reject-Led f fs s k
  ticked-Led (accepted, t, [], s) k = settle-Led _ s (ended_other _) k
  ticked-Led (no_op, t, [], s) k = settle-Led _ s nothing_other k
  ticked-Led (v, t, [], s) k = reject_with-Led _ s k

  pub judged-Led :
      {n : ℕ} (fs : List Finding) (s : Session) → Kept n p.session s → Led n p (judged lower fs s p)
  judged-Led [] s k = settle-Led _ s accepting_other k
  judged-Led (f ∷ fs) s k = reject-Led f fs s k
