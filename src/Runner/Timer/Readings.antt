-- ===== src/Runner/Timer/Readings.antt =====
-- What `apply_timer_to_runner` of scripts/validate_messages.py reads from the runner and the event.
use private_match_protocol.Prelude.{
  String, ℤ, pos, ltb_ℤ, ◌≤ℤ◌, ◌≡◌, refl, ap, ◌∙◌, sym, inl, inr, Option, none, some, List, [],
  arith, Bool-cases, str_eq, eq_iff,
}
use mathlib.Core.Path.{subst}
use private_match_protocol.Json.{Json, null, str, int, Fields, get, integer_of}
use private_match_protocol.Checks.{append-eq-nil}
use private_match_protocol.Findings.{Finding, require}
use private_match_protocol.Times.{
  Calendar, IsoTime, no_time, naive_time, instant, replace_zulu, epoch_microseconds, read_iso,
  in_microseconds,
}
use private_match_protocol.Phases.{Slots}
use private_match_protocol.Clock.{ConsentWindow, valid}
use private_match_protocol.Transcript.{TimerEvent}
use private_match_protocol.Runner.{Runner}
use private_match_protocol.Runner.Timer.{
  deadline_time, consent_window, reviewed_jump, policy_findings,
}

some_injective {ℓ} : {A : Type ℓ} {a b : A} → some a ≡ some b → a ≡ b
some_injective {a} e = ap (λ o. elim o [ some x ↦ x | none ↦ a ]) e

module _ (cal : Calendar) where
  -- A value that is the text of an instant, in microseconds.
  pub record Instant (v : Json) (t : ℤ) : Type 0 where
    pub text : String
    pub given : v ≡ str text
    pub moment : ℤ
    pub read : cal.fromisoformat (replace_zulu text) ≡ instant moment
    pub exact : t ≡ cal.timestamp_microseconds moment

  -- The evaluation deadline, where there is one.
  abbrev pub DeadlineRead : Json → Option ℤ → Type 0
  DeadlineRead null d = d ≡ none
  DeadlineRead v d = (t : ℤ) × (d ≡ some t) × Instant v t

  -- The window of a consent that is present: it is valid until its expiry.
  abbrev pub ConsentRead : Option Fields → Option ConsentWindow → Type 0
  ConsentRead none w = w ≡ none
  ConsentRead (some c) w =
      (t : ℤ) × (w ≡ some (record { status = valid; expires_at = some t }))
      × Instant (get "expires_at" c) t

  -- The event is for the session, and every value that the clock relation reads is valid.
  pub record Read (r : Runner) (e : TimerEvent) (current proposed expiry seconds : ℤ)
      (deadline : Option ℤ) (consent : Slots (Option ConsentWindow)) : Type 0 where
    pub session : e.session_id ≡ r.base_context.session_context.session_id
    pub current_read : Instant r.authoritative_time current
    pub proposed_read : Instant (str e.new_authoritative_time) proposed
    pub expiry_read : Instant r.session_expires_at expiry
    pub deadline_read : DeadlineRead r.evaluation_deadline deadline
    pub policy : r.maximum_time_jump_seconds ≡ int seconds
    pub policy_valid : pos 0 ≤ℤ seconds
    pub consent_a_read : ConsentRead r.consents.slot_a consent.slot_a
    pub consent_b_read : ConsentRead r.consents.slot_b consent.slot_b

  abbrev Found : Json → Option ℤ → Type 0
  Found v o = (t : ℤ) × (o ≡ some t) × Instant v t

  iso_sound :
      (s place : String) (fs : List Finding) (w : IsoTime)
      → cal.fromisoformat (replace_zulu s) ≡ w
      → (in_microseconds cal (read_iso cal w place fs)).1 ≡ []
      → (fs ≡ []) × Found (str s) (in_microseconds cal (read_iso cal w place fs)).0
  iso_sound s place fs no_time same e = absurd (let wrong = append-eq-nil fs _ e in ground arith)
  iso_sound s place fs naive_time same e = absurd (let wrong = append-eq-nil fs _ e in ground arith)
  iso_sound s place fs (instant m) same e = (
    e,
    (
      cal.timestamp_microseconds m,
      refl,
      record { text = s; given = refl; moment = m; read = same; exact = refl },
    ),
  )

  -- A value without a finding is an instant, and there was no finding before.
  epoch_microseconds-Found :
      (v : Json) (place : String) (fs : List Finding)
      → (epoch_microseconds cal v place fs).1 ≡ []
      → (fs ≡ []) × Found v (epoch_microseconds cal v place fs).0
  unfolding epoch_microseconds
  epoch_microseconds-Found (str s) place fs e = iso_sound s place fs _ refl e
  epoch_microseconds-Found v place fs e = absurd (let wrong = append-eq-nil fs _ e in ground arith)

  -- The instant that is found is the one that is read.
  pub epoch_microseconds-Instant :
      (v : Json) (place : String) (fs : List Finding)
      → (epoch_microseconds cal v place fs).1 ≡ []
      → (fs ≡ []) × ((t : ℤ) → (epoch_microseconds cal v place fs).0 ≡ some t → Instant v t)
  epoch_microseconds-Instant v place fs e =
      let (none_before, (t, found, i)) = epoch_microseconds-Found v place fs e in
      (
        none_before,
        λ u read. let same : t ≡ u = some_injective (sym found ∙ read) in subst (Instant v) same i,
      )

  pub Instant-epoch_microseconds :
      (v : Json) (t : ℤ) (place : String) (fs : List Finding)
      → Instant v t
      → epoch_microseconds cal v place fs ≡ (some t, fs)
  unfolding epoch_microseconds
  Instant-epoch_microseconds v t place fs i =
      ap (λ x. epoch_microseconds cal x place fs) i.given
      ∙ (ap (λ w. in_microseconds cal (read_iso cal w place fs)) i.read
          ∙ ap (λ (x : ℤ). (some x, fs)) (sym i.exact))

  pub deadline_time-DeadlineRead :
      (v : Json) (fs : List Finding)
      → (deadline_time cal v fs).1 ≡ []
      → (fs ≡ []) × DeadlineRead v (deadline_time cal v fs).0
  deadline_time-DeadlineRead null fs e = (e, refl)
  deadline_time-DeadlineRead (str s) fs e = epoch_microseconds-Found (str s) _ fs e
  deadline_time-DeadlineRead v fs e = epoch_microseconds-Found v _ fs e

  pub DeadlineRead-deadline_time :
      (v : Json) (d : Option ℤ) (fs : List Finding)
      → DeadlineRead v d
      → deadline_time cal v fs ≡ (d, fs)
  DeadlineRead-deadline_time null d fs i = ap (λ (x : Option ℤ). (x, fs)) (sym i)
  DeadlineRead-deadline_time (str s) d fs (t, same, i) =
      Instant-epoch_microseconds (str s) t "runner.evaluation_deadline" fs i
      ∙ ap (λ (x : Option ℤ). (x, fs)) (sym same)
  DeadlineRead-deadline_time v d fs (t, same, i) =
      Instant-epoch_microseconds v t "runner.evaluation_deadline" fs i
      ∙ ap (λ (x : Option ℤ). (x, fs)) (sym same)

  pub consent_window-ConsentRead :
      (c : Option Fields) (place : String) (fs : List Finding)
      → (consent_window cal c place fs).1 ≡ []
      → (fs ≡ []) × ConsentRead c (consent_window cal c place fs).0
  consent_window-ConsentRead none place fs e = (e, refl)
  consent_window-ConsentRead (some c) place fs e =
      let (none_before, (t, found, i)) = epoch_microseconds-Found (get "expires_at" c) place fs e in
      (
        none_before,
        (t, ap (λ (x : Option ℤ). some (record { status = valid; expires_at = x })) found, i),
      )

  pub ConsentRead-consent_window :
      (c : Option Fields) (w : Option ConsentWindow) (place : String) (fs : List Finding)
      → ConsentRead c w
      → consent_window cal c place fs ≡ (w, fs)
  ConsentRead-consent_window none w place fs i = ap (λ (x : Option ConsentWindow). (x, fs)) (sym i)
  ConsentRead-consent_window (some c) w place fs (t, same, i) =
      rw (Instant-epoch_microseconds (get "expires_at" c) t place fs i)
        (ap (λ (x : Option ConsentWindow). (x, fs)) (sym same))

-- The policy has a jump that is not negative.
pub policy_findings-some :
    (v : Json) (fs : List Finding)
    → policy_findings (reviewed_jump (integer_of v)) fs ≡ []
    → (fs ≡ []) × ((n : ℤ) → reviewed_jump (integer_of v) ≡ some n → (v ≡ int n) × (pos 0 ≤ℤ n))
policy_findings-some (int m) fs e = elim (Bool-cases (ltb_ℤ m (pos 0))) [
  | inl negative ↦ absurd (let wrong = append-eq-nil fs _ (rw negative at e) in ground arith)
  | inr reviewed ↦ (
    rw reviewed at e,
    λ n found. ((let same = some_injective (rw reviewed at found) in ap int same), ground arith),
  )
]
policy_findings-some v fs e = absurd (let wrong = append-eq-nil fs _ e in ground arith)

pub reviewed_jump_lem :
    (v : Json) (n : ℤ) → v ≡ int n → pos 0 ≤ℤ n → reviewed_jump (integer_of v) ≡ some n
reviewed_jump_lem v n e valid_jump = ap (λ x. reviewed_jump (integer_of x)) e ∙ ground arith

pub require-eq-nil : (s t : String) (f : Finding) → require (str_eq s t) f [] ≡ [] → s ≡ t
unfolding require
require-eq-nil s t f e = (eq_iff s t).0 (ground arith)

pub require-same : (s t : String) (f : Finding) → s ≡ t → require (str_eq s t) f [] ≡ []
unfolding require
require-same s t f e = rw ((eq_iff s t).1 e) refl
