-- ===== src/Findings.antt =====
-- `Finding` and `_finding` of scripts/validate_messages.py, and `sorted(set(findings))`.
use Prim.Native.String.{compare}
use text.Mathlib.Text.{is_lt}
use private_match_protocol.Prelude.{
  String, List, [], ◌∷◌, ◌++◌, Bool, ◌&&◌, ◌||◌, if◌then◌else◌, str_eq, ◌≡◌, refl, arith,
}

pub record Finding : Type 0 where
  pub code : String
  pub place : String
  pub message : String

unfoldable pub finding : String → String → String → Finding
finding code place message = record { code = code; place = place; message = message }

-- `require(condition, detail)` and the like: a finding is added where the condition fails.
unfoldable pub require : Bool → Finding → List Finding → List Finding
require condition f fs = if condition then fs else fs ++ f ∷ []

same : Finding → Finding → Bool
same f g = str_eq f.code g.code && (str_eq f.place g.place && str_eq f.message g.message)

less : String → String → Bool
less s t = is_lt (compare s t)

-- The order of the dataclass: by code, then place, then message.
precedes : Finding → Finding → Bool
unfolding less
precedes f g =
    less f.code g.code
    || (str_eq f.code g.code
        && (less f.place g.place || (str_eq f.place g.place && less f.message g.message)))

insert : Finding → List Finding → List Finding
unfolding same precedes
insert f [] = f ∷ []
insert f (g ∷ gs) =
    let later = insert f gs in
    if same f g then g ∷ gs else if precedes f g then f ∷ g ∷ gs else g ∷ later

-- `sorted(set(findings))`
unfoldable pub sorted_set : List Finding → List Finding
unfolding insert
sorted_set [] = []
sorted_set (f ∷ fs) = insert f (sorted_set fs)

not-nil-insert : (f : Finding) (fs : List Finding) → insert f fs ≡ [] → ⊥
unfolding insert
not-nil-insert f [] h = ground arith
not-nil-insert f (g ∷ gs) h = ground arith

-- No finding is lost altogether.
pub sorted_set-eq-nil : (fs : List Finding) → sorted_set fs ≡ [] → fs ≡ []
unfolding sorted_set
sorted_set-eq-nil [] h = refl
sorted_set-eq-nil (f ∷ fs) h = absurd (not-nil-insert f (sorted_set fs) h)

pub sorted_set-ne-nil : (f : Finding) (fs : List Finding) → sorted_set (f ∷ fs) ≡ [] → ⊥
unfolding sorted_set
sorted_set-ne-nil f fs h = not-nil-insert f (sorted_set fs) h
