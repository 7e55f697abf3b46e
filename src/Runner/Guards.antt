-- ===== src/Runner/Guards.antt =====
-- `require(condition, detail)` of `AbstractStateRunner.apply`: the findings of a row of guards.
pub use private_match_protocol.Checks.{AllHold, append-eq-nil}
use private_match_protocol.Prelude.{String, Bool, true, false, List, [], ◌∷◌, ◌≡◌, refl, arith}
use private_match_protocol.Findings.{Finding, finding}
use private_match_protocol.Message.Kinds.{MessageType, type_name}
use private_match_protocol.Runner.{Runner}

-- Each guard with what is said where it fails.
abbrev pub Guards : Type 0
Guards = List (Bool × String)

unfoldable pub unmet : MessageType → Guards → List Finding
unfolding finding type_name
unmet t [] = []
unmet t ((true, detail) ∷ gs) = unmet t gs
unmet t ((false, detail) ∷ gs) = finding "state-trace" (type_name t) detail ∷ unmet t gs

-- `if not findings:` around an effect.
abbrev pub when_clear : List Finding → Runner → Runner → Runner
when_clear [] updated r = updated
when_clear (f ∷ fs) updated r = r

pub unmet-eq-nil : (t : MessageType) (gs : Guards) → unmet t gs ≡ [] → AllHold gs
unfolding unmet
unmet-eq-nil t [] h = tt
unmet-eq-nil t ((true, detail) ∷ gs) h = (refl, unmet-eq-nil t gs h)
unmet-eq-nil t ((false, detail) ∷ gs) h = absurd (ground arith)
