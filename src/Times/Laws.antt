-- ===== src/Times/Laws.antt =====
-- `_parse_time` of scripts/validate_messages.py keeps the findings that it is given.
use private_match_protocol.Prelude.{◌≡◌, String, Option, none, some, List, [], ◌∷◌, ◌++◌, arith}
use private_match_protocol.Json.{Json, text_of}
use private_match_protocol.Findings.{Finding}
use private_match_protocol.Times.{
  Calendar, IsoTime, no_time, naive_time, instant, parse_time, read_iso, read_time, replace_zulu,
}

snoc-ne-nil : (fs : List Finding) (f : Finding) → fs ++ f ∷ [] ≡ [] → ⊥
snoc-ne-nil [] f h = ground arith
snoc-ne-nil (g ∷ fs) f h = ground arith

module _ (cal : Calendar) where
  read_iso-eq-nil :
      (t : IsoTime) (place : String) (fs : List Finding)
      → (read_iso cal t place fs).1 ≡ []
      → fs ≡ []
  read_iso-eq-nil no_time place fs h = absurd (snoc-ne-nil fs _ h)
  read_iso-eq-nil naive_time place fs h = absurd (snoc-ne-nil fs _ h)
  read_iso-eq-nil (instant t) place fs h = h

  read_time-eq-nil :
      (s : Option String) (place : String) (fs : List Finding)
      → (read_time cal s place fs).1 ≡ []
      → fs ≡ []
  read_time-eq-nil none place fs h = absurd (snoc-ne-nil fs _ h)
  read_time-eq-nil (some s) place fs h =
      read_iso-eq-nil (cal.fromisoformat (replace_zulu s)) place fs h

  pub parse_time-eq-nil :
      (v : Json) (place : String) (fs : List Finding) → (parse_time cal v place fs).1 ≡ [] → fs ≡ []
  unfolding parse_time
  parse_time-eq-nil v place fs h = read_time-eq-nil (text_of v) place fs h
