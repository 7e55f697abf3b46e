-- ===== src/Texts.antt =====
-- Texts in Python's order, and `sorted(set(texts))`.
use Prim.Native.String.{compare}
use text.Mathlib.Text.{is_lt}
use private_match_protocol.Prelude.{
  String, List, [], ◌∷◌, if◌then◌else◌, str_eq, ◌≡◌, refl, arith, Bool,
}

abbrev precedes : String → String → Bool
precedes s t = is_lt (compare s t)

insert : String → List String → List String
insert s [] = s ∷ []
insert s (t ∷ ts) =
    let later = insert s ts in
    if str_eq s t then t ∷ ts else if precedes s t then s ∷ t ∷ ts else t ∷ later

unfoldable pub sorted_set : List String → List String
unfolding insert
sorted_set [] = []
sorted_set (s ∷ ss) = insert s (sorted_set ss)

not-nil-insert : (s : String) (ts : List String) → insert s ts ≡ [] → ⊥
unfolding insert
not-nil-insert s [] h = ground arith
not-nil-insert s (t ∷ ts) h = ground arith

pub sorted_set-eq-nil : (ss : List String) → sorted_set ss ≡ [] → ss ≡ []
unfolding sorted_set
sorted_set-eq-nil [] h = refl
sorted_set-eq-nil (s ∷ ss) h = absurd (not-nil-insert s (sorted_set ss) h)
