-- ===== src/Checks.antt =====
-- Rows of checks: a condition, and what is said where it fails.
use private_match_protocol.Prelude.{Bool, true, false, List, [], ◌∷◌, ◌++◌, ◌≡◌, refl, arith}

abbrev pub AllHold {ℓ} : {A : Type ℓ} → List (Bool × A) → Type 0
AllHold [] = Unit
AllHold ((b, detail) ∷ rows) = (b ≡ true) × AllHold rows

module _ {ℓ} {A : Type ℓ} where
  -- What the failing rows say, in order.
  unfoldable pub failing : List (Bool × A) → List A
  failing [] = []
  failing ((true, detail) ∷ rows) = failing rows
  failing ((false, detail) ∷ rows) = detail ∷ failing rows

  pub failing-eq-nil : (rows : List (Bool × A)) → failing rows ≡ [] → AllHold rows
  unfolding failing
  failing-eq-nil [] h = tt
  failing-eq-nil ((true, detail) ∷ rows) h = (refl, failing-eq-nil rows h)
  failing-eq-nil ((false, detail) ∷ rows) h = absurd (ground arith)

  pub failing-AllHold : (rows : List (Bool × A)) → AllHold rows → failing rows ≡ []
  unfolding failing
  failing-AllHold [] h = refl
  failing-AllHold ((true, detail) ∷ rows) h = failing-AllHold rows h.1
  failing-AllHold ((false, detail) ∷ rows) h = absurd (ground arith)

  pub append-eq-nil : (xs ys : List A) → xs ++ ys ≡ [] → (xs ≡ []) × (ys ≡ [])
  append-eq-nil [] ys h = (refl, h)
  append-eq-nil (x ∷ xs) ys h = absurd (ground arith)
