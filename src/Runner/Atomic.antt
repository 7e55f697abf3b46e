-- ===== src/Runner/Atomic.antt =====
-- `AbstractStateRunner.apply` as a whole: atomicity, and what an accepted message keeps.
use private_match_protocol.Prelude.{◌≡◌, refl, ap, ◌≢◌, ◌⊎◌, inl, inr, List, [], ◌∷◌, ◌++◌, arith}
use private_match_protocol.Findings.{Finding, sorted_set-ne-nil}
use private_match_protocol.Digest.Errors.{Outcome, ok, refused, crashed, ◌>>=◌}
use private_match_protocol.Digest.{Hashing}
use private_match_protocol.Message.{Message}
use private_match_protocol.Times.{Calendar}
use private_match_protocol.Materials.{Material}
use private_match_protocol.Registry.{Entry}
use private_match_protocol.Runner.{Runner, party_of}
use private_match_protocol.Runner.Guards.{append-eq-nil}
use private_match_protocol.Runner.Apply.{conclude, advance_sequence, handle, apply, subject_step}

pub ok-injective {ℓ} : {A : Type ℓ} {a b : A} → (let o : Outcome A = ok a in o) ≡ ok b → a ≡ b
ok-injective e = ground arith

conclude-cases :
    (fs : List Finding) (updated before : Runner) {out : List Finding} {r' : Runner}
    → conclude fs updated before ≡ (out, r')
    → ((fs ≡ []) × (out ≡ []) × (updated ≡ r')) ⊎ ((out ≢ []) × (before ≡ r'))
conclude-cases [] updated before e = inl (refl, ground arith, ground arith)
conclude-cases (f ∷ fs) updated before e =
    inr (λ none_left. absurd (sorted_set-ne-nil f fs (ground arith)), ground arith)

-- The part of `apply` behind the branches, over any outcome of theirs: either nothing was found and
-- the sequence is advanced, or something was found and `before` comes back.
abbrev Concluded :
    Outcome (List Finding × Runner) → (Runner → Runner) → Runner → List Finding → Runner → Type 0
Concluded o adv before out r' =
    ((u : Runner) × (o ≡ ok ([], u)) × (out ≡ []) × (adv u ≡ r')) ⊎ ((out ≢ []) × (before ≡ r'))

conclude_outcome :
    (o : Outcome (List Finding × Runner)) (late : Runner → List Finding) (adv : Runner → Runner)
    (before : Runner) {out : List Finding} {r' : Runner}
    → (do found ← o; ok (conclude (found.0 ++ late found.1) (adv found.1) before)) ≡ ok (out, r')
    → Concluded o adv before out r'
conclude_outcome (refused s) late adv before e = absurd (ground arith)
conclude_outcome crashed late adv before e = absurd (ground arith)
conclude_outcome (ok (fs, u)) late adv before e =
    elim (conclude-cases (fs ++ late u) (adv u) before (ok-injective e)) [
      | inl (clear, none_out, same) ↦
          inl (u, ap (λ gs. ok (gs, u)) (append-eq-nil fs (late u) clear).0, none_out, same)
      | inr back ↦ inr back
    ]

module _ (h : Hashing) (cal : Calendar) (r : Runner) (m : Message) (entries : List Entry)
    (materials : List Material) where
  abbrev branch : Outcome (List Finding × Runner)
  branch =
      let p = party_of m.sender.actor in
      let (subject, found) = subject_step cal materials p r m in
      handle h cal m.message_type p r m subject found

  -- Every outcome of `apply`: no findings, with the branch's state and the Party's sequence advanced,
  -- or findings, with the state as it was.
  pub apply-Concluded :
      {out : List Finding} {r' : Runner}
      → apply h cal r m entries materials ≡ ok (out, r')
      → Concluded branch (advance_sequence (party_of m.sender.actor) m.delivery_class) r out r'
  unfolding apply
  apply-Concluded e = conclude_outcome branch _ _ r e
