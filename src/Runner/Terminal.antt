-- ===== src/Runner/Terminal.antt =====
-- `AbstractStateRunner.apply` of scripts/validate_messages.py in a session that is over.
use private_match_protocol.Prelude.{◌≡◌, ap, ◌∙◌, ◌≢◌, inl, inr, true, List, []}
use private_match_protocol.Message.{Message}
use private_match_protocol.Message.Kinds.{MessageType}
use private_match_protocol.Phases.{Phase}
use private_match_protocol.Materials.{Material}
use private_match_protocol.Registry.{Entry}
use private_match_protocol.Times.{Calendar}
use private_match_protocol.Digest.{Hashing}
use private_match_protocol.Digest.Errors.{ok}
use private_match_protocol.Runner.{Runner}
use private_match_protocol.Runner.Apply.{apply}
use private_match_protocol.Runner.Invariant.{is_over}
use private_match_protocol.Prelude.{sym, arith}
use private_match_protocol.Findings.{Finding}
use private_match_protocol.Runner.Atomic.{apply-Concluded}
use private_match_protocol.Runner.Effects.{diagram, apply-Accounted}

no_move : (t : MessageType) (p q : Phase) → is_over p ≡ true → diagram t p q ≢ true
no_move t p q over e = ground arith

module _ (h : Hashing) (cal : Calendar) (r : Runner) (m : Message) (entries : List Entry)
    (materials : List Material) {found : List Finding} {r' : Runner}
    (run : apply h cal r m entries materials ≡ ok (found, r')) where
  -- In a session that is closed, aborted or expired, every message that `apply` returns from is
  -- refused with a finding, and the state stays as it was.
  pub apply_over : is_over r.phase ≡ true → (found ≢ []) × (r' ≡ r)
  apply_over over = elim (apply-Concluded h cal r m entries materials run) [
    | inr (some_found, same) ↦ (some_found, sym same)
    | inl (u, _, none_found, same) ↦ absurd (
        no_move m.message_type r.phase r'.phase over
          (apply-Accounted h cal r m entries materials
            (run ∙ ap (λ fs. ok (fs, r')) none_found)).0.moved)
  ]
