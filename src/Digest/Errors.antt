-- ===== src/Digest/Errors.antt =====
-- Exceptions as values: a `CanonicalMessageError` with its text, which callers catch, and any other
-- exception (`KeyError`, `RuntimeError`), which no caller catches.
use private_match_protocol.Prelude.{String}

pub data Outcome {ℓ} (A : Type ℓ) : Type ℓ where
  ok : A → Outcome A
  refused : String → Outcome A
  crashed : Outcome A

infixl 5 ◌>>=◌
abbrev pub ◌>>=◌ {ℓ κ} : {A : Type ℓ} {B : Type κ} → Outcome A → (A → Outcome B) → Outcome B
ok a >>= f = f a
refused e >>= f = refused e
crashed >>= f = crashed
