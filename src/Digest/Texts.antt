-- ===== src/Digest/Texts.antt =====
-- `format_digest` and `parse_digest` of scripts/canonicalize_message.py, one after the other.
use Prim.Native.Char.{code}
use Prim.Native.Nat.{◌/◌, ◌%◌}
use Prim.Native.String
use private_match_protocol.Prelude.{
  ℕ, zero, suc, ◌+◌, ◌*◌, ◌<◌, ◌≡◌, refl, ap, ◌∙◌, ◌==◌, some, List, [], ◌∷◌, ◌++◌, arith,
  Bool-cases, inl, inr, length, String,
}
use mathlib.Core.Path.{subst}
use text.Mathlib.TextLemmas.{nil-append, cons-append}
use private_match_protocol.Digest.Errors.{ok, ◌>>=◌}
use private_match_protocol.Digest.Bytes.{
  codes, hex_digit, hex, format_digest, hex_value, unhex, parse_digest, strip_prefix,
  digest_pattern, unhex_rest, cons_byte,
}

-- Bytes are below 256.
abbrev pub AllBytes : List ℕ → Type 0
AllBytes [] = Unit
AllBytes (x ∷ xs) = (x < 256) × AllBytes xs

codes-append : (s t : String) → codes (String.◌++◌ s t) ≡ codes s ++ codes t
codes-append String.[] t = ap codes (nil-append t)
codes-append (String.◌∷◌ c s) t =
    ap codes (cons-append c s t) ∙ ap (λ cs. code c ∷ cs) (codes-append s t)

-- The one character of a digit.
abbrev Digit : ℕ → Type 0
Digit n = (c : ℕ) × (codes (hex_digit n) ≡ c ∷ []) × (hex_value c ≡ some n)

abbrev Below : (ℕ → Type 0) → ℕ → Type 0
Below p zero = Unit
Below p (suc k) = p k × Below p k

below_at : (p : ℕ → Type 0) (k n : ℕ) → n < k → Below p k → p n
below_at p zero n lt held = absurd (omega arith)
below_at p (suc k) n lt held = elim (Bool-cases (n == k)) [
  | inl same ↦ subst p (ground arith) held.0
  | inr other ↦ below_at p k n (ground arith) held.1
]

digits : Below Digit 16
unfolding hex_digit hex_value
digits = (
  (102, refl, refl),
  (
    (101, refl, refl),
    (
      (100, refl, refl),
      (
        (99, refl, refl),
        (
          (98, refl, refl),
          (
            (97, refl, refl),
            (
              (57, refl, refl),
              (
                (56, refl, refl),
                (
                  (55, refl, refl),
                  (
                    (54, refl, refl),
                    (
                      (53, refl, refl),
                      (
                        (52, refl, refl),
                        (
                          (51, refl, refl),
                          ((50, refl, refl), ((49, refl, refl), ((48, refl, refl), tt))),
                        ),
                      ),
                    ),
                  ),
                ),
              ),
            ),
          ),
        ),
      ),
    ),
  ),
)

digit : (n : ℕ) → n < 16 → Digit n
digit n lt = below_at Digit 16 n lt digits

-- The two digits of a byte, and what follows them.
unhex_byte :
    (x : ℕ) (rest : String)
    → x < 256
    → unhex (codes (String.◌++◌ (hex_digit (x / 16)) (String.◌++◌ (hex_digit (x % 16)) rest)))
      ≡ cons_byte (some (x / 16)) (some (x % 16)) (unhex (codes rest))
unfolding unhex
unhex_byte x rest lt =
    let (c, high, of_c) = digit (x / 16) (omega arith) in
    let (d, low, of_d) = digit (x % 16) (omega arith) in
    ap unhex (
      codes-append (hex_digit (x / 16)) _
      ∙ (ap (λ cs. cs ++ codes (String.◌++◌ (hex_digit (x % 16)) rest)) high
          ∙ ap (λ cs. c ∷ cs)
              (codes-append (hex_digit (x % 16)) rest ∙ ap (λ cs. cs ++ codes rest) low)))
    ∙ (rw (of_c, of_d) refl)

byte_whole : (x : ℕ) → 16 * (x / 16) + x % 16 ≡ x
byte_whole x = omega arith

unhex-hex : (raw : List ℕ) → AllBytes raw → unhex (codes (hex raw)) ≡ some raw
unfolding hex unhex
unhex-hex [] held = refl
unhex-hex (x ∷ xs) held =
    unhex_byte x (hex xs) held.0
    ∙ (ap (λ o. cons_byte (some (x / 16)) (some (x % 16)) o) (unhex-hex xs held.1)
        ∙ ap (λ n. some (n ∷ xs)) (byte_whole x))

formatted :
    (raw : List ℕ)
    → AllBytes raw
    → length raw ≡ 32
    → parse_digest (String.◌++◌ "sha256:" (hex raw)) ≡ ok raw
unfolding parse_digest
formatted raw held long =
    ap (λ cs. digest_pattern (unhex_rest (strip_prefix (codes "sha256:") cs)))
      (codes-append "sha256:" (hex raw))
    ∙ (ap digest_pattern (unhex-hex raw held) ∙ (rw long refl))

-- The text that format_digest makes of 32 bytes is read back by parse_digest as these bytes.
pub parse_digest-format_digest :
    (raw : List ℕ)
    → AllBytes raw
    → length raw ≡ 32
    → (do text ← format_digest raw; parse_digest text) ≡ ok raw
unfolding format_digest
parse_digest-format_digest raw held long = (rw long (formatted raw held long))
