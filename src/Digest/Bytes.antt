-- ===== src/Digest/Bytes.antt =====
-- `domain`, `digest_bytes`, `format_digest` and `parse_digest` of scripts/canonicalize_message.py.
-- Bytes are numbers below 256.
use Prim.Native.Char.{code}
use Prim.Native.Nat.{◌/◌, ◌%◌}
use Prim.Native.String
use private_match_protocol.Prelude.{
  ℕ, zero, suc, ◌+◌, ◌-◌, ◌*◌, Bool, true, ◌&&◌, Option, none, some, List, [], ◌∷◌, ◌++◌, ltb, leb,
  ◌==◌, length, if◌then◌else◌, String,
}
use private_match_protocol.Digest.Errors.{Outcome, ok, refused}

-- `s.encode()` for a text of ASCII characters.
abbrev pub codes : String → List ℕ
codes String.[] = []
codes (String.◌∷◌ c s) = code c ∷ codes s

abbrev is_ascii : List ℕ → Bool
is_ascii [] = true
is_ascii (c ∷ cs) = ltb c 128 && is_ascii cs

-- `n.to_bytes(width, "big")`, for n below 256 ^ width.
unfoldable pub to_bytes : ℕ → ℕ → List ℕ
to_bytes zero n = []
to_bytes (suc w) n = to_bytes w (n / 256) ++ (n % 256) ∷ []

-- The bytes that `digest_bytes(label, part, …)` hashes: `domain(label)`, then the parts.
unfoldable pub digest_input : String → List ℕ → Outcome (List ℕ)
unfolding to_bytes
digest_input label parts =
    let encoded = codes label in
    if is_ascii encoded
    then (if ltb 65535 (length encoded)
        then refused "digest domain label is too long"
        else ok (to_bytes 2 (length encoded) ++ (encoded ++ parts)))
    else refused "domain label is not ASCII"

-- One digit of `bytes.hex()`.
unfoldable pub hex_digit : ℕ → String
hex_digit n =
    if n == 0
    then "0"
    else if n == 1
    then "1"
    else if n == 2
    then "2"
    else if n == 3
    then "3"
    else if n == 4
    then "4"
    else if n == 5
    then "5"
    else if n == 6
    then "6"
    else if n == 7
    then "7"
    else if n == 8
    then "8"
    else if n == 9
    then "9"
    else if n == 10
    then "a"
    else if n == 11
    then "b"
    else if n == 12
    then "c"
    else if n == 13
    then "d"
    else if n == 14
    then "e"
    else "f"

unfoldable pub hex : List ℕ → String
unfolding hex_digit
hex [] = ""
hex (x ∷ xs) = String.◌++◌ (hex_digit (x / 16)) (String.◌++◌ (hex_digit (x % 16)) (hex xs))

-- format_digest
unfoldable pub format_digest : List ℕ → Outcome String
unfolding hex
format_digest raw =
    if length raw == 32
    then ok (String.◌++◌ "sha256:" (hex raw))
    else refused "SHA-256 digest must contain 32 bytes"

-- The value of a character of `[0-9a-f]`.
unfoldable pub hex_value : ℕ → Option ℕ
hex_value c =
    if leb b'0' c && leb c b'9'
    then some (c - b'0')
    else if leb b'a' c && leb c b'f'
    then some (c - 87)
    else none

abbrev pub cons_byte : Option ℕ → Option ℕ → Option (List ℕ) → Option (List ℕ)
cons_byte (some hi) (some lo) (some bytes) = some ((16 * hi + lo) ∷ bytes)
cons_byte _ _ _ = none

-- `bytes.fromhex` of lower-case digits, none where the pattern does not match.
unfoldable pub unhex : List ℕ → Option (List ℕ)
unfolding hex_value
unhex [] = some []
unhex (c ∷ []) = none
unhex (c ∷ d ∷ cs) = cons_byte (hex_value c) (hex_value d) (unhex cs)

abbrev pub strip_prefix : List ℕ → List ℕ → Option (List ℕ)
strip_prefix [] cs = some cs
strip_prefix (p ∷ ps) [] = none
strip_prefix (p ∷ ps) (c ∷ cs) = if p == c then strip_prefix ps cs else none

abbrev pub digest_pattern : Option (List ℕ) → Outcome (List ℕ)
digest_pattern none = refused "digest must use sha256:<64 lowercase hex> format"
digest_pattern (some bytes) =
    if length bytes == 32
    then ok bytes
    else refused "digest must use sha256:<64 lowercase hex> format"

abbrev pub unhex_rest : Option (List ℕ) → Option (List ℕ)
unhex_rest none = none
unhex_rest (some cs) = unhex cs

-- parse_digest
unfoldable pub parse_digest : String → Outcome (List ℕ)
unfolding unhex
parse_digest s = digest_pattern (unhex_rest (strip_prefix (codes "sha256:") (codes s)))
