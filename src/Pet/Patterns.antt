-- ===== src/Pet/Patterns.antt =====
-- The regular expressions of scripts/pet_profiles.py, matched against a whole text as code points.
use private_match_protocol.Prelude.{
  ℕ, String, Bool, true, false, ◌&&◌, ◌||◌, not, List, [], ◌∷◌, leb, ◌==◌, length, if◌then◌else◌,
}
use private_match_protocol.Digest.Bytes.{codes}

abbrev pub all_in : (ℕ → Bool) → List ℕ → Bool
all_in p [] = true
all_in p (c ∷ cs) = p c && all_in p cs

abbrev pub is_digit : ℕ → Bool
is_digit c = leb b'0' c && leb c b'9'

abbrev pub is_lower : ℕ → Bool
is_lower c = leb b'a' c && leb c b'z'

abbrev after_prefix : List ℕ → List ℕ → (List ℕ → Bool) → Bool
after_prefix [] cs rest = rest cs
after_prefix (p ∷ ps) [] rest = false
after_prefix (p ∷ ps) (c ∷ cs) rest = (p == c) && after_prefix ps cs rest

-- `sha256:[0-9a-f]{64}`
unfoldable pub is_digest : String → Bool
is_digest s =
    after_prefix (codes "sha256:") (codes s)
      (λ cs. (length cs == 64) && all_in (λ c. is_digit c || (leb b'a' c && leb c b'f')) cs)

-- Digits up to the dot, at least one if `some_left`, and digits after it.
abbrev version_rest : Bool → List ℕ → Bool
version_rest seen [] = false
version_rest seen (c ∷ cs) =
    let later = version_rest true cs in
    if is_digit c
    then later
    else (c == b'.') && (seen && (not (length cs == 0) && all_in is_digit cs))

-- `[0-9]+\.[0-9]+`
unfoldable pub is_version : String → Bool
is_version s = version_rest false (codes s)

abbrev profile_rest : List ℕ → Bool
profile_rest [] = false
profile_rest (c ∷ cs) =
    is_lower c
    && (leb 2 (length cs)
        && (leb (length cs) 127 && all_in (λ d. is_lower d || (is_digit d || (d == b'-'))) cs))

-- `[a-z][a-z0-9-]{2,127}`
unfoldable pub is_profile_id : String → Bool
is_profile_id s = profile_rest (codes s)

-- `[!-~]{1,2048}`
unfoldable pub is_instance_id : String → Bool
is_instance_id s =
    let cs = codes s in
    leb 1 (length cs) && (leb (length cs) 2048 && all_in (λ c. leb b'!' c && leb c b'~') cs)

-- `0 < len(s) <= 2048`
unfoldable pub is_bounded : String → Bool
is_bounded s = let cs = codes s in leb 1 (length cs) && leb (length cs) 2048
