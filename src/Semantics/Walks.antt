-- ===== src/Semantics/Walks.antt =====
-- `_walk_prohibited` and `_walk_plaintext_result` of scripts/validate_messages.py.
use Prim.Native.Nat.{◌/◌, ◌%◌}
use Prim.Native.String
use private_match_protocol.Prelude.{
  ℕ, zero, suc, ◌+◌, String, List, [], ◌∷◌, ◌++◌, ltb, any, str_eq, if◌then◌else◌,
}
use private_match_protocol.Json.{
  Json, null, bool, int, str, arr, obj, Items, nil, cons, Fields, end, field,
}
use private_match_protocol.Findings.{Finding, finding}
use private_match_protocol.Digest.Bytes.{hex_digit}
use private_match_protocol.Runner.Evaluation.{is_plaintext_result}

-- PROHIBITED_CORE_KEYS
abbrev pub prohibited_core_keys : List String
prohibited_core_keys =
    "raw_identifiers" ∷ "normalized_identifiers" ∷ "matching_elements" ∷ "non_matching_elements"
    ∷ "exact_intersection_count" ∷ "private_attributes" ∷ "plaintext_result" ∷ "local_result"
    ∷ "local_result_binding" ∷ "actual_disclosure_payload" ∷ "secret_input" ∷ []

-- The decimal text of a number below 10 ^ fuel.
unfoldable pub decimal : ℕ → ℕ → String
unfolding hex_digit
decimal zero n = ""
decimal (suc fuel) n =
    let rest = decimal fuel (n / 10) in
    if ltb n 10 then hex_digit n else String.◌++◌ rest (hex_digit (n % 10))

abbrev member_place : String → String → String
member_place place k = String.◌++◌ place (String.◌++◌ "." k)

abbrev item_place : String → ℕ → String
item_place place i = String.◌++◌ place (String.◌++◌ "[" (String.◌++◌ (decimal 20 i) "]"))

unfoldable mutual
  unfolding finding decimal

  pub walk_prohibited : Json → String → List Finding
  walk_prohibited (obj fs) place = prohibited_fields fs place
  walk_prohibited (arr xs) place = prohibited_items xs 0 place
  walk_prohibited _ place = []

  pub prohibited_items : Items → ℕ → String → List Finding
  prohibited_items nil i place = []
  prohibited_items (cons x xs) i place =
      walk_prohibited x (item_place place i) ++ prohibited_items xs (i + 1) place

  pub prohibited_fields : Fields → String → List Finding
  prohibited_fields end place = []
  prohibited_fields (field k v fs) place =
      (if any prohibited_core_keys (str_eq k)
        then finding "prohibited-data" (member_place place k) "field is forbidden in core JSON" ∷ []
        else [])
      ++ (walk_prohibited v (member_place place k) ++ prohibited_fields fs place)

abbrev plaintext_finding : Json → String → List Finding
plaintext_finding v place =
    if is_plaintext_result v
    then finding "plaintext-outcome" place
        "Coordinator-readable core JSON cannot contain a decision value"
      ∷ []
    else []

unfoldable mutual
  unfolding finding decimal is_plaintext_result

  pub walk_plaintext_result : Json → String → List Finding
  walk_plaintext_result (obj fs) place = plaintext_fields fs place
  walk_plaintext_result (arr xs) place = plaintext_items xs 0 place
  walk_plaintext_result null place = plaintext_finding null place
  walk_plaintext_result (bool b) place = plaintext_finding (bool b) place
  walk_plaintext_result (int n) place = plaintext_finding (int n) place
  walk_plaintext_result (str s) place = plaintext_finding (str s) place

  pub plaintext_items : Items → ℕ → String → List Finding
  plaintext_items nil i place = []
  plaintext_items (cons x xs) i place =
      walk_plaintext_result x (item_place place i) ++ plaintext_items xs (i + 1) place

  pub plaintext_fields : Fields → String → List Finding
  plaintext_fields end place = []
  plaintext_fields (field k v fs) place =
      walk_plaintext_result v (member_place place k) ++ plaintext_fields fs place
