-- ===== src/Materials/Duplicates.antt =====
-- `material_registry_findings` of scripts/validate_messages.py.
pub mod Unique
use Prim.Native.String
use private_match_protocol.Prelude.{
  ℕ, ◌+◌, String, List, [], ◌∷◌, ◌++◌, map, str_eq, ltb, if◌then◌else◌,
}
use private_match_protocol.Findings.{Finding, finding}
use private_match_protocol.Findings
use private_match_protocol.Texts
use private_match_protocol.Materials.{Material}

-- `values.count(value)`
unfoldable pub count : String → List String → ℕ
count s [] = 0
count s (t ∷ ts) = let later = count s ts in if str_eq t s then later + 1 else later

-- `[value for value in values if values.count(value) > 1]`
abbrev kept : List String → List String → List String
kept all [] = []
kept all (s ∷ ss) = let later = kept all ss in if ltb 1 (count s all) then s ∷ later else later

unfoldable pub duplicates : List String → List String
unfolding count
duplicates values = kept values values

abbrev duplicate_finding : String → String → Finding
duplicate_finding identity_field value =
    finding "material-duplicate" "verification-materials.materials"
      (String.◌++◌ "duplicate " (String.◌++◌ identity_field (String.◌++◌ " " value)))

abbrev identity_findings : String → List String → List Finding
identity_findings identity_field values =
    map (duplicate_finding identity_field) (Texts.sorted_set (duplicates values))

-- material_registry_findings
unfoldable pub material_registry_findings : List Material → List Finding
unfolding duplicates finding Texts.sorted_set Findings.sorted_set
material_registry_findings items = Findings.sorted_set (
    identity_findings "verification_material_id"
      (map (λ (m : Material). m.verification_material_id) items)
    ++ identity_findings "subject_binding_id" (map (λ (m : Material). m.subject_binding_id) items))
