-- ===== src/Materials.antt =====
-- The verification-material registry of schemas/registry/verification-materials.v0.1.schema.json
-- and the trusted subject that `authenticated_subject_parameter` of scripts/validate_messages.py
-- derives from it.
pub mod Duplicates
pub mod Requesters
use private_match_protocol.Prelude.{
  String, Bool, true, false, ◌&&◌, ◌||◌, Option, none, some, List, [], ◌∷◌, ℤ, leb_ℤ, ltb_ℤ, str_eq,
  map, not,
}
use private_match_protocol.Json.{Json, str, json_eq}
use private_match_protocol.Findings.{Finding, finding, require, sorted_set}
use private_match_protocol.Times.{Calendar, parse_time}
use private_match_protocol.Message.{Message}
use private_match_protocol.Keyed.{find, unique_index}

-- The three kinds of subject of the schema, each with its members.
pub data SubjectKind : Type 0 where
  party_subject : String → SubjectKind
  coordinator_subject : SubjectKind
  profile_subject : String → String → String → SubjectKind

pub record Material : Type 0 where
  pub verification_material_id : String
  pub mode : String
  pub algorithm_id : String
  pub key_id : String
  pub status : String
  pub not_before : String
  pub not_after : String
  pub subject_binding_id : String
  pub subject_actor : String
  pub subject_kind : SubjectKind

-- The trusted subject projection: the members that depend on the kind are in `kind`.
pub record TrustedSubject : Type 0 where
  pub actor : String
  pub key_id : String
  pub subject_binding_id : String
  pub verification_material_id : String
  pub kind : SubjectKind

-- `_material_index(materials).get(id)`
unfoldable pub find_material : List Material → String → Option Material
unfolding unique_index find
find_material ms id =
    find (id ∷ []) (unique_index (map (λ (m : Material). (m.verification_material_id ∷ [], m)) ms))

-- `actor in PARTY_ACTORS`
abbrev pub is_party_actor : String → Bool
is_party_actor actor = str_eq actor "party_a_client" || str_eq actor "party_b_client"

abbrev pub is_party_kind : SubjectKind → Bool
is_party_kind (party_subject _) = true
is_party_kind _ = false

abbrev participant_agrees : SubjectKind → Json → Bool
participant_agrees (party_subject p) participant = json_eq (str p) participant
participant_agrees _ participant = true

-- `a and b and a < b`, and `a and b and a >= b`.
abbrev pub is_before : Option ℤ → Option ℤ → Bool
is_before (some a) (some b) = ltb_ℤ a b
is_before _ _ = false

abbrev pub is_from : Option ℤ → Option ℤ → Bool
is_from (some a) (some b) = leb_ℤ b a
is_from _ _ = false

-- The loop over the six conditions on sender, authentication and material.
unfoldable pub subject_bindings : Message → Material → List Finding
unfolding require finding
subject_bindings m mat =
    let sender = m.sender in
    let auth = m.authentication in
    let code : String = "authentication-subject" in
    let f1 =
      require (str_eq mat.status "active")
        (finding code "message.authentication.verification_material_id"
          "trusted subject requires active verification material")
        [] in
    let f2 =
      require (str_eq auth.key_id sender.key_id && str_eq sender.key_id mat.key_id)
        (finding code "message.authentication.key_id"
          "sender, authentication, and material key IDs must match")
        f1 in
    let f3 =
      require (str_eq auth.mode mat.mode && str_eq auth.algorithm_id mat.algorithm_id)
        (finding code "message.authentication"
          "authentication mode and algorithm must match the reviewed material")
        f2 in
    let f4 =
      require (str_eq mat.subject_actor sender.actor)
        (finding code "message.sender.actor" "material subject actor must match sender") f3 in
    let f5 =
      require (participant_agrees mat.subject_kind sender.participant_id)
        (finding code "message.sender.participant_id"
          "material subject participant must match sender")
        f4 in
    require (not (is_party_actor sender.actor) || is_party_kind mat.subject_kind)
      (finding code "message.authentication.verification_material_id"
        "Party event requires a Party verification-material subject")
      f5

-- The four tests of the material's interval.
unfoldable pub interval_findings :
    Option ℤ → Option ℤ → Option ℤ → Option ℤ → List Finding → List Finding
unfolding require finding
interval_findings issued authoritative from until fs =
    let code : String = "authentication-subject" in
    let f1 =
      require (not (is_before issued from)) (finding code "message.issued_at" "material not valid")
        fs in
    let f2 =
      require (not (is_from issued until)) (finding code "message.issued_at" "material expired")
        f1 in
    let f3 =
      require (not (is_before authoritative from))
        (finding code "context.authoritative_time" "material not valid at authoritative time") f2 in
    require (not (is_from authoritative until))
      (finding code "context.authoritative_time" "material expired at authoritative time") f3

abbrev subject_of : Material → String → TrustedSubject
subject_of mat id = record {
  actor = mat.subject_actor;
  key_id = mat.key_id;
  subject_binding_id = mat.subject_binding_id;
  verification_material_id = id;
  kind = mat.subject_kind;
}

module _ (cal : Calendar) where
  -- The findings on a message whose material is known.
  unfoldable pub material_findings : Message → Material → Json → List Finding
  unfolding subject_bindings interval_findings parse_time
  material_findings m mat authoritative_time =
      let (issued, f1) =
        parse_time cal (str m.issued_at) "message.issued_at" (subject_bindings m mat) in
      let (authoritative, f2) = parse_time cal authoritative_time "context.authoritative_time" f1 in
      let (from, f3) = parse_time cal (str mat.not_before) "material.not_before" f2 in
      let (until, f4) = parse_time cal (str mat.not_after) "material.not_after" f3 in
      interval_findings issued authoritative from until f4

  abbrev subject_result : Material → String → List Finding → Option TrustedSubject × List Finding
  subject_result mat id [] = (some (subject_of mat id), [])
  subject_result mat id (f ∷ fs) = (none, sorted_set (f ∷ fs))

  abbrev subject_for : Option Material → Message → Json → Option TrustedSubject × List Finding
  subject_for none m authoritative_time = (
    none,
    finding "authentication-subject" "message.authentication.verification_material_id"
          "trusted subject requires known verification material"
        ∷ [],
  )
  subject_for (some mat) m authoritative_time =
      subject_result mat m.authentication.verification_material_id
        (material_findings m mat authoritative_time)

  -- authenticated_subject_parameter
  unfoldable pub authenticated_subject_parameter :
      List Material → Message → Json → Option TrustedSubject × List Finding
  unfolding find_material material_findings sorted_set finding
  authenticated_subject_parameter ms m authoritative_time =
      subject_for (find_material ms m.authentication.verification_material_id) m authoritative_time
