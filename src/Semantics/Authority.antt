-- ===== src/Semantics/Authority.antt =====
-- `semantic_message_findings` of scripts/validate_messages.py: the authentication and its material.
use Prim.Native.String
use private_match_protocol.Prelude.{
  String, Bool, ◌&&◌, ◌||◌, not, Option, none, some, List, [], ◌∷◌, ◌++◌, str_eq, if◌then◌else◌, ℤ,
}
use private_match_protocol.Json.{Json, str, json_eq, get, member}
use private_match_protocol.Findings.{Finding, finding, require}
use private_match_protocol.Message.{Message}
use private_match_protocol.Message.Kinds.{MessageType, participant_binding}
use private_match_protocol.Times.{Calendar, parse_time}
use private_match_protocol.Materials.{
  SubjectKind, party_subject, coordinator_subject, profile_subject, Material, find_material,
  is_before, is_from, is_party_actor,
}
use private_match_protocol.Runner.{Context}
use private_match_protocol.Semantics.Bindings.{report}

abbrev binding_mismatch : MessageType → Message → List Finding → List Finding
binding_mismatch participant_binding m fs =
    report
      (is_party_actor m.sender.actor
        && (not (json_eq (get "participant_id" m.payload) m.sender.participant_id)
            || not (json_eq (get "participant_key_id" m.payload) (str m.sender.key_id))))
      "authentication-subject" "message.payload"
      (if str_eq m.sender.actor "party_a_client"
        then "binding payload must match authenticated party_a"
        else "binding payload must match authenticated party_b")
      fs
binding_mismatch _ m fs = fs

abbrev profile_mismatch : String → Json → String → List Finding → List Finding
profile_mismatch value selected key fs =
    report (not (json_eq (str value) (member key selected))) "authentication-subject"
      "message.authentication.verification_material_id"
      (String.◌++◌ "verification material " (String.◌++◌ key " does not match selected profile")) fs

-- The `elif` on the kind of the subject.
abbrev kind_findings : SubjectKind → Message → Context → List Finding → List Finding
kind_findings (party_subject p) m c fs = binding_mismatch m.message_type m (
    report (not (json_eq (str p) m.sender.participant_id)) "authentication-subject"
      "message.sender.participant_id" "verification material participant does not match sender" fs)
kind_findings (profile_subject p v i) m c fs =
    let selected = c.session_context.selected_integration_profile in
    profile_mismatch i selected "profile_instance_id"
      (profile_mismatch v selected "profile_version" (profile_mismatch p selected "profile_id" fs))
kind_findings coordinator_subject m c fs = fs

unfoldable pub subject_findings : Material → Message → Context → List Finding → List Finding
unfolding require finding json_eq get
subject_findings mat m c fs =
    if str_eq mat.subject_actor m.sender.actor
    then kind_findings mat.subject_kind m c fs
    else fs
      ++ finding "authentication-subject" "message.authentication.verification_material_id"
          "verification material subject actor does not match sender"
        ∷ []

abbrev material_key : Bool → String → List Finding → List Finding
material_key agrees key fs =
    report (not agrees) "verification-material" (String.◌++◌ "message.authentication." key)
      (String.◌++◌ "does not match " (String.◌++◌ key " registry binding")) fs

unfoldable pub binding_findings : Material → Message → Context → List Finding → List Finding
unfolding require finding subject_findings
binding_findings mat m c fs =
    let auth = m.authentication in
    report (not (str_eq mat.status "active")) "verification-material" "message"
      (String.◌++◌ "material status is " mat.status)
      (subject_findings mat m c (
        report (not (str_eq auth.key_id m.sender.key_id)) "authentication-subject"
          "message.authentication.key_id" "authentication key must equal the claimed sender key"
          (material_key (str_eq auth.key_id mat.key_id) "key_id" (
            material_key (str_eq auth.algorithm_id mat.algorithm_id) "algorithm_id"
              (material_key (str_eq auth.mode mat.mode) "mode" fs)))))

unfoldable pub validity_findings :
    Option ℤ → Option ℤ → Option ℤ → Option ℤ → List Finding → List Finding
unfolding require finding
validity_findings issued now from until fs =
    report (is_from now until) "verification-material" "message"
      "material is expired at authoritative time"
      (report (is_before now from) "verification-material" "message"
        "material is not yet valid at authoritative time"
        (report (is_from issued until) "verification-material" "message" "material is expired" (
          report (is_before issued from) "verification-material" "message"
            "material is not yet valid" fs)))

module _ (cal : Calendar) where
  abbrev material_branch :
      Option Material → Message → Context → Option ℤ → Option ℤ → List Finding → List Finding
  material_branch none m c issued now fs =
      fs
      ++ finding "verification-material" "message.authentication.verification_material_id"
          "unknown verification material"
        ∷ []
  material_branch (some mat) m c issued now fs =
      let f1 = binding_findings mat m c fs in
      let (from, f2) = parse_time cal (str mat.not_before) "material.not_before" f1 in
      let (until, f3) = parse_time cal (str mat.not_after) "material.not_after" f2 in
      validity_findings issued now from until f3

  -- Every delivery class of the schema is external.
  unfoldable pub authentication_findings :
      List Material → Message → Context → Option ℤ → Option ℤ → List Finding → List Finding
  unfolding find_material require finding parse_time binding_findings validity_findings
  authentication_findings materials m c issued now fs =
      material_branch (find_material materials m.authentication.verification_material_id) m c issued
        now
        (report (str_eq m.authentication.mode "none") "authentication" "message.authentication.mode"
          "external message authentication cannot be none" fs)
