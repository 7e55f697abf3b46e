-- ===== src/Materials/Requesters.antt =====
-- `requester_fixture_findings` of scripts/validate_messages.py: the trusted projections of a test fixture
-- against the reviewed materials.
pub mod Sole
pub mod Trusted
use private_match_protocol.Prelude.{String, Option, none, some, List, [], ◌∷◌, ◌++◌}
use Prim.Native.String
use private_match_protocol.Json.{Json, str, obj, Fields, end, field, get, json_eq}
use private_match_protocol.Findings.{Finding, finding, require, sorted_set}
use private_match_protocol.Materials.{
  Material, SubjectKind, party_subject, coordinator_subject, profile_subject, find_material,
}
use private_match_protocol.Digest.{Hashing}
use private_match_protocol.Conformance.Projection.{object}

-- The members that depend on the kind of the subject.
abbrev kind_members : SubjectKind → List (String × Json)
kind_members (party_subject participant) = ("participant_id", str participant) ∷ []
kind_members coordinator_subject = []
kind_members (profile_subject profile version instance_id) =
    ("profile_id", str profile)
    ∷ ("profile_version", str version)
    ∷ ("profile_instance_id", str instance_id)
    ∷ []

-- The dict `expected`, for the identifier that the requester gives.
abbrev pub expected_requester : Material → Json → Json
expected_requester m material_id = object (
    ("actor", str m.subject_actor)
    ∷ ("key_id", str m.key_id)
    ∷ ("subject_binding_id", str m.subject_binding_id)
    ∷ ("verification_material_id", material_id)
    ∷ kind_members m.subject_kind)

abbrev requester_finding : String → String → Finding
requester_finding place detail =
    finding "authenticated-requester" (String.◌++◌ "requesters." place) detail

module _ (h : Hashing) (materials : List Material) where
  -- `str(value)`
  abbrev pub text_form : Json → String
  text_form (str s) = s
  text_form v = h.display v

  abbrev matched_findings : Option Material → String → Fields → List Finding
  matched_findings none name requester =
      requester_finding (String.◌++◌ name ".verification_material_id")
        "must reference a unique reviewed verification material"
      ∷ []
  matched_findings (some m) name requester =
      require
        (json_eq (obj requester) (expected_requester m (get "verification_material_id" requester)))
        (requester_finding name
          "trusted projection must exactly match its reviewed material subject")
        []

  abbrev pub one_requester : String → Json → List Finding
  one_requester name (obj requester) =
      matched_findings
        (find_material materials (text_form (get "verification_material_id" requester))) name
        requester
  one_requester name _ = []

  abbrev pub all_requesters : Fields → List Finding
  all_requesters end = []
  all_requesters (field name requester rest) = one_requester name requester ++ all_requesters rest

  -- requester_fixture_findings, of the member `requesters`: an empty dict where there is none.
  unfoldable pub requester_fixture_findings : Json → List Finding
  unfolding find_material json_eq get require finding sorted_set
  requester_fixture_findings (obj requesters) = sorted_set (all_requesters requesters)
  requester_fixture_findings _ =
      finding "authenticated-requester" "requesters" "must be a mapping" ∷ []
