-- ===== src/Materials/Requesters/Trusted.antt =====
-- What `requester_fixture_findings` of scripts/validate_messages.py establishes.
use private_match_protocol.Prelude.{
  String, ◌≡◌, refl, ap, ◌↔◌, true, Option, none, some, List, [], arith, sym,
}
use mathlib.Core.Path.{subst}
use private_match_protocol.Json.{str, put}
use private_match_protocol.Materials.{
  SubjectKind, party_subject, coordinator_subject, profile_subject,
}
use private_match_protocol.Json.{Json, obj, Fields, end, field, get, json_eq}
use private_match_protocol.Checks.{append-eq-nil}
use private_match_protocol.Findings.{require, sorted_set, sorted_set-eq-nil}
use private_match_protocol.Materials.{Material, find_material}
use private_match_protocol.Digest.{Hashing}
use private_match_protocol.Materials.Requesters.Sole.{Sole, find_material-Sole, Sole-find_material}
use private_match_protocol.Materials.Requesters.{
  expected_requester, text_form, matched_findings, one_requester, all_requesters,
  requester_fixture_findings,
}

-- The members of a requester with the subject of a material, in the order of their names.
abbrev pub subject_members : SubjectKind → Material → Json → Fields
subject_members (party_subject participant) m id = field "actor" (str m.subject_actor) (
    field "key_id" (str m.key_id) (
      field "participant_id" (str participant) (
        field "subject_binding_id" (str m.subject_binding_id)
          (field "verification_material_id" id end))))
subject_members coordinator_subject m id = field "actor" (str m.subject_actor) (
    field "key_id" (str m.key_id) (
      field "subject_binding_id" (str m.subject_binding_id)
        (field "verification_material_id" id end)))
subject_members (profile_subject profile version instance_id) m id =
    field "actor" (str m.subject_actor) (
      field "key_id" (str m.key_id) (
        field "profile_id" (str profile) (
          field "profile_instance_id" (str instance_id) (
            field "profile_version" (str version) (
              field "subject_binding_id" (str m.subject_binding_id)
                (field "verification_material_id" id end))))))

-- The same members as the dict of the code.
expected_lem :
    (kind : SubjectKind) (m : Material) (id : Json)
    → m.subject_kind ≡ kind
    → expected_requester m id ≡ obj (subject_members kind m id)
unfolding put
expected_lem (party_subject p) m id e = rw e refl
expected_lem coordinator_subject m id e = rw e refl
expected_lem (profile_subject p v i) m id e = rw e refl

module _ (h : Hashing) (materials : List Material) where
  -- A requester has exactly the members of the subject of the one material that it names.
  pub record Trusted (requester : Fields) : Type 0 where
    pub sole : Sole materials (text_form h materials (get "verification_material_id" requester))
    pub exact :
        json_eq (obj requester) (
          obj (
            subject_members sole.material.subject_kind sole.material
              (get "verification_material_id" requester)))
        ≡ true

  -- Every requester of the fixture that is a dict is trusted.
  pub data AllTrusted : Fields → Type 0 where
    no_requester : AllTrusted end
    trusted_first :
        {name : String} {requester rest : Fields}
        → Trusted requester
        → AllTrusted rest
        → AllTrusted (field name (obj requester) rest)
    passed_over :
        {name : String} {v : Json} {rest : Fields}
        → ((requester : Fields) → v ≡ obj requester → ⊥)
        → AllTrusted rest
        → AllTrusted (field name v rest)

  matched :
      (w : Option Material) (name : String) (requester : Fields)
      → find_material materials (text_form h materials (get "verification_material_id" requester))
        ≡ w
      → matched_findings h materials w name requester ≡ []
      → Trusted requester
  unfolding require
  matched none name requester same e = absurd (ground arith)
  matched (some m) name requester same e =
      let id = get "verification_material_id" requester in
      let (sole, kept) = find_material-Sole materials (text_form h materials id) m same in
      let equal : json_eq (obj requester) (expected_requester m id) ≡ true = ground arith in
      record {
        sole = sole;
        exact =
            subst (λ v. json_eq (obj requester) v ≡ true)
              (expected_lem sole.material.subject_kind sole.material id refl)
              (subst (λ n. json_eq (obj requester) (expected_requester n id) ≡ true) (sym kept)
                equal);
      }

  trusted_none :
      (name : String) (requester : Fields)
      → Trusted requester
      → one_requester h materials name (obj requester) ≡ []
  unfolding require
  trusted_none name requester t =
      let id = get "verification_material_id" requester in
      rw
        (
          Sole-find_material materials (text_form h materials id) t.sole,
          expected_lem t.sole.material.subject_kind t.sole.material id refl,
          t.exact,
        )
        refl

  all_found : (fs : Fields) → all_requesters h materials fs ≡ [] → AllTrusted fs
  all_found end e = no_requester
  all_found (field name (obj requester) rest) e =
      let (here, later) = append-eq-nil (one_requester h materials name (obj requester)) _ e in
      trusted_first (matched _ name requester refl here) (all_found rest later)
  all_found (field name v rest) e = passed_over (λ requester same. ground arith) (all_found rest e)

  other_none :
      (name : String) (v : Json)
      → ((requester : Fields) → v ≡ obj requester → ⊥)
      → one_requester h materials name v ≡ []
  other_none name (obj requester) other = absurd (other requester refl)
  other_none name v other = refl

  none_found : (fs : Fields) → AllTrusted fs → all_requesters h materials fs ≡ []
  none_found end no_requester = refl
  none_found (field name (obj requester) rest) (trusted_first t more) =
      rw (trusted_none name requester t) (none_found rest more)
  none_found (field name v rest) (passed_over other more) =
      rw (other_none name v other) (none_found rest more)

  -- The check of a requester fixture has no finding exactly where every requester that is a dict names
  -- the identifier of exactly one of the materials, and has exactly the members that its subject gives:
  -- actor, key, subject binding, the identifier, and those of its kind.
  pub requesters_iff :
      (requesters : Fields)
      → (requester_fixture_findings h materials (obj requesters) ≡ []) ↔ AllTrusted requesters
  unfolding requester_fixture_findings
  requesters_iff requesters = (
    (λ e. all_found requesters (sorted_set-eq-nil _ e)),
    (λ t. ap sorted_set (none_found requesters t)),
  )
