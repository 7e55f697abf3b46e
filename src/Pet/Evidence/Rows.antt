-- ===== src/Pet/Evidence/Rows.antt =====
-- The checks of an acknowledgment in scripts/pet_profiles.py, one by one.
use private_match_protocol.Prelude.{
  String, ◌≡◌, refl, sym, ap, Bool, true, false, List, [], ◌∷◌, arith, ◌⊎◌, inl, inr, ◌||◌, str_eq,
  eq_iff, Bool-cases,
}
use mathlib.Core.Path.{subst}
use private_match_protocol.Json.{Json, str, obj, Fields, get, json_eq}
use private_match_protocol.Checks.{AllHold}
use private_match_protocol.Digest.Errors.{ok}
use private_match_protocol.Digest.{Hashing}
use private_match_protocol.Runner.Atomic.{ok-injective}
use private_match_protocol.Conformance.Projection.{picked}
use private_match_protocol.LocalResults.{names_are}
use private_match_protocol.Pet.Patterns.{is_digest, is_version, is_bounded}
use private_match_protocol.Pet.Evidence.{
  text_such, require_all, evidence_rows, acknowledgment_evidence_digest, context_rows,
}

module _ {ℓ} {A : Type ℓ} where
  pub require_all-ok :
      (rows : List (Bool × String)) (a b : A) → require_all rows a ≡ ok b → AllHold rows × (b ≡ a)
  unfolding require_all
  require_all-ok [] a b e = (tt, sym (ok-injective e))
  require_all-ok ((true, code) ∷ rows) a b e =
      let (held, same) = require_all-ok rows a b e in ((refl, held), same)
  require_all-ok ((false, code) ∷ rows) a b e = absurd (ground arith)

  pub require_all-AllHold :
      (rows : List (Bool × String)) (a : A) → AllHold rows → require_all rows a ≡ ok a
  unfolding require_all
  require_all-AllHold [] a held = refl
  require_all-AllHold ((true, code) ∷ rows) a held = require_all-AllHold rows a held.1
  require_all-AllHold ((false, code) ∷ rows) a held = absurd (ground arith)

-- The twelve names of a complete binding.
abbrev pub closed_names : List String
closed_names =
    "profile_evidence_binding_digest" ∷ "acknowledging_party_slot" ∷ "evaluation_attempt_id"
    ∷ "normalized_acknowledgment_status" ∷ "opaque_receipt_ref" ∷ "participant_binding_digest"
    ∷ "profile_digest" ∷ "profile_evidence_ref" ∷ "profile_id" ∷ "profile_instance_id"
    ∷ "profile_version" ∷ "session_id" ∷ []

-- A text of a form.
abbrev pub TextSuch : (String → Bool) → Json → Type 0
TextSuch form v = (s : String) × (v ≡ str s) × (form s ≡ true)

-- The same value under the name.
abbrev pub Same : String → Fields → Fields → Type 0
Same k b other = json_eq (get k b) (get k other) ≡ true

text_such-TextSuch : (form : String → Bool) (v : Json) → text_such form v ≡ true → TextSuch form v
text_such-TextSuch form (str s) e = (s, refl, e)
text_such-TextSuch form v e = absurd (ground arith)

TextSuch-text_such : (form : String → Bool) (v : Json) → TextSuch form v → text_such form v ≡ true
TextSuch-text_such form v (s, same, e) = subst (λ w. text_such form w ≡ true) (sym same) e

slot_named :
    (v : Json)
    → text_such (λ s. str_eq s "party_a" || str_eq s "party_b") v ≡ true
    → (v ≡ str "party_a") ⊎ (v ≡ str "party_b")
slot_named (str s) e = elim (Bool-cases (str_eq s "party_a")) [
  | inl a ↦ inl (ap str ((eq_iff s "party_a").0 a))
  | inr other ↦ inr (ap str ((eq_iff s "party_b").0 (rw other at e)))
]
slot_named v e = absurd (ground arith)

named_slot :
    (v : Json)
    → (v ≡ str "party_a") ⊎ (v ≡ str "party_b")
    → text_such (λ s. str_eq s "party_a" || str_eq s "party_b") v ≡ true
named_slot v (inl e) =
    subst (λ w. text_such (λ s. str_eq s "party_a" || str_eq s "party_b") w ≡ true) (sym e) refl
named_slot v (inr e) =
    subst (λ w. text_such (λ s. str_eq s "party_a" || str_eq s "party_b") w ≡ true) (sym e) refl

module _ (h : Hashing) (party : String) (observed authority : Fields) where
  -- A binding with the closed members and their valid values, which names the Party, the observed state
  -- and the profile authority, and holds the digest of its own members.
  pub record Bound (v : Json) (b : Fields) : Type 0 where
    pub members : Fields
    pub given : v ≡ obj members
    pub names : names_are closed_names members ≡ true
    pub status :
        json_eq (get "normalized_acknowledgment_status" members) (str "ACKNOWLEDGED") ≡ true
    pub slot :
        (get "acknowledging_party_slot" members ≡ str "party_a")
        ⊎ (get "acknowledging_party_slot" members ≡ str "party_b")
    pub receipt : TextSuch is_digest (get "opaque_receipt_ref" members)
    pub participants : TextSuch is_digest (get "participant_binding_digest" members)
    pub own_digest : TextSuch is_digest (get "profile_evidence_binding_digest" members)
    pub evidence : TextSuch is_bounded (get "profile_evidence_ref" members)
    pub session : TextSuch is_bounded (get "session_id" members)
    pub profile : TextSuch is_bounded (get "profile_id" members)
    pub profile_instance : TextSuch is_bounded (get "profile_instance_id" members)
    pub attempt : TextSuch is_bounded (get "evaluation_attempt_id" members)
    pub version : TextSuch is_version (get "profile_version" members)
    pub profile_digest : TextSuch is_digest (get "profile_digest" members)
    pub taken : b ≡ picked closed_names members
    pub for_party : json_eq (get "acknowledging_party_slot" b) (str party) ≡ true
    pub for_participants : Same "participant_binding_digest" b observed
    pub for_receipt : Same "opaque_receipt_ref" b observed
    pub for_status : json_eq (get "normalized_acknowledgment_status" b) (str "ACKNOWLEDGED") ≡ true
    pub for_session : Same "session_id" b observed
    pub for_profile : Same "profile_id" b authority
    pub for_version : Same "profile_version" b authority
    pub for_digest : Same "profile_digest" b authority
    pub for_instance : Same "profile_instance_id" b authority
    pub for_attempt : Same "evaluation_attempt_id" b observed
    pub digest : String
    pub computed : acknowledgment_evidence_digest h b ≡ ok digest
    pub stored : json_eq (get "profile_evidence_binding_digest" b) (str digest) ≡ true

  -- The rows of the two groups of checks, from the fields of the record and back.
  pub closed_rows : (v : Json) (b : Fields) (i : Bound v b) → AllHold (evidence_rows true i.members)
  closed_rows v b i = (
    i.names,
    (
      i.status,
      (
        named_slot _ i.slot,
        (
          TextSuch-text_such _ _ i.receipt,
          (
            TextSuch-text_such _ _ i.participants,
            (
              TextSuch-text_such _ _ i.own_digest,
              (
                TextSuch-text_such _ _ i.evidence,
                (
                  TextSuch-text_such _ _ i.session,
                  (
                    TextSuch-text_such _ _ i.profile,
                    (
                      TextSuch-text_such _ _ i.profile_instance,
                      (
                        TextSuch-text_such _ _ i.attempt,
                        (
                          TextSuch-text_such _ _ i.version,
                          (TextSuch-text_such _ _ i.profile_digest, tt),
                        ),
                      ),
                    ),
                  ),
                ),
              ),
            ),
          ),
        ),
      ),
    ),
  )

  pub named_rows :
      (v : Json) (b : Fields) → Bound v b → AllHold (context_rows h party observed authority b)
  named_rows v b i = (
    i.for_party,
    (
      i.for_participants,
      (
        i.for_receipt,
        (
          i.for_status,
          (
            i.for_session,
            (i.for_profile, (i.for_version, (i.for_digest, (i.for_instance, (i.for_attempt, tt))))),
          ),
        ),
      ),
    ),
  )

  pub from_rows :
      (v : Json) (b members : Fields) (digest : String)
      → v ≡ obj members
      → AllHold (evidence_rows true members)
      → b ≡ picked closed_names members
      → AllHold (context_rows h party observed authority b)
      → acknowledgment_evidence_digest h b ≡ ok digest
      → json_eq (get "profile_evidence_binding_digest" b) (str digest) ≡ true
      → Bound v b
  from_rows v b members digest given
        (
          names,
          (
            status,
            (
              slot,
              (
                receipt,
                (
                  participants,
                  (
                    own,
                    (
                      evidence,
                      (
                        session,
                        (profile, (instance_id, (attempt, (version, (profile_digest, _))))),
                      ),
                    ),
                  ),
                ),
              ),
            ),
          ),
        )
        taken
        (
          for_party,
          (
            for_participants,
            (
              for_receipt,
              (
                for_status,
                (
                  for_session,
                  (for_profile, (for_version, (for_digest, (for_instance, (for_attempt, _))))),
                ),
              ),
            ),
          ),
        )
        computed stored =
      record {
        members = members;
        given = given;
        names = names;
        status = status;
        slot = slot_named _ slot;
        receipt = text_such-TextSuch _ _ receipt;
        participants = text_such-TextSuch _ _ participants;
        own_digest = text_such-TextSuch _ _ own;
        evidence = text_such-TextSuch _ _ evidence;
        session = text_such-TextSuch _ _ session;
        profile = text_such-TextSuch _ _ profile;
        profile_instance = text_such-TextSuch _ _ instance_id;
        attempt = text_such-TextSuch _ _ attempt;
        version = text_such-TextSuch _ _ version;
        profile_digest = text_such-TextSuch _ _ profile_digest;
        taken = taken;
        for_party = for_party;
        for_participants = for_participants;
        for_receipt = for_receipt;
        for_status = for_status;
        for_session = for_session;
        for_profile = for_profile;
        for_version = for_version;
        for_digest = for_digest;
        for_instance = for_instance;
        for_attempt = for_attempt;
        digest = digest;
        computed = computed;
        stored = stored;
      }
