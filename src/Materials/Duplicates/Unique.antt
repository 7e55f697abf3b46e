-- ===== src/Materials/Duplicates/Unique.antt =====
-- What the registry check of the materials gives the lookup by `_material_index`.
use private_match_protocol.Prelude.{
  ◌≤◌, String, ◌≡◌, refl, sym, ap, ◌∙◌, some, List, [], ◌∷◌, ◌++◌, map, length, length-append,
  arith, Bool-cases, inl, inr,
}
use private_match_protocol.Findings
use private_match_protocol.Texts
use private_match_protocol.Checks.{append-eq-nil}
use private_match_protocol.Keyed.{Key, key_eq}
use private_match_protocol.Keyed.Laws.{occurrences, only, key_eq_refl}
use private_match_protocol.Keyed.Unique.{find-unique_index}
use private_match_protocol.Materials.{Material, find_material}
use private_match_protocol.Materials.Duplicates.{
  count, kept, duplicates, duplicate_finding, identity_findings, material_registry_findings,
}

abbrev ids : List Material → List String
ids items = map (λ (m : Material). m.verification_material_id) items

abbrev keyed : List Material → List (Key × Material)
keyed items = map (λ (m : Material). (m.verification_material_id ∷ [], m)) items

map-eq-nil {ℓ κ} : {A : Type ℓ} {B : Type κ} (f : A → B) (xs : List A) → map f xs ≡ [] → xs ≡ []
map-eq-nil f [] e = refl
map-eq-nil f (x ∷ xs) e = absurd (ground arith)

kept-le :
    (all before after : List String) (s : String)
    → kept all (before ++ s ∷ after) ≡ []
    → count s all ≤ 1
kept-le all [] after s e = ground arith
kept-le all (t ∷ before) after s e = kept-le all before after s (ground arith)

count-occurrences :
    (id : String) (items : List Material)
    → length (occurrences (id ∷ []) (keyed items)) ≡ count id (ids items)
unfolding count key_eq
count-occurrences id [] = refl
count-occurrences id (m ∷ items) = ground (arith, count-occurrences id items)

occurrences-append :
    (k : Key) (xs ys : List Material)
    → occurrences k (keyed (xs ++ ys)) ≡ occurrences k (keyed xs) ++ occurrences k (keyed ys)
occurrences-append k [] ys = refl
occurrences-append k (m ∷ xs) ys = elim (Bool-cases (key_eq (m.verification_material_id ∷ []) k)) [
  | inl same ↦ rw (same, occurrences-append k xs ys)
  | inr other ↦ rw (other, occurrences-append k xs ys)
]

ids-append : (xs ys : List Material) → ids (xs ++ ys) ≡ ids xs ++ ids ys
ids-append [] ys = refl
ids-append (m ∷ xs) ys = rw (ids-append xs ys)

only-middle :
    (xs ys : List Material) (m : Material)
    → length (xs ++ m ∷ ys) ≤ 1
    → only (xs ++ m ∷ ys) ≡ some m
only-middle [] [] m h = refl
only-middle [] (n ∷ ys) m h = absurd (omega arith)
only-middle (n ∷ xs) ys m h = absurd (omega (arith, length-append xs (m ∷ ys)))

no_repeats :
    (items : List Material) → material_registry_findings items ≡ [] → duplicates (ids items) ≡ []
unfolding material_registry_findings
no_repeats items e =
    let (of_ids, _) =
      append-eq-nil (identity_findings "verification_material_id" (ids items)) _
        (Findings.sorted_set-eq-nil _ e) in
    Texts.sorted_set-eq-nil _ (map-eq-nil (duplicate_finding "verification_material_id") _ of_ids)

-- Where the registry check of the materials has no finding, the lookup finds every material under its
-- own identifier.
pub find_material-registered :
    (before after : List Material) (m : Material)
    → material_registry_findings (before ++ m ∷ after) ≡ []
    → find_material (before ++ m ∷ after) m.verification_material_id ≡ some m
unfolding find_material duplicates
find_material-registered before after m e =
    let items = before ++ m ∷ after in
    let id = m.verification_material_id in
    let own = key_eq_refl (id ∷ []) in
    let parts : occurrences (id ∷ []) (keyed items)
        ≡ occurrences (id ∷ []) (keyed before) ++ m ∷ occurrences (id ∷ []) (keyed after) =
      occurrences-append (id ∷ []) before (m ∷ after) ∙ rw own in
    let once =
      kept-le (ids items) (ids before) (ids after) id
        (ap (kept (ids items)) (sym (ids-append before (m ∷ after))) ∙ no_repeats items e) in
    find-unique_index (keyed items) (id ∷ [])
    ∙ ap only parts
    ∙ only-middle (occurrences (id ∷ []) (keyed before)) (occurrences (id ∷ []) (keyed after)) m
        (let l = count-occurrences id items in let p = ap length parts in omega arith)
