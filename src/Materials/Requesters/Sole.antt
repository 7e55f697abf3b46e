-- ===== src/Materials/Requesters/Sole.antt =====
-- The one material that `_material_index` of scripts/validate_messages.py finds under an identifier.
use private_match_protocol.Prelude.{
  String, ◌≡◌, refl, ap, some, List, [], arith, false, ◌∷◌, ◌++◌, any, map, str_eq, eq_iff,
  Bool-cases, inl, inr, sym, ◌∙◌, ◌⊎◌,
}
use private_match_protocol.Keyed.{Key, key_eq}
use private_match_protocol.Keyed.Laws.{occurrences, only}
use private_match_protocol.Keyed.Unique.{find-unique_index}
use private_match_protocol.Materials.{Material, find_material}

-- No material has the identifier.
abbrev pub Unlisted : String → List Material → Type 0
Unlisted id ms = any ms (λ (m : Material). str_eq m.verification_material_id id) ≡ false

-- The one material with the identifier.
pub record Sole (materials : List Material) (id : String) : Type 0 where
  pub before : List Material
  pub material : Material
  pub after : List Material
  pub split : materials ≡ before ++ material ∷ after
  pub named : material.verification_material_id ≡ id
  pub none_before : Unlisted id before
  pub none_after : Unlisted id after

List-cases {ℓ} : {A : Type ℓ} (xs : List A) → (xs ≡ []) ⊎ ((x : A) × (ys : List A) × (xs ≡ x ∷ ys))
List-cases [] = inl refl
List-cases (x ∷ xs) = inr (x, xs, refl)

abbrev keyed : List Material → List (Key × Material)
keyed = map (λ (m : Material). (m.verification_material_id ∷ [], m))

abbrev listed : List Material → String → List Material
listed ms id = occurrences (id ∷ []) (keyed ms)

listed_none : (ms : List Material) (id : String) → Unlisted id ms → listed ms id ≡ []
unfolding key_eq
listed_none [] id e = refl
listed_none (m ∷ ms) id e = ground (arith, listed_none ms id)

none_listed : (ms : List Material) (id : String) → listed ms id ≡ [] → Unlisted id ms
unfolding key_eq
none_listed [] id e = refl
none_listed (m ∷ ms) id e = ground (arith, none_listed ms id)

listed_once :
    (before : List Material) (m : Material) (after : List Material) (id : String)
    → m.verification_material_id ≡ id
    → Unlisted id before
    → Unlisted id after
    → listed (before ++ m ∷ after) id ≡ m ∷ []
unfolding key_eq
listed_once [] m after id named none_before none_after =
    rw ((eq_iff _ _).1 named, listed_none after id none_after) refl
listed_once (n ∷ before) m after id named none_before none_after =
    ground (arith, listed_once before m after id named)

listed-Sole :
    (ms : List Material) (id : String) (m : Material)
    → only (listed ms id) ≡ some m
    → (s : Sole ms id) × (s.material ≡ m)
unfolding key_eq
listed-Sole [] id m e = absurd (ground arith)
listed-Sole (n ∷ ms) id m e = elim (Bool-cases (str_eq n.verification_material_id id)) [
  | inl same ↦ elim (List-cases (listed ms id)) [
    | inl alone ↦ (
      record {
        before = [];
        material = n;
        after = ms;
        split = refl;
        named = (eq_iff _ _).0 same;
        none_before = refl;
        none_after = none_listed ms id alone;
      },
      (let e' = rw (same, alone) at e in ground arith),
    )
    | inr (x, xs, more) ↦ absurd (let e' = rw (same, more) at e in ground arith)
  ]
  | inr other ↦
      (let (s, kept) = listed-Sole ms id m (rw other at e) in
        (
          record {
            before = n ∷ s.before;
            material = s.material;
            after = s.after;
            split = ap (λ xs. n ∷ xs) s.split;
            named = s.named;
            none_before = rw other s.none_before;
            none_after = s.none_after;
          },
          kept,
        ))
]

-- The lookup finds exactly the one material with the identifier.
pub find_material-Sole :
    (ms : List Material) (id : String) (m : Material)
    → find_material ms id ≡ some m
    → (s : Sole ms id) × (s.material ≡ m)
unfolding find_material
find_material-Sole ms id m e =
    listed-Sole ms id m (sym (find-unique_index (keyed ms) (id ∷ [])) ∙ e)

pub Sole-find_material :
    (ms : List Material) (id : String) (s : Sole ms id) → find_material ms id ≡ some s.material
unfolding find_material
Sole-find_material ms id s =
    find-unique_index (keyed ms) (id ∷ [])
    ∙ (ap (λ xs. only (listed xs id)) s.split
        ∙ ap only (listed_once s.before s.material s.after id s.named s.none_before s.none_after))
