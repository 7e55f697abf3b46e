-- ===== src/Keyed/Laws.antt =====
-- The laws of keyed dicts.
use private_match_protocol.Prelude.{
  ◌≡◌, refl, true, Option, none, some, List, [], ◌∷◌, eq_iff, eq_refl, if◌then◌else◌, arith,
}
use private_match_protocol.Keyed.{Key, key_eq, find, store, drop}

pub key_eq_refl : (k : Key) → key_eq k k ≡ true
unfolding key_eq
key_eq_refl [] = refl
key_eq_refl (s ∷ k) = ground (arith, eq_refl s, key_eq_refl k)

pub key_eq_sound : (k j : Key) → key_eq k j ≡ true → k ≡ j
unfolding key_eq
key_eq_sound [] [] h = refl
key_eq_sound (s ∷ k) (t ∷ j) h = ground (arith, eq_iff s t, key_eq_sound k j)
key_eq_sound k j h = ground arith

module _ {ℓ} {V : Type ℓ} where
  pub find-store :
      (k j : Key) (v : V) (d : List (Key × V))
      → find j (store k v d) ≡ (if key_eq k j then some v else find j d)
  unfolding find store
  find-store k j v d = refl

  pub find-drop :
      (k j : Key) (d : List (Key × V)) → find j (drop k d) ≡ (if key_eq k j then none else find j d)
  unfolding find drop
  find-drop k j [] = ground arith
  find-drop k j ((i, v) ∷ d) = ground (
    arith,
    find-drop k j d,
    key_eq_sound i k,
    key_eq_sound i j,
    key_eq_sound k j,
    key_eq_refl k,
    key_eq_refl j,
    key_eq_refl i,
  )

  -- How many of the items have the key.
  abbrev pub occurrences : Key → List (Key × V) → List V
  occurrences k [] = []
  occurrences k ((j, v) ∷ items) =
      let rest = occurrences k items in if key_eq j k then v ∷ rest else rest

  -- What the index holds under the key, from the values met under it.
  abbrev pub only : List V → Option V
  only [] = none
  only (v ∷ []) = some v
  only (v ∷ w ∷ vs) = none
