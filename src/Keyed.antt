-- ===== src/Keyed.antt =====
-- Python's dicts whose keys are tuples of texts: an association list in which the first match
-- counts, and `_unique_index` of scripts/validate_messages.py.
pub mod Laws
pub mod Unique
use private_match_protocol.Prelude.{
  String, Bool, true, false, ◌&&◌, Option, none, some, List, [], ◌∷◌, str_eq, if◌then◌else◌,
  is_some, any,
}

abbrev pub Key : Type 0
Key = List String

unfoldable pub key_eq : Key → Key → Bool
key_eq [] [] = true
key_eq (s ∷ k) (t ∷ j) = str_eq s t && key_eq k j
key_eq _ _ = false

module _ {ℓ} {V : Type ℓ} where
  -- `d.get(k)`
  unfoldable pub find : Key → List (Key × V) → Option V
  find k [] = none
  find k ((j, v) ∷ d) = if key_eq j k then some v else find k d

  -- `d[k] = v`
  unfoldable pub store : Key → V → List (Key × V) → List (Key × V)
  store k v d = (k, v) ∷ d

  -- `del d[k]`
  unfoldable pub drop : Key → List (Key × V) → List (Key × V)
  drop k [] = []
  drop k ((j, v) ∷ d) = let rest = drop k d in if key_eq j k then rest else (j, v) ∷ rest

  abbrev in_index : Key → List (Key × V) → Bool
  in_index k d = is_some (find k d)

  -- One round of `_unique_index`: the index, and the keys met more than once.
  unfoldable pub index_item : Key × V → List (Key × V) × List Key → List (Key × V) × List Key
  unfolding find store drop
  index_item (k, v) (index, duplicates) =
      if in_index k index
      then (drop k index, k ∷ duplicates)
      else if any duplicates (key_eq k)
      then (index, duplicates)
      else (store k v index, duplicates)

  unfoldable pub index_items :
      List (Key × V) → List (Key × V) × List Key → List (Key × V) × List Key
  unfolding index_item
  index_items [] state = state
  index_items (item ∷ items) state = index_items items (index_item item state)

  -- `_unique_index`, over items with their keys.
  unfoldable pub unique_index : List (Key × V) → List (Key × V)
  unfolding index_items
  unique_index items = (index_items items ([], [])).0
