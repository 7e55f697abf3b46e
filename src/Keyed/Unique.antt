-- ===== src/Keyed/Unique.antt =====
-- `_unique_index` of scripts/validate_messages.py: which keys its index holds.
use private_match_protocol.Prelude.{
  ◌≡◌, refl, sym, ap, ◌∙◌, Bool, true, false, List, [], ◌∷◌, ◌++◌, arith, any, Bool-cases, inl, inr,
}
use mathlib.Core.Path.{subst}
use mathlib.Core.List.{append-nil, append_assoc}
use private_match_protocol.Keyed.{Key, key_eq, find, index_item, index_items, unique_index}
use private_match_protocol.Keyed.Laws.{
  key_eq_refl, key_eq_sound, find-store, find-drop, occurrences, only,
}

key_apart : (k q : Key) → key_eq k q ≡ false → key_eq q k ≡ false
key_apart k q apart = elim (Bool-cases (key_eq q k)) [
  | inl same ↦
      (let e = key_eq_sound q k same in
        absurd (let r = key_eq_refl k in let t = rw e at apart in cc))
  | inr other ↦ other
]

module _ {ℓ} {V : Type ℓ} where
  abbrev repeated : List V → Bool
  repeated [] = false
  repeated (v ∷ []) = false
  repeated (v ∷ w ∷ vs) = true

  -- The state of the loop after the values met under the key `q`.
  abbrev Seen : Key → List V → List (Key × V) × List Key → Type ℓ
  Seen q seen state = (find q state.0 ≡ only seen) × (any state.1 (key_eq q) ≡ repeated seen)

  met_again :
      (q : Key) (v : V) (seen : List V) (index : List (Key × V)) (dups : List Key)
      → Seen q seen (index, dups)
      → Seen q (seen ++ v ∷ []) (index_item (q, v) (index, dups))
  unfolding index_item
  met_again q v [] index dups h = ground (arith, find-store q q v index, key_eq_refl q)
  met_again q v (w ∷ []) index dups h = ground (arith, find-drop q q index, key_eq_refl q)
  met_again q v (w ∷ x ∷ seen) index dups h = ground (arith, key_eq_refl q)

  met_other :
      (k q : Key) (v : V) (seen : List V) (index : List (Key × V)) (dups : List Key)
      → key_eq k q ≡ false
      → Seen q seen (index, dups)
      → Seen q seen (index_item (k, v) (index, dups))
  unfolding index_item
  met_other k q v seen index dups apart h =
      ground (arith, find-store k q v index, find-drop k q index, key_apart k q apart)

  items_unique :
      (items : List (Key × V)) (q : Key) (seen : List V) (state : List (Key × V) × List Key)
      → Seen q seen state
      → find q (index_items items state).0 ≡ only (seen ++ occurrences q items)
  unfolding index_items
  items_unique [] q seen state h = h.0 ∙ ap only (sym (append-nil seen))
  items_unique ((k, v) ∷ items) q seen (index, dups) h = elim (Bool-cases (key_eq k q)) [
    | inl same ↦
        (let e = key_eq_sound k q same in
          let met =
            subst (λ j. Seen q (seen ++ v ∷ []) (index_item (j, v) (index, dups))) (sym e)
              (met_again q v seen index dups h) in
          items_unique items q (seen ++ v ∷ []) (index_item (k, v) (index, dups)) met
          ∙ ap only (rw same (append_assoc seen (v ∷ []) (occurrences q items))))
    | inr apart ↦
        items_unique items q seen (index_item (k, v) (index, dups))
          (met_other k q v seen index dups apart h)
        ∙ ap only (rw apart)
  ]

  -- Under each key the index holds the item that alone has the key, and nothing where no item or more
  -- than one item has it.
  pub find-unique_index :
      (items : List (Key × V)) (q : Key) → find q (unique_index items) ≡ only (occurrences q items)
  unfolding unique_index find
  find-unique_index items q = items_unique items q [] ([], []) (refl, refl)
