-- ===== src/Registry.antt =====
-- The message registry of schemas/registry/message-types.v0.1.schema.json, and `_registry_index` of
-- scripts/validate_messages.py.
use private_match_protocol.Prelude.{
  String, ◌||◌, Option, none, some, List, [], ◌∷◌, map, any, is_some, if◌then◌else◌,
}
use private_match_protocol.Keyed.{Key, key_eq, find, store, drop, unique_index}

pub record Entry : Type 0 where
  pub message_type : String
  pub message_version : String
  pub delivery_class : String
  pub allowed_senders : List String
  pub verifier : String
  pub intended_audience : List String
  pub required_fields : List String
  pub prohibited_fields : List String
  pub transitions : List String

-- One round of the loop over the entries that have one version each: the index by type, and the
-- types met in more than one version.
unfoldable pub name_entry :
    Key × Entry → List (Key × Entry) × List Key → List (Key × Entry) × List Key
unfolding find store drop key_eq
name_entry (k, e) (result, ambiguous) =
    if is_some (find k result) || any ambiguous (key_eq k)
    then (drop k result, k ∷ ambiguous)
    else (store k e result, ambiguous)

unfoldable pub name_entries :
    List (Key × Entry) → List (Key × Entry) × List Key → List (Key × Entry) × List Key
unfolding name_entry
name_entries [] state = state
name_entries ((k, e) ∷ items) state = name_entries items (name_entry (e.message_type ∷ [], e) state)

-- _registry_index
unfoldable pub registry_index : List Entry → List (Key × Entry)
unfolding name_entries unique_index
registry_index entries =
    (name_entries
      (unique_index (map (λ (e : Entry). (e.message_type ∷ e.message_version ∷ [], e)) entries))
      ([], [])).0

-- `_registry_index(registry).get(message_type)`
unfoldable pub find_entry : List Entry → String → Option Entry
unfolding registry_index find
find_entry entries message_type = find (message_type ∷ []) (registry_index entries)

-- `entry.get("state_machine", {}).get("transitions", [])`
abbrev pub entry_transitions : Option Entry → List String
entry_transitions none = []
entry_transitions (some e) = e.transitions
