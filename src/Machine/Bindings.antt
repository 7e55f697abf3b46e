-- ===== src/Machine/Bindings.antt =====
-- `message_time_failures`, `operation_envelope_failures` and `profile_callback_binding_failures` of
-- scripts/validate_session_state_machine.py.
pub mod Window
use private_match_protocol.Prelude.{
  String, Bool, ◌&&◌, ◌||◌, not, List, [], ◌∷◌, ℤ, pos, ◌+ℤ◌, ltb_ℤ, str_eq, if◌then◌else◌, any,
}
use private_match_protocol.Json.{str, obj, Fields, get, json_eq}

abbrev stale : List String
stale = "STALE_MESSAGE" ∷ []

abbrev conflict : List String
conflict = "REPLAY_CONFLICT" ∷ []

abbrev negative : ℤ → Bool
negative n = ltb_ℤ n (pos 0)

-- message_time_failures, over integers.
unfoldable pub message_time_failures : ℤ → ℤ → ℤ → ℤ → List String
message_time_failures authoritative_time issued_at skew threshold =
    if any (authoritative_time ∷ issued_at ∷ skew ∷ threshold ∷ []) negative
    then stale
    else if ltb_ℤ (issued_at +ℤ threshold) authoritative_time
    then stale
    else if ltb_ℤ (authoritative_time +ℤ skew) issued_at
    then stale
    else []

-- operation_envelope_failures
unfoldable pub operation_envelope_failures : String → Fields → List String
unfolding get json_eq
operation_envelope_failures actor envelope =
    if not (str_eq actor "coordinator") || not (json_eq (get "actor_id" envelope) (str actor))
    then conflict
    else []

-- profile_callback_binding_failures
unfoldable pub profile_callback_binding_failures : Fields → Fields → List String
unfolding get json_eq
profile_callback_binding_failures state envelope =
    elim (get "selected_integration_profile_binding" state) [
      | obj selected ↦
          if json_eq (get "profile_id" envelope) (get "profile_id" selected)
            && (json_eq (get "profile_version" envelope) (get "profile_version" selected)
                && (json_eq (get "profile_instance_id" envelope)
                      (get "profile_instance_id" selected)
                    && (json_eq (get "session_id" envelope) (get "session_id" state)
                        && json_eq (get "evaluation_attempt_id" envelope)
                            (get "evaluation_attempt_id" state))))
          then []
          else conflict
      | _ ↦ conflict
    ]
