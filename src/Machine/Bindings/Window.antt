-- ===== src/Machine/Bindings/Window.antt =====
-- The window of `message_time_failures`.
use private_match_protocol.Prelude.{◌≡◌, ◌↔◌, [], ℤ, pos, ◌+ℤ◌, ◌≤ℤ◌, arith}
use private_match_protocol.Machine.Bindings.{message_time_failures}

-- The instants and the bounds are not negative, and the message is neither older than the threshold nor
-- further ahead than the skew.
pub record InWindow (authoritative_time issued_at skew threshold : ℤ) : Type 0 where
  pub time_valid : pos 0 ≤ℤ authoritative_time
  pub issue_valid : pos 0 ≤ℤ issued_at
  pub skew_valid : pos 0 ≤ℤ skew
  pub threshold_valid : pos 0 ≤ℤ threshold
  pub not_stale : authoritative_time ≤ℤ issued_at +ℤ threshold
  pub not_early : issued_at ≤ℤ authoritative_time +ℤ skew

module _ (authoritative_time issued_at skew threshold : ℤ) where
  in_window :
      message_time_failures authoritative_time issued_at skew threshold ≡ []
      → InWindow authoritative_time issued_at skew threshold
  unfolding message_time_failures
  in_window e = ground arith

  accepted :
      InWindow authoritative_time issued_at skew threshold
      → message_time_failures authoritative_time issued_at skew threshold ≡ []
  unfolding message_time_failures
  accepted w = ground arith

  -- The time relation has no failure exactly when the four numbers are not negative and the message was
  -- issued at most the threshold before the authoritative time and at most the skew after it.
  pub message_time_iff :
      (message_time_failures authoritative_time issued_at skew threshold ≡ [])
      ↔ InWindow authoritative_time issued_at skew threshold
  message_time_iff = (in_window, accepted)
