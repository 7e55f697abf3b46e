-- ===== src/Machine.antt =====
-- The guard functions of scripts/validate_session_state_machine.py, beside the clock relation of Clock.
pub mod Disclosure
pub mod Abort
pub mod Retry
pub mod Bindings
