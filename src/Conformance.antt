-- ===== src/Conformance.antt =====
-- The conformance runner: scripts/conformance_common.py and scripts/conformance_engine.py.
pub mod Names
pub mod Projection
pub mod Codes
pub mod Inputs
pub mod Engine
pub mod Runs
pub mod Executed
pub mod Digests
pub mod Compare
pub mod Adapter
pub mod Unevaluated
pub mod Results
