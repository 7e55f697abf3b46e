-- ===== src/Tests.antt =====
-- Examples: the theorems at concrete inputs.
pub mod Data
pub mod Traces
pub mod Runners
pub mod Records
pub mod Machine
pub mod Conformance
pub mod Pet
pub mod Digests
pub mod Reports
