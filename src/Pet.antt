-- ===== src/Pet.antt =====
-- The authority of PET profiles and the evidence of acknowledgments: scripts/pet_profiles.py.
pub mod Patterns
pub mod Evidence
