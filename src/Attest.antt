-- ===== src/Attest.antt =====
-- The checks of scripts/test-container-attestation.py on the text of the release workflow.
pub mod Pins
pub mod Release
mod Witnesses
